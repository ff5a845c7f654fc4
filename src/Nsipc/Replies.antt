-- ===== src/Nsipc/Replies.antt =====
-- lib/nsipc.c: what nsipc_recv and nsipc_accept take from a reply, and which assertions fail.
use jos_smp.Base.{
  ℕ, ◌+◌, ◌^◌, ◌<◌, ◌≤◌, ◌≡◌, refl, ◌∙◌, ◌&&◌, leb, ltb, not, false, fun_ext, if◌then◌else◌, arith,
  Bool-cases, inl, inr,
}
use jos_smp.Boot.Load.{read32}
use jos_smp.Memory.Defs.{Mem, memmove}
use jos_smp.Memory.Move.{moved, memmove-moved}
use jos_smp.Nsipc.Defs.{
  Layout, Ipc, Ended, returned, asserted, put32, lt_int, reqva, take_recv, take_accept, nsipc_send,
}
use jos_smp.Nsipc.Messages.{
  Call, accept, bind, shutdown, closesocket, connect, listen, recv, send, socket,
}
use jos_smp.Nsipc.Words.{
  Apart, bytes_at, read32-put32, bytes_at-put32, read32-memmove-Apart, bytes_at-memmove,
}

-- For a reply that is not negative as an `int`, and a length that is not, nsipc_recv returns the
-- reply where it is below 1600 and at most the length, having copied so many bytes from the page at
-- REQVA to the caller's block; otherwise its assertion fails and the memory is as it was.
pub take_recv-moved :
    {W : Type 0} (mem len r : ℕ) (m : Mem) (w : W)
    → r < 2 ^ 31
    → len < 2 ^ 31
    → mem + 1600 < 2 ^ 32
    → take_recv mem len (r, (m, w))
      ≡ (if ltb r 1600 && leb r len then returned r (moved mem reqva r m, w) else asserted (m, w))
unfolding take_recv
take_recv-moved mem len r m w small long fits =
    let same : (lt_int r 1600 && not (lt_int len r)) ≡ (ltb r 1600 && leb r len) = ground arith in
    elim (Bool-cases (ltb r 1600 && leb r len)) [
      | inl y ↦
          let few : r < 1600 = ground arith in
          rw (same, y, fun_ext (λ a. memmove-moved mem reqva r m a (omega arith) (omega arith)))
            refl
      | inr n ↦ rw (same, n) refl
    ]

-- nsipc_send of 1600 bytes or more, as an `int`, sends nothing.
pub nsipc_send-asserted :
    {W : Type 0} (l : Layout) (ipc : Ipc W) (s p n flags : ℕ) (m : Mem) (w : W)
    → 1600 ≤ n
    → n < 2 ^ 31
    → nsipc_send l ipc s p n flags (m, w) ≡ asserted (put32 (l.nsipcbuf + l.send_s) s m, w)
unfolding nsipc_send
nsipc_send-asserted l ipc s p n flags m w h k =
    let many : lt_int n 1600 ≡ false = ground arith in rw many refl

-- nsipc_accept copies the address from the reply, as long as the reply says, and stores its length.
pub take_accept-copied :
    {W : Type 0} (l : Layout) (addr addrlen r n : ℕ) (m : Mem) (w : W)
    → read32 m (reqva + l.ret_addrlen) ≡ n
    → l.ret_addr + n ≤ 4096
    → l.ret_addrlen + 4 ≤ 4096
    → addr + n < 2 ^ 32
    → addrlen + 4 < 2 ^ 32
    → n < 2 ^ 32
    → Apart addr n reqva 4096
    → Apart addrlen 4 addr n
    → (m' : Mem) × (take_accept l addr addrlen (r, (m, w)) ≡ returned r (m', w))
      × (bytes_at m' addr n ≡ bytes_at m (reqva + l.ret_addr) n)
      × (read32 m' addrlen ≡ n)
unfolding take_accept
take_accept-copied l addr addrlen r n m w e in_page in_page' fits fits' word away apart =
    let m1 = memmove addr (reqva + l.ret_addr) n m in
    let again : read32 m1 (reqva + l.ret_addrlen) ≡ n =
      read32-memmove-Apart addr (reqva + l.ret_addr) n m (reqva + l.ret_addrlen) fits (omega arith)
        (omega arith) (omega arith)
      ∙ e in
    (
      put32 addrlen n m1,
      rw (e, again) refl,
      bytes_at-put32 addrlen n m1 fits' addr n apart
          ∙ bytes_at-memmove addr (reqva + l.ret_addr) n m fits (omega arith),
      read32-put32 addrlen n m1 fits' word,
    )

-- A reply that a call can take: for recv, lengths that are not negative, and a block below the end of
-- the address space; for accept, an address inside of the page, and blocks for it and for its length
-- that are apart from each other, that for the address also from the page.
abbrev pub Proper : {W : Type 0} → Layout → Call → ℕ × (Mem × W) → Type 0
Proper l (accept s addr addrlen) (r, (m, w)) =
    let n = read32 m (reqva + l.ret_addrlen) in
    (l.ret_addr + n ≤ 4096)
    × (l.ret_addrlen + 4 ≤ 4096)
    × (addr + n < 2 ^ 32)
    × (addrlen + 4 < 2 ^ 32)
    × (n < 2 ^ 32)
    × Apart addr n reqva 4096
    × Apart addrlen 4 addr n
Proper l (recv s mem len flags) (r, (m, w)) = (r < 2 ^ 31) × (len < 2 ^ 31) × (mem + 1600 < 2 ^ 32)
Proper l (bind s name n) reply = Unit
Proper l (shutdown s how) reply = Unit
Proper l (closesocket s) reply = Unit
Proper l (connect s name n) reply = Unit
Proper l (listen s backlog) reply = Unit
Proper l (send s dataptr n flags) reply = Unit
Proper l (socket domain type protocol) reply = Unit

-- The end of a call, by the reply.
abbrev pub Answers : {W : Type 0} → Layout → Call → ℕ × (Mem × W) → Ended W → Type 0
Answers l (accept s addr addrlen) (r, (m, w)) ended =
    (m' : Mem) × (ended ≡ returned r (m', w))
    × (bytes_at m' addr (read32 m (reqva + l.ret_addrlen))
        ≡ bytes_at m (reqva + l.ret_addr) (read32 m (reqva + l.ret_addrlen)))
    × (read32 m' addrlen ≡ read32 m (reqva + l.ret_addrlen))
Answers l (recv s mem len flags) (r, (m, w)) ended =
    ended
    ≡ (if ltb r 1600 && leb r len then returned r (moved mem reqva r m, w) else asserted (m, w))
Answers l (bind s name n) (r, s') ended = ended ≡ returned r s'
Answers l (shutdown s how) (r, s') ended = ended ≡ returned r s'
Answers l (closesocket s) (r, s') ended = ended ≡ returned r s'
Answers l (connect s name n) (r, s') ended = ended ≡ returned r s'
Answers l (listen s backlog) (r, s') ended = ended ≡ returned r s'
Answers l (send s dataptr n flags) (r, s') ended = ended ≡ returned r s'
Answers l (socket domain type protocol) (r, s') ended = ended ≡ returned r s'
