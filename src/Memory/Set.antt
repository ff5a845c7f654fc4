-- ===== src/Memory/Set.antt =====
-- lib/string.c: memset stores the low byte of `c` in the whole block, by bytes or by words.
use jos_smp.Base.{
  ℕ, zero, suc, ◌+◌, ◌*◌, ◌/◌, ◌%◌, ◌^◌, ◌≡◌, ◌<◌, false, fun_ext, ◌&&◌, arith, ◌==◌, ltb, leb,
  if◌then◌else◌, Bool-cases, inl, inr,
}
use jos_smp.Base.Word.{add32}
use jos_smp.Memory.Defs.{Mem, write, write32, rep_stosb, rep_stosl, spread, memset}

-- Memory `m` with the byte `b` in the `n` cells from `v`, read at `a`.
abbrev pub filled : ℕ → ℕ → ℕ → Mem → Mem
filled v b n m a = if leb v a && ltb a (v + n) then b else m a

pub rep_stosb-filled :
    (n d c : ℕ) (m : Mem) (a : ℕ) → d + n < 2 ^ 32 → rep_stosb n d c m a ≡ filled d (c % 256) n m a
unfolding rep_stosb
rep_stosb-filled zero d c m a p = ground arith
rep_stosb-filled (suc n) d c m a p =
    rw (rep_stosb-filled n (add32 d 1) c (write m d (c % 256)) a (omega arith)) (ground arith)

-- Each of the four bytes of the word that memset builds is the low byte of `c`.
spread_bytes :
    (c : ℕ)
    → (spread c % 256 ≡ c % 256)
      × (spread c / 256 % 256 ≡ c % 256)
      × (spread c / 65536 % 256 ≡ c % 256)
      × (spread c / 16777216 % 256 ≡ c % 256)
unfolding spread
spread_bytes c = omega arith

write32-filled :
    (d b : ℕ) (m : Mem) (a : ℕ) → d + 4 < 2 ^ 32 → write32 m d b b b b a ≡ filled d b 4 m a
write32-filled d b m a p = ground arith

rep_stosl-filled :
    (n d c : ℕ) (m : Mem) (a : ℕ)
    → d + 4 * n < 2 ^ 32
    → rep_stosl n d (spread c) m a ≡ filled d (c % 256) (4 * n) m a
unfolding rep_stosl
rep_stosl-filled zero d c m a p = ground arith
rep_stosl-filled (suc n) d c m a p =
    let (e0, e1, e2, e3) = spread_bytes c in
    let e : add32 d 4 ≡ d + 4 = omega arith in
    rw
      (
        e0,
        e1,
        e2,
        e3,
        e,
        fun_ext (λ x. write32-filled d (c % 256) m x (omega arith)),
        rep_stosl-filled n (d + 4) c (filled d (c % 256) 4 m) a (omega arith),
      )
      (ground arith)

-- For a block that does not reach the end of the address space, `memset` leaves `c & 0xFF` in each
-- of its `n` bytes and every other byte as it was, whether it stores bytes or words.
pub memset-filled :
    (v c n : ℕ) (m : Mem) (a : ℕ) → v + n < 2 ^ 32 → memset v c n m a ≡ filled v (c % 256) n m a
unfolding memset
memset-filled v c zero m a p = ground arith
memset-filled v c (suc k) m a p = elim (Bool-cases ((v % 4 == 0) && (suc k % 4 == 0))) [
  | inl y ↦
      let g : 4 * (suc k / 4) ≡ suc k = ground arith in
      let z : (suc k == 0) ≡ false = ground arith in
      rw (y, z, rep_stosl-filled (suc k / 4) v c m a (omega arith), g)
  | inr y ↦
      let z : (suc k == 0) ≡ false = ground arith in rw (y, z, rep_stosb-filled (suc k) v c m a p)
]
