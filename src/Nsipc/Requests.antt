-- ===== src/Nsipc/Requests.antt =====
-- lib/nsipc.c, lib/sockets.c: each socket call sends one request, which carries its arguments.
use jos_smp.Base.{
  ℕ, ◌+◌, ◌^◌, ◌<◌, ◌≡◌, refl, ap, ◌∙◌, ◌&&◌, leb, ltb, true, if◌then◌else◌, arith, length, zero,
  suc,
}
use jos_smp.Memory.Defs.{Mem, memmove}
use jos_smp.Nsipc.Defs.{
  Layout, Ipc, Ended, returned, reqva, put32, lt_int, take_accept, take_recv, fill_accept,
  fill_bind, fill_shutdown, fill_close, fill_connect, fill_listen, fill_recv, fill_send,
  fill_socket, nsipc_accept, nsipc_bind, nsipc_shutdown, nsipc_close, nsipc_connect, nsipc_listen,
  nsipc_recv, nsipc_send, nsipc_socket, nsipc,
}
use jos_smp.Nsipc.Sockets
use jos_smp.Nsipc.Words.{Apart, bytes_at}
use jos_smp.Nsipc.Members.{
  member-one, member-past, block-past, two_held, three_held, block_held, put32-outside,
  memmove-outside,
}
use jos_smp.Boot.Load.{read32}
use jos_smp.Nsipc.Replies.{Proper, Answers, take_recv-moved, take_accept-copied}
use jos_smp.Nsipc.Messages.{
  Call, accept, bind, shutdown, closesocket, connect, listen, recv, send, socket, perform, message,
  page_for, code, Carries, Fits,
}

-- The code behind nsipc, by the call.
abbrev take_reply : {W : Type 0} → Layout → Call → ℕ × (Mem × W) → Ended W
take_reply l (accept s addr addrlen) reply = take_accept l addr addrlen reply
take_reply l (recv s mem len flags) reply = take_recv mem len reply
take_reply l c (r, s) = returned r s

take_reply-Answers :
    {W : Type 0} (l : Layout) (c : Call) (reply : ℕ × (Mem × W))
    → Proper l c reply
    → Answers l c reply (take_reply l c reply)
take_reply-Answers l (accept s addr addrlen) (r, (m, w)) (h, k, fits, fits', word, away, apart) =
    take_accept-copied l addr addrlen r (read32 m (reqva + l.ret_addrlen)) m w refl h k fits fits'
      word away apart
take_reply-Answers l (recv s mem len flags) (r, (m, w)) (small, long, fits) =
    take_recv-moved mem len r m w small long fits
take_reply-Answers l (bind s name n) (r, s') p = refl
take_reply-Answers l (shutdown s how) (r, s') p = refl
take_reply-Answers l (closesocket s) (r, s') p = refl
take_reply-Answers l (connect s name n) (r, s') p = refl
take_reply-Answers l (listen s backlog) (r, s') p = refl
take_reply-Answers l (send s dataptr n flags) (r, s') p = refl
take_reply-Answers l (socket domain type protocol) (r, s') p = refl

length-bytes_at : (m : Mem) (p n : ℕ) → length (bytes_at m p n) ≡ n
length-bytes_at m p zero = refl
length-bytes_at m p (suc n) = ap suc (length-bytes_at m (p + 1) n)

module _ (l : Layout) (in_memory : l.nsipcbuf + 4096 < 2 ^ 32) where
  -- The memory that a call hands over with its request.
  abbrev pub filled : Call → Mem → Mem
  filled (accept s addr addrlen) m = fill_accept l s m
  filled (bind s name n) m = fill_bind l s name n m
  filled (shutdown s how) m = fill_shutdown l s how m
  filled (closesocket s) m = fill_close l s m
  filled (connect s name n) m = fill_connect l s name n m
  filled (listen s backlog) m = fill_listen l s backlog m
  filled (recv s mem len flags) m = fill_recv l s len flags m
  filled (send s dataptr n flags) m =
      fill_send l dataptr n flags (put32 (l.nsipcbuf + l.send_s) s m)
  filled (socket domain type protocol) m = fill_socket l domain type protocol m

  Carries-filled : (c : Call) (m : Mem) → Fits l c → Carries l (message c m) (filled c m)
  unfolding message fill_accept fill_bind fill_shutdown fill_close fill_connect fill_listen
      fill_recv fill_send fill_socket
  Carries-filled (accept s addr addrlen) m fits = member-one l in_memory l.accept_s s m fits
  Carries-filled (bind s name n) m (h, k, fits, out, ab, ac, bc) =
      rw (length-bytes_at m name n) (
        block_held l in_memory l.bind_s l.bind_namelen l.bind_name s name n m h k fits out ab ac bc)
  Carries-filled (shutdown s how) m (h, k, apart) =
      two_held l in_memory l.shutdown_s l.shutdown_how s how m h k apart
  Carries-filled (closesocket s) m fits = member-one l in_memory l.close_s s m fits
  Carries-filled (connect s name n) m (h, k, fits, out, ab, ac, bc) =
      rw (length-bytes_at m name n) (
        block_held l in_memory l.connect_s l.connect_namelen l.connect_name s name n m h k fits out
          ab ac bc)
  Carries-filled (listen s backlog) m (h, k, apart) =
      two_held l in_memory l.listen_s l.listen_backlog s backlog m h k apart
  Carries-filled (recv s mem len flags) m (h, k, i, ab, ac, bc) =
      three_held l in_memory l.recv_s l.recv_len l.recv_flags s len flags m h k i ab ac bc
  Carries-filled (send s p n flags) m (h, k, i, few, fits, out, ab, af, bf, ac, bc, fc) =
      let a = l.nsipcbuf + l.send_s in
      let m2 =
        put32 (l.nsipcbuf + l.send_size) n
          (memmove (l.nsipcbuf + l.send_dataptr) p n (put32 a s m)) in
      let first =
        block_held l in_memory l.send_s l.send_size l.send_dataptr s p n m h k fits out ab ac bc in
      rw (length-bytes_at m p n) (
        member-past l in_memory l.send_s l.send_flags flags m2 h.0 i.0 af ∙ first.0,
        member-past l in_memory l.send_size l.send_flags flags m2 k.0 i.0 bf ∙ first.1,
        member-one l in_memory l.send_flags flags m2 i,
        block-past l in_memory l.send_dataptr l.send_flags n flags m2 i.0 fc ∙ first.2,
      )
  Carries-filled (socket domain type protocol) m (h, k, i, ab, ac, bc) =
      three_held l in_memory l.socket_domain l.socket_type l.socket_protocol domain type protocol m
        h k i ab ac bc

  filled-outside :
      (c : Call) (m : Mem) (a : ℕ) → Fits l c → Apart l.nsipcbuf 4096 a 1 → filled c m a ≡ m a
  unfolding fill_accept fill_bind fill_shutdown fill_close fill_connect fill_listen fill_recv
      fill_send fill_socket
  filled-outside (accept s addr addrlen) m a fits out =
      put32-outside l in_memory l.accept_s s m a fits.0 out
  filled-outside (bind s name n) m a (h, k, fits, away, ab, ac, bc) out =
      put32-outside l in_memory l.bind_namelen n _ a k.0 out
      ∙ memmove-outside l in_memory l.bind_name name n _ a fits away out
      ∙ put32-outside l in_memory l.bind_s s m a h.0 out
  filled-outside (shutdown s how) m a (h, k, apart) out =
      put32-outside l in_memory l.shutdown_how how _ a k.0 out
      ∙ put32-outside l in_memory l.shutdown_s s m a h.0 out
  filled-outside (closesocket s) m a fits out = put32-outside l in_memory l.close_s s m a fits.0 out
  filled-outside (connect s name n) m a (h, k, fits, away, ab, ac, bc) out =
      put32-outside l in_memory l.connect_namelen n _ a k.0 out
      ∙ memmove-outside l in_memory l.connect_name name n _ a fits away out
      ∙ put32-outside l in_memory l.connect_s s m a h.0 out
  filled-outside (listen s backlog) m a (h, k, apart) out =
      put32-outside l in_memory l.listen_backlog backlog _ a k.0 out
      ∙ put32-outside l in_memory l.listen_s s m a h.0 out
  filled-outside (recv s mem len flags) m a (h, k, i, ab, ac, bc) out =
      put32-outside l in_memory l.recv_flags flags _ a i.0 out
      ∙ put32-outside l in_memory l.recv_len len _ a k.0 out
      ∙ put32-outside l in_memory l.recv_s s m a h.0 out
  filled-outside (send s p n flags) m a (h, k, i, few, fits, away, ab, af, bf, ac, bc, fc) out =
      put32-outside l in_memory l.send_flags flags _ a i.0 out
      ∙ put32-outside l in_memory l.send_size n _ a k.0 out
      ∙ memmove-outside l in_memory l.send_dataptr p n _ a fits away out
      ∙ put32-outside l in_memory l.send_s s m a h.0 out
  filled-outside (socket domain type protocol) m a (h, k, i, ab, ac, bc) out =
      put32-outside l in_memory l.socket_protocol protocol _ a i.0 out
      ∙ put32-outside l in_memory l.socket_type type _ a k.0 out
      ∙ put32-outside l in_memory l.socket_domain domain m a h.0 out

  module _ {W : Type 0} (ipc : Ipc W) where
    -- The request and the reply of a call.
    abbrev ask : Call → Mem × W → Mem → ℕ × (Mem × W)
    ask c (m, w) m' =
        ipc.ipc_recv (page_for c)
          (ipc.ipc_send l.server (code l (message c m)) l.nsipcbuf 7 (m', w))

    perform-ask :
        (c : Call) (m : Mem) (w : W)
        → Fits l c
        → perform l ipc c (m, w) ≡ take_reply l c (ask c (m, w) (filled c m))
    unfolding perform message code Sockets.accept Sockets.bind Sockets.shutdown Sockets.closesocket
        Sockets.connect Sockets.listen Sockets.recv Sockets.send Sockets.socket nsipc_accept
        nsipc_bind nsipc_shutdown nsipc_close nsipc_connect nsipc_listen nsipc_recv nsipc_send
        nsipc_socket nsipc
    perform-ask (send s p n flags) m w fits =
        let few : lt_int n 1600 ≡ true = ground arith in rw few refl
    perform-ask (accept s addr addrlen) m w fits = refl
    perform-ask (bind s name n) m w fits = refl
    perform-ask (shutdown s how) m w fits = refl
    perform-ask (closesocket s) m w fits = refl
    perform-ask (connect s name n) m w fits = refl
    perform-ask (listen s backlog) m w fits = refl
    perform-ask (recv s mem len flags) m w fits = refl
    perform-ask (socket domain type protocol) m w fits = refl

    -- Let the members of the request lie in the page for requests and apart. A socket call with word
    -- arguments, whose block, if it has one, is outside of that page and has room in it, and with
    -- less than 1600 bytes to send, sends the server one message, under the code of the request: the
    -- page then carries the arguments, the bytes of the block included, and the rest of the memory is
    -- as it was. What comes back from ipc_recv ends the call: its value is returned. accept has then
    -- copied the address, as long as the page of the reply says, and has stored its length, where that
    -- has room. recv, for lengths that are not negative, has copied that many bytes from the page of
    -- the reply to its block, and all else is as it was, or it has failed its assertion, where these
    -- are 1600 or more or more than asked for.
    pub perform-Carries :
        (c : Call) (m : Mem) (w : W)
        → Fits l c
        → Proper l c (ask c (m, w) (filled c m))
        → (m' : Mem) × (ended : Ended W) × (perform l ipc c (m, w) ≡ ended)
          × Answers l c
              (ipc.ipc_recv
                (page_for c)
                (ipc.ipc_send l.server (code l (message c m)) l.nsipcbuf 7 (m', w)))
              ended
          × Carries l (message c m) m'
          × ((a : ℕ) → m' a ≡ (if leb l.nsipcbuf a && ltb a (l.nsipcbuf + 4096) then m' a else m a))
    perform-Carries c m w fits proper = (
      filled c m,
      take_reply l c (ask c (m, w) (filled c m)),
      perform-ask c m w fits,
      take_reply-Answers l c (ask c (m, w) (filled c m)) proper,
      Carries-filled c m fits,
      λ a. ground (arith, filled-outside c m a fits),
    )
