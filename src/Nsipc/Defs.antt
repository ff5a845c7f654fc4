-- ===== src/Nsipc/Defs.antt =====
-- lib/nsipc.c: the stubs. inc/ns.h, inc/lib.h and lwip/sockets.h are not in the repository: what
-- they declare is a parameter. Members of the requests are 32-bit words, low byte first, as are the
-- `int`, `unsigned` and `socklen_t` arguments; `perm` and `whom` are written and not read.
use Prim.Native.Nat.{bit_or}
use jos_smp.Mmu.Paging.{pte_p, pte_w, pte_u}
use jos_smp.Base.{ℕ, ◌+◌, ◌/◌, ◌%◌, Bool, ◌&&◌, not, if◌then◌else◌}
use jos_smp.Base.Int.{ltb_ℤ}
use jos_smp.Base.Word.{signed32}
use jos_smp.Boot.Load.{read32}
use jos_smp.Memory.Defs.{Mem, write32, memmove}

-- The request codes; the offsets of the members of each request, and of the reply to accept; the
-- address of `nsipcbuf`; and the server, `envs[2].env_id`.
pub record Layout : Type 0 where
  pub nsreq_accept : ℕ
  pub nsreq_bind : ℕ
  pub nsreq_shutdown : ℕ
  pub nsreq_close : ℕ
  pub nsreq_connect : ℕ
  pub nsreq_listen : ℕ
  pub nsreq_recv : ℕ
  pub nsreq_send : ℕ
  pub nsreq_socket : ℕ
  pub accept_s : ℕ
  pub bind_s : ℕ
  pub bind_name : ℕ
  pub bind_namelen : ℕ
  pub shutdown_s : ℕ
  pub shutdown_how : ℕ
  pub close_s : ℕ
  pub connect_s : ℕ
  pub connect_name : ℕ
  pub connect_namelen : ℕ
  pub listen_s : ℕ
  pub listen_backlog : ℕ
  pub recv_s : ℕ
  pub recv_len : ℕ
  pub recv_flags : ℕ
  pub send_s : ℕ
  pub send_dataptr : ℕ
  pub send_size : ℕ
  pub send_flags : ℕ
  pub socket_domain : ℕ
  pub socket_type : ℕ
  pub socket_protocol : ℕ
  pub ret_addr : ℕ
  pub ret_addrlen : ℕ
  pub nsipcbuf : ℕ
  pub server : ℕ

-- The system calls: ipc_send of a value and a page to an environment, and ipc_recv with the address
-- for a page, 0 for none. They may change the memory.
pub record Ipc (W : Type 0) : Type 0 where
  pub ipc_send : ℕ → ℕ → ℕ → ℕ → Mem × W → Mem × W
  pub ipc_recv : ℕ → Mem × W → ℕ × (Mem × W)

-- A call returns an `int`, or an assertion fails.
pub data Ended (W : Type 0) : Type 0 where
  returned : ℕ → Mem × W → Ended W
  asserted : Mem × W → Ended W

-- REQVA
abbrev pub reqva : ℕ
reqva = 0x0ffff000

-- `*p = v` for a 32-bit member.
unfoldable pub put32 : ℕ → ℕ → Mem → Mem
put32 p v m = write32 m p (v % 256) (v / 256 % 256) (v / 65536 % 256) (v / 16777216 % 256)

-- `a < b` and `a <= b` for `int`.
abbrev pub lt_int : ℕ → ℕ → Bool
lt_int a b = ltb_ℤ (signed32 a) (signed32 b)

-- What nsipc_recv does with a reply: the result of nsipc, and the page at REQVA.
unfoldable pub take_recv : {W : Type 0} → ℕ → ℕ → ℕ × (Mem × W) → Ended W
take_recv mem len (r, (m, w)) =
    if lt_int r 1600 && not (lt_int len r)
    then returned r (memmove mem reqva r m, w)
    else asserted (m, w)

module _ (l : Layout) where
  -- What each stub writes into `nsipcbuf` before it sends it.
  unfoldable pub fill_accept : ℕ → Mem → Mem
  fill_accept s m = put32 (l.nsipcbuf + l.accept_s) s m

  unfoldable pub fill_bind : ℕ → ℕ → ℕ → Mem → Mem
  fill_bind s name namelen m =
      put32 (l.nsipcbuf + l.bind_namelen) namelen
        (memmove (l.nsipcbuf + l.bind_name) name namelen (put32 (l.nsipcbuf + l.bind_s) s m))

  unfoldable pub fill_shutdown : ℕ → ℕ → Mem → Mem
  fill_shutdown s how m =
      put32 (l.nsipcbuf + l.shutdown_how) how (put32 (l.nsipcbuf + l.shutdown_s) s m)

  unfoldable pub fill_close : ℕ → Mem → Mem
  fill_close s m = put32 (l.nsipcbuf + l.close_s) s m

  unfoldable pub fill_connect : ℕ → ℕ → ℕ → Mem → Mem
  fill_connect s name namelen m =
      put32 (l.nsipcbuf + l.connect_namelen) namelen
        (memmove (l.nsipcbuf + l.connect_name) name namelen (put32 (l.nsipcbuf + l.connect_s) s m))

  unfoldable pub fill_listen : ℕ → ℕ → Mem → Mem
  fill_listen s backlog m =
      put32 (l.nsipcbuf + l.listen_backlog) backlog (put32 (l.nsipcbuf + l.listen_s) s m)

  unfoldable pub fill_recv : ℕ → ℕ → ℕ → Mem → Mem
  fill_recv s len flags m =
      put32 (l.nsipcbuf + l.recv_flags) flags
        (put32 (l.nsipcbuf + l.recv_len) len (put32 (l.nsipcbuf + l.recv_s) s m))

  -- Behind `req->req_s = s` and the assertion.
  unfoldable pub fill_send : ℕ → ℕ → ℕ → Mem → Mem
  fill_send dataptr size flags m =
      put32 (l.nsipcbuf + l.send_flags) flags (
        put32 (l.nsipcbuf + l.send_size) size
          (memmove (l.nsipcbuf + l.send_dataptr) dataptr size m))

  unfoldable pub fill_socket : ℕ → ℕ → ℕ → Mem → Mem
  fill_socket domain type protocol m =
      put32 (l.nsipcbuf + l.socket_protocol) protocol
        (put32 (l.nsipcbuf + l.socket_type) type (put32 (l.nsipcbuf + l.socket_domain) domain m))

  -- Likewise nsipc_accept.
  unfoldable pub take_accept : {W : Type 0} → ℕ → ℕ → ℕ × (Mem × W) → Ended W
  take_accept addr addrlen (r, (m, w)) =
      let n = read32 m (reqva + l.ret_addrlen) in
      let m' = memmove addr (reqva + l.ret_addr) n m in
      returned r (put32 addrlen (read32 m' (reqva + l.ret_addrlen)) m', w)

  module _ {W : Type 0} (ipc : Ipc W) where
    -- Every caller passes `nsipcbuf` as `fsreq`.
    unfoldable pub nsipc : ℕ → ℕ → Mem × W → ℕ × (Mem × W)
    nsipc type dstva s =
        let perm = bit_or (bit_or pte_p pte_w) pte_u in
        ipc.ipc_recv dstva (ipc.ipc_send l.server type l.nsipcbuf perm s)

    -- A stub with no reply page: its request, and the result of nsipc.
    abbrev pub request : ℕ → (Mem → Mem) → Mem × W → Ended W
    request type fill s = let (r, s') = nsipc type 0 (fill s.0, s.1) in returned r s'

    unfoldable pub nsipc_accept : ℕ → ℕ → ℕ → Mem × W → Ended W
    unfolding nsipc
    nsipc_accept fd addr addrlen s =
        take_accept addr addrlen (nsipc l.nsreq_accept reqva (fill_accept fd s.0, s.1))

    unfoldable pub nsipc_bind : ℕ → ℕ → ℕ → Mem × W → Ended W
    unfolding nsipc
    nsipc_bind fd name namelen s = request l.nsreq_bind (fill_bind fd name namelen) s

    unfoldable pub nsipc_shutdown : ℕ → ℕ → Mem × W → Ended W
    unfolding nsipc
    nsipc_shutdown fd how s = request l.nsreq_shutdown (fill_shutdown fd how) s

    unfoldable pub nsipc_close : ℕ → Mem × W → Ended W
    unfolding nsipc
    nsipc_close fd s = request l.nsreq_close (fill_close fd) s

    unfoldable pub nsipc_connect : ℕ → ℕ → ℕ → Mem × W → Ended W
    unfolding nsipc
    nsipc_connect fd name namelen s = request l.nsreq_connect (fill_connect fd name namelen) s

    unfoldable pub nsipc_listen : ℕ → ℕ → Mem × W → Ended W
    unfolding nsipc
    nsipc_listen fd backlog s = request l.nsreq_listen (fill_listen fd backlog) s

    unfoldable pub nsipc_recv : ℕ → ℕ → ℕ → ℕ → Mem × W → Ended W
    unfolding nsipc
    nsipc_recv fd mem len flags s =
        take_recv mem len (nsipc l.nsreq_recv reqva (fill_recv fd len flags s.0, s.1))

    unfoldable pub nsipc_send : ℕ → ℕ → ℕ → ℕ → Mem × W → Ended W
    unfolding nsipc
    nsipc_send fd dataptr size flags s =
        let m = put32 (l.nsipcbuf + l.send_s) fd s.0 in
        if lt_int size 1600
        then request l.nsreq_send (fill_send dataptr size flags) (m, s.1)
        else asserted (m, s.1)

    unfoldable pub nsipc_socket : ℕ → ℕ → ℕ → Mem × W → Ended W
    unfolding nsipc
    nsipc_socket domain type protocol s =
        request l.nsreq_socket (fill_socket domain type protocol) s
