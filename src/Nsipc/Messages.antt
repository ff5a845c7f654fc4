-- ===== src/Nsipc/Messages.antt =====
-- lib/nsipc.c, lib/sockets.c: what a socket call asks of the server, and how a page carries it.
use jos_smp.Base.{ℕ, ◌+◌, ◌^◌, ◌<◌, ◌≤◌, ◌≡◌, List, length}
use jos_smp.Boot.Load.{read32}
use jos_smp.Memory.Defs.{Mem}
use jos_smp.Nsipc.Defs.{Layout, Ipc, Ended, reqva}
use jos_smp.Nsipc.Sockets
use jos_smp.Nsipc.Words.{Apart, bytes_at}

-- A call of lib/sockets.c with its arguments; addresses are pointers.
pub data Call : Type 0 where
  accept : ℕ → ℕ → ℕ → Call
  bind : ℕ → ℕ → ℕ → Call
  shutdown : ℕ → ℕ → Call
  closesocket : ℕ → Call
  connect : ℕ → ℕ → ℕ → Call
  listen : ℕ → ℕ → Call
  recv : ℕ → ℕ → ℕ → ℕ → Call
  send : ℕ → ℕ → ℕ → ℕ → Call
  socket : ℕ → ℕ → ℕ → Call

unfoldable pub perform : {W : Type 0} → Layout → Ipc W → Call → Mem × W → Ended W
perform l ipc (accept s addr addrlen) = Sockets.accept l ipc s addr addrlen
perform l ipc (bind s name namelen) = Sockets.bind l ipc s name namelen
perform l ipc (shutdown s how) = Sockets.shutdown l ipc s how
perform l ipc (closesocket s) = Sockets.closesocket l ipc s
perform l ipc (connect s name namelen) = Sockets.connect l ipc s name namelen
perform l ipc (listen s backlog) = Sockets.listen l ipc s backlog
perform l ipc (recv s mem len flags) = Sockets.recv l ipc s mem len flags
perform l ipc (send s dataptr size flags) = Sockets.send l ipc s dataptr size flags
perform l ipc (socket domain type protocol) = Sockets.socket l ipc domain type protocol

-- What the server is asked: the same without pointers, and with the bytes that they point at.
pub data Message : Type 0 where
  accept : ℕ → Message
  bind : ℕ → List ℕ → Message
  shutdown : ℕ → ℕ → Message
  close : ℕ → Message
  connect : ℕ → List ℕ → Message
  listen : ℕ → ℕ → Message
  recv : ℕ → ℕ → ℕ → Message
  send : ℕ → List ℕ → ℕ → Message
  socket : ℕ → ℕ → ℕ → Message

unfoldable pub message : Call → Mem → Message
message (accept s addr addrlen) m = accept s
message (bind s name namelen) m = bind s (bytes_at m name namelen)
message (shutdown s how) m = shutdown s how
message (closesocket s) m = close s
message (connect s name namelen) m = connect s (bytes_at m name namelen)
message (listen s backlog) m = listen s backlog
message (recv s mem len flags) m = recv s len flags
message (send s dataptr size flags) m = send s (bytes_at m dataptr size) flags
message (socket domain type protocol) m = socket domain type protocol

-- The address where a call receives a page, 0 for none.
abbrev pub page_for : Call → ℕ
page_for (accept s addr addrlen) = reqva
page_for (recv s mem len flags) = reqva
page_for c = 0

module _ (l : Layout) where
  unfoldable pub code : Message → ℕ
  code (accept s) = l.nsreq_accept
  code (bind s name) = l.nsreq_bind
  code (shutdown s how) = l.nsreq_shutdown
  code (close s) = l.nsreq_close
  code (connect s name) = l.nsreq_connect
  code (listen s backlog) = l.nsreq_listen
  code (recv s len flags) = l.nsreq_recv
  code (send s bytes flags) = l.nsreq_send
  code (socket domain type protocol) = l.nsreq_socket

  -- The member at an offset in `nsipcbuf`, and the `n` bytes there.
  abbrev pub member : Mem → ℕ → ℕ
  member m offset = read32 m (l.nsipcbuf + offset)

  abbrev pub block : Mem → ℕ → ℕ → List ℕ
  block m offset n = bytes_at m (l.nsipcbuf + offset) n

  -- `nsipcbuf` holds the message: the server reads these members of it.
  abbrev pub Carries : Message → Mem → Type 0
  Carries (accept s) m = member m l.accept_s ≡ s
  Carries (bind s name) m =
      (member m l.bind_s ≡ s)
      × (member m l.bind_namelen ≡ length name)
      × (block m l.bind_name (length name) ≡ name)
  Carries (shutdown s how) m = (member m l.shutdown_s ≡ s) × (member m l.shutdown_how ≡ how)
  Carries (close s) m = member m l.close_s ≡ s
  Carries (connect s name) m =
      (member m l.connect_s ≡ s)
      × (member m l.connect_namelen ≡ length name)
      × (block m l.connect_name (length name) ≡ name)
  Carries (listen s backlog) m = (member m l.listen_s ≡ s) × (member m l.listen_backlog ≡ backlog)
  Carries (recv s len flags) m =
      (member m l.recv_s ≡ s) × (member m l.recv_len ≡ len) × (member m l.recv_flags ≡ flags)
  Carries (send s bytes flags) m =
      (member m l.send_s ≡ s)
      × (member m l.send_size ≡ length bytes)
      × (member m l.send_flags ≡ flags)
      × (block m l.send_dataptr (length bytes) ≡ bytes)
  Carries (socket domain type protocol) m =
      (member m l.socket_domain ≡ domain)
      × (member m l.socket_type ≡ type)
      × (member m l.socket_protocol ≡ protocol)

  -- A word that is a member in the page, and `n` bytes of the program outside of the page.
  abbrev pub IsMember : ℕ → ℕ → Type 0
  IsMember offset v = (offset + 4 ≤ 4096) × (v < 2 ^ 32)

  abbrev pub IsOutside : ℕ → ℕ → Type 0
  IsOutside p n = (p + n < 2 ^ 32) × Apart p n l.nsipcbuf 4096

  -- The arguments are words, blocks fit in the request and lie outside of it, and the request's
  -- members lie in the page and apart.
  abbrev pub Fits : Call → Type 0
  Fits (accept s addr addrlen) = IsMember l.accept_s s
  Fits (bind s name n) =
      IsMember l.bind_s s
      × IsMember l.bind_namelen n
      × (l.bind_name + n ≤ 4096)
      × IsOutside name n
      × Apart l.bind_s 4 l.bind_namelen 4
      × Apart l.bind_s 4 l.bind_name n
      × Apart l.bind_namelen 4 l.bind_name n
  Fits (shutdown s how) =
      IsMember l.shutdown_s s × IsMember l.shutdown_how how × Apart l.shutdown_s 4 l.shutdown_how 4
  Fits (closesocket s) = IsMember l.close_s s
  Fits (connect s name n) =
      IsMember l.connect_s s
      × IsMember l.connect_namelen n
      × (l.connect_name + n ≤ 4096)
      × IsOutside name n
      × Apart l.connect_s 4 l.connect_namelen 4
      × Apart l.connect_s 4 l.connect_name n
      × Apart l.connect_namelen 4 l.connect_name n
  Fits (listen s backlog) =
      IsMember l.listen_s s
      × IsMember l.listen_backlog backlog
      × Apart l.listen_s 4 l.listen_backlog 4
  Fits (recv s mem len flags) =
      IsMember l.recv_s s
      × IsMember l.recv_len len
      × IsMember l.recv_flags flags
      × Apart l.recv_s 4 l.recv_len 4
      × Apart l.recv_s 4 l.recv_flags 4
      × Apart l.recv_len 4 l.recv_flags 4
  Fits (send s dataptr n flags) =
      IsMember l.send_s s
      × IsMember l.send_size n
      × IsMember l.send_flags flags
      × (n < 1600)
      × (l.send_dataptr + n ≤ 4096)
      × IsOutside dataptr n
      × Apart l.send_s 4 l.send_size 4
      × Apart l.send_s 4 l.send_flags 4
      × Apart l.send_size 4 l.send_flags 4
      × Apart l.send_s 4 l.send_dataptr n
      × Apart l.send_size 4 l.send_dataptr n
      × Apart l.send_flags 4 l.send_dataptr n
  Fits (socket domain type protocol) =
      IsMember l.socket_domain domain
      × IsMember l.socket_type type
      × IsMember l.socket_protocol protocol
      × Apart l.socket_domain 4 l.socket_type 4
      × Apart l.socket_domain 4 l.socket_protocol 4
      × Apart l.socket_type 4 l.socket_protocol 4
