-- ===== src/Nsipc/Sockets.antt =====
-- lib/sockets.c: the socket calls, each of which hands its arguments to its stub.
use jos_smp.Base.{ℕ}
use jos_smp.Memory.Defs.{Mem}
use jos_smp.Nsipc.Defs.{
  Layout, Ipc, Ended, nsipc_accept, nsipc_bind, nsipc_shutdown, nsipc_close, nsipc_connect,
  nsipc_listen, nsipc_recv, nsipc_send, nsipc_socket,
}

module _ {W : Type 0} (l : Layout) (ipc : Ipc W) where
  unfoldable pub accept : ℕ → ℕ → ℕ → Mem × W → Ended W
  accept s addr addrlen = nsipc_accept l ipc s addr addrlen

  unfoldable pub bind : ℕ → ℕ → ℕ → Mem × W → Ended W
  bind s name namelen = nsipc_bind l ipc s name namelen

  unfoldable pub shutdown : ℕ → ℕ → Mem × W → Ended W
  shutdown s how = nsipc_shutdown l ipc s how

  unfoldable pub closesocket : ℕ → Mem × W → Ended W
  closesocket s = nsipc_close l ipc s

  unfoldable pub connect : ℕ → ℕ → ℕ → Mem × W → Ended W
  connect s name namelen = nsipc_connect l ipc s name namelen

  unfoldable pub listen : ℕ → ℕ → Mem × W → Ended W
  listen s backlog = nsipc_listen l ipc s backlog

  unfoldable pub recv : ℕ → ℕ → ℕ → ℕ → Mem × W → Ended W
  recv s mem len flags = nsipc_recv l ipc s mem len flags

  unfoldable pub send : ℕ → ℕ → ℕ → ℕ → Mem × W → Ended W
  send s dataptr size flags = nsipc_send l ipc s dataptr size flags

  unfoldable pub socket : ℕ → ℕ → ℕ → Mem × W → Ended W
  socket domain type protocol = nsipc_socket l ipc domain type protocol
