-- ===== src/Nsipc/Tests.antt =====
-- lib/nsipc.c: a layout and a server, and each theorem at an input.
use jos_smp.Base.{
  ◌-◌, ℕ, ◌+◌, ◌%◌, ◌^◌, ◌≡◌, refl, arith, leb, ltb, ◌&&◌, if◌then◌else◌, List, [], ◌∷◌,
}
use jos_smp.Memory.Defs.{Mem, memmove}
use jos_smp.Nsipc.Defs.{Layout, Ipc, Ended, returned, reqva, take_recv}
use jos_smp.Nsipc.Messages.{Call, perform, message, code, Carries, Fits}
use jos_smp.Nsipc.Requests.{perform-Carries}
use jos_smp.Nsipc.Replies.{Answers}

abbrev layout : Layout
layout = record {
  nsreq_accept = 1;
  nsreq_bind = 2;
  nsreq_shutdown = 3;
  nsreq_close = 4;
  nsreq_connect = 5;
  nsreq_listen = 6;
  nsreq_recv = 7;
  nsreq_send = 8;
  nsreq_socket = 9;
  accept_s = 0;
  bind_s = 0;
  bind_name = 4;
  bind_namelen = 20;
  shutdown_s = 0;
  shutdown_how = 4;
  close_s = 0;
  connect_s = 0;
  connect_name = 4;
  connect_namelen = 20;
  listen_s = 0;
  listen_backlog = 4;
  recv_s = 0;
  recv_len = 4;
  recv_flags = 8;
  send_s = 0;
  send_dataptr = 12;
  send_size = 4;
  send_flags = 8;
  socket_domain = 0;
  socket_type = 4;
  socket_protocol = 8;
  ret_addr = 4;
  ret_addrlen = 0;
  nsipcbuf = 0x801000;
  server = 0x1002;
}

-- A server that keeps the codes of the requests, and replies with how many there were.
abbrev count : List ℕ → ℕ
count [] = 0
count (c ∷ cs) = count cs + 1

abbrev counter : Ipc (List ℕ)
counter = record {
  ipc_send = λ env value page perm (s : Mem × List ℕ). (s.0, value ∷ s.1);
  ipc_recv = λ page s. (count s.1, s);
}

abbrev memory : Mem
memory a = a % 256

abbrev receiving : Call
receiving = Call.recv 3 0x9000 5 0

receiving-Fits : Fits layout receiving
receiving-Fits = omega arith

perform-Carries_example :
    (m' : Mem) × (ended : Ended (List ℕ)) × (perform layout counter receiving (memory, []) ≡ ended)
    × Answers layout receiving
        (counter.ipc_recv reqva
          (counter.ipc_send 0x1002 (code layout (message receiving memory)) 0x801000 7 (m', [])))
        ended
    × Carries layout (message receiving memory) m'
    × ((a : ℕ) → m' a ≡ (if leb 0x801000 a && ltb a 0x802000 then m' a else memory a))
perform-Carries_example =
    perform-Carries layout (omega arith) counter receiving memory [] receiving-Fits (omega arith)

-- A reply of -1 passes the assertion, and is then the size of the block to copy.
error_copied :
    take_recv 0x9000 1000 (2 ^ 32 - 1, (memory, tt))
    ≡ returned (2 ^ 32 - 1) (memmove 0x9000 reqva (2 ^ 32 - 1) memory, tt {0})
unfolding take_recv
error_copied = refl
