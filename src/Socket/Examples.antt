-- ===== src/Socket/Examples.antt =====
-- A system on which a datagram of three bytes waits.
use sponge_2021fall.Common.{ℕ, ◌≡◌, refl, false, List, [], ◌∷◌, ok}
use sponge_2021fall.Address.{Address}
use sponge_2021fall.FileDescriptor.{Descriptor, register_read}
use sponge_2021fall.Wire.Buffer.{list_size}
use sponge_2021fall.Socket.{Datagrams, recv}
use sponge_2021fall.Socket.Receive.{overwritten, recv_lem}

abbrev waiting : List ℕ
waiting = 1 ∷ 2 ∷ 3 ∷ []

abbrev sender : Address
sender = record { ip = 1; port = 53 }

abbrev datagrams : Datagrams (Unit {0})
datagrams = record {
  recvfrom = λ fd buffer w.
      ok (record { source = sender; recv_len = 3; buffer = overwritten buffer waiting }, w);
  sendmsg = λ fd destination payload w. ok (list_size payload, w);
}

abbrev descriptor : Descriptor
descriptor = record { fd_num = 4; eof = false; closed = false; read_count = 0; write_count = 0 }

recv_lem_example :
    recv datagrams descriptor 65536 tt
    ≡ ok (record { source_address = sender; payload = waiting }, register_read descriptor, tt)
recv_lem_example = recv_lem datagrams descriptor 65536 tt tt sender waiting (λ buffer. refl)
