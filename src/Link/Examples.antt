-- ===== src/Link/Examples.antt =====
-- A router with two interfaces.
use sponge_2021fall.Common.{
  ◌⊎◌, ◌≤◌, ℕ, ◌≡◌, ◌<◌, [], ◌∷◌, ◌++◌, List, refl, arith, ok, some, ◌>>=◌, Yields,
}
use sponge_2021fall.Common.Assoc.{find, insert, erase_if}
use sponge_2021fall.Address.{Address, ipv4_numeric}
use sponge_2021fall.Wire.Ethernet.{EthernetAddress, EthernetFrame, type_ipv4, put_bytes, broadcast}
use sponge_2021fall.Wire.Parser.{put8, put16, put32}
use sponge_2021fall.Wire.Arp.{ArpMessage, default_message, supported}
use sponge_2021fall.Wire.Arp
use sponge_2021fall.Wire.Ipv4.{default_header, payload_length}
use sponge_2021fall.Wire.Datagram.{Ipv4Datagram}
use sponge_2021fall.Wire.Datagram
use sponge_2021fall.Wire.Buffer.{list_size}
use sponge_2021fall.Link.Interface.{
  NetworkInterface, send_datagram, receive_arp, tick, push_frame, frame_to, learn, flush_pending,
  take_pending, send_each, postpone, ask,
}
use sponge_2021fall.Link.Interface.Life.{Steps, none_yet, one_more, ticks}
use sponge_2021fall.Link.Interface.Blocking.{send_datagram-once, send_datagram-learned}
use sponge_2021fall.Link.Interface.Pending.{frames_of, for_hop, not_for_hop, receive_arp-reply}
use sponge_2021fall.Link.Router.{route_one_datagram, Router, RouteRule, route}
use sponge_2021fall.Link.Router.Forwards.{Sent}
use sponge_2021fall.Link.Router.Routing.{Unmatched, Best, route_one_datagram-Routed}
use sponge_2021fall.Link.Router.Sends.{queues}
use sponge_2021fall.Link.Router.Queues.{emptied, route-empties}

abbrev mac : EthernetAddress
mac = 2 ∷ 0 ∷ 0 ∷ 0 ∷ 0 ∷ 1 ∷ []

abbrev peer : EthernetAddress
peer = 2 ∷ 0 ∷ 0 ∷ 0 ∷ 0 ∷ 2 ∷ []

abbrev local : NetworkInterface
local = record {
  ethernet_address = mac;
  ip_address = record { ip = 0x0a000001; port = 0 };
  frames_out = [];
  mapping = [];
  pending_list = [];
  current_time = 1000;
  blocking_mapping = [];
}

abbrev hop : Address
hop = record { ip = 0x0a000002; port = 0 }

abbrev datagram : Ipv4Datagram
datagram = record {
  header = record default_header { len = 22; src = 0x0a000001; dst = 0x0a000002 };
  payload = (1 ∷ 2 ∷ []) ∷ [];
}

-- A rule for 10.0.0.0/8.
abbrev rule : RouteRule
rule = record {
  route_prefix = 0x0a000000;
  prefix_length = 8;
  next_hop = some hop;
  interface_num = 0;
}

abbrev router : Router
router = record {
  interfaces = record { base = local; datagrams_out = datagram ∷ [] } ∷ [];
  rule_list = rule ∷ [];
}

route-empties_example :
    Yields (λ s. queues s.interfaces ≡ emptied 0 (queues router.interfaces)) (route router)
unfolding payload_length list_size ipv4_numeric
route-empties_example = route-empties router (record {
  rules = (omega arith, tt);
  sendable = ((record { ver = refl; hlen = omega arith; size = refl }, tt), tt);
})

-- The address of the hop is asked for, and a second passes.
abbrev question : List ℕ
question =
    0 ∷ 1 ∷ 8 ∷ 0 ∷ 6 ∷ 4 ∷ 0 ∷ 1 ∷ 2 ∷ 0 ∷ 0 ∷ 0 ∷ 0 ∷ 1 ∷ 10 ∷ 0 ∷ 0 ∷ 1 ∷ 0 ∷ 0 ∷ 0 ∷ 0 ∷ 0 ∷ 0
    ∷ 10 ∷ 0 ∷ 0 ∷ 2 ∷ []

abbrev asked : NetworkInterface
asked = record local {
  pending_list = (datagram, hop) ∷ [];
  blocking_mapping = (0x0a000002, 1000) ∷ [];
  frames_out =
      record {
        header = record { dst = broadcast; src = mac; type = 0x806 };
        payload = question ∷ [];
      }
      ∷ [];
}

asked-sent : send_datagram local datagram hop ≡ ok asked
unfolding send_datagram postpone ask Arp.serialize supported put_bytes put8 put16 put32 find insert
    ipv4_numeric
asked-sent = refl

-- A second later.
abbrev later : NetworkInterface
later = record asked { current_time = 2000 }

asked-later : Steps asked later
unfolding tick erase_if
asked-later = one_more asked asked later (none_yet asked) (ticks asked 1000 (omega arith))

send_datagram-once_example :
    send_datagram later datagram hop
    ≡ ok (record later { pending_list = later.pending_list ++ (datagram, hop) ∷ [] })
unfolding find
send_datagram-once_example =
    send_datagram-once local asked later datagram datagram hop hop tt refl refl asked-sent
      asked-later (omega arith) refl refl

abbrev reply : ArpMessage
reply = record default_message {
  opcode = 2;
  sender_ethernet_address = peer;
  sender_ip_address = 0x0a000002;
  target_ethernet_address = mac;
  target_ip_address = 0x0a000001;
}

abbrev waiting : NetworkInterface
waiting = record local { pending_list = (datagram, hop) ∷ [] }

receive_arp-reply_example : receive_arp waiting reply ≡ (
    frames_of mac peer (for_hop 0x0a000002 waiting.pending_list)
    >>= λ (frames : List EthernetFrame). ok (record waiting {
      mapping = insert 0x0a000002 (peer, 1000) waiting.mapping;
      pending_list = not_for_hop 0x0a000002 waiting.pending_list;
      frames_out = waiting.frames_out ++ frames;
    }))
unfolding find
receive_arp-reply_example = receive_arp-reply waiting reply refl refl

-- A host that is known for two seconds.
abbrev knowing : NetworkInterface
knowing = record local { mapping = (0x0a000002, (peer, 1000)) ∷ []; current_time = 3000 }

abbrev learned : NetworkInterface
learned = record local { mapping = (0x0a000002, (peer, 1000)) ∷ [] }

reply-learned : receive_arp local reply ≡ ok learned
unfolding receive_arp learn flush_pending take_pending send_each insert
reply-learned = refl

send_datagram-learned_example : send_datagram learned datagram hop ≡ (
    Datagram.serialize datagram >>= λ payload.
    ok (push_frame learned (frame_to learned peer type_ipv4 payload)))
unfolding find ipv4_numeric
send_datagram-learned_example =
    send_datagram-learned local learned learned reply datagram hop tt refl reply-learned
      (none_yet learned) (omega arith) refl

route_one_datagram-Routed_example :
    (Unmatched 0x0a000002 router.rule_list × (route_one_datagram router datagram ≡ ok router))
    ⊎ ((best : RouteRule) × Best 0x0a000002 router.rule_list best
        × (((128 ≤ 1) × (route_one_datagram router datagram ≡ ok router))
            ⊎ ((1 < 128) × Sent router datagram best (route_one_datagram router datagram))))
route_one_datagram-Routed_example =
    route_one_datagram-Routed router datagram (omega arith) ((omega arith, omega arith), tt)
