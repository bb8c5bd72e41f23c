-- ===== src/Link/Interface.antt =====
-- libsponge/network_interface.hh and .cc. The maps are association lists; what the constructor
-- prints is left out.
pub mod Pending
pub mod Follows
pub mod Calls
pub mod Life
pub mod Times
pub mod Blocking
use sponge_2021fall.Common.{
  ℕ, ◌+◌, ◌%◌, ◌^◌, Bool, true, false, not, ◌&&◌, Option, none, some, List, [], ◌∷◌, ◌++◌, add64,
  leb, ◌==◌, if◌then◌else◌, Result, ok, throw, ◌>>=◌, ◌*◌, ◌||◌,
}
use sponge_2021fall.Common.Assoc.{Assoc, find, insert, erase_if}
use sponge_2021fall.Address.{Address, ipv4_numeric}
use sponge_2021fall.Wire.Parser.{ParseResult, is_error}
use sponge_2021fall.Wire.Buffer.{BufferList, to_buffer}
use sponge_2021fall.Wire.Datagram.{Ipv4Datagram, default_datagram}
use sponge_2021fall.Wire.Datagram
use sponge_2021fall.Wire.Ethernet.{
  EthernetAddress, EthernetHeader, EthernetFrame, same_address, no_address, broadcast, type_ipv4,
  type_arp,
}
use sponge_2021fall.Wire.Arp.{ArpMessage, default_message, opcode_request, opcode_reply}
use sponge_2021fall.Wire.Arp

abbrev pub arp_valid_time : ℕ
arp_valid_time = 30 * 1000

abbrev pub arp_req_blocking_time : ℕ
arp_req_blocking_time = 5 * 1000

pub record NetworkInterface : Type 0 where
  pub ethernet_address : EthernetAddress
  pub ip_address : Address
  pub frames_out : List EthernetFrame
  pub mapping : Assoc (EthernetAddress × ℕ)
  pub pending_list : List (Ipv4Datagram × Address)
  pub current_time : ℕ
  pub blocking_mapping : Assoc ℕ

-- `NetworkInterface(ethernet_address, ip_address)`
unfoldable pub init : EthernetAddress → Address → NetworkInterface
init ethernet_address ip_address = record {
  ethernet_address = ethernet_address;
  ip_address = ip_address;
  frames_out = [];
  mapping = [];
  pending_list = [];
  current_time = 0;
  blocking_mapping = [];
}

-- A frame of this interface.
abbrev pub frame_to : NetworkInterface → EthernetAddress → ℕ → BufferList → EthernetFrame
frame_to n dst type payload = record {
  header = record { dst = dst; src = n.ethernet_address; type = type };
  payload = payload;
}

-- `_frames_out.push(frame)`
abbrev pub push_frame : NetworkInterface → EthernetFrame → NetworkInterface
push_frame n frame = record n { frames_out = n.frames_out ++ frame ∷ [] }

-- The question who has the address `next_hop_ip`.
abbrev pub request_for : NetworkInterface → ℕ → ArpMessage
request_for n next_hop_ip = record default_message {
  opcode = opcode_request;
  sender_ip_address = ipv4_numeric n.ip_address;
  sender_ethernet_address = n.ethernet_address;
  target_ip_address = next_hop_ip;
  target_ethernet_address = no_address;
}

-- The branch of `send_datagram` where the address is not known and not being asked for.
unfoldable pub ask : NetworkInterface → ℕ → Result NetworkInterface
ask n next_hop_ip =
    let n' = record n { blocking_mapping = insert next_hop_ip n.current_time n.blocking_mapping } in
    Arp.serialize (request_for n next_hop_ip) >>= λ s.
    ok (push_frame n' (frame_to n broadcast type_arp (s ∷ [])))

-- The branch where the address is not known.
unfoldable pub postpone : NetworkInterface → Ipv4Datagram → Address → Result NetworkInterface
postpone n dgram next_hop =
    let n' = record n { pending_list = n.pending_list ++ (dgram, next_hop) ∷ [] } in
    elim (find (ipv4_numeric next_hop) n.blocking_mapping) [
      | some _ ↦ ok n'
      | none ↦ ask n' (ipv4_numeric next_hop)
    ]

-- `NetworkInterface::send_datagram`
unfoldable pub send_datagram : NetworkInterface → Ipv4Datagram → Address → Result NetworkInterface
send_datagram n dgram next_hop = elim (find (ipv4_numeric next_hop) n.mapping) [
  | none ↦ postpone n dgram next_hop
  | some (dst, time) ↦
      Datagram.serialize dgram >>= λ payload. ok (push_frame n (frame_to n dst type_ipv4 payload))
]

-- The loop over the pending datagrams: those for `ip`, and those that stay.
unfoldable pub take_pending :
    ℕ
    → List (Ipv4Datagram × Address)
    → List (Ipv4Datagram × Address) × List (Ipv4Datagram × Address)
take_pending ip [] = ([], [])
take_pending ip ((dgram, next_hop) ∷ list) =
    let (taken, kept) = take_pending ip list in
    if ipv4_numeric next_hop == ip
    then ((dgram, next_hop) ∷ taken, kept)
    else (taken, (dgram, next_hop) ∷ kept)

-- The loop over `tmp_list`.
unfoldable pub send_each :
    NetworkInterface → List (Ipv4Datagram × Address) → Result NetworkInterface
send_each n [] = ok n
send_each n ((dgram, next_hop) ∷ list) = send_datagram n dgram next_hop >>= λ n'. send_each n' list

-- An ARP reply: what waits for its sender is sent.
unfoldable pub flush_pending : NetworkInterface → ℕ → Result NetworkInterface
flush_pending n ip =
    let (taken, kept) = take_pending ip n.pending_list in
    send_each (record n { pending_list = kept }) taken

-- The answer to a request of `msg`.
abbrev pub reply_to : NetworkInterface → ArpMessage → ArpMessage
reply_to n msg = record default_message {
  opcode = opcode_reply;
  sender_ethernet_address = n.ethernet_address;
  sender_ip_address = ipv4_numeric n.ip_address;
  target_ethernet_address = msg.sender_ethernet_address;
  target_ip_address = msg.sender_ip_address;
}

-- An ARP request.
unfoldable pub answer : NetworkInterface → ArpMessage → Result NetworkInterface
answer n msg =
    if msg.target_ip_address == ipv4_numeric n.ip_address
    then (Arp.serialize (reply_to n msg) >>= λ s.
        ok (push_frame n (frame_to n msg.sender_ethernet_address type_arp (s ∷ []))))
    else ok n

-- The sender of an ARP message is recorded, in any case.
unfoldable pub learn : NetworkInterface → ArpMessage → NetworkInterface
learn n msg = record n {
  mapping = insert msg.sender_ip_address (msg.sender_ethernet_address, n.current_time) n.mapping;
}

unfoldable pub receive_arp : NetworkInterface → ArpMessage → Result NetworkInterface
unfolding learn
receive_arp n msg =
    if msg.opcode == opcode_reply
    then flush_pending (learn n msg) msg.sender_ip_address
    else if msg.opcode == opcode_request
    then answer (learn n msg) msg
    else ok (learn n msg)

-- The branches of `recv_frame` for a payload in one buffer.
unfoldable pub receive_payload :
    NetworkInterface → ℕ → List ℕ → Result (Option Ipv4Datagram × NetworkInterface)
receive_payload n type payload =
    let (ret, msg) = Arp.parse default_message payload in
    let (ret', datagram) = Datagram.parse default_datagram payload in
    if type == type_arp
    then (if is_error ret then ok (none, n) else (receive_arp n msg >>= λ n'. ok (none, n')))
    else if is_error ret'
    then ok (none, n)
    else ok (some datagram, n)

-- `NetworkInterface::recv_frame`
unfoldable pub recv_frame :
    NetworkInterface → EthernetFrame → Result (Option Ipv4Datagram × NetworkInterface)
recv_frame n frame =
    let dst = frame.header.dst in
    let type = frame.header.type in
    if not (same_address dst n.ethernet_address) && not (same_address dst broadcast)
    then ok (none, n)
    else if type == type_arp || type == type_ipv4
    then (to_buffer frame.payload >>= λ payload. receive_payload n type payload)
    else ok (none, n)

-- `NetworkInterface::tick`
unfoldable pub tick : NetworkInterface → ℕ → NetworkInterface
tick n ms_since_last_tick =
    let now = add64 n.current_time ms_since_last_tick in
    record n {
      current_time = now;
      mapping =
          erase_if (λ (e : EthernetAddress × ℕ). leb (add64 e.1 arp_valid_time) now) n.mapping;
      blocking_mapping =
          erase_if (λ (since : ℕ). leb (add64 since arp_req_blocking_time) now) n.blocking_mapping;
    }
