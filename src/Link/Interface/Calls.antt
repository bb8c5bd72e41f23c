-- ===== src/Link/Interface/Calls.antt =====
-- No call of libsponge/network_interface.cc takes back what is known, or a frame that is queued.
use sponge_2021fall.Common.{
  ℕ, ◌≡◌, refl, ◌∙◌, arith, none, some, List, [], ◌∷◌, ok, ◌>>=◌, ◌==◌, ◌++◌, not, ◌&&◌, ◌||◌,
  Returns, bind-Returns, if-Returns, any-Returns,
}
use sponge_2021fall.Wire.Parser.{is_error}
use sponge_2021fall.Common.Assoc.{Assoc, find, insert, find-insert, insert-IsMap}
use sponge_2021fall.Address.{Address, ipv4_numeric}
use sponge_2021fall.Wire.Buffer.{to_buffer}
use sponge_2021fall.Wire.Ethernet.{EthernetFrame, type_arp, type_ipv4, same_address, broadcast}
use sponge_2021fall.Wire.Arp.{ArpMessage, default_message, opcode_reply, opcode_request}
use sponge_2021fall.Wire.Arp
use sponge_2021fall.Wire.Datagram.{Ipv4Datagram, default_datagram}
use sponge_2021fall.Wire.Datagram
use sponge_2021fall.Link.Interface.{
  NetworkInterface, send_datagram, postpone, ask, recv_frame, receive_payload, receive_arp, learn,
  flush_pending, send_each, answer, request_for, frame_to, push_frame, reply_to, take_pending,
}
use sponge_2021fall.Link.Interface.Follows.{
  Continues, Extends_refl, same-Continues, trans-Continues, after-Continues,
}

find-insert-some {ℓ} :
    {V : Type ℓ} (k j : ℕ) (v w : V) (m : Assoc V)
    → find j m ≡ some w
    → find j (insert k v m) ≡ some w
find-insert-some k j v w m h = find-insert k j v m ∙ rw (h) (ground arith)

-- Another request to be blocked.
block-Continues :
    (n : NetworkInterface) (ip : ℕ)
    → Continues n (record n { blocking_mapping = insert ip n.current_time n.blocking_mapping })
block-Continues n ip = record {
  follows = record {
    time = refl;
    address = refl;
    blocked = λ j t h. find-insert-some ip j n.current_time t n.blocking_mapping h;
    known = λ j e h. h;
    blocking_map = insert-IsMap ip n.current_time n.blocking_mapping;
    mapping_map = λ h. h;
  };
  queued = Extends_refl n;
}

pub learn-Continues : (n : NetworkInterface) (msg : ArpMessage) → Continues n (learn n msg)
unfolding learn
learn-Continues n msg = record {
  follows = record {
    time = refl;
    address = refl;
    blocked = λ j t h. h;
    known = λ j e h.
        find-insert-some msg.sender_ip_address j (msg.sender_ethernet_address, n.current_time) e
          n.mapping h;
    blocking_map = λ h. h;
    mapping_map =
        insert-IsMap msg.sender_ip_address (msg.sender_ethernet_address, n.current_time) n.mapping;
  };
  queued = Extends_refl n;
}

ask-Continues : (n : NetworkInterface) (ip : ℕ) → Returns (Continues n) (ask n ip)
unfolding ask
ask-Continues n ip =
    bind-Returns (λ s. Unit {0}) (Continues n) (Arp.serialize (request_for n ip)) _ (any-Returns _)
      (λ s u.
        trans-Continues n _ _ (block-Continues n ip)
          (same-Continues _ _ refl refl refl refl (_, refl)))

postpone-Continues :
    (n : NetworkInterface) (dgram : Ipv4Datagram) (next_hop : Address)
    → Returns (Continues n) (postpone n dgram next_hop)
unfolding postpone
postpone-Continues n dgram next_hop =
    let ip = ipv4_numeric next_hop in
    let n' : NetworkInterface = record n {
      pending_list = n.pending_list ++ (dgram, next_hop) ∷ [];
    } in
    elim (find ip n.blocking_mapping)
      as (λ o. Returns (Continues n) (elim o [ some _ ↦ ok n' | none ↦ ask n' ip ])) [
        | some t ↦ same-Continues n n' refl refl refl refl (Extends_refl n)
        | none ↦
            after-Continues n n' (ask n' ip)
              (same-Continues n n' refl refl refl refl (Extends_refl n)) (ask-Continues n' ip)
      ]

pub send_datagram-Continues :
    (n : NetworkInterface) (dgram : Ipv4Datagram) (next_hop : Address)
    → Returns (Continues n) (send_datagram n dgram next_hop)
unfolding send_datagram
send_datagram-Continues n dgram next_hop =
    elim (find (ipv4_numeric next_hop) n.mapping)
      as (λ o. Returns (Continues n) (elim o [
        | none ↦ postpone n dgram next_hop
        | some (dst, time) ↦ Datagram.serialize dgram >>= λ payload.
            ok (push_frame n (frame_to n dst type_ipv4 payload))
      ])) [
        | none ↦ postpone-Continues n dgram next_hop
        | some (dst, time) ↦
            bind-Returns (λ s. Unit {0}) (Continues n) (Datagram.serialize dgram) _ (any-Returns _)
              (λ s u. same-Continues n _ refl refl refl refl (_, refl))
      ]

send_each-Continues :
    (n : NetworkInterface) (list : List (Ipv4Datagram × Address))
    → Returns (Continues n) (send_each n list)
unfolding send_each
send_each-Continues n [] = same-Continues n n refl refl refl refl (Extends_refl n)
send_each-Continues n ((dgram, next_hop) ∷ list) =
    bind-Returns (Continues n) (Continues n) (send_datagram n dgram next_hop)
      (λ n'. send_each n' list) (send_datagram-Continues n dgram next_hop)
      (λ n' f. after-Continues n n' (send_each n' list) f (send_each-Continues n' list))

flush_pending-Continues :
    (n : NetworkInterface) (ip : ℕ) → Returns (Continues n) (flush_pending n ip)
unfolding flush_pending
flush_pending-Continues n ip =
    let n' : NetworkInterface = record n { pending_list = (take_pending ip n.pending_list).1 } in
    let taken = (take_pending ip n.pending_list).0 in
    after-Continues n n' (send_each n' taken)
      (same-Continues n n' refl refl refl refl (Extends_refl n)) (send_each-Continues n' taken)

answer-Continues : (n : NetworkInterface) (msg : ArpMessage) → Returns (Continues n) (answer n msg)
unfolding answer
answer-Continues n msg =
    if-Returns (Continues n) (msg.target_ip_address == ipv4_numeric n.ip_address) _ _
      (bind-Returns (λ s. Unit {0}) (Continues n) (Arp.serialize (reply_to n msg)) _ (any-Returns _)
        (λ s u. same-Continues n _ refl refl refl refl (_, refl)))
      (same-Continues n n refl refl refl refl (Extends_refl n))

-- After the sender is recorded.
pub receive_arp-learned :
    (n : NetworkInterface) (msg : ArpMessage)
    → Returns (Continues (learn n msg)) (receive_arp n msg)
unfolding receive_arp
receive_arp-learned n msg =
    let n' = learn n msg in
    if-Returns (Continues n') (msg.opcode == opcode_reply) _ _
      (flush_pending-Continues n' msg.sender_ip_address)
      (if-Returns (Continues n') (msg.opcode == opcode_request) _ _ (answer-Continues n' msg)
        (same-Continues n' n' refl refl refl refl (Extends_refl n')))

receive_arp-Continues :
    (n : NetworkInterface) (msg : ArpMessage) → Returns (Continues n) (receive_arp n msg)
receive_arp-Continues n msg =
    after-Continues n (learn n msg) (receive_arp n msg) (learn-Continues n msg)
      (receive_arp-learned n msg)

receive_payload-Continues :
    (n : NetworkInterface) (type : ℕ) (payload : List ℕ)
    → Returns (λ r. Continues n r.1) (receive_payload n type payload)
unfolding receive_payload
receive_payload-Continues n type payload =
    let same = same-Continues n n refl refl refl refl (Extends_refl n) in
    let (ret, msg) = Arp.parse default_message payload in
    let (ret', datagram) = Datagram.parse default_datagram payload in
    if-Returns (λ r. Continues n r.1) (type == type_arp) _ _
      (if-Returns (λ r. Continues n r.1) (is_error ret) _ _ same
        (bind-Returns (Continues n) (λ r. Continues n r.1) (receive_arp n msg) _
          (receive_arp-Continues n msg) (λ n' f. f)))
      (if-Returns (λ r. Continues n r.1) (is_error ret') _ _ same same)

pub recv_frame-Continues :
    (n : NetworkInterface) (frame : EthernetFrame)
    → Returns (λ r. Continues n r.1) (recv_frame n frame)
unfolding recv_frame
recv_frame-Continues n frame =
    let same = same-Continues n n refl refl refl refl (Extends_refl n) in
    if-Returns (λ r. Continues n r.1)
      (not (same_address frame.header.dst n.ethernet_address)
        && not (same_address frame.header.dst broadcast))
      _ _ same
      (if-Returns (λ r. Continues n r.1)
        (frame.header.type == type_arp || frame.header.type == type_ipv4) _ _
        (bind-Returns (λ p. Unit {0}) (λ r. Continues n r.1) (to_buffer frame.payload) _
          (any-Returns _) (λ p u. receive_payload-Continues n frame.header.type p))
        same)
