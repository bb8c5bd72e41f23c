-- ===== src/Link/Interface/Blocking.antt =====
-- The times of libsponge/network_interface.cc: a question is not asked again for five seconds, and an
-- address is known for thirty.
use sponge_2021fall.Common.{
  ℕ, ◌≡◌, ◌<◌, ◌+◌, refl, ap, ◌∙◌, subst, arith, none, [], ◌∷◌, ok, ◌>>=◌, ◌++◌, Returns,
  bind-Returns, any-Returns,
}
use sponge_2021fall.Common.Assoc.{find-insert_new, find, IsMap, insert-IsMap}
use sponge_2021fall.Address.{Address, ipv4_numeric}
use sponge_2021fall.Wire.Ethernet.{EthernetAddress, type_ipv4}
use sponge_2021fall.Wire.Arp.{ArpMessage}
use sponge_2021fall.Wire.Arp
use sponge_2021fall.Wire.Datagram.{Ipv4Datagram}
use sponge_2021fall.Wire.Datagram
use sponge_2021fall.Link.Interface.{
  NetworkInterface, send_datagram, postpone, ask, receive_arp, frame_to, push_frame, request_for,
  learn,
}
use sponge_2021fall.Link.Interface.Times.{Blocked, Known, Follows-Known, Steps-Blocked, Steps-Known}
use sponge_2021fall.Link.Interface.Follows.{Continues}
use sponge_2021fall.Link.Interface.Calls.{receive_arp-learned}
use sponge_2021fall.Link.Interface.Life.{Steps}

-- After a question.
ask-Blocked :
    (n : NetworkInterface) (ip : ℕ)
    → find ip n.blocking_mapping ≡ none
    → IsMap n.blocking_mapping
    → Returns (Blocked ip n.current_time) (ask n ip)
unfolding ask
ask-Blocked n ip h u =
    bind-Returns (λ s. Unit {0}) (Blocked ip n.current_time) (Arp.serialize (request_for n ip)) _
      (any-Returns _)
      (λ s x. record {
        found = find-insert_new ip n.current_time n.blocking_mapping h;
        unique = insert-IsMap ip n.current_time n.blocking_mapping u;
        past = omega arith;
      })

send_datagram-Blocked :
    (n : NetworkInterface) (dgram : Ipv4Datagram) (next_hop : Address)
    → find (ipv4_numeric next_hop) n.mapping ≡ none
    → find (ipv4_numeric next_hop) n.blocking_mapping ≡ none
    → IsMap n.blocking_mapping
    → Returns (Blocked (ipv4_numeric next_hop) n.current_time) (send_datagram n dgram next_hop)
unfolding send_datagram postpone
send_datagram-Blocked n dgram next_hop h k u =
    rw (send_datagram, h, postpone, k) (ask-Blocked _ (ipv4_numeric next_hop) k u)

-- A question is not repeated for five seconds. An interface asks for the address of a next hop that
-- it neither knows nor is already asking for. Whatever calls it gets then, as long as fewer than
-- 5000 milliseconds pass and the address does not become known, another datagram for that next hop
-- is put on the pending list, and no frame is sent for it.
pub send_datagram-once :
    (n n' m : NetworkInterface) (first dgram : Ipv4Datagram) (hop next_hop : Address)
    → IsMap n.blocking_mapping
    → find (ipv4_numeric hop) n.mapping ≡ none
    → find (ipv4_numeric hop) n.blocking_mapping ≡ none
    → send_datagram n first hop ≡ ok n'
    → Steps n' m
    → m.current_time < n.current_time + 5000
    → ipv4_numeric next_hop ≡ ipv4_numeric hop
    → find (ipv4_numeric next_hop) m.mapping ≡ none
    → send_datagram m dgram next_hop
      ≡ ok (record m { pending_list = m.pending_list ++ (dgram, next_hop) ∷ [] })
unfolding send_datagram postpone
send_datagram-once n n' m first dgram hop next_hop unique unknown unasked sent steps soon same
      still =
    let asked =
      subst (Returns (Blocked (ipv4_numeric hop) n.current_time)) sent
        (send_datagram-Blocked n first hop unknown unasked unique) in
    let blocked = Steps-Blocked (ipv4_numeric hop) n.current_time n' m steps soon asked in
    rw (send_datagram, still, postpone, ap (λ ip. find ip m.blocking_mapping) same ∙ blocked.found)
      refl

-- What is learned from a message.
learn-Known :
    (n : NetworkInterface) (msg : ArpMessage)
    → find msg.sender_ip_address n.mapping ≡ none
    → IsMap n.mapping
    → Known msg.sender_ip_address (msg.sender_ethernet_address, n.current_time) (learn n msg)
unfolding learn
learn-Known n msg h u = record {
  found = find-insert_new msg.sender_ip_address _ n.mapping h;
  unique = insert-IsMap msg.sender_ip_address _ n.mapping u;
  past = omega arith;
}

-- A message of a host whose address is not known teaches the interface its address for thirty
-- seconds. Whatever calls the interface gets after the message was received, as long as fewer than
-- 30000 milliseconds pass, a datagram for that host is serialized and sent at once, to the address
-- of that message.
pub send_datagram-learned :
    (n n' m : NetworkInterface) (msg : ArpMessage) (dgram : Ipv4Datagram) (next_hop : Address)
    → IsMap n.mapping
    → find msg.sender_ip_address n.mapping ≡ none
    → receive_arp n msg ≡ ok n'
    → Steps n' m
    → m.current_time < n.current_time + 30000
    → ipv4_numeric next_hop ≡ msg.sender_ip_address
    → send_datagram m dgram next_hop ≡ (
        Datagram.serialize dgram >>= λ payload.
        ok (push_frame m (frame_to m msg.sender_ethernet_address type_ipv4 payload)))
unfolding send_datagram
send_datagram-learned n n' m msg dgram next_hop unique unknown received steps soon same =
    let ip = msg.sender_ip_address in
    let entry : EthernetAddress × ℕ = (msg.sender_ethernet_address, n.current_time) in
    let follows =
      (subst (Returns (Continues (learn n msg))) received (receive_arp-learned n msg)).follows in
    let learned =
      Follows-Known ip entry (learn n msg) n' follows (learn-Known n msg unknown unique) in
    let known = Steps-Known ip entry n' m steps soon learned in
    rw (send_datagram, ap (λ ip. find ip m.mapping) same ∙ known.found) refl
