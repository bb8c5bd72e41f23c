-- ===== src/Link/Router/Sends.antt =====
-- Routing a datagram that `IPv4Datagram::serialize` accepts, in libsponge/router.cc.
use sponge_2021fall.Common.{
  ℕ, ◌≡◌, ◌≤◌, ◌<◌, ◌*◌, refl, ap, ◌∙◌, sym, arith, true, false, none, some, zero, suc, List, [],
  ◌∷◌, ◌++◌, length, ok, throw, Result, ◌>>=◌, if◌then◌else◌, ◌==◌, ltb, Bool, Yields, ok-Yields,
  bind-Yields, if-Yields, Option, ◌||◌, ◌-◌, ◌&&◌, leb,
}
use sponge_2021fall.Common.Assoc.{find}
use sponge_2021fall.Address.{Address, ipv4_numeric}
use sponge_2021fall.Wire.Buffer.{list_size}
use sponge_2021fall.Wire.Ethernet.{type_ipv4}
use sponge_2021fall.Wire.Arp
use sponge_2021fall.Wire.Ipv4.{Ipv4Header, payload_length}
use sponge_2021fall.Wire.Ipv4
use sponge_2021fall.Wire.Datagram.{Ipv4Datagram, sign}
use sponge_2021fall.Wire.Datagram
use sponge_2021fall.Link.Interface.{
  NetworkInterface, send_datagram, postpone, ask, push_frame, frame_to,
}
use sponge_2021fall.Link.Router.{
  AsyncInterface, Router, RouteRule, at, set_at, hop_of, hop_down, forward, route_one_datagram,
  route_queue, longest_match, matches,
}

-- What `IPv4Datagram::serialize` wants.
pub record Sendable (d : Ipv4Datagram) : Type 0 where
  pub ver : d.header.ver ≡ 4
  pub hlen : 5 ≤ d.header.hlen
  pub size : list_size d.payload ≡ payload_length d.header

serialize-Yields :
    (h : Ipv4Header) → h.ver ≡ 4 → 5 ≤ h.hlen → Yields (λ s. Unit {0}) (Ipv4.serialize h)
unfolding Ipv4.serialize
serialize-Yields h v l =
    let ver : (h.ver == 4) ≡ true = ground (arith, v) in
    let long : ltb (4 * h.hlen) 20 ≡ false = ground (arith, l) in rw (ver, long) (ok-Yields _ _ tt)

pub datagram-Yields :
    (d : Ipv4Datagram) → Sendable d → Yields (λ bufs. Unit {0}) (Datagram.serialize d)
unfolding Datagram.serialize sign
datagram-Yields d h =
    let same : (list_size d.payload == payload_length d.header) ≡ true = ground (arith, h.size) in
    rw (same) (
      bind-Yields _ _ _ _ (serialize-Yields (record (d.header) { cksum = 0 }) h.ver h.hlen) (λ s u.
        bind-Yields _ _ _ _ (serialize-Yields (sign d.header s) h.ver h.hlen)
          (λ t w. ok-Yields _ _ tt)))

hop_down-Sendable : (d : Ipv4Datagram) → Sendable d → Sendable (hop_down d)
unfolding payload_length
hop_down-Sendable d h = record { ver = h.ver; hlen = h.hlen; size = h.size }

ask-Yields : (n : NetworkInterface) (ip : ℕ) → Yields (λ m. Unit {0}) (ask n ip)
unfolding ask Arp.serialize Arp.supported
ask-Yields n ip = ok-Yields _ _ tt

send_datagram-Yields :
    (n : NetworkInterface) (d : Ipv4Datagram) (hop : Address)
    → Sendable d
    → Yields (λ m. Unit {0}) (send_datagram n d hop)
unfolding send_datagram postpone
send_datagram-Yields n d hop h =
    let n' : NetworkInterface = record n { pending_list = n.pending_list ++ (d, hop) ∷ [] } in
    let postponed : Yields (λ m. Unit {0}) (postpone n d hop) =
      elim (find (ipv4_numeric hop) n.blocking_mapping)
        as (λ o.
          Yields (λ m. Unit {0}) (elim o [ some _ ↦ ok n' | none ↦ ask n' (ipv4_numeric hop) ])) [
            | some t ↦ ok-Yields _ _ tt
            | none ↦ ask-Yields n' (ipv4_numeric hop)
          ] in
    elim (find (ipv4_numeric hop) n.mapping)
      as (λ o.
        Yields (λ m. Unit {0})
          (elim o [
            | none ↦ postpone n d hop
            | some (dst, time) ↦ Datagram.serialize d >>= λ payload.
                ok (push_frame n (frame_to n dst type_ipv4 payload))
          ])) [
            | none ↦ postponed
            | some (dst, time) ↦ bind-Yields _ _ _ _ (datagram-Yields d h) (λ p u. ok-Yields _ _ tt)
          ]

-- The queues of received datagrams.
abbrev pub queues : List AsyncInterface → List (List Ipv4Datagram)
queues [] = []
queues (i ∷ is) = i.datagrams_out ∷ queues is

pub at-Yields :
    (is : List AsyncInterface) (k : ℕ)
    → k < length (queues is)
    → Yields (λ i. at is k ≡ ok i) (at is k)
unfolding at
at-Yields [] k h = absurd (omega arith)
at-Yields (i ∷ is) zero h = ok-Yields _ i refl
at-Yields (i ∷ is) (suc k) h = at-Yields is k (omega arith)

-- The queue of the interface, if there is one.
abbrev pub queue_at : Result AsyncInterface → List Ipv4Datagram
queue_at (ok i) = i.datagrams_out
queue_at (throw e) = []

queues-set_at :
    (is : List AsyncInterface) (k : ℕ) (i : AsyncInterface) (n : NetworkInterface)
    → at is k ≡ ok i
    → queues (set_at is k (record i { base = n })) ≡ queues is
unfolding at set_at
queues-set_at [] k i n h = refl
queues-set_at (j ∷ is) zero i n h = ap (λ q. q ∷ queues is) (ap queue_at (sym h))
queues-set_at (j ∷ is) (suc k) i n h = ap (λ q. j.datagrams_out ∷ q) (queues-set_at is k i n h)

-- Each rule names an interface.
abbrev pub RulesValid : ℕ → List RouteRule → Type 0
RulesValid count [] = Unit {0}
RulesValid count (rule ∷ rules) = (rule.interface_num < count) × RulesValid count rules

abbrev pub AllSendable : List Ipv4Datagram → Type 0
AllSendable [] = Unit {0}
AllSendable (d ∷ ds) = Sendable d × AllSendable ds

abbrev pub QueuesSendable : List (List Ipv4Datagram) → Type 0
QueuesSendable [] = Unit {0}
QueuesSendable (q ∷ qs) = AllSendable q × QueuesSendable qs

-- The same rules and queues.
pub record SameQueues (r s : Router) : Type 0 where
  pub rules : s.rule_list ≡ r.rule_list
  pub same : queues s.interfaces ≡ queues r.interfaces

forward-Yields :
    (r : Router) (d : Ipv4Datagram) (rule : RouteRule)
    → Sendable d
    → rule.interface_num < length (queues r.interfaces)
    → Yields (SameQueues r) (forward r d rule)
unfolding forward
forward-Yields r d rule h k =
    bind-Yields _ _ _ _ (at-Yields r.interfaces rule.interface_num k) (λ i e.
      bind-Yields _ _ _ _ (send_datagram-Yields i.base d (hop_of rule d.header.dst) h) (λ n u.
        ok-Yields _ _
          (record { rules = refl; same = queues-set_at r.interfaces rule.interface_num i n e })))

longest_match-Yields :
    (r : Router) (count target longest : ℕ) (found : Option RouteRule) (rules : List RouteRule)
    (P : Option RouteRule → Type 0)
    → P found
    → ((rule : RouteRule) → rule.interface_num < count → P (some rule))
    → RulesValid count rules
    → P (longest_match target longest found rules)
unfolding longest_match
longest_match-Yields r count target longest found [] P h k v = h
longest_match-Yields r count target longest found (rule ∷ rules) P h k v =
    elim (matches target rule && leb longest rule.prefix_length)
      as (λ (b : Bool). P (
        longest_match target (if b then rule.prefix_length else longest)
          (if b then some rule else found) rules)) [
            | true ↦
                longest_match-Yields r count target rule.prefix_length (some rule) rules P
                  (k rule v.0) k v.1
            | false ↦ longest_match-Yields r count target longest found rules P h k v.1
          ]

same-SameQueues : (r : Router) → SameQueues r r
same-SameQueues r = record { rules = refl; same = refl }

route_one_datagram-Yields :
    (r : Router) (d : Ipv4Datagram)
    → Sendable d
    → RulesValid (length (queues r.interfaces)) r.rule_list
    → Yields (SameQueues r) (route_one_datagram r d)
unfolding route_one_datagram
route_one_datagram-Yields r d h v =
    longest_match-Yields r (length (queues r.interfaces)) d.header.dst 0 none r.rule_list
      (λ o. Yields (SameQueues r) (elim o [
        | none ↦ ok r
        | some rule ↦
            if d.header.ttl == 0 || d.header.ttl - 1 == 0 then ok r else forward r (hop_down d) rule
      ]))
      (ok-Yields _ _ (same-SameQueues r))
      (λ rule k.
        if-Yields _ (d.header.ttl == 0 || d.header.ttl - 1 == 0) _ _
          (ok-Yields _ _ (same-SameQueues r))
          (forward-Yields r (hop_down d) rule (hop_down-Sendable d h) k))
      v

pub bind-SameQueues :
    (r s : Router) (result : Result Router)
    → SameQueues r s
    → Yields (SameQueues s) result
    → Yields (SameQueues r) result
bind-SameQueues r s result h k = record {
  result = k.result;
  is_ok = k.is_ok;
  holds = record { rules = k.holds.rules ∙ h.rules; same = k.holds.same ∙ h.same };
}

pub RulesValid-same :
    (r s : Router)
    → SameQueues r s
    → RulesValid (length (queues r.interfaces)) r.rule_list
    → RulesValid (length (queues s.interfaces)) s.rule_list
RulesValid-same r s h v = rw (h.rules, h.same) v

pub route_queue-Yields :
    (queue : List Ipv4Datagram) (r : Router)
    → AllSendable queue
    → RulesValid (length (queues r.interfaces)) r.rule_list
    → Yields (SameQueues r) (route_queue r queue)
unfolding route_queue
route_queue-Yields [] r h v = ok-Yields _ r (same-SameQueues r)
route_queue-Yields (d ∷ queue) r h v =
    bind-Yields _ _ _ _ (route_one_datagram-Yields r d h.0 v) (λ r' s.
      bind-SameQueues r r' (route_queue r' queue) s
        (route_queue-Yields queue r' h.1 (RulesValid-same r r' s v)))
