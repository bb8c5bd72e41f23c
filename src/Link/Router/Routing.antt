-- ===== src/Link/Router/Routing.antt =====
-- `Router::route_one_datagram` of libsponge/router.cc against a description of routing that does not
-- use its tests.
use sponge_2021fall.Common.{
  ℕ, ◌-◌, ◌/◌, ◌^◌, ◌≡◌, ◌≤◌, ◌<◌, ◌⊎◌, inl, inr, arith, false, List, [], ◌∷◌, ◌++◌, ok, IsU32, sym,
  subst,
}
use sponge_2021fall.Wire.Datagram.{Ipv4Datagram}
use sponge_2021fall.Link.Router.{Router, RouteRule, matches, route_one_datagram}
use sponge_2021fall.Link.Router.Forwards.{Sent, forward-Sent}
use sponge_2021fall.Link.Router.Prefix.{matches-prefix}
use sponge_2021fall.Link.Router.Longest.{Below, UpTo, Longest, route_one_datagram-Longest}

-- The high bits of a destination are those of the rule's prefix, as many as the rule tells.
abbrev pub Matches : ℕ → RouteRule → Type 0
Matches target rule =
    target / 2 ^ (32 - rule.prefix_length) ≡ rule.route_prefix / 2 ^ (32 - rule.prefix_length)

-- The rules of a list that match are shorter than `n`, or no longer.
abbrev pub Shorter : ℕ → ℕ → List RouteRule → Type 0
Shorter target n [] = Unit {0}
Shorter target n (q ∷ qs) = (¬ Matches target q ⊎ (q.prefix_length < n)) × Shorter target n qs

abbrev pub NoLonger : ℕ → ℕ → List RouteRule → Type 0
NoLonger target n [] = Unit {0}
NoLonger target n (q ∷ qs) = (¬ Matches target q ⊎ (q.prefix_length ≤ n)) × NoLonger target n qs

abbrev pub Unmatched : ℕ → List RouteRule → Type 0
Unmatched target [] = Unit {0}
Unmatched target (q ∷ qs) = (¬ Matches target q) × Unmatched target qs

-- Among the rules `rule` matches with the longest prefix, and is the last that does.
pub record Best (target : ℕ) (rules : List RouteRule) (rule : RouteRule) : Type 0 where
  pub before : List RouteRule
  pub after : List RouteRule
  pub split : rules ≡ before ++ rule ∷ after
  pub matched : Matches target rule
  pub earlier : NoLonger target rule.prefix_length before
  pub later : Shorter target rule.prefix_length after

-- The prefixes are numbers of 32 bits, and no longer than that.
abbrev pub Prefixes : List RouteRule → Type 0
Prefixes [] = Unit {0}
Prefixes (q ∷ qs) = (IsU32 q.route_prefix × (q.prefix_length ≤ 32)) × Prefixes qs

Prefixes-split :
    (before after : List RouteRule) (rule : RouteRule)
    → Prefixes (before ++ rule ∷ after)
    → Prefixes before × (IsU32 rule.route_prefix × (rule.prefix_length ≤ 32)) × Prefixes after
Prefixes-split [] after rule p = (tt, p.0, p.1)
Prefixes-split (q ∷ before) after rule p =
    let (b, m, a) = Prefixes-split before after rule p.1 in ((p.0, b), m, a)

module _ (target : ℕ) (word : IsU32 target) where
  unmatched :
      (q : RouteRule)
      → IsU32 q.route_prefix
      → q.prefix_length ≤ 32
      → matches target q ≡ false
      → ¬ Matches target q
  unmatched q h k e m = let yes_it_does = (matches-prefix target q word h k).1 m in cc

  Below-Unmatched :
      (rules : List RouteRule) → Prefixes rules → Below target 0 rules → Unmatched target rules
  Below-Unmatched [] p b = tt
  Below-Unmatched (q ∷ qs) p b = (
    elim b.0 [ inl e ↦ unmatched q p.0.0 p.0.1 e | inr lt ↦ absurd (omega (arith, lt)) ],
    Below-Unmatched qs p.1 b.1,
  )

  Below-Shorter :
      (n : ℕ) (rules : List RouteRule)
      → Prefixes rules
      → Below target n rules
      → Shorter target n rules
  Below-Shorter n [] p b = tt
  Below-Shorter n (q ∷ qs) p b = (
    elim b.0 [ inl e ↦ inl (unmatched q p.0.0 p.0.1 e) | inr lt ↦ inr lt ],
    Below-Shorter n qs p.1 b.1,
  )

  UpTo-NoLonger :
      (n : ℕ) (rules : List RouteRule)
      → Prefixes rules
      → UpTo target n rules
      → NoLonger target n rules
  UpTo-NoLonger n [] p b = tt
  UpTo-NoLonger n (q ∷ qs) p b = (
    elim b.0 [ inl e ↦ inl (unmatched q p.0.0 p.0.1 e) | inr le ↦ inr le ],
    UpTo-NoLonger n qs p.1 b.1,
  )

  Longest-Best :
      (rules : List RouteRule) (rule : RouteRule)
      → Prefixes rules
      → Longest target rules rule
      → Best target rules rule
  Longest-Best rules rule p l =
      let (earlier, (h, k), later) =
        Prefixes-split l.before l.after rule (subst Prefixes l.split p) in
      record {
        before = l.before;
        after = l.after;
        split = l.split;
        matched = (matches-prefix target rule word h k).0 l.matched;
        earlier = UpTo-NoLonger rule.prefix_length l.before earlier l.earlier;
        later = Below-Shorter rule.prefix_length l.after later l.later;
      }

-- A datagram is routed by the last of the rules that match its destination with the longest prefix,
-- by the high bits of the addresses. If it has no more than one hop to live it is dropped. Else it
-- goes out at that rule's interface, to its next hop or else to the destination, with one hop less to
-- live and nothing else of it or of the router changed but by that interface, whose exception is
-- passed on; there is one too if the router has no such interface. Where no rule matches the
-- datagram is dropped. The addresses are of 32 bits, and the prefixes no longer than that.
pub route_one_datagram-Routed :
    (r : Router) (dgram : Ipv4Datagram)
    → IsU32 dgram.header.dst
    → Prefixes r.rule_list
    → (Unmatched dgram.header.dst r.rule_list × (route_one_datagram r dgram ≡ ok r))
      ⊎ ((rule : RouteRule) × Best dgram.header.dst r.rule_list rule
          × (((dgram.header.ttl ≤ 1) × (route_one_datagram r dgram ≡ ok r))
              ⊎ ((1 < dgram.header.ttl) × Sent r dgram rule (route_one_datagram r dgram))))
route_one_datagram-Routed r dgram word p = elim (route_one_datagram-Longest r dgram) [
  | inl (below, e) ↦ inl (Below-Unmatched dgram.header.dst word r.rule_list p below, e)
  | inr (rule, l, inl over) ↦
      inr (rule, Longest-Best dgram.header.dst word r.rule_list rule p l, inl over)
  | inr (rule, l, inr (alive, e)) ↦ inr (
    rule,
    Longest-Best dgram.header.dst word r.rule_list rule p l,
    inr (alive, subst (Sent r dgram rule) (sym e) (forward-Sent r dgram rule alive)),
  )
]
