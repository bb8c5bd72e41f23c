-- ===== src/Link/Router/Longest.antt =====
-- The choice of a route in `Router::route_one_datagram` of libsponge/router.cc.
use sponge_2021fall.Common.{
  ℕ, ◌≡◌, ◌≤◌, ◌<◌, ◌⊎◌, inl, inr, refl, ap, arith, true, false, Option, none, some, List, [], ◌∷◌,
  ◌++◌, Bool-cases, ◌&&◌, leb, ok, ◌||◌, ◌==◌, ◌-◌, subst, sym,
}
use sponge_2021fall.Wire.Datagram.{Ipv4Datagram}
use sponge_2021fall.Link.Router.{
  Router, RouteRule, matches, longest_match, route_one_datagram, forward, hop_down,
}

-- The rules of a list that match are shorter than `n`, or no longer.
abbrev pub Below : ℕ → ℕ → List RouteRule → Type 0
Below target n [] = Unit {0}
Below target n (q ∷ qs) = ((matches target q ≡ false) ⊎ (q.prefix_length < n)) × Below target n qs

abbrev pub UpTo : ℕ → ℕ → List RouteRule → Type 0
UpTo target n [] = Unit {0}
UpTo target n (q ∷ qs) = ((matches target q ≡ false) ⊎ (q.prefix_length ≤ n)) × UpTo target n qs

-- Among the rules `rule` matches with the longest prefix, and is the last that does.
pub record Longest (target : ℕ) (rules : List RouteRule) (rule : RouteRule) : Type 0 where
  pub before : List RouteRule
  pub after : List RouteRule
  pub split : rules ≡ before ++ rule ∷ after
  pub matched : matches target rule ≡ true
  pub earlier : UpTo target rule.prefix_length before
  pub later : Below target rule.prefix_length after

-- How the loop ends from `longest` and `found` on.
abbrev Ends : ℕ → ℕ → Option RouteRule → List RouteRule → Option RouteRule → Type 0
Ends target longest found rules o =
    ((o ≡ found) × Below target longest rules)
    ⊎ ((rule : RouteRule) × (o ≡ some rule)
        × (longest ≤ rule.prefix_length)
        × Longest target rules rule)

Longest-cons :
    (target : ℕ) (q : RouteRule) (rules : List RouteRule) (rule : RouteRule)
    → (matches target q ≡ false) ⊎ (q.prefix_length ≤ rule.prefix_length)
    → Longest target rules rule
    → Longest target (q ∷ rules) rule
Longest-cons target q rules rule h l = record {
  before = q ∷ l.before;
  after = l.after;
  split = ap (λ qs. q ∷ qs) l.split;
  matched = l.matched;
  earlier = (h, l.earlier);
  later = l.later;
}

longest_match-Ends :
    (target longest : ℕ) (found : Option RouteRule) (rules : List RouteRule)
    → Ends target longest found rules (longest_match target longest found rules)
unfolding longest_match
longest_match-Ends target longest found [] = inl (refl, tt)
longest_match-Ends target longest found (q ∷ rules) =
    elim (Bool-cases (matches target q && leb longest q.prefix_length)) [
      | inl better ↦ rw better (elim (longest_match-Ends target q.prefix_length (some q) rules) [
        | inl (e, below) ↦ inr (
          q,
          e,
          ground arith,
          record {
            before = [];
            after = rules;
            split = refl;
            matched = ground arith;
            earlier = tt;
            later = below;
          },
        )
        | inr (rule, e, le, l) ↦
            inr (rule, e, ground arith, Longest-cons target q rules rule (inr le) l)
      ])
      | inr worse ↦ rw worse (elim (longest_match-Ends target longest found rules) [
        | inl (e, below) ↦ inl (e, (ground arith, below))
        | inr (rule, e, le, l) ↦
            inr (rule, e, le, Longest-cons target q rules rule (ground arith) l)
      ])
    ]

-- The loop from its start: no rule matches, or it gives the last of the longest that do.
abbrev pub Chooses : ℕ → List RouteRule → Option RouteRule → Type 0
Chooses target rules none = Below target 0 rules
Chooses target rules (some rule) = Longest target rules rule

longest_match-Chooses :
    (target : ℕ) (rules : List RouteRule) → Chooses target rules (longest_match target 0 none rules)
longest_match-Chooses target rules = elim (longest_match-Ends target 0 none rules) [
  | inl (e, below) ↦ subst (Chooses target rules) (sym e) below
  | inr (rule, e, le, l) ↦ subst (Chooses target rules) (sym e) l
]

-- The same for `route_one_datagram`, by the tests of its code.
pub route_one_datagram-Longest :
    (r : Router) (dgram : Ipv4Datagram)
    → (Below dgram.header.dst 0 r.rule_list × (route_one_datagram r dgram ≡ ok r))
      ⊎ ((rule : RouteRule) × Longest dgram.header.dst r.rule_list rule
          × (((dgram.header.ttl ≤ 1) × (route_one_datagram r dgram ≡ ok r))
              ⊎ ((1 < dgram.header.ttl)
                  × (route_one_datagram r dgram ≡ forward r (hop_down dgram) rule))))
unfolding route_one_datagram
route_one_datagram-Longest r dgram =
    by_choice (longest_match dgram.header.dst 0 none r.rule_list) refl
      (longest_match-Chooses dgram.header.dst r.rule_list)
  where
    by_choice :
        (o : Option RouteRule)
        → longest_match dgram.header.dst 0 none r.rule_list ≡ o
        → Chooses dgram.header.dst r.rule_list (longest_match dgram.header.dst 0 none r.rule_list)
        → (Below dgram.header.dst 0 r.rule_list × (route_one_datagram r dgram ≡ ok r))
          ⊎ ((rule : RouteRule) × Longest dgram.header.dst r.rule_list rule
              × (((dgram.header.ttl ≤ 1) × (route_one_datagram r dgram ≡ ok r))
                  ⊎ ((1 < dgram.header.ttl)
                      × (route_one_datagram r dgram ≡ forward r (hop_down dgram) rule))))
    by_choice none e c =
        inl (subst (Chooses dgram.header.dst r.rule_list) e c, rw (route_one_datagram, e))
    by_choice (some rule) e c = inr (
      rule,
      subst (Chooses dgram.header.dst r.rule_list) e c,
      elim (Bool-cases (dgram.header.ttl == 0 || dgram.header.ttl - 1 == 0)) [
        | inl over ↦ inl (ground arith, rw (route_one_datagram, e, over))
        | inr alive ↦ inr (ground arith, rw (route_one_datagram, e, alive))
      ],
    )
