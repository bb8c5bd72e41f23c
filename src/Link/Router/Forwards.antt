-- ===== src/Link/Router/Forwards.antt =====
-- The end of `Router::route_one_datagram` in libsponge/router.cc, where a datagram goes out.
use sponge_2021fall.Common.{
  ℕ, zero, suc, ◌≡◌, ◌≤◌, ◌<◌, ◌⊎◌, inl, inr, refl, ap, arith, none, some, List, [], ◌∷◌, ◌++◌,
  length, Result, ok, throw, out_of_range, Exception,
}
use sponge_2021fall.Address.{Address, from_ipv4_numeric}
use sponge_2021fall.Wire.Datagram.{Ipv4Datagram}
use sponge_2021fall.Link.Interface.{send_datagram, NetworkInterface}
use sponge_2021fall.Link.Router.{
  AsyncInterface, Router, RouteRule, at, set_at, hop_of, hop_down, forward,
}

-- The `k`-th of some interfaces, between those before it and those after it.
pub record Picked (is : List AsyncInterface) (k : ℕ) (i : AsyncInterface) : Type 0 where
  pub before : List AsyncInterface
  pub after : List AsyncInterface
  pub split : is ≡ before ++ i ∷ after
  pub place : length before ≡ k

-- A router is left by a datagram through its `k`-th interface: that sends the datagram to the hop,
-- and nothing else changes. There is an exception if there is no such interface, or if it throws.
abbrev pub GoesOut : Router → ℕ → Ipv4Datagram → Address → Result Router → Type 0
GoesOut r k dgram hop o =
    ((length r.interfaces ≤ k) × (o ≡ throw out_of_range))
    ⊎ ((i : AsyncInterface) × (p : Picked r.interfaces k i) × (((n : NetworkInterface)
            × (send_datagram i.base dgram hop ≡ ok n)
            × (o ≡ ok (record r { interfaces = p.before ++ record i { base = n } ∷ p.after })))
          ⊎ ((z : Exception) × (send_datagram i.base dgram hop ≡ throw z) × (o ≡ throw z))))

-- What `at` finds, and `set_at` replaces.
abbrev Found : List AsyncInterface → ℕ → Type 0
Found is k =
    ((length is ≤ k) × (at is k ≡ throw out_of_range))
    ⊎ ((i : AsyncInterface) × (p : Picked is k i) × (at is k ≡ ok i)
        × ((j : AsyncInterface) → set_at is k j ≡ p.before ++ j ∷ p.after))

at-Found : (is : List AsyncInterface) (k : ℕ) → Found is k
unfolding at set_at
at-Found [] k = inl (omega arith, refl)
at-Found (i ∷ is) zero =
    inr (i, record { before = []; after = is; split = refl; place = refl }, refl, λ j. refl)
at-Found (i ∷ is) (suc k) = elim (at-Found is k) [
  | inl (short, e) ↦ inl (omega (arith, short), e)
  | inr (j, p, e, s) ↦ inr (
    j,
    record {
      before = i ∷ p.before;
      after = p.after;
      split = ap (λ js. i ∷ js) p.split;
      place = omega (arith, p.place);
    },
    e,
    λ m. ap (λ js. i ∷ js) (s m),
  )
]

forward-GoesOut :
    (r : Router) (dgram : Ipv4Datagram) (rule : RouteRule)
    → GoesOut r rule.interface_num dgram (hop_of rule dgram.header.dst) (forward r dgram rule)
unfolding forward
forward-GoesOut r dgram rule =
    let k = rule.interface_num in
    let hop = hop_of rule dgram.header.dst in
    elim (at-Found r.interfaces k) [
      | inl (short, e) ↦ inl (short, rw e refl)
      | inr (i, p, e, s) ↦
          inr (i, p, sends r dgram rule i p e s (send_datagram i.base dgram hop) refl)
    ]
  where
    sends :
        (r : Router) (dgram : Ipv4Datagram) (rule : RouteRule) (i : AsyncInterface)
        (p : Picked r.interfaces rule.interface_num i)
        → at r.interfaces rule.interface_num ≡ ok i
        → ((j : AsyncInterface)
            → set_at r.interfaces rule.interface_num j ≡ p.before ++ j ∷ p.after)
        → (o : Result NetworkInterface)
        → send_datagram i.base dgram (hop_of rule dgram.header.dst) ≡ o
        → ((n : NetworkInterface) × (send_datagram i.base dgram (hop_of rule dgram.header.dst)
              ≡ ok n)
            × (forward r dgram rule
                ≡ ok (record r { interfaces = p.before ++ record i { base = n } ∷ p.after })))
          ⊎ ((z : Exception) × (send_datagram i.base dgram (hop_of rule dgram.header.dst) ≡ throw z)
              × (forward r dgram rule ≡ throw z))
    sends r dgram rule i p e s (ok n) q =
        inl (
          n,
          q,
          rw (e, q) (ap (λ js. ok (record r { interfaces = js })) (s (record i { base = n }))),
        )
    sends r dgram rule i p e s (throw z) q = inr (z, q, rw (e, q) refl)

-- Where a rule sends a datagram that is not ended: out of its interface, to its next hop or else to
-- the destination, with one less to live and all else as it was.
pub record Sent (r : Router) (dgram : Ipv4Datagram) (rule : RouteRule) (o : Result Router)
    : Type 0 where
  pub counted : Ipv4Datagram
  pub ttl : suc counted.header.ttl ≡ dgram.header.ttl
  pub same : record counted { header = record (counted.header) { ttl = dgram.header.ttl } } ≡ dgram
  pub hop : Address
  pub hop_rule :
      (rule.next_hop ≡ some hop)
      ⊎ ((rule.next_hop ≡ none) × (hop ≡ from_ipv4_numeric dgram.header.dst))
  pub sent : GoesOut r rule.interface_num counted hop o

hop_of_cases :
    (rule : RouteRule) (dst : ℕ)
    → (rule.next_hop ≡ some (hop_of rule dst))
      ⊎ ((rule.next_hop ≡ none) × (hop_of rule dst ≡ from_ipv4_numeric dst))
unfolding hop_of
hop_of_cases rule dst =
    elim rule.next_hop
      as (λ o.
        (o ≡ some (elim o [ some hop ↦ hop | none ↦ from_ipv4_numeric dst ]))
        ⊎ ((o ≡ none)
            × (elim o [ some hop ↦ hop | none ↦ from_ipv4_numeric dst ] ≡ from_ipv4_numeric dst))) [
              | some hop ↦ inl refl
              | none ↦ inr (refl, refl)
            ]

pub forward-Sent :
    (r : Router) (dgram : Ipv4Datagram) (rule : RouteRule)
    → 1 < dgram.header.ttl
    → Sent r dgram rule (forward r (hop_down dgram) rule)
forward-Sent r dgram rule alive = record {
  counted = hop_down dgram;
  ttl = omega (arith, alive);
  same = refl;
  hop = hop_of rule dgram.header.dst;
  hop_rule = hop_of_cases rule dgram.header.dst;
  sent = forward-GoesOut r (hop_down dgram) rule;
}
