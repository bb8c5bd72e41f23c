-- ===== src/Link/Router/Quiet.antt =====
-- `Router::route` of libsponge/router.cc where no datagram waits.
use sponge_2021fall.Common.{
  ℕ, zero, suc, ◌≡◌, ◌<◌, ◌+◌, refl, ap, sym, ◌∙◌, arith, List, [], ◌∷◌, length, ok,
}
use sponge_2021fall.Link.Router.{
  AsyncInterface, Router, at, set_at, route_queue, clear_queue, route_from, route,
}

-- No datagram and no frame waits at an interface.
pub record IsIdle (i : AsyncInterface) : Type 0 where
  pub received : i.datagrams_out ≡ []
  pub frames : i.base.frames_out ≡ []

abbrev pub AllIdle : List AsyncInterface → Type 0
AllIdle [] = Unit {0}
AllIdle (i ∷ is) = IsIdle i × AllIdle is

pub set_at_same :
    (is : List AsyncInterface) (k : ℕ) (i : AsyncInterface) → at is k ≡ ok i → set_at is k i ≡ is
unfolding at set_at
set_at_same [] k i h = cc
set_at_same (j ∷ is) zero i h = cc
set_at_same (j ∷ is) (suc k) i h = ap (λ l. j ∷ l) (set_at_same is k i h)

-- The interface at an index.
pub at_idle :
    (is : List AsyncInterface) (k : ℕ)
    → k < length is
    → AllIdle is
    → (i : AsyncInterface) × (at is k ≡ ok i) × IsIdle i
unfolding at
at_idle [] k h idle = absurd (omega arith)
at_idle (i ∷ is) zero h idle = (i, refl, idle.0)
at_idle (i ∷ is) (suc k) h idle = at_idle is k (omega arith) idle.1

emptied_same : (i : AsyncInterface) → i.datagrams_out ≡ [] → record i { datagrams_out = [] } ≡ i
emptied_same i e = ap (λ q. record i { datagrams_out = q }) (sym e)

route_from_idle :
    (left n : ℕ) (r : Router)
    → n + left ≡ length r.interfaces
    → AllIdle r.interfaces
    → route_from left n r ≡ ok r
unfolding route_from route_queue clear_queue
route_from_idle zero n r e idle = refl
route_from_idle (suc left) n r e idle =
    let (i, found, waits) = at_idle r.interfaces n (omega arith) idle in
    let same : set_at r.interfaces n (record i { datagrams_out = [] }) ≡ r.interfaces =
      ap (set_at r.interfaces n) (emptied_same i waits.received)
      ∙ set_at_same r.interfaces n i found in
    rw (found, waits.received, found)
      (ap (λ is. route_from left (suc n) (record r { interfaces = is })) same
        ∙ route_from_idle left (suc n) r (omega arith) idle)

-- Where no datagram waits, `route` changes nothing.
pub route_idle : (r : Router) → AllIdle r.interfaces → route r ≡ ok r
unfolding route
route_idle r idle = route_from_idle (length r.interfaces) 0 r (omega arith) idle
