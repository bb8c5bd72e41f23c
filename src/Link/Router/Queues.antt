-- ===== src/Link/Router/Queues.antt =====
-- The queues of received datagrams in `Router::route` of libsponge/router.cc.
use sponge_2021fall.Common.{
  ℕ, ◌≡◌, ◌+◌, refl, ap, ◌∙◌, sym, subst, arith, zero, suc, List, [], ◌∷◌, length, ok, Yields,
  ok-Yields, bind-Yields,
}
use sponge_2021fall.Wire.Datagram.{Ipv4Datagram}
use sponge_2021fall.Link.Router.{AsyncInterface, Router, at, set_at, route_from, route, clear_queue}
use sponge_2021fall.Link.Router.Sends.{
  queues, queue_at, at-Yields, RulesValid, AllSendable, QueuesSendable, SameQueues,
  route_queue-Yields,
}

-- The queues from the index `n` on, emptied.
abbrev pub emptied : ℕ → List (List Ipv4Datagram) → List (List Ipv4Datagram)
emptied n [] = []
emptied zero (q ∷ qs) = [] ∷ emptied zero qs
emptied (suc n) (q ∷ qs) = q ∷ emptied n qs

abbrev clear_at : ℕ → List (List Ipv4Datagram) → List (List Ipv4Datagram)
clear_at n [] = []
clear_at zero (q ∷ qs) = [] ∷ qs
clear_at (suc n) (q ∷ qs) = q ∷ clear_at n qs

emptied-clear_at :
    (n : ℕ) (qs : List (List Ipv4Datagram)) → emptied (suc n) (clear_at n qs) ≡ emptied n qs
emptied-clear_at n [] = refl
emptied-clear_at zero (q ∷ qs) = refl
emptied-clear_at (suc n) (q ∷ qs) = ap (λ l. q ∷ l) (emptied-clear_at n qs)

emptied-length : (qs : List (List Ipv4Datagram)) → emptied (length qs) qs ≡ qs
emptied-length [] = refl
emptied-length (q ∷ qs) = ap (λ l. q ∷ l) (emptied-length qs)

length-clear_at : (n : ℕ) (qs : List (List Ipv4Datagram)) → length (clear_at n qs) ≡ length qs
length-clear_at n [] = refl
length-clear_at zero (q ∷ qs) = refl
length-clear_at (suc n) (q ∷ qs) = ap suc (length-clear_at n qs)

clear_at-Sendable :
    (n : ℕ) (qs : List (List Ipv4Datagram)) → QueuesSendable qs → QueuesSendable (clear_at n qs)
clear_at-Sendable n [] h = tt
clear_at-Sendable zero (q ∷ qs) h = (tt, h.1)
clear_at-Sendable (suc n) (q ∷ qs) h = (h.0, clear_at-Sendable n qs h.1)

queues-clear :
    (is : List AsyncInterface) (k : ℕ) (i : AsyncInterface)
    → queues (set_at is k (record i { datagrams_out = [] })) ≡ clear_at k (queues is)
unfolding set_at
queues-clear [] k i = refl
queues-clear (j ∷ is) zero i = refl
queues-clear (j ∷ is) (suc k) i = ap (λ q. j.datagrams_out ∷ q) (queues-clear is k i)

at-Sendable :
    (is : List AsyncInterface) (k : ℕ) (i : AsyncInterface)
    → at is k ≡ ok i
    → QueuesSendable (queues is)
    → AllSendable i.datagrams_out
unfolding at
at-Sendable [] k i e h = absurd (cc e)
at-Sendable (j ∷ is) zero i e h = subst AllSendable (ap queue_at e) h.0
at-Sendable (j ∷ is) (suc k) i e h = at-Sendable is k i e h.1

-- Rules and queues for which the loop does not throw.
pub record Ready (r : Router) : Type 0 where
  pub rules : RulesValid (length (queues r.interfaces)) r.rule_list
  pub sendable : QueuesSendable (queues r.interfaces)

clear_queue-queues :
    (r s : Router) (n : ℕ) (i : AsyncInterface)
    → SameQueues r s
    → queues (clear_queue s n i).interfaces ≡ clear_at n (queues r.interfaces)
unfolding clear_queue
clear_queue-queues r s n i same = queues-clear s.interfaces n i ∙ ap (clear_at n) same.same

clear_queue-rules :
    (s : Router) (n : ℕ) (i : AsyncInterface) → (clear_queue s n i).rule_list ≡ s.rule_list
unfolding clear_queue
clear_queue-rules s n i = refl

clear_queue-Ready :
    (r s : Router) (n : ℕ) (i : AsyncInterface)
    → SameQueues r s
    → Ready r
    → Ready (clear_queue s n i)
clear_queue-Ready r s n i same ready =
    let cleared = clear_queue-queues r s n i same in
    let count = ap length cleared ∙ length-clear_at n (queues r.interfaces) in
    record {
      rules = rw (count, clear_queue-rules s n i, same.rules) ready.rules;
      sendable =
          subst QueuesSendable (sym cleared)
            (clear_at-Sendable n (queues r.interfaces) ready.sendable);
    }

cleared-Yields :
    (left n : ℕ) (r s : Router) (j : AsyncInterface)
    → SameQueues r s
    → Yields
        (λ t. queues t.interfaces ≡ emptied (suc n) (queues (clear_queue s n j).interfaces))
        (route_from left (suc n) (clear_queue s n j))
    → Yields
        (λ t. queues t.interfaces ≡ emptied n (queues r.interfaces))
        (route_from left (suc n) (clear_queue s n j))
cleared-Yields left n r s j same h = record {
  result = h.result;
  is_ok = h.is_ok;
  holds =
      h.holds
      ∙ ap (emptied (suc n)) (clear_queue-queues r s n j same)
      ∙ emptied-clear_at n (queues r.interfaces);
}

length-queues : (is : List AsyncInterface) → length (queues is) ≡ length is
length-queues [] = refl
length-queues (i ∷ is) = ap suc (length-queues is)

route_from-Yields :
    (left n : ℕ) (r : Router)
    → n + left ≡ length (queues r.interfaces)
    → Ready r
    → Yields (λ s. queues s.interfaces ≡ emptied n (queues r.interfaces)) (route_from left n r)
unfolding route_from
route_from-Yields zero n r e ready =
    let all : n ≡ length (queues r.interfaces) = omega arith in
    ok-Yields _ r
      (sym (ap (λ k. emptied k (queues r.interfaces)) all ∙ emptied-length (queues r.interfaces)))
route_from-Yields (suc left) n r e ready =
    bind-Yields _ _ _ _ (at-Yields r.interfaces n (omega arith)) (λ i found.
      bind-Yields _ _ _ _
        (route_queue-Yields i.datagrams_out r (at-Sendable r.interfaces n i found ready.sendable)
          ready.rules)
        (λ s same.
          bind-Yields _ _ _ _ (at-Yields s.interfaces n (omega (arith, ap length same.same)))
            (λ j _. cleared-Yields left n r s j same (
              route_from-Yields left (suc n) (clear_queue s n j)
                (omega (
                  arith,
                  e,
                  ap length (clear_queue-queues r s n j same),
                  length-clear_at n (queues r.interfaces),
                ))
                (clear_queue-Ready r s n j same ready)))))

-- The loops of `route` come to their end. If every rule names an interface and every datagram in the
-- queues is of version 4 with a header of at least five words and the payload that its length says,
-- then `route` throws no exception, and after it the queues of all interfaces are empty.
pub route-empties :
    (r : Router)
    → Ready r
    → Yields (λ s. queues s.interfaces ≡ emptied 0 (queues r.interfaces)) (route r)
unfolding route
route-empties r ready =
    route_from-Yields (length r.interfaces) 0 r (omega (arith, length-queues r.interfaces)) ready
