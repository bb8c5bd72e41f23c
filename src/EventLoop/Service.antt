-- ===== src/EventLoop/Service.antt =====
-- Rounds of the event loop of libsponge/util/eventloop.cc.
use sponge_2021fall.Common.{
  ℕ, suc, ◌≡◌, refl, Bool, true, false, not, ◌&&◌, List, [], ◌∷◌, ◌==◌, Yields, ok-Yields,
  bind-Yields, if-Yields, else-Yields,
}
use sponge_2021fall.EventLoop.{
  Rule, PollFd, Revents, Polled, timed_out, interrupted, unnoticed, answered, Outcome,
  service_count, is_over, set_up, something_to_poll, rules_of, entries_of, service, dispatch,
  after_poll, wait_next_event, quiet, is_ready, is_asked,
}

-- No entry has an error.
abbrev pub IsSound : Polled → Type 0
IsSound timed_out = Unit {0}
IsSound interrupted = Unit {0}
IsSound unnoticed = Unit {0}
IsSound (answered revents) = (idx : ℕ) → (revents idx).failed ≡ false

module _ {S : Type 0} (P : S → Type 0) where
  -- The functions of a rule return and keep `P`, and after its callback it has read or written its
  -- descriptor, or has lost interest.
  pub record Serves (r : Rule S) : Type 0 where
    pub runs :
        (s : S)
        → P s
        → Yields
            (λ t. P t × ((service_count r s == service_count r t && r.interest t) ≡ false))
            (r.callback s)
    pub cancels : (s : S) → P s → Yields P (r.cancel s)

  abbrev pub AllServe : List (Rule S) → Type 0
  AllServe [] = Unit {0}
  AllServe (r ∷ rules) = Serves r × AllServe rules

  -- What is left after a loop.
  abbrev Left : List (Rule S) × S → Type 0
  Left q = AllServe q.0 × P q.1

  set_up-Yields :
      (rules : List (Rule S)) (s : S)
      → AllServe rules
      → P s
      → Yields
          (λ (p : List (Rule S × PollFd) × S). AllServe (rules_of p.0) × P p.1)
          (set_up rules s)
  unfolding set_up
  set_up-Yields [] s h k = ok-Yields _ _ (tt, k)
  set_up-Yields (r ∷ rules) s h k =
      if-Yields _ (is_over r s) _ _
        (bind-Yields _ _ _ _ (h.0.cancels s k) (λ t l. set_up-Yields rules t h.1 l))
        (bind-Yields _ _ _ _ (set_up-Yields rules s h.1 k) (λ p l. ok-Yields _ _ ((h.0, l.0), l.1)))

  service-Yields :
      (r : Rule S) (ready : Bool) (s : S) → Serves r → P s → Yields P (service r ready s)
  unfolding service
  service-Yields r true s h k =
      bind-Yields _ _ _ _ (h.runs s k) (λ t l. rw (l.1) (ok-Yields P t l.0))
  service-Yields r false s h k = ok-Yields P s k

  dispatch-Yields :
      (polled : List (Rule S × PollFd)) (revents : ℕ → Revents) (idx : ℕ) (s : S)
      → ((i : ℕ) → (revents i).failed ≡ false)
      → AllServe (rules_of polled)
      → P s
      → Yields Left (dispatch polled revents idx s)
  unfolding dispatch
  dispatch-Yields [] revents idx s sound h k = ok-Yields _ _ (tt, k)
  dispatch-Yields ((r, p) ∷ rest) revents idx s sound h k =
      else-Yields Left (revents idx).failed _ _ (sound idx) (
        if-Yields Left
          ((revents idx).hangup && (is_asked p.events && not (is_ready p.events (revents idx)))) _ _
          (bind-Yields _ _ _ _ (h.0.cancels s k)
            (λ t l. dispatch-Yields rest revents (suc idx) t sound h.1 l))
          (bind-Yields _ _ _ _ (service-Yields r (is_ready p.events (revents idx)) s h.0 k) (λ t l.
            bind-Yields _ _ _ _ (dispatch-Yields rest revents (suc idx) t sound h.1 l)
              (λ q m. ok-Yields _ _ ((h.0, m.0), m.1)))))

  -- The rules and the state after a round.
  abbrev pub Kept : Outcome × List (Rule S) × S → Type 0
  Kept r = AllServe r.1 × P r.2

  after_poll-Yields :
      (answer : Polled) (polled : List (Rule S × PollFd)) (s : S)
      → IsSound answer
      → AllServe (rules_of polled)
      → P s
      → Yields Kept (after_poll answer polled s)
  unfolding after_poll
  after_poll-Yields timed_out polled s sound h k = ok-Yields _ _ (h, k)
  after_poll-Yields interrupted polled s sound h k = ok-Yields _ _ (h, k)
  after_poll-Yields unnoticed polled s sound h k =
      bind-Yields _ _ _ _ (dispatch-Yields polled (λ idx. quiet) 0 s (λ i. refl) h k)
        (λ q l. ok-Yields _ _ l)
  after_poll-Yields (answered revents) polled s sound h k =
      bind-Yields _ _ _ _ (dispatch-Yields polled revents 0 s sound h k) (λ q l. ok-Yields _ _ l)

  -- A round of the event loop throws no exception, and keeps what the rules keep. It is for rules
  -- whose functions return and keep `P`, and whose callbacks read or write their descriptor or end
  -- their interest, and for a `poll` that reports no error on a descriptor: then it returns, `P`
  -- holds of the state, and the rules that are left are of the same kind.
  pub wait_next_event-Yields :
      (poll : List PollFd → Polled) (rules : List (Rule S)) (s : S)
      → ((entries : List PollFd) → IsSound (poll entries))
      → AllServe rules
      → P s
      → Yields Kept (wait_next_event poll rules s)
  unfolding wait_next_event
  wait_next_event-Yields poll rules s sound h k =
      bind-Yields _ _ _ _ (set_up-Yields rules s h k) (λ p l.
        if-Yields _ (something_to_poll p.0) _ _
          (after_poll-Yields (poll (entries_of p.0)) p.0 p.1 (sound (entries_of p.0)) l.0 l.1)
          (ok-Yields _ _ l))
