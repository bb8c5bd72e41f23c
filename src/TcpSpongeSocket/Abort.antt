-- ===== src/TcpSpongeSocket/Abort.antt =====
-- The end of the thread in libsponge/tcp_helpers/tcp_sponge_socket.cc, when the owner is destroyed.
use sponge_2021fall.Common.{
  ℕ, ◌≡◌, refl, ◌∙◌, Bool, true, false, ◌||◌, none, some, List, [], ◌∷◌, Yields, ok-Yields,
  bind-Yields, if-Yields, then-Yields, map-Yields,
}
use sponge_2021fall.FileDescriptor.{System, Descriptor, shut_rdwr}
use sponge_2021fall.FileDescriptor
use sponge_2021fall.EventLoop.{
  Rule, PollFd, Polled, Outcome, timeout, timed_out, set_up, is_over, something_to_poll, rules_of,
  entries_of, after_poll, wait_next_event, add_rule,
}
use sponge_2021fall.Tcp.Segment.{TcpSegment}
use sponge_2021fall.Tcp.Connection.{TcpConnection}
use sponge_2021fall.TcpSpongeSocket.Base.{Driver, Thread, Socket}
use sponge_2021fall.TcpSpongeSocket.Rules.{
  with_rules, read_segment, read_owner, write_owner, write_segments, finish_outbound,
}
use sponge_2021fall.TcpSpongeSocket.Life.{
  Round, Ending, broken, condition_false, running, is_exit, tcp_loop, tcp_main, finish_main,
  close_main,
}

-- The cancel functions of the rules keep `P`.
abbrev AllCancel : {S : Type 0} → (S → Type 0) → List (Rule S) → Type 0
AllCancel P [] = Unit {0}
AllCancel {S} P (r ∷ rules) = ((s : S) → P s → Yields P (r.cancel s)) × AllCancel P rules

or_true : (b : Bool) → (b || true) ≡ true
or_true true = refl
or_true false = refl

module _ {S : Type 0} (P : S → Type 0) where
  set_up-cancels :
      (rules : List (Rule S)) (s : S)
      → AllCancel P rules
      → P s
      → Yields (λ (p : List (Rule S × PollFd) × S). P p.1) (set_up rules s)
  unfolding set_up
  set_up-cancels [] s h k = ok-Yields _ _ k
  set_up-cancels (r ∷ rules) s h k =
      if-Yields _ (is_over r s) _ _
        (bind-Yields _ _ _ _ (h.0 s k) (λ t l. set_up-cancels rules t h.1 l))
        (bind-Yields _ _ _ _ (set_up-cancels rules s h.1 k) (λ p l. ok-Yields _ _ l))

  -- A round in which no descriptor is ready.
  idle_round :
      (poll : List PollFd → Polled) (rules : List (Rule S)) (s : S)
      → ((entries : List PollFd) → poll entries ≡ timed_out)
      → AllCancel P rules
      → P s
      → Yields (λ (r : Outcome × List (Rule S) × S). P r.2) (wait_next_event poll rules s)
  unfolding wait_next_event after_poll
  idle_round poll rules s still h k = bind-Yields _ _ _ _ (set_up-cancels rules s h k) (λ p l.
      if-Yields _ (something_to_poll p.0) _ _
        (rw (still (entries_of p.0))
          (ok-Yields (λ (r : Outcome × List (Rule S) × S). P r.2) (timeout, rules_of p.0, p.1) l))
        (ok-Yields _ _ l))

module _ {A W : Type 0} (driver : Driver A W) (system : System W) (sent : W → List TcpSegment) where
  -- The adapter has been given no more than `segs`.
  abbrev Has : List TcpSegment → Thread A W → Type 0
  Has segs s = sent s.ends.world ≡ segs

  with_rules-cancel : (segs : List TcpSegment) → AllCancel (Has segs) (with_rules driver system [])
  unfolding with_rules add_rule read_segment read_owner write_owner write_segments finish_outbound
  with_rules-cancel segs = (
    (λ s k. ok-Yields _ _ k),
    ((λ s k. ok-Yields _ _ k), ((λ s k. ok-Yields _ _ k), ((λ s k. ok-Yields _ _ k), tt))),
  )

  close_main-Yields :
      (r : Ending × List (Rule (Thread A W)) × Thread A W)
      → ((fd how : ℕ) (w : W) → Yields (λ v. sent v ≡ sent w) (system.shutdown fd how w))
      → Yields
          (λ (t : Ending × Socket A W).
            (t.1.tcp ≡ none) × (sent t.1.ends.world ≡ sent r.2.ends.world))
          (close_main driver system r)
  unfolding close_main FileDescriptor.shutdown
  close_main-Yields r shuts =
      bind-Yields _ _ _ _
        (bind-Yields _ (λ (q : Descriptor × W). sent q.1 ≡ sent r.2.ends.world) _ _
          (shuts r.2.ends.owner.fd_num shut_rdwr r.2.ends.world) (λ v e. ok-Yields _ _ e))
        (λ q e. ok-Yields _ _ (refl, e))

  -- A loop that has ended by `break`.
  ended :
      (r : Ending × List (Rule (Thread A W)) × Thread A W) (segs : List TcpSegment)
      → r.0 ≡ broken
      → sent r.2.ends.world ≡ segs
      → ((fd how : ℕ) (w : W) → Yields (λ v. sent v ≡ sent w) (system.shutdown fd how w))
      → Yields
          (λ (t : Ending × Socket A W). (t.1.tcp ≡ none) × (sent t.1.ends.world ≡ segs))
          (finish_main driver system r)
  unfolding finish_main
  ended (broken, rules, s) segs e k shuts =
      map-Yields _ _ _ (close_main-Yields (broken, rules, s) shuts) (λ t m. (m.0, m.1 ∙ k))
  ended (condition_false, rules, s) segs e k shuts = cc
  ended (running, rules, s) segs e k shuts = cc

  -- The thread sends no reset when its owner is destroyed. Where its loop has the four rules and the
  -- shutdown of the socket returns, it ends without an exception in a round in which `_abort` is
  -- set and no descriptor is ready: its connection, active or not, is gone, and the adapter has
  -- been given no segment more.
  pub tcp_main_abort :
      (s : Socket A W) (tcp : TcpConnection) (round : Round) (rounds : List Round) (start : ℕ)
      → s.tcp ≡ some tcp
      → s.eventloop ≡ with_rules driver system []
      → round.aborted ≡ true
      → ((entries : List PollFd) → round.poll entries ≡ timed_out)
      → ((fd how : ℕ) (w : W) → Yields (λ v. sent v ≡ sent w) (system.shutdown fd how w))
      → Yields
          (λ (t : Ending × Socket A W).
            (t.1.tcp ≡ none) × (sent t.1.ends.world ≡ sent s.ends.world))
          (tcp_main driver system start (round ∷ rounds) s)
  unfolding tcp_main tcp_loop
  tcp_main_abort s tcp round rounds start e f aborted still shuts =
      rw (e, f, aborted)
        (bind-Yields
          (λ (r : Ending × List (Rule (Thread A W)) × Thread A W).
            (r.0 ≡ broken) × (sent r.2.ends.world ≡ sent s.ends.world))
          _ _ _
          (bind-Yields _ _ _ _
            (idle_round (Has (sent s.ends.world)) round.poll (with_rules driver system [])
              (record { tcp = tcp; ends = s.ends }) still (with_rules-cancel (sent s.ends.world))
              refl)
            (λ r k.
              then-Yields _ (is_exit r.0 || true) _ _ (or_true (is_exit r.0))
                (ok-Yields _ _ (refl, k))))
          (λ r k. ended r (sent s.ends.world) k.0 k.1 shuts))
