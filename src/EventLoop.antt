-- ===== src/EventLoop.antt =====
-- libsponge/util/eventloop.hh and .cc. A rule's functions act on the state `S` that they share, in
-- which its descriptor is found. `poll` is the system's: it is given what to poll and answers with a
-- timeout, an error, or the events of each entry, by its index.
pub mod Service
mod Examples
use sponge_2021fall.Common.{
  ℕ, zero, suc, Bool, true, false, not, ◌&&◌, ◌||◌, Option, none, some, List, [], ◌∷◌, ◌++◌, ◌==◌,
  if◌then◌else◌, Result, ok, throw, runtime_error, ◌>>=◌,
}
use sponge_2021fall.FileDescriptor.{Descriptor}

pub data Direction : Type 0 where
  reading writing : Direction

pub record Rule (S : Type 0) : Type 0 where
  pub fd : S → Descriptor
  pub direction : Direction
  pub callback : S → Result S
  pub interest : S → Bool
  pub cancel : S → Result S

-- An entry that is polled: for a direction, or a placeholder.
pub record PollFd : Type 0 where
  pub fd_num : ℕ
  pub events : Option Direction

-- The `revents` of an entry: POLLERR or POLLNVAL, POLLHUP, POLLIN and POLLOUT.
pub record Revents : Type 0 where
  pub failed : Bool
  pub hangup : Bool
  pub readable : Bool
  pub writable : Bool

pub data Polled : Type 0 where
  timed_out interrupted : Polled
  -- Another error is caught and nothing is done about it: the events stay as they are, without any.
  unnoticed : Polled
  answered : (ℕ → Revents) → Polled

-- `EventLoop::Result`
pub data Outcome : Type 0 where
  success timeout exit : Outcome

-- `revents & events`
pub is_ready : Option Direction → Revents → Bool
is_ready none r = false
is_ready (some reading) r = r.readable
is_ready (some writing) r = r.writable

-- Whether an entry is no placeholder.
pub is_asked : Option Direction → Bool
is_asked none = false
is_asked (some d) = true

-- No events.
abbrev pub quiet : Revents
quiet = record { failed = false; hangup = false; readable = false; writable = false }

module _ {S : Type 0} where
  -- `EventLoop::add_rule`
  unfoldable pub add_rule : List (Rule S) → Rule S → List (Rule S)
  add_rule rules r = rules ++ r ∷ []

  unfoldable pub service_count : Rule S → S → ℕ
  service_count r s = elim r.direction [
    | reading ↦ (r.fd s).read_count
    | writing ↦ (r.fd s).write_count
  ]

  -- A rule that is cancelled before polling.
  unfoldable pub is_over : Rule S → S → Bool
  is_over r s = elim r.direction [
    | reading ↦ (r.fd s).eof || (r.fd s).closed
    | writing ↦ (r.fd s).closed
  ]

  -- The entry of a rule.
  unfoldable pub entry : Rule S → S → PollFd
  entry r s = record {
    fd_num = (r.fd s).fd_num;
    events = if r.interest s then some r.direction else none;
  }

  -- The loop that sets up the entries, with the rules that are left.
  unfoldable pub set_up : List (Rule S) → S → Result (List (Rule S × PollFd) × S)
  set_up [] s = ok ([], s)
  set_up (r ∷ rules) s =
      if is_over r s
      then (r.cancel s >>= λ t. set_up rules t)
      else (set_up rules s >>= λ (p : List (Rule S × PollFd) × S). ok ((r, entry r s) ∷ p.0, p.1))

  unfoldable pub something_to_poll : List (Rule S × PollFd) → Bool
  something_to_poll [] = false
  something_to_poll ((r, p) ∷ rest) = is_asked p.events || something_to_poll rest

  abbrev pub rules_of : List (Rule S × PollFd) → List (Rule S)
  rules_of [] = []
  rules_of ((r, p) ∷ rest) = r ∷ rules_of rest

  abbrev pub entries_of : List (Rule S × PollFd) → List PollFd
  entries_of [] = []
  entries_of ((r, p) ∷ rest) = p ∷ entries_of rest

  -- The callback of a rule that is ready, and the test for a busy wait.
  unfoldable pub service : Rule S → Bool → S → Result S
  service r ready s =
      if ready
      then (r.callback s >>= λ t.
          if service_count r s == service_count r t && r.interest t
          then throw runtime_error
          else ok t)
      else ok s

  -- The loop over the answer of `poll`, with the rules that are left.
  unfoldable pub dispatch :
      List (Rule S × PollFd) → (ℕ → Revents) → ℕ → S → Result (List (Rule S) × S)
  dispatch [] revents idx s = ok ([], s)
  dispatch ((r, p) ∷ rest) revents idx s =
      let ready = is_ready p.events (revents idx) in
      if (revents idx).failed
      then throw runtime_error
      else if (revents idx).hangup && (is_asked p.events && not ready)
      then (r.cancel s >>= λ t. dispatch rest revents (suc idx) t)
      else (service r ready s >>= λ t.
          dispatch rest revents (suc idx) t >>= λ (q : List (Rule S) × S). ok (r ∷ q.0, q.1))

  -- What follows the call of `poll`.
  unfoldable pub after_poll :
      Polled → List (Rule S × PollFd) → S → Result (Outcome × List (Rule S) × S)
  after_poll timed_out polled s = ok (timeout, rules_of polled, s)
  after_poll interrupted polled s = ok (exit, rules_of polled, s)
  after_poll unnoticed polled s =
      dispatch polled (λ idx. quiet) 0 s >>= λ (q : List (Rule S) × S). ok (success, q.0, q.1)
  after_poll (answered revents) polled s =
      dispatch polled revents 0 s >>= λ (q : List (Rule S) × S). ok (success, q.0, q.1)

  -- `EventLoop::wait_next_event`
  unfoldable pub wait_next_event :
      (List PollFd → Polled) → List (Rule S) → S → Result (Outcome × List (Rule S) × S)
  wait_next_event poll rules s = set_up rules s >>= λ (p : List (Rule S × PollFd) × S).
      if something_to_poll p.0
      then after_poll (poll (entries_of p.0)) p.0 p.1
      else ok (exit, rules_of p.0, p.1)
