-- ===== src/TcpSpongeSocket/Life.antt =====
-- The loop and the calls of libsponge/tcp_helpers/tcp_sponge_socket.cc. Each round of the loop is
-- given what `poll` answers, whether the owner has set `_abort`, and the time.
use sponge_2021fall.Common.{
  ℕ, Bool, true, false, not, ◌||◌, Option, none, some, List, [], ◌∷◌, if◌then◌else◌, sub64, Result,
  ok, throw, runtime_error, ◌>>=◌,
}
use sponge_2021fall.FileDescriptor.{Descriptor, System, shut_wr, shut_rdwr}
use sponge_2021fall.FileDescriptor
use sponge_2021fall.EventLoop.{
  Rule, PollFd, Polled, Outcome, exit, success, timeout, wait_next_event,
}
use sponge_2021fall.Seqno.{WrappingInt32}
use sponge_2021fall.Tcp.Config.{TcpConfig}
use sponge_2021fall.Tcp.State.{of_state, State}
use sponge_2021fall.Tcp.State.{equals as same_state}
use sponge_2021fall.Tcp.Connection.{
  TcpConnection, active, state, segment_received, remaining_outbound_capacity, write, tick,
  end_input_stream,
}
use sponge_2021fall.Tcp.Connection
use sponge_2021fall.Adapter.Base.{AdapterConfig}
use sponge_2021fall.TcpSpongeSocket.Base.{Driver, Thread, Socket}
use sponge_2021fall.TcpSpongeSocket.Rules.{with_rules}

-- What a round of the loop meets.
pub record Round : Type 0 where
  pub poll : List PollFd → Polled
  pub aborted : Bool
  pub now : ℕ

-- The loop ends as its condition fails or by `break`, or is still running.
pub data Ending : Type 0 where
  condition_false broken running : Ending

abbrev pub is_exit : Outcome → Bool
is_exit exit = true
is_exit success = false
is_exit timeout = false

module _ {A W : Type 0} (driver : Driver A W) (system : System W) where
  -- The clocks, after an event; with the new `base_time`.
  unfoldable pub tick_both : ℕ → ℕ → Thread A W → Result (ℕ × Thread A W)
  tick_both next_time base_time s =
      if active s.tcp
      then (driver.tick s.ends.datagram_adapter (sub64 next_time base_time) s.ends.world
          >>= λ (r : A × W). ok (
            next_time,
            record {
              tcp = tick s.tcp (sub64 next_time base_time);
              ends = record (s.ends) { datagram_adapter = r.0; world = r.1 };
            },
          ))
      else ok (base_time, s)

  -- `_tcp_loop`
  unfoldable pub tcp_loop :
      (TcpConnection → Bool)
      → List Round
      → ℕ
      → List (Rule (Thread A W))
      → Thread A W
      → Result (Ending × List (Rule (Thread A W)) × Thread A W)
  tcp_loop condition [] base_time rules s = ok (running, rules, s)
  tcp_loop condition (round ∷ rounds) base_time rules s =
      if condition s.tcp
      then (wait_next_event round.poll rules s
          >>= λ (r : Outcome × List (Rule (Thread A W)) × Thread A W).
              if is_exit r.0 || round.aborted
              then ok (broken, r.1, r.2)
              else (tick_both round.now base_time r.2 >>= λ (t : ℕ × Thread A W).
                  tcp_loop condition rounds t.0 r.1 t.1))
      else ok (condition_false, rules, s)

  -- After the loop of `connect` or `listen_and_accept`.
  abbrev pub joined : Ending × List (Rule (Thread A W)) × Thread A W → Ending × Socket A W
  joined r = (r.0, record { tcp = some r.2.tcp; eventloop = r.1; ends = r.2.ends })

  abbrev pub is_set : Option TcpConnection → Bool
  is_set none = false
  is_set (some _) = true

  -- `connect`, up to the start of the thread. `isn` is what the connection draws, and `start` the
  -- time at which the loop begins.
  unfoldable pub connect :
      TcpConfig
      → AdapterConfig
      → WrappingInt32
      → ℕ
      → List Round
      → Socket A W
      → Result (Ending × Socket A W)
  connect c_tcp c_ad isn start rounds s =
      if is_set s.tcp
      then throw runtime_error
      else (let tcp = Connection.connect (Connection.init c_tcp isn) in
          if not (same_state (state tcp) (of_state State.syn_sent))
          then throw runtime_error
          else (tcp_loop (λ c. same_state (state c) (of_state State.syn_sent)) rounds start
                (with_rules driver system s.eventloop)
                (record {
                  tcp = tcp;
                  ends = record (s.ends) {
                    datagram_adapter = driver.set_config s.ends.datagram_adapter c_ad;
                  };
                })
              >>= λ (r : Ending × List (Rule (Thread A W)) × Thread A W). ok (joined r)))

  -- The condition of the loop of `listen_and_accept`.
  unfoldable pub is_opening : TcpConnection → Bool
  is_opening c =
      same_state (state c) (of_state State.listen)
      || (same_state (state c) (of_state State.syn_rcvd)
          || same_state (state c) (of_state State.syn_sent))

  -- `listen_and_accept`, up to the start of the thread.
  unfoldable pub listen_and_accept :
      TcpConfig
      → AdapterConfig
      → WrappingInt32
      → ℕ
      → List Round
      → Socket A W
      → Result (Ending × Socket A W)
  listen_and_accept c_tcp c_ad isn start rounds s =
      if is_set s.tcp
      then throw runtime_error
      else (tcp_loop is_opening rounds start (with_rules driver system s.eventloop) (record {
        tcp = Connection.init c_tcp isn;
        ends = record (s.ends) {
          datagram_adapter =
              driver.set_listening (driver.set_config s.ends.datagram_adapter c_ad) true;
        };
      })
          >>= λ (r : Ending × List (Rule (Thread A W)) × Thread A W). ok (joined r))

  -- What follows the loop of `_tcp_main`: the owner's end is shut down, and the connection is
  -- destroyed. What its destructor queues is destroyed with it.
  unfoldable pub close_main :
      Ending × List (Rule (Thread A W)) × Thread A W → Result (Ending × Socket A W)
  close_main r =
      FileDescriptor.shutdown system r.2.ends.owner shut_rdwr r.2.ends.world
      >>= λ (q : Descriptor × W). ok (
        r.0,
        record {
          tcp = none;
          eventloop = r.1;
          ends = record (r.2.ends) { owner = q.0; world = q.1 };
        },
      )

  unfoldable pub finish_main :
      Ending × List (Rule (Thread A W)) × Thread A W → Result (Ending × Socket A W)
  finish_main r = elim r.0 [
    | running ↦ ok (joined r)
    | condition_false ↦ close_main r
    | broken ↦ close_main r
  ]

  -- `_tcp_main`, the thread.
  unfoldable pub tcp_main : ℕ → List Round → Socket A W → Result (Ending × Socket A W)
  tcp_main start rounds s = elim s.tcp [
    | none ↦ throw runtime_error
    | some tcp ↦
        tcp_loop (λ c. true) rounds start s.eventloop (record { tcp = tcp; ends = s.ends })
        >>= finish_main
  ]
