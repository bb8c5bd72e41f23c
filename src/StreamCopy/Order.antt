-- ===== src/StreamCopy/Order.antt =====
-- The order of the bytes in apps/bidirectional_stream_copy.cc.
use sponge_2021fall.Common.{
  ℕ, ◌≡◌, refl, sym, ap, ◌∙◌, arith, Bool, false, ◌&&◌, List, [], ◌∷◌, append-nil, ◌==◌, ok, Yields,
  ok-Yields, bind-Yields, if-Yields, ◌≢◌, add32,
}
use sponge_2021fall.ByteStream.{
  ByteStream, write, peek_output, pop_output, end_input, remaining_capacity, buffer_size, eof,
}
use sponge_2021fall.ByteStream.Fifo.{init-IsValid}
use sponge_2021fall.FileDescriptor.{Descriptor, System}
use sponge_2021fall.FileDescriptor
use sponge_2021fall.ByteStream
use sponge_2021fall.FileDescriptor.Calls.{Behaves}
use sponge_2021fall.EventLoop.{Rule, PollFd, Polled, exit, timeout, success, service_count}
use sponge_2021fall.EventLoop.Service.{Serves, AllServe, IsSound, wait_next_event-Yields}
use sponge_2021fall.StreamCopy.Streams.{fill-Yields, drain-Yields}
use sponge_2021fall.StreamCopy.Carries.{
  Carries, quiet-Carries, Filled-Carries, Drained-Carries, Filled-other, Drained-other,
  ended-Carries,
}
use sponge_2021fall.StreamCopy.{
  Copy, read_input, write_socket, read_socket, write_output, all_rules, loop,
  bidirectional_stream_copy,
}

and_false : (p q : Bool) → p ≡ false → (p && q) ≡ false
and_false p q e = ap (λ t. t && q) e

-- No answer has an error on a descriptor.
abbrev pub AllSound : List (List PollFd → Polled) → Type 0
AllSound [] = Unit {0}
AllSound (poll ∷ polls) = ((entries : List PollFd) → IsSound (poll entries)) × AllSound polls

module _ {W : Type 0} (system : System W) (taken given : ℕ → W → List ℕ)
    (h : Behaves system taken given) (a b c : ℕ) (ab : a ≢ b) (bc : b ≢ c) where
  -- The two streams between the descriptors `a`, `b` and `c`.
  pub record Ordered (s : Copy W) : Type 0 where
    pub input : s.input.fd_num ≡ a
    pub socket : s.socket.fd_num ≡ b
    pub output : s.output.fd_num ≡ c
    pub sent : Carries system taken given h a b s.outbound s.world
    pub received : Carries system taken given h b c s.inbound s.world

  read_input-Serves : Serves Ordered (read_input system)
  unfolding read_input service_count
  read_input-Serves = record {
    runs = λ s k.
        bind-Yields _ _ _ _
          (fill-Yields system taken given h s.input s.outbound s.world k.sent.valid)
          (λ r f. ok-Yields _ _ (
            record {
              input = f.number ∙ k.input;
              socket = k.socket;
              output = k.output;
              sent =
                  Filled-Carries system taken given h a b s.input s.outbound s.world r k.input f
                    k.sent;
              received =
                  Filled-other system taken given h b c s.input s.outbound s.inbound s.world r
                    (ground (arith, k.input, ab)) f k.received;
            },
            and_false _ _ f.counted,
          ));
    cancels = λ s k. ok-Yields Ordered _ (record {
      input = k.input;
      socket = k.socket;
      output = k.output;
      sent = ended-Carries system taken given h a b s.outbound s.world k.sent;
      received = k.received;
    });
  }

  write_socket-Serves : Serves Ordered (write_socket system)
  unfolding write_socket service_count FileDescriptor.shutdown
  write_socket-Serves = record {
    runs = λ s k.
        bind-Yields _ _ _ _
          (drain-Yields system taken given h s.socket s.outbound s.world k.sent.valid)
          (λ r f.
            let sent =
              Drained-Carries system taken given h a b s.socket s.outbound s.world r k.socket f
                k.sent in
            let received =
              Drained-other system taken given h b c s.socket s.outbound s.inbound s.world r
                (ground (arith, k.socket, bc)) f k.received in
            if-Yields _ (eof r.1) _ _
              (bind-Yields _ _ _ _
                (bind-Yields _
                  (λ (q : Descriptor × W).
                    (q.0.fd_num ≡ b)
                    × (q.0.write_count ≡ add32 r.0.write_count 1)
                    × ((j : ℕ) → taken j q.1 ≡ taken j r.2)
                    × ((j : ℕ) → given j q.1 ≡ given j r.2))
                  _ _ (h.shuts r.0.fd_num FileDescriptor.shut_wr r.2)
                  (λ v q. ok-Yields _ _ (f.number ∙ k.socket, refl, q.0, q.1)))
                (λ q m. ok-Yields _ _ (
                  record {
                    input = k.input;
                    socket = m.0;
                    output = k.output;
                    sent = quiet-Carries system taken given h a b r.1 r.2 q.1 (m.2 a) (m.3 b) sent;
                    received =
                        quiet-Carries system taken given h b c s.inbound r.2 q.1 (m.2 b) (m.3 c)
                          received;
                  },
                  (let count : (s.socket.write_count == q.0.write_count) ≡ false =
                        ground (arith, f.counted, m.1) in
                      and_false _ _ count),
                )))
              (ok-Yields _ _ (
                record {
                  input = k.input;
                  socket = f.number ∙ k.socket;
                  output = k.output;
                  sent = sent;
                  received = received;
                },
                (let count : (s.socket.write_count == r.0.write_count) ≡ false =
                      ground (arith, f.counted) in
                    and_false _ _ count),
              )));
    cancels = λ s k. ok-Yields Ordered _ (record {
      input = k.input;
      socket = k.socket;
      output = k.output;
      sent = ended-Carries system taken given h a b s.outbound s.world k.sent;
      received = k.received;
    });
  }

  read_socket-Serves : Serves Ordered (read_socket system)
  unfolding read_socket service_count
  read_socket-Serves = record {
    runs = λ s k.
        bind-Yields _ _ _ _
          (fill-Yields system taken given h s.socket s.inbound s.world k.received.valid)
          (λ r f. ok-Yields _ _ (
            record {
              input = k.input;
              socket = f.number ∙ k.socket;
              output = k.output;
              sent =
                  Filled-other system taken given h a b s.socket s.inbound s.outbound s.world r
                    (ground (arith, k.socket, ab)) f k.sent;
              received =
                  Filled-Carries system taken given h b c s.socket s.inbound s.world r k.socket f
                    k.received;
            },
            and_false _ _ f.counted,
          ));
    cancels = λ s k. ok-Yields Ordered _ (record {
      input = k.input;
      socket = k.socket;
      output = k.output;
      sent = k.sent;
      received = ended-Carries system taken given h b c s.inbound s.world k.received;
    });
  }

  write_output-Serves : Serves Ordered (write_output system)
  unfolding write_output service_count FileDescriptor.close
  write_output-Serves = record {
    runs = λ s k.
        bind-Yields _ _ _ _
          (drain-Yields system taken given h s.output s.inbound s.world k.received.valid)
          (λ r f.
            let sent =
              Drained-other system taken given h a b s.output s.inbound s.outbound s.world r
                (ground (arith, k.output, bc)) f k.sent in
            let received =
              Drained-Carries system taken given h b c s.output s.inbound s.world r k.output f
                k.received in
            if-Yields _ (eof r.1) _ _
              (bind-Yields _ _ _ _
                (bind-Yields _
                  (λ (q : Descriptor × W).
                    (q.0.fd_num ≡ c)
                    × (q.0.write_count ≡ r.0.write_count)
                    × ((j : ℕ) → taken j q.1 ≡ taken j r.2)
                    × ((j : ℕ) → given j q.1 ≡ given j r.2))
                  _ _ (h.closes r.0.fd_num r.2)
                  (λ v q. ok-Yields _ _ (f.number ∙ k.output, refl, q.0, q.1)))
                (λ q m. ok-Yields _ _ (
                  record {
                    input = k.input;
                    socket = k.socket;
                    output = m.0;
                    sent =
                        quiet-Carries system taken given h a b s.outbound r.2 q.1 (m.2 a) (m.3 b)
                          sent;
                    received =
                        quiet-Carries system taken given h b c r.1 r.2 q.1 (m.2 b) (m.3 c) received;
                  },
                  (let count : (s.output.write_count == q.0.write_count) ≡ false =
                        ground (arith, f.counted, m.1) in
                      and_false _ _ count),
                )))
              (ok-Yields _ _ (
                record {
                  input = k.input;
                  socket = k.socket;
                  output = f.number ∙ k.output;
                  sent = sent;
                  received = received;
                },
                (let count : (s.output.write_count == r.0.write_count) ≡ false =
                      ground (arith, f.counted) in
                    and_false _ _ count),
              )));
    cancels = λ s k. ok-Yields Ordered _ (record {
      input = k.input;
      socket = k.socket;
      output = k.output;
      sent = k.sent;
      received = ended-Carries system taken given h b c s.inbound s.world k.received;
    });
  }

  loop-Yields :
      (polls : List (List PollFd → Polled)) (rules : List (Rule (Copy W))) (s : Copy W)
      → AllSound polls
      → AllServe Ordered rules
      → Ordered s
      → Yields Ordered (loop system polls rules s)
  unfolding loop
  loop-Yields [] rules s sound serve k = ok-Yields _ s k
  loop-Yields (poll ∷ polls) rules s sound serve k =
      bind-Yields _ _ _ _ (wait_next_event-Yields Ordered poll rules s sound.0 serve k) (λ r m.
        elim r.0
          as (λ o. Yields Ordered (elim o [
            | exit ↦ ok r.2
            | timeout ↦ loop system polls r.1 r.2
            | success ↦ loop system polls r.1 r.2
          ])) [
            | exit ↦ ok-Yields _ _ m.1
            | timeout ↦ loop-Yields polls r.1 r.2 sound.1 m.0 m.1
            | success ↦ loop-Yields polls r.1 r.2 sound.1 m.0 m.1
          ])

  -- The bytes keep their order, in both directions. The socket is another descriptor than the input
  -- and the output, what has been read from one before is what has been written to the next, the
  -- system calls behave, and `poll` answers anything but an error on a descriptor. Then the copying
  -- loop throws no exception, and after any number of rounds what has been read from the input is
  -- what has been written to the socket and then what the outbound stream holds, and what has been
  -- read from the socket is what has been written to the output and then what the inbound stream
  -- holds.
  pub bidirectional_stream_copy-Ordered :
      (input output socket : Descriptor) (polls : List (List PollFd → Polled)) (w : W)
      → input.fd_num ≡ a
      → socket.fd_num ≡ b
      → output.fd_num ≡ c
      → AllSound polls
      → taken a w ≡ given b w
      → taken b w ≡ given c w
      → Yields Ordered (bidirectional_stream_copy system input output socket polls w)
  unfolding bidirectional_stream_copy ByteStream.init
  bidirectional_stream_copy-Ordered input output socket polls w e f g sound sent received =
      loop-Yields polls (all_rules system) _ sound
        (read_input-Serves, (write_socket-Serves, (read_socket-Serves, (write_output-Serves, tt))))
        (record {
          input = e;
          socket = f;
          output = g;
          sent = record {
            valid = init-IsValid 1048576 (omega arith);
            in_order = sent ∙ sym (append-nil (given b w));
          };
          received = record {
            valid = init-IsValid 1048576 (omega arith);
            in_order = received ∙ sym (append-nil (given c w));
          };
        })
