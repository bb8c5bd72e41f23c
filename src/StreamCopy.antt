-- ===== src/StreamCopy.antt =====
-- apps/bidirectional_stream_copy.cc: standard input to a socket, and the socket to standard output.
pub mod Streams
pub mod Carries
pub mod Order
mod Examples
use sponge_2021fall.Common.{
  ℕ, min, Bool, true, false, not, ◌&&◌, ◌||◌, List, [], ◌∷◌, ltb, ◌==◌, if◌then◌else◌, Result, ok,
  ◌>>=◌,
}
use sponge_2021fall.ByteStream.{
  ByteStream, write, peek_output, pop_output, end_input, eof, buffer_empty, buffer_size,
  remaining_capacity,
}
use sponge_2021fall.ByteStream
use sponge_2021fall.FileDescriptor.{Descriptor, System}
use sponge_2021fall.FileDescriptor
use sponge_2021fall.EventLoop.{
  Rule, PollFd, Polled, Outcome, exit, success, timeout, reading, writing, wait_next_event,
}

abbrev pub max_copy_length : ℕ
max_copy_length = 65536

-- The variables that the rules share, and the system.
pub record Copy (W : Type 0) : Type 0 where
  pub input : Descriptor
  pub output : Descriptor
  pub socket : Descriptor
  pub outbound : ByteStream
  pub inbound : ByteStream
  pub outbound_shutdown : Bool
  pub inbound_shutdown : Bool
  pub world : W

module _ {W : Type 0} (system : System W) where
  -- What the callbacks of the rules 1 and 3 do: a stream is filled from a descriptor.
  unfoldable pub fill : Descriptor → ByteStream → W → Result (Descriptor × ByteStream × W)
  fill d stream w =
      FileDescriptor.read system d (remaining_capacity stream) w
      >>= λ (r : List ℕ × Descriptor × W).
          (let stream' = (write stream r.0).1 in
            ok (r.1, if r.1.eof then end_input stream' else stream', r.2))

  -- What those of the rules 2 and 4 do first: a stream is written to a descriptor.
  unfoldable pub drain : Descriptor → ByteStream → W → Result (Descriptor × ByteStream × W)
  drain d stream w =
      FileDescriptor.write system d (peek_output stream (min max_copy_length (buffer_size stream)))
        false w
      >>= λ (r : ℕ × Descriptor × W). ok (r.1, pop_output stream r.0, r.2)

  -- Whether a stream is to be written, or its end to be passed on.
  unfoldable pub wants_drain : ByteStream → Bool → Bool
  wants_drain stream shut = not (buffer_empty stream) || (eof stream && not shut)

  unfoldable pub read_input : Rule (Copy W)
  read_input = record {
    fd = λ s. s.input;
    direction = reading;
    callback = λ s. fill s.input s.outbound s.world >>= λ (r : Descriptor × ByteStream × W).
        ok (record s { input = r.0; outbound = r.1; world = r.2 });
    interest =
        λ s. not s.outbound.error && (ltb 0 (remaining_capacity s.outbound) && not s.inbound.error);
    cancel = λ s. ok (record s { outbound = end_input s.outbound });
  }

  unfoldable pub write_socket : Rule (Copy W)
  write_socket = record {
    fd = λ s. s.socket;
    direction = writing;
    callback = λ s. drain s.socket s.outbound s.world >>= λ (r : Descriptor × ByteStream × W).
        if eof r.1
        then (FileDescriptor.shutdown system r.0 FileDescriptor.shut_wr r.2
            >>= λ (q : Descriptor × W).
                ok (record s {
                  socket = q.0;
                  outbound = r.1;
                  outbound_shutdown = true;
                  world = q.1;
                }))
        else ok (record s { socket = r.0; outbound = r.1; world = r.2 });
    interest = λ s. wants_drain s.outbound s.outbound_shutdown;
    cancel = λ s. ok (record s { outbound = end_input s.outbound });
  }

  unfoldable pub read_socket : Rule (Copy W)
  read_socket = record {
    fd = λ s. s.socket;
    direction = reading;
    callback = λ s. fill s.socket s.inbound s.world >>= λ (r : Descriptor × ByteStream × W).
        ok (record s { socket = r.0; inbound = r.1; world = r.2 });
    interest =
        λ s. not s.inbound.error && (ltb 0 (remaining_capacity s.inbound) && not s.outbound.error);
    cancel = λ s. ok (record s { inbound = end_input s.inbound });
  }

  unfoldable pub write_output : Rule (Copy W)
  write_output = record {
    fd = λ s. s.output;
    direction = writing;
    callback = λ s. drain s.output s.inbound s.world >>= λ (r : Descriptor × ByteStream × W).
        if eof r.1
        then (FileDescriptor.close system r.0 r.2 >>= λ (q : Descriptor × W).
            ok (record s { output = q.0; inbound = r.1; inbound_shutdown = true; world = q.1 }))
        else ok (record s { output = r.0; inbound = r.1; world = r.2 });
    interest = λ s. wants_drain s.inbound s.inbound_shutdown;
    cancel = λ s. ok (record s { inbound = end_input s.inbound });
  }

  abbrev pub all_rules : List (Rule (Copy W))
  all_rules = read_input ∷ write_socket ∷ read_socket ∷ write_output ∷ []

  -- The loop until completion, for the answers of `poll` to come.
  unfoldable pub loop :
      List (List PollFd → Polled) → List (Rule (Copy W)) → Copy W → Result (Copy W)
  loop [] rules s = ok s
  loop (poll ∷ polls) rules s =
      wait_next_event poll rules s >>= λ (r : Outcome × List (Rule (Copy W)) × Copy W). elim r.0 [
        | exit ↦ ok r.2
        | timeout ↦ loop polls r.1 r.2
        | success ↦ loop polls r.1 r.2
      ]

  -- `bidirectional_stream_copy`
  unfoldable pub bidirectional_stream_copy :
      Descriptor → Descriptor → Descriptor → List (List PollFd → Polled) → W → Result (Copy W)
  bidirectional_stream_copy input output socket polls w = loop polls all_rules (record {
    input = input;
    output = output;
    socket = socket;
    outbound = ByteStream.init 1048576;
    inbound = ByteStream.init 1048576;
    outbound_shutdown = false;
    inbound_shutdown = false;
    world = w;
  })
