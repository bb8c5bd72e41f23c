-- ===== src/TcpSpongeSocket/Rules.antt =====
-- The rules of `_initialize_TCP` in libsponge/tcp_helpers/tcp_sponge_socket.cc. Messages on stderr
-- are left out.
use sponge_2021fall.Common.{
  ℕ, min, Bool, true, false, not, ◌&&◌, ◌||◌, Option, none, some, List, [], ◌∷◌, length, ltb, ◌==◌,
  if◌then◌else◌, Result, ok, throw, runtime_error, ◌>>=◌,
}
use sponge_2021fall.ByteStream.{ByteStream, peek_output, pop_output, eof, buffer_empty, buffer_size}
use sponge_2021fall.FileDescriptor.{Descriptor, System, shut_wr, shut_rdwr}
use sponge_2021fall.FileDescriptor
use sponge_2021fall.EventLoop.{Rule, reading, writing, add_rule}
use sponge_2021fall.Tcp.Segment.{TcpSegment}
use sponge_2021fall.Tcp.Receiver.{stream_out}
use sponge_2021fall.Tcp.Connection.{
  TcpConnection, active, segment_received, remaining_outbound_capacity, write, end_input_stream,
}
use sponge_2021fall.TcpSpongeSocket.Base.{Driver, Thread, with_inbound}

-- `inbound.eof() or inbound.error()`
abbrev pub is_over_inbound : ByteStream → Bool
is_over_inbound inbound = eof inbound || inbound.error

abbrev pub has_segments : List TcpSegment → Bool
has_segments [] = false
has_segments (_ ∷ _) = true

unfoldable pub deliver : TcpConnection → Option TcpSegment → Result TcpConnection
deliver tcp none = ok tcp
deliver tcp (some seg) = segment_received tcp seg

module _ {A W : Type 0} (driver : Driver A W) (system : System W) where
  -- The test that ends the callback of rule 1.
  unfoldable pub note_acked : Thread A W → Thread A W
  note_acked s =
      if s.ends.thread_data.eof && (s.tcp.sender.bytes_in_flight == 0 && not s.ends.fully_acked)
      then record s { ends = record (s.ends) { fully_acked = true } }
      else s

  -- Rule 1: from the adapter into the connection.
  unfoldable pub read_segment : Rule (Thread A W)
  read_segment = record {
    fd = λ s. driver.fd s.ends.datagram_adapter;
    direction = reading;
    callback = λ s.
        driver.read s.ends.datagram_adapter s.ends.world >>= λ (r : Option TcpSegment × A × W).
        deliver s.tcp r.0 >>= λ (c : TcpConnection). ok (
          note_acked
            (record { tcp = c; ends = record (s.ends) { datagram_adapter = r.1; world = r.2 } }));
    interest = λ s. active s.tcp;
    cancel = λ s. ok s;
  }

  -- The end of the outbound stream.
  unfoldable pub finish_outbound : Thread A W → Thread A W
  finish_outbound s = record {
    tcp = end_input_stream s.tcp;
    ends = record (s.ends) { outbound_shutdown = true };
  }

  -- Rule 2: from the owner into the connection.
  unfoldable pub read_owner : Rule (Thread A W)
  read_owner = record {
    fd = λ s. s.ends.thread_data;
    direction = reading;
    callback = λ s.
        FileDescriptor.read system s.ends.thread_data (remaining_outbound_capacity s.tcp)
          s.ends.world
        >>= λ (r : List ℕ × Descriptor × W).
            if not ((write s.tcp r.0).0 == length r.0)
            then throw runtime_error
            else (let t : Thread A W = record {
              tcp = (write s.tcp r.0).1;
              ends = record (s.ends) { thread_data = r.1; world = r.2 };
            } in
                ok (if r.1.eof then finish_outbound t else t));
    interest = λ s.
        active s.tcp && (not s.ends.outbound_shutdown && ltb 0 (remaining_outbound_capacity s.tcp));
    cancel = λ s. ok (finish_outbound s);
  }

  -- Rule 3: from the connection to the owner.
  unfoldable pub write_owner : Rule (Thread A W)
  write_owner = record {
    fd = λ s. s.ends.thread_data;
    direction = writing;
    callback = λ s.
        (let inbound = stream_out s.tcp.receiver in
          FileDescriptor.write system s.ends.thread_data
            (peek_output inbound (min 65536 (buffer_size inbound))) false s.ends.world
          >>= λ (r : ℕ × Descriptor × W).
              (let inbound' = pop_output inbound r.0 in
                if is_over_inbound inbound'
                then (FileDescriptor.shutdown system r.1 shut_wr r.2 >>= λ (q : Descriptor × W).
                    ok (record {
                      tcp = with_inbound s.tcp inbound';
                      ends = record (s.ends) {
                        thread_data = q.0;
                        inbound_shutdown = true;
                        world = q.1;
                      };
                    }))
                else ok (record {
                  tcp = with_inbound s.tcp inbound';
                  ends = record (s.ends) { thread_data = r.1; world = r.2 };
                })));
    interest = λ s.
        not (buffer_empty (stream_out s.tcp.receiver))
        || (is_over_inbound (stream_out s.tcp.receiver) && not s.ends.inbound_shutdown);
    cancel = λ s. ok s;
  }

  -- The loop of rule 4.
  unfoldable pub write_all : List TcpSegment → A → W → Result (A × W)
  write_all [] a w = ok (a, w)
  write_all (seg ∷ segs) a w = driver.write a seg w >>= λ (r : A × W). write_all segs r.0 r.1

  -- Rule 4: from the connection to the adapter.
  unfoldable pub write_segments : Rule (Thread A W)
  write_segments = record {
    fd = λ s. driver.fd s.ends.datagram_adapter;
    direction = writing;
    callback = λ s.
        write_all s.tcp.segments_out s.ends.datagram_adapter s.ends.world >>= λ (r : A × W).
        ok (record {
          tcp = record (s.tcp) { segments_out = [] };
          ends = record (s.ends) { datagram_adapter = r.0; world = r.1 };
        });
    interest = λ s. has_segments s.tcp.segments_out;
    cancel = λ s. ok s;
  }

  -- The rules that `_initialize_TCP` adds.
  unfoldable pub with_rules : List (Rule (Thread A W)) → List (Rule (Thread A W))
  with_rules rules =
      add_rule (add_rule (add_rule (add_rule rules read_segment) read_owner) write_owner)
        write_segments
