-- ===== src/TcpSpongeSocket/Busy.antt =====
-- The test for a busy wait in libsponge/util/eventloop.cc, for the rules of
-- libsponge/tcp_helpers/tcp_sponge_socket.cc.
use sponge_2021fall.Common.{
  ℕ, ◌≡◌, refl, ap, arith, Bool, true, false, not, ◌&&◌, List, length, min, ltb, ◌==◌, add32,
  if◌then◌else◌, Option, Result, ok, throw, ◌>>=◌, Returns, bind-Returns, if-Returns, any-Returns,
  runtime_error, ◌∙◌,
}
use sponge_2021fall.FileDescriptor.{Descriptor, System, shut_wr}
use sponge_2021fall.FileDescriptor
use sponge_2021fall.EventLoop.{Rule, service, service_count}
use sponge_2021fall.ByteStream.{peek_output, pop_output, buffer_size}
use sponge_2021fall.Tcp.Segment.{TcpSegment}
use sponge_2021fall.Tcp.Receiver.{stream_out}
use sponge_2021fall.Tcp.Connection.{TcpConnection, write, remaining_outbound_capacity}
use sponge_2021fall.TcpSpongeSocket.Base.{Driver, Thread}
use sponge_2021fall.TcpSpongeSocket.Rules.{
  read_segment, read_owner, write_owner, write_segments, write_all, deliver, note_acked,
  finish_outbound, is_over_inbound,
}

-- What the event loop tests after a callback.
abbrev IsIdle : {S : Type 0} → Rule S → S → S → Type 0
IsIdle r s t = (service_count r s == service_count r t && r.interest t) ≡ false

settled :
    {S : Type 0} (r : Rule S) (s : S) (result : Result S)
    → Returns (IsIdle r s) result
    → (result >>= λ t.
        if service_count r s == service_count r t && r.interest t
        then throw runtime_error
        else ok t)
      ≡ result
settled r s (ok t) idle = rw (idle) refl
settled r s (throw e) idle = refl

service-callback :
    {S : Type 0} (r : Rule S) (s : S)
    → Returns (IsIdle r s) (r.callback s)
    → service r true s ≡ r.callback s
unfolding service
service-callback r s h = settled r s (r.callback s) h

and_false : (p q : Bool) → p ≡ false → (p && q) ≡ false
and_false p q e = ap (λ t. t && q) e

false_and : (p : Bool) → (p && false) ≡ false
false_and true = refl
false_and false = refl

module _ {W : Type 0} (system : System W) where
  pub read-counts :
      (d : Descriptor) (limit : ℕ) (w : W)
      → Returns
          (λ (r : List ℕ × Descriptor × W). (d.read_count == r.1.read_count) ≡ false)
          (FileDescriptor.read system d limit w)
  unfolding FileDescriptor.read
  read-counts d limit w =
      bind-Returns _ _ (system.read d.fd_num (min FileDescriptor.buffer_size limit) w) _
        (any-Returns _)
        (λ r k.
          if-Returns _ (ltb (min FileDescriptor.buffer_size limit) (length r.0)) _ _ tt
            (ground arith))

  -- A write that stops after one call.
  write-counts :
      (d : Descriptor) (bytes : List ℕ) (w : W)
      → Returns
          (λ (r : ℕ × Descriptor × W). r.1.write_count ≡ add32 d.write_count 1)
          (FileDescriptor.write system d bytes false w)
  unfolding FileDescriptor.write FileDescriptor.write_from FileDescriptor.write_round
  write-counts d bytes w =
      bind-Returns (λ (r : ℕ × Descriptor × W). r.1.write_count ≡ add32 d.write_count 1) _ _ _
        (bind-Returns _ _ (system.writev d.fd_num bytes w) _ (any-Returns _) (λ r k.
          if-Returns _ (r.0 == 0 && not (length bytes == 0)) _ _ tt
            (if-Returns _ (ltb (length bytes) r.0) _ _ tt refl)))
        (λ r k. k)

-- What an adapter promises: to read counts as a reading of its descriptor.
abbrev pub Counts : {A W : Type 0} → Driver A W → Type 0
Counts {A} {W} driver =
    (a : A) (w : W)
    → Returns
        (λ (r : Option TcpSegment × A × W).
          ((driver.fd a).read_count == (driver.fd r.1).read_count) ≡ false)
        (driver.read a w)

module _ {A W : Type 0} (driver : Driver A W) (system : System W) where
  adapter-note_acked :
      (s : Thread A W)
      → (note_acked driver system s).ends.datagram_adapter ≡ s.ends.datagram_adapter
  unfolding note_acked
  adapter-note_acked s = ground arith

  read_segment-IsIdle :
      Counts driver
      → (s : Thread A W)
      → Returns (IsIdle (read_segment driver system) s) ((read_segment driver system).callback s)
  unfolding read_segment service_count
  read_segment-IsIdle counts s =
      bind-Returns _ _ (driver.read s.ends.datagram_adapter s.ends.world) _
        (counts s.ends.datagram_adapter s.ends.world)
        (λ r k. bind-Returns _ _ (deliver s.tcp r.0) _ (any-Returns _) (λ c l.
          let t : Thread A W = record {
            tcp = c;
            ends = record (s.ends) { datagram_adapter = r.1; world = r.2 };
          } in
          let count : ((driver.fd s.ends.datagram_adapter).read_count
                == (driver.fd (note_acked driver system t).ends.datagram_adapter).read_count)
              ≡ false =
            ap
              (λ (a : A).
                (driver.fd s.ends.datagram_adapter).read_count == (driver.fd a).read_count)
              (adapter-note_acked t)
            ∙ k in
          and_false _ _ count))

  counted :
      (s : Thread A W) (r : List ℕ × Descriptor × W) (c : TcpConnection) (eof : Bool)
      → (s.ends.thread_data.read_count == r.1.read_count) ≡ false
      → let t : Thread A W = record {
        tcp = c;
        ends = record (s.ends) { thread_data = r.1; world = r.2 };
      } in
        IsIdle (read_owner driver system) s (if eof then finish_outbound driver system t else t)
  unfolding read_owner service_count finish_outbound
  counted s r c true k = and_false _ _ k
  counted s r c false k = and_false _ _ k

  read_owner-IsIdle :
      (s : Thread A W)
      → Returns (IsIdle (read_owner driver system) s) ((read_owner driver system).callback s)
  unfolding read_owner
  read_owner-IsIdle s =
      bind-Returns
        (λ (r : List ℕ × Descriptor × W). (s.ends.thread_data.read_count == r.1.read_count) ≡ false)
        _
        (FileDescriptor.read system s.ends.thread_data (remaining_outbound_capacity s.tcp)
          s.ends.world)
        _ (read-counts system s.ends.thread_data (remaining_outbound_capacity s.tcp) s.ends.world)
        (λ r k.
          if-Returns _ (not ((write s.tcp r.0).0 == length r.0)) _ _ tt
            (counted s r (write s.tcp r.0).1 r.1.eof k))

  write_owner-IsIdle :
      (s : Thread A W)
      → Returns (IsIdle (write_owner driver system) s) ((write_owner driver system).callback s)
  unfolding write_owner service_count FileDescriptor.shutdown
  write_owner-IsIdle s =
      bind-Returns
        (λ (r : ℕ × Descriptor × W). r.1.write_count ≡ add32 s.ends.thread_data.write_count 1) _
        (FileDescriptor.write system s.ends.thread_data
          (peek_output (stream_out s.tcp.receiver)
            (min 65536 (buffer_size (stream_out s.tcp.receiver))))
          false s.ends.world)
        _
        (write-counts system s.ends.thread_data
          (peek_output (stream_out s.tcp.receiver)
            (min 65536 (buffer_size (stream_out s.tcp.receiver))))
          s.ends.world)
        (λ r k.
          if-Returns _ (is_over_inbound (pop_output (stream_out s.tcp.receiver) r.0)) _ _
            (bind-Returns (λ (q : Descriptor × W). q.0.write_count ≡ add32 r.1.write_count 1) _
              (FileDescriptor.shutdown system r.1 shut_wr r.2) _
              (bind-Returns _ _ (system.shutdown r.1.fd_num shut_wr r.2) _ (any-Returns _)
                (λ v q. refl))
              (λ q m.
                let count : (s.ends.thread_data.write_count == q.0.write_count) ≡ false =
                  ground (arith, k, m) in
                and_false _ _ count))
            (let count : (s.ends.thread_data.write_count == r.1.write_count) ≡ false =
                ground (arith, k) in
              and_false _ _ count))

  write_segments-IsIdle :
      (s : Thread A W)
      → Returns
          (IsIdle (write_segments driver system) s)
          ((write_segments driver system).callback s)
  unfolding write_segments service_count
  write_segments-IsIdle s =
      bind-Returns (λ (r : A × W). Unit {0}) _
        (write_all driver system s.tcp.segments_out s.ends.datagram_adapter s.ends.world) _
        (any-Returns
          (write_all driver system s.tcp.segments_out s.ends.datagram_adapter s.ends.world))
        (λ r k.
          false_and
            ((driver.fd s.ends.datagram_adapter).write_count == (driver.fd r.0).write_count))

  -- The test for a busy wait never fires on a rule of the socket: when the event loop services one,
  -- the result is that of its callback, exceptions included. The rules of the owner count a call on
  -- its descriptor, the one that sends has nothing left to send, and that the one that receives
  -- counts is what is asked of the adapter.
  pub service-rules :
      Counts driver
      → (s : Thread A W)
      → (service (read_segment driver system) true s ≡ (read_segment driver system).callback s)
        × (service (read_owner driver system) true s ≡ (read_owner driver system).callback s)
        × (service (write_owner driver system) true s ≡ (write_owner driver system).callback s)
        × (service (write_segments driver system) true s
            ≡ (write_segments driver system).callback s)
  service-rules counts s = (
    service-callback _ s (read_segment-IsIdle counts s),
    service-callback _ s (read_owner-IsIdle s),
    service-callback _ s (write_owner-IsIdle s),
    service-callback _ s (write_segments-IsIdle s),
  )
