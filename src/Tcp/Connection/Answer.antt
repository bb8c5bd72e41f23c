-- ===== src/Tcp/Connection/Answer.antt =====
-- How a connection of libsponge/tcp_connection.cc answers a segment.
use sponge_2021fall.Common.{
  List, [], ◌∷◌, ◌++◌, ◌≡◌, ◌<◌, arith, refl, true, false, ok, ◌==◌, ◌∙◌, ap, ◌&&◌, not, ◌⊎◌, subst,
}
use sponge_2021fall.Tcp.Segment.{TcpSegment, default_segment, length_in_sequence_space}
use sponge_2021fall.Tcp.Receiver.{TcpReceiver}
use sponge_2021fall.Tcp.Receiver
use sponge_2021fall.Tcp.Sender.{TcpSender, send_empty_segment, fill_window, number}
use sponge_2021fall.Tcp.Connection.{
  TcpConnection, send_all, stamp, answer, note_ack, segment_received, is_keep_alive, state,
  same_state, of_state, State,
}
use sponge_2021fall.Tcp.Connection.Output.{stamp_all-eq, map_stamp, stamp-Stamped, Stamped}

-- `c'` is `c` with at least one more segment put out, which carries the acknowledgment number and
-- the window of the receiver `r`.
pub record Answers (r : TcpReceiver) (c c' : TcpConnection) : Type 0 where
  pub made : TcpSegment
  pub sent : TcpSegment
  pub others : List TcpSegment
  pub out : c'.segments_out ≡ c.segments_out ++ sent ∷ others
  pub stamped : Stamped r made sent

send_all-Answers :
    (c : TcpConnection) (seg : TcpSegment) (segs : List TcpSegment)
    → c.sender.segments_out ≡ seg ∷ segs
    → Answers c.receiver c (send_all c)
unfolding send_all map_stamp
send_all-Answers c seg segs e = record {
  made = seg;
  sent = stamp c.receiver seg;
  others = map_stamp c.receiver segs;
  out =
      stamp_all-eq c.receiver c.segments_out c.sender.segments_out
      ∙ ap (λ l. c.segments_out ++ map_stamp c.receiver l) e;
  stamped = stamp-Stamped c.receiver seg;
}

-- The queue of the connection matters, not the rest.
Answers-sender :
    (r : TcpReceiver) (c c' : TcpConnection) (s : TcpSender)
    → Answers r (record c { sender = s }) c'
    → Answers r c c'
Answers-sender r c c' s a = record {
  made = a.made;
  sent = a.sent;
  others = a.others;
  out = a.out;
  stamped = a.stamped;
}

segments_out-send_empty_segment :
    (s : TcpSender)
    → s.segments_out ≡ []
    → (send_empty_segment s).segments_out ≡ number s default_segment ∷ []
unfolding send_empty_segment
segments_out-send_empty_segment s e = ap (λ l. l ++ number s default_segment ∷ []) e

answer-Answers :
    (c : TcpConnection) (seg : TcpSegment)
    → 0 < length_in_sequence_space seg
    → Answers c.receiver c (answer c seg)
unfolding answer
answer-Answers c seg h = by_queue (fill_window c.sender).segments_out refl
  where
    by_queue :
        (l : List TcpSegment)
        → (fill_window c.sender).segments_out ≡ l
        → Answers c.receiver c (answer c seg)
    by_queue [] e =
        let counts : (length_in_sequence_space seg == 0) ≡ false = ground arith in
        let s = send_empty_segment (fill_window c.sender) in
        rw (answer, e, counts)
          (Answers-sender c.receiver c (send_all (record c { sender = s })) s (
            send_all-Answers (record c { sender = s })
              (number (fill_window c.sender) default_segment) []
              (segments_out-send_empty_segment (fill_window c.sender) e)))
    by_queue (x ∷ xs) e =
        let s = fill_window c.sender in
        rw (answer, e)
          (Answers-sender c.receiver c (send_all (record c { sender = s })) s
            (send_all-Answers (record c { sender = s }) x xs e))

-- The first line of `segment_received`.
abbrev pub heard : TcpConnection → TcpConnection
heard c = record c { time_since_last_seg_received = 0 }

note_ack-keeps :
    (c : TcpConnection) (seg : TcpSegment)
    → ((note_ack c seg).receiver ≡ c.receiver) × ((note_ack c seg).segments_out ≡ c.segments_out)
unfolding note_ack
note_ack-keeps c seg = (refl, refl)

-- What `segment_received` does with a segment that is neither a reset, nor a keep-alive, nor
-- dropped in LISTEN.
segment_received-passed :
    (c : TcpConnection) (seg : TcpSegment) (r : TcpReceiver)
    → seg.header.rst ≡ false
    → is_keep_alive (heard c) seg ≡ false
    → (same_state (state (heard c)) (of_state State.listen) && not seg.header.syn) ≡ false
    → Receiver.segment_received c.receiver seg ≡ ok r
    → segment_received c seg
      ≡ ok (answer (note_ack (record c { receiver = r; time_since_last_seg_received = 0 }) seg) seg)
unfolding segment_received
segment_received-passed c seg r rst fresh open_end taken = simp (rst, fresh, open_end, taken)

-- A keep-alive takes up no sequence number.
numbered-is_keep_alive :
    (c : TcpConnection) (seg : TcpSegment)
    → 0 < length_in_sequence_space seg
    → is_keep_alive c seg ≡ false
unfolding is_keep_alive
numbered-is_keep_alive c seg h = ground arith

-- A segment without RST that takes up sequence numbers, that the receiver takes without an
-- exception, and that has SYN where the connection is in the state LISTEN, is always answered: the
-- connection puts out at least one segment, with the acknowledgment number and the window that the
-- receiver has after the segment.
pub segment_received-Answers :
    (c : TcpConnection) (seg : TcpSegment) (r : TcpReceiver)
    → seg.header.rst ≡ false
    → 0 < length_in_sequence_space seg
    → (same_state (state (heard c)) (of_state State.listen) ≡ false) ⊎ (seg.header.syn ≡ true)
    → Receiver.segment_received c.receiver seg ≡ ok r
    → (c' : TcpConnection) × (segment_received c seg ≡ ok c') × Answers r c c'
segment_received-Answers c seg r rst h listening taken =
    let q = record c { receiver = r; time_since_last_seg_received = 0 } in
    let a = answer-Answers (note_ack q seg) seg h in
    let k = note_ack-keeps q seg in
    (
      answer (note_ack q seg) seg,
      segment_received-passed c seg r rst (numbered-is_keep_alive (heard c) seg h) (ground arith)
          taken,
      record {
        made = a.made;
        sent = a.sent;
        others = a.others;
        out = a.out ∙ ap (λ l. l ++ a.sent ∷ a.others) k.1;
        stamped = subst (λ p. Stamped p a.made a.sent) k.0 a.stamped;
      },
    )
