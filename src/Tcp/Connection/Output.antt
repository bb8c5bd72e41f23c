-- ===== src/Tcp/Connection/Output.antt =====
-- What `_send_all_outbounding_segments` and `_send_rst_segmenet` of libsponge/tcp_connection.cc put
-- into the queue of a connection.
use sponge_2021fall.Common.{
  List, [], ◌∷◌, ◌++◌, ◌≡◌, refl, true, min, Option-cases, append-nil, none, inl, ◌∙◌, ◌⊎◌,
  append_assoc, inr, some, sym,
}
use sponge_2021fall.Tcp.Segment.{TcpSegment}
use sponge_2021fall.Tcp.Receiver.{TcpReceiver, ackno, window_size}
use sponge_2021fall.Tcp.Connection.{TcpConnection, stamp, stamp_all, send_all}

unfoldable pub map_stamp : TcpReceiver → List TcpSegment → List TcpSegment
map_stamp r [] = []
map_stamp r (seg ∷ segs) = stamp r seg ∷ map_stamp r segs

pub stamp_all-eq :
    (r : TcpReceiver) (out segs : List TcpSegment) → stamp_all r out segs ≡ out ++ map_stamp r segs
unfolding stamp_all map_stamp
stamp_all-eq r out [] = sym (append-nil out)
stamp_all-eq r out (seg ∷ segs) =
    stamp_all-eq r (out ++ stamp r seg ∷ []) segs ∙ append_assoc out (stamp r seg ∷ []) _

-- What a segment of the sender says on the wire: its own fields, with the acknowledgment number of
-- the receiver if there is one, and the window that the receiver has room for, in 16 bits.
pub record Stamped (r : TcpReceiver) (seg out : TcpSegment) : Type 0 where
  pub payload : out.payload ≡ seg.payload
  pub seqno : out.header.seqno ≡ seg.header.seqno
  pub syn : out.header.syn ≡ seg.header.syn
  pub fin : out.header.fin ≡ seg.header.fin
  pub rst : out.header.rst ≡ seg.header.rst
  pub window : out.header.win ≡ min (window_size r) 65535
  pub acknowledged :
      ((ackno r ≡ none) × (out.header.ack ≡ seg.header.ack))
      ⊎ ((ackno r ≡ some out.header.ackno) × (out.header.ack ≡ true))

pub stamp-Stamped : (r : TcpReceiver) (seg : TcpSegment) → Stamped r seg (stamp r seg)
unfolding stamp
stamp-Stamped r seg = elim (Option-cases (ackno r)) [
  | inl none_yet ↦
      rw (stamp, none_yet)
        (record {
          payload = refl;
          seqno = refl;
          syn = refl;
          fin = refl;
          rst = refl;
          window = refl;
          acknowledged = inl (none_yet, refl);
        })
  | inr (a, known) ↦
      rw (stamp, known)
        (record {
          payload = refl;
          seqno = refl;
          syn = refl;
          fin = refl;
          rst = refl;
          window = refl;
          acknowledged = inr (known, refl);
        })
]

-- `out` has, for each segment of the list in order, what it says on the wire.
abbrev pub AllStamped : TcpReceiver → List TcpSegment → List TcpSegment → Type 0
AllStamped r [] [] = Unit {0}
AllStamped r (seg ∷ segs) (out ∷ outs) = Stamped r seg out × AllStamped r segs outs
AllStamped r [] (out ∷ outs) = ⊥
AllStamped r (seg ∷ segs) [] = ⊥

map_stamp-AllStamped :
    (r : TcpReceiver) (segs : List TcpSegment) → AllStamped r segs (map_stamp r segs)
unfolding map_stamp
map_stamp-AllStamped r [] = tt
map_stamp-AllStamped r (seg ∷ segs) = (stamp-Stamped r seg, map_stamp-AllStamped r segs)

-- All segments that the sender has queued go out, in their order and behind those that the
-- connection has queued before, each with its own fields, the receiver's acknowledgment number if
-- there is one, and the receiver's window cut to 16 bits. The sender's queue is empty after it.
pub send_all-AllStamped :
    (c : TcpConnection)
    → (outs : List TcpSegment) × ((send_all c).segments_out ≡ c.segments_out ++ outs)
      × AllStamped c.receiver c.sender.segments_out outs
      × ((send_all c).sender.segments_out ≡ [])
unfolding send_all
send_all-AllStamped c = (
  map_stamp c.receiver c.sender.segments_out,
  stamp_all-eq c.receiver c.segments_out c.sender.segments_out,
  map_stamp-AllStamped c.receiver c.sender.segments_out,
  refl,
)
