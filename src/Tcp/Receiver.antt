-- ===== src/Tcp/Receiver.antt =====
-- libsponge/tcp_receiver.hh and .cc: segments into the reassembler, and the feedback to the peer.
pub mod Accept
pub mod Window
mod Examples
use sponge_2021fall.Common.{
  ℕ, ◌+◌, ◌-◌, ◌%◌, ◌^◌, Bool, true, false, Option, none, some, List, add64, sub64, if◌then◌else◌,
  Result, ok, throw, ◌>>=◌,
}
use sponge_2021fall.Seqno.{WrappingInt32, plus, equals, wrap, unwrap}
use sponge_2021fall.ByteStream.{ByteStream, buffer_size, input_ended, set_error}
use sponge_2021fall.Reassembler.{Reassembler, push_substring}
use sponge_2021fall.Reassembler
use sponge_2021fall.Tcp.Segment.{TcpHeader, TcpSegment}

pub record TcpReceiver : Type 0 where
  pub reassembler : Reassembler
  pub isn : Option WrappingInt32
  pub capacity : ℕ

unfoldable pub init : ℕ → TcpReceiver
unfolding Reassembler.init
init capacity = record { reassembler = Reassembler.init capacity; isn = none; capacity = capacity }

unfoldable pub unassembled_bytes : TcpReceiver → ℕ
unfolding Reassembler.unassembled_bytes
unassembled_bytes r = Reassembler.unassembled_bytes r.reassembler

abbrev pub stream_out : TcpReceiver → ByteStream
stream_out r = r.reassembler.output

-- `stream_out().set_error()`
unfoldable pub set_stream_error : TcpReceiver → TcpReceiver
set_stream_error r = record r {
  reassembler = record (r.reassembler) { output = set_error r.reassembler.output };
}

-- `_isn` and `data_start` after the test of the SYN flag.
note_syn : TcpReceiver → TcpHeader → Option WrappingInt32 × WrappingInt32
unfolding plus
note_syn r h = if h.syn then (some h.seqno, plus h.seqno 1) else (r.isn, h.seqno)

-- The part of `segment_received` where `_isn` has a value.
accept : TcpReceiver → WrappingInt32 → WrappingInt32 → TcpSegment → Result TcpReceiver
unfolding equals
accept r isn data_start seg =
    if equals isn data_start
    then ok r
    else (push_substring r.reassembler seg.payload
          (sub64 (unwrap data_start isn r.reassembler.cur_index) 1) seg.header.fin
        >>= λ q. ok (record r { reassembler = q }))

accept_if : TcpReceiver → Option WrappingInt32 → WrappingInt32 → TcpSegment → Result TcpReceiver
unfolding accept
accept_if r none data_start seg = ok r
accept_if r (some isn) data_start seg = accept (record r { isn = some isn }) isn data_start seg

unfoldable pub segment_received : TcpReceiver → TcpSegment → Result TcpReceiver
unfolding note_syn accept_if
segment_received r seg =
    let (isn, data_start) = note_syn r seg.header in accept_if r isn data_start seg

-- The absolute number that `ackno` wraps.
unfoldable pub ackno_absolute : TcpReceiver → ℕ
unfolding input_ended
ackno_absolute r =
    let asn = add64 r.reassembler.cur_index 1 in
    if input_ended (stream_out r) then add64 asn 1 else asn

unfoldable pub ackno : TcpReceiver → Option WrappingInt32
unfolding ackno_absolute
ackno r = elim r.isn [ none ↦ none | some isn ↦ some (wrap (ackno_absolute r) isn) ]

unfoldable pub window_size : TcpReceiver → ℕ
unfolding buffer_size
window_size r = sub64 r.capacity (buffer_size (stream_out r))
