-- ===== src/Tcp/Connection/Opening.antt =====
-- `TCPConnection::connect` of libsponge/tcp_connection.cc on a new connection.
use sponge_2021fall.Common.{arith, ◌≡◌, refl, sym, false, true, [], ◌∷◌, subst, sym}
use sponge_2021fall.Seqno.{WrappingInt32, wrap}
use sponge_2021fall.ByteStream
use sponge_2021fall.Reassembler
use sponge_2021fall.Tcp.Config.{TcpConfig}
use sponge_2021fall.Tcp.Segment.{TcpSegment}
use sponge_2021fall.Tcp.Receiver
use sponge_2021fall.Tcp.Sender.Opening.{opened, syn_segment, fill_window-init}
use sponge_2021fall.Tcp.Sender
use sponge_2021fall.Tcp.State.{of_state, State, of_parts, receiver_summary, sender_summary}
use sponge_2021fall.Tcp.Connection.{
  TcpConnection, init, state, active, connect, send_all, stamp_all, stamp,
}

-- A connection that has sent one segment: its SYN, without bytes.
pub record Opened (isn : WrappingInt32) (c : TcpConnection) : Type 0 where
  pub named : state c ≡ of_state State.syn_sent
  pub sent : TcpSegment
  pub out : c.segments_out ≡ sent ∷ []
  pub syn : sent.header.syn ≡ true
  pub seqno : sent.header.seqno ≡ wrap 0 isn
  pub payload : sent.payload ≡ []
  pub ack : sent.header.ack ≡ false

stamped-Opened :
    (cfg : TcpConfig) (isn : WrappingInt32)
    → Opened isn
        (send_all (record (init cfg isn) { sender = opened cfg.send_capacity cfg.rt_timeout isn }))
unfolding init state active send_all stamp_all stamp of_parts receiver_summary sender_summary
    of_state Receiver.init Sender.init Reassembler.init ByteStream.init Receiver.ackno
    ByteStream.input_ended ByteStream.eof
stamped-Opened cfg isn = record {
  named = ground arith;
  sent = stamp (Receiver.init cfg.recv_capacity) (syn_segment isn);
  out = refl;
  syn = refl;
  seqno = refl;
  payload = refl;
  ack = refl;
}

pub connect-Opened : (cfg : TcpConfig) (isn : WrappingInt32) → Opened isn (connect (init cfg isn))
unfolding connect init
connect-Opened cfg isn =
    subst (λ s. Opened isn (send_all (record (init cfg isn) { sender = s })))
      (sym (fill_window-init cfg.send_capacity cfg.rt_timeout isn)) (stamped-Opened cfg isn)
