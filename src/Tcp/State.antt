-- ===== src/Tcp/State.antt =====
-- libsponge/tcp_helpers/tcp_state.hh and .cc: the official state names, as pairs of summaries. The
-- summary strings are constants that differ from one another: here they are constructors.
use sponge_2021fall.Common.{
  ℕ, Bool, true, false, not, ◌&&◌, none, some, add64, ltb, ◌==◌, if◌then◌else◌,
}
use sponge_2021fall.ByteStream.{input_ended, eof}
use sponge_2021fall.Tcp.Receiver.{TcpReceiver, ackno, stream_out}
use sponge_2021fall.Tcp.Sender.{TcpSender}

-- `TCPReceiverStateSummary`
pub data ReceiverSummary : Type 0 where
  error listen syn_recv fin_recv : ReceiverSummary

-- `TCPSenderStateSummary`
pub data SenderSummary : Type 0 where
  error closed syn_sent syn_acked fin_sent fin_acked : SenderSummary

-- Equality of the strings, by their places in the lists above.
abbrev receiver_place : ReceiverSummary → ℕ
receiver_place ReceiverSummary.error = 0
receiver_place listen = 1
receiver_place syn_recv = 2
receiver_place fin_recv = 3

abbrev sender_place : SenderSummary → ℕ
sender_place SenderSummary.error = 0
sender_place closed = 1
sender_place syn_sent = 2
sender_place syn_acked = 3
sender_place fin_sent = 4
sender_place fin_acked = 5

pub record TcpState : Type 0 where
  pub sender : SenderSummary
  pub receiver : ReceiverSummary
  pub active : Bool
  pub linger_after_streams_finish : Bool

abbrev same : Bool → Bool → Bool
same true b = b
same false b = not b

-- `TCPState::operator==`
unfoldable pub equals : TcpState → TcpState → Bool
equals a b =
    same a.active b.active
    && (same a.linger_after_streams_finish b.linger_after_streams_finish
        && (sender_place a.sender == sender_place b.sender
            && receiver_place a.receiver == receiver_place b.receiver))

-- `TCPState::State`
pub data State : Type 0 where
  listen syn_rcvd syn_sent established close_wait last_ack fin_wait_1 fin_wait_2 closing time_wait
        closed reset :
      State

abbrev state : SenderSummary → ReceiverSummary → Bool → Bool → TcpState
state s r active linger = record {
  sender = s;
  receiver = r;
  active = active;
  linger_after_streams_finish = linger;
}

-- `TCPState(const TCPState::State)`
unfoldable pub of_state : State → TcpState
of_state State.listen = state SenderSummary.closed ReceiverSummary.listen true true
of_state State.syn_rcvd = state SenderSummary.syn_sent ReceiverSummary.syn_recv true true
of_state State.syn_sent = state SenderSummary.syn_sent ReceiverSummary.listen true true
of_state State.established = state SenderSummary.syn_acked ReceiverSummary.syn_recv true true
of_state State.close_wait = state SenderSummary.syn_acked ReceiverSummary.fin_recv true false
of_state State.last_ack = state SenderSummary.fin_sent ReceiverSummary.fin_recv true false
of_state State.closing = state SenderSummary.fin_sent ReceiverSummary.fin_recv true true
of_state State.fin_wait_1 = state SenderSummary.fin_sent ReceiverSummary.syn_recv true true
of_state State.fin_wait_2 = state SenderSummary.fin_acked ReceiverSummary.syn_recv true true
of_state State.time_wait = state SenderSummary.fin_acked ReceiverSummary.fin_recv true true
of_state State.reset = state SenderSummary.error ReceiverSummary.error false false
of_state State.closed = state SenderSummary.fin_acked ReceiverSummary.fin_recv false false

-- `state_summary(const TCPReceiver &)`
unfoldable pub receiver_summary : TcpReceiver → ReceiverSummary
unfolding ackno input_ended
receiver_summary r = if (stream_out r).error then ReceiverSummary.error else elim (ackno r) [
  | none ↦ ReceiverSummary.listen
  | some _ ↦
      if input_ended (stream_out r) then ReceiverSummary.fin_recv else ReceiverSummary.syn_recv
]

-- `state_summary(const TCPSender &)`
unfoldable pub sender_summary : TcpSender → SenderSummary
unfolding eof
sender_summary s =
    if s.stream.error
    then SenderSummary.error
    else if s.next_seqno == 0
    then SenderSummary.closed
    else if s.next_seqno == s.bytes_in_flight
    then SenderSummary.syn_sent
    else if not (eof s.stream)
    then SenderSummary.syn_acked
    else if ltb s.next_seqno (add64 s.stream.bytes_written 2)
    then SenderSummary.syn_acked
    else if not (s.bytes_in_flight == 0)
    then SenderSummary.fin_sent
    else SenderSummary.fin_acked

-- `TCPState(sender, receiver, active, linger)`
unfoldable pub of_parts : TcpSender → TcpReceiver → Bool → Bool → TcpState
unfolding receiver_summary sender_summary
of_parts s r active linger =
    state (sender_summary s) (receiver_summary r) active (if active then linger else false)
