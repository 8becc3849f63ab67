-- ===== src/Session/Send.antt =====
-- Sending one frame to one peer: ensureConnectionToPeer, isConnectionLimited,
-- tryUpgradeLimitedConnection, sendProtocolPayloadToPeer, sendEnvelopeToPeer, sendReceiptToPeer and
-- the two senders of call frames in packages/network/src/session.ts. The throttled console output
-- of logEnsureConnection is left out.
pub mod Frame
pub mod Frames
pub mod Throttle
use text.Mathlib.Text.{find?}
use skypier_chat.Prelude.{
  ℕ, ◌+◌, ◌-◌, String, Bool, true, false, not, ◌||◌, Option, none, some, find, ltb, or_else,
  is_some, truthy, if◌then◌else◌, ◌==◌,
}
use skypier_chat.Prelude.Maps.{get, put, delete}
use skypier_chat.Protocol.{WireEnvelope, receipt, AudioCallSignal, AudioCallChunk}
use skypier_chat.Session.{
  Host, Session, Connection, StreamOutcome, StreamError, written, broken, unsupported_protocol,
  limited_connection, failure, Payload, envelope_payload, signal_payload, chunk_payload, Redial,
  under_way, settled, sent, LogMessage, upgrade_attempted, upgrade_succeeded, upgrade_failed,
  relay_limited, signal_undelivered, chunk_undelivered, dial_log, info, warn, success,
  tag_chat_peer, frame_written, emit, called, is_self, emit_delivery, emit_state,
}

abbrev pub redial_cooldown_ms : ℕ
redial_cooldown_ms = 2500

abbrev pub limited_retry_delay_ms : ℕ
limited_retry_delay_ms = 15000

-- The protocols of SKYPIER_CHAT_PROTOCOLS that this module writes to.
abbrev pub message_protocol : String
message_protocol = "/skypier/chat/1.0.0/message"

abbrev pub receipts_protocol : String
receipts_protocol = "/skypier/chat/1.0.0/receipts"

abbrev pub call_control_protocol : String
call_control_protocol = "/skypier/chat/1.0.0/call-control"

abbrev pub call_audio_protocol : String
call_audio_protocol = "/skypier/chat/1.0.0/call-audio"

-- The result of ensureConnectionToPeer: null for the local peer, undefined, or a connection.
pub data Ensured : Type 0 where
  to_self no_connection : Ensured
  connected : Connection → Ensured

-- true, 'unsupported', 'limited' and false
pub data SendResult : Type 0 where
  sent_ok unsupported limited send_failed : SendResult

unfoldable pub is_connection_limited : Connection → Bool
is_connection_limited c = c.has_limits || is_some (find? c.remote_addr "/p2p-circuit")

abbrev pub ensured : Option Connection → Ensured
ensured none = no_connection
ensured (some c) = connected c

module _ (host : Host) where
  -- The promise of a new dial. Where `peerIdFromString` throws, its entry in the map is deleted
  -- before it is set, and stays.
  abbrev dial_outcome : String → Option Connection → Session → Ensured × Session
  dial_outcome peer (some c) s = (
    connected c,
    emit_state host (record s { redial_cooldown_until = delete s.redial_cooldown_until peer }),
  )
  dial_outcome peer none s = (
    no_connection,
    record s {
      redial_cooldown_until =
          put s.redial_cooldown_until peer (host.now s.calls + redial_cooldown_ms);
    },
  )

  abbrev end_dial : String → Ensured × Session → Ensured × Session
  end_dial peer (r, s) = (r, record s { redial_in_flight = delete s.redial_in_flight peer })

  unfoldable pub new_dial : String → Session → Ensured × Session
  new_dial peer s =
      if host.valid_peer_id peer
      then end_dial peer (
          dial_outcome peer (host.dial s.calls peer)
            (called (record s { redial_in_flight = put s.redial_in_flight peer under_way })))
      else (
        no_connection,
        record s {
          redial_cooldown_until =
              put s.redial_cooldown_until peer (host.now s.calls + redial_cooldown_ms);
          redial_in_flight = put s.redial_in_flight peer settled;
        },
      )

  abbrev await_dial : String → Redial → Session → Ensured × Session
  await_dial peer under_way s = (ensured (host.joined s.calls peer), called s)
  await_dial peer settled s = (no_connection, s)

  abbrev join_or_dial : String → Option Redial → Session → Ensured × Session
  join_or_dial peer none s = new_dial peer s
  join_or_dial peer (some entry) s = await_dial peer entry s

  unfoldable pub redial : String → Session → Ensured × Session
  redial peer s =
      if ltb (host.now s.calls) (or_else (get s.redial_cooldown_until peer) 0)
      then (no_connection, s)
      else join_or_dial peer (get s.redial_in_flight peer) s

  abbrev use_or_redial : String → Option Connection → Session → Ensured × Session
  use_or_redial peer (some c) s = (connected c, s)
  use_or_redial peer none s = redial peer s

  unfoldable pub ensure_connection : String → Session → Ensured × Session
  ensure_connection peer s =
      if is_self s peer
      then (to_self, s)
      else if s.has_node
      then use_or_redial peer (find (λ c. c.remote_peer == peer) (host.connections s.calls)) s
      else (no_connection, s)

  -- tryUpgradeLimitedConnection up to its first wait; the result says whether it goes on.
  unfoldable pub start_upgrade : String → Session → Bool × Session
  start_upgrade peer s =
      if s.has_node
      then if ltb (host.now s.calls - or_else (get s.limited_connection_peers peer) 0)
          limited_retry_delay_ms
        then (false, s)
        else (
          true,
          emit (dial_log peer info upgrade_attempted) (record s {
            limited_connection_peers = put s.limited_connection_peers peer (host.now s.calls);
          }),
        )
      else (false, s)

  abbrev upgraded : Option Connection → Bool
  upgraded none = false
  upgraded (some c) = not (is_connection_limited c)

  -- The rest of it: the limited connections are closed, and a new dial races with a timeout.
  unfoldable pub finish_upgrade : String → Session → Bool × Session
  unfolding is_connection_limited
  finish_upgrade peer s =
      if upgraded (host.upgrade s.calls peer)
      then (
        true,
        emit (dial_log peer success upgrade_succeeded) (record (called s) {
          limited_connection_peers = delete s.limited_connection_peers peer;
        }),
      )
      else (false, emit (dial_log peer warn upgrade_failed) (called s))

  -- The connection worked: a direct one clears the record of limited ones.
  abbrev clear_limited : String → Connection → Session → Session
  clear_limited peer c s =
      if is_connection_limited c
      then s
      else record s { limited_connection_peers = delete s.limited_connection_peers peer }

  -- The catch of sendProtocolPayloadToPeer.
  abbrev stream_error : String → StreamError → Session → SendResult × Session
  stream_error peer unsupported_protocol s = (unsupported, s)
  stream_error peer limited_connection s =
      (limited, (start_upgrade peer (emit (dial_log peer warn relay_limited) s)).1)
  stream_error peer failure s = (send_failed, s)

  abbrev write_outcome :
      String → String → Payload → Connection → StreamOutcome → Session → SendResult × Session
  write_outcome peer protocol p c written s = (
    sent_ok,
    clear_limited peer c (emit (tag_chat_peer peer) (emit (frame_written peer protocol p) s)),
  )
  write_outcome peer protocol p c (broken was_written error) s =
      stream_error peer error (if was_written then emit (frame_written peer protocol p) s else s)

  abbrev send_over : String → String → Payload → Ensured × Session → SendResult × Session
  send_over peer protocol p (to_self, s) = (sent_ok, s)
  send_over peer protocol p (no_connection, s) = (send_failed, s)
  send_over peer protocol p (connected c, s) =
      write_outcome peer protocol p c (host.write s.calls c protocol) (called s)

  -- sendProtocolPayloadToPeer
  unfoldable pub send_payload : String → String → Payload → Session → SendResult × Session
  send_payload peer protocol p s =
      if is_self s peer then (sent_ok, s) else send_over peer protocol p (ensure_connection peer s)

  abbrev report_sent : WireEnvelope → SendResult × Session → SendResult × Session
  report_sent e (sent_ok, s) = (sent_ok, emit_delivery e sent s)
  report_sent e (unsupported, s) = (unsupported, s)
  report_sent e (limited, s) = (limited, s)
  report_sent e (send_failed, s) = (send_failed, s)

  -- sendEnvelopeToPeer
  unfoldable pub send_envelope : String → WireEnvelope → Session → SendResult × Session
  send_envelope peer e s = report_sent e (send_payload peer message_protocol (envelope_payload e) s)

  abbrev pub receipt_for : Session → WireEnvelope → WireEnvelope
  receipt_for s e = record {
    kind = receipt;
    message_id = e.message_id;
    conversation_id = e.conversation_id;
    sender_peer_id = or_else s.state.local_peer_id "unknown";
    sent_at = host.now s.calls;
    payload = "delivered";
  }

  -- sendReceiptToPeer
  unfoldable pub send_receipt : String → WireEnvelope → Session → Session
  send_receipt peer e s =
      (send_payload peer receipts_protocol (envelope_payload (receipt_for s e)) s).1

  abbrev pub sender_of : String → Session → String
  sender_of from s = or_else (truthy (some from)) (or_else (truthy s.state.local_peer_id) "unknown")

  abbrev report_undelivered : String → LogMessage → SendResult × Session → Bool × Session
  report_undelivered peer m (send_failed, s) = (false, emit (dial_log peer warn m) s)
  report_undelivered peer m (sent_ok, s) = (true, s)
  report_undelivered peer m (limited, s) = (false, s)
  report_undelivered peer m (unsupported, s) = (false, s)

  unfoldable pub send_audio_call_signal : AudioCallSignal → String → Session → Bool × Session
  send_audio_call_signal signal peer s = report_undelivered peer (signal_undelivered signal.type) (
      send_payload peer call_control_protocol
        (signal_payload (record signal {
          from_peer_id = sender_of signal.from_peer_id s;
          sent_at = some (or_else signal.sent_at (host.now s.calls));
        }))
        s)

  unfoldable pub send_audio_call_chunk : AudioCallChunk → String → Session → Bool × Session
  send_audio_call_chunk chunk peer s =
      report_undelivered peer (chunk_undelivered chunk.sequence chunk.call_id) (
        send_payload peer call_audio_protocol
          (chunk_payload (record chunk {
            from_peer_id = sender_of chunk.from_peer_id s;
            sent_at = some (or_else chunk.sent_at (host.now s.calls));
          }))
          s)
