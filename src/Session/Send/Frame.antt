-- ===== src/Session/Send/Frame.antt =====
-- What sending leaves alone: the queue, its stored copy and the identity of the session.
use skypier_chat.Prelude.{String, ◌≡◌, true, false, arith, Bool-cases, inl, inr}
use skypier_chat.Protocol.{WireEnvelope}
use skypier_chat.Session.{
  Host, Session, Payload, envelope_payload, emit_state, emit_delivery, DeliveryStatus, Connection,
  StreamOutcome, StreamError, written, broken, unsupported_protocol, limited_connection, failure,
  emit, called, dial_log, warn, relay_limited, frame_written, is_self,
}
use skypier_chat.Session.Send.{
  ensure_connection, redial, new_dial, start_upgrade, send_payload, send_envelope, message_protocol,
  Ensured, to_self, no_connection, connected, stream_error, write_outcome, send_over,
}

-- `t` has the queue, its stored copy, the node, the peer and the status of `s`.
pub record SameQueue (s t : Session) : Type 0 where
  pub queue : t.queue ≡ s.queue
  pub persisted : t.persisted ≡ s.persisted
  pub node : t.has_node ≡ s.has_node
  pub peer : t.state.local_peer_id ≡ s.state.local_peer_id
  pub status : t.state.status ≡ s.state.status

SameQueue-refl : (s : Session) → SameQueue s s
SameQueue-refl s = ground arith

pub SameQueue-trans : {s t u : Session} → SameQueue s t → SameQueue t u → SameQueue s u
SameQueue-trans h k = ground arith

module _ (host : Host) where
  pub emit_state-SameQueue : (s : Session) → SameQueue s (emit_state host s)
  unfolding emit_state
  emit_state-SameQueue s = ground arith

  pub new_dial-SameQueue : (peer : String) (s : Session) → SameQueue s (new_dial host peer s).1
  unfolding new_dial emit_state
  new_dial-SameQueue peer s = ground arith

  pub redial-SameQueue : (peer : String) (s : Session) → SameQueue s (redial host peer s).1
  unfolding redial
  redial-SameQueue peer s = ground (arith, new_dial-SameQueue peer s)

  pub ensure_connection-SameQueue :
      (peer : String) (s : Session) → SameQueue s (ensure_connection host peer s).1
  unfolding ensure_connection
  ensure_connection-SameQueue peer s = ground (arith, redial-SameQueue peer s)

  pub start_upgrade-SameQueue :
      (peer : String) (s : Session) → SameQueue s (start_upgrade host peer s).1
  unfolding start_upgrade
  start_upgrade-SameQueue peer s = ground arith

pub emit_delivery-SameQueue :
    (e : WireEnvelope) (d : DeliveryStatus) (s : Session) → SameQueue s (emit_delivery e d s)
unfolding emit_delivery
emit_delivery-SameQueue e d s = ground arith

module _ (host : Host) where
  stream_error-SameQueue :
      (peer : String) (error : StreamError) (s : Session)
      → SameQueue s (stream_error host peer error s).1
  stream_error-SameQueue peer unsupported_protocol s = ground arith
  stream_error-SameQueue peer limited_connection s =
      let h = start_upgrade-SameQueue host peer (emit (dial_log peer warn relay_limited) s) in
      record {
        queue = h.queue;
        persisted = h.persisted;
        node = h.node;
        peer = h.peer;
        status = h.status;
      }
  stream_error-SameQueue peer failure s = ground arith

  write_outcome-SameQueue :
      (peer protocol : String) (p : Payload) (c : Connection) (o : StreamOutcome) (s : Session)
      → SameQueue s (write_outcome host peer protocol p c o s).1
  write_outcome-SameQueue peer protocol p c written s = ground arith
  write_outcome-SameQueue peer protocol p c (broken true error) s =
      let h = stream_error-SameQueue peer error (emit (frame_written peer protocol p) s) in
      record {
        queue = h.queue;
        persisted = h.persisted;
        node = h.node;
        peer = h.peer;
        status = h.status;
      }
  write_outcome-SameQueue peer protocol p c (broken false error) s =
      stream_error-SameQueue peer error s

  send_over-SameQueue :
      (peer protocol : String) (p : Payload) (r : Ensured × Session)
      → SameQueue r.1 (send_over host peer protocol p r).1
  send_over-SameQueue peer protocol p (to_self, s) = ground arith
  send_over-SameQueue peer protocol p (no_connection, s) = ground arith
  send_over-SameQueue peer protocol p (connected c, s) =
      let h =
        write_outcome-SameQueue peer protocol p c (host.write s.calls c protocol) (called s) in
      record {
        queue = h.queue;
        persisted = h.persisted;
        node = h.node;
        peer = h.peer;
        status = h.status;
      }

  pub send_payload-SameQueue :
      (peer protocol : String) (p : Payload) (s : Session)
      → SameQueue s (send_payload host peer protocol p s).1
  unfolding send_payload
  send_payload-SameQueue peer protocol p s = elim (Bool-cases (is_self s peer)) [
    | inl self ↦ simp self (SameQueue-refl s)
    | inr other ↦ simp other (
        SameQueue-trans (ensure_connection-SameQueue host peer s)
          (send_over-SameQueue peer protocol p (ensure_connection host peer s)))
  ]

  pub send_envelope-SameQueue :
      (peer : String) (e : WireEnvelope) (s : Session) → SameQueue s (send_envelope host peer e s).1
  unfolding send_envelope emit_delivery
  send_envelope-SameQueue peer e s =
      ground (arith, send_payload-SameQueue peer message_protocol (envelope_payload e) s)
