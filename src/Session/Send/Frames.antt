-- ===== src/Session/Send/Frames.antt =====
-- Which frames a send writes.
use mathlib.Core.List.{append-nil}
use mathlib.Core.Path.{subst}
use skypier_chat.Prelude.{
  ℕ, if◌then◌else◌, String, ◌≡◌, refl, ◌∙◌, sym, ap, Bool, true, false, not, ◌&&◌, ◌≢◌, Option,
  none, some, List, [], ◌∷◌, ◌++◌, arith, truthy, Bool-cases, Option-cases, inl, inr, ◌⊎◌,
}
use skypier_chat.Prelude.Maps.{put, delete}
use skypier_chat.Protocol.{WireEnvelope}
use skypier_chat.Session.{
  Host, Session, Event, Connection, StreamOutcome, StreamError, written, broken,
  unsupported_protocol, limited_connection, failure, under_way, emit, called, warn, relay_limited,
  info, upgrade_attempted, frame_written, state_changed, delivery_status, dial_log, inbound,
  peer_reachability, tag_chat_peer, Payload, envelope_payload, is_self, emit_state, emit_delivery,
  DeliveryStatus, sent,
}
use skypier_chat.Session.Send.{
  Ensured, to_self, no_connection, connected, dial_outcome, end_dial, write_outcome, stream_error,
  clear_limited, send_over, SendResult, sent_ok, unsupported, limited, send_failed,
  ensure_connection, redial, new_dial, start_upgrade, send_payload, send_envelope, report_sent,
  message_protocol,
}

pub record Frame : Type 0 where
  pub peer : String
  pub protocol : String
  pub payload : Payload

-- The frames among the events, in the order in which they were written.
abbrev pub frames : List Event → List Frame
frames [] = []
frames (frame_written peer protocol p ∷ es) =
    record { peer = peer; protocol = protocol; payload = p } ∷ frames es
frames (state_changed st ∷ es) = frames es
frames (delivery_status id d ∷ es) = frames es
frames (dial_log peer l m ∷ es) = frames es
frames (inbound peer e ∷ es) = frames es
frames (peer_reachability peer r ∷ es) = frames es
frames (tag_chat_peer peer ∷ es) = frames es

frames-append : (es fs : List Event) → frames (es ++ fs) ≡ frames es ++ frames fs
frames-append [] fs = refl
frames-append (frame_written peer protocol p ∷ es) fs = rw (frames-append es fs)
frames-append (state_changed st ∷ es) fs = frames-append es fs
frames-append (delivery_status id d ∷ es) fs = frames-append es fs
frames-append (dial_log peer l m ∷ es) fs = frames-append es fs
frames-append (inbound peer e ∷ es) fs = frames-append es fs
frames-append (peer_reachability peer r ∷ es) fs = frames-append es fs
frames-append (tag_chat_peer peer ∷ es) fs = frames-append es fs

abbrev silent : Event → Bool
silent (frame_written peer protocol p) = false
silent _ = true

pub frames-emit :
    (es : List Event) (e : Event) → silent e ≡ true → frames (es ++ e ∷ []) ≡ frames es
frames-emit es (frame_written peer protocol p) h = cc
frames-emit es _ h = frames-append es (_ ∷ []) ∙ append-nil (frames es)

module _ (host : Host) where
  pub emit_state-frames : (s : Session) → frames (emit_state host s).events ≡ frames s.events
  unfolding emit_state
  emit_state-frames s = frames-emit s.events _ refl

  end_dial-frames :
      (peer : String) (o : Option Connection) (s : Session)
      → frames (end_dial host peer (dial_outcome host peer o s)).1.events ≡ frames s.events
  end_dial-frames peer none s = refl
  end_dial-frames peer (some c) s =
      emit_state-frames (record s { redial_cooldown_until = delete s.redial_cooldown_until peer })

  new_dial-frames :
      (peer : String) (s : Session) → frames (new_dial host peer s).1.events ≡ frames s.events
  unfolding new_dial
  new_dial-frames peer s = elim (Bool-cases (host.valid_peer_id peer)) [
    | inl valid ↦ simp valid (
        end_dial-frames peer (host.dial s.calls peer)
          (called (record s { redial_in_flight = put s.redial_in_flight peer under_way })))
    | inr invalid ↦ simp invalid
  ]

  redial-frames :
      (peer : String) (s : Session) → frames (redial host peer s).1.events ≡ frames s.events
  unfolding redial
  redial-frames peer s = ground (arith, new_dial-frames peer s)

  ensure_connection-frames :
      (peer : String) (s : Session)
      → frames (ensure_connection host peer s).1.events ≡ frames s.events
  unfolding ensure_connection
  ensure_connection-frames peer s = ground (arith, redial-frames peer s)

  start_upgrade-frames :
      (peer : String) (s : Session) → frames (start_upgrade host peer s).1.events ≡ frames s.events
  unfolding start_upgrade
  start_upgrade-frames peer s =
      ground (arith, frames-emit s.events (dial_log peer info upgrade_attempted) refl)

-- The result says that a frame was written.
abbrev pub is_sent : SendResult → Bool
is_sent sent_ok = true
is_sent _ = false

-- The frames that a send with result `r` adds.
abbrev pub added : Bool → Frame → List Frame
added true f = f ∷ []
added false f = []

-- Some stream under the protocol fails to close after its frame was written.
abbrev pub Unclosed : Host → String → Type 0
Unclosed host protocol =
    (n : ℕ) × (c : Connection) × (error : StreamError) × (host.write n c protocol
      ≡ broken true error)

-- Whether a frame was written, beside what the send reports: one was exactly when the send reports
-- success and is not to the peer itself, unless a stream to another peer failed to close after the
-- frame was written, where the send does not report success.
abbrev pub AsReported : Host → String → Bool → Bool → Bool → Type 0
AsReported host protocol to_itself reported was_written =
    (was_written ≡ (not to_itself && reported))
    ⊎ ((to_itself ≡ false) × (reported ≡ false) × (was_written ≡ true) × Unclosed host protocol)

-- The frame `f` is added to `before` or not, as is reported.
abbrev pub Adds : Host → String → Bool → Bool → Frame → List Frame → List Frame → Type 0
Adds host protocol to_itself reported f before after =
    (was_written : Bool) × ((after ≡ before ++ added was_written f)
      × AsReported host protocol to_itself reported was_written)

module _ (host : Host) where
  clear_limited-events :
      (peer : String) (c : Connection) (s : Session)
      → (clear_limited host peer c s).events ≡ s.events
  clear_limited-events peer c s = ground arith

  stream_error-frames :
      (peer : String) (error : StreamError) (s : Session)
      → (frames (stream_error host peer error s).1.events ≡ frames s.events)
        × (is_sent (stream_error host peer error s).0 ≡ false)
  stream_error-frames peer unsupported_protocol s = (refl, refl)
  stream_error-frames peer limited_connection s = (
    start_upgrade-frames host peer (emit (dial_log peer warn relay_limited) s)
        ∙ frames-emit s.events (dial_log peer warn relay_limited) refl,
    refl,
  )
  stream_error-frames peer failure s = (refl, refl)

  broken-frames :
      (peer protocol : String) (p : Payload) (c : Connection) (w : Bool) (error : StreamError)
      (s : Session)
      → frames (write_outcome host peer protocol p c (broken w error) s).1.events
        ≡ frames s.events ++ added w (record { peer = peer; protocol = protocol; payload = p })
  broken-frames peer protocol p c true error s =
      (stream_error-frames peer error (emit (frame_written peer protocol p) s)).0
      ∙ frames-append s.events (frame_written peer protocol p ∷ [])
  broken-frames peer protocol p c false error s =
      (stream_error-frames peer error s).0 ∙ sym (append-nil (frames s.events))

  broken-AsReported :
      (n : ℕ) (protocol : String) (c : Connection) (w : Bool) (error : StreamError)
      → host.write n c protocol ≡ broken w error
      → AsReported host protocol false false w
  broken-AsReported n protocol c true error e = inr (refl, refl, refl, (n, c, error, e))
  broken-AsReported n protocol c false error e = inl refl

  write_outcome-frames :
      (n : ℕ) (peer protocol : String) (p : Payload) (c : Connection) (o : StreamOutcome)
      (s : Session)
      → host.write n c protocol ≡ o
      → Adds host protocol false
          (is_sent (write_outcome host peer protocol p c o s).0)
          (record { peer = peer; protocol = protocol; payload = p })
          (frames s.events)
          (frames (write_outcome host peer protocol p c o s).1.events)
  write_outcome-frames n peer protocol p c written s e = (
    true,
    (
      ap frames (clear_limited-events peer c _)
          ∙ frames-emit (s.events ++ frame_written peer protocol p ∷ []) (tag_chat_peer peer) refl
          ∙ frames-append s.events (frame_written peer protocol p ∷ []),
      inl refl,
    ),
  )
  write_outcome-frames n peer protocol p c (broken w error) s e = (
    w,
    (
      broken-frames peer protocol p c w error s,
      subst (λ b. AsReported host protocol false b w)
          (sym
            (stream_error-frames peer error
              (if w then emit (frame_written peer protocol p) s else s)).1)
          (broken-AsReported n protocol c w error e),
    ),
  )

  send_over-frames :
      (peer protocol : String) (p : Payload) (r : Ensured × Session)
      → r.0 ≢ to_self
      → Adds host protocol false
          (is_sent (send_over host peer protocol p r).0)
          (record { peer = peer; protocol = protocol; payload = p })
          (frames r.1.events)
          (frames (send_over host peer protocol p r).1.events)
  send_over-frames peer protocol p (to_self, s) h = absurd (h refl)
  send_over-frames peer protocol p (no_connection, s) h =
      (false, (sym (append-nil (frames s.events)), inl refl))
  send_over-frames peer protocol p (connected c, s) h =
      write_outcome-frames s.calls peer protocol p c (host.write s.calls c protocol) (called s) refl

  ensure_connection-ne-to_self :
      (peer : String) (s : Session)
      → is_self s peer ≡ false
      → (ensure_connection host peer s).0 ≢ to_self
  unfolding ensure_connection redial new_dial
  ensure_connection-ne-to_self peer s h = ground arith

  -- Sending to another peer writes one frame when it reports success, and none otherwise, but where
  -- the stream fails to close after it; sending to the local peer reports success and writes none.
  pub send_payload-frames :
      (peer protocol : String) (p : Payload) (s : Session)
      → Adds host protocol
          (is_self s peer)
          (is_sent (send_payload host peer protocol p s).0)
          (record { peer = peer; protocol = protocol; payload = p })
          (frames s.events)
          (frames (send_payload host peer protocol p s).1.events)
  unfolding send_payload
  send_payload-frames peer protocol p s = elim (Bool-cases (is_self s peer)) [
    | inl self ↦ simp self ((false, (sym (append-nil (frames s.events)), inl refl)))
    | inr other ↦ simp other (
        subst
          (λ fs.
            Adds host protocol false
              (is_sent (send_over host peer protocol p (ensure_connection host peer s)).0)
              (record { peer = peer; protocol = protocol; payload = p }) fs
              (frames (send_over host peer protocol p (ensure_connection host peer s)).1.events))
          (ensure_connection-frames host peer s)
          (send_over-frames peer protocol p (ensure_connection host peer s)
            (ensure_connection-ne-to_self peer s other)))
  ]

  emit_delivery-frames :
      (e : WireEnvelope) (d : DeliveryStatus) (s : Session)
      → frames (emit_delivery e d s).events ≡ frames s.events
  unfolding emit_delivery
  emit_delivery-frames e d s = elim (Option-cases (truthy e.message_id)) [
    | inl no_id ↦ rw no_id
    | inr (id, has) ↦ rw has (frames-emit s.events (delivery_status id d) refl)
  ]

  report_sent-frames :
      (e : WireEnvelope) (r : SendResult × Session)
      → (frames (report_sent host e r).1.events ≡ frames r.1.events)
        × ((report_sent host e r).0 ≡ r.0)
  report_sent-frames e (sent_ok, s) = (emit_delivery-frames e sent s, refl)
  report_sent-frames e (unsupported, s) = (refl, refl)
  report_sent-frames e (limited, s) = (refl, refl)
  report_sent-frames e (send_failed, s) = (refl, refl)

  -- Sending an envelope adds at most one frame, with the envelope and on the message protocol. To
  -- another peer it adds it where it reports success; where it does not, it adds it only if a stream
  -- failed to close after its frame was written. Sending to the local peer adds none.
  pub send_envelope-frames :
      (peer : String) (e : WireEnvelope) (s : Session)
      → Adds host message_protocol
          (is_self s peer)
          (is_sent (send_envelope host peer e s).0)
          (record { peer = peer; protocol = message_protocol; payload = envelope_payload e })
          (frames s.events)
          (frames (send_envelope host peer e s).1.events)
  unfolding send_envelope
  send_envelope-frames peer e s =
      let r = send_payload host peer message_protocol (envelope_payload e) s in
      let k = report_sent-frames e r in
      let h = send_payload-frames peer message_protocol (envelope_payload e) s in rw (k.0, k.1) h
