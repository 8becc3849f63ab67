-- ===== src/Call/Runs/Setup.antt =====
-- The recorder, the sounds and the pipeline under the operations of the user.
use skypier_chat.Prelude.{
  ◌+◌, String, ◌≡◌, refl, true, false, not, ◌&&◌, Option, none, some, truthy, is_some, arith,
  Bool-cases, inl, inr,
}
use skypier_chat.Protocol.{AudioCallEndReason}
use skypier_chat.Earcons.{CallEarconType}
use skypier_chat.Call.{
  Store, Phone, ActiveAudioCall, CallPhase, requesting_media, with_phase, set_call, stop_recorder,
  stop_local_audio, cleanup_playback, stop_outgoing_audio, mark_end, is_live_call, is_live,
  play_sound, stop_sounds,
}
use skypier_chat.Call.Signals.{without_error}
use skypier_chat.Call.Placing.{
  StartAudioCallOptions, Task, Answer, start_call, resume, fail_start, fail_accept, start_media,
  start_dial, start_offer, accept_media, accept_dial, accept_answer, reject_sent, mute_sent,
  fulfilled, failed, hold_stream, accept_current, reject_current, end_current, toggle_current,
  hang_up, mute_sound, enable_tracks, can_be_rejected, is_incoming, is_delivered, outgoing_call,
}
use skypier_chat.Call.Runs.Sounds.{
  IsSafe, finalize_call-IsSafe, hold_stream-IsSafe, mute_stream-IsSafe, if-IsSafe,
  play_sound-IsSafe, send_signal-IsSafe, signal_sound-IsSafe,
}

module _ (phone : Phone) where
  -- The operations of the user.
  pub fail_start-IsSafe :
      (text : String) (s : Store) → IsSafe s → IsSafe (fail_start phone text s).1
  unfolding fail_start
  fail_start-IsSafe text s h =
      finalize_call-IsSafe _ _ _ (play_sound-IsSafe phone CallEarconType.error false s h)

  pub fail_accept-IsSafe :
      (text : String) (s : Store) → IsSafe s → IsSafe (fail_accept phone text s).1
  unfolding fail_accept
  fail_accept-IsSafe text s h =
      finalize_call-IsSafe _ _ _ (signal_sound-IsSafe phone CallEarconType.error false s h)

  pub start-IsSafe :
      (options : StartAudioCallOptions) (s : Store)
      → IsSafe s
      → IsSafe (start_call phone options s).1
  unfolding start_call
  start-IsSafe options s h =
      let next = outgoing_call (phone.new_call_id s.ticks) options in
      let placed = record s { call = some next; start_call_abort = false; ticks = s.ticks + 1 } in
      let dialled = play_sound-IsSafe phone CallEarconType.dial false placed h in
      if-IsSafe (not (is_some (truthy phone.local_peer_id))) _ _ h (
        if-IsSafe (not phone.is_session_ready) _ _ h (
          if-IsSafe (is_live_call s.active) _ _ h
            (if-IsSafe phone.has_microphone _ _ dialled (fail_start-IsSafe _ _ dialled))))

  pub accept_current-IsSafe :
      (c : Option ActiveAudioCall) (s : Store) → IsSafe s → IsSafe (accept_current phone c s).1
  accept_current-IsSafe none s h = h
  accept_current-IsSafe (some c) s h =
      if-IsSafe (is_incoming c.direction) _ _
        (if-IsSafe phone.has_microphone _ _ h (
          fail_accept-IsSafe _ (set_call (λ v. without_error (with_phase requesting_media v)) s) h))
        h

  pub reject_current-IsSafe :
      (c : Option ActiveAudioCall) (reason : AudioCallEndReason) (s : Store)
      → IsSafe s
      → IsSafe (reject_current phone c reason s).1
  reject_current-IsSafe none reason s h = h
  reject_current-IsSafe (some c) reason s h =
      let quiet = signal_sound-IsSafe phone CallEarconType.reject false s h in
      if-IsSafe (is_incoming c.direction && can_be_rejected c.phase) _ _
        (send_signal-IsSafe phone c.remote_peer_id _ _ quiet) (finalize_call-IsSafe _ _ _ quiet)

  pub hang_up-IsSafe : (c : ActiveAudioCall) (s : Store) → IsSafe s → IsSafe (hang_up phone c s)
  hang_up-IsSafe c s h = elim (Bool-cases (is_live c.phase)) [
    | inl e ↦ simp e (send_signal-IsSafe phone c.remote_peer_id _ s h)
    | inr e ↦ simp e h
  ]

  -- Once the recorder has stopped the microphone and the pipeline can go.
  pub released-IsSafe :
      (s : Store)
      → s.outbound_enabled ≡ false
      → IsSafe s
      → IsSafe (record s { local_stream = none; playback_pipeline = none; call = none })
  released-IsSafe s e h = (ground (arith, e), h.1, tt)

  pub mark_end-stopped :
      (c : Option ActiveAudioCall) (s : Store)
      → (mark_end phone c s).outbound_enabled ≡ s.outbound_enabled
  mark_end-stopped none s = refl
  mark_end-stopped (some c) s = refl

  pub mark_end-IsSafe :
      (c : Option ActiveAudioCall) (s : Store) → IsSafe s → IsSafe (mark_end phone c s)
  mark_end-IsSafe none s h = h
  mark_end-IsSafe (some c) s h = h

  pub end_current-IsSafe :
      (c : Option ActiveAudioCall) (s : Store) → IsSafe s → IsSafe (end_current phone c s).1
  unfolding stop_outgoing_audio stop_recorder stop_local_audio cleanup_playback
  end_current-IsSafe none s h = h
  end_current-IsSafe (some c) s h =
      let quiet = record (play_sound phone CallEarconType.hangup false (stop_sounds s)) {
        start_call_abort = true;
      } in
      let hung =
        hang_up-IsSafe c quiet (signal_sound-IsSafe phone CallEarconType.hangup false s h) in
      let stopped = stop_recorder (hang_up phone c quiet) in
      released-IsSafe (mark_end phone stopped.active stopped)
        (mark_end-stopped stopped.active stopped)
        (mark_end-IsSafe stopped.active stopped (refl, hung.1, hung.2))

  pub toggle_current-IsSafe :
      (c : Option ActiveAudioCall) (s : Store) → IsSafe s → IsSafe (toggle_current phone c s).1
  toggle_current-IsSafe none s h = h
  toggle_current-IsSafe (some c) s h =
      let muted_s = record s {
        local_stream = enable_tracks (not (not c.is_muted)) s.local_stream;
      } in
      send_signal-IsSafe phone c.remote_peer_id _ _ (
        play_sound-IsSafe phone (mute_sound (not c.is_muted)) false muted_s
          (mute_stream-IsSafe (not (not c.is_muted)) s h))

  pub resume-IsSafe :
      (t : Task) (answer : Answer) (s : Store) → IsSafe s → IsSafe (resume phone t answer s).1
  unfolding resume
  resume-IsSafe (start_media c asked) (fulfilled b) s h =
      let held = hold_stream-IsSafe asked s h in
      if-IsSafe (hold_stream asked s).start_call_abort _ _ held held
  resume-IsSafe (start_media c asked) (failed text) s h = fail_start-IsSafe _ s h
  resume-IsSafe (start_dial c) (fulfilled b) s h =
      if-IsSafe s.start_call_abort _ _ h (send_signal-IsSafe phone c.remote_peer_id _ s h)
  resume-IsSafe (start_dial c) (failed text) s h = fail_start-IsSafe _ s h
  resume-IsSafe (start_offer c) (fulfilled b) s h = if-IsSafe s.start_call_abort _ _ h (
      if-IsSafe (is_delivered phone b) _ _
        (play_sound-IsSafe phone CallEarconType.ringing_outbound true
          (set_call (with_phase CallPhase.ringing) s) h)
        (fail_start-IsSafe "The remote peer is not reachable for call setup." s h))
  resume-IsSafe (start_offer c) (failed text) s h = fail_start-IsSafe _ s h
  resume-IsSafe (accept_media c asked) (fulfilled b) s h = hold_stream-IsSafe asked s h
  resume-IsSafe (accept_media c asked) (failed text) s h = fail_accept-IsSafe _ s h
  resume-IsSafe (accept_dial c) (fulfilled b) s h = send_signal-IsSafe phone c.remote_peer_id _ s h
  resume-IsSafe (accept_dial c) (failed text) s h = fail_accept-IsSafe _ s h
  resume-IsSafe (accept_answer c) (fulfilled b) s h =
      if-IsSafe (is_delivered phone b) _ _
        (signal_sound-IsSafe phone CallEarconType.connect false s h)
        (fail_accept-IsSafe "Could not confirm the call with the remote peer." s h)
  resume-IsSafe (accept_answer c) (failed text) s h = fail_accept-IsSafe _ s h
  resume-IsSafe (reject_sent reason) (fulfilled b) s h = finalize_call-IsSafe _ _ s h
  resume-IsSafe (reject_sent reason) (failed text) s h = h
  resume-IsSafe (mute_sent muted) (fulfilled b) s h = h
  resume-IsSafe (mute_sent muted) (failed text) s h = h
