-- ===== src/Call/Placing.antt =====
-- What the user does with a call: startCall, acceptCall, rejectCall, endCall, toggleMute and
-- dismissCall. An operation runs to its next await and leaves a `Task`; `resume` runs the task's
-- next part once what it awaits is settled. A failure carries the message of its Error, if it is
-- one.
use skypier_chat.Prelude.{
  ◌+◌, String, Bool, true, false, not, ◌&&◌, Option, none, some, or_else, truthy, is_some,
  if◌then◌else◌,
}
use skypier_chat.Protocol.{AudioCallSignal, AudioCallSignalType, AudioCallEndReason, CallDirection}
use skypier_chat.Earcons.{CallEarconType}
use skypier_chat.Call.{
  Store, Phone, ActiveAudioCall, CallPhase, LocalStream, requesting_media, connecting, set_call,
  with_phase, is_live_call, stop_sounds, play_sound, send_signal, plain_signal, finalize_call,
  stop_recorder, stop_local_audio, cleanup_playback, stop_outgoing_audio, default_media_profile,
  is_live,
}
use skypier_chat.Call.Signals.{connect_call, without_error}

pub record StartAudioCallOptions : Type 0 where
  pub conversation_id : String
  pub remote_peer_id : String
  pub remote_display_name : String

-- What an operation awaits, with what its next part uses. The Boolean of a task that awaits the
-- microphone says whether it asked for it, or has its stream already.
pub data Task : Type 0 where
  start_media : ActiveAudioCall → Bool → Task
  start_dial start_offer : ActiveAudioCall → Task
  accept_media : ActiveAudioCall → Bool → Task
  accept_dial accept_answer : ActiveAudioCall → Task
  reject_sent : AudioCallEndReason → Task
  mute_sent : Bool → Task

-- How what a task awaits is settled; the Boolean is that of a send.
pub data Answer : Type 0 where
  fulfilled : Bool → Answer
  failed : Option String → Answer

pub data Outcome : Type 0 where
  returned : Bool → Outcome
  threw : String → Outcome
  waits : Task → Outcome

abbrev pub outgoing_call : String → StartAudioCallOptions → ActiveAudioCall
outgoing_call call_id options = record {
  call_id = call_id;
  conversation_id = options.conversation_id;
  remote_peer_id = options.remote_peer_id;
  remote_display_name = options.remote_display_name;
  direction = CallDirection.outgoing;
  phase = requesting_media;
  is_muted = false;
  remote_muted = false;
  started_at = none;
  error = none;
  ended_reason = none;
  media_profile = default_media_profile;
}

abbrev pub is_incoming : CallDirection → Bool
is_incoming CallDirection.incoming = true
is_incoming CallDirection.outgoing = false

-- ['incoming', 'requesting-media', 'connecting'].includes(phase)
abbrev pub can_be_rejected : CallPhase → Bool
can_be_rejected CallPhase.incoming = true
can_be_rejected requesting_media = true
can_be_rejected connecting = true
can_be_rejected _ = false

-- The stream that getUserMedia gave, where it was asked.
abbrev pub hold_stream : Bool → Store → Store
hold_stream asked s =
    if asked then record s { local_stream = some (record { enabled = true }) } else s

unfoldable pub dismiss_call : Store → Store
dismiss_call s = record (cleanup_playback (stop_local_audio (stop_recorder s))) { call = none }

-- `if (startCallAbortRef.current) return false`
abbrev pub unless_aborted : Outcome × Store → Store → Outcome × Store
unless_aborted go s = if s.start_call_abort then (returned false, s) else go

abbrev pub offer_of : ActiveAudioCall → AudioCallSignal
offer_of c = record (plain_signal AudioCallSignalType.offer c.call_id c.conversation_id) {
  media_profile = some default_media_profile;
}

abbrev pub accept_of : ActiveAudioCall → AudioCallSignal
accept_of c = record (plain_signal AudioCallSignalType.accept c.call_id c.conversation_id) {
  media_profile = some c.media_profile;
}

abbrev pub reject_of : AudioCallEndReason → ActiveAudioCall → AudioCallSignal
reject_of reason c = record (plain_signal AudioCallSignalType.reject c.call_id c.conversation_id) {
  reason = some reason;
}

abbrev pub hangup_of : ActiveAudioCall → AudioCallSignal
hangup_of c = record (plain_signal AudioCallSignalType.hangup c.call_id c.conversation_id) {
  reason = some AudioCallEndReason.hangup;
}

abbrev pub enable_tracks : Bool → Option LocalStream → Option LocalStream
enable_tracks enabled none = none
enable_tracks enabled (some stream) = some (record { enabled = enabled })

abbrev pub mute_sound : Bool → CallEarconType
mute_sound true = CallEarconType.mute_on
mute_sound false = CallEarconType.mute_off

abbrev pub with_muted : Bool → ActiveAudioCall → ActiveAudioCall
with_muted muted v = record v { is_muted = muted }

abbrev pub mute_of : Bool → ActiveAudioCall → AudioCallSignal
mute_of muted c = record (plain_signal AudioCallSignalType.mute c.call_id c.conversation_id) {
  muted = some muted;
}

module _ (phone : Phone) where
  -- The catch blocks of startCall and acceptCall.
  unfoldable pub fail_start : String → Store → Outcome × Store
  fail_start text s = (
    threw text,
    finalize_call (some AudioCallEndReason.error) (some text)
        (play_sound phone CallEarconType.error false s),
  )

  unfoldable pub fail_accept : String → Store → Outcome × Store
  fail_accept text s = (
    returned false,
    finalize_call (some AudioCallEndReason.error) (some text)
        (play_sound phone CallEarconType.error false (stop_sounds s)),
  )

  -- acquireLocalAudio up to its await.
  abbrev pub acquire : (Bool → Task) → (String → Store → Outcome × Store) → Store → Outcome × Store
  acquire task fail s =
      if phone.has_microphone
      then (waits (task (not (is_some s.local_stream))), s)
      else fail "This browser does not support microphone capture." s

  unfoldable pub start_call : StartAudioCallOptions → Store → Outcome × Store
  start_call options s =
      let next_call = outgoing_call (phone.new_call_id s.ticks) options in
      if not (is_some (truthy phone.local_peer_id))
      then (threw "Local peer identity is not ready yet.", s)
      else if not phone.is_session_ready
      then (threw "Live session is not connected yet.", s)
      else if is_live_call s.active
      then (threw "Finish the current call before starting another one.", s)
      else acquire (start_media next_call) fail_start (
          play_sound phone CallEarconType.dial false
            (record s { call = some next_call; start_call_abort = false; ticks = s.ticks + 1 }))

  abbrev pub start_connecting : ActiveAudioCall → Store → Outcome × Store
  start_connecting c s =
      unless_aborted
        (waits (start_dial c), set_call (λ v. without_error (with_phase connecting v)) s) s

  abbrev pub start_offering : ActiveAudioCall → Store → Outcome × Store
  start_offering c s =
      unless_aborted (waits (start_offer c), send_signal phone c.remote_peer_id (offer_of c) s) s

  -- Without a local peer the signal was not sent.
  abbrev pub is_delivered : Bool → Bool
  is_delivered delivered = is_some (truthy phone.local_peer_id) && delivered

  abbrev pub start_ringing : Bool → Store → Outcome × Store
  start_ringing delivered s =
      unless_aborted
        (if is_delivered delivered
          then (
            returned true,
            play_sound phone CallEarconType.ringing_outbound true
                (set_call (with_phase CallPhase.ringing) s),
          )
          else fail_start "The remote peer is not reachable for call setup." s)
        s

  abbrev pub accept_current : Option ActiveAudioCall → Store → Outcome × Store
  accept_current none s = (returned false, s)
  accept_current (some c) s =
      if is_incoming c.direction
      then acquire (accept_media c) fail_accept
          (set_call (λ v. without_error (with_phase requesting_media v)) s)
      else (returned false, s)

  unfoldable pub accept_call : Store → Outcome × Store
  accept_call s = accept_current s.active s

  abbrev pub accept_connected : Bool → Store → Outcome × Store
  accept_connected delivered s =
      if is_delivered delivered
      then (
        returned true,
        connect_call phone (play_sound phone CallEarconType.connect false (stop_sounds s)),
      )
      else fail_accept "Could not confirm the call with the remote peer." s

  abbrev pub reject_current : Option ActiveAudioCall → AudioCallEndReason → Store → Outcome × Store
  reject_current none reason s = (returned false, s)
  reject_current (some c) reason s =
      let quiet = play_sound phone CallEarconType.reject false (stop_sounds s) in
      if is_incoming c.direction && can_be_rejected c.phase
      then (
        waits (reject_sent reason),
        send_signal phone c.remote_peer_id (reject_of reason c) quiet,
      )
      else (returned true, finalize_call (some reason) none quiet)

  unfoldable pub reject_call : AudioCallEndReason → Store → Outcome × Store
  reject_call reason s = reject_current s.active reason s

  abbrev pub hang_up : ActiveAudioCall → Store → Store
  hang_up c s = if is_live c.phase then send_signal phone c.remote_peer_id (hangup_of c) s else s

  abbrev pub end_current : Option ActiveAudioCall → Store → Outcome × Store
  end_current none s = (returned false, s)
  end_current (some c) s =
      let quiet = play_sound phone CallEarconType.hangup false (stop_sounds s) in
      (
        returned true,
        record (cleanup_playback (
            stop_local_audio (
              stop_outgoing_audio phone true
                (hang_up c (record quiet { start_call_abort = true }))))) { call = none },
      )

  unfoldable pub end_call : Store → Outcome × Store
  end_call s = end_current s.active s

  abbrev pub toggle_current : Option ActiveAudioCall → Store → Outcome × Store
  toggle_current none s = (returned false, s)
  toggle_current (some c) s =
      let next_muted = not c.is_muted in
      (
        waits (mute_sent next_muted),
        send_signal phone c.remote_peer_id (mute_of next_muted c) (
            set_call (with_muted next_muted) (
              play_sound phone (mute_sound next_muted) false
                (record s { local_stream = enable_tracks (not next_muted) s.local_stream }))),
      )

  unfoldable pub toggle_mute : Store → Outcome × Store
  toggle_mute s = toggle_current s.active s

  -- The next part of a task.
  unfoldable pub resume : Task → Answer → Store → Outcome × Store
  resume (start_media c asked) (fulfilled b) s = start_connecting c (hold_stream asked s)
  resume (start_media c asked) (failed text) s =
      fail_start (or_else text "Unable to start the call.") s
  resume (start_dial c) (fulfilled b) s = start_offering c s
  resume (start_dial c) (failed text) s = fail_start (or_else text "Unable to start the call.") s
  resume (start_offer c) (fulfilled b) s = start_ringing b s
  resume (start_offer c) (failed text) s = fail_start (or_else text "Unable to start the call.") s
  resume (accept_media c asked) (fulfilled b) s =
      (waits (accept_dial c), set_call (with_phase connecting) (hold_stream asked s))
  resume (accept_media c asked) (failed text) s =
      fail_accept (or_else text "Unable to answer the call.") s
  resume (accept_dial c) (fulfilled b) s =
      (waits (accept_answer c), send_signal phone c.remote_peer_id (accept_of c) s)
  resume (accept_dial c) (failed text) s = fail_accept (or_else text "Unable to answer the call.") s
  resume (accept_answer c) (fulfilled b) s = accept_connected b s
  resume (accept_answer c) (failed text) s =
      fail_accept (or_else text "Unable to answer the call.") s
  resume (reject_sent reason) (fulfilled b) s = (returned true, finalize_call (some reason) none s)
  resume (reject_sent reason) (failed text) s = (threw (or_else text ""), s)
  resume (mute_sent muted) (fulfilled b) s = (returned muted, s)
  resume (mute_sent muted) (failed text) s = (threw (or_else text ""), s)
