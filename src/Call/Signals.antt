-- ===== src/Call/Signals.antt =====
-- handleIncomingSignal: what a signal of the remote peer does.
use skypier_chat.Prelude.{
  ◌+◌, String, Bool, true, false, not, ◌&&◌, Option, none, some, or_else, if◌then◌else◌,
}
use skypier_chat.Protocol.{
  AudioCallSignal, AudioCallSignalType, AudioCallEndReason, CallDirection, declined,
}
use skypier_chat.Earcons.{CallEarconType}
use skypier_chat.Call.{
  Store, Phone, ActiveAudioCall, CallPhase, set_call, with_phase, connected_at, is_live_call,
  stop_sounds, play_sound, send_signal, plain_signal, finalize_call, default_media_profile,
}
use skypier_chat.Call.Receiving.{is_call}

-- Another call is under way than the one of the offer.
abbrev pub is_busy : String → Option ActiveAudioCall → Bool
is_busy call_id active = is_live_call active && not (is_call call_id active)

abbrev pub incoming_call : String → String → AudioCallSignal → ActiveAudioCall
incoming_call from_peer_id remote_display_name signal = record {
  call_id = signal.call_id;
  conversation_id = signal.conversation_id;
  remote_peer_id = from_peer_id;
  remote_display_name = remote_display_name;
  direction = CallDirection.incoming;
  phase = CallPhase.incoming;
  is_muted = false;
  remote_muted = false;
  started_at = none;
  error = none;
  ended_reason = none;
  media_profile = or_else signal.media_profile default_media_profile;
}

abbrev pub without_error : ActiveAudioCall → ActiveAudioCall
without_error c = record c { error = none }

abbrev pub with_remote_muted : Bool → ActiveAudioCall → ActiveAudioCall
with_remote_muted muted c = record c { remote_muted = muted }

abbrev pub is_offer : AudioCallSignalType → Bool
is_offer AudioCallSignalType.offer = true
is_offer _ = false

module _ (phone : Phone) where
  -- A reading of the clock counts also where the call has started before, which nothing observes.
  abbrev pub connect_call : Store → Store
  connect_call s = record (set_call (connected_at (phone.now s.ticks)) s) { ticks = s.ticks + 1 }

  unfoldable pub handle_offer : String → String → AudioCallSignal → Store → Store
  handle_offer from_peer_id remote_display_name signal s =
      let signal_of : AudioCallSignalType → AudioCallSignal =
        λ type. plain_signal type signal.call_id signal.conversation_id in
      if is_busy signal.call_id s.active
      then send_signal phone from_peer_id
          (record (signal_of AudioCallSignalType.busy) { reason = some AudioCallEndReason.busy }) s
      else send_signal phone from_peer_id (signal_of AudioCallSignalType.ringing) (
          play_sound phone CallEarconType.ring true
            (record s { call = some (incoming_call from_peer_id remote_display_name signal) }))

  -- A signal of the call that is there.
  unfoldable pub handle_same_call : AudioCallSignalType → AudioCallSignal → Store → Store
  handle_same_call AudioCallSignalType.offer signal s = s
  handle_same_call AudioCallSignalType.ringing signal s = set_call (with_phase CallPhase.ringing) s
  handle_same_call AudioCallSignalType.accept signal s =
      set_call without_error
        (connect_call (play_sound phone CallEarconType.connect false (stop_sounds s)))
  handle_same_call AudioCallSignalType.reject signal s =
      finalize_call (some (or_else signal.reason declined)) none
        (play_sound phone CallEarconType.reject false (stop_sounds s))
  handle_same_call AudioCallSignalType.busy signal s =
      finalize_call (some AudioCallEndReason.busy) none
        (play_sound phone CallEarconType.busy true (stop_sounds s))
  handle_same_call AudioCallSignalType.hangup signal s =
      finalize_call (some (or_else signal.reason AudioCallEndReason.hangup)) none
        (play_sound phone CallEarconType.hangup false (stop_sounds s))
  handle_same_call AudioCallSignalType.mute signal s =
      set_call (with_remote_muted (or_else signal.muted false)) s

  unfoldable pub handle_incoming_signal : String → String → AudioCallSignal → Store → Store
  handle_incoming_signal from_peer_id remote_display_name signal s =
      if is_offer signal.type
      then handle_offer from_peer_id remote_display_name signal s
      else if is_call signal.call_id s.active
      then handle_same_call signal.type signal s
      else s
