-- ===== src/Call/Tests.antt =====
-- Calls with a peer, on a phone with a microphone.
use skypier_chat.Prelude.{String, ◌≡◌, refl, true, false, Option, none, some, List, [], ◌∷◌}
use skypier_chat.Protocol.{AudioCallSignal, AudioCallSignalType, CallDirection}
use skypier_chat.Earcons.{stop_looping, Earcons, ContextState}
use skypier_chat.Call.{
  Store, Phone, ActiveAudioCall, CallPhase, connecting, connected, default_media_profile,
  plain_signal, finalize_call, stop_recorder, stop_local_audio, cleanup_playback,
}
use skypier_chat.Call.Sending.{render}
use skypier_chat.Call.Signals.{handle_incoming_signal, handle_same_call}
use skypier_chat.Call.Placing.{
  Task, StartAudioCallOptions, fulfilled, start_dial, start_media, accept_answer, resume,
}
use skypier_chat.Call.Runs.{World, Happening, run, happen, ends, hears, settles, renders}
use skypier_chat.Call.Runs.Same.{IsSameOrGone}
use skypier_chat.Call.Runs.Kept.{run-SameOrGone}
use skypier_chat.Call.Failures.{IsHolding, end_call-holds_microphone}

abbrev phone : Phone
phone = record {
  local_peer_id = some "me";
  is_session_ready = true;
  has_microphone = true;
  has_recorder = true;
  is_recordable = λ type. true;
  recorder_mime_type = λ type. "audio/webm";
  has_media_source = true;
  recorder_fault = none;
  now = λ n. n;
  new_call_id = λ n. "call-1";
  atob = λ text. some (7 ∷ []);
  btoa = λ bytes. "Bw==";
  media = record {
    is_type_supported = λ type. true;
    add_source_buffer = λ type. true;
    append_buffer = λ n. true;
  };
  audio = record { is_available = true; new_state = ContextState.running };
}

abbrev silent : Earcons
silent = record {
  shared_audio_context = some ContextState.running;
  audio_unlocked = true;
  ring_interval = false;
  ringing_outbound_interval = false;
  busy_interval = false;
  resuming = [];
  played = [];
}

abbrev call_in : CallDirection → CallPhase → ActiveAudioCall
call_in direction phase = record {
  call_id = "call-1";
  conversation_id = "talk";
  remote_peer_id = "bob";
  remote_display_name = "Bob";
  direction = direction;
  phase = phase;
  is_muted = false;
  remote_muted = false;
  started_at = none;
  error = none;
  ended_reason = none;
  media_profile = default_media_profile;
}

abbrev store_with : Option ActiveAudioCall → Store
store_with c = record {
  call = c;
  active = c;
  local_stream = none;
  media_recorder = none;
  playback_pipeline = none;
  outbound_sequence = 0;
  outbound_enabled = false;
  start_call_abort = false;
  earcons = silent;
  sent_signals = [];
  sent_chunks = [];
  ticks = 0;
}

abbrev dialling : ActiveAudioCall
dialling = call_in CallDirection.outgoing connecting

abbrev world_with : ActiveAudioCall → Task → World
world_with c t = record { store = store_with (some c); tasks = t ∷ []; reads = [] }

abbrev signal_of : AudioCallSignalType → String → AudioCallSignal
signal_of type call_id = plain_signal type call_id "talk"

abbrev hear : AudioCallSignalType → String → Happening
hear type call_id = hears "bob" "Bob" (signal_of type call_id)

-- The remote peer is busy, and the call is closed before its dialling ends.
abbrev closing : List Happening
closing = hear AudioCallSignalType.busy "call-1" ∷ ends ∷ settles 0 (fulfilled true) ∷ []

run-SameOrGone_example :
    IsSameOrGone
      (some dialling)
      (run phone closing (world_with dialling (start_dial dialling))).store.call
run-SameOrGone_example =
    run-SameOrGone phone closing (world_with dialling (start_dial dialling)) (refl, (tt, (tt, tt)))

abbrev second_options : StartAudioCallOptions
second_options = record {
  conversation_id = "talk";
  remote_peer_id = "cy";
  remote_display_name = "Cy";
}

end_call-holds_microphone_example : IsHolding (
    run phone
      (ends ∷ settles 0 (fulfilled true) ∷ [])
      (world_with dialling (start_media dialling true)))
end_call-holds_microphone_example =
    end_call-holds_microphone phone dialling dialling true (store_with (some dialling)) [] refl

-- The looping tone for a busy peer is stopped as soon as it has been started.
busy_tone_stops :
    (happen phone
      (hear AudioCallSignalType.busy "call-1")
      (world_with dialling (start_dial dialling))).store.earcons.busy_interval
    ≡ false
unfolding handle_incoming_signal handle_same_call finalize_call stop_looping
busy_tone_stops = refl

-- The peer hangs up while the answer is being sent; the answer's end brings the call back.
abbrev answered : ActiveAudioCall
answered = call_in CallDirection.incoming connecting

abbrev phase_of : Option ActiveAudioCall → Option CallPhase
phase_of none = none
phase_of (some c) = some c.phase

hangup_undone :
    phase_of
      (run phone
        (hear AudioCallSignalType.hangup "call-1" ∷ renders ∷ settles 0 (fulfilled true) ∷ [])
        (world_with answered (accept_answer answered))).store.call
    ≡ some connected
unfolding handle_incoming_signal handle_same_call finalize_call render resume stop_recorder
    stop_local_audio cleanup_playback
hangup_undone = refl
