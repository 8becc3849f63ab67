-- ===== src/Call/Sending.antt =====
-- The outgoing audio of a call: startOutgoingAudio, the recorder's callbacks, and the effect that a
-- render runs. A render follows each change of `call`.
use skypier_chat.Prelude.{
  ℕ, ◌+◌, String, ◌==◌, Bool, true, false, not, Option, none, some, [], ◌∷◌, ◌++◌, length, or_else,
  if◌then◌else◌, ltb,
}
use skypier_chat.Protocol.{AudioCallChunk, AudioCallEndReason, chunk}
use skypier_chat.Playback.{Bytes}
use skypier_chat.Call.{
  Store, Phone, ActiveAudioCall, LocalStream, Recorder, is_live_call, is_connected, finalize_call,
  stop_recorder, choose_recorder_mime_type,
}

abbrev pub is_recording : Option Recorder → Bool
is_recording none = false
is_recording (some recorder) = recorder.is_active

abbrev pub connected_call : Option ActiveAudioCall → Option ActiveAudioCall
connected_call none = none
connected_call (some c) = if is_connected c.phase then some c else none

-- A text that JavaScript takes for false gives way to the next.
abbrev pub first_text : String → String → String
first_text s t = if s == "" then t else s

-- recorder.ondataavailable, for data of the given size: the call whose audio is sent once the
-- data has been read, if any.
unfoldable pub data_available : ℕ → Store → Option ActiveAudioCall
data_available size s =
    if not s.outbound_enabled then none else if ltb 0 size then connected_call s.active else none

-- recorder.onerror
unfoldable pub recorder_failed : Store → Store
recorder_failed s =
    finalize_call (some AudioCallEndReason.error)
      (some "Microphone recorder failed during the call.") s

module _ (phone : Phone) where
  -- The recorder is made and started; what its constructor throws is passed on.
  abbrev pub make_recorder : Option String → Store → Option String × Store
  make_recorder (some fault) s = (some fault, s)
  make_recorder none s = (
    none,
    record s {
      outbound_sequence = 0;
      outbound_enabled = true;
      media_recorder = some (record {
        is_active = true;
        mime_type = phone.recorder_mime_type (choose_recorder_mime_type phone);
      });
    },
  )

  abbrev pub start_recorder : Store → Option String × Store
  start_recorder s =
      if not phone.has_recorder
      then (some "This browser does not support MediaRecorder audio streaming.", s)
      else if is_recording s.media_recorder
      then (none, s)
      else make_recorder phone.recorder_fault s

  abbrev pub start_over :
      Option ActiveAudioCall → Option LocalStream → Store → Option String × Store
  start_over none stream s = (none, s)
  start_over (some c) none s = (none, s)
  start_over (some c) (some stream) s = start_recorder s

  unfoldable pub start_outgoing_audio : Store → Option String × Store
  start_outgoing_audio s = start_over (connected_call s.active) s.local_stream s

  -- What the effect does with an error of startOutgoingAudio.
  abbrev pub after_start : Option String × Store → Store
  after_start (none, s) = s
  after_start (some text, s) = finalize_call (some AudioCallEndReason.error) (some text) s

  -- The effect of a render, on React's state.
  abbrev pub run_effect : Option ActiveAudioCall → Store → Store
  run_effect none s = stop_recorder s
  run_effect (some c) s =
      if is_connected c.phase
      then after_start (start_outgoing_audio s)
      else if is_live_call (some c)
      then s
      else stop_recorder s

  unfoldable pub render : Store → Store
  render s = run_effect s.call (record s { active = s.call })

  abbrev pub recorder_type : Option Recorder → String
  recorder_type none = ""
  recorder_type (some recorder) = recorder.mime_type

  abbrev pub chunk_of : ActiveAudioCall → Recorder → String → Bytes → Store → AudioCallChunk
  chunk_of c recorder type bytes s = record {
    kind = chunk;
    call_id = c.call_id;
    conversation_id = c.conversation_id;
    from_peer_id = or_else phone.local_peer_id "unknown";
    sent_at = some (phone.now s.ticks);
    sequence = s.outbound_sequence;
    mime_type = first_text type (
        first_text recorder.mime_type
          (first_text (or_else (choose_recorder_mime_type phone) "") "audio/webm;codecs=opus"));
    audio = some (phone.btoa bytes);
  }

  -- The data has been read: it is sent with the next number.
  unfoldable pub send_data : ActiveAudioCall → Recorder → String → Bytes → Store → Store
  send_data c recorder type bytes s =
      if ltb 0 (length bytes)
      then record s {
        sent_chunks = s.sent_chunks ++ (c.remote_peer_id, chunk_of c recorder type bytes s) ∷ [];
        outbound_sequence = s.outbound_sequence + 1;
        ticks = s.ticks + 1;
      }
      else s
