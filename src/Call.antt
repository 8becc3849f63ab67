-- ===== src/Call.antt =====
-- The audio calls of apps/web/src/hooks/useAudioCall.ts. A `Store` holds the hook's state and its
-- references; `call` is React's state and `active` the reference that a render brings up to date.
-- `Phone` stands for the hook's options, the clock and the browser; `recorder_fault` is what the
-- constructor of a MediaRecorder throws, if it does.
pub mod Sending
pub mod Receiving
pub mod Signals
pub mod Placing
pub mod Runs
pub mod Failures
mod Tests
use skypier_chat.Prelude.{
  ℕ, zero, suc, ◌+◌, String, Bool, true, false, not, ◌&&◌, Option, none, some, List, [], ◌∷◌, ◌++◌,
  or_else, truthy, is_some, select, if◌then◌else◌,
}
use skypier_chat.Protocol.{
  AudioCallSignal, AudioCallSignalType, AudioCallEndReason, AudioCallMediaProfile, AudioCallChunk,
  AudioCallChunkKind, CallDirection, Timestamp, end,
}
use skypier_chat.Playback.{Bytes, Media, Pipeline}
use skypier_chat.Earcons.{Earcons, Audio, CallEarconType, stop_looping, play_earcon}

pub data CallPhase : Type 0 where
  requesting_media incoming ringing connecting connected ended error : CallPhase

pub record ActiveAudioCall : Type 0 where
  pub call_id : String
  pub conversation_id : String
  pub remote_peer_id : String
  pub remote_display_name : String
  pub direction : CallDirection
  pub phase : CallPhase
  pub is_muted : Bool
  pub remote_muted : Bool
  pub started_at : Option Timestamp
  pub error : Option String
  pub ended_reason : Option AudioCallEndReason
  pub media_profile : AudioCallMediaProfile

-- The microphone's stream: whether its audio tracks are enabled.
pub record LocalStream : Type 0 where
  pub enabled : Bool

pub record Recorder : Type 0 where
  pub is_active : Bool
  pub mime_type : String

-- `sent_signals` and `sent_chunks` are the calls of sendAudioCallSignal and sendAudioCallChunk with
-- their targets; `ticks` counts the readings of the clock and the identifiers made.
pub record Store : Type 0 where
  pub call : Option ActiveAudioCall
  pub active : Option ActiveAudioCall
  pub local_stream : Option LocalStream
  pub media_recorder : Option Recorder
  pub playback_pipeline : Option Pipeline
  pub outbound_sequence : ℕ
  pub outbound_enabled : Bool
  pub start_call_abort : Bool
  pub earcons : Earcons
  pub sent_signals : List (String × AudioCallSignal)
  pub sent_chunks : List (String × AudioCallChunk)
  pub ticks : ℕ

pub record Phone : Type 0 where
  pub local_peer_id : Option String
  pub is_session_ready : Bool
  pub has_microphone : Bool
  pub has_recorder : Bool
  pub is_recordable : String → Bool
  pub recorder_mime_type : Option String → String
  pub has_media_source : Bool
  pub recorder_fault : Option String
  pub now : ℕ → Timestamp
  pub new_call_id : ℕ → String
  pub atob : String → Option Bytes
  pub btoa : Bytes → String
  pub media : Media
  pub audio : Audio

abbrev pub default_media_profile : AudioCallMediaProfile
default_media_profile = record { sample_rate_hz = 48000; channels = 1; ptime_ms = 20 }

-- !['ended', 'error'].includes(phase)
abbrev pub is_live : CallPhase → Bool
is_live requesting_media = true
is_live CallPhase.incoming = true
is_live CallPhase.ringing = true
is_live connecting = true
is_live connected = true
is_live ended = false
is_live CallPhase.error = false

abbrev pub is_connected : CallPhase → Bool
is_connected connected = true
is_connected _ = false

abbrev pub is_live_call : Option ActiveAudioCall → Bool
is_live_call none = false
is_live_call (some c) = is_live c.phase

-- setCall((value) => value ? { ...value, changes } : value)
abbrev pub change :
    (ActiveAudioCall → ActiveAudioCall) → Option ActiveAudioCall → Option ActiveAudioCall
change f none = none
change f (some c) = some (f c)

abbrev pub set_call : (ActiveAudioCall → ActiveAudioCall) → Store → Store
set_call f s = record s { call = change f s.call }

abbrev pub with_phase : CallPhase → ActiveAudioCall → ActiveAudioCall
with_phase phase c = record c { phase = phase }

abbrev pub connected_at : Timestamp → ActiveAudioCall → ActiveAudioCall
connected_at now c = record c { phase = connected; started_at = some (or_else c.started_at now) }

abbrev pub stop_sounds : Store → Store
stop_sounds s = record s { earcons = stop_looping s.earcons }

unfoldable pub stop_local_audio : Store → Store
stop_local_audio s = record s { local_stream = none }

unfoldable pub cleanup_playback : Store → Store
cleanup_playback s = record s { playback_pipeline = none }

-- stopOutgoingAudio(false)
unfoldable pub stop_recorder : Store → Store
stop_recorder s = record s { outbound_enabled = false; media_recorder = none }

abbrev pub finished_call :
    Option AudioCallEndReason → Option String → ActiveAudioCall → ActiveAudioCall
finished_call reason none c = record c { phase = ended; ended_reason = reason; error = none }
finished_call reason (some text) c = record c {
  phase = if is_some (truthy (some text)) then CallPhase.error else ended;
  ended_reason = reason;
  error = some text;
}

unfoldable pub finalize_call : Option AudioCallEndReason → Option String → Store → Store
finalize_call reason text s = set_call (finished_call reason text) (
    stop_sounds
      (cleanup_playback (stop_local_audio (stop_recorder (record s { start_call_abort = true })))))

-- A signal without the fields that sendSignal adds.
abbrev pub plain_signal : AudioCallSignalType → String → String → AudioCallSignal
plain_signal type call_id conversation_id = record {
  type = type;
  call_id = call_id;
  conversation_id = conversation_id;
  from_peer_id = "";
  sent_at = none;
  media_profile = none;
  muted = none;
  reason = none;
}

module _ (phone : Phone) where
  abbrev pub play_sound : CallEarconType → Bool → Store → Store
  play_sound type loop s = record s { earcons = play_earcon phone.audio type loop s.earcons }

  -- PREFERRED_RECORDER_MIME_TYPES.find(...)
  unfoldable pub choose_recorder_mime_type : Option String
  choose_recorder_mime_type =
      if not phone.has_recorder
      then none
      else if phone.is_recordable "audio/webm;codecs=opus"
      then some "audio/webm;codecs=opus"
      else if phone.is_recordable "audio/webm"
      then some "audio/webm"
      else none

  abbrev pub send_signal_as : Option String → String → AudioCallSignal → Store → Store
  send_signal_as none target signal s = s
  send_signal_as (some peer) target signal s =
      let complete = record signal { from_peer_id = peer; sent_at = some (phone.now s.ticks) } in
      record s { sent_signals = s.sent_signals ++ (target, complete) ∷ []; ticks = s.ticks + 1 }

  unfoldable pub send_signal : String → AudioCallSignal → Store → Store
  send_signal target signal s = send_signal_as (truthy phone.local_peer_id) target signal s

  abbrev pub end_marker : ActiveAudioCall → Store → AudioCallChunk
  end_marker c s = record {
    kind = end;
    call_id = c.call_id;
    conversation_id = c.conversation_id;
    from_peer_id = or_else phone.local_peer_id "unknown";
    sent_at = some (phone.now s.ticks);
    sequence = s.outbound_sequence;
    mime_type = or_else choose_recorder_mime_type "audio/webm;codecs=opus";
    audio = none;
  }

  abbrev pub mark_end : Option ActiveAudioCall → Store → Store
  mark_end none s = s
  mark_end (some c) s = record s {
    sent_chunks = s.sent_chunks ++ (c.remote_peer_id, end_marker c s) ∷ [];
    ticks = s.ticks + 1;
  }

  unfoldable pub stop_outgoing_audio : Bool → Store → Store
  stop_outgoing_audio send_end_marker s =
      let stopped = stop_recorder s in
      if send_end_marker then mark_end stopped.active stopped else stopped
