-- ===== src/Call/Receiving.antt =====
-- The incoming audio of a call: ensurePlaybackPipeline and handleIncomingAudioChunk.
use skypier_chat.Prelude.{
  ℕ, String, ◌==◌, Bool, false, ◌&&◌, Option, none, some, truthy, if◌then◌else◌,
}
use skypier_chat.Protocol.{AudioCallChunk, AudioCallChunkKind, chunk, end}
use skypier_chat.Playback.{Bytes, Pipeline, new_pipeline, handle_end, handle_chunk}
use skypier_chat.Call.{Store, Phone, ActiveAudioCall, cleanup_playback}

abbrev pub is_call : String → Option ActiveAudioCall → Bool
is_call call_id none = false
is_call call_id (some c) = c.call_id == call_id

-- The pipeline of the given call, where it is the one there.
abbrev pub pipeline_of : String → Option Pipeline → Option Pipeline
pipeline_of call_id none = none
pipeline_of call_id (some p) = if p.call_id == call_id then some p else none

module _ (phone : Phone) where
  abbrev pub make_pipeline : String → String → Store → Option Pipeline × Store
  make_pipeline call_id mime_type s =
      let p = new_pipeline call_id mime_type in
      if phone.has_media_source && phone.media.is_type_supported mime_type
      then (some p, record s { playback_pipeline = some p })
      else (none, s)

  abbrev pub ensure_as : Option Pipeline → String → String → Store → Option Pipeline × Store
  ensure_as (some p) call_id mime_type s = (some p, s)
  ensure_as none call_id mime_type s = make_pipeline call_id mime_type (cleanup_playback s)

  unfoldable pub ensure_playback_pipeline : String → String → Store → Option Pipeline × Store
  ensure_playback_pipeline call_id mime_type s =
      ensure_as (pipeline_of call_id s.playback_pipeline) call_id mime_type s

  abbrev pub with_pipeline : Pipeline → Store → Store
  with_pipeline p s = record s { playback_pipeline = some p }

  -- The bytes of the chunk; where `atob` throws, the handler ends there.
  abbrev pub play_bytes : Option Bytes → ℕ → Pipeline → Store → Store
  play_bytes none n p s = s
  play_bytes (some bytes) n p s = with_pipeline (handle_chunk phone.media n bytes p) s

  abbrev pub play_data : Option String → ℕ → Pipeline → Store → Store
  play_data none n p s = s
  play_data (some text) n p s = play_bytes (phone.atob text) n p s

  abbrev pub play_kind : AudioCallChunkKind → AudioCallChunk → Pipeline → Store → Store
  play_kind end c p s = with_pipeline (handle_end phone.media p) s
  play_kind chunk c p s = play_data (truthy c.audio) c.sequence p s

  abbrev pub play_on : AudioCallChunk → Option Pipeline × Store → Store
  play_on c (none, s) = s
  play_on c (some p, s) = play_kind c.kind c p s

  unfoldable pub handle_incoming_audio_chunk : AudioCallChunk → Store → Store
  handle_incoming_audio_chunk c s =
      if is_call c.call_id s.active
      then play_on c (ensure_playback_pipeline c.call_id c.mime_type s)
      else s
