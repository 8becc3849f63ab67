-- ===== src/Call/Runs/Streams.antt =====
-- The recorder, the sounds and the pipeline under chunks and renders.
use skypier_chat.Prelude.{
  ℕ, String, ◌≡◌, refl, true, ◌&&◌, ◌==◌, Option, none, some, truthy, is_some, arith, Bool-cases,
  inl, inr,
}
use skypier_chat.Protocol.{AudioCallChunk, AudioCallChunkKind, chunk, end}
use skypier_chat.Playback.{Bytes, Pipeline, marked_end, arrived}
use skypier_chat.Playback.Drained.{IsSound}
use skypier_chat.Playback.Bounds.{on_event-IsSound, new_pipeline-IsSound}
use skypier_chat.Call.{
  Store, Phone, ActiveAudioCall, LocalStream, stop_recorder, cleanup_playback, is_connected,
  is_live,
}
use skypier_chat.Call.Sending.{
  is_recording, render, run_effect, start_outgoing_audio, start_over, make_recorder, after_start,
  connected_call,
}
use skypier_chat.Call.Receiving.{
  is_call, handle_incoming_audio_chunk, ensure_playback_pipeline, ensure_as, pipeline_of, play_on,
  play_kind, play_data, play_bytes,
}
use skypier_chat.Call.Runs.Sounds.{HasSound, IsSafe, finalize_call-IsSafe}

module _ (phone : Phone) where
  -- The pipeline of a chunk.
  pub play_bytes-IsSafe :
      (o : Option Bytes) (n : ℕ) (p : Pipeline) (s : Store)
      → IsSound p
      → IsSafe s
      → IsSafe (play_bytes phone o n p s)
  play_bytes-IsSafe none n p s sound h = h
  play_bytes-IsSafe (some bytes) n p s sound h =
      (h.0, h.1, on_event-IsSound phone.media (arrived n bytes) p sound)

  pub play_data-IsSafe :
      (o : Option String) (n : ℕ) (p : Pipeline) (s : Store)
      → IsSound p
      → IsSafe s
      → IsSafe (play_data phone o n p s)
  play_data-IsSafe none n p s sound h = h
  play_data-IsSafe (some text) n p s sound h = play_bytes-IsSafe (phone.atob text) n p s sound h

  pub play_kind-IsSafe :
      (kind : AudioCallChunkKind) (c : AudioCallChunk) (p : Pipeline) (s : Store)
      → IsSound p
      → IsSafe s
      → IsSafe (play_kind phone kind c p s)
  play_kind-IsSafe end c p s sound h = (h.0, h.1, on_event-IsSound phone.media marked_end p sound)
  play_kind-IsSafe chunk c p s sound h = play_data-IsSafe (truthy c.audio) c.sequence p s sound h

  pub play_on-IsSafe :
      (c : AudioCallChunk) (answer : Option Pipeline × Store)
      → HasSound answer.0
      → IsSafe answer.1
      → IsSafe (play_on phone c answer)
  play_on-IsSafe c (none, s) sound h = h
  play_on-IsSafe c (some p, s) sound h = play_kind-IsSafe c.kind c p s sound h

  pub pipeline_of-HasSound :
      (call_id : String) (o : Option Pipeline) → HasSound o → HasSound (pipeline_of call_id o)
  pipeline_of-HasSound call_id none h = tt
  pipeline_of-HasSound call_id (some p) h = elim (Bool-cases (p.call_id == call_id)) [
    | inl e ↦ simp e h
    | inr e ↦ simp e tt
  ]

  pub ensure_as-IsSafe :
      (o : Option Pipeline) (call_id mime_type : String) (s : Store)
      → HasSound o
      → IsSafe s
      → HasSound (ensure_as phone o call_id mime_type s).0
        × IsSafe (ensure_as phone o call_id mime_type s).1
  unfolding cleanup_playback
  ensure_as-IsSafe (some p) call_id mime_type s sound h = (sound, h)
  ensure_as-IsSafe none call_id mime_type s sound h =
      let fresh = new_pipeline-IsSound call_id mime_type in
      elim (Bool-cases (phone.has_media_source && phone.media.is_type_supported mime_type)) [
        | inl e ↦ simp e ((fresh, (h.0, h.1, fresh)))
        | inr e ↦ simp e ((tt, (h.0, h.1, tt)))
      ]

  pub receive-IsSafe :
      (c : AudioCallChunk) (s : Store) → IsSafe s → IsSafe (handle_incoming_audio_chunk phone c s)
  unfolding handle_incoming_audio_chunk ensure_playback_pipeline
  receive-IsSafe c s h = elim (Bool-cases (is_call c.call_id s.active)) [
    | inl e ↦
        let o = pipeline_of c.call_id s.playback_pipeline in
        let found =
          ensure_as-IsSafe o c.call_id c.mime_type s
            (pipeline_of-HasSound c.call_id s.playback_pipeline h.2) h in
        simp e (
          play_on-IsSafe c (ensure_playback_pipeline phone c.call_id c.mime_type s) found.0 found.1)
    | inr e ↦ simp e h
  ]

  -- A render starts the recorder only on a microphone that is held.
  pub after_start-IsSafe :
      (answer : Option String × Store) → IsSafe answer.1 → IsSafe (after_start phone answer)
  after_start-IsSafe (none, s) h = h
  after_start-IsSafe (some text, s) h = finalize_call-IsSafe _ _ s h

  pub make_recorder-IsSafe :
      (o : Option String) (s : Store)
      → is_some s.local_stream ≡ true
      → IsSafe s
      → IsSafe (make_recorder phone o s).1
  make_recorder-IsSafe none s held h = (held, h.1, h.2)
  make_recorder-IsSafe (some fault) s held h = h

  pub start_over-IsSafe :
      (c : Option ActiveAudioCall) (o : Option LocalStream) (s : Store)
      → s.local_stream ≡ o
      → IsSafe s
      → IsSafe (start_over phone c o s).1
  start_over-IsSafe none o s e h = h
  start_over-IsSafe (some c) none s e h = h
  start_over-IsSafe (some c) (some stream) s e h = elim (Bool-cases phone.has_recorder) [
    | inr t ↦ simp t h
    | inl t ↦ elim (Bool-cases (is_recording s.media_recorder)) [
      | inl r ↦ simp (t, r) ((ground (arith, h.0, r), h.1, h.2))
      | inr r ↦ simp (t, r) (make_recorder-IsSafe phone.recorder_fault s (ground (arith, e)) h)
    ]
  ]

  pub run_effect-IsSafe :
      (c : Option ActiveAudioCall) (s : Store) → IsSafe s → IsSafe (run_effect phone c s)
  unfolding stop_recorder start_outgoing_audio
  run_effect-IsSafe none s h = (refl, h.1, h.2)
  run_effect-IsSafe (some c) s h = elim (Bool-cases (is_connected c.phase)) [
    | inl e ↦ simp e (
        after_start-IsSafe (start_outgoing_audio phone s)
          (start_over-IsSafe (connected_call s.active) s.local_stream s refl h))
    | inr e ↦ elim (Bool-cases (is_live c.phase)) [
      | inl t ↦ simp (e, t) h
      | inr t ↦ simp (e, t) ((refl, h.1, h.2))
    ]
  ]

  pub render-IsSafe : (s : Store) → IsSafe s → IsSafe (render phone s)
  unfolding render
  render-IsSafe s h = run_effect-IsSafe s.call (record s { active = s.call }) h
