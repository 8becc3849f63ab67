-- ===== src/Call/Runs.antt =====
-- The hook under its callers, its peer and the browser: a run is a list of what happens, one after
-- another. The tasks and the audio data being read wait in lists, and any of them may go on next.
pub mod Same
pub mod Operations
pub mod Kept
pub mod Sounds
pub mod Streams
pub mod Setup
pub mod Safe
use skypier_chat.Prelude.{
  ℕ, zero, suc, String, Bool, true, false, Option, none, some, List, [], ◌∷◌, ◌++◌, if◌then◌else◌,
}
use skypier_chat.Protocol.{AudioCallSignal, AudioCallEndReason, AudioCallChunk}
use skypier_chat.Earcons.{resumed, unlock}
use skypier_chat.Playback.{Bytes, Pipeline, update_end, source_open, flush_playback_queue}
use skypier_chat.Call.{Store, Phone, ActiveAudioCall, Recorder}
use skypier_chat.Call.Sending.{data_available, send_data, recorder_failed, render}
use skypier_chat.Call.Receiving.{handle_incoming_audio_chunk}
use skypier_chat.Call.Signals.{handle_incoming_signal}
use skypier_chat.Call.Placing.{
  StartAudioCallOptions, Task, Answer, Outcome, returned, threw, waits, start_call, accept_call,
  reject_call, end_call, toggle_mute, dismiss_call, resume,
}

pub record Read : Type 0 where
  pub of_call : ActiveAudioCall
  pub recorder : Recorder
  pub type : String

pub record World : Type 0 where
  pub store : Store
  pub tasks : List Task
  pub reads : List Read

-- What can happen: an operation of the user, a signal or a chunk of a peer, a render, the end of
-- what a task awaits (by the task's place in the list), data of the recorder and the end of its
-- reading, an error of the recorder, and an event of the media source or of the sounds.
pub data Happening : Type 0 where
  starts : StartAudioCallOptions → Happening
  accepts ends toggles dismisses renders fails opens updates flushes resumes_audio unlocks :
      Happening
  rejects : AudioCallEndReason → Happening
  hears : String → String → AudioCallSignal → Happening
  receives : AudioCallChunk → Happening
  settles : ℕ → Answer → Happening
  records : ℕ → String → Happening
  reads_data : ℕ → Bytes → Happening

-- The element at a place, and the others.
abbrev pub pick {ℓ} : {A : Type ℓ} → ℕ → List A → Option (A × List A)
pick n [] = none
pick zero (x ∷ xs) = some (x, xs)
pick (suc n) (x ∷ xs) = elim (pick n xs) [ none ↦ none | some (y, ys) ↦ some (y, x ∷ ys) ]

abbrev pub on_pipeline : (Pipeline → Pipeline) → Store → Store
on_pipeline f s = record s {
  playback_pipeline = elim s.playback_pipeline [ none ↦ none | some p ↦ some (f p) ];
}

abbrev pub with_store : Store → World → World
with_store s w = record w { store = s }

abbrev pub settle : Outcome × Store → World → World
settle (returned b, s) w = with_store s w
settle (threw text, s) w = with_store s w
settle (waits t, s) w = record (with_store s w) { tasks = w.tasks ++ t ∷ [] }

module _ (phone : Phone) where
  abbrev pub settle_task : Answer → Option (Task × List Task) → World → World
  settle_task answer none w = w
  settle_task answer (some (t, rest)) w =
      settle (resume phone t answer w.store) (record w { tasks = rest })

  -- A recorder reads its data where it sends them; without one there are no data.
  abbrev pub start_read : Option ActiveAudioCall → Option Recorder → String → World → World
  start_read none recorder type w = w
  start_read (some c) none type w = w
  start_read (some c) (some r) type w = record w {
    reads = w.reads ++ record { of_call = c; recorder = r; type = type } ∷ [];
  }

  abbrev pub end_read : Bytes → Option (Read × List Read) → World → World
  end_read bytes none w = w
  end_read bytes (some (r, rest)) w =
      record (with_store (send_data phone r.of_call r.recorder r.type bytes w.store) w) {
        reads = rest;
      }

  abbrev pub happen : Happening → World → World
  happen (starts options) w = settle (start_call phone options w.store) w
  happen accepts w = settle (accept_call phone w.store) w
  happen ends w = settle (end_call phone w.store) w
  happen toggles w = settle (toggle_mute phone w.store) w
  happen dismisses w = with_store (dismiss_call w.store) w
  happen renders w = with_store (render phone w.store) w
  happen fails w = with_store (recorder_failed w.store) w
  happen opens w = with_store (on_pipeline (source_open phone.media) w.store) w
  happen updates w = with_store (on_pipeline (update_end phone.media) w.store) w
  happen flushes w = with_store (on_pipeline (flush_playback_queue phone.media) w.store) w
  happen resumes_audio w = with_store (record w.store { earcons = resumed w.store.earcons }) w
  happen unlocks w = with_store (record w.store { earcons = unlock phone.audio w.store.earcons }) w
  happen (rejects reason) w = settle (reject_call phone reason w.store) w
  happen (hears from name signal) w =
      with_store (handle_incoming_signal phone from name signal w.store) w
  happen (receives c) w = with_store (handle_incoming_audio_chunk phone c w.store) w
  happen (settles n answer) w = settle_task answer (pick n w.tasks) w
  happen (records size type) w =
      start_read (data_available size w.store) w.store.media_recorder type w
  happen (reads_data n bytes) w = end_read bytes (pick n w.reads) w

  abbrev pub run : List Happening → World → World
  run [] w = w
  run (e ∷ es) w = run es (happen e w)
