-- ===== src/Call/Runs/Same.antt =====
-- What signals, chunks and renders do with the call that is there.
use skypier_chat.Prelude.{
  ℕ, String, ◌≡◌, refl, sym, ◌∙◌, true, false, ◌&&◌, Option, none, some, truthy, or_else,
  Bool-cases, inl, inr,
}
use mathlib.Core.Path.{subst}
use skypier_chat.Protocol.{
  AudioCallSignal, AudioCallSignalType, AudioCallEndReason, AudioCallChunk, AudioCallChunkKind,
  chunk, end,
}
use skypier_chat.Playback.{Bytes, Pipeline}
use skypier_chat.Earcons.{CallEarconType}
use skypier_chat.Call.{
  play_sound, stop_sounds, with_phase, connected_at, Store, Phone, ActiveAudioCall, CallPhase,
  LocalStream, change, finalize_call, stop_recorder, stop_local_audio, cleanup_playback,
  send_signal, send_signal_as, is_connected, is_live, finished_call,
}
use skypier_chat.Call.Sending.{
  is_recording, render, run_effect, start_outgoing_audio, start_over, make_recorder, after_start,
  connected_call,
}
use skypier_chat.Call.Receiving.{
  is_call, handle_incoming_audio_chunk, ensure_playback_pipeline, ensure_as, pipeline_of, play_on,
  play_kind, play_data, play_bytes,
}
use skypier_chat.Call.Signals.{
  without_error, with_remote_muted, handle_incoming_signal, handle_same_call, is_offer,
}

-- The second call is the first, perhaps changed, or there is none.
abbrev pub IsSameOrGone : Option ActiveAudioCall → Option ActiveAudioCall → Type 0
IsSameOrGone c none = Unit
IsSameOrGone none (some d) = true ≡ false
IsSameOrGone (some c) (some d) = c.call_id ≡ d.call_id

pub IsSameOrGone-refl : (c : Option ActiveAudioCall) → IsSameOrGone c c
IsSameOrGone-refl none = tt
IsSameOrGone-refl (some c) = refl

pub IsSameOrGone-trans :
    (a b c : Option ActiveAudioCall) → IsSameOrGone a b → IsSameOrGone b c → IsSameOrGone a c
IsSameOrGone-trans a b none h k = tt
IsSameOrGone-trans a none (some z) h k = absurd (cc k)
IsSameOrGone-trans none (some y) (some z) h k = absurd (cc h)
IsSameOrGone-trans (some x) (some y) (some z) h k = h ∙ k

-- A change that keeps the call's identifier.
pub change-SameOrGone :
    (f : ActiveAudioCall → ActiveAudioCall)
    → ((c : ActiveAudioCall) → c.call_id ≡ (f c).call_id)
    → (o : Option ActiveAudioCall) → IsSameOrGone o (change f o)
change-SameOrGone f h none = tt
change-SameOrGone f h (some c) = h c

pub unchanged-SameOrGone : (a b : Option ActiveAudioCall) → b ≡ a → IsSameOrGone a b
unchanged-SameOrGone a b e = subst (IsSameOrGone a) (sym e) (IsSameOrGone-refl a)

pub finished_call-id :
    (reason : Option AudioCallEndReason) (text : Option String) (c : ActiveAudioCall)
    → c.call_id ≡ (finished_call reason text c).call_id
finished_call-id reason none c = refl
finished_call-id reason (some text) c = refl

-- What an operation does with the call.
abbrev pub Keeps : Store → Store → Type 0
Keeps s t = IsSameOrGone s.call t.call

pub finalize_call-Keeps :
    (reason : Option AudioCallEndReason) (text : Option String) (s : Store)
    → Keeps s (finalize_call reason text s)
unfolding finalize_call stop_recorder stop_local_audio cleanup_playback
finalize_call-Keeps reason text s =
    change-SameOrGone (finished_call reason text) (finished_call-id reason text) s.call

module _ (phone : Phone) where
  pub send_signal_as-call :
      (peer : Option String) (target : String) (signal : AudioCallSignal) (s : Store)
      → (send_signal_as phone peer target signal s).call ≡ s.call
  send_signal_as-call none target signal s = refl
  send_signal_as-call (some peer) target signal s = refl

  pub send_signal-call :
      (target : String) (signal : AudioCallSignal) (s : Store)
      → (send_signal phone target signal s).call ≡ s.call
  unfolding send_signal
  send_signal-call target signal s =
      send_signal_as-call (truthy phone.local_peer_id) target signal s

  -- The call is as it was before the operation's last part.
  pub after-Keeps : (s t u : Store) → u.call ≡ t.call → Keeps s t → Keeps s u
  after-Keeps s t u e h = subst (IsSameOrGone s.call) (sym e) h

  pub handle_same_call-Keeps :
      (type : AudioCallSignalType) (signal : AudioCallSignal) (s : Store)
      → Keeps s (handle_same_call phone type signal s)
  unfolding handle_same_call
  handle_same_call-Keeps AudioCallSignalType.offer signal s = IsSameOrGone-refl s.call
  handle_same_call-Keeps AudioCallSignalType.ringing signal s =
      change-SameOrGone (with_phase CallPhase.ringing) (λ c. refl) s.call
  handle_same_call-Keeps AudioCallSignalType.accept signal s =
      let connected_s = change (connected_at (phone.now s.ticks)) s.call in
      IsSameOrGone-trans s.call connected_s (change without_error connected_s)
        (change-SameOrGone (connected_at (phone.now s.ticks)) (λ c. refl) s.call)
        (change-SameOrGone without_error (λ c. refl) connected_s)
  handle_same_call-Keeps AudioCallSignalType.reject signal s =
      finalize_call-Keeps _ _ (play_sound phone CallEarconType.reject false (stop_sounds s))
  handle_same_call-Keeps AudioCallSignalType.busy signal s =
      finalize_call-Keeps _ _ (play_sound phone CallEarconType.busy true (stop_sounds s))
  handle_same_call-Keeps AudioCallSignalType.hangup signal s =
      finalize_call-Keeps _ _ (play_sound phone CallEarconType.hangup false (stop_sounds s))
  handle_same_call-Keeps AudioCallSignalType.mute signal s =
      change-SameOrGone (with_remote_muted (or_else signal.muted false)) (λ c. refl) s.call

  -- The signal is no offer.
  pub hear-Keeps :
      (from name : String) (signal : AudioCallSignal) (s : Store)
      → is_offer signal.type ≡ false
      → Keeps s (handle_incoming_signal phone from name signal s)
  unfolding handle_incoming_signal
  hear-Keeps from name signal s h = elim (Bool-cases (is_call signal.call_id s.active)) [
    | inl e ↦ simp (h, e) (handle_same_call-Keeps signal.type signal s)
    | inr e ↦ simp (h, e) (IsSameOrGone-refl s.call)
  ]

  -- Incoming audio changes the pipeline alone.
  pub play_bytes-call :
      (o : Option Bytes) (n : ℕ) (p : Pipeline) (s : Store)
      → (play_bytes phone o n p s).call ≡ s.call
  play_bytes-call none n p s = refl
  play_bytes-call (some bytes) n p s = refl

  pub play_data-call :
      (o : Option String) (n : ℕ) (p : Pipeline) (s : Store)
      → (play_data phone o n p s).call ≡ s.call
  play_data-call none n p s = refl
  play_data-call (some text) n p s = play_bytes-call (phone.atob text) n p s

  pub play_kind-call :
      (kind : AudioCallChunkKind) (c : AudioCallChunk) (p : Pipeline) (s : Store)
      → (play_kind phone kind c p s).call ≡ s.call
  play_kind-call chunk c p s = play_data-call (truthy c.audio) c.sequence p s
  play_kind-call end c p s = refl

  pub play_on-call :
      (c : AudioCallChunk) (o : Option Pipeline) (s : Store)
      → (play_on phone c (o, s)).call ≡ s.call
  play_on-call c none s = refl
  play_on-call c (some p) s = play_kind-call c.kind c p s

  pub ensure_as-call :
      (o : Option Pipeline) (call_id mime_type : String) (s : Store)
      → (ensure_as phone o call_id mime_type s).1.call ≡ s.call
  unfolding cleanup_playback
  ensure_as-call (some p) call_id mime_type s = refl
  ensure_as-call none call_id mime_type s =
      elim (Bool-cases (phone.has_media_source && phone.media.is_type_supported mime_type)) [
        | inl e ↦ simp e refl
        | inr e ↦ simp e refl
      ]

  pub receive-call :
      (c : AudioCallChunk) (s : Store) → (handle_incoming_audio_chunk phone c s).call ≡ s.call
  unfolding handle_incoming_audio_chunk ensure_playback_pipeline
  receive-call c s = elim (Bool-cases (is_call c.call_id s.active)) [
    | inl e ↦
        let answer = ensure_playback_pipeline phone c.call_id c.mime_type s in
        simp e (
          play_on-call c answer.0 answer.1
          ∙ ensure_as-call (pipeline_of c.call_id s.playback_pipeline) c.call_id c.mime_type s)
    | inr e ↦ simp e refl
  ]

  -- A render changes the call only where the recorder cannot be started.
  pub after_start-Keeps : (o : Option String) (s : Store) → Keeps s (after_start phone (o, s))
  after_start-Keeps none s = IsSameOrGone-refl s.call
  after_start-Keeps (some text) s = finalize_call-Keeps _ _ s

  pub make_recorder-call :
      (o : Option String) (s : Store) → (make_recorder phone o s).1.call ≡ s.call
  make_recorder-call none s = refl
  make_recorder-call (some fault) s = refl

  pub start_over-call :
      (c : Option ActiveAudioCall) (o : Option LocalStream) (s : Store)
      → (start_over phone c o s).1.call ≡ s.call
  start_over-call none o s = refl
  start_over-call (some c) none s = refl
  start_over-call (some c) (some stream) s = elim (Bool-cases phone.has_recorder) [
    | inr e ↦ simp e refl
    | inl e ↦ elim (Bool-cases (is_recording s.media_recorder)) [
      | inl t ↦ simp (e, t) refl
      | inr t ↦ simp (e, t) (make_recorder-call phone.recorder_fault s)
    ]
  ]

  pub run_effect-Keeps : (c : Option ActiveAudioCall) (s : Store) → Keeps s (run_effect phone c s)
  unfolding stop_recorder start_outgoing_audio
  run_effect-Keeps none s = IsSameOrGone-refl s.call
  run_effect-Keeps (some c) s = elim (Bool-cases (is_connected c.phase)) [
    | inl e ↦
        let answer = start_outgoing_audio phone s in
        simp e (
          IsSameOrGone-trans s.call answer.1.call (after_start phone answer).call
            (unchanged-SameOrGone s.call answer.1.call
              (start_over-call (connected_call s.active) s.local_stream s))
            (after_start-Keeps answer.0 answer.1))
    | inr e ↦ elim (Bool-cases (is_live c.phase)) [
      | inl t ↦ simp (e, t) (IsSameOrGone-refl s.call)
      | inr t ↦ simp (e, t) (IsSameOrGone-refl s.call)
    ]
  ]

  pub render-Keeps : (s : Store) → Keeps s (render phone s)
  unfolding render
  render-Keeps s = run_effect-Keeps s.call (record s { active = s.call })
