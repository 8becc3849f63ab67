-- ===== src/Call/Runs/Kept.antt =====
-- Which call is there, over the runs of the hook.
use skypier_chat.Prelude.{
  length, ltb, String, ◌≡◌, refl, ap, true, false, Option, none, some, List, [], ◌∷◌, Bool-cases,
  inl, inr, All,
}
use skypier_chat.Protocol.{AudioCallSignal, AudioCallSignalType, AudioCallEndReason}
use skypier_chat.Playback.{Bytes}
use skypier_chat.Call.{Store, Phone, ActiveAudioCall, Recorder, plain_signal}
use skypier_chat.Call.Sending.{recorder_failed, send_data, data_available}
use skypier_chat.Call.Signals.{is_offer}
use skypier_chat.Call.Placing.{
  Task, Answer, Outcome, returned, threw, waits, accept_call, reject_call, end_call, toggle_mute,
  dismiss_call, resume,
}
use skypier_chat.Call.Runs.{
  Read, World, Happening, happen, run, starts, accepts, ends, toggles, dismisses, renders, fails,
  opens, updates, flushes, resumes_audio, unlocks, rejects, hears, receives, settles, records,
  reads_data, pick, settle, settle_task, start_read, end_read,
}
use skypier_chat.Call.Runs.Same.{
  IsSameOrGone, IsSameOrGone-refl, IsSameOrGone-trans, unchanged-SameOrGone, Keeps,
  finalize_call-Keeps, hear-Keeps, receive-call, render-Keeps,
}
use skypier_chat.Call.Runs.Operations.{
  accept_current-Keeps, reject_current-Keeps, end_current-Keeps, toggle_current-Keeps, resume-Keeps,
}

module _ (phone : Phone) where
  settle-Keeps :
      (o : Outcome × Store) (s : Store) (w : World) → Keeps s o.1 → Keeps s (settle o w).store
  settle-Keeps (returned b, t) s w h = h
  settle-Keeps (threw text, t) s w h = h
  settle-Keeps (waits task, t) s w h = h

  settle_task-Keeps :
      (answer : Answer) (o : Option (Task × List Task)) (w : World)
      → Keeps w.store (settle_task phone answer o w).store
  settle_task-Keeps answer none w = IsSameOrGone-refl w.store.call
  settle_task-Keeps answer (some (t, rest)) w =
      settle-Keeps (resume phone t answer w.store) w.store (record w { tasks = rest })
        (resume-Keeps phone t answer w.store)

  start_read-store :
      (c : Option ActiveAudioCall) (r : Option Recorder) (type : String) (w : World)
      → (start_read phone c r type w).store ≡ w.store
  start_read-store none r type w = refl
  start_read-store (some c) none type w = refl
  start_read-store (some c) (some r) type w = refl

  send_data-call :
      (c : ActiveAudioCall) (r : Recorder) (type : String) (bytes : Bytes) (s : Store)
      → (send_data phone c r type bytes s).call ≡ s.call
  unfolding send_data
  send_data-call c r type bytes s = elim (Bool-cases (ltb 0 (length bytes))) [
    | inl e ↦ simp e refl
    | inr e ↦ simp e refl
  ]

  end_read-Keeps :
      (bytes : Bytes) (o : Option (Read × List Read)) (w : World)
      → Keeps w.store (end_read phone bytes o w).store
  end_read-Keeps bytes none w = IsSameOrGone-refl w.store.call
  end_read-Keeps bytes (some (r, rest)) w =
      unchanged-SameOrGone w.store.call _ (send_data-call r.of_call r.recorder r.type bytes w.store)

  -- No call is placed and none is offered.
  abbrev pub IsWithoutNewCall : Happening → Type 0
  IsWithoutNewCall (starts options) = true ≡ false
  IsWithoutNewCall (hears from name signal) = is_offer signal.type ≡ false
  IsWithoutNewCall _ = Unit

  happen-Keeps :
      (e : Happening) (w : World) → IsWithoutNewCall e → Keeps w.store (happen phone e w).store
  unfolding accept_call reject_call end_call toggle_mute dismiss_call recorder_failed
  happen-Keeps (starts options) w h = absurd (cc h)
  happen-Keeps accepts w h =
      settle-Keeps _ w.store w (accept_current-Keeps phone w.store.active w.store)
  happen-Keeps ends w h = settle-Keeps _ w.store w (end_current-Keeps phone w.store.active w.store)
  happen-Keeps toggles w h =
      settle-Keeps _ w.store w (toggle_current-Keeps phone w.store.active w.store)
  happen-Keeps dismisses w h = tt
  happen-Keeps renders w h = render-Keeps phone w.store
  happen-Keeps fails w h = finalize_call-Keeps _ _ w.store
  happen-Keeps opens w h = IsSameOrGone-refl w.store.call
  happen-Keeps updates w h = IsSameOrGone-refl w.store.call
  happen-Keeps flushes w h = IsSameOrGone-refl w.store.call
  happen-Keeps resumes_audio w h = IsSameOrGone-refl w.store.call
  happen-Keeps unlocks w h = IsSameOrGone-refl w.store.call
  happen-Keeps (rejects reason) w h =
      settle-Keeps _ w.store w (reject_current-Keeps phone w.store.active reason w.store)
  happen-Keeps (hears from name signal) w h = hear-Keeps phone from name signal w.store h
  happen-Keeps (receives c) w h = unchanged-SameOrGone w.store.call _ (receive-call phone c w.store)
  happen-Keeps (settles n answer) w h = settle_task-Keeps answer (pick n w.tasks) w
  happen-Keeps (records size type) w h = unchanged-SameOrGone w.store.call _ (
      ap (λ s. s.call)
        (start_read-store (data_available size w.store) w.store.media_recorder type w))
  happen-Keeps (reads_data n bytes) w h = end_read-Keeps bytes (pick n w.reads) w

  -- Over any run in which no call is placed and none is offered, however the operations of the
  -- user, the signals, the renders and the ends of what is awaited interleave, the call at the end
  -- has the identifier of the one at the start, or there is none; so a call that was closed is not
  -- brought back, even by a start that still awaits its dialling.
  pub run-SameOrGone :
      (es : List Happening) (w : World)
      → All IsWithoutNewCall es
      → IsSameOrGone w.store.call (run phone es w).store.call
  run-SameOrGone [] w h = IsSameOrGone-refl w.store.call
  run-SameOrGone (e ∷ es) w h =
      IsSameOrGone-trans w.store.call (happen phone e w).store.call _ (happen-Keeps e w h.0)
        (run-SameOrGone es (happen phone e w) h.1)

  -- The answer to an offer that comes during another call.
  abbrev pub busy_answer : String → AudioCallSignal → Store → AudioCallSignal
  busy_answer me signal s =
      record (plain_signal AudioCallSignalType.busy signal.call_id signal.conversation_id) {
        reason = some AudioCallEndReason.busy;
        from_peer_id = me;
        sent_at = some (phone.now s.ticks);
      }
