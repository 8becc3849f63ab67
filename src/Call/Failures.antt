-- ===== src/Call/Failures.antt =====
-- What an abandoned start leaves.
use mathlib.Core.Path.{subst}
use skypier_chat.Prelude.{
  truthy, ap, sym, ◌∙◌, String, ◌≡◌, refl, Bool, true, false, Option, none, some, List, [], ◌∷◌,
  Bool-cases, inl, inr,
}
use skypier_chat.Protocol.{AudioCallSignal}
use skypier_chat.Earcons.{CallEarconType}
use skypier_chat.Call.{
  play_sound, stop_sounds, Store, Phone, ActiveAudioCall, stop_recorder, stop_local_audio,
  cleanup_playback, is_live, send_signal, send_signal_as, mark_end, stop_outgoing_audio,
}
use skypier_chat.Call.Placing.{resume, start_media, fulfilled, end_call, end_current, hang_up}
use skypier_chat.Call.Runs.{World, Read, happen, settle, run, ends, settles}

-- No call is left and nothing awaits, but the microphone is held.
abbrev pub IsHolding : World → Type 0
IsHolding w =
    w.store.call ≡ none × w.store.local_stream ≡ some (record { enabled = true }) × w.tasks ≡ []

module _ (phone : Phone) where
  mark_end-abort :
      (c : Option ActiveAudioCall) (s : Store)
      → (mark_end phone c s).start_call_abort ≡ s.start_call_abort
  mark_end-abort none s = refl
  mark_end-abort (some c) s = refl

  send_signal_as-abort :
      (peer : Option String) (target : String) (signal : AudioCallSignal) (s : Store)
      → (send_signal_as phone peer target signal s).start_call_abort ≡ s.start_call_abort
  send_signal_as-abort none target signal s = refl
  send_signal_as-abort (some peer) target signal s = refl

  hang_up-abort :
      (c : ActiveAudioCall) (s : Store) → (hang_up phone c s).start_call_abort ≡ s.start_call_abort
  unfolding send_signal
  hang_up-abort c s = elim (Bool-cases (is_live c.phase)) [
    | inl e ↦ simp e (send_signal_as-abort (truthy phone.local_peer_id) c.remote_peer_id _ s)
    | inr e ↦ simp e refl
  ]

  end_current-aborts :
      (c : ActiveAudioCall) (s : Store) → (end_current phone (some c) s).1.start_call_abort ≡ true
  unfolding stop_outgoing_audio stop_recorder stop_local_audio cleanup_playback
  end_current-aborts c s =
      let quiet = record (play_sound phone CallEarconType.hangup false (stop_sounds s)) {
        start_call_abort = true;
      } in
      let stopped = stop_recorder (hang_up phone c quiet) in
      mark_end-abort stopped.active stopped ∙ hang_up-abort c quiet

  grant-IsHolding :
      (c : ActiveAudioCall) (b : Bool) (s : Store) (reads : List Read)
      → s.start_call_abort ≡ true
      → s.call ≡ none
      → IsHolding (
          happen phone
            (settles 0 (fulfilled b))
            (record { store = s; tasks = start_media c true ∷ []; reads = reads }))
  unfolding resume
  grant-IsHolding c b s reads aborted gone = simp aborted ((gone, refl, refl))

  end_call-current :
      (d : ActiveAudioCall) (s : Store)
      → s.active ≡ some d
      → end_current phone (some d) s ≡ end_call phone s
  unfolding end_call
  end_call-current d s e = ap (λ c. end_current phone c s) (sym e)

  -- The user ends the call `d` while a start still awaits the microphone that it asked for, and
  -- then the microphone is granted: no call is left and the start is over, but the microphone is
  -- held, with its stream enabled, and nothing awaits that would let it go.
  pub end_call-holds_microphone :
      (c d : ActiveAudioCall) (b : Bool) (s : Store) (reads : List Read)
      → s.active ≡ some d
      → IsHolding (
          run phone
            (ends ∷ settles 0 (fulfilled b) ∷ [])
            (record { store = s; tasks = start_media c true ∷ []; reads = reads }))
  end_call-holds_microphone c d b s reads e =
      let w : World = record { store = s; tasks = start_media c true ∷ []; reads = reads } in
      subst (λ o. IsHolding (happen phone (settles 0 (fulfilled b)) (settle o w)))
        (end_call-current d s e)
        (grant-IsHolding c b (end_current phone (some d) s).1 reads (end_current-aborts d s) refl)
