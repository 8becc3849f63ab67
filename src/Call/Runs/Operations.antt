-- ===== src/Call/Runs/Operations.antt =====
-- What the operations of the user do with the call that is there.
use skypier_chat.Prelude.{
  String, ◌≡◌, refl, sym, Bool, true, false, not, ◌&&◌, Option, none, some, if◌then◌else◌,
  Bool-cases, inl, inr,
}
use mathlib.Core.Path.{subst}
use skypier_chat.Protocol.{AudioCallEndReason}
use skypier_chat.Earcons.{CallEarconType}
use skypier_chat.Call.{
  play_sound, stop_sounds, with_phase, connected_at, requesting_media, connecting, Store, Phone,
  ActiveAudioCall, CallPhase, set_call,
}
use skypier_chat.Call.Signals.{without_error}
use skypier_chat.Call.Placing.{
  accept_current, reject_current, end_current, toggle_current, can_be_rejected, is_incoming,
  with_muted, unless_aborted, is_delivered, Task, Answer, Outcome, waits, resume, fail_start,
  fail_accept, start_media, start_dial, start_offer, accept_media, accept_dial, accept_answer,
  reject_sent, mute_sent, fulfilled, failed, hold_stream,
}
use skypier_chat.Call.Runs.Same.{
  IsSameOrGone, IsSameOrGone-refl, IsSameOrGone-trans, change-SameOrGone, unchanged-SameOrGone,
  Keeps, finalize_call-Keeps, send_signal-call,
}

module _ (phone : Phone) where
  -- The operations of the user.
  pub fail_start-Keeps : (text : String) (s : Store) → Keeps s (fail_start phone text s).1
  unfolding fail_start
  fail_start-Keeps text s = finalize_call-Keeps _ _ (play_sound phone CallEarconType.error false s)

  pub fail_accept-Keeps : (text : String) (s : Store) → Keeps s (fail_accept phone text s).1
  unfolding fail_accept
  fail_accept-Keeps text s =
      finalize_call-Keeps _ _ (play_sound phone CallEarconType.error false (stop_sounds s))

  pub accept_current-Keeps :
      (c : Option ActiveAudioCall) (s : Store) → Keeps s (accept_current phone c s).1
  accept_current-Keeps none s = IsSameOrGone-refl s.call
  accept_current-Keeps (some c) s =
      let f : ActiveAudioCall → ActiveAudioCall =
        λ v. without_error (with_phase requesting_media v) in
      let asked : Keeps s (set_call f s) = change-SameOrGone f (λ c. refl) s.call in
      elim (Bool-cases (is_incoming c.direction)) [
        | inr e ↦ simp e (IsSameOrGone-refl s.call)
        | inl e ↦ elim (Bool-cases phone.has_microphone) [
          | inl t ↦ simp (e, t) asked
          | inr t ↦
              simp (e, t)
                (IsSameOrGone-trans s.call (set_call f s).call _ asked (
                  fail_accept-Keeps "This browser does not support microphone capture."
                    (set_call f s)))
        ]
      ]

  pub reject_current-Keeps :
      (c : Option ActiveAudioCall) (reason : AudioCallEndReason) (s : Store)
      → Keeps s (reject_current phone c reason s).1
  reject_current-Keeps none reason s = IsSameOrGone-refl s.call
  reject_current-Keeps (some c) reason s =
      let quiet = play_sound phone CallEarconType.reject false (stop_sounds s) in
      elim (Bool-cases (is_incoming c.direction && can_be_rejected c.phase)) [
        | inl e ↦
            simp e (unchanged-SameOrGone s.call _ (send_signal-call phone c.remote_peer_id _ quiet))
        | inr e ↦ simp e (finalize_call-Keeps (some reason) none quiet)
      ]

  pub end_current-Keeps :
      (c : Option ActiveAudioCall) (s : Store) → Keeps s (end_current phone c s).1
  end_current-Keeps none s = IsSameOrGone-refl s.call
  end_current-Keeps (some c) s = tt

  pub toggle_current-Keeps :
      (c : Option ActiveAudioCall) (s : Store) → Keeps s (toggle_current phone c s).1
  toggle_current-Keeps none s = IsSameOrGone-refl s.call
  toggle_current-Keeps (some c) s =
      let f : ActiveAudioCall → ActiveAudioCall = with_muted (not c.is_muted) in
      subst (IsSameOrGone s.call) (sym (send_signal-call phone c.remote_peer_id _ _))
        (change-SameOrGone f (λ c. refl) s.call)

  pub unless_aborted-Keeps :
      (go : Outcome × Store) (s : Store) → Keeps s go.1 → Keeps s (unless_aborted go s).1
  unless_aborted-Keeps go s h = elim (Bool-cases s.start_call_abort) [
    | inl e ↦ simp e (IsSameOrGone-refl s.call)
    | inr e ↦ simp e h
  ]

  pub hold_stream-call : (asked : Bool) (s : Store) → (hold_stream asked s).call ≡ s.call
  hold_stream-call true s = refl
  hold_stream-call false s = refl

  pub delivered-Keeps :
      (b : Bool) (yes_s no_s : Outcome × Store) (s : Store)
      → Keeps s yes_s.1
      → Keeps s no_s.1
      → Keeps s (if b then yes_s else no_s).1
  delivered-Keeps true yes_s no_s s h k = h
  delivered-Keeps false yes_s no_s s h k = k

  pub resume-Keeps : (t : Task) (answer : Answer) (s : Store) → Keeps s (resume phone t answer s).1
  unfolding resume
  resume-Keeps (start_media c asked) (fulfilled b) s =
      let f : ActiveAudioCall → ActiveAudioCall = λ v. without_error (with_phase connecting v) in
      let held = hold_stream asked s in
      IsSameOrGone-trans s.call held.call _
        (unchanged-SameOrGone s.call held.call (hold_stream-call asked s))
        (unless_aborted-Keeps (waits (start_dial c), set_call f held) held
          (change-SameOrGone f (λ c. refl) held.call))
  resume-Keeps (start_media c asked) (failed text) s = fail_start-Keeps _ s
  resume-Keeps (start_dial c) (fulfilled b) s =
      unless_aborted-Keeps _ s
        (unchanged-SameOrGone s.call _ (send_signal-call phone c.remote_peer_id _ s))
  resume-Keeps (start_dial c) (failed text) s = fail_start-Keeps _ s
  resume-Keeps (start_offer c) (fulfilled b) s = unless_aborted-Keeps _ s (
      delivered-Keeps (is_delivered phone b) _ _ s
        (change-SameOrGone (with_phase CallPhase.ringing) (λ c. refl) s.call)
        (fail_start-Keeps "The remote peer is not reachable for call setup." s))
  resume-Keeps (start_offer c) (failed text) s = fail_start-Keeps _ s
  resume-Keeps (accept_media c asked) (fulfilled b) s =
      let held = hold_stream asked s in
      IsSameOrGone-trans s.call held.call _
        (unchanged-SameOrGone s.call held.call (hold_stream-call asked s))
        (change-SameOrGone (with_phase connecting) (λ c. refl) held.call)
  resume-Keeps (accept_media c asked) (failed text) s = fail_accept-Keeps _ s
  resume-Keeps (accept_dial c) (fulfilled b) s =
      unchanged-SameOrGone s.call _ (send_signal-call phone c.remote_peer_id _ s)
  resume-Keeps (accept_dial c) (failed text) s = fail_accept-Keeps _ s
  resume-Keeps (accept_answer c) (fulfilled b) s =
      delivered-Keeps (is_delivered phone b) _ _ s
        (change-SameOrGone (connected_at (phone.now s.ticks)) (λ c. refl) s.call)
        (fail_accept-Keeps "Could not confirm the call with the remote peer." s)
  resume-Keeps (accept_answer c) (failed text) s = fail_accept-Keeps _ s
  resume-Keeps (reject_sent reason) (fulfilled b) s = finalize_call-Keeps (some reason) none s
  resume-Keeps (reject_sent reason) (failed text) s = IsSameOrGone-refl s.call
  resume-Keeps (mute_sent muted) (fulfilled b) s = IsSameOrGone-refl s.call
  resume-Keeps (mute_sent muted) (failed text) s = IsSameOrGone-refl s.call
