-- ===== src/Earcons/Single.antt =====
-- At most one loop sounds at a time.
use skypier_chat.Prelude.{
  ℕ, ◌+◌, ◌≤◌, ◌≡◌, Bool, true, false, Option, none, some, List, [], ◌∷◌, arith,
}
use skypier_chat.Earcons.{
  Earcons, Audio, CallEarconType, ContextState, running, suspended, closed, dial, ring,
  ringing_outbound, connect, accept, reject, hangup, error, mute_on, mute_off, busy, stop_looping,
  start_earcon, resume_first, resumed, get_audio_context, play_with, play_earcon, unlock,
}

abbrev one_if : Bool → ℕ
one_if true = 1
one_if false = 0

-- How many loops sound.
abbrev pub loops : Earcons → ℕ
loops s = one_if s.ring_interval + one_if s.ringing_outbound_interval + one_if s.busy_interval

-- Loops that sound one at a time.
abbrev pub IsSingle : Earcons → Type 0
IsSingle s = loops s ≤ 1

-- What can happen to the sounds.
pub data EarconEvent : Type 0 where
  plays : CallEarconType → Bool → EarconEvent
  stops resumes unlocks : EarconEvent

one_if_le : (b : Bool) → one_if b ≤ 1
one_if_le true = omega arith
one_if_le false = omega arith

start_earcon-IsSingle :
    (type : CallEarconType) (loop : Bool) (s : Earcons) → IsSingle (start_earcon type loop s)
unfolding start_earcon stop_looping
start_earcon-IsSingle dial loop s = omega arith
start_earcon-IsSingle ring loop s = omega (arith, one_if_le loop)
start_earcon-IsSingle ringing_outbound loop s = omega (arith, one_if_le loop)
start_earcon-IsSingle connect loop s = omega arith
start_earcon-IsSingle accept loop s = omega arith
start_earcon-IsSingle reject loop s = omega arith
start_earcon-IsSingle hangup loop s = omega arith
start_earcon-IsSingle error loop s = omega arith
start_earcon-IsSingle mute_on loop s = omega arith
start_earcon-IsSingle mute_off loop s = omega arith
start_earcon-IsSingle busy loop s = omega (arith, one_if_le loop)

resume_first-IsSingle :
    (waiting : List (CallEarconType × Bool)) (s : Earcons)
    → IsSingle s
    → IsSingle (resume_first waiting s)
resume_first-IsSingle [] s h = h
resume_first-IsSingle ((type, loop) ∷ waiting) s h =
    start_earcon-IsSingle type loop
      (record s { shared_audio_context = some running; resuming = waiting })

pub stop_looping-IsSingle : (s : Earcons) → IsSingle (stop_looping s)
unfolding stop_looping
stop_looping-IsSingle s = omega arith

module _ (audio : Audio) where
  abbrev pub on_earcon_event : EarconEvent → Earcons → Earcons
  on_earcon_event (plays type loop) s = play_earcon audio type loop s
  on_earcon_event stops s = stop_looping s
  on_earcon_event resumes s = resumed s
  on_earcon_event unlocks s = unlock audio s

  abbrev pub on_earcon_events : List EarconEvent → Earcons → Earcons
  on_earcon_events [] s = s
  on_earcon_events (e ∷ es) s = on_earcon_events es (on_earcon_event e s)

  loops-get_audio_context :
      (allow : Bool) (s : Earcons) → loops (get_audio_context audio allow s).1 ≡ loops s
  unfolding get_audio_context
  loops-get_audio_context allow s = ground arith

  play_with-IsSingle :
      (type : CallEarconType) (loop : Bool) (found : Option ContextState) (s : Earcons)
      → IsSingle s
      → IsSingle (play_with audio type loop (found, s))
  play_with-IsSingle type loop none s h = h
  play_with-IsSingle type loop (some suspended) s h = h
  play_with-IsSingle type loop (some running) s h = start_earcon-IsSingle type loop s
  play_with-IsSingle type loop (some closed) s h = start_earcon-IsSingle type loop s

  pub on_earcon_event-IsSingle :
      (e : EarconEvent) (s : Earcons) → IsSingle s → IsSingle (on_earcon_event e s)
  unfolding play_earcon stop_looping resumed unlock
  on_earcon_event-IsSingle (plays type loop) s h =
      let answer = get_audio_context audio false s in
      play_with-IsSingle type loop answer.0 answer.1
        (omega (arith, h, loops-get_audio_context false s))
  on_earcon_event-IsSingle stops s h = omega arith
  on_earcon_event-IsSingle resumes s h = resume_first-IsSingle s.resuming s h
  on_earcon_event-IsSingle unlocks s h =
      omega (arith, h, loops-get_audio_context true (record s { audio_unlocked = true }))

  -- However earcons are played, stopped and resumed, no two loops sound at the same time, where
  -- none or one did before.
  pub on_earcon_events-IsSingle :
      (es : List EarconEvent) (s : Earcons) → IsSingle s → IsSingle (on_earcon_events es s)
  on_earcon_events-IsSingle [] s h = h
  on_earcon_events-IsSingle (e ∷ es) s h =
      on_earcon_events-IsSingle es (on_earcon_event e s) (on_earcon_event-IsSingle e s h)
