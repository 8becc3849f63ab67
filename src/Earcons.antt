-- ===== src/Earcons.antt =====
-- The sounds of a call, from apps/web/src/hooks/useCallEarcons.ts. Which sound of the earcons
-- library is played, and how loud, is left out: `played` collects the types of the earcons that
-- were started, and a timer of a loop is a Boolean that says whether its reference holds one.
pub mod Single
use skypier_chat.Prelude.{
  ℕ, zero, suc, Bool, true, false, not, ◌&&◌, Option, none, some, List, [], ◌∷◌, ◌++◌,
  if◌then◌else◌, is_some,
}

pub data CallEarconType : Type 0 where
  dial ring ringing_outbound connect accept reject hangup error mute_on mute_off busy :
      CallEarconType

pub data ContextState : Type 0 where
  running suspended closed : ContextState

-- The three references of the hook, the two variables of its module, and the earcons whose start
-- waits for the context to resume.
pub record Earcons : Type 0 where
  pub shared_audio_context : Option ContextState
  pub audio_unlocked : Bool
  pub ring_interval : Bool
  pub ringing_outbound_interval : Bool
  pub busy_interval : Bool
  pub resuming : List (CallEarconType × Bool)
  pub played : List CallEarconType

-- Whether there is an AudioContext, and the state in which a new one is.
pub record Audio : Type 0 where
  pub is_available : Bool
  pub new_state : ContextState

abbrev pub is_closed : ContextState → Bool
is_closed closed = true
is_closed running = false
is_closed suspended = false

-- `clearInterval` on each of the three references that is set
unfoldable pub stop_looping : Earcons → Earcons
stop_looping s = record s {
  ring_interval = false;
  ringing_outbound_interval = false;
  busy_interval = false;
}

abbrev play : CallEarconType → Earcons → Earcons
play type s = record s { played = s.played ++ type ∷ [] }

-- playEarcon once its context runs: the loops stop, and the earcon starts.
unfoldable pub start_earcon : CallEarconType → Bool → Earcons → Earcons
start_earcon ring loop s = record (play ring (stop_looping s)) { ring_interval = loop }
start_earcon ringing_outbound loop s = record (play ringing_outbound (stop_looping s)) {
  ringing_outbound_interval = loop;
}
start_earcon busy loop s = record (play busy (stop_looping s)) { busy_interval = loop }
start_earcon dial loop s = play dial (stop_looping s)
start_earcon connect loop s = play connect (stop_looping s)
start_earcon accept loop s = play accept (stop_looping s)
start_earcon reject loop s = play reject (stop_looping s)
start_earcon hangup loop s = play hangup (stop_looping s)
start_earcon error loop s = play error (stop_looping s)
start_earcon mute_on loop s = play mute_on (stop_looping s)
start_earcon mute_off loop s = play mute_off (stop_looping s)

-- The context has resumed for the first of the earcons that wait for it.
abbrev pub resume_first : List (CallEarconType × Bool) → Earcons → Earcons
resume_first [] s = s
resume_first ((type, loop) ∷ waiting) s =
    start_earcon type loop (record s { shared_audio_context = some running; resuming = waiting })

unfoldable pub resumed : Earcons → Earcons
resumed s = resume_first s.resuming s

module _ (audio : Audio) where
  abbrev pub is_usable : Option ContextState → Bool
  is_usable none = false
  is_usable (some state) = not (is_closed state)

  unfoldable pub get_audio_context : Bool → Earcons → Option ContextState × Earcons
  get_audio_context allow_create s =
      if not audio.is_available
      then (none, s)
      else if not allow_create && (not s.audio_unlocked && not (is_some s.shared_audio_context))
      then (none, s)
      else if is_usable s.shared_audio_context
      then (s.shared_audio_context, s)
      else (some audio.new_state, record s { shared_audio_context = some audio.new_state })

  abbrev pub play_with : CallEarconType → Bool → Option ContextState × Earcons → Earcons
  play_with type loop (none, s) = s
  play_with type loop (some suspended, s) = record s { resuming = s.resuming ++ (type, loop) ∷ [] }
  play_with type loop (some running, s) = start_earcon type loop s
  play_with type loop (some closed, s) = start_earcon type loop s

  unfoldable pub play_earcon : CallEarconType → Bool → Earcons → Earcons
  play_earcon type loop s = play_with type loop (get_audio_context false s)

  -- The listener of the first click, key or touch; where the context was suspended it is resumed.
  abbrev pub wake : Option ContextState → Option ContextState
  wake none = none
  wake (some suspended) = some running
  wake (some running) = some running
  wake (some closed) = some closed

  unfoldable pub unlock : Earcons → Earcons
  unlock s =
      let (found, t) = get_audio_context true (record s { audio_unlocked = true }) in
      record t { shared_audio_context = wake t.shared_audio_context }
