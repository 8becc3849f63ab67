-- ===== src/Call/Runs/Safe.antt =====
-- What holds of the hook's recorder, its sounds and its pipeline at every moment of a run.
use skypier_chat.Prelude.{ℕ, Bool, not, ◌||◌, ◌&&◌, is_some}
use skypier_chat.Call.{Store}
use skypier_chat.Call.Sending.{is_recording, data_available}

-- Where recorded data is taken for sending, a recorder runs and the microphone is held.
abbrev pub takes_held : ℕ → Store → Bool
takes_held size s =
    not (is_some (data_available size s))
    || (is_recording s.media_recorder && is_some s.local_stream)
