-- ===== src/Call/Runs/Sounds.antt =====
-- The recorder, the sounds and the pipeline under signals.
use skypier_chat.Prelude.{
  String, ◌≡◌, refl, Bool, true, false, not, ◌&&◌, ◌||◌, Option, none, some, truthy, is_some,
  if◌then◌else◌, arith, Bool-cases, inl, inr,
}
use skypier_chat.Protocol.{AudioCallSignal, AudioCallSignalType, AudioCallEndReason}
use skypier_chat.Earcons.{CallEarconType}
use skypier_chat.Earcons.Single.{IsSingle, stop_looping-IsSingle, on_earcon_event-IsSingle, plays}
use skypier_chat.Playback.{Pipeline}
use skypier_chat.Playback.Drained.{IsSound}
use skypier_chat.Call.{
  Store, Phone, LocalStream, finalize_call, stop_recorder, stop_local_audio, cleanup_playback,
  send_signal, send_signal_as, play_sound, stop_sounds,
}
use skypier_chat.Call.Sending.{is_recording}
use skypier_chat.Call.Receiving.{is_call}
use skypier_chat.Call.Signals.{
  handle_incoming_signal, handle_offer, handle_same_call, is_busy, is_offer, incoming_call,
}
use skypier_chat.Call.Placing.{Outcome, hold_stream, enable_tracks}

-- Audio is taken from a recorder that runs on a microphone that is held, or none is taken.
abbrev pub records_held : Store → Bool
records_held s = not s.outbound_enabled || (is_recording s.media_recorder && is_some s.local_stream)

abbrev pub HasSound : Option Pipeline → Type 0
HasSound none = Unit
HasSound (some p) = IsSound p

-- Outgoing audio is enabled only with a running recorder on a held microphone, at most one loop
-- sounds, and the pipeline is sound.
abbrev pub IsSafe : Store → Type 0
IsSafe s = records_held s ≡ true × IsSingle s.earcons × HasSound s.playback_pipeline

pub finalize_call-IsSafe :
    (reason : Option AudioCallEndReason) (text : Option String) (s : Store)
    → IsSafe s
    → IsSafe (finalize_call reason text s)
unfolding finalize_call stop_recorder stop_local_audio cleanup_playback
finalize_call-IsSafe reason text s h = (refl, stop_looping-IsSingle s.earcons, tt)

pub enable_tracks-some :
    (b : Bool) (o : Option LocalStream) → is_some (enable_tracks b o) ≡ is_some o
enable_tracks-some b none = refl
enable_tracks-some b (some stream) = refl

pub stop_sounds-IsSafe : (s : Store) → IsSafe s → IsSafe (stop_sounds s)
stop_sounds-IsSafe s h = (h.0, stop_looping-IsSingle s.earcons, h.2)

pub hold_stream-IsSafe : (asked : Bool) (s : Store) → IsSafe s → IsSafe (hold_stream asked s)
hold_stream-IsSafe true s h = (ground (arith, h.0), h.1, h.2)
hold_stream-IsSafe false s h = h

pub mute_stream-IsSafe :
    (b : Bool) (s : Store)
    → IsSafe s
    → IsSafe (record s { local_stream = enable_tracks b s.local_stream })
mute_stream-IsSafe b s h = (ground (arith, h.0, enable_tracks-some b s.local_stream), h.1, h.2)

pub if-IsSafe :
    (b : Bool) (s t : Outcome × Store) → IsSafe s.1 → IsSafe t.1 → IsSafe (if b then s else t).1
if-IsSafe true s t h k = h
if-IsSafe false s t h k = k

module _ (phone : Phone) where
  pub play_sound-IsSafe :
      (type : CallEarconType) (loop : Bool) (s : Store)
      → IsSafe s
      → IsSafe (play_sound phone type loop s)
  play_sound-IsSafe type loop s h =
      (h.0, on_earcon_event-IsSingle phone.audio (plays type loop) s.earcons h.1, h.2)

  pub send_signal_as-IsSafe :
      (peer : Option String) (target : String) (signal : AudioCallSignal) (s : Store)
      → IsSafe s
      → IsSafe (send_signal_as phone peer target signal s)
  send_signal_as-IsSafe none target signal s h = h
  send_signal_as-IsSafe (some peer) target signal s h = h

  pub send_signal-IsSafe :
      (target : String) (signal : AudioCallSignal) (s : Store)
      → IsSafe s
      → IsSafe (send_signal phone target signal s)
  unfolding send_signal
  send_signal-IsSafe target signal s h =
      send_signal_as-IsSafe (truthy phone.local_peer_id) target signal s h

  -- The loops stop and a sound is played, as before the end of a call.
  pub signal_sound-IsSafe :
      (type : CallEarconType) (loop : Bool) (s : Store)
      → IsSafe s
      → IsSafe (play_sound phone type loop (stop_sounds s))
  signal_sound-IsSafe type loop s h =
      play_sound-IsSafe type loop (stop_sounds s) (stop_sounds-IsSafe s h)

  pub handle_same_call-IsSafe :
      (type : AudioCallSignalType) (signal : AudioCallSignal) (s : Store)
      → IsSafe s
      → IsSafe (handle_same_call phone type signal s)
  unfolding handle_same_call
  handle_same_call-IsSafe AudioCallSignalType.offer signal s h = h
  handle_same_call-IsSafe AudioCallSignalType.ringing signal s h = h
  handle_same_call-IsSafe AudioCallSignalType.accept signal s h =
      signal_sound-IsSafe CallEarconType.connect false s h
  handle_same_call-IsSafe AudioCallSignalType.reject signal s h =
      finalize_call-IsSafe _ _ _ (signal_sound-IsSafe CallEarconType.reject false s h)
  handle_same_call-IsSafe AudioCallSignalType.busy signal s h =
      finalize_call-IsSafe _ _ _ (signal_sound-IsSafe CallEarconType.busy true s h)
  handle_same_call-IsSafe AudioCallSignalType.hangup signal s h =
      finalize_call-IsSafe _ _ _ (signal_sound-IsSafe CallEarconType.hangup false s h)
  handle_same_call-IsSafe AudioCallSignalType.mute signal s h = h

  pub hear-IsSafe :
      (from name : String) (signal : AudioCallSignal) (s : Store)
      → IsSafe s
      → IsSafe (handle_incoming_signal phone from name signal s)
  unfolding handle_incoming_signal handle_offer
  hear-IsSafe from name signal s h = elim (Bool-cases (is_offer signal.type)) [
    | inl o ↦ elim (Bool-cases (is_busy signal.call_id s.active)) [
      | inl busy ↦ simp (o, busy) (send_signal-IsSafe from _ s h)
      | inr free ↦
          let ringing_s = record s { call = some (incoming_call from name signal) } in
          simp (o, free)
            (send_signal-IsSafe from _ _ (play_sound-IsSafe CallEarconType.ring true ringing_s h))
    ]
    | inr o ↦ elim (Bool-cases (is_call signal.call_id s.active)) [
      | inl e ↦ simp (o, e) (handle_same_call-IsSafe signal.type signal s h)
      | inr e ↦ simp (o, e) h
    ]
  ]
