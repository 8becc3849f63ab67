-- ===== src/Playback/Tests.antt =====
-- Runs of the playback pipeline: chunks that come out of order, twice, and with a gap at the end.
use skypier_chat.Prelude.{
  ℕ, ◌≡◌, refl, true, false, List, [], ◌∷◌, ltb, is_some, ◌||◌, ◌++◌, length, arith,
}
use skypier_chat.Playback.{
  Bytes, Pipeline, Media, PlaybackEvent, opened, finished, marked_end, arrived, on_events,
  new_pipeline, get_chunk, flush_playback_queue, update_end, source_open, handle_chunk, drain,
  same_number, skip_gap, keep_chunk, drop_excess,
}
use skypier_chat.Playback.Bounds.{new_pipeline-IsSound}
use skypier_chat.Playback.Order.{InOrder}
use skypier_chat.Playback.Played.{on_events-InOrder, new_pipeline-InOrder}
use skypier_chat.Playback.Arrived.{has_arrived}
use skypier_chat.Playback.Handed.{handed, audio_below, first_chunk, on_events-handed}

-- A browser that refuses the second chunk that it is given.
abbrev browser : Media
browser = record {
  is_type_supported = λ mime_type. true;
  add_source_buffer = λ mime_type. true;
  append_buffer = λ n. elim (same_number n 1) [ true ↦ false | false ↦ true ];
}

unfoldable start : Pipeline
unfolding new_pipeline
start = new_pipeline "call-1" "audio/webm"

-- The chunks 1, 0, 0 again, 2 and 4, with the media source opening among them.
abbrev shuffled : List PlaybackEvent
shuffled =
    arrived 1 (11 ∷ [])
    ∷ opened
    ∷ arrived 0 (10 ∷ [])
    ∷ arrived 0 (99 ∷ [])
    ∷ finished
    ∷ arrived 2 (12 ∷ [])
    ∷ arrived 4 (14 ∷ [])
    ∷ []

-- Each chunk is one byte long.
abbrev IsOneByte : ℕ × Bytes → Type 0
IsOneByte c = length c.1 ≡ 1

shuffled_waits : (on_events browser shuffled start).pending_by_sequence ≡ (4, 14 ∷ []) ∷ []
unfolding source_open update_end handle_chunk flush_playback_queue drain skip_gap keep_chunk
    drop_excess start
shuffled_waits = refl

shuffled_expects : (on_events browser shuffled start).expected_sequence ≡ 3
unfolding source_open update_end handle_chunk flush_playback_queue drain skip_gap keep_chunk
    drop_excess start
shuffled_expects = refl

-- A browser that takes every chunk.
abbrev willing : Media
willing = record browser { append_buffer = λ n. true }

on_events-handed_example :
    let p = on_events willing shuffled (new_pipeline "call-1" "audio/webm") in
    handed p ≡ audio_below (first_chunk shuffled) p.expected_sequence
    × has_arrived willing shuffled p.expected_sequence ≡ false
    × has_arrived willing shuffled 4
      ≡ (ltb 4 p.expected_sequence || is_some (get_chunk p.pending_by_sequence 4))
unfolding new_pipeline source_open update_end handle_chunk flush_playback_queue drain skip_gap
    keep_chunk drop_excess
on_events-handed_example =
    on_events-handed willing (λ n. refl) "call-1" "audio/webm" shuffled 4
      (omega arith, (tt, (omega arith, (omega arith, (tt, (omega arith, (omega arith, tt)))))))
      (refl, (tt, (refl, (refl, (tt, (refl, (refl, tt)))))))

-- The audio of 0, 1 and 2.
three_handed : handed (on_events willing shuffled start) ≡ (10 ∷ []) ∷ (11 ∷ []) ∷ (12 ∷ []) ∷ []
unfolding source_open update_end handle_chunk flush_playback_queue drain skip_gap keep_chunk
    drop_excess start
three_handed = refl

on_events-InOrder_example :
    InOrder IsOneByte
      (on_events browser (shuffled ++ marked_end ∷ []) (new_pipeline "call-1" "audio/webm"))
on_events-InOrder_example =
    on_events-InOrder IsOneByte browser (shuffled ++ marked_end ∷ [])
      (new_pipeline "call-1" "audio/webm")
      (refl, (tt, (refl, (refl, (tt, (refl, (refl, (tt, tt))))))))
      (new_pipeline-IsSound "call-1" "audio/webm")
      (new_pipeline-InOrder IsOneByte "call-1" "audio/webm")
