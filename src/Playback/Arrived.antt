-- ===== src/Playback/Arrived.antt =====
-- A pipeline beside the set of the numbers that arrived.
use mathlib.Core.Path.{subst}
use skypier_chat.Prelude.{
  ℕ, zero, suc, ◌+◌, ◌-◌, ◌≤◌, ◌<◌, ◌≡◌, refl, ap, sym, ◌∙◌, String, Bool, true, false, ◌&&◌, ◌||◌,
  not, Option, none, some, List, [], ◌∷◌, ◌++◌, length, length-append, is_some, ltb, arith,
  Bool-cases, Option-cases, inl, inr,
}
use skypier_chat.Playback.{
  Bytes, Chunks, Pipeline, Media, SourceBuffer, PlaybackEvent, opened, finished, marked_end,
  arrived, same_number, get_chunk, delete_chunk, next_chunk, take_next, drain_turns, drain,
  skip_gap, keep_chunk, drop_chunks, drop_excess, flush_chunks, flush_into, flush_playback_queue,
  update_end, source_open, handle_chunk, on_event, on_events, new_pipeline,
  max_playback_queue_bytes, max_pending_audio_chunks, updated,
}
use skypier_chat.Playback.Bounds.{on_events-IsSound, new_pipeline-IsSound}

-- A number is known when its chunk was handed on already or waits.
abbrev pub is_known : Pipeline → ℕ → Bool
is_known p k = ltb k p.expected_sequence || is_some (get_chunk p.pending_by_sequence k)

-- The part of a pipeline that orders the chunks is unchanged.
pub record SameOrder (p q : Pipeline) : Type 0 where
  pub same_expected : q.expected_sequence ≡ p.expected_sequence
  pub same_pending : q.pending_by_sequence ≡ p.pending_by_sequence

SameOrder-refl : (p : Pipeline) → SameOrder p p
SameOrder-refl p = record { same_expected = refl; same_pending = refl }

SameOrder-known : (p q : Pipeline) (k : ℕ) → SameOrder p q → is_known q k ≡ is_known p k
SameOrder-known p q k h = rw (h.same_expected, h.same_pending) refl

drop_chunks-SameOrder : (bs : List Bytes) (p : Pipeline) → SameOrder p (drop_chunks bs p)
drop_chunks-SameOrder [] p = SameOrder-refl p
drop_chunks-SameOrder (b ∷ []) p = SameOrder-refl p
drop_chunks-SameOrder (b ∷ c ∷ bs) p =
    elim (Bool-cases (ltb max_playback_queue_bytes p.queue_bytes)) [
      | inl t ↦
          let q = record p { queue = c ∷ bs; queue_bytes = p.queue_bytes - length b } in
          let h = drop_chunks-SameOrder (c ∷ bs) q in
          simp t (record { same_expected = h.same_expected; same_pending = h.same_pending })
      | inr t ↦ simp t (SameOrder-refl p)
    ]

drop_excess-SameOrder : (p : Pipeline) → SameOrder p (drop_excess p)
unfolding drop_excess
drop_excess-SameOrder p = drop_chunks-SameOrder p.queue p

get_chunk-append :
    (m : Chunks) (n k : ℕ) (b : Bytes)
    → is_some (get_chunk (m ++ (n, b) ∷ []) k) ≡ (same_number n k || is_some (get_chunk m k))
get_chunk-append [] n k b = ground arith
get_chunk-append ((j, c) ∷ m) n k b = ground (arith, get_chunk-append m n k b)

get_chunk-delete :
    (m : Chunks) (n k : ℕ)
    → is_some (get_chunk (delete_chunk m n) k) ≡ (not (same_number n k) && is_some (get_chunk m k))
get_chunk-delete [] n k = ground arith
get_chunk-delete ((j, c) ∷ m) n k = ground (arith, get_chunk-delete m n k)

drain_turns-known : (n : ℕ) (p : Pipeline) (k : ℕ) → is_known (drain_turns n p) k ≡ is_known p k
drain_turns-known zero p k = refl
drain_turns-known (suc n) p k = elim (Option-cases (next_chunk p)) [
  | inl e ↦ simp e refl
  | inr (b, e) ↦
      let step : is_known (take_next b p) k ≡ is_known p k =
        ground (arith, get_chunk-delete p.pending_by_sequence p.expected_sequence k, e) in
      simp e (drain_turns-known n (take_next b p) k ∙ step)
]

drain-known : (p : Pipeline) (k : ℕ) → is_known (drain p) k ≡ is_known p k
unfolding drain
drain-known p k = drain_turns-known (length p.pending_by_sequence) p k

pub skip_gap_roomy :
    (p : Pipeline) → length p.pending_by_sequence ≤ max_pending_audio_chunks → skip_gap p ≡ p
unfolding skip_gap
skip_gap_roomy p h =
    let few : ltb max_pending_audio_chunks (length p.pending_by_sequence) ≡ false =
      ground (arith, h) in
    simp few refl

known_again :
    (n : ℕ) (p : Pipeline) (k : ℕ)
    → is_some (get_chunk p.pending_by_sequence n) ≡ true
    → (same_number n k || is_known p k) ≡ is_known p k
known_again n p k there = elim (Bool-cases (same_number n k)) [
  | inl e ↦
      let here : is_some (get_chunk p.pending_by_sequence k) ≡ true =
        subst (λ i. is_some (get_chunk p.pending_by_sequence i) ≡ true) (ground (arith, e)) there in
      ground (arith, e, here)
  | inr e ↦ ground (arith, e)
]

module _ (media : Media) where
  flush_chunks-SameOrder :
      (buffer : SourceBuffer) (bs : List Bytes) (p : Pipeline)
      → SameOrder p (flush_chunks media buffer bs p)
  flush_chunks-SameOrder buffer [] p = record { same_expected = refl; same_pending = refl }
  flush_chunks-SameOrder buffer (b ∷ bs) p = elim (Bool-cases (media.append_buffer p.appends)) [
    | inl t ↦ simp t (record { same_expected = refl; same_pending = refl })
    | inr t ↦
        let h = flush_chunks-SameOrder buffer bs (record p {
          queue = bs;
          queue_bytes = p.queue_bytes - length b;
          appends = p.appends + 1;
        }) in
        simp t (record { same_expected = h.same_expected; same_pending = h.same_pending })
  ]

  flush_into-SameOrder :
      (o : Option SourceBuffer) (p : Pipeline) → SameOrder p (flush_into media o p)
  flush_into-SameOrder none p = SameOrder-refl p
  flush_into-SameOrder (some buffer) p = elim (Bool-cases buffer.updating) [
    | inl t ↦ simp t (SameOrder-refl p)
    | inr t ↦ simp t (flush_chunks-SameOrder buffer p.queue p)
  ]

  flush-known : (p : Pipeline) (k : ℕ) → is_known (flush_playback_queue media p) k ≡ is_known p k
  unfolding flush_playback_queue
  flush-known p k =
      SameOrder-known p (flush_playback_queue media p) k (flush_into-SameOrder p.source_buffer p)

  new_chunk-known :
      (n : ℕ) (b : Bytes) (p : Pipeline) (k : ℕ)
      → length p.pending_by_sequence < max_pending_audio_chunks
      → is_known (flush_playback_queue media (drop_excess (drain (skip_gap (keep_chunk n b p))))) k
        ≡ (same_number n k || is_known p k)
  unfolding keep_chunk
  new_chunk-known n b p k room =
      let kept = keep_chunk n b p in
      let roomy : skip_gap kept ≡ kept =
        skip_gap_roomy kept
          (omega (arith, room, length-append p.pending_by_sequence ((n, b) ∷ []))) in
      let added : is_known kept k ≡ (same_number n k || is_known p k) =
        ground (arith, get_chunk-append p.pending_by_sequence n k b) in
      flush-known (drop_excess (drain (skip_gap kept))) k
      ∙ SameOrder-known (drain (skip_gap kept)) (drop_excess (drain (skip_gap kept))) k
          (drop_excess-SameOrder (drain (skip_gap kept)))
      ∙ drain-known (skip_gap kept) k
      ∙ ap (λ q. is_known q k) roomy
      ∙ added

  handle_chunk-known :
      (n : ℕ) (b : Bytes) (p : Pipeline) (k : ℕ)
      → length p.pending_by_sequence < max_pending_audio_chunks
      → is_known (handle_chunk media n b p) k ≡ (same_number n k || is_known p k)
  unfolding handle_chunk
  handle_chunk-known n b p k room = elim (Bool-cases (ltb n p.expected_sequence)) [
    | inl old ↦ simp old (ground (arith, old))
    | inr e ↦ elim (Bool-cases (is_some (get_chunk p.pending_by_sequence n))) [
      | inl there ↦ simp (e, there) (sym (known_again n p k there))
      | inr new ↦ simp (e, new) (new_chunk-known n b p k room)
    ]
  ]

  update_end-known : (p : Pipeline) (k : ℕ) → is_known (update_end media p) k ≡ is_known p k
  unfolding update_end
  update_end-known p k = flush-known (record p { source_buffer = updated p.source_buffer }) k

  source_open-known : (p : Pipeline) (k : ℕ) → is_known (source_open media p) k ≡ is_known p k
  unfolding source_open
  source_open-known p k =
      let q = record p { is_open = true } in
      let fresh : Option SourceBuffer = some (record { updating = false; appended = [] }) in
      elim (Bool-cases (is_some p.source_buffer)) [
        | inl e ↦ simp e refl
        | inr e ↦ elim (Bool-cases (media.add_source_buffer p.mime_type)) [
          | inl t ↦ simp (e, t) (flush-known (record q { source_buffer = fresh }) k)
          | inr t ↦ simp (e, t) refl
        ]
      ]

  -- No end marker comes, and fewer than 64 chunks wait when a chunk arrives.
  abbrev pub HasRoom : PlaybackEvent → Pipeline → Type 0
  HasRoom opened p = Unit
  HasRoom finished p = Unit
  HasRoom marked_end p = true ≡ false
  HasRoom (arrived n b) p = length p.pending_by_sequence < max_pending_audio_chunks

  abbrev pub HasRoomThroughout : List PlaybackEvent → Pipeline → Type 0
  HasRoomThroughout [] p = Unit
  HasRoomThroughout (e ∷ es) p = HasRoom e p × HasRoomThroughout es (on_event media e p)

  -- The abstract pipeline is the set of the numbers that arrived.
  abbrev pub brings : PlaybackEvent → ℕ → Bool
  brings opened k = false
  brings finished k = false
  brings marked_end k = false
  brings (arrived n b) k = same_number n k

  abbrev pub has_arrived : List PlaybackEvent → ℕ → Bool
  has_arrived [] k = false
  has_arrived (e ∷ es) k = brings e k || has_arrived es k

  on_event-known :
      (e : PlaybackEvent) (p : Pipeline) (k : ℕ)
      → HasRoom e p
      → is_known (on_event media e p) k ≡ (brings e k || is_known p k)
  on_event-known opened p k room = source_open-known p k
  on_event-known finished p k room = update_end-known p k
  on_event-known marked_end p k room = absurd (cc room)
  on_event-known (arrived n b) p k room = handle_chunk-known n b p k room

  on_events-known :
      (es : List PlaybackEvent) (p : Pipeline) (k : ℕ)
      → HasRoomThroughout es p
      → is_known (on_events media es p) k ≡ (has_arrived es k || is_known p k)
  on_events-known [] p k room = refl
  on_events-known (e ∷ es) p k room =
      ground (arith, on_events-known es (on_event media e p) k room.1, on_event-known e p k room.0)

  -- A new pipeline over any events without an end marker, in which fewer than 64 chunks wait
  -- whenever a chunk arrives, implements the set of the numbers that arrived, in whatever order
  -- they did: the expected number is the first that has not arrived, since it has not, and a
  -- number has arrived exactly when it is below the expected one or its chunk still waits.
  pub on_events_first_gap :
      (call_id mime_type : String) (es : List PlaybackEvent) (k : ℕ)
      → HasRoomThroughout es (new_pipeline call_id mime_type)
      → let p = on_events media es (new_pipeline call_id mime_type) in
        has_arrived es p.expected_sequence ≡ false
        × has_arrived es k
          ≡ (ltb k p.expected_sequence || is_some (get_chunk p.pending_by_sequence k))
  unfolding new_pipeline
  on_events_first_gap call_id mime_type es k room =
      let start = new_pipeline call_id mime_type in
      let p = on_events media es start in
      let known : (k : ℕ) → is_known p k ≡ has_arrived es k =
        λ k. ground (arith, on_events-known es start k room) in
      let starved =
        (on_events-IsSound media es start (new_pipeline-IsSound call_id mime_type)).starved in
      (ground (arith, known p.expected_sequence, starved), sym (known k))
