-- ===== src/Playback/Handed.antt =====
-- What a pipeline has appended and queued, by the numbers of the chunks.
use mathlib.Core.Path.{subst}
use mathlib.Core.List.{append_assoc}
use skypier_chat.Prelude.{
  ℕ, zero, suc, ◌+◌, ◌≤◌, ◌<◌, ◌≡◌, refl, ap, sym, ◌∙◌, String, true, false, ◌||◌, Option, none,
  some, List, [], ◌∷◌, ◌++◌, length, length-append, is_some, ltb, arith, if◌then◌else◌, Bool-cases,
  Option-cases, inl, inr,
}
use skypier_chat.Playback.{
  Bytes, Chunks, Pipeline, Media, SourceBuffer, PlaybackEvent, opened, finished, marked_end,
  arrived, same_number, get_chunk, delete_chunk, next_chunk, take_next, drain_turns, drain,
  skip_gap, keep_chunk, drop_chunks, drop_excess, flush_chunks, flush_into, flush_playback_queue,
  update_end, source_open, handle_chunk, on_event, on_events, new_pipeline,
  max_playback_queue_bytes, max_pending_audio_chunks, updated,
}
use skypier_chat.Playback.Order.{appended_of}
use skypier_chat.Playback.Arrived.{
  skip_gap_roomy, HasRoom, HasRoomThroughout, has_arrived, on_events_first_gap,
}

-- What was appended and what waits to be.
abbrev pub handed : Pipeline → List Bytes
handed p = appended_of p.source_buffer ++ p.queue

abbrev pub chunk_of : PlaybackEvent → ℕ → Option Bytes
chunk_of opened k = none
chunk_of finished k = none
chunk_of marked_end k = none
chunk_of (arrived n b) k = if same_number n k then some b else none

abbrev pub either : Option Bytes → Option Bytes → Option Bytes
either none o = o
either (some b) o = some b

-- The first chunk that arrived with a number.
abbrev pub first_chunk : List PlaybackEvent → ℕ → Option Bytes
first_chunk [] k = none
first_chunk (e ∷ es) k = either (chunk_of e k) (first_chunk es k)

abbrev to_list : Option Bytes → List Bytes
to_list none = []
to_list (some b) = b ∷ []

-- The chunks with the numbers below the second argument, in the order of the numbers.
abbrev pub audio_below : (ℕ → Option Bytes) → ℕ → List Bytes
audio_below f zero = []
audio_below f (suc n) = audio_below f n ++ to_list (f n)

audio_below-same :
    (f g : ℕ → Option Bytes) (n : ℕ)
    → ((k : ℕ) → k < n → g k ≡ f k)
    → audio_below g n ≡ audio_below f n
audio_below-same f g zero h = refl
audio_below-same f g (suc n) h =
    rw (audio_below-same f g n (λ k lt. h k (omega (arith, lt))), h n (omega arith)) refl

audio_below_next :
    (f : ℕ → Option Bytes) (n : ℕ) → audio_below f (n + 1) ≡ audio_below f n ++ to_list (f n)
audio_below_next f n = let next : n + 1 ≡ suc n = omega arith in ap (audio_below f) next

differ : (n k : ℕ) → n < k → same_number n k ≡ false
differ n k h = ground (arith, h)

differ_below : (k n : ℕ) → k < n → same_number n k ≡ false
differ_below k n h = ground (arith, h)

either-none : (o : Option Bytes) → either o none ≡ o
either-none none = refl
either-none (some b) = refl

either_some : (o p : Option Bytes) → is_some o ≡ true → either o p ≡ o
either_some none p h = absurd (cc h)
either_some (some b) p h = refl

either_assoc : (a b c : Option Bytes) → either (either a b) c ≡ either a (either b c)
either_assoc none b c = refl
either_assoc (some x) b c = refl

is_some-either : (o p : Option Bytes) → is_some o ≡ true → is_some (either o p) ≡ true
is_some-either none p h = absurd (cc h)
is_some-either (some b) p h = refl

-- The chunks `f` by their numbers are those that the pipeline was given.
record Represents (f : ℕ → Option Bytes) (p : Pipeline) : Type 0 where
  audio : handed p ≡ audio_below f p.expected_sequence
  waiting : (k : ℕ) → p.expected_sequence ≤ k → get_chunk p.pending_by_sequence k ≡ f k
  filled : (k : ℕ) → k < p.expected_sequence → is_some (f k) ≡ true

Represents-same :
    (f g : ℕ → Option Bytes) (p : Pipeline)
    → ((k : ℕ) → g k ≡ f k)
    → Represents f p
    → Represents g p
Represents-same f g p h r = record {
  audio = r.audio ∙ sym (audio_below-same f g p.expected_sequence (λ k lt. h k));
  waiting = λ k le. r.waiting k le ∙ sym (h k);
  filled = λ k lt. ap is_some (h k) ∙ r.filled k lt;
}

-- The same pipeline but for how the audio is divided between the buffer and the queue.
Represents-moved :
    (f : ℕ → Option Bytes) (p q : Pipeline)
    → handed q ≡ handed p
    → q.expected_sequence ≡ p.expected_sequence
    → q.pending_by_sequence ≡ p.pending_by_sequence
    → Represents f p
    → Represents f q
Represents-moved f p q same e m r = record {
  audio = same ∙ r.audio ∙ ap (audio_below f) (sym e);
  waiting = λ k le. ap (λ c. get_chunk c k) m ∙ r.waiting k (subst (λ n. n ≤ k) e le);
  filled = λ k lt. r.filled k (subst (λ n. k < n) e lt);
}

get_chunk-push :
    (m : Chunks) (n k : ℕ) (b : Bytes)
    → get_chunk (m ++ (n, b) ∷ []) k
      ≡ either (get_chunk m k) (if same_number n k then some b else none)
get_chunk-push [] n k b = refl
get_chunk-push ((j, c) ∷ m) n k b = elim (Bool-cases (same_number j k)) [
  | inl e ↦ simp e refl
  | inr e ↦ simp e (get_chunk-push m n k b)
]

get_chunk-other :
    (m : Chunks) (n k : ℕ)
    → same_number n k ≡ false
    → get_chunk (delete_chunk m n) k ≡ get_chunk m k
get_chunk-other [] n k h = refl
get_chunk-other ((j, c) ∷ m) n k h = ground (arith, h, get_chunk-other m n k h)

take_next-Represents :
    (f : ℕ → Option Bytes) (b : Bytes) (p : Pipeline)
    → next_chunk p ≡ some b
    → Represents f p
    → Represents f (take_next b p)
take_next-Represents f b p e r =
    let here : f p.expected_sequence ≡ some b =
      (sym (r.waiting p.expected_sequence (omega arith)) ∙ e) in
    record {
      audio =
          sym (append_assoc (appended_of p.source_buffer) p.queue (b ∷ []))
          ∙ ap (λ bs. bs ++ b ∷ []) r.audio
          ∙ ap (λ o. audio_below f p.expected_sequence ++ to_list o) (sym here)
          ∙ sym (audio_below_next f p.expected_sequence);
      waiting = λ k le.
          get_chunk-other p.pending_by_sequence p.expected_sequence k
            (differ p.expected_sequence k (omega (arith, le)))
          ∙ r.waiting k (omega (arith, le));
      filled = λ k lt. elim (Bool-cases (same_number k p.expected_sequence)) [
        | inl last ↦
            let k_is : p.expected_sequence ≡ k = ground (arith, last) in
            ap is_some (subst (λ n. f n ≡ some b) k_is here)
        | inr before ↦ r.filled k (ground (arith, before, lt))
      ];
    }

drain_turns-Represents :
    (f : ℕ → Option Bytes) (n : ℕ) (p : Pipeline) → Represents f p → Represents f (drain_turns n p)
drain_turns-Represents f zero p r = r
drain_turns-Represents f (suc n) p r = elim (Option-cases (next_chunk p)) [
  | inl e ↦ simp e r
  | inr (b, e) ↦
      simp e (drain_turns-Represents f n (take_next b p) (take_next-Represents f b p e r))
]

-- A new chunk that is not below the expected one.
keep_chunk-Represents :
    (f : ℕ → Option Bytes) (n : ℕ) (b : Bytes) (p : Pipeline)
    → p.expected_sequence ≤ n
    → Represents f p
    → Represents (λ k. either (f k) (chunk_of (arrived n b) k)) (keep_chunk n b p)
unfolding keep_chunk
keep_chunk-Represents f n b p le r = record {
  audio =
      r.audio
      ∙ sym (
          audio_below-same f (λ k. either (f k) (chunk_of (arrived n b) k)) p.expected_sequence
            (λ k lt.
              ap (λ t. either (f k) (if t then some b else none))
                (differ_below k n (omega (arith, lt, le)))
              ∙ either-none (f k)));
  waiting = λ k e.
      get_chunk-push p.pending_by_sequence n k b
      ∙ ap (λ o. either o (chunk_of (arrived n b) k)) (r.waiting k e);
  filled = λ k lt. is_some-either (f k) (chunk_of (arrived n b) k) (r.filled k lt);
}

-- A chunk whose number has a chunk already changes nothing.
known-Represents :
    (f : ℕ → Option Bytes) (n : ℕ) (b : Bytes) (p : Pipeline)
    → is_some (f n) ≡ true
    → Represents f p
    → Represents (λ k. either (f k) (chunk_of (arrived n b) k)) p
known-Represents f n b p h r =
    Represents-same f (λ k. either (f k) (chunk_of (arrived n b) k)) p same r
  where
    same : (k : ℕ) → either (f k) (chunk_of (arrived n b) k) ≡ f k
    same k = elim (Bool-cases (same_number n k)) [
      | inl e ↦
          let n_is : n ≡ k = ground (arith, e) in
          either_some (f k) _ (subst (λ i. is_some (f i) ≡ true) n_is h)
      | inr e ↦ simp e (either-none (f k))
    ]

drop_excess_roomy :
    (p : Pipeline) → ltb max_playback_queue_bytes p.queue_bytes ≡ false → drop_excess p ≡ p
unfolding drop_excess
drop_excess_roomy p h = drop_chunks_roomy p.queue
  where
    drop_chunks_roomy : (bs : List Bytes) → drop_chunks bs p ≡ p
    drop_chunks_roomy [] = refl
    drop_chunks_roomy (b ∷ []) = refl
    drop_chunks_roomy (b ∷ c ∷ bs) = simp h refl

module _ (media : Media) (accepts : (n : ℕ) → media.append_buffer n ≡ true) where
  flush_chunks-Represents :
      (f : ℕ → Option Bytes) (buffer : SourceBuffer) (bs : List Bytes) (p : Pipeline)
      → p.queue ≡ bs
      → p.source_buffer ≡ some buffer
      → Represents f p
      → Represents f (flush_chunks media buffer bs p)
  flush_chunks-Represents f buffer [] p e s r =
      Represents-moved f p (flush_chunks media buffer [] p) refl refl refl r
  flush_chunks-Represents f buffer (b ∷ bs) p e s r = rw (accepts p.appends) (
      Represents-moved f p _
        (append_assoc buffer.appended (b ∷ []) bs
          ∙ sym (ap (λ qs. buffer.appended ++ qs) e)
          ∙ sym (ap (λ o. appended_of o ++ p.queue) s))
        refl refl r)

  flush_into-Represents :
      (f : ℕ → Option Bytes) (o : Option SourceBuffer) (p : Pipeline)
      → p.source_buffer ≡ o
      → Represents f p
      → Represents f (flush_into media o p)
  flush_into-Represents f none p s r = r
  flush_into-Represents f (some buffer) p s r = elim (Bool-cases buffer.updating) [
    | inl t ↦ simp t r
    | inr t ↦ simp t (flush_chunks-Represents f buffer p.queue p refl s r)
  ]

  flush-Represents :
      (f : ℕ → Option Bytes) (p : Pipeline)
      → Represents f p
      → Represents f (flush_playback_queue media p)
  unfolding flush_playback_queue
  flush-Represents f p r = flush_into-Represents f p.source_buffer p refl r

  update_end-Represents :
      (f : ℕ → Option Bytes) (p : Pipeline) → Represents f p → Represents f (update_end media p)
  unfolding update_end
  update_end-Represents f p r =
      let q = record p { source_buffer = updated p.source_buffer } in
      flush-Represents f q (Represents-moved f p q (same p.source_buffer p.queue) refl refl r)
    where
      same :
          (o : Option SourceBuffer) (bs : List Bytes)
          → appended_of (updated o) ++ bs ≡ appended_of o ++ bs
      same none bs = refl
      same (some buffer) bs = refl

  source_open-Represents :
      (f : ℕ → Option Bytes) (p : Pipeline) → Represents f p → Represents f (source_open media p)
  unfolding source_open
  source_open-Represents f p r =
      let q = record p { is_open = true } in
      let opened_q = Represents-moved f p q refl refl refl r in
      elim (Bool-cases (is_some p.source_buffer)) [
        | inl e ↦ simp e opened_q
        | inr e ↦ elim (Bool-cases (media.add_source_buffer p.mime_type)) [
          | inr t ↦ simp (e, t) opened_q
          | inl t ↦
              let fresh : Option SourceBuffer = some (record { updating = false; appended = [] }) in
              simp (e, t)
                (flush-Represents f (record q { source_buffer = fresh })
                  (Represents-moved f p (record q { source_buffer = fresh })
                    (same p.source_buffer p.queue e) refl refl r))
        ]
      ]
    where
      same :
          (o : Option SourceBuffer) (bs : List Bytes) → is_some o ≡ false → bs ≡ appended_of o ++ bs
      same none bs h = refl
      same (some buffer) bs h = absurd (cc h)

  -- When a chunk arrives, the bytes that are queued then are no more than are kept.
  abbrev pub Fits : PlaybackEvent → Pipeline → Type 0
  Fits opened p = Unit
  Fits finished p = Unit
  Fits marked_end p = Unit
  Fits (arrived n b) p = ltb max_playback_queue_bytes (drain (keep_chunk n b p)).queue_bytes ≡ false

  abbrev pub FitsThroughout : List PlaybackEvent → Pipeline → Type 0
  FitsThroughout [] p = Unit
  FitsThroughout (e ∷ es) p = Fits e p × FitsThroughout es (on_event media e p)

  new_chunk-Represents :
      (f : ℕ → Option Bytes) (n : ℕ) (b : Bytes) (p : Pipeline)
      → length p.pending_by_sequence < max_pending_audio_chunks
      → Fits (arrived n b) p
      → p.expected_sequence ≤ n
      → Represents f p
      → Represents
          (λ k. either (f k) (chunk_of (arrived n b) k))
          (flush_playback_queue media (drop_excess (drain (skip_gap (keep_chunk n b p)))))
  unfolding keep_chunk drain
  new_chunk-Represents f n b p room fits le r =
      let kept = keep_chunk n b p in
      let g : ℕ → Option Bytes = (λ k. either (f k) (chunk_of (arrived n b) k)) in
      let roomy : skip_gap kept ≡ kept =
        skip_gap_roomy kept
          (omega (arith, room, length-append p.pending_by_sequence ((n, b) ∷ []))) in
      let whole : drop_excess (drain kept) ≡ drain kept = drop_excess_roomy (drain kept) fits in
      rw (roomy, whole)
        (flush-Represents g (drain kept) (
          drain_turns-Represents g (length kept.pending_by_sequence) kept
            (keep_chunk-Represents f n b p le r)))

  handle_chunk-Represents :
      (f : ℕ → Option Bytes) (n : ℕ) (b : Bytes) (p : Pipeline)
      → length p.pending_by_sequence < max_pending_audio_chunks
      → Fits (arrived n b) p
      → Represents f p
      → Represents (λ k. either (f k) (chunk_of (arrived n b) k)) (handle_chunk media n b p)
  unfolding handle_chunk
  handle_chunk-Represents f n b p room fits r = elim (Bool-cases (ltb n p.expected_sequence)) [
    | inl old ↦ simp old (known-Represents f n b p (r.filled n (ground (arith, old))) r)
    | inr e ↦
        let le : p.expected_sequence ≤ n = ground (arith, e) in
        elim (Bool-cases (is_some (get_chunk p.pending_by_sequence n))) [
          | inl there ↦
              simp (e, there)
                (known-Represents f n b p (sym (ap is_some (r.waiting n le)) ∙ there) r)
          | inr new ↦ simp (e, new) (new_chunk-Represents f n b p room fits le r)
        ]
  ]

  on_event-Represents :
      (f : ℕ → Option Bytes) (e : PlaybackEvent) (p : Pipeline)
      → HasRoom media e p
      → Fits e p
      → Represents f p
      → Represents (λ k. either (f k) (chunk_of e k)) (on_event media e p)
  on_event-Represents f opened p room fits r =
      Represents-same f (λ k. either (f k) none) _ (λ k. either-none (f k))
        (source_open-Represents f p r)
  on_event-Represents f finished p room fits r =
      Represents-same f (λ k. either (f k) none) _ (λ k. either-none (f k))
        (update_end-Represents f p r)
  on_event-Represents f marked_end p room fits r = absurd (cc room)
  on_event-Represents f (arrived n b) p room fits r = handle_chunk-Represents f n b p room fits r

  on_events-Represents :
      (f : ℕ → Option Bytes) (es : List PlaybackEvent) (p : Pipeline)
      → HasRoomThroughout media es p
      → FitsThroughout es p
      → Represents f p
      → Represents (λ k. either (f k) (first_chunk es k)) (on_events media es p)
  on_events-Represents f [] p room fits r =
      Represents-same f (λ k. either (f k) none) p (λ k. either-none (f k)) r
  on_events-Represents f (e ∷ es) p room fits r =
      Represents-same (λ k. either (either (f k) (chunk_of e k)) (first_chunk es k))
        (λ k. either (f k) (either (chunk_of e k) (first_chunk es k)))
        (on_events media es (on_event media e p))
        (λ k. sym (either_assoc (f k) (chunk_of e k) (first_chunk es k)))
        (on_events-Represents (λ k. either (f k) (chunk_of e k)) es (on_event media e p) room.1
          fits.1 (on_event-Represents f e p room.0 fits.0 r))

  -- Over any events without an end marker, in whatever order the chunks arrive and however often,
  -- where fewer than 64 chunks wait and no more bytes are queued than are kept whenever one arrives,
  -- and the buffer takes every chunk that it is given: what a new pipeline has appended and queued
  -- are the chunks whose numbers are below the expected one, each as it first arrived, all of them
  -- in the order of their numbers; and the expected number is the first that has not arrived.
  pub on_events-handed :
      (call_id mime_type : String) (es : List PlaybackEvent) (k : ℕ)
      → HasRoomThroughout media es (new_pipeline call_id mime_type)
      → FitsThroughout es (new_pipeline call_id mime_type)
      → let p = on_events media es (new_pipeline call_id mime_type) in
        handed p ≡ audio_below (first_chunk es) p.expected_sequence
        × has_arrived media es p.expected_sequence ≡ false
        × has_arrived media es k
          ≡ (ltb k p.expected_sequence || is_some (get_chunk p.pending_by_sequence k))
  unfolding new_pipeline
  on_events-handed call_id mime_type es k room fits =
      let start : Represents (λ k. none) (new_pipeline call_id mime_type) = (record {
        audio = refl;
        waiting = λ k le. refl;
        filled = λ k lt. absurd (omega (arith, lt));
      }) in
      let r =
        on_events-Represents (λ k. none) es (new_pipeline call_id mime_type) room fits start in
      let gap = on_events_first_gap media call_id mime_type es k room in (r.audio, gap.0, gap.1)
