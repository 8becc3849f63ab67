-- ===== src/Playback/Bounds.antt =====
-- What holds of a pipeline between two events: its count of bytes, its numbers and its size.
use skypier_chat.Prelude.{
  ℕ, ap, ◌-◌, ◌+◌, ◌≤◌, ◌≡◌, refl, sym, String, true, false, Option, none, some, List, [], ◌∷◌,
  length, is_some, ltb, All-append, arith, Bool-cases, Option-cases, inl, inr, length-append,
}
use skypier_chat.Playback.{
  Bytes, Pipeline, Media, SourceBuffer, PlaybackEvent, opened, finished, marked_end, arrived,
  get_chunk, sorted_keys, drain, force_chunk, force_chunks, drain_all, skip_gap, keep_chunk,
  drop_chunks, drop_excess, flush_chunks, flush_into, flush_playback_queue, update_end, source_open,
  handle_end, handle_chunk, on_event, on_events, new_pipeline, updated, max_playback_queue_bytes,
}
use mathlib.Core.Path.{subst}
use skypier_chat.Playback.Maps.{
  Covers, Covers-missing, Covers-delete_chunk, Covers-nothing, sorted_keys-covers, From,
}
use skypier_chat.Playback.Drained.{
  total, total-append, IsCounted, IsSound, next_chunk-drain, drain-IsCounted, skip_gap-IsCounted,
  drain-skip_gap_few,
}

-- The queue loses chunks at its front.
drop_chunks-IsSound :
    (bs : List Bytes) (p : Pipeline) → p.queue ≡ bs → IsSound p → IsSound (drop_chunks bs p)
drop_chunks-IsSound [] p e h = h
drop_chunks-IsSound (b ∷ []) p e h = h
drop_chunks-IsSound (b ∷ c ∷ bs) p e h =
    elim (Bool-cases (ltb max_playback_queue_bytes p.queue_bytes)) [
      | inl t ↦ simp t (
          drop_chunks-IsSound (c ∷ bs)
            (record p { queue = c ∷ bs; queue_bytes = p.queue_bytes - length b }) refl
            (record {
              basic = record {
                counted = ground (arith, h.basic.counted, ap total e);
                ahead = h.basic.ahead;
              };
              starved = h.starved;
              few = h.few;
            }))
      | inr t ↦ simp t h
    ]

flush_chunks-IsSound :
    (media : Media) (buffer : SourceBuffer) (bs : List Bytes) (p : Pipeline)
    → p.queue ≡ bs
    → IsSound p
    → IsSound (flush_chunks media buffer bs p)
flush_chunks-IsSound media buffer [] p e h = record {
  basic = record { counted = h.basic.counted; ahead = h.basic.ahead };
  starved = h.starved;
  few = h.few;
}
flush_chunks-IsSound media buffer (b ∷ bs) p e h =
    let fewer : p.queue_bytes - length b ≡ total bs = ground (arith, h.basic.counted, ap total e) in
    elim (Bool-cases (media.append_buffer p.appends)) [
      | inl t ↦ simp t (record {
        basic = record { counted = fewer; ahead = h.basic.ahead };
        starved = h.starved;
        few = h.few;
      })
      | inr t ↦ simp t (
          flush_chunks-IsSound media buffer bs
            (record p {
              queue = bs;
              queue_bytes = p.queue_bytes - length b;
              appends = p.appends + 1;
            })
            refl
            (record {
              basic = record { counted = fewer; ahead = h.basic.ahead };
              starved = h.starved;
              few = h.few;
            }))
    ]

-- The end marker leaves no chunk waiting.
force_chunks_empties :
    (ns : List ℕ) (p : Pipeline)
    → Covers ns p.pending_by_sequence
    → (force_chunks ns p).pending_by_sequence ≡ []
force_chunks_empties [] p h = Covers-nothing p.pending_by_sequence h
force_chunks_empties (n ∷ ns) p h = elim (Option-cases (get_chunk p.pending_by_sequence n)) [
  | inl e ↦ simp e (force_chunks_empties ns p (Covers-missing n ns p.pending_by_sequence e h))
  | inr (b, e) ↦ simp e (
      force_chunks_empties ns (force_chunk (some b) n p)
        (Covers-delete_chunk n ns p.pending_by_sequence h))
]

force_chunk-counted :
    (o : Option Bytes) (n : ℕ) (p : Pipeline)
    → p.queue_bytes ≡ total p.queue
    → (force_chunk o n p).queue_bytes ≡ total (force_chunk o n p).queue
force_chunk-counted none n p h = h
force_chunk-counted (some b) n p h = omega (arith, h, total-append p.queue (b ∷ []))

force_chunks-counted :
    (ns : List ℕ) (p : Pipeline)
    → p.queue_bytes ≡ total p.queue
    → (force_chunks ns p).queue_bytes ≡ total (force_chunks ns p).queue
force_chunks-counted [] p h = h
force_chunks-counted (n ∷ ns) p h =
    let o = get_chunk p.pending_by_sequence n in
    force_chunks-counted ns (force_chunk o n p) (force_chunk-counted o n p h)

drain_all_empties : (p : Pipeline) → (drain_all p).pending_by_sequence ≡ []
unfolding drain_all
drain_all_empties p =
    force_chunks_empties (sorted_keys (drain p).pending_by_sequence) (drain p)
      (sorted_keys-covers (drain p).pending_by_sequence)

drain_all-counted :
    (p : Pipeline) → IsCounted p → (drain_all p).queue_bytes ≡ total (drain_all p).queue
unfolding drain_all
drain_all-counted p h =
    force_chunks-counted (sorted_keys (drain p).pending_by_sequence) (drain p)
      (drain-IsCounted p h).counted

-- A pipeline where nothing waits.
empty-IsSound :
    (p : Pipeline) → p.queue_bytes ≡ total p.queue → p.pending_by_sequence ≡ [] → IsSound p
empty-IsSound p h e = record {
  basic = record { counted = h; ahead = subst (From p.expected_sequence) (sym e) tt };
  starved = ap (λ m. get_chunk m p.expected_sequence) e;
  few = ground (arith, ap (λ m. length {A = ℕ × Bytes} m) e);
}

module _ (media : Media) where
  flush_into-IsSound :
      (o : Option SourceBuffer) (p : Pipeline) → IsSound p → IsSound (flush_into media o p)
  flush_into-IsSound none p h = h
  flush_into-IsSound (some buffer) p h = elim (Bool-cases buffer.updating) [
    | inl e ↦ simp e h
    | inr e ↦ simp e (flush_chunks-IsSound media buffer p.queue p refl h)
  ]

  pub flush-IsSound : (p : Pipeline) → IsSound p → IsSound (flush_playback_queue media p)
  unfolding flush_playback_queue
  flush-IsSound p h = flush_into-IsSound p.source_buffer p h

  pub keep_chunk-IsCounted :
      (n : ℕ) (b : Bytes) (p : Pipeline)
      → p.expected_sequence ≤ n
      → IsCounted p
      → IsCounted (keep_chunk n b p)
  unfolding keep_chunk
  keep_chunk-IsCounted n b p le h = record {
    counted = h.counted;
    ahead =
        All-append (λ e. p.expected_sequence ≤ e.0) p.pending_by_sequence ((n, b) ∷ []) h.ahead
          (le, tt);
  }

  -- A chunk that is neither too old nor there already.
  new_chunk-IsSound :
      (n : ℕ) (b : Bytes) (p : Pipeline)
      → p.expected_sequence ≤ n
      → IsSound p
      → IsSound (drop_excess (drain (skip_gap (keep_chunk n b p))))
  unfolding drop_excess keep_chunk
  new_chunk-IsSound n b p le h =
      let q = drain (skip_gap (keep_chunk n b p)) in
      drop_chunks-IsSound q.queue q refl (record {
        basic =
            drain-IsCounted (skip_gap (keep_chunk n b p))
              (skip_gap-IsCounted (keep_chunk n b p) (keep_chunk-IsCounted n b p le h.basic));
        starved = next_chunk-drain (skip_gap (keep_chunk n b p));
        few =
            drain-skip_gap_few (keep_chunk n b p)
              (omega (arith, h.few, length-append p.pending_by_sequence ((n, b) ∷ [])));
      })

  handle_chunk-IsSound :
      (n : ℕ) (b : Bytes) (p : Pipeline) → IsSound p → IsSound (handle_chunk media n b p)
  unfolding handle_chunk
  handle_chunk-IsSound n b p h = elim (Bool-cases (ltb n p.expected_sequence)) [
    | inl old ↦ simp old h
    | inr e ↦ elim (Bool-cases (is_some (get_chunk p.pending_by_sequence n))) [
      | inl there ↦ simp (e, there) h
      | inr new ↦
          simp (e, new)
            (flush-IsSound (drop_excess (drain (skip_gap (keep_chunk n b p))))
              (new_chunk-IsSound n b p (ground (arith, e)) h))
    ]
  ]

  handle_end-IsSound : (p : Pipeline) → IsSound p → IsSound (handle_end media p)
  unfolding handle_end
  handle_end-IsSound p h =
      let q = record (drain_all p) { ended = true } in
      flush-IsSound q (empty-IsSound q (drain_all-counted p h.basic) (drain_all_empties p))

  with_buffer-IsSound :
      (o : Option SourceBuffer) (p : Pipeline)
      → IsSound p
      → IsSound (record p { source_buffer = o })
  with_buffer-IsSound o p h = record {
    basic = record { counted = h.basic.counted; ahead = h.basic.ahead };
    starved = h.starved;
    few = h.few;
  }

  update_end-IsSound : (p : Pipeline) → IsSound p → IsSound (update_end media p)
  unfolding update_end
  update_end-IsSound p h =
      flush-IsSound (record p { source_buffer = updated p.source_buffer })
        (with_buffer-IsSound (updated p.source_buffer) p h)

  open-IsSound : (p : Pipeline) → IsSound p → IsSound (record p { is_open = true })
  open-IsSound p h = record {
    basic = record { counted = h.basic.counted; ahead = h.basic.ahead };
    starved = h.starved;
    few = h.few;
  }

  source_open-IsSound : (p : Pipeline) → IsSound p → IsSound (source_open media p)
  unfolding source_open
  source_open-IsSound p h =
      let q = record p { is_open = true } in
      let fresh : Option SourceBuffer = some (record { updating = false; appended = [] }) in
      elim (Bool-cases (is_some p.source_buffer)) [
        | inl e ↦ simp e (open-IsSound p h)
        | inr e ↦ elim (Bool-cases (media.add_source_buffer p.mime_type)) [
          | inl t ↦
              simp (e, t)
                (flush-IsSound (record q { source_buffer = fresh })
                  (with_buffer-IsSound fresh q (open-IsSound p h)))
          | inr t ↦ simp (e, t) (open-IsSound p h)
        ]
      ]

  pub on_event-IsSound :
      (e : PlaybackEvent) (p : Pipeline) → IsSound p → IsSound (on_event media e p)
  on_event-IsSound opened p h = source_open-IsSound p h
  on_event-IsSound finished p h = update_end-IsSound p h
  on_event-IsSound marked_end p h = handle_end-IsSound p h
  on_event-IsSound (arrived n b) p h = handle_chunk-IsSound n b p h

  -- Whatever happens to a pipeline and whatever the browser answers, it stays sound: its count of
  -- bytes is that of its queue, no chunk waits that is older than the expected one or is that one,
  -- and 64 chunks at most wait.
  pub on_events-IsSound :
      (es : List PlaybackEvent) (p : Pipeline) → IsSound p → IsSound (on_events media es p)
  on_events-IsSound [] p h = h
  on_events-IsSound (e ∷ es) p h =
      on_events-IsSound es (on_event media e p) (on_event-IsSound e p h)

pub new_pipeline-IsSound : (call_id mime_type : String) → IsSound (new_pipeline call_id mime_type)
unfolding new_pipeline
new_pipeline-IsSound call_id mime_type = empty-IsSound (new_pipeline call_id mime_type) refl refl
