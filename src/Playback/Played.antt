-- ===== src/Playback/Played.antt =====
-- Every event keeps a pipeline in order.
use skypier_chat.Prelude.{
  ℕ, ◌+◌, ◌-◌, ◌≤◌, ◌≡◌, refl, sym, String, true, false, Option, none, some, List, [], ◌∷◌, length,
  is_some, ltb, All, All-append, arith, Bool-cases, inl, inr,
}
use skypier_chat.Playback.{
  Bytes, Pipeline, Media, SourceBuffer, PlaybackEvent, opened, finished, marked_end, arrived,
  get_chunk, drain, drain_all, skip_gap, keep_chunk, drop_excess, flush_chunks, flush_into,
  flush_playback_queue, update_end, source_open, handle_end, handle_chunk, on_event, on_events,
  new_pipeline, updated,
}
use skypier_chat.Playback.Drained.{IsCounted, IsSound}
use skypier_chat.Playback.Bounds.{keep_chunk-IsCounted, on_event-IsSound}
use skypier_chat.Playback.Order.{
  InOrder, drain-InOrder, skip_gap-InOrder, drop-InOrder, append-InOrder, appended_of,
}
use skypier_chat.Playback.Forced.{drop_chunks-InOrder, same-InOrder, drain_all-InOrder}

module _ (Received : ℕ × Bytes → Type 0) where
  module _ (media : Media) where
    flush_chunks-InOrder :
        (buffer : SourceBuffer) (bs : List Bytes) (p : Pipeline)
        → p.queue ≡ bs
        → p.source_buffer ≡ some buffer
        → InOrder Received p
        → InOrder Received (flush_chunks media buffer bs p)
    flush_chunks-InOrder buffer [] p e f h =
        same-InOrder Received p (flush_chunks media buffer [] p) refl refl refl refl h
    flush_chunks-InOrder buffer (b ∷ bs) p e f h =
        let count = p.queue_bytes - length b in
        elim (Bool-cases (media.append_buffer p.appends)) [
          | inl t ↦ simp t (append-InOrder Received b bs count (p.appends + 1) buffer p e f h)
          | inr t ↦
              let q = record p { queue = bs; queue_bytes = count; appends = p.appends + 1 } in
              simp t (
                flush_chunks-InOrder buffer bs q refl f (
                  same-InOrder Received (record p { queue = bs; queue_bytes = count }) q refl refl
                    refl refl (drop-InOrder Received b bs count p e h)))
        ]

    flush_into-InOrder :
        (o : Option SourceBuffer) (p : Pipeline)
        → p.source_buffer ≡ o
        → InOrder Received p
        → InOrder Received (flush_into media o p)
    flush_into-InOrder none p e h = h
    flush_into-InOrder (some buffer) p e h = elim (Bool-cases buffer.updating) [
      | inl t ↦ simp t h
      | inr t ↦ simp t (flush_chunks-InOrder buffer p.queue p refl e h)
    ]

    flush-InOrder :
        (p : Pipeline) → InOrder Received p → InOrder Received (flush_playback_queue media p)
    unfolding flush_playback_queue
    flush-InOrder p h = flush_into-InOrder p.source_buffer p refl h

    keep_chunk-InOrder :
        (n : ℕ) (b : Bytes) (p : Pipeline)
        → Received (n, b)
        → InOrder Received p
        → InOrder Received (keep_chunk n b p)
    unfolding keep_chunk
    keep_chunk-InOrder n b p here h = record {
      played = h.played;
      queued = h.queued;
      middle = h.middle;
      is_played = h.is_played;
      is_queued = h.is_queued;
      played_rising = h.played_rising;
      queued_rising = h.queued_rising;
      played_received = h.played_received;
      queued_received = h.queued_received;
      pending_received =
          All-append Received p.pending_by_sequence ((n, b) ∷ []) h.pending_received (here, tt);
    }

    new_chunk-InOrder :
        (n : ℕ) (b : Bytes) (p : Pipeline)
        → Received (n, b)
        → p.expected_sequence ≤ n
        → IsCounted p
        → InOrder Received p
        → InOrder Received (drop_excess (drain (skip_gap (keep_chunk n b p))))
    unfolding drop_excess keep_chunk
    new_chunk-InOrder n b p here le sound h =
        let kept = keep_chunk n b p in
        let q = drain (skip_gap kept) in
        drop_chunks-InOrder Received q.queue q refl (
          drain-InOrder Received (skip_gap kept) (
            skip_gap-InOrder Received kept (keep_chunk-IsCounted media n b p le sound).ahead
              (keep_chunk-InOrder n b p here h)))

    handle_chunk-InOrder :
        (n : ℕ) (b : Bytes) (p : Pipeline)
        → Received (n, b)
        → IsCounted p
        → InOrder Received p
        → InOrder Received (handle_chunk media n b p)
    unfolding handle_chunk
    handle_chunk-InOrder n b p here sound h = elim (Bool-cases (ltb n p.expected_sequence)) [
      | inl old ↦ simp old h
      | inr e ↦ elim (Bool-cases (is_some (get_chunk p.pending_by_sequence n))) [
        | inl there ↦ simp (e, there) h
        | inr new ↦
            simp (e, new)
              (flush-InOrder (drop_excess (drain (skip_gap (keep_chunk n b p))))
                (new_chunk-InOrder n b p here (ground (arith, e)) sound h))
      ]
    ]

    handle_end-InOrder :
        (p : Pipeline) → IsCounted p → InOrder Received p → InOrder Received (handle_end media p)
    unfolding handle_end
    handle_end-InOrder p sound h =
        let q = record (drain_all p) { ended = true } in
        flush-InOrder q (
          same-InOrder Received (drain_all p) q refl refl refl refl
            (drain_all-InOrder Received p sound h))

    updated-appended : (o : Option SourceBuffer) → appended_of (updated o) ≡ appended_of o
    updated-appended none = refl
    updated-appended (some buffer) = refl

    update_end-InOrder : (p : Pipeline) → InOrder Received p → InOrder Received (update_end media p)
    unfolding update_end
    update_end-InOrder p h =
        let q = record p { source_buffer = updated p.source_buffer } in
        flush-InOrder q
          (same-InOrder Received p q (updated-appended p.source_buffer) refl refl refl h)

    appended_of_none : (o : Option SourceBuffer) → is_some o ≡ false → appended_of o ≡ []
    appended_of_none none h = refl
    appended_of_none (some buffer) h = absurd (cc h)

    source_open-InOrder :
        (p : Pipeline) → InOrder Received p → InOrder Received (source_open media p)
    unfolding source_open
    source_open-InOrder p h =
        let q = record p { is_open = true } in
        let opened_p = same-InOrder Received p q refl refl refl refl h in
        let fresh : Option SourceBuffer = some (record { updating = false; appended = [] }) in
        elim (Bool-cases (is_some p.source_buffer)) [
          | inr e ↦ elim (Bool-cases (media.add_source_buffer p.mime_type)) [
            | inl t ↦
                let r = record q { source_buffer = fresh } in
                simp (e, t)
                  (flush-InOrder r (
                    same-InOrder Received p r (sym (appended_of_none p.source_buffer e)) refl refl
                      refl h))
            | inr t ↦ simp (e, t) opened_p
          ]
          | inl e ↦ simp e opened_p
        ]

    -- Each chunk that arrives is one of the received.
    abbrev pub Allowed : PlaybackEvent → Type 0
    Allowed opened = Unit
    Allowed finished = Unit
    Allowed marked_end = Unit
    Allowed (arrived n b) = Received (n, b)

    on_event-InOrder :
        (e : PlaybackEvent) (p : Pipeline)
        → Allowed e
        → IsCounted p
        → InOrder Received p
        → InOrder Received (on_event media e p)
    on_event-InOrder opened p a sound h = source_open-InOrder p h
    on_event-InOrder finished p a sound h = update_end-InOrder p h
    on_event-InOrder marked_end p a sound h = handle_end-InOrder p sound h
    on_event-InOrder (arrived n b) p a sound h = handle_chunk-InOrder n b p a sound h

    -- Whatever the browser answers and in whatever order the chunks arrive, a sound pipeline whose
    -- audio is in order keeps it in order over every sequence of events: what was appended and what
    -- is queued are received chunks whose numbers rise throughout, so that no chunk is played twice
    -- and none after a later one.
    pub on_events-InOrder :
        (es : List PlaybackEvent) (p : Pipeline)
        → All Allowed es
        → IsSound p
        → InOrder Received p
        → InOrder Received (on_events media es p)
    on_events-InOrder [] p a sound h = h
    on_events-InOrder (e ∷ es) p a sound h =
        on_events-InOrder es (on_event media e p) a.1 (on_event-IsSound media e p sound)
          (on_event-InOrder e p a.0 sound.basic h)

  pub new_pipeline-InOrder :
      (call_id mime_type : String) → InOrder Received (new_pipeline call_id mime_type)
  unfolding new_pipeline
  new_pipeline-InOrder call_id mime_type = record {
    played = [];
    queued = [];
    middle = 0;
    is_played = refl;
    is_queued = refl;
    played_rising = omega arith;
    queued_rising = omega arith;
    played_received = tt;
    queued_received = tt;
    pending_received = tt;
  }
