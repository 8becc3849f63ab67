-- ===== src/Playback/Forced.antt =====
-- The drain at the end of the audio keeps the order.
use mathlib.Core.Path.{subst}
use skypier_chat.Prelude.{
  ℕ, ◌+◌, ◌-◌, max, ◌≡◌, refl, sym, List, [], ◌∷◌, length, ltb, arith, Bool-cases, Option-cases,
  inl, inr,
}
use skypier_chat.Playback.{
  Bytes, Pipeline, get_chunk, delete_chunk, sorted_keys, drain, force_chunk, force_chunks,
  drain_all, drop_chunks, max_playback_queue_bytes,
}
use skypier_chat.Playback.Maps.{
  From, From-delete_chunk, get_chunk-From, get_chunk-All, All-delete_chunk, sorted_keys-covers,
  Ascending, sorted_keys-Ascending, Covers, Covers-missing, Covers-delete_chunk, From-covered,
}
use skypier_chat.Playback.Drained.{IsCounted, drain-IsCounted}
use skypier_chat.Playback.Order.{InOrder, push-InOrder, drain-InOrder, drop-InOrder, appended_of}

module _ (Received : ℕ × Bytes → Type 0) where
  pub drop_chunks-InOrder :
      (bs : List Bytes) (p : Pipeline)
      → p.queue ≡ bs
      → InOrder Received p
      → InOrder Received (drop_chunks bs p)
  drop_chunks-InOrder [] p e h = h
  drop_chunks-InOrder (b ∷ []) p e h = h
  drop_chunks-InOrder (b ∷ c ∷ bs) p e h =
      elim (Bool-cases (ltb max_playback_queue_bytes p.queue_bytes)) [
        | inl t ↦ simp t (
            drop_chunks-InOrder (c ∷ bs)
              (record p { queue = c ∷ bs; queue_bytes = p.queue_bytes - length b }) refl
              (drop-InOrder Received b (c ∷ bs) (p.queue_bytes - length b) p e h))
        | inr t ↦ simp t h
      ]

  -- A pipeline with the same chunks is in order too.
  pub same-InOrder :
      (p q : Pipeline)
      → appended_of q.source_buffer ≡ appended_of p.source_buffer
      → q.queue ≡ p.queue
      → q.expected_sequence ≡ p.expected_sequence
      → q.pending_by_sequence ≡ p.pending_by_sequence
      → InOrder Received p
      → InOrder Received q
  same-InOrder p q a b c d h = record {
    played = h.played;
    queued = h.queued;
    middle = h.middle;
    is_played = cc (a, h.is_played);
    is_queued = cc (b, h.is_queued);
    played_rising = h.played_rising;
    queued_rising = rw c h.queued_rising;
    played_received = h.played_received;
    queued_received = h.queued_received;
    pending_received = rw d h.pending_received;
  }

  -- One turn of the forced drain, with the least number that can still wait.
  pub force_chunk-InOrder :
      (n : ℕ) (ns : List ℕ) (p : Pipeline)
      → Ascending (n ∷ ns)
      → From p.expected_sequence p.pending_by_sequence
      → Covers (n ∷ ns) p.pending_by_sequence
      → InOrder Received p
      → let q = force_chunk (get_chunk p.pending_by_sequence n) n p in
        From q.expected_sequence q.pending_by_sequence
        × Covers ns q.pending_by_sequence
        × InOrder Received q
  force_chunk-InOrder n ns p up from covers h =
      elim (Option-cases (get_chunk p.pending_by_sequence n)) [
        | inl e ↦ simp e ((from, Covers-missing n ns p.pending_by_sequence e covers, h))
        | inr (b, e) ↦
            let m = p.pending_by_sequence in
            let le = get_chunk-From m n from e in
            let top : max p.expected_sequence (n + 1) ≡ n + 1 = omega (arith, le) in
            simp e (
              (
                subst (λ t. From t (delete_chunk m n)) (sym top)
                    (From-delete_chunk m n (From-covered n ns m up covers)),
                Covers-delete_chunk n ns m covers,
                push-InOrder Received n b (delete_chunk m n) (p.queue_bytes + length b)
                    (max p.expected_sequence (n + 1)) p le (omega arith)
                    (get_chunk-All Received m n h.pending_received e)
                    (All-delete_chunk Received m n h.pending_received) h,
              ))
      ]

  pub force_chunks-InOrder :
      (ns : List ℕ) (p : Pipeline)
      → Ascending ns
      → From p.expected_sequence p.pending_by_sequence
      → Covers ns p.pending_by_sequence
      → InOrder Received p
      → InOrder Received (force_chunks ns p)
  force_chunks-InOrder [] p up from covers h = h
  force_chunks-InOrder (n ∷ ns) p up from covers h =
      let turn = force_chunk-InOrder n ns p up from covers h in
      force_chunks-InOrder ns (force_chunk (get_chunk p.pending_by_sequence n) n p) up.1 turn.0
        turn.1 turn.2

  pub drain_all-InOrder :
      (p : Pipeline) → IsCounted p → InOrder Received p → InOrder Received (drain_all p)
  unfolding drain_all
  drain_all-InOrder p sound h =
      let q = drain p in
      force_chunks-InOrder (sorted_keys q.pending_by_sequence) q
        (sorted_keys-Ascending q.pending_by_sequence) (drain-IsCounted p sound).ahead
        (sorted_keys-covers q.pending_by_sequence) (drain-InOrder Received p h)
