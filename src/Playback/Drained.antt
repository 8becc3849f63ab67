-- ===== src/Playback/Drained.antt =====
-- The drain of a pipeline ends, and keeps its counts.
use skypier_chat.Prelude.{
  ℕ, zero, suc, ◌+◌, ◌≤◌, ◌<◌, ◌≡◌, refl, true, none, some, List, [], ◌∷◌, ◌++◌, length, is_some,
  ltb, arith, Bool-cases, Option-cases, inl, inr,
}
use skypier_chat.Playback.{
  Bytes, Pipeline, sorted_keys, next_chunk, take_next, drain_turns, drain, expect_first, skip_gap,
  max_pending_audio_chunks,
}
use skypier_chat.Playback.Maps.{
  From, sorted_keys-From, sorted_keys-none, sorted_keys-first_present, From-delete_chunk,
  length-delete_chunk, length-delete_present,
}

abbrev pub total : List Bytes → ℕ
total [] = 0
total (b ∷ bs) = length b + total bs

pub total-append : (xs ys : List Bytes) → total (xs ++ ys) ≡ total xs + total ys
total-append [] ys = omega arith
total-append (x ∷ xs) ys = omega (arith, total-append xs ys)

-- The queue's bytes are counted right, and no chunk waits that is older than the expected one.
pub record IsCounted (p : Pipeline) : Type 0 where
  pub counted : p.queue_bytes ≡ total p.queue
  pub ahead : From p.expected_sequence p.pending_by_sequence

-- Between two events, the expected chunk does not wait either, and 64 chunks at most do.
pub record IsSound (p : Pipeline) : Type 0 where
  pub basic : IsCounted p
  pub starved : next_chunk p ≡ none
  pub few : length p.pending_by_sequence ≤ max_pending_audio_chunks

pub take_next-IsCounted : (b : Bytes) (p : Pipeline) → IsCounted p → IsCounted (take_next b p)
take_next-IsCounted b p h = record {
  counted = omega (arith, total-append p.queue (b ∷ []), h.counted);
  ahead = From-delete_chunk p.pending_by_sequence p.expected_sequence h.ahead;
}

pub drain_turns-IsCounted : (n : ℕ) (p : Pipeline) → IsCounted p → IsCounted (drain_turns n p)
drain_turns-IsCounted zero p h = h
drain_turns-IsCounted (suc n) p h = elim (Option-cases (next_chunk p)) [
  | inl e ↦ simp e h
  | inr (b, e) ↦ simp e (drain_turns-IsCounted n (take_next b p) (take_next-IsCounted b p h))
]

-- As many turns as chunks wait are enough: the loop ends since the expected chunk is missing.
pub drain_turns_starved :
    (n : ℕ) (p : Pipeline) → length p.pending_by_sequence ≤ n → next_chunk (drain_turns n p) ≡ none
drain_turns_starved zero p h = elim (Option-cases (next_chunk p)) [
  | inl e ↦ e
  | inr (b, e) ↦
      absurd (omega (arith, h, length-delete_present p.pending_by_sequence p.expected_sequence e))
]
drain_turns_starved (suc n) p h = elim (Option-cases (next_chunk p)) [
  | inl e ↦ simp e refl
  | inr (b, e) ↦ simp e (
      drain_turns_starved n (take_next b p)
        (omega (arith, h, length-delete_present p.pending_by_sequence p.expected_sequence e)))
]

pub length-drain_turns :
    (n : ℕ) (p : Pipeline)
    → length (drain_turns n p).pending_by_sequence ≤ length p.pending_by_sequence
length-drain_turns zero p = omega arith
length-drain_turns (suc n) p = elim (Option-cases (next_chunk p)) [
  | inl e ↦ simp e (omega arith)
  | inr (b, e) ↦ simp e (
      omega (
        arith,
        length-drain_turns n (take_next b p),
        length-delete_chunk p.pending_by_sequence p.expected_sequence,
      ))
]

pub length-drain_turns_present :
    (n : ℕ) (p : Pipeline) {b : Bytes}
    → next_chunk p ≡ some b
    → 0 < n
    → length (drain_turns n p).pending_by_sequence < length p.pending_by_sequence
length-drain_turns_present zero p e h = absurd (omega (arith, h))
length-drain_turns_present (suc n) p {b = b} e h = simp e (
    omega (
      arith,
      length-drain_turns n (take_next b p),
      length-delete_present p.pending_by_sequence p.expected_sequence e,
    ))

-- Where the expected chunk waits, the drain takes it at least.
pub length-drain_present :
    (p : Pipeline)
    → is_some (next_chunk p) ≡ true
    → length (drain p).pending_by_sequence < length p.pending_by_sequence
unfolding drain
length-drain_present p h = elim (Option-cases (next_chunk p)) [
  | inl e ↦ absurd (cc (h, e))
  | inr (b, e) ↦
      length-drain_turns_present (length p.pending_by_sequence) p e
        (omega (arith, length-delete_present p.pending_by_sequence p.expected_sequence e))
]

pub next_chunk-drain : (p : Pipeline) → next_chunk (drain p) ≡ none
unfolding drain
next_chunk-drain p = drain_turns_starved (length p.pending_by_sequence) p (omega arith)

pub drain-IsCounted : (p : Pipeline) → IsCounted p → IsCounted (drain p)
unfolding drain
drain-IsCounted p h = drain_turns-IsCounted (length p.pending_by_sequence) p h

pub length-drain :
    (p : Pipeline) → length (drain p).pending_by_sequence ≤ length p.pending_by_sequence
unfolding drain
length-drain p = length-drain_turns (length p.pending_by_sequence) p

-- Giving up the gap.
pub expect_first-IsCounted :
    (ns : List ℕ) (p : Pipeline)
    → sorted_keys p.pending_by_sequence ≡ ns
    → IsCounted p
    → IsCounted (expect_first ns p)
expect_first-IsCounted [] p e h = h
expect_first-IsCounted (n ∷ ns) p e h = record {
  counted = h.counted;
  ahead = sorted_keys-From p.pending_by_sequence n ns e;
}

pub skip_gap-IsCounted : (p : Pipeline) → IsCounted p → IsCounted (skip_gap p)
unfolding skip_gap
skip_gap-IsCounted p h =
    elim (Bool-cases (ltb max_pending_audio_chunks (length p.pending_by_sequence))) [
      | inl e ↦ simp e (expect_first-IsCounted (sorted_keys p.pending_by_sequence) p refl h)
      | inr e ↦ simp e h
    ]

pub expect_first_present :
    (ns : List ℕ) (p : Pipeline)
    → sorted_keys p.pending_by_sequence ≡ ns
    → 0 < length p.pending_by_sequence
    → length (drain (expect_first ns p)).pending_by_sequence < length p.pending_by_sequence
expect_first_present [] p e h = absurd (omega (arith, h, sorted_keys-none p.pending_by_sequence e))
expect_first_present (n ∷ ns) p e h =
    length-drain_present (expect_first (n ∷ ns) p)
      (sorted_keys-first_present p.pending_by_sequence n ns e)

-- After a chunk was added to 64 at most, the drain leaves 64 at most.
pub drain-skip_gap_few :
    (p : Pipeline)
    → length p.pending_by_sequence ≤ suc max_pending_audio_chunks
    → length (drain (skip_gap p)).pending_by_sequence ≤ max_pending_audio_chunks
unfolding skip_gap
drain-skip_gap_few p h =
    elim (Bool-cases (ltb max_pending_audio_chunks (length p.pending_by_sequence))) [
      | inl e ↦ simp e (
          omega (
            arith,
            h,
            expect_first_present (sorted_keys p.pending_by_sequence) p refl (ground (arith, e)),
          ))
      | inr e ↦ simp e (ground (arith, e, length-drain p))
    ]
