-- ===== src/Playback/Order.antt =====
-- The order in which a pipeline plays: the numbers of what it appended and of what it queues rise.
use mathlib.Core.Path.{subst}
use skypier_chat.Prelude.{
  ℕ, zero, suc, ◌+◌, ◌≤◌, ◌≡◌, refl, ap, sym, ◌∙◌, true, Option, none, some, List, [], ◌∷◌, ◌++◌,
  length, ltb, All, All-append, arith, Bool-cases, Option-cases, inl, inr,
}
use skypier_chat.Playback.{
  Bytes, Chunks, Pipeline, SourceBuffer, delete_chunk, sorted_keys, next_chunk, take_next,
  drain_turns, drain, expect_first, skip_gap, max_pending_audio_chunks, append_chunk,
}
use skypier_chat.Playback.Maps.{From, get_chunk-All, All-delete_chunk, sorted_keys_first-From}

-- The numbers rise from `lo` on, and stay below `hi`.
abbrev Rising : ℕ → Chunks → ℕ → Type 0
Rising lo [] hi = lo ≤ hi
Rising lo ((n, b) ∷ l) hi = lo ≤ n × Rising (n + 1) l hi

Rising-weaken_end : (lo : ℕ) (l : Chunks) (hi hi' : ℕ) → hi ≤ hi' → Rising lo l hi → Rising lo l hi'
Rising-weaken_end lo [] hi hi' le h = omega (arith, le, h)
Rising-weaken_end lo ((n, b) ∷ l) hi hi' le h = (h.0, Rising-weaken_end (n + 1) l hi hi' le h.1)

Rising-weaken_start :
    (lo lo' : ℕ) (l : Chunks) (hi : ℕ) → lo' ≤ lo → Rising lo l hi → Rising lo' l hi
Rising-weaken_start lo lo' [] hi le h = omega (arith, le, h)
Rising-weaken_start lo lo' ((n, b) ∷ l) hi le h = (omega (arith, le, h.0), h.1)

Rising-append :
    (lo : ℕ) (l : Chunks) (hi n : ℕ) (b : Bytes) (top : ℕ)
    → hi ≤ n
    → n + 1 ≤ top
    → Rising lo l hi
    → Rising lo (l ++ (n, b) ∷ []) top
Rising-append lo [] hi n b top le lt h = (omega (arith, le, h), omega (arith, lt))
Rising-append lo ((k, c) ∷ l) hi n b top le lt h =
    (h.0, Rising-append (k + 1) l hi n b top le lt h.1)

abbrev audio_of : Chunks → List Bytes
audio_of [] = []
audio_of ((n, b) ∷ l) = b ∷ audio_of l

audio_of-append :
    (l : Chunks) (n : ℕ) (b : Bytes) → audio_of (l ++ (n, b) ∷ []) ≡ audio_of l ++ b ∷ []
audio_of-append [] n b = refl
audio_of-append ((k, c) ∷ l) n b = ap (λ r. c ∷ r) (audio_of-append l n b)

audio_of_front :
    (l : Chunks) {b : Bytes} {bs : List Bytes}
    → b ∷ bs ≡ audio_of l
    → (n : ℕ) × ((rest : Chunks) × ((l ≡ (n, b) ∷ rest) × (bs ≡ audio_of rest)))
audio_of_front [] h = absurd (cc h)
audio_of_front ((n, c) ∷ l) h = (n, (l, (cc h, cc h)))

abbrev pub appended_of : Option SourceBuffer → List Bytes
appended_of none = []
appended_of (some buffer) = buffer.appended

module _ (Received : ℕ × Bytes → Type 0) where
  -- What was appended and what is queued are received chunks whose numbers rise throughout, up to
  -- the expected one; those that wait are received chunks too.
  pub record InOrder (p : Pipeline) : Type 0 where
    pub played : Chunks
    pub queued : Chunks
    pub middle : ℕ
    pub is_played : appended_of p.source_buffer ≡ audio_of played
    pub is_queued : p.queue ≡ audio_of queued
    pub played_rising : Rising 0 played middle
    pub queued_rising : Rising middle queued p.expected_sequence
    pub played_received : All Received played
    pub queued_received : All Received queued
    pub pending_received : All Received p.pending_by_sequence

  -- A received chunk that is not older than the expected one goes to the end of the queue.
  pub push-InOrder :
      (n : ℕ) (b : Bytes) (m : Chunks) (count top : ℕ) (p : Pipeline)
      → p.expected_sequence ≤ n
      → n + 1 ≤ top
      → Received (n, b)
      → All Received m
      → InOrder p
      → InOrder (record p {
        queue = p.queue ++ b ∷ [];
        queue_bytes = count;
        pending_by_sequence = m;
        expected_sequence = top;
      })
  push-InOrder n b m count top p le lt here there h = record {
    played = h.played;
    queued = h.queued ++ (n, b) ∷ [];
    middle = h.middle;
    is_played = h.is_played;
    is_queued = ap (λ q. q ++ b ∷ []) h.is_queued ∙ sym (audio_of-append h.queued n b);
    played_rising = h.played_rising;
    queued_rising =
        Rising-append h.middle h.queued p.expected_sequence n b top le lt h.queued_rising;
    played_received = h.played_received;
    queued_received = All-append Received h.queued ((n, b) ∷ []) h.queued_received (here, tt);
    pending_received = there;
  }

  drain_turns-InOrder : (k : ℕ) (p : Pipeline) → InOrder p → InOrder (drain_turns k p)
  drain_turns-InOrder zero p h = h
  drain_turns-InOrder (suc k) p h = elim (Option-cases (next_chunk p)) [
    | inl e ↦ simp e h
    | inr (b, e) ↦
        let m = p.pending_by_sequence in
        let n = p.expected_sequence in
        simp e (
          drain_turns-InOrder k (take_next b p) (
            push-InOrder n b (delete_chunk m n) (p.queue_bytes + length b) (n + 1) p (omega arith)
              (omega arith) (get_chunk-All Received m n h.pending_received e)
              (All-delete_chunk Received m n h.pending_received) h))
  ]

  pub drain-InOrder : (p : Pipeline) → InOrder p → InOrder (drain p)
  unfolding drain
  drain-InOrder p h = drain_turns-InOrder (length p.pending_by_sequence) p h

  -- The expected number may grow.
  expect-InOrder :
      (n : ℕ) (p : Pipeline)
      → p.expected_sequence ≤ n
      → InOrder p
      → InOrder (record p { expected_sequence = n })
  expect-InOrder n p le h = record {
    played = h.played;
    queued = h.queued;
    middle = h.middle;
    is_played = h.is_played;
    is_queued = h.is_queued;
    played_rising = h.played_rising;
    queued_rising = Rising-weaken_end h.middle h.queued p.expected_sequence n le h.queued_rising;
    played_received = h.played_received;
    queued_received = h.queued_received;
    pending_received = h.pending_received;
  }

  expect_first-InOrder :
      (ns : List ℕ) (p : Pipeline)
      → sorted_keys p.pending_by_sequence ≡ ns
      → From p.expected_sequence p.pending_by_sequence
      → InOrder p
      → InOrder (expect_first ns p)
  expect_first-InOrder [] p e from h = h
  expect_first-InOrder (n ∷ ns) p e from h =
      expect-InOrder n p (sorted_keys_first-From p.pending_by_sequence n ns e from) h

  pub skip_gap-InOrder :
      (p : Pipeline)
      → From p.expected_sequence p.pending_by_sequence
      → InOrder p
      → InOrder (skip_gap p)
  unfolding skip_gap
  skip_gap-InOrder p from h =
      elim (Bool-cases (ltb max_pending_audio_chunks (length p.pending_by_sequence))) [
        | inl e ↦ simp e (expect_first-InOrder (sorted_keys p.pending_by_sequence) p refl from h)
        | inr e ↦ simp e h
      ]

  -- The queue loses its first chunk.
  pub drop-InOrder :
      (b : Bytes) (bs : List Bytes) (count : ℕ) (p : Pipeline)
      → p.queue ≡ b ∷ bs
      → InOrder p
      → InOrder (record p { queue = bs; queue_bytes = count })
  drop-InOrder b bs count p e h =
      let front = audio_of_front h.queued (sym e ∙ h.is_queued) in
      let rising = subst (λ l. Rising h.middle l p.expected_sequence) front.1.1.0 h.queued_rising in
      record {
        played = h.played;
        queued = front.1.0;
        middle = h.middle;
        is_played = h.is_played;
        is_queued = front.1.1.1;
        played_rising = h.played_rising;
        queued_rising =
            Rising-weaken_start (front.0 + 1) h.middle front.1.0 p.expected_sequence
              (omega (arith, rising.0)) rising.1;
        played_received = h.played_received;
        queued_received = (subst (All Received) front.1.1.0 h.queued_received).1;
        pending_received = h.pending_received;
      }

  -- The first chunk of the queue is appended.
  pub append-InOrder :
      (b : Bytes) (bs : List Bytes) (count turn : ℕ) (buffer : SourceBuffer) (p : Pipeline)
      → p.queue ≡ b ∷ bs
      → p.source_buffer ≡ some buffer
      → InOrder p
      → InOrder (record p {
        queue = bs;
        queue_bytes = count;
        appends = turn;
        source_buffer = some (append_chunk b buffer);
        is_open = true;
      })
  append-InOrder b bs count turn buffer p e f h =
      let front = audio_of_front h.queued (sym e ∙ h.is_queued) in
      let rising = subst (λ l. Rising h.middle l p.expected_sequence) front.1.1.0 h.queued_rising in
      let received = subst (All Received) front.1.1.0 h.queued_received in
      record {
        played = h.played ++ (front.0, b) ∷ [];
        queued = front.1.0;
        middle = front.0 + 1;
        is_played =
            ap (λ a. a ++ b ∷ []) (sym (ap appended_of f) ∙ h.is_played)
            ∙ sym (audio_of-append h.played front.0 b);
        is_queued = front.1.1.1;
        played_rising =
            Rising-append 0 h.played h.middle front.0 b (front.0 + 1) rising.0 (omega arith)
              h.played_rising;
        queued_rising = rising.1;
        played_received =
            All-append Received h.played ((front.0, b) ∷ []) h.played_received (received.0, tt);
        queued_received = received.1;
        pending_received = h.pending_received;
      }
