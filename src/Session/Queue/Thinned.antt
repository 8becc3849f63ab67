-- ===== src/Session/Queue/Thinned.antt =====
-- What a pass over the queue does to it: entries are dropped or kept in their order, and a kept one
-- has its peer and its envelope still. Here are the relation, and what the two passes make of it.
use mathlib.Core.List.{append_assoc, append-nil}
use mathlib.Core.Path.{subst}
use skypier_chat.Prelude.{
  ℕ, ◌+◌, ◌≡◌, refl, sym, ◌∙◌, List, [], ◌∷◌, ◌++◌, arith, length, ◌≤◌, ◌<◌, leb, leb_false→lt,
  Bool-cases, All, inl, inr, ◌⊎◌,
}
use skypier_chat.Session.{Host, Session, QueuedEnvelope, failed}
use skypier_chat.Session.Send.{
  SendResult, sent_ok, unsupported, limited, send_failed, send_envelope,
}
use skypier_chat.Session.Send.Frame.{send_envelope-SameQueue, emit_delivery-SameQueue}
use skypier_chat.Session.Queue.{
  retry_one, retry_all, flush_all, settle_flushed, settle_due, max_retries,
}

-- `ys` is `xs` with entries left out; the retry counts of a kept entry, before and after, are in `R`.
pub data Thinned (R : ℕ → ℕ → Type 0) : List QueuedEnvelope → List QueuedEnvelope → Type 0 where
  done : Thinned R [] []
  drop :
      {x : QueuedEnvelope} {xs ys : List QueuedEnvelope} → Thinned R xs ys → Thinned R (x ∷ xs) ys
  keep :
      {x y : QueuedEnvelope} {xs ys : List QueuedEnvelope}
      → y.peer_id ≡ x.peer_id
      → y.envelope ≡ x.envelope
      → R x.retry_count y.retry_count
      → Thinned R xs ys
      → Thinned R (x ∷ xs) (y ∷ ys)

pub length-Thinned :
    {R : ℕ → ℕ → Type 0} {xs ys : List QueuedEnvelope} → Thinned R xs ys → length ys ≤ length xs
length-Thinned done = omega arith
length-Thinned (drop t) = omega (arith, length-Thinned t)
length-Thinned (keep p e r t) = omega (arith, length-Thinned t)

-- The relation on retry counts that says nothing.
abbrev pub AnyCount : ℕ → ℕ → Type 0
AnyCount n m = Unit {0}

abbrev pub SameCount : ℕ → ℕ → Type 0
SameCount n m = m ≡ n

-- One more attempt was made, and the attempts were not used up.
abbrev pub NextCount : ℕ → ℕ → Type 0
NextCount n m = (m ≡ n + 1) × (n < max_retries)

pub Thinned-AnyCount :
    {R : ℕ → ℕ → Type 0} {xs ys : List QueuedEnvelope} → Thinned R xs ys → Thinned AnyCount xs ys
Thinned-AnyCount done = done
Thinned-AnyCount (drop t) = drop (Thinned-AnyCount t)
Thinned-AnyCount (keep p e r t) = keep p e tt (Thinned-AnyCount t)

pub Thinned-refl : (xs : List QueuedEnvelope) → Thinned SameCount xs xs
Thinned-refl [] = done
Thinned-refl (x ∷ xs) = keep refl refl refl (Thinned-refl xs)

pub Thinned-prefix :
    (xs : List QueuedEnvelope) {ys zs : List QueuedEnvelope}
    → Thinned AnyCount ys zs
    → Thinned AnyCount (xs ++ ys) (xs ++ zs)
Thinned-prefix [] t = t
Thinned-prefix (x ∷ xs) t = keep refl refl tt (Thinned-prefix xs t)

-- A property of entries that a pass keeps holds of every entry after it.
pub All-Thinned {κ} :
    (P : QueuedEnvelope → Type κ) {R : ℕ → ℕ → Type 0} {xs ys : List QueuedEnvelope}
    → ((x y : QueuedEnvelope)
        → y.peer_id ≡ x.peer_id
        → y.envelope ≡ x.envelope
        → R x.retry_count y.retry_count
        → P x
        → P y)
    → Thinned R xs ys
    → All P xs
    → All P ys
All-Thinned P step done h = h
All-Thinned P step (drop t) h = All-Thinned P step t h.1
All-Thinned P step (keep {x} {y} p e r t) h = (step x y p e r h.0, All-Thinned P step t h.1)

-- `zs` is `xs` with what is left of `pending` behind it.
abbrev pub Appended :
    (ℕ → ℕ → Type 0) → List QueuedEnvelope → List QueuedEnvelope → List QueuedEnvelope → Type 0
Appended R xs pending zs = (new : List QueuedEnvelope) × (zs ≡ xs ++ new) × Thinned R pending new

-- What became of one entry `q` at the end of the queue `xs`.
abbrev pub Settled :
    (ℕ → ℕ → Type 0) → QueuedEnvelope → List QueuedEnvelope → List QueuedEnvelope → Type 0
Settled R q xs zs =
    (zs ≡ xs)
    ⊎ ((q' : QueuedEnvelope) × (zs ≡ xs ++ q' ∷ [])
        × (q'.peer_id ≡ q.peer_id)
        × (q'.envelope ≡ q.envelope)
        × R q.retry_count q'.retry_count)

module _ (R : ℕ → ℕ → Type 0) where
  Appended-nil : (xs zs : List QueuedEnvelope) → zs ≡ xs → Appended R xs [] zs
  Appended-nil xs zs e = ([], e ∙ sym (append-nil xs), done)

  Appended-cons :
      (xs ys zs : List QueuedEnvelope) (q : QueuedEnvelope) (pending : List QueuedEnvelope)
      → Settled R q xs ys
      → Appended R ys pending zs
      → Appended R xs (q ∷ pending) zs
  Appended-cons xs ys zs q pending (inl e) (new, f, t) = (new, rw (← e) f, drop t)
  Appended-cons xs ys zs q pending (inr (q', e, p, v, r)) (new, f, t) =
      (q' ∷ new, f ∙ rw e (append_assoc xs (q' ∷ []) new), keep p v r t)

module _ (host : Host) where
  settle_flushed-Settled :
      (q : QueuedEnvelope) (r : SendResult × Session)
      → Settled SameCount q r.1.queue (settle_flushed host q r).1.queue
  settle_flushed-Settled q (sent_ok, s) = inl refl
  settle_flushed-Settled q (unsupported, s) = inl refl
  settle_flushed-Settled q (limited, s) = inr (_, refl, refl, refl, refl)
  settle_flushed-Settled q (send_failed, s) = inr (q, refl, refl, refl, refl)

  flush_step :
      (q : QueuedEnvelope) (s : Session)
      → Settled SameCount q s.queue
          (settle_flushed host q (send_envelope host q.peer_id q.envelope s)).1.queue
  flush_step q s =
      let r = send_envelope host q.peer_id q.envelope s in
      subst (λ xs. Settled SameCount q xs (settle_flushed host q r).1.queue)
        (send_envelope-SameQueue host q.peer_id q.envelope s).queue (settle_flushed-Settled q r)

  -- A flush puts what it could not send behind the queue, with the retry counts it had.
  pub flush_all-Appended :
      (pending : List QueuedEnvelope) (s : Session)
      → Appended SameCount s.queue pending (flush_all host pending s).1.queue
  unfolding flush_all
  flush_all-Appended [] s = Appended-nil _ s.queue s.queue refl
  flush_all-Appended (q ∷ pending) s =
      let s' = (settle_flushed host q (send_envelope host q.peer_id q.envelope s)).1 in
      Appended-cons _ s.queue s'.queue _ q pending (flush_step q s) (flush_all-Appended pending s')

  settle_due-Settled :
      (q : QueuedEnvelope) (r : SendResult × Session)
      → q.retry_count < max_retries
      → Settled NextCount q r.1.queue (settle_due host q r).queue
  settle_due-Settled q (sent_ok, s) h = inl refl
  settle_due-Settled q (unsupported, s) h = inl refl
  settle_due-Settled q (limited, s) h = inr (_, refl, refl, refl, (refl, h))
  settle_due-Settled q (send_failed, s) h = inr (_, refl, refl, refl, (refl, h))

  retry_one-Settled :
      (q : QueuedEnvelope) (s : Session) → Settled NextCount q s.queue (retry_one host q s).queue
  unfolding retry_one
  retry_one-Settled q s = elim (Bool-cases (leb max_retries q.retry_count)) [
    | inl late ↦ inl (rw late (emit_delivery-SameQueue q.envelope failed s).queue)
    | inr early ↦ rw early (
        let r = send_envelope host q.peer_id q.envelope s in
        subst (λ xs. Settled NextCount q xs (settle_due host q r).queue)
          (send_envelope-SameQueue host q.peer_id q.envelope s).queue
          (settle_due-Settled q r (leb_false→lt max_retries q.retry_count early)))
  ]

  -- A pass of the retry loop puts what it could not send behind the queue, with one more retry.
  pub retry_all-Appended :
      (due : List QueuedEnvelope) (s : Session)
      → Appended NextCount s.queue due (retry_all host due s).queue
  unfolding retry_all
  retry_all-Appended [] s = Appended-nil _ s.queue s.queue refl
  retry_all-Appended (q ∷ due) s =
      let s' = retry_one host q s in
      Appended-cons _ s.queue s'.queue _ q due (retry_one-Settled q s) (retry_all-Appended due s')
