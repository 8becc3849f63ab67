-- ===== src/Session/Queue/Distinct.antt =====
-- No two entries of a queue have the same peer and the same message.
use skypier_chat.Prelude.{
  ℕ, String, ◌≡◌, refl, Bool, true, false, not, ◌&&◌, List, [], ◌∷◌, ◌++◌, arith, Option, none,
  some, select, All, All-append, All-map, All-middle, All-select, eq_iff, ◌==◌, is_some, truthy,
  if◌then◌else◌,
}
use skypier_chat.Session.{QueuedEnvelope}
use skypier_chat.Session.Queue.{is_same, same_id, has_id}
use skypier_chat.Session.Queue.Thinned.{Thinned, done, drop, keep, All-Thinned}

-- Two entries that carry the same message, by its id, to the same peer.
abbrev pub clash : QueuedEnvelope → QueuedEnvelope → Bool
clash q r = has_id q.envelope && is_same q.peer_id q.envelope r

abbrev pub Distinct : List QueuedEnvelope → Type 0
Distinct [] = Unit
Distinct (q ∷ qs) = All (λ r. clash q r ≡ false) qs × Distinct qs

clash_ids_comm :
    (p p' : String) (a b : Option String)
    → (is_some (truthy a) && (p' == p && same_id a b)) ≡ false
    → (is_some (truthy b) && (p == p' && same_id b a)) ≡ false
clash_ids_comm p p' (some a) (some b) h =
    ground (arith, eq_iff p p', eq_iff p' p, eq_iff a b, eq_iff b a, eq_iff a "", eq_iff b "")
clash_ids_comm p p' a none h = refl
clash_ids_comm p p' none (some b) h = ground arith

pub clash_comm : (q r : QueuedEnvelope) → clash q r ≡ false → clash r q ≡ false
clash_comm q r h = clash_ids_comm q.peer_id r.peer_id q.envelope.message_id r.envelope.message_id h

-- The test looks at the peer and the envelope alone.
pub clash-rw :
    (q q' r r' : QueuedEnvelope)
    → q'.peer_id ≡ q.peer_id
    → q'.envelope ≡ q.envelope
    → r'.peer_id ≡ r.peer_id
    → r'.envelope ≡ r.envelope
    → clash q r ≡ false
    → clash q' r' ≡ false
clash-rw q q' r r' p e p' e' h = cc

pub Distinct-Thinned :
    {R : ℕ → ℕ → Type 0} {xs ys : List QueuedEnvelope} → Thinned R xs ys → Distinct xs → Distinct ys
Distinct-Thinned done d = d
Distinct-Thinned (drop t) d = Distinct-Thinned t d.1
Distinct-Thinned (keep {x} {y} p e r t) d = (
  All-Thinned (λ z. clash y z ≡ false) (λ z z' p' e' r' h. clash-rw y y z z' refl refl p' e' h) t
      (All-map (λ z h. clash-rw x y z z p e refl refl h) _ d.0),
  Distinct-Thinned t d.1,
)

pub Distinct-push :
    (q : QueuedEnvelope) (xs : List QueuedEnvelope)
    → All (λ r. clash q r ≡ false) xs
    → Distinct xs
    → Distinct (xs ++ q ∷ [])
Distinct-push q [] h d = (tt, tt)
Distinct-push q (x ∷ xs) h d =
    (All-append _ xs (q ∷ []) d.0 (clash_comm q x h.0, tt), Distinct-push q xs h.1 d.1)

-- Moving an entry behind others does no harm, nor does splitting a queue by a test.
Distinct-middle :
    (q : QueuedEnvelope) (xs ys : List QueuedEnvelope)
    → All (λ r. clash q r ≡ false) (xs ++ ys)
    → Distinct (xs ++ ys)
    → Distinct (xs ++ q ∷ ys)
Distinct-middle q [] ys h d = (h, d)
Distinct-middle q (x ∷ xs) ys h d =
    (All-middle _ xs q ys d.0 (clash_comm q x h.0), Distinct-middle q xs ys h.1 d.1)

Distinct-select_step :
    (b : Bool) (q : QueuedEnvelope) (xs ys : List QueuedEnvelope)
    → All (λ r. clash q r ≡ false) (xs ++ ys)
    → Distinct (xs ++ ys)
    → Distinct ((if not b then q ∷ xs else xs) ++ (if b then q ∷ ys else ys))
Distinct-select_step true q xs ys h d = Distinct-middle q xs ys h d
Distinct-select_step false q xs ys h d = (h, d)

pub Distinct-select :
    (p : QueuedEnvelope → Bool) (xs : List QueuedEnvelope)
    → Distinct xs
    → Distinct (select (λ x. not (p x)) xs ++ select p xs)
Distinct-select p [] d = tt
Distinct-select p (x ∷ xs) d =
    Distinct-select_step (p x) x _ _
      (All-append _ _ _ (All-select _ _ xs d.0) (All-select _ p xs d.0)) (Distinct-select p xs d.1)
