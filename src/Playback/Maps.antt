-- ===== src/Playback/Maps.antt =====
-- Lemmas on the map of waiting chunks and its sorted keys.
use skypier_chat.Prelude.{
  ℕ, suc, ◌+◌, ◌≤◌, ◌<◌, ◌≡◌, refl, Option-cases, Bool, true, false, ◌||◌, none, some, List, [],
  ◌∷◌, length, is_some, leb, All, All-map, arith, Bool-cases, inl, inr,
}
use mathlib.Core.Path.{subst}
use skypier_chat.Playback.{
  Bytes, Chunks, same_number, get_chunk, delete_chunk, insert_number, sorted_keys,
}

pub length-delete_chunk : (m : Chunks) (n : ℕ) → length (delete_chunk m n) ≤ length m
length-delete_chunk [] n = omega arith
length-delete_chunk ((k, b) ∷ m) n = ground (arith, length-delete_chunk m n)

pub length-delete_present :
    (m : Chunks) (n : ℕ) {b : Bytes} → get_chunk m n ≡ some b → length (delete_chunk m n) < length m
length-delete_present [] n h = cc
length-delete_present ((k, c) ∷ m) n {b = b} h = elim (Bool-cases (same_number k n)) [
  | inl e ↦ ground (arith, e, length-delete_chunk m n)
  | inr e ↦ ground (arith, e, length-delete_present m n {b = b} (ground (arith, e)))
]

pub All-delete_chunk :
    (P : ℕ × Bytes → Type 0) (m : Chunks) (n : ℕ) → All P m → All P (delete_chunk m n)
All-delete_chunk P [] n h = h
All-delete_chunk P ((k, b) ∷ m) n h = elim (Bool-cases (same_number k n)) [
  | inl e ↦ simp e (All-delete_chunk P m n h.1)
  | inr e ↦ simp e ((h.0, All-delete_chunk P m n h.1))
]

-- Every key is at least `n`.
abbrev pub From : ℕ → Chunks → Type 0
From n = All (λ e. n ≤ e.0)

pub From-delete_chunk : (m : Chunks) (n : ℕ) → From n m → From (n + 1) (delete_chunk m n)
From-delete_chunk [] n h = h
From-delete_chunk ((k, b) ∷ m) n h = elim (Bool-cases (same_number k n)) [
  | inl e ↦ simp e (From-delete_chunk m n h.1)
  | inr e ↦ simp e ((ground (arith, e), From-delete_chunk m n h.1))
]

pub From-weaken : {n k : ℕ} (m : Chunks) → k ≤ n → From n m → From k m
From-weaken m le h = All-map (λ e h. omega (arith, le, h)) m h

pub get_chunk-From :
    {n : ℕ} (m : Chunks) (k : ℕ) {b : Bytes} → From n m → get_chunk m k ≡ some b → n ≤ k
get_chunk-From [] k h e = absurd (cc e)
get_chunk-From ((j, c) ∷ m) k {b = b} h e = elim (Bool-cases (same_number j k)) [
  | inl t ↦ ground (arith, h.0)
  | inr t ↦ get_chunk-From m k {b = b} h.1 (ground (arith, t))
]

pub get_chunk-All :
    (P : ℕ × Bytes → Type 0) (m : Chunks) (k : ℕ) {b : Bytes}
    → All P m
    → get_chunk m k ≡ some b
    → P (k, b)
get_chunk-All P [] k h e = absurd (cc e)
get_chunk-All P ((j, c) ∷ m) k {b = b} h e = elim (Bool-cases (same_number j k)) [
  | inl t ↦
      let key : j ≡ k = ground (arith, t) in
      let chunk : c ≡ b = ground (arith, t) in
      subst (λ x. P (k, x)) chunk (subst (λ i. P (i, c)) key h.0)
  | inr t ↦ get_chunk-All P m k {b = b} h.1 (ground (arith, t))
]

-- The keys in ascending order.
abbrev pub Ascending : List ℕ → Type 0
Ascending [] = Unit
Ascending (n ∷ ns) = All (λ k. n ≤ k) ns × Ascending ns

insert_number-least :
    {l : ℕ} (n : ℕ) (ks : List ℕ)
    → l ≤ n
    → All (λ k. l ≤ k) ks
    → All (λ k. l ≤ k) (insert_number n ks)
insert_number-least n [] ln h = (ln, h)
insert_number-least n (k ∷ ks) ln h = elim (Bool-cases (leb n k)) [
  | inl e ↦ simp e ((ln, h))
  | inr e ↦ simp e ((h.0, insert_number-least n ks ln h.1))
]

insert_number-Ascending : (n : ℕ) (ks : List ℕ) → Ascending ks → Ascending (insert_number n ks)
insert_number-Ascending n [] h = (tt, tt)
insert_number-Ascending n (k ∷ ks) h = elim (Bool-cases (leb n k)) [
  | inl e ↦ simp e (((ground (arith, e), All-map (λ j q. ground (arith, e, q)) ks h.0), h))
  | inr e ↦
      simp e ((insert_number-least n ks (ground (arith, e)) h.0, insert_number-Ascending n ks h.1))
]

pub sorted_keys-Ascending : (m : Chunks) → Ascending (sorted_keys m)
sorted_keys-Ascending [] = tt
sorted_keys-Ascending ((k, b) ∷ m) =
    insert_number-Ascending k (sorted_keys m) (sorted_keys-Ascending m)

abbrev has_number : List ℕ → ℕ → Bool
has_number [] n = false
has_number (k ∷ ks) n = same_number k n || has_number ks n

has_number-insert :
    (n : ℕ) (ks : List ℕ) (j : ℕ)
    → has_number (insert_number n ks) j ≡ (same_number n j || has_number ks j)
has_number-insert n [] j = refl
has_number-insert n (k ∷ ks) j = elim (Bool-cases (leb n k)) [
  | inl e ↦ simp e refl
  | inr e ↦ ground (arith, e, has_number-insert n ks j)
]

pub sorted_keys-covers : (m : Chunks) → All (λ e. has_number (sorted_keys m) e.0 ≡ true) m
sorted_keys-covers [] = tt
sorted_keys-covers ((k, b) ∷ m) = (
  ground (arith, has_number-insert k (sorted_keys m) k),
  All-map (λ e h. ground (arith, has_number-insert k (sorted_keys m) e.0, h)) m
      (sorted_keys-covers m),
)

insert_number-length : (n : ℕ) (ks : List ℕ) → length (insert_number n ks) ≡ suc (length ks)
insert_number-length n [] = refl
insert_number-length n (k ∷ ks) = ground (arith, insert_number-length n ks)

sorted_keys-length : (m : Chunks) → length (sorted_keys m) ≡ length m
sorted_keys-length [] = refl
sorted_keys-length ((k, b) ∷ m) =
    omega (arith, insert_number-length k (sorted_keys m), sorted_keys-length m)

has_number-sorted_keys :
    (m : Chunks) (n : ℕ) → has_number (sorted_keys m) n ≡ is_some (get_chunk m n)
has_number-sorted_keys [] n = refl
has_number-sorted_keys ((k, b) ∷ m) n =
    ground (arith, has_number-insert k (sorted_keys m) n, has_number-sorted_keys m n)

-- A number of a list in ascending order is its first or a later one.
Ascending_least :
    (n : ℕ) (ns : List ℕ) (k : ℕ) → All (λ j. n ≤ j) ns → has_number ns k ≡ true → n ≤ k
Ascending_least n [] k h t = absurd (cc t)
Ascending_least n (j ∷ ns) k h t = elim (Bool-cases (same_number j k)) [
  | inl e ↦ ground (arith, e, h.0)
  | inr e ↦ Ascending_least n ns k h.1 (ground (arith, e))
]

pub sorted_keys-From : (m : Chunks) (n : ℕ) (ns : List ℕ) → sorted_keys m ≡ n ∷ ns → From n m
sorted_keys-From m n ns e =
    let least : All (λ j. n ≤ j) (n ∷ ns) =
      (omega arith, (subst Ascending e (sorted_keys-Ascending m)).0) in
    All-map
      (λ c h. Ascending_least n (n ∷ ns) c.0 least (subst (λ ks. has_number ks c.0 ≡ true) e h)) m
      (sorted_keys-covers m)

pub sorted_keys-first_present :
    (m : Chunks) (n : ℕ) (ns : List ℕ) → sorted_keys m ≡ n ∷ ns → is_some (get_chunk m n) ≡ true
sorted_keys-first_present m n ns e = ground (arith, e, has_number-sorted_keys m n)

pub sorted_keys-none : (m : Chunks) → sorted_keys m ≡ [] → length m ≡ 0
sorted_keys-none m e = ground (arith, e, sorted_keys-length m)

-- Each key of the map is among the numbers.
abbrev pub Covers : List ℕ → Chunks → Type 0
Covers ns = All (λ e. has_number ns e.0 ≡ true)

pub Covers-missing :
    (n : ℕ) (ns : List ℕ) (m : Chunks) → get_chunk m n ≡ none → Covers (n ∷ ns) m → Covers ns m
Covers-missing n ns [] e h = h
Covers-missing n ns ((k, b) ∷ m) e h =
    (ground (arith, e, h.0), Covers-missing n ns m (ground (arith, e)) h.1)

pub Covers-delete_chunk :
    (n : ℕ) (ns : List ℕ) (m : Chunks) → Covers (n ∷ ns) m → Covers ns (delete_chunk m n)
Covers-delete_chunk n ns [] h = h
Covers-delete_chunk n ns ((k, b) ∷ m) h = elim (Bool-cases (same_number k n)) [
  | inl e ↦ simp e (Covers-delete_chunk n ns m h.1)
  | inr e ↦ simp e ((ground (arith, e, h.0), Covers-delete_chunk n ns m h.1))
]

pub Covers-nothing : (m : Chunks) → Covers [] m → m ≡ []
Covers-nothing [] h = refl
Covers-nothing ((k, b) ∷ m) h = absurd (cc (h.0))

-- The first of the sorted keys is a key of the map.
pub sorted_keys_first-From :
    (m : Chunks) (n : ℕ) (ns : List ℕ) {k : ℕ} → sorted_keys m ≡ n ∷ ns → From k m → k ≤ n
sorted_keys_first-From m n ns {k = k} e h = elim (Option-cases (get_chunk m n)) [
  | inl missing ↦ absurd (cc (missing, sorted_keys-first_present m n ns e))
  | inr (b, there) ↦ get_chunk-From m n h there
]

pub From-covered :
    (n : ℕ) (ns : List ℕ) (m : Chunks) → Ascending (n ∷ ns) → Covers (n ∷ ns) m → From n m
From-covered n ns m up covers =
    All-map (λ c h. Ascending_least n (n ∷ ns) c.0 (omega arith, up.0) h) m covers
