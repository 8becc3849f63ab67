-- ===== src/Prelude/Lists.antt =====
-- Lists measured by native numbers, the array methods of JavaScript, and predicates on lists.
use Prim.Native.Nat.{ℕ, suc, ◌+◌, ◌≤◌}
use mathlib.Core.Path.{◌≡◌, refl, ap}
use mathlib.Core.Bool.{Bool, true, false, ◌||◌, ◌&&◌}
use mathlib.Core.Option.{Option, none, some}
use mathlib.Core.List.{List, [], ◌∷◌, ◌++◌, map}
use native.Mathlib.Omega.{arith}
use mathlib.Core.Logic.{inl, inr}
use skypier_chat.Prelude.Tests.{if◌then◌else◌, Option-cases}

module _ {ℓ} {A : Type ℓ} where
  abbrev pub length : List A → ℕ
  length [] = 0
  length (x ∷ xs) = suc (length xs)

  pub length-append : (xs ys : List A) → length (xs ++ ys) ≡ length xs + length ys
  length-append [] ys = omega arith
  length-append (x ∷ xs) ys = omega (arith, length-append xs ys)

  -- xs.some(p), xs.every(p)
  abbrev pub any : (A → Bool) → List A → Bool
  any p [] = false
  any p (x ∷ xs) = p x || any p xs

  abbrev pub all : (A → Bool) → List A → Bool
  all p [] = true
  all p (x ∷ xs) = p x && all p xs

  -- xs.find(p)
  abbrev pub find : (A → Bool) → List A → Option A
  find p [] = none
  find p (x ∷ xs) = if p x then some x else find p xs

  -- xs.filter(p)
  abbrev pub select : (A → Bool) → List A → List A
  select p [] = []
  select p (x ∷ xs) = let rest = select p xs in if p x then x ∷ rest else rest

  -- `xs.findIndex(p)` with `xs.splice(index, 1)`: the first match and the others in order.
  abbrev pub with_head : A → Option (A × List A) → Option (A × List A)
  with_head x none = none
  with_head x (some (y, ys)) = some (y, x ∷ ys)

  abbrev pub remove_first : (A → Bool) → List A → Option (A × List A)
  remove_first p [] = none
  remove_first p (x ∷ xs) = if p x then some (x, xs) else with_head x (remove_first p xs)

  abbrev pub All {κ} : (A → Type κ) → List A → Type κ
  All P [] = Unit
  All P (x ∷ xs) = P x × All P xs

  pub All-append {κ} : (P : A → Type κ) (xs ys : List A) → All P xs → All P ys → All P (xs ++ ys)
  All-append P [] ys hx hy = hy
  All-append P (x ∷ xs) ys hx hy = (hx.0, All-append P xs ys hx.1 hy)

  pub All-left {κ} : (P : A → Type κ) (xs ys : List A) → All P (xs ++ ys) → All P xs
  All-left P [] ys h = tt
  All-left P (x ∷ xs) ys h = (h.0, All-left P xs ys h.1)

  pub All-right {κ} : (P : A → Type κ) (xs ys : List A) → All P (xs ++ ys) → All P ys
  All-right P [] ys h = h
  All-right P (x ∷ xs) ys h = All-right P xs ys h.1

  pub All-middle {κ} :
      (P : A → Type κ) (xs : List A) (y : A) (zs : List A)
      → All P (xs ++ zs)
      → P y
      → All P (xs ++ y ∷ zs)
  All-middle P [] y zs h py = (py, h)
  All-middle P (x ∷ xs) y zs h py = (h.0, All-middle P xs y zs h.1 py)

  pub All-map {κ κ'} :
      {P : A → Type κ} {Q : A → Type κ'}
      → ((x : A) → P x → Q x)
      → (xs : List A) → All P xs
      → All Q xs
  All-map f [] h = tt
  All-map f (x ∷ xs) h = (f x h.0, All-map f xs h.1)

  pub All-of_any : (p : A → Bool) (xs : List A) → any p xs ≡ false → All (λ x. p x ≡ false) xs
  All-of_any p [] h = tt
  All-of_any p (x ∷ xs) h = (ground arith, All-of_any p xs (ground arith))

  pub All-of_guarded :
      (b : Bool) (p : A → Bool) (xs : List A)
      → (b && any p xs) ≡ false
      → All (λ x. (b && p x) ≡ false) xs
  All-of_guarded true p xs h = All-of_any p xs h
  All-of_guarded false p [] h = tt
  All-of_guarded false p (x ∷ xs) h = (refl, All-of_guarded false p xs h)

  pub any-append : (p : A → Bool) (xs ys : List A) → any p (xs ++ ys) ≡ (any p xs || any p ys)
  any-append p [] ys = refl
  any-append p (x ∷ xs) ys = ground (arith, any-append p xs ys)

  pub length-select : (p : A → Bool) (xs : List A) → length (select p xs) ≤ length xs
  length-select p [] = omega arith
  length-select p (x ∷ xs) = ground (arith, length-select p xs)

module _ {ℓ κ} {A : Type ℓ} {B : Type κ} where
  pub length-map : (f : A → B) (xs : List A) → length (map f xs) ≡ length xs
  length-map f [] = refl
  length-map f (x ∷ xs) = ap suc (length-map f xs)

module _ {ℓ} {A : Type ℓ} (p : A → Bool) where
  -- How `remove_first` ends, with the length of what is left.
  pub length-remove_first :
      (xs : List A) {x : A} {rest : List A}
      → remove_first p xs ≡ some (x, rest)
      → length xs ≡ suc (length rest)
  length-remove_first [] h = cc
  length-remove_first (y ∷ xs) h = elim (Option-cases (remove_first p xs)) [
    | inl e ↦ ground (arith, e)
    | inr ((z, r), e) ↦ ground (arith, e, length-remove_first xs e)
  ]

module _ {ℓ κ} {A : Type ℓ} (P : A → Type κ) where
  -- What holds of every element holds of the one that is removed and of the others.
  abbrev pub AllRemoved : Option (A × List A) → Type κ
  AllRemoved none = Unit
  AllRemoved (some (x, rest)) = P x × All P rest

  with_head-AllRemoved :
      (y : A) (o : Option (A × List A)) → P y → AllRemoved o → AllRemoved (with_head y o)
  with_head-AllRemoved y none py h = tt
  with_head-AllRemoved y (some (x, rest)) py h = (h.0, (py, h.1))

  remove_first_step :
      (b : Bool) (y : A) (xs : List A) (o : Option (A × List A))
      → P y
      → All P xs
      → AllRemoved o
      → AllRemoved (if b then some (y, xs) else with_head y o)
  remove_first_step true y xs o py h k = (py, h)
  remove_first_step false y xs o py h k = with_head-AllRemoved y o py k

  pub remove_first-AllRemoved :
      (p : A → Bool) (xs : List A) → All P xs → AllRemoved (remove_first p xs)
  remove_first-AllRemoved p [] h = tt
  remove_first-AllRemoved p (y ∷ xs) h =
      remove_first_step (p y) y xs (remove_first p xs) h.0 h.1 (remove_first-AllRemoved p xs h.1)

  select_step :
      (b : Bool) (x : A) (rest : List A) → P x → All P rest → All P (if b then x ∷ rest else rest)
  select_step true x rest px h = (px, h)
  select_step false x rest px h = h

  pub All-select : (p : A → Bool) (xs : List A) → All P xs → All P (select p xs)
  All-select p [] h = tt
  All-select p (x ∷ xs) h = select_step (p x) x (select p xs) h.0 (All-select p xs h.1)
