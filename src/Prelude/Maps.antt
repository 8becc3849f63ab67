-- ===== src/Prelude/Maps.antt =====
-- Sets of texts, and `Map<string, V>` as an association list; a write puts the newest entry first.
use Prim.Native.String.{String}
use mathlib.Core.Path.{◌≡◌}
use mathlib.Core.Option.{Option, none, some}
use mathlib.Core.List.{List, [], ◌∷◌}
use native.Mathlib.Omega.{arith}
use text.Mathlib.Text.{◌==◌}
use text.Mathlib.TextEquality.{eq_iff}
use skypier_chat.Prelude.Lists.{any}
use skypier_chat.Prelude.Tests.{if◌then◌else◌}

abbrev pub Dict {ℓ} : Type ℓ → Type ℓ
Dict V = List (String × V)

module _ {ℓ} {V : Type ℓ} where
  unfoldable pub get : Dict V → String → Option V
  get [] k = none
  get ((j, v) ∷ m) k = if j == k then some v else get m k

  unfoldable pub delete : Dict V → String → Dict V
  delete [] k = []
  delete ((j, v) ∷ m) k = let rest = delete m k in if j == k then rest else (j, v) ∷ rest

  unfoldable pub put : Dict V → String → V → Dict V
  put m k v = (k, v) ∷ delete m k

  pub get-delete :
      (m : Dict V) (k j : String) → get (delete m k) j ≡ (if k == j then none else get m j)
  unfolding get delete
  get-delete [] k j = ground arith
  get-delete ((i, v) ∷ m) k j = ground (arith, get-delete m k j, eq_iff i k, eq_iff i j, eq_iff k j)

  pub get-put :
      (m : Dict V) (k j : String) (v : V) → get (put m k v) j ≡ (if k == j then some v else get m j)
  unfolding get put
  get-put m k j v = ground (arith, get-delete m k j, eq_iff k j)

-- Array.from(new Set(texts)): each text once, in the order of the first ones
abbrev pub distinct_from : List String → List String → List String
distinct_from seen [] = []
distinct_from seen (t ∷ ts) =
    let rest = distinct_from seen ts in
    let new_rest = distinct_from (t ∷ seen) ts in
    if any (λ x. x == t) seen then rest else t ∷ new_rest

unfoldable pub distinct : List String → List String
distinct ts = distinct_from [] ts
