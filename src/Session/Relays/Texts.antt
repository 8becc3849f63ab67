-- ===== src/Session/Relays/Texts.antt =====
-- Lists of texts as one text: sort(), join('|') and split('|').filter(Boolean), over texts that
-- are ASCII, whose order by code points is the one of JavaScript.
use Prim.Native.String.{String, [], ◌∷◌, ◌++◌, compare}
use Prim.Native.Char.{code}
use mathlib.Core.List.{List}
use text.Mathlib.Text.{is_le, ◌==◌}
use mathlib.Core.Bool.{not}
use skypier_chat.Prelude.{select, if◌then◌else◌}
use skypier_chat.Prelude.Text.{between}

abbrev no_texts : List String
no_texts = List.[]

abbrev with_text : String → List String → List String
with_text t ts = List.◌∷◌ t ts

abbrev insert_text : String → List String → List String
insert_text t List.[] = with_text t no_texts
insert_text t (List.◌∷◌ u us) =
    let rest = insert_text t us in
    if is_le (compare t u) then with_text t (with_text u us) else with_text u rest

unfoldable pub sorted : List String → List String
sorted List.[] = no_texts
sorted (List.◌∷◌ t ts) = insert_text t (sorted ts)

abbrev join_after : String → List String → String
join_after t List.[] = t
join_after t (List.◌∷◌ u us) = t ++ "|" ++ join_after u us

unfoldable pub join : List String → String
join List.[] = ""
join (List.◌∷◌ t ts) = join_after t ts

-- The text up to the first bar, and the texts between the bars behind it.
abbrev pieces : String → String × List String
pieces [] = ("", no_texts)
pieces (c ∷ s) =
    let (first, rest) = pieces s in
    if between 124 124 (code c) then ("", with_text first rest) else (c ∷ first, rest)

unfoldable pub split : String → List String
split s = let (first, rest) = pieces s in select (λ t. not (t == "")) (with_text first rest)
