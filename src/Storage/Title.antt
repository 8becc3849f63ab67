-- ===== src/Storage/Title.antt =====
-- The titles of conversations: the titles that normalizePersistedState in
-- packages/storage/src/index.ts keeps and those that it puts where there is none.
use Prim.Native.Char.{Char}
use Prim.Native.String.{String, ◌∷◌}
use text.Mathlib.TextLemmas.{cons-ne-nil}
use skypier_chat.Prelude.{
  ℕ, ◌≡◌, refl, ap, false, Option, some, ◌==◌, or_else, truthy, Bool-cases, inl, inr, eq_iff,
}
use skypier_chat.Prelude.Text.{trim, trim_idem, decimal, trim_end-decimal, is_space}
use skypier_chat.Protocol.{ConversationKind, direct, group}

-- `Group (${n})`, written out by its characters up to the number
abbrev pub group_title : ℕ → String
group_title n = "G" ∷ "r" ∷ "o" ∷ "u" ∷ "p" ∷ " " ∷ "(" ∷ decimal n ")"

unfoldable pub default_title : ConversationKind → ℕ → String
default_title group n = group_title n
default_title direct n = "Direct chat"

abbrev pub normal_title : Option String → ConversationKind → ℕ → String
normal_title title kind n = or_else (truthy (some (trim (or_else title "")))) (default_title kind n)

-- A title that is kept as it is.
abbrev Kept : String → Type 0
Kept t = (trim t ≡ t) × ((t == "") ≡ false)

full-of_cons : (c : Char) (s : String) → (c ∷ s == "") ≡ false
full-of_cons c s = elim (Bool-cases (c ∷ s == "")) [
  | inl empty ↦ absurd (cons-ne-nil c s ((eq_iff (c ∷ s) "").0 empty))
  | inr full ↦ full
]

default_title-Kept : (kind : ConversationKind) (n : ℕ) → Kept (default_title kind n)
unfolding default_title trim is_space
default_title-Kept group n = (
  ap (λ s. "G" ∷ "r" ∷ "o" ∷ "u" ∷ "p" ∷ " " ∷ "(" ∷ s) (trim_end-decimal n ")" refl),
  full-of_cons "G" ("r" ∷ "o" ∷ "u" ∷ "p" ∷ " " ∷ "(" ∷ decimal n ")"),
)
default_title-Kept direct n = (refl, refl)

normal_title-Kept :
    (title : Option String) (kind : ConversationKind) (n : ℕ) → Kept (normal_title title kind n)
normal_title-Kept title kind n = elim (Bool-cases (trim (or_else title "") == "")) [
  | inl empty ↦ rw empty (default_title-Kept kind n)
  | inr full ↦ rw full (trim_idem (or_else title ""), full)
]

normal_title_of_Kept :
    (t : String) (kind : ConversationKind) (n : ℕ) → Kept t → normal_title (some t) kind n ≡ t
normal_title_of_Kept t kind n h = rw (h.0, h.1) refl

pub normal_title_idem :
    (title : Option String) (kind : ConversationKind) (n : ℕ)
    → normal_title (some (normal_title title kind n)) kind n ≡ normal_title title kind n
normal_title_idem title kind n =
    normal_title_of_Kept (normal_title title kind n) kind n (normal_title-Kept title kind n)
