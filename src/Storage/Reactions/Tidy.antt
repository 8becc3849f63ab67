-- ===== src/Storage/Reactions/Tidy.antt =====
-- The reactions stay tidy.
use mathlib.Core.Path.{subst}
use skypier_chat.Prelude.{
  String, ◌≡◌, refl, ◌≢◌, false, not, none, some, List, [], ◌∷◌, ◌++◌, find, select, ◌==◌, eq_iff,
  arith, All, All-append, All-select, Bool-cases, Option-cases, inl, inr,
}
use skypier_chat.Protocol.{Reaction, ChatMessage}
use skypier_chat.Storage.Reactions.{
  includes, next_authors, set_authors, store_authors, toggle_reactions, toggle_message_reaction,
}
use skypier_chat.Storage.Reactions.View.{includes-append, includes-select}

-- Each emoji stands once, and nobody stands twice beside it.
abbrev pub Unlisted : String → List Reaction → Type 0
Unlisted emoji rs = All (λ r. (r.emoji == emoji) ≡ false) rs

abbrev pub NoRepeats : List String → Type 0
NoRepeats [] = Unit
NoRepeats (a ∷ names) = (includes names a ≡ false) × NoRepeats names

abbrev pub IsTidy : List Reaction → Type 0
IsTidy [] = Unit
IsTidy (r ∷ rs) = Unlisted r.emoji rs × NoRepeats r.authors × (r.authors ≢ []) × IsTidy rs

Unlisted-append :
    (e : String) (rs : List Reaction) (r : Reaction)
    → Unlisted e rs
    → (r.emoji == e) ≡ false
    → Unlisted e (rs ++ r ∷ [])
Unlisted-append e rs r h k = All-append _ rs (r ∷ []) h (k, tt)

Unlisted-set_authors :
    (e e' : String) (names : List String) (rs : List Reaction)
    → Unlisted e rs
    → Unlisted e (set_authors e' names rs)
Unlisted-set_authors e e' names [] h = tt
Unlisted-set_authors e e' names (r ∷ rs) h = (ground arith, Unlisted-set_authors e e' names rs h.1)

NoRepeats-select :
    (a : String) (names : List String)
    → NoRepeats names
    → NoRepeats (select (λ x. not (x == a)) names)
NoRepeats-select a [] h = tt
NoRepeats-select a (b ∷ names) h = elim (Bool-cases (b == a)) [
  | inl same ↦ rw same (NoRepeats-select a names h.1)
  | inr other ↦ rw other (ground (arith, includes-select names a b), NoRepeats-select a names h.1)
]

NoRepeats-push :
    (names : List String) (a : String)
    → includes names a ≡ false
    → NoRepeats names
    → NoRepeats (names ++ a ∷ [])
NoRepeats-push [] a h k = (refl, tt)
NoRepeats-push (b ∷ names) a h k = (
  ground (arith, includes-append names (a ∷ []) b, eq_iff a b, eq_iff b a),
  NoRepeats-push names a (ground arith) k.1,
)

NoRepeats-next_authors :
    (names : List String) (a : String) → NoRepeats names → NoRepeats (next_authors names a)
unfolding next_authors
NoRepeats-next_authors names a h = elim (Bool-cases (includes names a)) [
  | inl there ↦ rw there (NoRepeats-select a names h)
  | inr new ↦ rw new (NoRepeats-push names a new h)
]

IsTidy-push :
    (rs : List Reaction) (e a : String)
    → find (λ x. x.emoji == e) rs ≡ none
    → IsTidy rs
    → IsTidy (rs ++ record { emoji = e; authors = a ∷ [] } ∷ [])
IsTidy-push [] e a h k = (tt, (refl, tt), (λ c. cc c), tt)
IsTidy-push (r ∷ rs) e a h k = (
  Unlisted-append r.emoji rs _ k.0 (ground (arith, eq_iff r.emoji e, eq_iff e r.emoji)),
  k.1,
  k.2,
  IsTidy-push rs e a (ground arith) k.3,
)

IsTidy-select :
    (rs : List Reaction) (e : String) → IsTidy rs → IsTidy (select (λ r. not (r.emoji == e)) rs)
IsTidy-select [] e k = tt
IsTidy-select (r ∷ rs) e k = elim (Bool-cases (r.emoji == e)) [
  | inl same ↦ rw same (IsTidy-select rs e k.3)
  | inr other ↦ rw other (All-select _ _ rs k.0, k.1, k.2, IsTidy-select rs e k.3)
]

IsTidy-set_authors :
    (rs : List Reaction) (e a : String) (names : List String)
    → NoRepeats (a ∷ names)
    → IsTidy rs
    → IsTidy (set_authors e (a ∷ names) rs)
IsTidy-set_authors [] e a names n k = tt
IsTidy-set_authors (r ∷ rs) e a names n k = elim (Bool-cases (r.emoji == e)) [
  | inl same ↦ rw same (
    Unlisted-set_authors r.emoji e (a ∷ names) rs k.0,
    n,
    (λ c. cc c),
    IsTidy-set_authors rs e a names n k.3,
  )
  | inr other ↦ rw other (
    Unlisted-set_authors r.emoji e (a ∷ names) rs k.0,
    k.1,
    k.2,
    IsTidy-set_authors rs e a names n k.3,
  )
]

IsTidy-store_authors :
    (rs : List Reaction) (e : String) (names : List String)
    → NoRepeats names
    → IsTidy rs
    → IsTidy (store_authors e names rs)
IsTidy-store_authors rs e [] n k = IsTidy-select rs e k
IsTidy-store_authors rs e (a ∷ names) n k = IsTidy-set_authors rs e a names n k

find-NoRepeats :
    (rs : List Reaction) (e : String) (r : Reaction)
    → find (λ x. x.emoji == e) rs ≡ some r
    → IsTidy rs
    → NoRepeats r.authors
find-NoRepeats [] e r h k = cc
find-NoRepeats (x ∷ rs) e r h k = elim (Bool-cases (x.emoji == e)) [
  | inl same ↦ let f : x ≡ r = ground arith in subst (λ y. NoRepeats y.authors) f k.1
  | inr other ↦ find-NoRepeats rs e r (ground arith) k.3
]

-- A toggle keeps the list of reactions tidy: each emoji stands once, with at least one author, and
-- nobody stands twice beside it.
pub toggle_message_reaction-IsTidy :
    (m : ChatMessage) (emoji author : String)
    → IsTidy m.reactions
    → IsTidy (toggle_message_reaction m emoji author).reactions
unfolding toggle_message_reaction toggle_reactions
toggle_message_reaction-IsTidy m e a k =
    elim (Option-cases (find (λ r. r.emoji == e) m.reactions)) [
      | inl new ↦ rw new (IsTidy-push m.reactions e a new k)
      | inr (r, known) ↦ rw known (
          IsTidy-store_authors m.reactions e (next_authors r.authors a)
            (NoRepeats-next_authors r.authors a (find-NoRepeats m.reactions e r known k)) k)
    ]
