-- ===== src/Storage/Reactions/View.antt =====
-- What a reader sees of the reactions: who reacted with what.
use skypier_chat.Prelude.{
  String, ◌≡◌, refl, Bool, true, false, not, ◌&&◌, ◌||◌, none, some, List, [], ◌∷◌, ◌++◌, any, find,
  select, if◌then◌else◌, ◌==◌, eq_iff, arith, Bool-cases, Option-cases, inl, inr,
}
use skypier_chat.Protocol.{Reaction, ChatMessage}
use skypier_chat.Storage.Reactions.{
  includes, next_authors, set_authors, store_authors, toggle_reactions, toggle_message_reaction,
}

-- The authors shown beside an emoji.
abbrev pub authors_of : List Reaction → String → List String
authors_of [] emoji = []
authors_of (r ∷ rs) emoji = if r.emoji == emoji then r.authors else authors_of rs emoji

abbrev pub has_reacted : List Reaction → String → String → Bool
has_reacted rs emoji author = includes (authors_of rs emoji) author

pub includes-append :
    (names bs : List String) (x : String)
    → includes (names ++ bs) x ≡ (includes names x || includes bs x)
includes-append [] bs x = refl
includes-append (a ∷ names) bs x = ground (arith, includes-append names bs x)

pub includes-select :
    (names : List String) (a x : String)
    → includes (select (λ y. not (y == a)) names) x ≡ (if a == x then false else includes names x)
includes-select [] a x = ground arith
includes-select (b ∷ names) a x =
    ground (arith, includes-select names a x, eq_iff b a, eq_iff b x, eq_iff a x)

-- An author's name is there after the toggle exactly when it was not there before it; no other
-- name comes or goes.
includes-next_authors :
    (names : List String) (a x : String)
    → includes (next_authors names a) x
      ≡ (if a == x then not (includes names a) else includes names x)
unfolding next_authors
includes-next_authors names a x =
    ground (arith, includes-select names a x, includes-append names (a ∷ []) x, eq_iff a x)

pub authors_of-append :
    (rs : List Reaction) (e e' a : String)
    → find (λ r. r.emoji == e) rs ≡ none
    → authors_of (rs ++ record { emoji = e; authors = a ∷ [] } ∷ []) e'
      ≡ (if e == e' then a ∷ [] else authors_of rs e')
authors_of-append [] e e' a h = refl
authors_of-append (r ∷ rs) e e' a h =
    ground (arith, authors_of-append rs e e' a, eq_iff r.emoji e, eq_iff r.emoji e', eq_iff e e')

authors_of-select :
    (rs : List Reaction) (e e' : String)
    → authors_of (select (λ r. not (r.emoji == e)) rs) e'
      ≡ (if e == e' then [] else authors_of rs e')
authors_of-select [] e e' = ground arith
authors_of-select (r ∷ rs) e e' =
    ground (arith, authors_of-select rs e e', eq_iff r.emoji e, eq_iff r.emoji e', eq_iff e e')

pub authors_of-set_authors :
    (rs : List Reaction) (e e' : String) (names : List String)
    → authors_of (set_authors e names rs) e'
      ≡ (if e == e' && any (λ r. r.emoji == e) rs then names else authors_of rs e')
authors_of-set_authors [] e e' names = ground arith
authors_of-set_authors (r ∷ rs) e e' names =
    ground (
      arith,
      authors_of-set_authors rs e e' names,
      eq_iff r.emoji e,
      eq_iff r.emoji e',
      eq_iff e e',
    )

pub find-authors_of :
    (rs : List Reaction) (e : String) (r : Reaction)
    → find (λ x. x.emoji == e) rs ≡ some r
    → (any (λ x. x.emoji == e) rs ≡ true) × (authors_of rs e ≡ r.authors)
find-authors_of [] e r h = cc
find-authors_of (x ∷ rs) e r h = ground (arith, find-authors_of rs e r)

pub find-authors_of_missing :
    (rs : List Reaction) (e : String) → find (λ x. x.emoji == e) rs ≡ none → authors_of rs e ≡ []
find-authors_of_missing [] e h = refl
find-authors_of_missing (x ∷ rs) e h = ground (arith, find-authors_of_missing rs e)

pub authors_of-store_authors :
    (rs : List Reaction) (e e' : String) (names : List String)
    → any (λ x. x.emoji == e) rs ≡ true
    → authors_of (store_authors e names rs) e' ≡ (if e == e' then names else authors_of rs e')
authors_of-store_authors rs e e' [] h = authors_of-select rs e e'
authors_of-store_authors rs e e' (a ∷ names) h =
    ground (arith, authors_of-set_authors rs e e' (a ∷ names))

authors_of-toggle_reactions :
    (rs : List Reaction) (e a e' : String)
    → authors_of (toggle_reactions rs e a) e'
      ≡ (if e == e' then next_authors (authors_of rs e) a else authors_of rs e')
unfolding toggle_reactions
authors_of-toggle_reactions rs e a e' = elim (Option-cases (find (λ r. r.emoji == e) rs)) [
  | inl new ↦ rw new (
      unfold next_authors in
      rw (find-authors_of_missing rs e new) (authors_of-append rs e e' a new))
  | inr (r, known) ↦
      let k = find-authors_of rs e r known in
      rw (known, k.1) (authors_of-store_authors rs e e' (next_authors r.authors a) k.0)
]

-- A toggle by an author with an emoji adds the author beside that emoji, if the author was not
-- there, and else takes the author out; what anybody else is shown with, and what the author is
-- shown with beside other emojis, stays.
pub has_reacted-toggle_message_reaction :
    (m : ChatMessage) (emoji author emoji' author' : String)
    → has_reacted (toggle_message_reaction m emoji author).reactions emoji' author' ≡ (
        if emoji == emoji' && author == author'
        then not (has_reacted m.reactions emoji author)
        else has_reacted m.reactions emoji' author')
unfolding toggle_message_reaction
has_reacted-toggle_message_reaction m e a e' a' =
    rw (authors_of-toggle_reactions m.reactions e a e') (elim (Bool-cases (e == e')) [
      | inl same ↦
          rw (same, ← (eq_iff e e').0 same) (includes-next_authors (authors_of m.reactions e) a a')
      | inr other ↦ rw other refl
    ])
