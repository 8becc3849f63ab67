-- ===== src/Controller/Reactions.antt =====
-- The reaction events of peers: upsertReactionAuthors and applyReactionEventToConversationMessages
-- in apps/web/src/useChatController.ts.
use mathlib.Core.Path.{subst}
use skypier_chat.Prelude.{
  String, ◌==◌, eq_iff, ◌≡◌, refl, Bool, true, false, not, ◌&&◌, Option, none, some, List, [], ◌∷◌,
  ◌++◌, find, select, if◌then◌else◌, arith, Bool-cases, Option-cases, inl, inr,
}
use skypier_chat.Protocol.{Reaction, ChatMessage, Timestamp}
use skypier_chat.Storage.Reactions.{includes, set_authors, store_authors}
use skypier_chat.Storage.Reactions.View.{
  authors_of, has_reacted, includes-append, includes-select, authors_of-append,
  authors_of-store_authors, authors_of-set_authors, find-authors_of, find-authors_of_missing,
}
use skypier_chat.Controller.{map_changes, message_ids_match}

pub data ReactionAction : Type 0 where
  add remove : ReactionAction

-- `v` has one value, 1.
pub record ChatReactionEvent : Type 0 where
  pub op_id : String
  pub conv_id : String
  pub msg_id : String
  pub emoji : String
  pub actor_peer_id : String
  pub action : ReactionAction
  pub at : Timestamp

-- The reactions after an event, and whether they are other ones.
abbrev add_author : Option Reaction → String → String → List Reaction → Bool × List Reaction
add_author none emoji author rs = (true, rs ++ record { emoji = emoji; authors = author ∷ [] } ∷ [])
add_author (some r) emoji author rs =
    if includes r.authors author
    then (false, rs)
    else (true, set_authors emoji (r.authors ++ author ∷ []) rs)

abbrev remove_author : Option Reaction → String → String → List Reaction → Bool × List Reaction
remove_author none emoji author rs = (false, rs)
remove_author (some r) emoji author rs =
    if includes r.authors author
    then (true, store_authors emoji (select (λ a. not (a == author)) r.authors) rs)
    else (false, rs)

abbrev upsert_reactions : ReactionAction → String → String → List Reaction → Bool × List Reaction
upsert_reactions add emoji author rs = add_author (find (λ r. r.emoji == emoji) rs) emoji author rs
upsert_reactions remove emoji author rs =
    remove_author (find (λ r. r.emoji == emoji) rs) emoji author rs

unfoldable pub upsert_reaction_authors :
    ChatMessage → String → String → ReactionAction → Bool × ChatMessage
upsert_reaction_authors m emoji author action =
    let (changed, rs) = upsert_reactions action emoji author m.reactions in
    (changed, record m { reactions = rs })

abbrev apply_to_message : ChatReactionEvent → ChatMessage → Bool × ChatMessage
apply_to_message event m =
    if message_ids_match m.id event.msg_id
    then upsert_reaction_authors m event.emoji event.actor_peer_id event.action
    else (false, m)

unfoldable pub apply_reaction_event_to_conversation_messages :
    List ChatMessage → ChatReactionEvent → Bool × List ChatMessage
apply_reaction_event_to_conversation_messages messages event =
    map_changes (apply_to_message event) messages

abbrev is_add : ReactionAction → Bool
is_add add = true
is_add remove = false

-- The authors beside an emoji after an event about the emoji `e`.
has_reacted-add_author :
    (rs : List Reaction) (e a e' a' : String)
    → has_reacted (add_author (find (λ r. r.emoji == e) rs) e a rs).1 e' a'
      ≡ (if e == e' && a == a' then true else has_reacted rs e' a')
has_reacted-add_author rs e a e' a' = elim (Option-cases (find (λ r. r.emoji == e) rs)) [
  | inl new ↦ rw new (
      rw (authors_of-append rs e e' a new)
        (ground (arith, eq_iff e e', eq_iff a a', find-authors_of_missing rs e new)))
  | inr (r, known) ↦
      let k = find-authors_of rs e r known in
      elim (Bool-cases (includes r.authors a)) [
        | inl there ↦ rw known (rw there (ground (arith, k.1, there, eq_iff e e', eq_iff a a')))
        | inr new ↦ rw known (
            rw new (
              rw (authors_of-set_authors rs e e' (r.authors ++ a ∷ []))
                (elim (Bool-cases (e == e')) [
                  | inr other ↦ rw other refl
                  | inl same ↦
                      let here : authors_of rs e' ≡ r.authors =
                        subst (λ x. authors_of rs x ≡ r.authors) ((eq_iff e e').0 same) k.1 in
                      rw (same, k.0, here) (ground (arith, includes-append r.authors (a ∷ []) a'))
                ])))
      ]
]

has_reacted-remove_author :
    (rs : List Reaction) (e a e' a' : String)
    → has_reacted (remove_author (find (λ r. r.emoji == e) rs) e a rs).1 e' a'
      ≡ (if e == e' && a == a' then false else has_reacted rs e' a')
has_reacted-remove_author rs e a e' a' = elim (Option-cases (find (λ r. r.emoji == e) rs)) [
  | inl new ↦ rw new (ground (arith, eq_iff e e', find-authors_of_missing rs e new))
  | inr (r, known) ↦
      let k = find-authors_of rs e r known in
      elim (Bool-cases (includes r.authors a)) [
        | inr gone ↦ rw known (rw gone (ground (arith, k.1, gone, eq_iff e e', eq_iff a a')))
        | inl there ↦
            let left = select (λ x. not (x == a)) r.authors in
            rw known (
              rw there (
                rw (authors_of-store_authors rs e e' left k.0) (elim (Bool-cases (e == e')) [
                  | inr other ↦ rw other refl
                  | inl same ↦
                      let here : authors_of rs e' ≡ r.authors =
                        subst (λ x. authors_of rs x ≡ r.authors) ((eq_iff e e').0 same) k.1 in
                      rw (same, here) (ground (arith, includes-select r.authors a a'))
                ])))
      ]
]

-- After a reaction event the actor is shown beside the emoji exactly where the event adds, whatever
-- was shown before; what anybody else is shown with, and the actor beside other emojis, stays.
pub has_reacted-upsert_reaction_authors :
    (m : ChatMessage) (emoji author emoji' author' : String) (action : ReactionAction)
    → has_reacted (upsert_reaction_authors m emoji author action).1.reactions emoji' author' ≡ (
        if emoji == emoji' && author == author'
        then is_add action
        else has_reacted m.reactions emoji' author')
unfolding upsert_reaction_authors
has_reacted-upsert_reaction_authors m e a e' a' add = has_reacted-add_author m.reactions e a e' a'
has_reacted-upsert_reaction_authors m e a e' a' remove =
    has_reacted-remove_author m.reactions e a e' a'
