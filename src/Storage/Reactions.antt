-- ===== src/Storage/Reactions.antt =====
-- Reactions to a message: toggleMessageReaction in packages/storage/src/index.ts.
pub mod View
pub mod Tidy
use skypier_chat.Prelude.{
  String, Bool, true, false, not, Option, none, some, List, [], ◌∷◌, ◌++◌, map, any, find, select,
  if◌then◌else◌, ◌==◌,
}
use skypier_chat.Protocol.{Reaction, ChatMessage}

-- authors.includes(author)
abbrev pub includes : List String → String → Bool
includes authors author = any (λ a. a == author) authors

abbrev is_empty : List String → Bool
is_empty [] = true
is_empty (a ∷ names) = false

unfoldable pub next_authors : List String → String → List String
next_authors authors author =
    if includes authors author
    then select (λ a. not (a == author)) authors
    else authors ++ author ∷ []

abbrev pub set_authors : String → List String → List Reaction → List Reaction
set_authors emoji authors =
    map (λ r. if r.emoji == emoji then record r { authors = authors } else r)

abbrev pub store_authors : String → List String → List Reaction → List Reaction
store_authors emoji authors rs =
    if is_empty authors
    then select (λ r. not (r.emoji == emoji)) rs
    else set_authors emoji authors rs

abbrev toggle_found : Option Reaction → String → String → List Reaction → List Reaction
toggle_found none emoji author rs = rs ++ record { emoji = emoji; authors = author ∷ [] } ∷ []
toggle_found (some r) emoji author rs = store_authors emoji (next_authors r.authors author) rs

unfoldable pub toggle_reactions : List Reaction → String → String → List Reaction
toggle_reactions rs emoji author = toggle_found (find (λ r. r.emoji == emoji) rs) emoji author rs

unfoldable pub toggle_message_reaction : ChatMessage → String → String → ChatMessage
toggle_message_reaction m emoji author = record m {
  reactions = toggle_reactions m.reactions emoji author;
}
