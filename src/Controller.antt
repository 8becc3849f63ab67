-- ===== src/Controller.antt =====
-- The chat controller of apps/web/src/useChatController.ts: what its callbacks and helpers do with
-- the chat state. `persistState`, which stores each new state, is Storage/Vault's `save_state`.
pub mod Reactions
pub mod Bundles
pub mod Conversations
pub mod Edits
pub mod Groups
pub mod Inbound
pub mod Calls
pub mod Replay
mod Tests
use skypier_chat.Prelude.{◌≡◌, refl, String, ◌==◌, Bool, false, ◌||◌, List, [], ◌∷◌, or_else}
use skypier_chat.Prelude.Text.{after_prefix}

-- Each element after a change, and whether any changed.
abbrev pub map_changes {ℓ} : {A : Type ℓ} → (A → Bool × A) → List A → Bool × List A
map_changes f [] = (false, [])
map_changes f (x ∷ xs) =
    let (changed, y) = f x in
    let (rest_changed, ys) = map_changes f xs in (changed || rest_changed, y ∷ ys)

pub map_changes_again {ℓ} :
    {A : Type ℓ} (f : A → Bool × A)
    → ((x : A) → f (f x).1 ≡ (false, (f x).1))
    → (xs : List A) → map_changes f (map_changes f xs).1 ≡ (false, (map_changes f xs).1)
map_changes_again f h [] = refl
map_changes_again f h (x ∷ xs) = rw (h x, map_changes_again f h xs) refl

unfoldable pub normalize_network_message_id : String → String
normalize_network_message_id id = or_else (after_prefix id "net-") id

unfoldable pub message_ids_match : String → String → Bool
message_ids_match left right =
    left == right || normalize_network_message_id left == normalize_network_message_id right
