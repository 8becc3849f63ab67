-- ===== src/Controller/Edits.antt =====
-- Edits of the chat state in apps/web/src/useChatController.ts: markConversationRead,
-- updateMessageDeliveryStatus, updateMessageCiphertext, updateGroupTitle, deleteConversation,
-- deleteMessage, saveContact and deleteContact.
pub mod Deleted
use skypier_chat.Prelude.{
  String, ◌==◌, Bool, true, false, not, ◌&&◌, Option, none, some, List, [], ◌∷◌, ◌++◌, map, any,
  find, select, ltb, if◌then◌else◌,
}
use skypier_chat.Prelude.Maps.{Dict, delete}
use skypier_chat.Prelude.Text.{trim}
use skypier_chat.Protocol.{Conversation, ChatMessage, MessageCiphertext, DeliveryState, Timestamp}
use skypier_chat.Storage.{Contact}
use skypier_chat.Storage.Delivery.{update_message_delivery}
use skypier_chat.Controller.{map_changes}
use skypier_chat.Controller.Conversations.{
  ControllerState, contacts_of, with_snap, set_conversations,
}

abbrev read_conversation : String → Conversation → Bool × Conversation
read_conversation id c =
    if c.id == id && ltb 0 c.unread_count then (true, record c { unread_count = 0 }) else (false, c)

unfoldable mark_conversation_read : String → ControllerState → ControllerState
mark_conversation_read id s =
    let (changed, cs) = map_changes (read_conversation id) s.snap.conversations in
    if id == "" then s else if changed then set_conversations cs s else s

unfoldable update_message_delivery_status :
    String → DeliveryState → ControllerState → ControllerState
update_message_delivery_status id delivery s =
    with_snap (update_message_delivery s.snap id delivery) s

-- The first message with the identifier, where the list has one.
abbrev seal_first : String → MessageCiphertext → List ChatMessage → Option (List ChatMessage)
seal_first id sealed [] = none
seal_first id sealed (m ∷ ms) =
    let rest = seal_first id sealed ms in
    if m.id == id
    then some (record m { ciphertext = sealed } ∷ ms)
    else elim rest [ none ↦ none | some ns ↦ some (m ∷ ns) ]

-- A loop over the conversations' lists that ends at the first that the function changes.
abbrev change_first :
    (List ChatMessage → Option (List ChatMessage))
    → Dict (List ChatMessage)
    → Dict (List ChatMessage)
change_first f [] = []
change_first f ((k, ms) ∷ m) =
    let rest = change_first f m in elim (f ms) [ none ↦ (k, ms) ∷ rest | some ns ↦ (k, ns) ∷ m ]

abbrev pub set_messages : Dict (List ChatMessage) → ControllerState → ControllerState
set_messages m s = with_snap (record s.snap { messages_by_conversation = m }) s

unfoldable update_message_ciphertext :
    String → MessageCiphertext → ControllerState → ControllerState
update_message_ciphertext id sealed s =
    set_messages (change_first (seal_first id sealed) s.snap.messages_by_conversation) s

abbrev title_conversation : String → String → Conversation → Conversation
title_conversation id title c = if c.id == id then record c { title = title } else c

unfoldable update_group_title : String → String → ControllerState → ControllerState
update_group_title id title s =
    if trim title == ""
    then s
    else set_conversations (map (title_conversation id (trim title)) s.snap.conversations) s

unfoldable pub delete_conversation : String → ControllerState → ControllerState
delete_conversation id s = record {
  snap = record s.snap {
    conversations = select (λ c. not (c.id == id)) s.snap.conversations;
    messages_by_conversation = delete s.snap.messages_by_conversation id;
  };
  selected = if s.selected == id then "" else s.selected;
}

abbrev without_message : String → List ChatMessage → Option (List ChatMessage)
without_message id ms =
    if any (λ m. m.id == id) ms then some (select (λ m. not (m.id == id)) ms) else none

unfoldable delete_message : String → ControllerState → ControllerState
delete_message id s =
    set_messages (change_first (without_message id) s.snap.messages_by_conversation) s

-- What saveContact is given beside the names.
pub record ContactExtras : Type 0 where
  pub bio : Option String
  pub ens_name : Option String
  pub eth_address : Option String
  pub ens_name_verified : Option Bool

abbrev or_known {ℓ} : {A : Type ℓ} → Option A → Option A → Option A
or_known none o = o
or_known (some a) o = some a

abbrev pub field {ℓ} : {A : Type ℓ} → (Contact → Option A) → Option Contact → Option A
field f none = none
field f (some c) = f c

abbrev merged_contact :
    String → String → String → Option String → ContactExtras → Timestamp → Option Contact → Contact
merged_contact id peer name avatar extras now known = record {
  id = id;
  peer_id = peer;
  display_name = name;
  is_bot = field (λ c. c.is_bot) known;
  avatar_url = or_known avatar (field (λ c. c.avatar_url) known);
  bio = or_known extras.bio (field (λ c. c.bio) known);
  ens_name = or_known extras.ens_name (field (λ c. c.ens_name) known);
  eth_address = or_known extras.eth_address (field (λ c. c.eth_address) known);
  ens_name_verified = or_known extras.ens_name_verified (field (λ c. c.ens_name_verified) known);
  added_at = elim known [ none ↦ now | some c ↦ c.added_at ];
}

abbrev other_contacts : String → List Contact → List Contact
other_contacts id cs = select (λ c. not (c.id == id)) cs

abbrev set_contacts : List Contact → ControllerState → ControllerState
set_contacts cs s = with_snap (record s.snap { contacts = some cs }) s

unfoldable save_contact :
    String
    → String
    → String
    → Option String
    → ContactExtras
    → Timestamp
    → ControllerState
    → ControllerState
save_contact id peer name avatar extras now s =
    let cs = contacts_of s.snap in
    set_contacts
      (other_contacts id cs
        ++ merged_contact id peer name avatar extras now (find (λ c. c.id == id) cs) ∷ [])
      s

unfoldable delete_contact : String → ControllerState → ControllerState
delete_contact id s = set_contacts (other_contacts id (contacts_of s.snap)) s
