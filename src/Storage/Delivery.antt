-- ===== src/Storage/Delivery.antt =====
-- The delivery state of the stored messages: updateMessageDelivery in packages/storage/src/index.ts.
pub mod View
use skypier_chat.Prelude.{
  String, Bool, true, false, not, ◌&&◌, Option, none, some, List, [], ◌∷◌, if◌then◌else◌, ◌==◌,
}
use skypier_chat.Prelude.Maps.{Dict}
use skypier_chat.Storage.{PersistedChatState}
use skypier_chat.Protocol.{
  ChatMessage, DeliveryState, sending, local_only, queued, sent, delivered, read,
}

-- `a === b` on delivery states
abbrev pub same_delivery : DeliveryState → DeliveryState → Bool
same_delivery sending sending = true
same_delivery local_only local_only = true
same_delivery queued queued = true
same_delivery sent sent = true
same_delivery delivered delivered = true
same_delivery read read = true
same_delivery _ _ = false

-- What the loop finds in one conversation: the messages with the first one that has the id
-- changed, or none where there is no such message or its delivery is the new one already.
abbrev pub with_message : ChatMessage → Option (List ChatMessage) → Option (List ChatMessage)
with_message m none = none
with_message m (some ms) = some (m ∷ ms)

unfoldable pub update_first : List ChatMessage → String → DeliveryState → Option (List ChatMessage)
update_first [] id d = none
update_first (m ∷ ms) id d =
    let rest = update_first ms id d in
    if m.id == id
    then if same_delivery m.delivery d then none else some (record m { delivery = d } ∷ ms)
    else with_message m rest

-- The loop over the conversations, in the order of the object's keys; it stops at the first change.
abbrev pub with_conversation :
    String → List ChatMessage → Option (Dict (List ChatMessage)) → Option (Dict (List ChatMessage))
with_conversation id ms none = none
with_conversation id ms (some m) = some ((id, ms) ∷ m)

abbrev pub first_change :
    String
    → List ChatMessage
    → Dict (List ChatMessage)
    → Option (List ChatMessage)
    → Option (Dict (List ChatMessage))
    → Option (Dict (List ChatMessage))
first_change conv ms m (some ms') rest = some ((conv, ms') ∷ m)
first_change conv ms m none rest = with_conversation conv ms rest

unfoldable pub update_conversations :
    Dict (List ChatMessage) → String → DeliveryState → Option (Dict (List ChatMessage))
update_conversations [] id d = none
update_conversations ((conv, ms) ∷ m) id d =
    let rest = update_conversations m id d in first_change conv ms m (update_first ms id d) rest

abbrev pub set_messages : PersistedChatState → Option (Dict (List ChatMessage)) → PersistedChatState
set_messages s none = s
set_messages s (some m) = record s { messages_by_conversation = m }

-- updateMessageDelivery: where nothing changes it returns the state that it was given
unfoldable pub update_message_delivery :
    PersistedChatState → String → DeliveryState → PersistedChatState
update_message_delivery s id d =
    set_messages s (update_conversations s.messages_by_conversation id d)
