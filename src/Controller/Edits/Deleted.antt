-- ===== src/Controller/Edits/Deleted.antt =====
-- What a deleted conversation leaves.
use skypier_chat.Prelude.{
  String, ◌==◌, eq_iff, ◌≡◌, refl, false, not, none, List, [], ◌∷◌, any, select, if◌then◌else◌,
  arith,
}
use skypier_chat.Prelude.Maps.{get, get-delete}
use skypier_chat.Protocol.{Conversation}
use skypier_chat.Controller.Conversations.{ControllerState}
use skypier_chat.Controller.Edits.{delete_conversation}

any-select :
    (id k : String) (cs : List Conversation)
    → any (λ c. c.id == k) (select (λ c. not (c.id == id)) cs)
      ≡ (if id == k then false else any (λ c. c.id == k) cs)
any-select id k [] = ground arith
any-select id k (c ∷ cs) =
    ground (arith, any-select id k cs, eq_iff c.id id, eq_iff c.id k, eq_iff id k)

-- A deletion takes the conversation with the identifier out of the list, its messages out of the
-- map, and the selection off it; every other conversation keeps its place in the list and its
-- messages.
delete_conversation_others :
    (id k : String) (s : ControllerState)
    → let t = delete_conversation id s in
      any (λ c. c.id == k) t.snap.conversations
        ≡ (if id == k then false else any (λ c. c.id == k) s.snap.conversations)
      × get t.snap.messages_by_conversation k
        ≡ (if id == k then none else get s.snap.messages_by_conversation k)
      × t.selected ≡ (if s.selected == id then "" else s.selected)
unfolding delete_conversation
delete_conversation_others id k s =
    (any-select id k s.snap.conversations, get-delete s.snap.messages_by_conversation id k, refl)
