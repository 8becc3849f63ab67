-- ===== src/Controller/Conversations/Again.antt =====
-- A chat with one peer is opened a second time.
use skypier_chat.Prelude.{
  String, ◌==◌, eq_refl, ◌≡◌, refl, Option, none, some, [], ◌∷◌, find, Bool-cases, inl, inr,
}
use skypier_chat.Prelude.Maps.{distinct}
use skypier_chat.Prelude.Text.{trim, trim_idem}
use skypier_chat.Protocol.{Conversation}
use skypier_chat.Controller.Conversations.{
  ControllerState, Maker, create_with, open_direct, create_conversation_with_peers,
  create_conversation_with_peer, is_direct_with, resolve_local_peer_id,
}

module _ (maker : Maker) where
  open_direct_again :
      (found : Option Conversation) (title again : Option String) (peer : String)
      (s : ControllerState)
      → find (is_direct_with peer) s.snap.conversations ≡ found
      → let r = open_direct maker found title peer s in create_with maker (peer ∷ []) again r.1 ≡ r
  open_direct_again (some c) title again peer s e = rw e refl
  open_direct_again none title again peer s e =
      elim (Bool-cases (resolve_local_peer_id s.snap == peer)) [
        | inl own ↦ simp (eq_refl peer, own) refl
        | inr other ↦ simp (eq_refl peer, other) refl
      ]

  -- Opening the chat with a peer a second time, under whatever title, opens the conversation that
  -- the first time opened or made: the same identifier is answered and the state stays as it is.
  pub create_conversation_with_peer_again :
      (peer : String) (title again : Option String) (s : ControllerState)
      → let r = create_conversation_with_peer maker peer title s in
        create_conversation_with_peer maker peer again r.1 ≡ r
  unfolding create_conversation_with_peer create_conversation_with_peers distinct
  create_conversation_with_peer_again peer title again s = elim (Bool-cases (trim peer == "")) [
    | inl blank ↦ simp blank refl
    | inr there ↦
        simp (there, trim_idem peer)
          (open_direct_again (find (is_direct_with (trim peer)) s.snap.conversations) title again
            (trim peer) s refl)
  ]
