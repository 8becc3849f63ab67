-- ===== src/Controller/Conversations.antt =====
-- Conversations, their messages and the contacts in apps/web/src/useChatController.ts: each callback
-- as what it does with the chat state and the selected conversation. The limit of messages is the
-- one without a setting in the environment. `Maker` stands for the clock
-- and for the random part of a new conversation's identifier.
pub mod Again
use Prim.Native.String.{◌++◌}
use skypier_chat.Prelude.{
  ℕ, zero, suc, ◌+◌, ◌-◌, String, ◌==◌, Bool, true, false, not, ◌||◌, ◌&&◌, Option, none, some,
  List, [], ◌∷◌, map, any, find, select, length, or_else, truthy, leb, if◌then◌else◌,
}
use skypier_chat.Prelude.Maps.{put, distinct}
use skypier_chat.Prelude.Text.{trim, first_chars, decimal}
use skypier_chat.Protocol.{
  Conversation, ConversationKind, direct, group, Participant, DeviceIdentity, Reachability,
  ChatMessage, Timestamp, web, biometric, software,
}
use skypier_chat.Storage.{PersistedChatState, Contact}
use skypier_chat.Session.Addresses.{includes}
use skypier_chat.Crypto.{export_device_pre_key_bundle}

-- stateRef.current and selectedConversationIdRef.current
pub record ControllerState : Type 0 where
  pub snap : PersistedChatState
  pub selected : String

pub record Maker : Type 0 where
  pub now : Timestamp
  pub new_group_id : String
  pub new_direct_id : String → String

abbrev placeholder_local_peer_id : String
placeholder_local_peer_id = "12D3KooWLocalPeer"

abbrev current_user_id : String
current_user_id = "user-1"

unfoldable pub is_placeholder_local_peer_id : String → Bool
is_placeholder_local_peer_id peer =
    peer == "" || peer == placeholder_local_peer_id || includes peer "LocalPeer"

-- getCurrentDevice of packages/storage/src/index.ts
abbrev pub current_device : DeviceIdentity
current_device = record {
  id = "device-web";
  label = "Desktop PWA";
  peer_id = placeholder_local_peer_id;
  platform = web;
  trust_level = biometric;
  pre_key_bundle = none;
}

-- A trimmed peer id that is no placeholder.
abbrev real_peer_id : Option String → Option String
real_peer_id none = none
real_peer_id (some peer) =
    let p = trim peer in if is_placeholder_local_peer_id p then none else some p

abbrev self_peer_id : List Participant → Option String
self_peer_id ps = elim (find (λ p. p.id == current_user_id) ps) [
  | none ↦ none
  | some p ↦ some p.peer_id
]

abbrev first_self_peer_id : List Conversation → Option String
first_self_peer_id [] = none
first_self_peer_id (c ∷ cs) =
    let rest = first_self_peer_id cs in
    elim (real_peer_id (self_peer_id c.participants)) [ none ↦ rest | some p ↦ some p ]

abbrev pub trimmed : Option String → Option String
trimmed none = none
trimmed (some s) = some (trim s)

abbrev pub or_option : Option String → Option String → Option String
or_option none o = o
or_option (some s) o = some s

unfoldable pub resolve_local_peer_id : PersistedChatState → String
resolve_local_peer_id s =
    or_else
      (or_option (real_peer_id s.account.local_peer_id) (
        or_option (first_self_peer_id s.conversations) (
          or_option (real_peer_id (some current_device.peer_id))
            (trimmed s.account.local_peer_id))))
      current_device.peer_id

abbrev pub synthetic_device : String → DeviceIdentity
synthetic_device peer = record {
  id = "device-" ++ peer;
  label = "Remote device";
  peer_id = peer;
  platform = web;
  trust_level = software;
  pre_key_bundle = none;
}

abbrev pub max_messages_per_conversation : ℕ
max_messages_per_conversation = 300

-- messages.slice(n)
abbrev pub from_place : ℕ → List ChatMessage → List ChatMessage
from_place zero ms = ms
from_place (suc n) [] = []
from_place (suc n) (m ∷ ms) = from_place n ms

unfoldable pub cap_conversation_messages : List ChatMessage → List ChatMessage
cap_conversation_messages ms =
    if leb (length ms) max_messages_per_conversation
    then ms
    else from_place (length ms - max_messages_per_conversation) ms

abbrev pub contacts_of : PersistedChatState → List Contact
contacts_of s = or_else s.contacts []

-- The last contact of the peer, as `new Map(...)` finds it.
abbrev contact_of : String → List Contact → Option Contact
contact_of peer [] = none
contact_of peer (c ∷ cs) =
    let rest = contact_of peer cs in
    elim rest [ none ↦ (if c.peer_id == peer then some c else none) | some d ↦ some d ]

abbrev participant_name : List Contact → String → String
participant_name contacts peer = elim (contact_of peer contacts) [
  | none ↦ "Peer " ++ first_chars 10 peer ++ "…"
  | some c ↦ c.display_name
]

abbrev remote_participant : List Contact → String → Participant
remote_participant contacts peer = record {
  id = peer;
  display_name = participant_name contacts peer;
  peer_id = peer;
  is_bot = elim (contact_of peer contacts) [ none ↦ none | some c ↦ c.is_bot ];
  devices = synthetic_device peer ∷ [];
}

abbrev pub is_direct : Option ConversationKind → Bool
is_direct none = true
is_direct (some direct) = true
is_direct (some group) = false

abbrev pub has_peer : String → Conversation → Bool
has_peer peer c = any (λ p. p.peer_id == peer) c.participants

abbrev pub is_direct_with : String → Conversation → Bool
is_direct_with peer c =
    is_direct c.kind
    && (leb 2 (length c.participants) && leb (length c.participants) 2)
    && has_peer peer c

abbrev pub with_snap : PersistedChatState → ControllerState → ControllerState
with_snap snap s = record s { snap = snap }

abbrev title_or : Option String → String → String
title_or title default = or_else (truthy (trimmed title)) default

unfoldable pub build_current_device_identity : PersistedChatState → DeviceIdentity
build_current_device_identity s = record current_device {
  peer_id = resolve_local_peer_id s;
  pre_key_bundle = elim s.account.device_crypto_state [
    | none ↦ none
    | some d ↦ some (export_device_pre_key_bundle d none)
  ];
}

abbrev pub self_participant : PersistedChatState → Participant
self_participant s = record {
  id = current_user_id;
  display_name = s.account.display_name;
  peer_id = resolve_local_peer_id s;
  is_bot = none;
  devices = build_current_device_identity s ∷ [];
}

abbrev add_conversation : Conversation → ControllerState → Option String × ControllerState
add_conversation c s = (
  some c.id,
  record {
    snap = record s.snap {
      conversations = c ∷ s.snap.conversations;
      messages_by_conversation = put s.snap.messages_by_conversation c.id [];
    };
    selected = c.id;
  },
)

abbrev pub set_conversations : List Conversation → ControllerState → ControllerState
set_conversations cs s = with_snap (record s.snap { conversations = cs }) s

module _ (maker : Maker) where
  abbrev new_direct : Option String → String → PersistedChatState → Conversation
  new_direct title peer s = record {
    id = maker.new_direct_id peer;
    title = title_or title (participant_name (contacts_of s) peer);
    kind = some direct;
    group_topic_id = none;
    group_description = none;
    admin_peer_id = none;
    participants = self_participant s ∷ remote_participant (contacts_of s) peer ∷ [];
    last_message_preview = "Connecting securely…";
    unread_count = 0;
    muted = none;
    pinned = none;
    reachability = Reachability.unknown;
    updated_at = maker.now;
  }

  abbrev new_group : Option String → List String → PersistedChatState → Conversation
  new_group title peers s = record {
    id = maker.new_group_id;
    title = title_or title ("Group (" ++ decimal (length peers + 1) ")");
    kind = some group;
    group_topic_id = some ("skypier.group." ++ maker.new_group_id);
    group_description = none;
    admin_peer_id = some (resolve_local_peer_id s);
    participants = self_participant s ∷ map (remote_participant (contacts_of s)) peers;
    last_message_preview = "Group created.";
    unread_count = 0;
    muted = none;
    pinned = none;
    reachability = Reachability.unknown;
    updated_at = maker.now;
  }

  abbrev pub open_direct :
      Option Conversation
      → Option String
      → String
      → ControllerState
      → Option String × ControllerState
  open_direct (some c) title peer s = (some c.id, record s { selected = c.id })
  open_direct none title peer s = add_conversation (new_direct title peer s.snap) s

  abbrev pub create_with :
      List String → Option String → ControllerState → Option String × ControllerState
  create_with [] title s = (none, s)
  create_with (peer ∷ []) title s =
      open_direct (find (is_direct_with peer) s.snap.conversations) title peer s
  create_with (peer ∷ other ∷ peers) title s =
      add_conversation (new_group title (peer ∷ other ∷ peers) s.snap) s

  -- The identifier of the conversation, or none where the call throws since there is no peer id.
  unfoldable pub create_conversation_with_peers :
      List String → Option String → ControllerState → Option String × ControllerState
  create_conversation_with_peers peers title s =
      create_with (distinct (select (λ p. not (p == "")) (map trim peers))) title s

  unfoldable pub create_conversation_with_peer :
      String → Option String → ControllerState → Option String × ControllerState
  create_conversation_with_peer peer title s =
      if trim peer == "" then (none, s) else create_conversation_with_peers (trim peer ∷ []) title s

  abbrev connect_conversation : String → Reachability → Option String → Conversation → Conversation
  connect_conversation peer reachability preview c =
      if has_peer peer c
      then record c {
        reachability = reachability;
        last_message_preview = or_else preview c.last_message_preview;
        updated_at = maker.now;
      }
      else c

  unfoldable update_conversation_connection :
      String → Reachability → Option String → ControllerState → ControllerState
  update_conversation_connection peer reachability preview s =
      if trim peer == ""
      then s
      else set_conversations
          (map (connect_conversation (trim peer) reachability preview) s.snap.conversations) s
