-- ===== src/Controller/Groups.antt =====
-- The members of a group that a message tells of: mergeConversationWithGroupContext and
-- createSyntheticRemoteParticipant in apps/web/src/useChatController.ts.
use Prim.Native.String.{◌++◌}
use skypier_chat.Prelude.{
  String, ◌==◌, Bool, Option, none, some, List, [], ◌∷◌, find, or_else, truthy, if◌then◌else◌,
}
use skypier_chat.Prelude.Text.{trim, first_chars}
use skypier_chat.Protocol.{Conversation, group, Participant}
use skypier_chat.Controller.Conversations.{synthetic_device, or_option}

pub record GroupMember : Type 0 where
  pub peer_id : String
  pub display_name : String

pub record GroupContext : Type 0 where
  pub title : String
  pub admin_peer_id : Option String
  pub participants : List GroupMember

abbrev pub peer_name : String → String
peer_name peer = "Peer " ++ first_chars 10 peer ++ "…"

unfoldable pub create_synthetic_remote_participant : String → String → Option Bool → Participant
create_synthetic_remote_participant peer name is_bot = record {
  id = peer;
  display_name = name;
  peer_id = peer;
  is_bot = is_bot;
  devices = synthetic_device peer ∷ [];
}

-- A Map's `set` under the participant's peer id, and what `new Map` makes of a list.
abbrev set_participant : Participant → List Participant → List Participant
set_participant p [] = p ∷ []
set_participant p (q ∷ qs) =
    let rest = set_participant p qs in if q.peer_id == p.peer_id then p ∷ qs else q ∷ rest

abbrev by_peer : List Participant → List Participant → List Participant
by_peer known [] = known
by_peer known (p ∷ ps) = by_peer (set_participant p known) ps

abbrev named_participant : Option Participant → String → String → Participant
named_participant none peer name = create_synthetic_remote_participant peer name none
named_participant (some p) peer name = record p { display_name = name }

abbrev merge_member : List Participant → GroupMember → List Participant
merge_member ps m =
    let peer = trim m.peer_id in
    let name = or_else (truthy (some (trim m.display_name))) (peer_name peer) in
    if peer == ""
    then ps
    else set_participant (named_participant (find (λ p. p.peer_id == peer) ps) peer name) ps

abbrev merge_members : List Participant → List GroupMember → List Participant
merge_members ps [] = ps
merge_members ps (m ∷ ms) = merge_members (merge_member ps m) ms

unfoldable pub merge_conversation_with_group_context : Conversation → GroupContext → Conversation
merge_conversation_with_group_context c context = record c {
  kind = some group;
  group_topic_id = some (or_else c.group_topic_id ("skypier.group." ++ c.id));
  title = or_else (truthy (some (trim context.title))) c.title;
  admin_peer_id =
      or_option (truthy c.admin_peer_id) (or_option (truthy context.admin_peer_id) c.admin_peer_id);
  participants = merge_members (by_peer [] c.participants) context.participants;
}

abbrev pub resolve_conversation : Option GroupContext → Conversation → Conversation
resolve_conversation none c = c
resolve_conversation (some context) c = merge_conversation_with_group_context c context
