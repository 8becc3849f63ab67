-- ===== src/Controller/Calls.antt =====
-- The entries of the call history: appendCallHistoryEntry in apps/web/src/useChatController.ts.
use Prim.Native.String.{◌++◌}
use skypier_chat.Prelude.{
  ℕ, String, ◌==◌, Bool, Option, none, some, [], ◌∷◌, map, any, or_else, leb, if◌then◌else◌,
}
use skypier_chat.Protocol.{
  Conversation, ChatMessage, Timestamp, delivered, xchacha20poly1305, ChatSystemEventType,
  call_attempted, call_ended, CallDirection, incoming, outgoing, AudioCallEndReason, declined, busy,
  hangup, missed, error,
}
use skypier_chat.Controller.Conversations.{ControllerState, current_device}
use skypier_chat.Controller.Inbound.{messages_in, place_messages}

abbrev is_no_later : ChatMessage → ChatMessage → Bool
is_no_later l r = leb l.created_at r.created_at

-- What is shown for a call's event.
abbrev call_preview : ChatSystemEventType → CallDirection → Option AudioCallEndReason → String
call_preview call_attempted incoming reason = "Incoming audio call"
call_preview call_attempted outgoing reason = "Outgoing audio call"
call_preview call_ended direction (some busy) = "Call ended · busy"
call_preview call_ended direction (some declined) = "Call ended · declined"
call_preview call_ended direction (some missed) = "Call ended · missed"
call_preview call_ended direction (some error) = "Call ended · failed"
call_preview call_ended direction (some hangup) = "Call ended"
call_preview call_ended direction none = "Call ended"

abbrev event_name : ChatSystemEventType → String
event_name call_attempted = "call-attempted"
event_name call_ended = "call-ended"

pub record CallEntry : Type 0 where
  pub conversation_id : String
  pub call_id : String
  event_type : ChatSystemEventType
  pub direction : CallDirection
  pub created_at : Option Timestamp
  pub ended_reason : Option AudioCallEndReason
  pub duration_ms : Option ℕ

abbrev event_id : CallEntry → String
event_id p = "sys-call-" ++ p.call_id ++ "-" ++ event_name p.event_type

abbrev system_message : CallEntry → Timestamp → ChatMessage
system_message p at = record {
  id = event_id p;
  conversation_id = p.conversation_id;
  sender_id = "system";
  sender_display_name = "System";
  sender_is_bot = none;
  sender_device_id = "system";
  created_at = at;
  preview_text = call_preview p.event_type p.direction p.ended_reason;
  ciphertext = record {
    algorithm = xchacha20poly1305;
    ciphertext = "";
    nonce = "system-event";
    recipient_device_ids = current_device.id ∷ [];
    sender_key_id = none;
    aad = none;
    key_wraps = none;
  };
  delivery = delivered;
  reply_to = none;
  reactions = [];
  attachments = none;
  system_event = some (record {
    type = p.event_type;
    call_id = p.call_id;
    direction = some p.direction;
    ended_reason = p.ended_reason;
    duration_ms = p.duration_ms;
  });
}

abbrev note_call : CallEntry → Timestamp → Conversation → Conversation
note_call p at c =
    if c.id == p.conversation_id
    then record c {
      last_message_preview = call_preview p.event_type p.direction p.ended_reason;
      updated_at = at;
    }
    else c

unfoldable append_call_history_entry : CallEntry → Timestamp → ControllerState → ControllerState
append_call_history_entry p now s =
    let at = or_else p.created_at now in
    if any (λ c. c.id == p.conversation_id) s.snap.conversations
    then (if any (λ m. m.id == event_id p) (messages_in s.snap p.conversation_id)
        then s
        else record s {
          snap =
              place_messages is_no_later p.conversation_id (system_message p at) s.snap
                (map (note_call p at) s.snap.conversations);
        })
    else s
