-- ===== src/Session/Mailbox.antt =====
-- The mailbox of the relays: requestMailboxProtocol, enqueueMailboxForPeer, pullMailboxFromPeer and
-- ackMailboxFromPeer in packages/network/src/session.ts. What a peer's stream answers to a request
-- is a parameter; an answer that is no JSON, or that does not come in time, is none.
pub mod Relays
use Prim.Native.String.{◌++◌}
use skypier_chat.Prelude.{
  ℕ, ◌+◌, String, Bool, true, false, Option, none, some, List, [], ◌∷◌, if◌then◌else◌, or_else,
  truthy,
}
use skypier_chat.Protocol.{
  ChatMessage, RecipientKeyWrap, RelayMailboxEnvelope, MailboxEnqueueResponse, MailboxPullRequest,
  MailboxPullResponse, MailboxAckRequest, MailboxAckResponse,
}
use skypier_chat.Session.{Host, Session, Connection, called}
use skypier_chat.Session.Send.{Ensured, to_self, no_connection, connected, ensure_connection}

pub data MailboxRequest : Type 0 where
  enqueue_request : RelayMailboxEnvelope → MailboxRequest
  pull_request : MailboxPullRequest → MailboxRequest
  ack_request : MailboxAckRequest → MailboxRequest

-- The answer of the n-th call over a connection, under a protocol, as the type that is expected.
abbrev pub Answers : Type 0 → Type 0
Answers Response = ℕ → Connection → String → MailboxRequest → Option Response

abbrev pub mailbox_enqueue_protocol : String
mailbox_enqueue_protocol = "/skypier/chat/1.1.0/mailbox/enqueue"

abbrev pub mailbox_pull_protocol : String
mailbox_pull_protocol = "/skypier/chat/1.1.0/mailbox/pull"

abbrev pub mailbox_ack_protocol : String
mailbox_ack_protocol = "/skypier/chat/1.1.0/mailbox/ack"

abbrev pub week_ms : ℕ
week_ms = 604800000

abbrev pub default_pull_limit : ℕ
default_pull_limit = 50

abbrev pub was_accepted : Option MailboxEnqueueResponse → Bool
was_accepted none = false
was_accepted (some r) = r.accepted

module _ (host : Host) where
  abbrev pub request_over :
      {Response : Type 0}
      → Answers Response
      → String
      → MailboxRequest
      → Ensured × Session
      → Option Response × Session
  request_over answers protocol req (to_self, s) = (none, s)
  request_over answers protocol req (no_connection, s) = (none, s)
  request_over answers protocol req (connected c, s) = (answers s.calls c protocol req, called s)

  unfoldable pub request_mailbox_protocol :
      {Response : Type 0}
      → Answers Response
      → String
      → String
      → MailboxRequest
      → Session
      → Option Response × Session
  request_mailbox_protocol answers peer protocol req s =
      request_over answers protocol req (ensure_connection host peer s)

  abbrev pub mailbox_envelope :
      ChatMessage → List RecipientKeyWrap → String → Session → RelayMailboxEnvelope
  mailbox_envelope m wraps target s = record {
    envelope_id = "mbx-" ++ m.id;
    message_id = m.id;
    conversation_id = m.conversation_id;
    sender_peer_id = or_else s.state.local_peer_id "unknown";
    recipient_peer_id = target;
    sent_at = host.now s.calls;
    expires_at = host.now s.calls + week_ms;
    encrypted_envelope = record {
      v = 1;
      algorithm = m.ciphertext.algorithm;
      ciphertext = m.ciphertext.ciphertext;
      nonce = m.ciphertext.nonce;
      sender_key_id = or_else m.ciphertext.sender_key_id m.sender_device_id;
      key_wraps = wraps;
      aad = m.ciphertext.aad;
    };
  }

  abbrev pub request_enqueue :
      Answers MailboxEnqueueResponse
      → RelayMailboxEnvelope
      → String
      → Session
      → Option MailboxEnqueueResponse × Session
  request_enqueue answers e relay s =
      request_mailbox_protocol answers relay mailbox_enqueue_protocol (enqueue_request e) s

  -- The loop over the relays: the first that accepts the envelope ends it.
  unfoldable pub enqueue_at_relays :
      Answers MailboxEnqueueResponse → RelayMailboxEnvelope → List String → Session → Bool × Session
  enqueue_at_relays answers e [] s = (false, s)
  enqueue_at_relays answers e (relay ∷ relays) s =
      let r = request_enqueue answers e relay s in
      let rest = enqueue_at_relays answers e relays r.1 in
      if was_accepted r.0 then (true, r.1) else rest

  abbrev pub enqueue_with_wraps :
      Answers MailboxEnqueueResponse
      → ChatMessage
      → String
      → Option (List RecipientKeyWrap)
      → Session
      → Bool × Session
  enqueue_with_wraps answers m target none s = (false, s)
  enqueue_with_wraps answers m target (some []) s = (false, s)
  enqueue_with_wraps answers m target (some (w ∷ ws)) s =
      enqueue_at_relays answers (mailbox_envelope m (w ∷ ws) target s) s.relay_peer_ids s

  -- enqueueMailboxForPeer; without a configured relay the loop has nobody to ask
  unfoldable pub enqueue_mailbox_for_peer :
      Answers MailboxEnqueueResponse → ChatMessage → String → Session → Bool × Session
  enqueue_mailbox_for_peer answers m target s =
      enqueue_with_wraps answers m target m.ciphertext.key_wraps s

  unfoldable pub pull_mailbox_from_peer :
      Answers MailboxPullResponse
      → String
      → Option ℕ
      → Option String
      → Session
      → Option MailboxPullResponse × Session
  pull_mailbox_from_peer answers target limit after_cursor s =
      request_mailbox_protocol answers target mailbox_pull_protocol
        (pull_request (record {
          recipient_peer_id = or_else s.state.local_peer_id "";
          limit = some (or_else limit default_pull_limit);
          after_cursor = truthy after_cursor;
        }))
        s

  unfoldable pub ack_mailbox_from_peer :
      Answers MailboxAckResponse
      → String
      → List String
      → Session
      → Option MailboxAckResponse × Session
  ack_mailbox_from_peer answers target [] s = (some (record { acked = []; missing = [] }), s)
  ack_mailbox_from_peer answers target (id ∷ ids) s =
      request_mailbox_protocol answers target mailbox_ack_protocol
        (ack_request (record {
          recipient_peer_id = or_else s.state.local_peer_id "";
          envelope_ids = id ∷ ids;
        }))
        s
