-- ===== src/Session/Broadcast.antt =====
-- Sending an envelope to all connected peers and a chat message to one peer:
-- sendEnvelopeToConnected, sendChatMessageToConnected and sendChatMessageToPeer in
-- packages/network/src/session.ts. The payload of a chat message is given as the text that
-- buildEnvelopePayload makes of it.
pub mod Frames
pub mod Kept
use skypier_chat.Prelude.{
  ℕ, ◌+◌, String, Bool, true, false, Option, none, some, List, [], ◌∷◌, map, any, if◌then◌else◌,
  ◌==◌, or_else,
}
use skypier_chat.Protocol.{WireEnvelope, message, ChatMessage}
use skypier_chat.Session.{Host, Session, called, is_self, emit_state}
use skypier_chat.Session.Send.{
  SendResult, sent_ok, unsupported, limited, send_failed, send_envelope, message_protocol,
}
use skypier_chat.Session.Queue.{enqueue}

-- The protocols that the peer store knows of a peer at the n-th call; none where `get` throws.
abbrev pub PeerStore : Type 0
PeerStore = ℕ → String → Option (List String)

abbrev pub supports : Option (List String) → Bool
supports none = false
supports (some protocols) = any (λ p. p == message_protocol) protocols

-- The connected peers that speak the message protocol, with one entry for each connection.
unfoldable pub skypier_peers : PeerStore → List String → Session → List String × Session
skypier_peers store [] s = ([], s)
skypier_peers store (peer ∷ peers) s =
    let asked = skypier_peers store peers (called s) in
    let skipped = skypier_peers store peers s in
    if is_self s peer
    then skipped
    else if supports (store s.calls peer)
    then (peer ∷ asked.0, asked.1)
    else asked

module _ (host : Host) where
  -- A peer after its send ended with the given result: whether it counts as sent.
  abbrev pub settle_sent : String → WireEnvelope → SendResult × Session → Bool × Session
  settle_sent peer e (sent_ok, s) = (true, s)
  settle_sent peer e (limited, s) = (false, enqueue host peer e 0 true s)
  settle_sent peer e (unsupported, s) = (false, s)
  settle_sent peer e (send_failed, s) = (false, enqueue host peer e 0 false s)

  abbrev pub add_sent : Bool → ℕ × Session → ℕ × Session
  add_sent true (n, s) = (n + 1, s)
  add_sent false (n, s) = (n, s)

  unfoldable pub send_to_each : List String → WireEnvelope → Session → ℕ × Session
  send_to_each [] e s = (0, s)
  send_to_each (peer ∷ peers) e s =
      let r = settle_sent peer e (send_envelope host peer e s) in
      add_sent r.0 (send_to_each peers e r.1)

  abbrev pub broadcast_to : WireEnvelope → List String × Session → ℕ × Session
  broadcast_to e ([], s) = (0, s)
  broadcast_to e (peer ∷ peers, s) =
      let r = send_to_each (peer ∷ peers) e s in (r.0, emit_state host r.1)

  unfoldable pub send_envelope_to_connected : PeerStore → WireEnvelope → Session → ℕ × Session
  send_envelope_to_connected store e s =
      if s.has_node
      then broadcast_to e
          (skypier_peers store (map (λ c. c.remote_peer) (host.connections s.calls)) s)
      else (0, s)

  abbrev pub message_envelope : ChatMessage → String → Session → WireEnvelope
  message_envelope m payload s = record {
    kind = message;
    message_id = some m.id;
    conversation_id = m.conversation_id;
    sender_peer_id = or_else s.state.local_peer_id "unknown";
    sent_at = host.now s.calls;
    payload = payload;
  }

  pub send_chat_message_to_connected : PeerStore → ChatMessage → String → Session → ℕ × Session
  send_chat_message_to_connected store m payload s =
      send_envelope_to_connected store (message_envelope m payload s) s

  -- sendChatMessageToPeer: a peer that does not speak the protocol gets no entry in the queue
  unfoldable pub send_chat_message_to_peer :
      ChatMessage → String → String → Session → Bool × Session
  send_chat_message_to_peer m payload peer s =
      let e = message_envelope m payload s in settle_sent peer e (send_envelope host peer e s)
