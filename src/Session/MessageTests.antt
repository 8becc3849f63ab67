-- ===== src/Session/MessageTests.antt =====
-- Runs of broadcasts, group messages, mailbox requests and peer events.
use skypier_chat.Session.Peers.{has_seen, on_connect, on_disconnect}
use skypier_chat.Session.Peers.Seen.{
  connects, disconnects, peer_reports, online_after, online_after-on_connect,
  online_after-on_disconnect, missed_connect,
}
use skypier_chat.Protocol.{relayed}
use skypier_chat.Session.{Connection}
use skypier_chat.Session.Samples.{to_bob}
use skypier_chat.Prelude.{false}
use skypier_chat.Prelude.{◌≡◌, refl, true, false, none, some, [], ◌∷◌, ◌++◌, ltb, ◌≢◌}
use skypier_chat.Protocol.{ChatMessage, RecipientKeyWrap, MailboxEnqueueResponse}
use skypier_chat.Session.{Session, create_session}
use skypier_chat.Session.Send.{send_envelope, unsupported, message_protocol}
use skypier_chat.Session.Queue.Invariant.{IsWellFormed}
use skypier_chat.Session.Broadcast.{
  PeerStore, skypier_peers, send_to_each, send_envelope_to_connected, message_envelope,
  send_chat_message_to_peer,
}
use skypier_chat.Prelude.Text.{trim, is_space}
use skypier_chat.Session.Groups.{Pubsub, GroupSession, returned, has_topic, publish_group_message}
use skypier_chat.Session.Groups.Topics.{
  join, leave, publish, stopping, perform_all, IsTracked, perform_all-IsTracked,
  publish_group_message-published,
}
use skypier_chat.Session.Mailbox.{
  Answers, mailbox_envelope, request_mailbox_protocol, enqueue_at_relays, enqueue_mailbox_for_peer,
}
use skypier_chat.Session.Mailbox.Relays.{Outcome, enqueue_mailbox_for_peer-Outcome}
use skypier_chat.Session.Broadcast.Frames.{frame_count, Counts, send_envelope_to_connected-count}
use skypier_chat.Session.Broadcast.Kept.{
  send_envelope_to_connected-IsWellFormed, waits_for, send_chat_message_to_peer-waits_for,
}
use skypier_chat.Session.Samples.{
  hello, offline_host, online_host, waiting, ready, session_code, ready-IsWellFormed, one_due,
  chat_hello,
}

-- The peer store knows Bob as a peer of the chat.
abbrev knows_all : PeerStore
knows_all n peer = some (message_protocol ∷ [])

broadcast_tests :
    ((send_envelope_to_connected online_host knows_all (hello "m5") one_due).0 ≡ 1)
    × ((send_envelope_to_connected online_host (λ n peer. none) (hello "m5") one_due).0 ≡ 0)
unfolding session_code send_envelope_to_connected skypier_peers send_to_each
broadcast_tests = (refl, refl)

send_envelope_to_connected-count_example :
    Counts online_host
      (send_envelope_to_connected online_host knows_all (hello "m5") one_due).0
      (frame_count one_due)
      (frame_count (send_envelope_to_connected online_host knows_all (hello "m5") one_due).1)
send_envelope_to_connected-count_example =
    send_envelope_to_connected-count online_host knows_all (hello "m5") one_due

broadcast-IsWellFormed :
    IsWellFormed
      (send_envelope_to_connected offline_host knows_all
        (hello "m5")
        (ready (waiting "m1" 0 ∷ waiting "m2" 3 ∷ []))).1
broadcast-IsWellFormed =
    send_envelope_to_connected-IsWellFormed offline_host knows_all (hello "m5")
      (ready (waiting "m1" 0 ∷ waiting "m2" 3 ∷ [])) ready-IsWellFormed

unreached :
    ((send_chat_message_to_peer offline_host chat_hello "hello" "bob" one_due).0 ≡ false)
    × ((send_envelope offline_host "bob"
          (message_envelope offline_host chat_hello "hello" one_due)
          one_due).0
        ≢ unsupported)
unfolding session_code send_chat_message_to_peer
unreached = (refl, λ e. cc e)

send_chat_message_to_peer-waits_for_example :
    waits_for offline_host "bob"
      (message_envelope offline_host chat_hello "hello" one_due)
      (send_chat_message_to_peer offline_host chat_hello "hello" "bob" one_due).1
    ≡ true
send_chat_message_to_peer-waits_for_example =
    send_chat_message_to_peer-waits_for offline_host chat_hello "hello" "bob" one_due
      (unfold create_session in refl) unreached.0 unreached.1

abbrev steady_pubsub : Pubsub
steady_pubsub = record { present = true; accepts = λ n. true }

abbrev no_groups : GroupSession
no_groups = record {
  session = one_due;
  active_group_topics = [];
  subscriptions = [];
  published = [];
}

perform_all-IsTracked_example : IsTracked steady_pubsub (
    perform_all steady_pubsub online_host
      (join " games " ∷ publish chat_hello "hello" "news" ∷ leave "games" ∷ stopping true ∷ [])
      no_groups)
perform_all-IsTracked_example =
    perform_all-IsTracked steady_pubsub online_host
      (join " games " ∷ publish chat_hello "hello" "news" ∷ leave "games" ∷ stopping true ∷ [])
      no_groups (tt, (tt, (tt, (tt, tt)))) (refl, λ down. refl)

published_once :
    (publish_group_message steady_pubsub online_host chat_hello "hello" " news " no_groups).0
    ≡ returned true
unfolding publish_group_message session_code trim is_space
published_once = refl

publish_group_message-published_example :
    ((publish_group_message steady_pubsub online_host chat_hello "hello" " news "
        no_groups).1.published
      ≡ no_groups.published
        ++ (trim " news ", message_envelope online_host chat_hello "hello" one_due) ∷ [])
    × (has_topic
          (publish_group_message steady_pubsub online_host chat_hello "hello" " news "
            no_groups).1.active_group_topics
          (trim " news ")
        ≡ true)
publish_group_message-published_example =
    publish_group_message-published steady_pubsub online_host chat_hello "hello" " news " no_groups
      published_once

-- Relays that accept from the second call on.
abbrev second_accepts : Answers MailboxEnqueueResponse
second_accepts n c protocol req =
    some (record { accepted = ltb 0 n; reason = none; expires_at = none; queue_depth = none })

abbrev for_phone : RecipientKeyWrap
for_phone = record {
  recipient_peer_id = "bob";
  recipient_device_id = "phone";
  pre_key_id = "p";
  ephemeral_public_key = "k";
  salt = "s";
  nonce = "n";
  wrapped_key = "w";
}

abbrev sealed_hello : ChatMessage
sealed_hello = record chat_hello {
  ciphertext = record chat_hello.ciphertext { key_wraps = some (for_phone ∷ []) };
}

abbrev with_relays : Session
with_relays = record one_due { relay_peer_ids = "bob" ∷ "bob" ∷ "bob" ∷ [] }

stored_at_second :
    (enqueue_mailbox_for_peer online_host second_accepts sealed_hello "ari" with_relays).0 ≡ true
unfolding session_code enqueue_mailbox_for_peer enqueue_at_relays request_mailbox_protocol
stored_at_second = refl

enqueue_mailbox_for_peer-Outcome_example :
    Outcome online_host second_accepts
      (mailbox_envelope online_host sealed_hello (for_phone ∷ []) "ari" with_relays)
      with_relays.relay_peer_ids
      with_relays
      (enqueue_mailbox_for_peer online_host second_accepts sealed_hello "ari" with_relays)
enqueue_mailbox_for_peer-Outcome_example =
    enqueue_mailbox_for_peer-Outcome online_host second_accepts sealed_hello "ari" with_relays
      for_phone [] refl

abbrev to_ari : Connection
to_ari = record {
  remote_peer = "ari";
  remote_addr = "/ip4/10.0.0.9/tcp/4001/p2p/relay/p2p-circuit/p2p/ari";
  has_limits = true;
}

reports :
    (on_connect (to_bob ∷ to_ari ∷ []) ("bob" ∷ [])).0
    ≡ record { peer_id = "ari"; reachability = relayed } ∷ []
unfolding on_connect
reports = refl

connect_reported :
    online_after
      (has_seen ("bob" ∷ []) "ari")
      (on_connect (to_bob ∷ to_ari ∷ []) ("bob" ∷ [])).0
      "ari"
    ≡ has_seen (on_connect (to_bob ∷ to_ari ∷ []) ("bob" ∷ [])).1 "ari"
connect_reported = online_after-on_connect (to_bob ∷ to_ari ∷ []) ("bob" ∷ []) "ari"

online_after-on_disconnect_example :
    online_after
      (has_seen ("bob" ∷ "ari" ∷ []) "bob")
      (on_disconnect (to_ari ∷ []) ("bob" ∷ "ari" ∷ [])).0
      "bob"
    ≡ has_seen (on_disconnect (to_ari ∷ []) ("bob" ∷ "ari" ∷ [])).1 "bob"
online_after-on_disconnect_example =
    online_after-on_disconnect (to_ari ∷ []) ("bob" ∷ "ari" ∷ []) "bob" (λ h. absurd (cc h))

missed_connect_example :
    online_after false
      (peer_reports
        (disconnects (to_ari ∷ []) ∷ connects (to_ari ∷ to_bob ∷ []) ∷ connects (to_ari ∷ []) ∷ [])
        ("bob" ∷ []))
      "ari"
    ≡ false
missed_connect_example =
    missed_connect (to_ari ∷ []) (connects (to_ari ∷ to_bob ∷ []) ∷ connects (to_ari ∷ []) ∷ [])
      ("bob" ∷ []) "ari" refl (refl, (refl, tt))
