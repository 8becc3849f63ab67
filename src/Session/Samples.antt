-- ===== src/Session/Samples.antt =====
-- Hosts, envelopes and sessions for the tests of the session.
use skypier_chat.Prelude.{ℕ, ◌+◌, ◌*◌, String, refl, true, false, none, some, List, [], ◌∷◌, arith}
use skypier_chat.Protocol.{WireEnvelope, message, ChatMessage}
use skypier_chat.Session.{
  Host, Session, Connection, written, broken, failure, QueuedEnvelope, initial_state,
  create_session, running, emit_state, persist_queue, emit_delivery,
}
use skypier_chat.Prelude.Maps.{get, put, delete}
use skypier_chat.Session.Send.{
  new_dial, redial, ensure_connection, is_connection_limited, start_upgrade, send_envelope,
  send_payload,
}
use skypier_chat.Session.Queue.{
  flush_queue, flush_all, enqueue, evict, retry_one, retry_all, retry_tick, retry_message,
}
use skypier_chat.Session.Queue.Invariant.{IsWellFormed}
use skypier_chat.Storage.Tests.{text_message}

abbrev pub hello : String → WireEnvelope
hello id = record {
  kind = message;
  message_id = some id;
  conversation_id = "conv-bob";
  sender_peer_id = "me";
  sent_at = 1000;
  payload = "hello";
}

abbrev pub to_bob : Connection
to_bob = record { remote_peer = "bob"; remote_addr = "/ip4/10.0.0.2/tcp/4001"; has_limits = false }

-- Nobody can be reached; a second passes with every call.
abbrev pub offline_host : Host
offline_host = record {
  peer_id = "me";
  now = λ n. n * 1000 + 5000000;
  connections = λ n. [];
  multiaddrs = λ n. [];
  protocols = λ n. [];
  dial = λ n peer. none;
  joined = λ n peer. none;
  valid_peer_id = λ peer. true;
  upgrade = λ n peer. none;
  write = λ n c protocol. broken false failure;
}

-- Bob is connected, and every stream to him opens.
abbrev pub online_host : Host
online_host = record {
  peer_id = "me";
  now = λ n. n * 1000 + 5000000;
  connections = λ n. to_bob ∷ [];
  multiaddrs = λ n. [];
  protocols = λ n. [];
  dial = λ n peer. some to_bob;
  joined = λ n peer. none;
  valid_peer_id = λ peer. true;
  upgrade = λ n peer. none;
  write = λ n c protocol. written;
}

abbrev pub waiting : String → ℕ → QueuedEnvelope
waiting id n = record {
  peer_id = "bob";
  envelope = hello id;
  retry_count = n;
  next_retry_at = 2000;
}

abbrev pub ready : List QueuedEnvelope → Session
ready qs = record (create_session [] []) {
  state = record initial_state { status = running; local_peer_id = some "me" };
  has_node = true;
  queue = qs;
}

-- The code that the tests run, as one name for their `unfolding` lines.
unfoldable pub session_code : Unit {0}
unfolding create_session emit_state persist_queue emit_delivery get put delete new_dial redial
    ensure_connection is_connection_limited send_payload send_envelope enqueue evict retry_one
    retry_all retry_tick flush_all flush_queue retry_message start_upgrade
session_code = tt

pub ready-IsWellFormed : IsWellFormed (ready (waiting "m1" 0 ∷ waiting "m2" 3 ∷ []))
unfolding session_code
ready-IsWellFormed = record {
  bounded = omega arith;
  counted = omega arith;
  foreign = (refl, (refl, tt));
  distinct = ((refl, tt), (tt, tt));
}

abbrev pub one_due : Session
one_due = ready (waiting "m1" 0 ∷ [])

abbrev pub chat_hello : ChatMessage
chat_hello = text_message "m7" []
