-- ===== src/Session/Dialling.antt =====
-- Dialling a peer, and what a session does when it comes back: dialPeer, dialPeerById,
-- recoverConnectivity of a session that runs, and requestSyncWithConnectedPeers in
-- packages/network/src/session.ts. `sync_payload` is the JSON text of a sync request's payload and
-- `request_id` its identifier, at the n-th call.

pub mod Routes
use Prim.Native.Char.{Char}
use Prim.Native.String.{◌++◌}
use skypier_chat.Prelude.{
  ℕ, zero, suc, ◌+◌, ◌-◌, String, ◌==◌, Bool, true, false, not, ◌&&◌, ◌||◌, Option, none, some,
  List, [], ◌∷◌, map, select, any, length, is_some, or_else, leb, ltb, same_text, if◌then◌else◌,
}
use skypier_chat.Prelude.Maps.{distinct}
use skypier_chat.Prelude.Text.{trim, first_chars}
use skypier_chat.Protocol.{WireEnvelope, WireEnvelopeKind, sync}
use skypier_chat.Session.{
  Host, Session, SessionStatus, idle, starting, running, stopped, Connection, LogMessage, LogLevel,
  info, warn, success, keepalive, emit_state, called, direct_attempted, direct_succeeded,
  direct_refused, reservation_missing, reservation_confirmed, explicit_tried, explicit_refused,
  explicit_succeeded, no_dialable_addresses, addresses_found, address_tried, address_refused,
  address_succeeded, recovery_starts, recovery_checks, sync_requested,
}
use skypier_chat.Session.Addresses.{
  RelayConfiguration, build_explicit_relay_dial_addresses, includes,
}
use skypier_chat.Session.Relays.{
  Network, Dialled, answered, refused, Found, found, not_found, RelaySession, log_to, dial_text,
  call_session, dial_configured_relays, wait_for_preferred_relay_reservation,
  sync_relay_reservation_state, default_relay_log_peer_id,
}
use skypier_chat.Session.Send.{SendResult, sent_ok, send_envelope}
use skypier_chat.Session.Queue.{flush_queue}

-- The end of a dial: the peer id that it returns, or the message of the error that it throws.
pub data DialEnd : Type 0 where
  reached : String → DialEnd
  unreachable : String → DialEnd

abbrev pub cannot_reach : String → String → DialEnd
cannot_reach peer text =
    unreachable ("Could not reach peer " ++ first_chars 16 peer ++ "…: " ++ text)

-- What is tried after a route has failed, where the route has.
abbrev pub or_try :
    Option String × RelaySession → (RelaySession → DialEnd × RelaySession) → DialEnd × RelaySession
or_try (some peer, s) next = (reached peer, s)
or_try (none, s) next = next s

abbrev pub or_next :
    Option String × RelaySession
    → (RelaySession → Option String × RelaySession)
    → Option String × RelaySession
or_next (some peer, s) next = (some peer, s)
or_next (none, s) next = next s

abbrev pub tell_reservation : String → Option Bool × RelaySession → RelaySession
tell_reservation peer (some true, s) = log_to peer info reservation_confirmed s
tell_reservation peer (some false, s) = log_to peer warn reservation_missing s
tell_reservation peer (none, s) = log_to peer warn reservation_missing s

abbrev pub refusal : Dialled → String → String
refusal (answered c) last = last
refusal (refused text) last = text

abbrev pub is_running : SessionStatus → Bool
is_running running = true
is_running _ = false

abbrev pub count_sent : SendResult × Session → ℕ × Session → ℕ × Session
count_sent (sent_ok, s) (n, t) = (n + 1, t)
count_sent (r, s) (n, t) = (n, t)

module _ (host : Host) (network : Network) (relays : RelayConfiguration) where
  abbrev pub flush : RelaySession → RelaySession
  flush s = record s { session = (flush_queue host s.session).1 }

  abbrev pub emit_relay_state : RelaySession → RelaySession
  emit_relay_state s = record s { session = emit_state host s.session }

  -- A connection is there: the state is emitted and the queue is flushed.
  abbrev pub connected_to : Connection → RelaySession → Option String × RelaySession
  connected_to c s = (some c.remote_peer, flush (emit_relay_state s))

  abbrev pub end_direct : String → Dialled → RelaySession → Option String × RelaySession
  end_direct peer (answered c) s = connected_to c (log_to peer success direct_succeeded s)
  end_direct peer (refused text) s = (none, log_to peer warn (direct_refused text) s)

  abbrev pub try_direct : String → RelaySession → Option String × RelaySession
  try_direct peer s =
      end_direct peer (network.dial_peer peer) (call_session (log_to peer info direct_attempted s))

  -- The explicit routes over the configured relays.
  abbrev pub end_explicit : String → Dialled → RelaySession → Option String × RelaySession
  end_explicit peer (answered c) s = connected_to c (log_to peer success explicit_succeeded s)
  end_explicit peer (refused text) s = (none, log_to peer warn (explicit_refused text) s)

  abbrev pub try_explicit : String → List String → RelaySession → Option String × RelaySession
  try_explicit peer [] s = (none, s)
  try_explicit peer (address ∷ rest) s =
      or_next
        (end_explicit peer (dial_text network address)
          (call_session (log_to peer info (explicit_tried address) s)))
        (try_explicit peer rest)

  abbrev pub try_relays : String → List String → RelaySession → Option String × RelaySession
  try_relays peer [] s = (none, s)
  try_relays peer (address ∷ rest) s = try_explicit peer (address ∷ rest) (
      tell_reservation peer (
        wait_for_preferred_relay_reservation host network relays
          (dial_configured_relays host network relays keepalive s)))

  -- The addresses that the DHT gives for the peer, and the message of the last error.
  abbrev pub end_address : String → String → Dialled → RelaySession → Option String × RelaySession
  end_address peer address (answered c) s =
      connected_to c (log_to peer success (address_succeeded (includes address "p2p-circuit")) s)
  end_address peer address (refused text) s = (none, log_to peer warn (address_refused text) s)

  abbrev pub try_addresses : String → String → List String → RelaySession → DialEnd × RelaySession
  try_addresses peer last [] s = (cannot_reach peer last, s)
  try_addresses peer last (address ∷ rest) s =
      or_try
        (end_address peer address (network.dial_address address)
          (call_session (log_to peer info (address_tried address) s)))
        (try_addresses peer (refusal (network.dial_address address) last) rest)

  abbrev pub try_found : String → Found → RelaySession → DialEnd × RelaySession
  try_found peer (not_found text) s = (cannot_reach peer text, s)
  try_found peer (found []) s = (
    cannot_reach peer "Peer was found in DHT but has no dialable addresses.",
    log_to peer LogLevel.error no_dialable_addresses s,
  )
  try_found peer (found (address ∷ rest)) s =
      try_addresses peer "All DHT addresses failed" (address ∷ rest)
        (log_to peer info (addresses_found (length (address ∷ rest))) s)

  abbrev pub try_dht : String → RelaySession → DialEnd × RelaySession
  try_dht peer s = try_found peer (network.find_peer peer) (call_session s)

  abbrev pub dial_normalized : String → RelaySession → DialEnd × RelaySession
  dial_normalized peer s =
      or_try
        (or_next (try_direct peer s)
          (try_relays peer (build_explicit_relay_dial_addresses relays peer)))
        (try_dht peer)

  unfoldable pub dial_peer_by_id : String → RelaySession → DialEnd × RelaySession
  dial_peer_by_id peer s =
      if not s.session.has_node
      then (unreachable "Session is not running. Start the session first.", s)
      else if host.valid_peer_id (trim peer)
      then dial_normalized (trim peer) s
      else (unreachable "invalid peer id", s)

  abbrev pub end_dial_peer : Dialled → RelaySession → DialEnd × RelaySession
  end_dial_peer (answered c) s = (reached c.remote_peer, flush (emit_relay_state s))
  end_dial_peer (refused text) s = (unreachable text, s)

  unfoldable pub dial_peer : String → RelaySession → DialEnd × RelaySession
  dial_peer address s =
      if s.session.has_node
      then end_dial_peer (dial_text network address) (call_session s)
      else (unreachable "Session is not running. Start the session first.", s)

  -- The peers that are connected, each once, but for the local one.
  abbrev pub sync_peers : Session → List String
  sync_peers s = distinct (
      select (λ p. not (same_text s.state.local_peer_id p))
        (map (λ c. c.remote_peer) (host.connections s.calls)))

  module _ (request_id : ℕ → String) (sync_payload : ℕ → String) where
    abbrev pub sync_request : Session → WireEnvelope
    sync_request s = record {
      kind = sync;
      message_id = some (request_id s.calls);
      conversation_id = "__sync__";
      sender_peer_id = or_else s.state.local_peer_id "unknown";
      sent_at = host.now s.calls;
      payload = sync_payload s.calls;
    }

    abbrev pub request_each : List String → Session → ℕ × Session
    request_each [] s = (0, s)
    request_each (peer ∷ rest) s =
        let answer = send_envelope host peer (sync_request s) s in
        count_sent answer (request_each rest answer.1)

    abbrev pub request_from : String → List String → RelaySession → ℕ × RelaySession
    request_from reason [] s = (0, s)
    request_from reason (peer ∷ rest) s =
        let (count, t) = request_each (peer ∷ rest) s.session in
        (
          count,
          log_to (default_relay_log_peer_id relays) info
              (sync_requested reason count (length (peer ∷ rest))) (record s { session = t }),
        )

    unfoldable pub request_sync_with_connected_peers : String → RelaySession → ℕ × RelaySession
    request_sync_with_connected_peers reason s =
        if s.session.has_node && is_running s.session.state.status
        then request_from reason (sync_peers s.session) s
        else (0, s)

    -- Recovery of a session that runs.
    unfoldable pub recover_running : String → RelaySession → RelaySession
    recover_running reason s =
        let told = log_to (default_relay_log_peer_id relays) info (recovery_checks reason) s in
        let dialled = dial_configured_relays host network relays keepalive told in
        let seen = (sync_relay_reservation_state host network relays keepalive dialled).1 in
        emit_relay_state (request_sync_with_connected_peers "resume" (flush seen)).1
