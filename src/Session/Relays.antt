-- ===== src/Session/Relays.antt =====
-- The relays of a session: getRelayReservationAddresses, syncRelayReservationState,
-- dialConfiguredRelays, waitForPreferredRelayReservation and trimExcessConnections in
-- packages/network/src/session.ts. `Network` stands for dials by address and by peer id, the DHT and
-- the closing of connections; a text that is no multiaddress is refused by `multiaddr`.
pub mod Texts
pub mod Trimmed
pub mod Steady
pub mod Waits
use Prim.Native.String.{◌++◌}
use skypier_chat.Prelude.{
  ℕ, zero, suc, ◌+◌, ◌-◌, min, String, ◌==◌, Bool, true, false, not, ◌&&◌, Option, none, some, List,
  [], ◌∷◌, any, select, length, is_some, or_else, leb, ltb, if◌then◌else◌,
}
use skypier_chat.Session.{
  Host, Session, Connection, RelayReason, startup, keepalive, LogMessage, LogLevel, info, warn,
  success, dial_log, emit, called, emit_state, relay_active, relay_dialing, relay_refused,
  relay_connected, reservation_lost, fallback_reservation, reservation_renewal, reservation_active,
  reservation_added,
}
use skypier_chat.Session.Addresses.{RelayConfiguration, extract_peer_id, includes, circuit}
use skypier_chat.Session.Relays.Texts.{sorted, join, split}

abbrev pub relay_reservation_wait_timeout_ms : ℕ
relay_reservation_wait_timeout_ms = 12000

abbrev pub relay_reservation_poll_interval_ms : ℕ
relay_reservation_poll_interval_ms = 500

-- How a dial ends, with the message of its error.
pub data Dialled : Type 0 where
  answered : Connection → Dialled
  refused : String → Dialled

pub data Found : Type 0 where
  found : List String → Found
  not_found : String → Found

-- The network as it answers during one operation.
pub record Network : Type 0 where
  pub multiaddr_error : String → Option String
  pub dial_address : String → Dialled
  pub dial_peer : String → Dialled
  pub find_peer : String → Found
  pub close : Connection → Bool

-- The session with `hadRelayReservation` and `relayReservationKey`.
pub record RelaySession : Type 0 where
  pub session : Session
  pub had_relay_reservation : Bool
  pub relay_reservation_key : String

abbrev pub log_to : String → LogLevel → LogMessage → RelaySession → RelaySession
log_to peer level text s = record s { session = emit (dial_log peer level text) s.session }

abbrev pub describe_relay : String → String
describe_relay address = or_else (extract_peer_id address) address

abbrev pub relay_log_id : String → String
relay_log_id address = or_else (extract_peer_id address) "relay"

abbrev pub first_relay : List String → String
first_relay [] = "relay"
first_relay (address ∷ rest) = relay_log_id address

abbrev pub default_relay_log_peer_id : RelayConfiguration → String
default_relay_log_peer_id relays = first_relay relays.relay_addresses

-- multiaddr(address) with node.dial
abbrev pub dial_text : Network → String → Dialled
dial_text network address = elim (network.multiaddr_error address) [
  | none ↦ network.dial_address address
  | some text ↦ refused text
]

abbrev pub or_first : List String → List String → List String
or_first [] all = all
or_first (x ∷ xs) all = x ∷ xs

-- The connections that are closed, at most `overflow` of the candidates.
abbrev pub first_of : ℕ → List Connection → List Connection
first_of zero cs = []
first_of (suc n) [] = []
first_of (suc n) (c ∷ cs) = c ∷ first_of n cs

abbrev pub is_relay : RelayConfiguration → Connection → Bool
is_relay relays c = any (λ p. p == c.remote_peer) relays.relay_peer_ids

unfoldable pub excess_connections : RelayConfiguration → List Connection → List Connection
excess_connections relays current =
    if leb (length current) relays.hard_connection_limit
    then []
    else first_of (length current - relays.hard_connection_limit)
        (select (λ c. not (is_relay relays c)) current)

abbrev pub call_session : RelaySession → RelaySession
call_session s = record s { session = called s.session }

abbrev pub end_relay_dial : RelayReason → String → Dialled → RelaySession → RelaySession
end_relay_dial reason address (answered c) s =
    log_to (relay_log_id address) info (relay_connected (describe_relay address)) s
end_relay_dial reason address (refused text) s =
    log_to (relay_log_id address) warn (relay_refused reason (describe_relay address) text) s

abbrev pub tell_added : List String → List String → RelaySession → RelaySession
tell_added previous [] s = s
tell_added previous (address ∷ rest) s =
    let told =
      log_to (relay_log_id address) success (reservation_added (describe_relay address)) s in
    tell_added previous rest (if any (λ a. a == address) previous then s else told)

module _ (host : Host) (network : Network) (relays : RelayConfiguration) where
  -- Whether trimExcessConnections emits the state, which it does after closing what is in excess.
  unfoldable pub trim_excess_connections : Session → List Connection × Session
  trim_excess_connections s =
      let current = host.connections s.calls in
      if s.has_node && ltb relays.hard_connection_limit (length current)
      then (excess_connections relays current, emit_state host (called s))
      else ([], s)

  abbrev pub relay_reservation_addresses : Session → List String
  relay_reservation_addresses s =
      if s.has_node
      then select (λ address. includes address circuit) (host.multiaddrs s.calls)
      else []

  abbrev pub is_preferred : String → Bool
  is_preferred address =
      any (λ peer. includes address ("/p2p/" ++ peer ++ "/p2p-circuit")) relays.relay_peer_ids

  abbrev pub preferred_reservation_addresses : Session → List String
  preferred_reservation_addresses s =
      let all = relay_reservation_addresses s in
      if leb (length relays.relay_peer_ids) 0 then all else select is_preferred all

  -- Each active reservation is told, and that it renews.
  abbrev pub tell_active : RelayReason → List String → RelaySession → RelaySession
  tell_active source [] s = log_to (default_relay_log_peer_id relays) info reservation_renewal s
  tell_active source (address ∷ rest) s =
      tell_active source rest (
        log_to (relay_log_id address) success (reservation_active source (describe_relay address))
          s)

  abbrev pub tell_lost : RelaySession → RelaySession
  tell_lost s =
      if s.had_relay_reservation
      then log_to (default_relay_log_peer_id relays) warn reservation_lost s
      else s

  abbrev pub tell_fallback : List String → RelaySession → RelaySession
  tell_fallback preferred s =
      if ltb 0 (length relays.relay_peer_ids) && leb (length preferred) 0
      then log_to (default_relay_log_peer_id relays) warn fallback_reservation s
      else s

  abbrev pub tell_reservations : RelayReason → List String → RelaySession → RelaySession
  tell_reservations source active s =
      if not s.had_relay_reservation
      then tell_active source active s
      else if join (sorted active) == s.relay_reservation_key
      then s
      else tell_added (split s.relay_reservation_key) active s

  abbrev pub sync_active :
      RelayReason → List String → List String → RelaySession → List String × RelaySession
  sync_active source preferred [] s =
      ([], record (tell_lost s) { had_relay_reservation = false; relay_reservation_key = "" })
  sync_active source preferred (a ∷ others) s = (
    a ∷ others,
    record (tell_reservations source (a ∷ others) (tell_fallback preferred s)) {
      had_relay_reservation = true;
      relay_reservation_key = join (sorted (a ∷ others));
    },
  )

  unfoldable pub sync_relay_reservation_state :
      RelayReason → RelaySession → List String × RelaySession
  sync_relay_reservation_state source s =
      let preferred = preferred_reservation_addresses s.session in
      sync_active source preferred (or_first preferred (relay_reservation_addresses s.session)) s

  abbrev pub is_connected_relay : String → Session → Bool
  is_connected_relay id s =
      not (id == "relay") && any (λ c. c.remote_peer == id) (host.connections s.calls)

  abbrev pub begin_relay_dial : RelayReason → String → Option String → RelaySession → RelaySession
  begin_relay_dial reason address (some text) s = end_relay_dial reason address (refused text) s
  begin_relay_dial reason address none s =
      end_relay_dial reason address (network.dial_address address) (
        call_session
          (log_to (relay_log_id address) info (relay_dialing reason (describe_relay address)) s))

  abbrev pub dial_relay : RelayReason → String → RelaySession → RelaySession
  dial_relay reason address s =
      if is_connected_relay (relay_log_id address) s.session
      then log_to (relay_log_id address) info (relay_active reason (describe_relay address)) s
      else begin_relay_dial reason address (network.multiaddr_error address) s

  abbrev pub dial_relays : RelayReason → List String → RelaySession → RelaySession
  dial_relays reason [] s = s
  dial_relays reason (address ∷ rest) s = dial_relays reason rest (dial_relay reason address s)

  unfoldable pub dial_configured_relays : RelayReason → RelaySession → RelaySession
  dial_configured_relays reason s =
      if s.session.has_node then dial_relays reason relays.dial_addresses s else s

  -- The polls of waitForPreferredRelayReservation: none where the fuel does not do.
  abbrev pub wait_turns : ℕ → ℕ → RelaySession → Option Bool × RelaySession
  wait_turns zero deadline s = (none, s)
  wait_turns (suc n) deadline s =
      let (active, t) = sync_relay_reservation_state keepalive s in
      let later = wait_turns n deadline (call_session t) in
      if leb (host.now s.session.calls) deadline
      then (if ltb 0 (length active) then (some true, t) else later)
      else (some false, s)

  unfoldable pub wait_for_preferred_relay_reservation : RelaySession → Option Bool × RelaySession
  wait_for_preferred_relay_reservation s =
      wait_turns 26 (host.now s.session.calls + relay_reservation_wait_timeout_ms) s
