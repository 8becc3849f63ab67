-- ===== src/Session.antt =====
-- The live session of a browser peer: packages/network/src/session.ts, `createBrowserLiveSession`.
-- The closure's variables are the record `Session`; what it asks of libp2p and of the clock is the
-- record `Host`, whose answers may change with every call (`calls` counts them); what it tells its
-- listeners, the console apart, is the list `events`, the oldest first.
pub mod Queue
pub mod Samples
pub mod Tests
pub mod MessageTests
pub mod Send
pub mod Interleave
pub mod Broadcast
pub mod Groups
pub mod Mailbox
pub mod Peers
pub mod Addresses
pub mod Relays
pub mod Dialling
pub mod RelayTests
use skypier_chat.Prelude.{ℕ, ◌+◌, String, Bool, Option, none, some, List, [], ◌∷◌, ◌++◌, length}
use skypier_chat.Prelude.{if◌then◌else◌, ◌==◌, map, same_text, truthy}
use skypier_chat.Prelude.Maps.{Dict}
use skypier_chat.Protocol.{
  WireEnvelope, Timestamp, Reachability, AudioCallSignal, AudioCallSignalType, AudioCallChunk,
}

pub data SessionStatus : Type 0 where
  idle starting running stopped error : SessionStatus

pub data DeliveryStatus : Type 0 where
  sent delivered failed : DeliveryStatus

pub record BrowserLiveSessionState : Type 0 where
  pub status : SessionStatus
  pub local_peer_id : Option String
  pub connected_peers : List String
  pub listen_addresses : List String
  pub protocols : List String
  pub queued_outgoing : ℕ
  pub last_error : Option String
  pub relay_peer_ids : List String

-- What one length-prefixed frame carries.
pub data Payload : Type 0 where
  envelope_payload : WireEnvelope → Payload
  signal_payload : AudioCallSignal → Payload
  chunk_payload : AudioCallChunk → Payload

pub data LogLevel : Type 0 where
  info warn error success : LogLevel

-- Why relays are dialled or their reservations looked at.
pub data RelayReason : Type 0 where
  startup keepalive : RelayReason

-- The messages of the dial log, one constructor for each text, over the values that it shows.
pub data LogMessage : Type 0 where
  upgrade_attempted upgrade_succeeded upgrade_failed relay_limited : LogMessage
  signal_undelivered : AudioCallSignalType → LogMessage
  chunk_undelivered : ℕ → String → LogMessage
  group_joined group_left : String → LogMessage
  relay_active relay_dialing reservation_active : RelayReason → String → LogMessage
  relay_refused : RelayReason → String → String → LogMessage
  relay_connected reservation_added : String → LogMessage
  reservation_lost fallback_reservation reservation_renewal : LogMessage
  reservation_missing reservation_confirmed : LogMessage
  direct_attempted direct_succeeded explicit_succeeded no_dialable_addresses : LogMessage
  direct_refused explicit_tried explicit_refused address_tried address_refused : String → LogMessage
  addresses_found : ℕ → LogMessage
  address_succeeded : Bool → LogMessage
  recovery_starts recovery_checks : String → LogMessage
  sync_requested : String → ℕ → ℕ → LogMessage

-- The calls of listeners, and what reaches libp2p: the tags in its peer store, and the frames that
-- are written to a peer's stream under a protocol.
pub data Event : Type 0 where
  state_changed : BrowserLiveSessionState → Event
  delivery_status : String → DeliveryStatus → Event
  dial_log : String → LogLevel → LogMessage → Event
  inbound : String → WireEnvelope → Event
  peer_reachability : String → Reachability → Event
  tag_chat_peer : String → Event
  frame_written : String → String → Payload → Event

pub record QueuedEnvelope : Type 0 where
  pub peer_id : String
  pub envelope : WireEnvelope
  pub retry_count : ℕ
  pub next_retry_at : Timestamp

-- The form of an entry in the local storage (packages/storage/src/index.ts).
pub record PersistedQueueEntry : Type 0 where
  pub peer_id : String
  pub message_id : String
  pub envelope : WireEnvelope
  pub retry_count : ℕ
  pub next_retry_at : Timestamp

pub record Connection : Type 0 where
  pub remote_peer : String
  pub remote_addr : String
  pub has_limits : Bool

-- The errors that are told apart when a stream is opened, written to or closed.
pub data StreamError : Type 0 where
  unsupported_protocol limited_connection failure : StreamError

-- How an attempt to open a stream, to write one frame and to close the stream ends: all of it done,
-- or an error and whether the frame was written by then, so that only the closing failed.
pub data StreamOutcome : Type 0 where
  written : StreamOutcome
  broken : Bool → StreamError → StreamOutcome

-- An entry of `redialInFlight`: a dial that another task awaits, or the promise, resolved with
-- undefined, that stays in the map when `peerIdFromString` throws before the entry is made.
pub data Redial : Type 0 where
  under_way settled : Redial

-- libp2p and the clock: the answers at the n-th call. `valid_peer_id` is false where
-- `peerIdFromString` throws, `dial` none where it throws; `joined` is what a dial that is already
-- under way comes to, `upgrade` what the race of a new dial with its timeout comes to.
pub record Host : Type 0 where
  pub peer_id : String
  pub now : ℕ → Timestamp
  pub connections : ℕ → List Connection
  pub multiaddrs : ℕ → List String
  pub protocols : ℕ → List String
  pub dial : ℕ → String → Option Connection
  pub joined : ℕ → String → Option Connection
  pub valid_peer_id : String → Bool
  pub upgrade : ℕ → String → Option Connection
  pub write : ℕ → Connection → String → StreamOutcome

pub record Session : Type 0 where
  pub state : BrowserLiveSessionState
  pub has_node : Bool
  pub queue : List QueuedEnvelope
  pub persisted : List PersistedQueueEntry
  pub events : List Event
  pub redial_in_flight : Dict Redial
  pub redial_cooldown_until : Dict Timestamp
  pub limited_connection_peers : Dict Timestamp
  pub retry_loop : Bool
  pub relay_keepalive : Bool
  pub relay_check : Bool
  pub relay_peer_ids : List String
  pub calls : ℕ

abbrev pub emit : Event → Session → Session
emit e s = record s { events = s.events ++ e ∷ [] }

-- A call of the host is over.
abbrev pub called : Session → Session
called s = record s { calls = s.calls + 1 }

abbrev pub is_self : Session → String → Bool
is_self s peer = same_text s.state.local_peer_id peer

-- emitDeliveryStatus, under the test `if (envelope.messageId)` that each call of it stands under
abbrev pub tell : Option String → DeliveryStatus → Session → Session
tell none d s = s
tell (some id) d s = emit (delivery_status id d) s

unfoldable pub emit_delivery : WireEnvelope → DeliveryStatus → Session → Session
emit_delivery e d s = tell (truthy e.message_id) d s

module _ (host : Host) where
  -- emitState
  unfoldable pub emit_state : Session → Session
  emit_state s =
      let next : BrowserLiveSessionState = record s.state {
        connected_peers =
            if s.has_node then map (λ c. c.remote_peer) (host.connections s.calls) else [];
        listen_addresses = if s.has_node then host.multiaddrs s.calls else [];
        protocols = if s.has_node then host.protocols s.calls else [];
        queued_outgoing = length s.queue;
        relay_peer_ids = s.relay_peer_ids;
      } in
      emit (state_changed next) (record s { state = next })

abbrev pub persist_entry : QueuedEnvelope → PersistedQueueEntry
persist_entry q = record {
  peer_id = q.peer_id;
  message_id = elim q.envelope.message_id [ none ↦ "" | some id ↦ id ];
  envelope = q.envelope;
  retry_count = q.retry_count;
  next_retry_at = q.next_retry_at;
}

-- persistQueue, with savePendingQueue: a storage that refuses a write is left out
unfoldable pub persist_queue : Session → Session
persist_queue s = record s { persisted = map persist_entry s.queue }

-- The queue that `createBrowserLiveSession` starts from.
unfoldable pub restore_entry : PersistedQueueEntry → QueuedEnvelope
restore_entry e = record {
  peer_id = e.peer_id;
  envelope = e.envelope;
  retry_count = e.retry_count;
  next_retry_at = e.next_retry_at;
}

unfoldable pub initial_state : BrowserLiveSessionState
initial_state = record {
  status = idle;
  local_peer_id = none;
  connected_peers = [];
  listen_addresses = [];
  protocols = [];
  queued_outgoing = 0;
  last_error = none;
  relay_peer_ids = [];
}

-- The variables when `createBrowserLiveSession` returns, from what the storage holds.
unfoldable pub create_session : List String → List PersistedQueueEntry → Session
unfolding initial_state restore_entry
create_session relays stored = record {
  state = initial_state;
  has_node = Bool.false;
  queue = map restore_entry stored;
  persisted = stored;
  events = [];
  redial_in_flight = [];
  redial_cooldown_until = [];
  limited_connection_peers = [];
  retry_loop = Bool.false;
  relay_keepalive = Bool.false;
  relay_check = Bool.false;
  relay_peer_ids = relays;
  calls = 0;
}
