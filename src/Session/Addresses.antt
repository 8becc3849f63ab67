-- ===== src/Session/Addresses.antt =====
-- The relay addresses of a session: extractPeerIdFromMultiaddr, relayAddressRank, the configured
-- lists that createBrowserLiveSession computes from the bootstrap addresses, and
-- buildExplicitRelayDialAddresses in packages/network/src/session.ts.
pub mod Best
use text.Mathlib.Text.{find?}
use Prim.Native.String.{◌++◌}
use skypier_chat.Prelude.{
  ℕ, String, ◌==◌, Bool, true, false, not, ◌||◌, ◌&&◌, Option, none, some, List, [], ◌∷◌, any,
  select, map, is_some, max, or_else, ltb, if◌then◌else◌,
}
use skypier_chat.Prelude.Maps.{distinct, Dict, get}
use skypier_chat.Prelude.Text.{
  trim, ends_with, without_end, before_slash, from_slash, after_prefix, first_at,
}

abbrev pub includes : String → String → Bool
includes s t = is_some (find? s t)

abbrev pub circuit : String
circuit = "/p2p-circuit"

-- The segment of the expression /\/p2p\/([^/]+)(?:\/p2p-circuit)?$/ where it matches here.
abbrev pub last_segment : String → Option String
last_segment s =
    let segment = before_slash s in
    let rest = from_slash s in
    if segment == "" then none else if rest == "" || rest == circuit then some segment else none

abbrev pub peer_id_here : String → Option String
peer_id_here s = elim (after_prefix s "/p2p/") [ none ↦ none | some rest ↦ last_segment rest ]

unfoldable pub extract_peer_id : String → Option String
extract_peer_id address = first_at peer_id_here address

-- /\/p2p\/[^/]+$/, at any place
abbrev pub bare_peer_id_here : String → Option String
bare_peer_id_here s = elim (after_prefix s "/p2p/") [
  | none ↦ none
  | some rest ↦ if from_slash rest == "" && not (rest == "") then some rest else none
]

abbrev pub has_bare_peer_id : String → Bool
has_bare_peer_id address = is_some (first_at bare_peer_id_here address)

unfoldable pub relay_address_rank : String → ℕ
relay_address_rank address =
    if includes address "/tls/ws" || includes address "/wss"
    then 0
    else if includes address "/webtransport"
    then 1
    else 2

unfoldable pub bootstrap_candidates : List String → List String
bootstrap_candidates multiaddrs = distinct (
    select has_bare_peer_id (
      map (λ address. without_end address circuit)
        (select (λ address. not (includes address "/dnsaddr/bootstrap.libp2p.io/")) multiaddrs)))

-- A `Map` keeps the place of a key that it has: the entry is replaced where it stands.
abbrev pub set_entry : Dict String → String → String → Dict String
set_entry [] k v = (k, v) ∷ []
set_entry ((j, u) ∷ m) k v =
    let rest = set_entry m k v in if j == k then (k, v) ∷ m else (j, u) ∷ rest

abbrev pub is_better : String → Option String → Bool
is_better address none = true
is_better address (some current) = ltb (relay_address_rank address) (relay_address_rank current)

abbrev pub add_under : Option String → String → Dict String → Dict String
add_under none address m = m
add_under (some peer) address m =
    if is_better address (get m peer) then set_entry m peer address else m

unfoldable pub add_relay_address : String → Dict String → Dict String
add_relay_address address m = add_under (extract_peer_id address) address m

abbrev pub add_relay_addresses : List String → Dict String → Dict String
add_relay_addresses [] m = m
add_relay_addresses (address ∷ rest) m = add_relay_addresses rest (add_relay_address address m)

abbrev pub values : Dict String → List String
values m = map (λ e. e.1) m

abbrev pub is_control_address : String → Bool
is_control_address address =
    includes address "/tls/ws" || includes address "/wss" || includes address "/ws"

abbrev pub with_circuit : String → String
with_circuit address = if ends_with address circuit then address else address ++ circuit

abbrev pub peer_ids_of : List String → List String
peer_ids_of [] = []
peer_ids_of (address ∷ rest) =
    let ids = peer_ids_of rest in
    elim (extract_peer_id address) [ none ↦ ids | some peer ↦ peer ∷ ids ]

-- What the session derives from its options: the addresses of the relays, those that it dials,
-- their circuit addresses, their peer ids, and the limit of connections.
pub record RelayConfiguration : Type 0 where
  pub bootstrap_addresses : List String
  pub dial_addresses : List String
  pub relay_addresses : List String
  pub relay_peer_ids : List String
  pub hard_connection_limit : ℕ

abbrev pub or_all : List String → List String → List String
or_all [] all = all
or_all (x ∷ xs) all = x ∷ xs

unfoldable pub configure_relays : List String → Option ℕ → RelayConfiguration
configure_relays multiaddrs max_connections =
    let bootstrap = values (add_relay_addresses (bootstrap_candidates multiaddrs) []) in
    let relays = map with_circuit bootstrap in
    record {
      bootstrap_addresses = bootstrap;
      dial_addresses = or_all (select is_control_address bootstrap) bootstrap;
      relay_addresses = relays;
      relay_peer_ids = distinct (peer_ids_of relays);
      hard_connection_limit = max 2 (or_else max_connections 4);
    }

unfoldable pub build_explicit_relay_dial_addresses : RelayConfiguration → String → List String
build_explicit_relay_dial_addresses relays peer =
    if trim peer == ""
    then []
    else distinct (
        map (λ address. without_end address circuit ++ "/p2p-circuit/p2p/" ++ peer)
          relays.dial_addresses)
