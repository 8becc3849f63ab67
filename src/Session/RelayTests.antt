-- ===== src/Session/RelayTests.antt =====
-- Relays, reservations and dials of a session with two configured relays.
use skypier_chat.Prelude.{String, ◌≡◌, refl, true, false, none, List, [], ◌∷◌, is_some, All, arith}
use skypier_chat.Prelude.Maps.{get, distinct}
use skypier_chat.Prelude.Text.{trim}
use skypier_chat.Session.{Connection}
use skypier_chat.Session.Samples.{offline_host, ready, to_bob}
use skypier_chat.Session.Addresses.{
  RelayConfiguration, configure_relays, add_relay_addresses, add_relay_address, extract_peer_id,
  relay_address_rank, bootstrap_candidates,
}
use skypier_chat.Session.Addresses.Best.{
  HasOneEach, is_among, add_relay_addresses_best, has_best, IsFiled,
}
use skypier_chat.Session.Relays.{
  Network, answered, refused, not_found, RelaySession, excess_connections,
  wait_for_preferred_relay_reservation,
}
use skypier_chat.Session.Relays.Waits.{wait_for_preferred_relay_reservation_end}
use skypier_chat.Session.Dialling.{dial_peer_by_id}
use skypier_chat.Session.Dialling.Routes.{
  dial_peer_by_id_routes, reached_peer, first_reached, all_routes,
}

abbrev bootstraps : List String
bootstraps =
    "/dns4/one.example/tcp/4001/p2p/relay1"
    ∷ "/dns4/one.example/tcp/443/tls/ws/p2p/relay1/p2p-circuit"
    ∷ "/ip4/10.0.0.9/udp/4001/webtransport/p2p/relay2" ∷ []

configured_addresses :
    (configure_relays bootstraps none).dial_addresses
    ≡ "/dns4/one.example/tcp/443/tls/ws/p2p/relay1" ∷ []
unfolding configure_relays add_relay_address extract_peer_id relay_address_rank bootstrap_candidates
    distinct get
configured_addresses = refl

add_relay_addresses_best_example :
    HasOneEach (add_relay_addresses bootstraps [])
    × All (λ e. is_among bootstraps e ≡ true) (add_relay_addresses bootstraps [])
    × All IsFiled (add_relay_addresses bootstraps [])
    × All (λ address. has_best (add_relay_addresses bootstraps []) address ≡ true) bootstraps
add_relay_addresses_best_example = add_relay_addresses_best bootstraps

abbrev relays : RelayConfiguration
relays = record {
  bootstrap_addresses = "/dns4/one.example/tcp/443/tls/ws/p2p/relay1" ∷ [];
  dial_addresses = "/dns4/one.example/tcp/443/tls/ws/p2p/relay1" ∷ [];
  relay_addresses = "/dns4/one.example/tcp/443/tls/ws/p2p/relay1/p2p-circuit" ∷ [];
  relay_peer_ids = "relay1" ∷ [];
  hard_connection_limit = 2;
}

abbrev connection_to : String → Connection
connection_to peer = record {
  remote_peer = peer;
  remote_addr = "/ip4/10.0.0.3";
  has_limits = false;
}

abbrev crowd : List Connection
crowd = connection_to "relay1" ∷ connection_to "ann" ∷ connection_to "bob" ∷ connection_to "cy" ∷ []

crowd_closes : excess_connections relays crowd ≡ connection_to "ann" ∷ connection_to "bob" ∷ []
unfolding excess_connections
crowd_closes = refl

-- Bob answers over the relay alone.
abbrev relayed : Network
relayed = record {
  multiaddr_error = λ address. none;
  dial_address = λ address. answered to_bob;
  dial_peer = λ peer. refused "no addresses";
  find_peer = λ peer. not_found "not found";
  close = λ c. true;
}

abbrev session : RelaySession
session = record { session = ready []; had_relay_reservation = false; relay_reservation_key = "" }

wait_for_preferred_relay_reservation_end_example :
    is_some (wait_for_preferred_relay_reservation offline_host relayed relays session).0 ≡ true
wait_for_preferred_relay_reservation_end_example =
    wait_for_preferred_relay_reservation_end offline_host relayed relays (λ n. omega arith) session

dial_peer_by_id_routes_example :
    reached_peer (dial_peer_by_id offline_host relayed relays " bob " session).0
    ≡ first_reached (all_routes offline_host relayed relays (trim " bob "))
dial_peer_by_id_routes_example =
    dial_peer_by_id_routes offline_host relayed relays " bob " session refl refl
