-- ===== src/Session/Dialling/Routes.antt =====
-- Which routes a dial by peer id tries, and what it returns.
use mathlib.Core.Path.{subst}
use skypier_chat.Prelude.{
  String, ◌≡◌, refl, sym, ◌∙◌, Bool, true, false, not, Option, none, some, List, [], ◌∷◌, ◌++◌, map,
  if◌then◌else◌,
}
use skypier_chat.Prelude.Text.{trim}
use skypier_chat.Session.{Host}
use skypier_chat.Session.Addresses.{RelayConfiguration, build_explicit_relay_dial_addresses}
use skypier_chat.Session.Relays.{
  Network, Dialled, answered, refused, Found, found, not_found, RelaySession, dial_text,
}
use skypier_chat.Session.Dialling.{
  DialEnd, reached, unreachable, or_try, or_next, end_direct, end_explicit, end_address,
  try_explicit, try_relays, try_addresses, try_found, try_dht, dial_normalized, dial_peer_by_id,
  refusal,
}

-- The peer of the first dial that is answered.
abbrev pub or_second : Option String → Option String → Option String
or_second none o = o
or_second (some p) o = some p

abbrev pub first_reached : List Dialled → Option String
first_reached [] = none
first_reached (answered c ∷ ds) = some c.remote_peer
first_reached (refused text ∷ ds) = first_reached ds

abbrev pub found_addresses : Found → List String
found_addresses (found addresses) = addresses
found_addresses (not_found text) = []

abbrev pub reached_peer : DialEnd → Option String
reached_peer (reached peer) = some peer
reached_peer (unreachable text) = none

first_reached-append :
    (ds es : List Dialled)
    → first_reached (ds ++ es) ≡ or_second (first_reached ds) (first_reached es)
first_reached-append [] es = refl
first_reached-append (answered c ∷ ds) es = refl
first_reached-append (refused text ∷ ds) es = first_reached-append ds es

guarded :
    (b c : Bool) (x y z : DialEnd × RelaySession)
    → b ≡ true
    → c ≡ true
    → reached_peer (if not b then x else if c then y else z).0 ≡ reached_peer y.0
guarded true true x y z h k = refl
guarded true false x y z h k = absurd (cc k)
guarded false c x y z h k = absurd (cc h)

module _ (host : Host) (network : Network) (relays : RelayConfiguration) where
  -- The dials of all routes, in their order: the peer's known addresses, the configured relays, and
  -- the addresses that the DHT gives.
  abbrev pub all_routes : String → List Dialled
  all_routes peer =
      (network.dial_peer peer
        ∷ map (dial_text network) (build_explicit_relay_dial_addresses relays peer))
      ++ map network.dial_address (found_addresses (network.find_peer peer))

  explicit_step :
      (peer : String) (d : Dialled) (s : RelaySession) (rest : List String) (ds : List Dialled)
      → ((t : RelaySession) → (try_explicit host network relays peer rest t).0 ≡ first_reached ds)
      → (or_next
          (end_explicit host network relays peer d s)
          (try_explicit host network relays peer rest)).0
        ≡ first_reached (d ∷ ds)
  explicit_step peer (answered c) s rest ds h = refl
  explicit_step peer (refused text) s rest ds h = h _

  try_explicit-first :
      (peer : String) (addresses : List String) (s : RelaySession)
      → (try_explicit host network relays peer addresses s).0
        ≡ first_reached (map (dial_text network) addresses)
  try_explicit-first peer [] s = refl
  try_explicit-first peer (address ∷ rest) s =
      explicit_step peer (dial_text network address) _ rest (map (dial_text network) rest)
        (λ t. try_explicit-first peer rest t)

  try_relays-first :
      (peer : String) (addresses : List String) (s : RelaySession)
      → (try_relays host network relays peer addresses s).0
        ≡ first_reached (map (dial_text network) addresses)
  try_relays-first peer [] s = refl
  try_relays-first peer (address ∷ rest) s = try_explicit-first peer (address ∷ rest) _

  addresses_step :
      (peer address last : String) (d : Dialled) (s : RelaySession) (rest : List String)
      (ds : List Dialled)
      → ((t : RelaySession)
          → reached_peer (try_addresses host network relays peer (refusal d last) rest t).0
            ≡ first_reached ds)
      → reached_peer
          (or_try
            (end_address host network relays peer address d s)
            (try_addresses host network relays peer (refusal d last) rest)).0
        ≡ first_reached (d ∷ ds)
  addresses_step peer address last (answered c) s rest ds h = refl
  addresses_step peer address last (refused text) s rest ds h = h _

  try_addresses-first :
      (peer last : String) (addresses : List String) (s : RelaySession)
      → reached_peer (try_addresses host network relays peer last addresses s).0
        ≡ first_reached (map network.dial_address addresses)
  try_addresses-first peer last [] s = refl
  try_addresses-first peer last (address ∷ rest) s =
      addresses_step peer address last (network.dial_address address) _ rest
        (map network.dial_address rest)
        (λ t. try_addresses-first peer (refusal (network.dial_address address) last) rest t)

  try_found-first :
      (peer : String) (answer : Found) (s : RelaySession)
      → reached_peer (try_found host network relays peer answer s).0
        ≡ first_reached (map network.dial_address (found_addresses answer))
  try_found-first peer (not_found text) s = refl
  try_found-first peer (found []) s = refl
  try_found-first peer (found (address ∷ rest)) s =
      try_addresses-first peer "All DHT addresses failed" (address ∷ rest) _

  -- The DHT is asked where no route before it has reached the peer.
  or_try-first :
      (o : Option String × RelaySession) (peer : String) (first : Option String)
      → o.0 ≡ first
      → reached_peer (or_try o (try_dht host network relays peer)).0
        ≡ or_second first
            (first_reached (map network.dial_address (found_addresses (network.find_peer peer))))
  or_try-first (some p, s) peer first e =
      let later =
        first_reached (map network.dial_address (found_addresses (network.find_peer peer))) in
      subst (λ f. some p ≡ or_second f later) e refl
  or_try-first (none, s) peer first e =
      let later =
        first_reached (map network.dial_address (found_addresses (network.find_peer peer))) in
      subst (λ f. reached_peer (try_dht host network relays peer s).0 ≡ or_second f later) e
        (try_found-first peer (network.find_peer peer) _)

  direct_first :
      (peer : String) (d : Dialled) (s : RelaySession) (addresses : List String)
      → (or_next
          (end_direct host network relays peer d s)
          (try_relays host network relays peer addresses)).0
        ≡ first_reached (d ∷ map (dial_text network) addresses)
  direct_first peer (answered c) s addresses = refl
  direct_first peer (refused text) s addresses = try_relays-first peer addresses _

  -- Where the session has a node and the trimmed peer id is well formed, dialling it returns the
  -- peer of the first route that is answered, and throws where none is: first its known addresses,
  -- then the configured relays in their order, then the addresses that the DHT gives in theirs.
  pub dial_peer_by_id_routes :
      (peer : String) (s : RelaySession)
      → s.session.has_node ≡ true
      → host.valid_peer_id (trim peer) ≡ true
      → reached_peer (dial_peer_by_id host network relays peer s).0
        ≡ first_reached (all_routes (trim peer))
  unfolding dial_peer_by_id
  dial_peer_by_id_routes peer s running valid =
      let p = trim peer in
      let explicit = build_explicit_relay_dial_addresses relays p in
      guarded s.session.has_node (host.valid_peer_id p) _ (dial_normalized host network relays p s)
        _ running valid
      ∙ (or_try-first _ p (first_reached (network.dial_peer p ∷ map (dial_text network) explicit))
            (direct_first p (network.dial_peer p) _ explicit)
          ∙ sym (
              first_reached-append (network.dial_peer p ∷ map (dial_text network) explicit)
                (map network.dial_address (found_addresses (network.find_peer p)))))
