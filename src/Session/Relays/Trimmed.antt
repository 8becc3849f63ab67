-- ===== src/Session/Relays/Trimmed.antt =====
-- Which connections are closed when there are too many.
use skypier_chat.Prelude.{◌≡◌, false, not, List, select}
use skypier_chat.Session.{Connection}
use skypier_chat.Session.Addresses.{RelayConfiguration}
use skypier_chat.Session.Relays.{is_relay}

module _ (relays : RelayConfiguration) where
  abbrev pub others : List Connection → List Connection
  others cs = select (λ c. not (is_relay relays c)) cs

  abbrev pub IsNoRelay : Connection → Type 0
  IsNoRelay c = is_relay relays c ≡ false
