-- ===== src/Session/Send/Throttle.antt =====
-- How often the session dials a peer anew, and how often it tries to replace a limited connection.
use skypier_chat.Prelude.{
  ℕ, ◌+◌, ◌≤◌, ◌<◌, String, ◌≡◌, true, false, none, some, arith, find, eq_refl, ◌==◌,
}
use skypier_chat.Prelude.Maps.{get, get-put}
use skypier_chat.Session.{Host, Session, is_self, Payload}
use skypier_chat.Session.Send.{
  redial, new_dial, ensure_connection, send_payload, send_failed, start_upgrade, redial_cooldown_ms,
  limited_retry_delay_ms,
}

module _ (host : Host) where
  -- After a dial that failed, the cooldown of the peer ends 2.5 s later.
  pub new_dial-cooldown :
      (peer : String) (s : Session)
      → host.valid_peer_id peer ≡ true
      → host.dial s.calls peer ≡ none
      → get (new_dial host peer s).1.redial_cooldown_until peer
        ≡ some (host.now (s.calls + 1) + redial_cooldown_ms)
  unfolding new_dial
  new_dial-cooldown peer s v d = simp (v, d, get-put, eq_refl)

  -- While another peer is in its cooldown and no connection to it is open, sending to it from a
  -- session with a node fails at once: it asks nothing of the network and changes nothing.
  pub send_payload_cooldown :
      (peer protocol : String) (p : Payload) (until : ℕ) (s : Session)
      → is_self s peer ≡ false
      → s.has_node ≡ true
      → find (λ c. c.remote_peer == peer) (host.connections s.calls) ≡ none
      → get s.redial_cooldown_until peer ≡ some until
      → host.now s.calls < until
      → send_payload host peer protocol p s ≡ (send_failed, s)
  unfolding send_payload ensure_connection redial
  send_payload_cooldown peer protocol p until s other up none_open cooling early = ground arith

  -- Two upgrade attempts for one peer lie at least 15 s apart: a second one starts only then.
  pub start_upgrade_apart :
      (peer : String) (at : ℕ) (s : Session)
      → get s.limited_connection_peers peer ≡ some at
      → (start_upgrade host peer s).0 ≡ true
      → at + limited_retry_delay_ms ≤ host.now s.calls
  unfolding start_upgrade
  start_upgrade_apart peer at s g h = ground arith

  start_upgrade-get :
      (peer : String) (s : Session)
      → (start_upgrade host peer s).0 ≡ true
      → get (start_upgrade host peer s).1.limited_connection_peers peer ≡ some (host.now s.calls)
  unfolding start_upgrade
  start_upgrade-get peer s h =
      ground (arith, get-put s.limited_connection_peers peer peer (host.now s.calls), eq_refl peer)
