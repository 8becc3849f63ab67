-- ===== src/Session/Relays/Waits.antt =====
-- The wait for a relay reservation ends.
use skypier_chat.Prelude.{
  ℕ, zero, suc, ◌+◌, ◌*◌, ◌≤◌, ◌<◌, ◌≡◌, refl, ap, true, length, is_some, leb, ltb, arith,
  Bool-cases, inl, inr,
}
use skypier_chat.Session.{Host, keepalive}
use skypier_chat.Session.Addresses.{RelayConfiguration}
use skypier_chat.Session.Relays.{
  Network, RelaySession, wait_turns, call_session, sync_relay_reservation_state,
  wait_for_preferred_relay_reservation, relay_reservation_wait_timeout_ms,
  relay_reservation_poll_interval_ms,
}
use skypier_chat.Session.Relays.Steady.{sync-HasSameNode}

-- A timer of 500 ms passes between two polls.
abbrev pub IsSlow : Host → Type 0
IsSlow host = (n : ℕ) → host.now n + relay_reservation_poll_interval_ms ≤ host.now (n + 1)

module _ (host : Host) (network : Network) (relays : RelayConfiguration) (slow : IsSlow host) where
  wait_turns_end :
      (n deadline : ℕ) (s : RelaySession)
      → deadline < host.now s.session.calls + n * relay_reservation_poll_interval_ms
      → is_some (wait_turns host network relays (suc n) deadline s).0 ≡ true
  wait_turns_end zero deadline s h = elim (Bool-cases (leb (host.now s.session.calls) deadline)) [
    | inr e ↦ simp e refl
    | inl e ↦ absurd (ground (arith, e, h))
  ]
  wait_turns_end (suc n) deadline s h =
      elim (Bool-cases (leb (host.now s.session.calls) deadline)) [
        | inr e ↦ simp e refl
        | inl e ↦
            let answer = sync_relay_reservation_state host network relays keepalive s in
            let same : answer.1.session.calls ≡ s.session.calls =
              (sync-HasSameNode host network relays keepalive s).1 in
            elim (Bool-cases (ltb 0 (length answer.0))) [
              | inl t ↦ simp (e, t) refl
              | inr t ↦
                  simp (e, t)
                    (wait_turns_end n deadline (call_session answer.1)
                      (omega (arith, h, slow answer.1.session.calls, ap host.now same)))
            ]
      ]

  -- The wait for a reservation polls 26 times at most, where a timer of 500 ms passes between two
  -- polls: it ends, with a reservation or after its 12 s.
  pub wait_for_preferred_relay_reservation_end :
      (s : RelaySession)
      → is_some (wait_for_preferred_relay_reservation host network relays s).0 ≡ true
  unfolding wait_for_preferred_relay_reservation
  wait_for_preferred_relay_reservation_end s =
      wait_turns_end 25 (host.now s.session.calls + relay_reservation_wait_timeout_ms) s
        (omega arith)
