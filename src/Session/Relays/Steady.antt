-- ===== src/Session/Relays/Steady.antt =====
-- A look at the relay reservations that finds them as they were tells nothing new.
use mathlib.Core.Path.{subst}
use skypier_chat.Prelude.{
  String, ◌==◌, eq_refl, ◌≡◌, refl, ap, sym, ◌∙◌, true, ◌&&◌, List, [], ◌∷◌, any, select, length,
  leb, ltb, Bool-cases, inl, inr, if◌then◌else◌,
}
use skypier_chat.Session.{Host, RelayReason}
use skypier_chat.Session.Addresses.{RelayConfiguration}
use skypier_chat.Session.Relays.{
  Network, RelaySession, tell_active, tell_added, tell_lost, tell_fallback, tell_reservations,
  sync_active, sync_relay_reservation_state, relay_reservation_addresses,
  preferred_reservation_addresses, or_first, is_preferred,
}
use skypier_chat.Session.Relays.Texts.{sorted, join, split}

-- What the addresses of the reservations depend on.
abbrev pub HasSameNode : RelaySession → RelaySession → Type 0
HasSameNode s t = t.session.has_node ≡ s.session.has_node × t.session.calls ≡ s.session.calls

tell_added-HasSameNode :
    (previous active : List String) (s : RelaySession)
    → HasSameNode s (tell_added previous active s)
tell_added-HasSameNode previous [] s = (refl, refl)
tell_added-HasSameNode previous (address ∷ rest) s =
    elim (Bool-cases (any (λ a. a == address) previous)) [
      | inl e ↦ simp e (tell_added-HasSameNode previous rest s)
      | inr e ↦ let next = tell_added-HasSameNode previous rest _ in simp e ((next.0, next.1))
    ]

module _ (host : Host) (network : Network) (relays : RelayConfiguration) where
  tell_active-HasSameNode :
      (source : RelayReason) (active : List String) (s : RelaySession)
      → HasSameNode s (tell_active host network relays source active s)
  tell_active-HasSameNode source [] s = (refl, refl)
  tell_active-HasSameNode source (address ∷ rest) s =
      let next = tell_active-HasSameNode source rest _ in (next.0, next.1)

  tell_lost-HasSameNode : (s : RelaySession) → HasSameNode s (tell_lost host network relays s)
  tell_lost-HasSameNode s = elim (Bool-cases s.had_relay_reservation) [
    | inl e ↦ simp e ((refl, refl))
    | inr e ↦ simp e ((refl, refl))
  ]

  -- The warning about a fallback changes the log alone.
  record IsOnlyTold (s t : RelaySession) : Type 0 where
    same_node : HasSameNode s t
    same_had : t.had_relay_reservation ≡ s.had_relay_reservation
    same_key : t.relay_reservation_key ≡ s.relay_reservation_key

  tell_fallback-IsOnlyTold :
      (preferred : List String) (s : RelaySession)
      → IsOnlyTold s (tell_fallback host network relays preferred s)
  tell_fallback-IsOnlyTold preferred s =
      elim (Bool-cases (ltb 0 (length relays.relay_peer_ids) && leb (length preferred) 0)) [
        | inl e ↦ simp e (record { same_node = (refl, refl); same_had = refl; same_key = refl })
        | inr e ↦ simp e (record { same_node = (refl, refl); same_had = refl; same_key = refl })
      ]

  tell_reservations-HasSameNode :
      (source : RelayReason) (active : List String) (s : RelaySession)
      → HasSameNode s (tell_reservations host network relays source active s)
  tell_reservations-HasSameNode source active s = elim (Bool-cases s.had_relay_reservation) [
    | inr e ↦ simp e (tell_active-HasSameNode source active s)
    | inl e ↦ elim (Bool-cases (join (sorted active) == s.relay_reservation_key)) [
      | inl t ↦ simp (e, t) ((refl, refl))
      | inr t ↦ simp (e, t) (tell_added-HasSameNode (split s.relay_reservation_key) active s)
    ]
  ]

  sync_active-HasSameNode :
      (source : RelayReason) (preferred active : List String) (s : RelaySession)
      → HasSameNode s (sync_active host network relays source preferred active s).1
  sync_active-HasSameNode source preferred [] s = tell_lost-HasSameNode s
  sync_active-HasSameNode source preferred (a ∷ others) s =
      let told = tell_fallback-IsOnlyTold preferred s in
      let next =
        tell_reservations-HasSameNode source (a ∷ others)
          (tell_fallback host network relays preferred s) in
      (next.0 ∙ told.same_node.0, next.1 ∙ told.same_node.1)

  pub sync-HasSameNode :
      (source : RelayReason) (s : RelaySession)
      → HasSameNode s (sync_relay_reservation_state host network relays source s).1
  unfolding sync_relay_reservation_state
  sync-HasSameNode source s = sync_active-HasSameNode source _ _ s

  -- What a repeated look does: with reservations, the warning about a fallback alone.
  abbrev pub told_again : List String → List String → RelaySession → RelaySession
  told_again preferred [] s = s
  told_again preferred (a ∷ others) s = tell_fallback host network relays preferred s

  keep_reservation :
      (source : RelayReason) (active : List String) (s : RelaySession)
      → s.had_relay_reservation ≡ true
      → s.relay_reservation_key ≡ join (sorted active)
      → record (tell_reservations host network relays source active s) {
        had_relay_reservation = true;
        relay_reservation_key = join (sorted active);
      }
        ≡ s
  keep_reservation source active s had key =
      let same : (join (sorted active) == s.relay_reservation_key) ≡ true =
        subst (λ k. (join (sorted active) == k) ≡ true) (sym key)
          (eq_refl (join (sorted active))) in
      simp (had, same) (simp (sym key) (ap (λ h. record s { had_relay_reservation = h }) (sym had)))

  sync_active_again :
      (source again : RelayReason) (preferred active : List String) (s : RelaySession)
      → let r = sync_active host network relays source preferred active s in
        sync_active host network relays again preferred active r.1
        ≡ (r.0, told_again preferred active r.1)
  sync_active_again source again preferred [] s = refl
  sync_active_again source again preferred (a ∷ others) s =
      let r = sync_active host network relays source preferred (a ∷ others) s in
      let told = tell_fallback-IsOnlyTold preferred r.1 in
      ap (λ t. (a ∷ others, t))
        (keep_reservation again (a ∷ others) (tell_fallback host network relays preferred r.1)
          told.same_had told.same_key)

  reservations_same :
      (s t : RelaySession)
      → HasSameNode s t
      → relay_reservation_addresses host network relays t.session
        ≡ relay_reservation_addresses host network relays s.session
  reservations_same s t h = rw (h.0, h.1) refl

  -- A second look at the reservations, before anything else happens, finds the same addresses and
  -- changes nothing; where there are reservations, but none of the configured relays, it repeats
  -- the warning about that and tells nothing else.
  pub sync_relay_reservation_state_again :
      (source again : RelayReason) (s : RelaySession)
      → let r = sync_relay_reservation_state host network relays source s in
        sync_relay_reservation_state host network relays again r.1 ≡ (
          r.0,
          told_again
              (preferred_reservation_addresses host network relays s.session)
              (or_first
                (preferred_reservation_addresses host network relays s.session)
                (relay_reservation_addresses host network relays s.session))
              r.1,
        )
  unfolding sync_relay_reservation_state
  sync_relay_reservation_state_again source again s =
      let r = sync_relay_reservation_state host network relays source s in
      let h = sync-HasSameNode source s in
      let looked : List String → List String = λ all.
        (if leb (length relays.relay_peer_ids) 0
          then all
          else select (is_preferred host network relays) all) in
      ap (λ all. sync_active host network relays again (looked all) (or_first (looked all) all) r.1)
        (reservations_same s r.1 h)
      ∙ sync_active_again source again
          (preferred_reservation_addresses host network relays s.session)
          (or_first (preferred_reservation_addresses host network relays s.session)
            (relay_reservation_addresses host network relays s.session))
          s
