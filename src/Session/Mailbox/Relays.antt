-- ===== src/Session/Mailbox/Relays.antt =====
-- Which relay stores an envelope, and how often one is asked.
use mathlib.Core.Path.{subst}
use skypier_chat.Prelude.{
  String, ◌≡◌, refl, ap, sym, Bool, true, false, some, List, [], ◌∷◌, ◌++◌, Bool-cases, inl, inr,
}
use skypier_chat.Protocol.{
  ChatMessage, RecipientKeyWrap, RelayMailboxEnvelope, MailboxEnqueueResponse,
}
use skypier_chat.Session.{Host, Session}
use skypier_chat.Session.Mailbox.{
  Answers, was_accepted, request_enqueue, mailbox_envelope, enqueue_at_relays, enqueue_with_wraps,
  enqueue_mailbox_for_peer,
}

module _ (host : Host) (answers : Answers MailboxEnqueueResponse) where
  -- The session after the relays were asked one after another, and none of them accepted.
  abbrev pub AllRefuse : RelayMailboxEnvelope → List String → Session → Session → Type 0
  AllRefuse e [] s t = s ≡ t
  AllRefuse e (relay ∷ relays) s t =
      (was_accepted (request_enqueue host answers e relay s).0 ≡ false)
      × AllRefuse e relays (request_enqueue host answers e relay s).1 t

  -- The relays in order are asked until one accepts, and no relay behind it is asked.
  abbrev pub Stored : RelayMailboxEnvelope → List String → Session → Session → Type 0
  Stored e relays s t =
      (before : List String) × (relay : String) × (after : List String) × (u : Session) × (relays
        ≡ before ++ relay ∷ after)
      × AllRefuse e before s u
      × (was_accepted (request_enqueue host answers e relay u).0 ≡ true)
      × (t ≡ (request_enqueue host answers e relay u).1)

  abbrev pub Outcome : RelayMailboxEnvelope → List String → Session → Bool × Session → Type 0
  Outcome e relays s (true, t) = Stored e relays s t
  Outcome e relays s (false, t) = AllRefuse e relays s t

  Outcome-later :
      (e : RelayMailboxEnvelope) (relay : String) (relays : List String) (s : Session)
      (r : Bool × Session)
      → was_accepted (request_enqueue host answers e relay s).0 ≡ false
      → Outcome e relays (request_enqueue host answers e relay s).1 r
      → Outcome e (relay ∷ relays) s r
  Outcome-later e relay relays s (true, t) no_one
        (before, at, after, u, parts, refused, agreed, end) =
      (relay ∷ before, at, after, u, ap (λ xs. relay ∷ xs) parts, (no_one, refused), agreed, end)
  Outcome-later e relay relays s (false, t) no_one refused = (no_one, refused)

  enqueue_at_relays-Outcome :
      (e : RelayMailboxEnvelope) (relays : List String) (s : Session)
      → Outcome e relays s (enqueue_at_relays host answers e relays s)
  unfolding enqueue_at_relays
  enqueue_at_relays-Outcome e [] s = refl
  enqueue_at_relays-Outcome e (relay ∷ relays) s =
      elim (Bool-cases (was_accepted (request_enqueue host answers e relay s).0)) [
        | inl stored ↦ simp stored ([], relay, relays, s, refl, refl, stored, refl)
        | inr refused ↦ simp refused (
            Outcome-later e relay relays s _ refused
              (enqueue_at_relays-Outcome e relays (request_enqueue host answers e relay s).1))
      ]

  -- A message with a key wrap is offered to the configured relays in their order. Where the call
  -- reports success, one of them has accepted the envelope for the recipient, those before it did
  -- not, and those behind it were not asked; where it does not, all were asked and none accepted.
  pub enqueue_mailbox_for_peer-Outcome :
      (m : ChatMessage) (target : String) (s : Session) (w : RecipientKeyWrap)
      (ws : List RecipientKeyWrap)
      → m.ciphertext.key_wraps ≡ some (w ∷ ws)
      → Outcome
          (mailbox_envelope host m (w ∷ ws) target s)
          s.relay_peer_ids
          s
          (enqueue_mailbox_for_peer host answers m target s)
  unfolding enqueue_mailbox_for_peer
  enqueue_mailbox_for_peer-Outcome m target s w ws h =
      subst
        (λ o.
          Outcome (mailbox_envelope host m (w ∷ ws) target s) s.relay_peer_ids s
            (enqueue_with_wraps host answers m target o s))
        (sym h)
        (enqueue_at_relays-Outcome (mailbox_envelope host m (w ∷ ws) target s) s.relay_peer_ids s)
