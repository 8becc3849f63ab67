-- ===== src/Controller/Bundles.antt =====
-- The pre-key bundles of peers: applyReceivedPreKeyBundle in apps/web/src/useChatController.ts.
use skypier_chat.Prelude.{
  String, ◌==◌, eq_refl, ◌≡◌, refl, Bool, true, false, ◌&&◌, Option, none, some, List, [], ◌∷◌, any,
  if◌then◌else◌, Bool-cases, inl, inr,
}
use skypier_chat.Protocol.{
  DevicePreKeyBundle, DeviceIdentity, Participant, Conversation, web, software,
}
use skypier_chat.Storage.{PersistedChatState}
use skypier_chat.Controller.{map_changes, map_changes_again}

module _ (from : String) (bundle : DevicePreKeyBundle) where
  abbrev same_bundle : Option DevicePreKeyBundle → Bool
  same_bundle none = false
  same_bundle (some b) = b.device_id == bundle.device_id && b.pre_key_id == bundle.pre_key_id

  abbrev remote_device : DeviceIdentity
  remote_device = record {
    id = bundle.device_id;
    label = "Remote device";
    peer_id = from;
    platform = web;
    trust_level = software;
    pre_key_bundle = some bundle;
  }

  abbrev set_bundle : DeviceIdentity → DeviceIdentity
  set_bundle d = record d { id = bundle.device_id; pre_key_bundle = some bundle }

  -- The first device of the sender gets the bundle, unless it has it; without one a device comes in.
  abbrev apply_to_devices : List DeviceIdentity → Bool × List DeviceIdentity
  apply_to_devices [] = (true, remote_device ∷ [])
  apply_to_devices (d ∷ ds) =
      let (changed, rest) = apply_to_devices ds in
      if d.peer_id == from
      then (if same_bundle d.pre_key_bundle then (false, d ∷ ds) else (true, set_bundle d ∷ ds))
      else (changed, d ∷ rest)

  abbrev apply_to_participant : Participant → Bool × Participant
  apply_to_participant p =
      let (changed, ds) = apply_to_devices p.devices in
      if p.peer_id == from then (changed, record p { devices = ds }) else (false, p)

  abbrev apply_to_conversation : Conversation → Bool × Conversation
  apply_to_conversation c =
      let (changed, ps) = map_changes apply_to_participant c.participants in
      if any (λ p. p.peer_id == from) c.participants
      then (changed, record c { participants = ps })
      else (false, c)

  unfoldable pub apply_received_pre_key_bundle : PersistedChatState → PersistedChatState
  apply_received_pre_key_bundle s =
      let (changed, cs) = map_changes apply_to_conversation s.conversations in
      if changed then record s { conversations = cs } else s

  apply_to_devices_again :
      (ds : List DeviceIdentity)
      → apply_to_devices (apply_to_devices ds).1 ≡ (false, (apply_to_devices ds).1)
  apply_to_devices_again [] =
      simp (eq_refl from, eq_refl bundle.device_id, eq_refl bundle.pre_key_id) refl
  apply_to_devices_again (d ∷ ds) = elim (Bool-cases (d.peer_id == from)) [
    | inr other ↦ simp other (rw (apply_to_devices_again ds) refl)
    | inl own ↦ elim (Bool-cases (same_bundle d.pre_key_bundle)) [
      | inl same ↦ simp (own, same) refl
      | inr new ↦ simp (own, new, eq_refl bundle.device_id, eq_refl bundle.pre_key_id) refl
    ]
  ]

  apply_to_participant_again :
      (p : Participant)
      → apply_to_participant (apply_to_participant p).1 ≡ (false, (apply_to_participant p).1)
  apply_to_participant_again p = elim (Bool-cases (p.peer_id == from)) [
    | inr other ↦ simp other refl
    | inl own ↦ simp own (rw (apply_to_devices_again p.devices) refl)
  ]

  apply_to_participant-peer : (p : Participant) → (apply_to_participant p).1.peer_id ≡ p.peer_id
  apply_to_participant-peer p = elim (Bool-cases (p.peer_id == from)) [
    | inr other ↦ simp other refl
    | inl own ↦ simp own refl
  ]

  has_sender-map_changes :
      (ps : List Participant)
      → any (λ p. p.peer_id == from) (map_changes apply_to_participant ps).1
        ≡ any (λ p. p.peer_id == from) ps
  has_sender-map_changes [] = refl
  has_sender-map_changes (p ∷ ps) = rw (apply_to_participant-peer p, has_sender-map_changes ps) refl

  apply_to_conversation_again :
      (c : Conversation)
      → apply_to_conversation (apply_to_conversation c).1 ≡ (false, (apply_to_conversation c).1)
  apply_to_conversation_again c = elim (Bool-cases (any (λ p. p.peer_id == from) c.participants)) [
    | inr other ↦ simp other refl
    | inl own ↦ simp own (
        rw
          (
            has_sender-map_changes c.participants,
            own,
            map_changes_again apply_to_participant apply_to_participant_again c.participants,
          )
          refl)
  ]

  -- A peer's bundle that is received twice changes nothing the second time: after the first time
  -- no conversation changes, and the state stays as it is.
  pub apply_received_pre_key_bundle_idem :
      (s : PersistedChatState)
      → apply_received_pre_key_bundle (apply_received_pre_key_bundle s)
        ≡ apply_received_pre_key_bundle s
  unfolding apply_received_pre_key_bundle
  apply_received_pre_key_bundle_idem s =
      let answer = map_changes apply_to_conversation s.conversations in
      elim (Bool-cases answer.0) [
        | inr same ↦ simp same refl
        | inl new ↦ simp new (
            rw (map_changes_again apply_to_conversation apply_to_conversation_again s.conversations)
              refl)
      ]
