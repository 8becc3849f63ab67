-- ===== src/Session/Broadcast/Kept.antt =====
-- What a broadcast and a direct send keep of the queue.
use mathlib.Core.Path.{subst}
use skypier_chat.Prelude.{
  ℕ, String, ◌≡◌, refl, sym, Bool, true, false, List, [], ◌∷◌, arith, Bool-cases, inl, inr, Option,
  none, some, any, any-append, ◌++◌, ◌&&◌, ◌≢◌, ap, ◌∙◌, eq_refl, same_text,
}
use skypier_chat.Protocol.{WireEnvelope, ChatMessage}
use skypier_chat.Session.{Host, Session, called, is_self, emit_state, persist_queue, QueuedEnvelope}
use skypier_chat.Session.Send.{
  SendResult, sent_ok, unsupported, limited, send_failed, send_envelope,
}
use skypier_chat.Session.Send.Frame.{send_envelope-SameQueue}
use skypier_chat.Session.Queue.{
  enqueue, has_id, is_same, same_id, make_room, queued_at, retry_delay,
}
use skypier_chat.Session.Queue.Invariant.{
  IsWellFormed, enqueue-IsWellFormed, send_envelope-IsWellFormed,
}
use skypier_chat.Session.Broadcast.{
  PeerStore, supports, skypier_peers, settle_sent, add_sent, send_to_each, broadcast_to,
  send_envelope_to_connected, message_envelope, send_chat_message_to_peer,
}

skypier_peers-IsWellFormed :
    (store : PeerStore) (peers : List String) (s : Session)
    → IsWellFormed s
    → IsWellFormed (skypier_peers store peers s).1
unfolding skypier_peers
skypier_peers-IsWellFormed store [] s h = h
skypier_peers-IsWellFormed store (peer ∷ peers) s h = elim (Bool-cases (is_self s peer)) [
  | inl self ↦ rw self (skypier_peers-IsWellFormed store peers s h)
  | inr other ↦ elim (Bool-cases (supports (store s.calls peer))) [
    | inl speaks ↦ rw (other, speaks) (skypier_peers-IsWellFormed store peers (called s) h)
    | inr silent ↦ rw (other, silent) (skypier_peers-IsWellFormed store peers (called s) h)
  ]
]

module _ (host : Host) where
  settle_sent-IsWellFormed :
      (peer : String) (e : WireEnvelope) (r : SendResult × Session)
      → IsWellFormed r.1
      → IsWellFormed (settle_sent host peer e r).1
  settle_sent-IsWellFormed peer e (sent_ok, s) h = h
  settle_sent-IsWellFormed peer e (limited, s) h =
      enqueue-IsWellFormed host peer e 0 true s (omega arith) h
  settle_sent-IsWellFormed peer e (unsupported, s) h = h
  settle_sent-IsWellFormed peer e (send_failed, s) h =
      enqueue-IsWellFormed host peer e 0 false s (omega arith) h

  add_sent-session : (b : Bool) (r : ℕ × Session) → (add_sent host b r).1 ≡ r.1
  add_sent-session true (n, s) = refl
  add_sent-session false (n, s) = refl

  send_to_each-IsWellFormed :
      (peers : List String) (e : WireEnvelope) (s : Session)
      → IsWellFormed s
      → IsWellFormed (send_to_each host peers e s).1
  unfolding send_to_each
  send_to_each-IsWellFormed [] e s h = h
  send_to_each-IsWellFormed (peer ∷ peers) e s h =
      let sent = settle_sent host peer e (send_envelope host peer e s) in
      subst IsWellFormed (sym (add_sent-session sent.0 (send_to_each host peers e sent.1))) (
        send_to_each-IsWellFormed peers e sent.1 (
          settle_sent-IsWellFormed peer e (send_envelope host peer e s)
            (send_envelope-IsWellFormed host peer e s h)))

  broadcast_to-IsWellFormed :
      (e : WireEnvelope) (r : List String × Session)
      → IsWellFormed r.1
      → IsWellFormed (broadcast_to host e r).1
  unfolding emit_state
  broadcast_to-IsWellFormed e ([], s) h = h
  broadcast_to-IsWellFormed e (peer ∷ peers, s) h = send_to_each-IsWellFormed (peer ∷ peers) e s h

  -- A broadcast keeps a well-formed queue well formed: within its size and retry limits, without
  -- an entry for the local peer, and without a message with an id twice for one peer.
  pub send_envelope_to_connected-IsWellFormed :
      (store : PeerStore) (e : WireEnvelope) (s : Session)
      → IsWellFormed s
      → IsWellFormed (send_envelope_to_connected host store e s).1
  unfolding send_envelope_to_connected
  send_envelope_to_connected-IsWellFormed store e s h = elim (Bool-cases s.has_node) [
    | inl up ↦ simp up (
        broadcast_to-IsWellFormed e (skypier_peers store _ s)
          (skypier_peers-IsWellFormed store _ s h))
    | inr down ↦ simp down h
  ]

same_id_refl : (o : Option String) → same_id o o ≡ true
same_id_refl none = refl
same_id_refl (some id) = eq_refl id

any-push :
    (p : QueuedEnvelope → Bool) (qs : List QueuedEnvelope) (q : QueuedEnvelope)
    → p q ≡ true
    → any p (qs ++ q ∷ []) ≡ true
any-push p qs q h = ground (arith, any-append p qs (q ∷ []))

module _ (host : Host) where
  -- The envelope waits for the peer.
  abbrev pub waits_for : String → WireEnvelope → Session → Bool
  waits_for peer e s = any (is_same peer e) s.queue

  is_same-queued_at :
      (s : Session) (peer : String) (e : WireEnvelope) (n delay : ℕ)
      → is_same peer e (queued_at host s peer e n delay) ≡ true
  is_same-queued_at s peer e n delay = ground (arith, eq_refl peer, same_id_refl e.message_id)

  enqueue-waits_for :
      (peer : String) (e : WireEnvelope) (n : ℕ) (l : Bool) (s : Session)
      → is_self s peer ≡ false
      → waits_for peer e (enqueue host peer e n l s) ≡ true
  unfolding enqueue emit_state persist_queue
  enqueue-waits_for peer e n l s other =
      elim (Bool-cases (has_id e && any (is_same peer e) s.queue)) [
        | inl known ↦ simp (other, known) (ground arith)
        | inr new ↦
            simp (other, new)
              (any-push (is_same peer e) (make_room s).queue _
                (is_same-queued_at s peer e n (retry_delay l n)))
      ]

  settle_sent-waits_for :
      (peer : String) (e : WireEnvelope) (r : SendResult × Session)
      → is_self r.1 peer ≡ false
      → (settle_sent host peer e r).0 ≡ false
      → r.0 ≢ unsupported
      → waits_for peer e (settle_sent host peer e r).1 ≡ true
  settle_sent-waits_for peer e (sent_ok, s) other f u = cc f
  settle_sent-waits_for peer e (unsupported, s) other f u = absurd (u refl)
  settle_sent-waits_for peer e (limited, s) other f u = enqueue-waits_for peer e 0 true s other
  settle_sent-waits_for peer e (send_failed, s) other f u = enqueue-waits_for peer e 0 false s other

  -- Where sending a chat message to another peer does not report success, the message waits in the
  -- queue for that peer afterwards, also where the queue was full, unless the send found that the
  -- peer does not speak the protocol.
  pub send_chat_message_to_peer-waits_for :
      (m : ChatMessage) (payload peer : String) (s : Session)
      → is_self s peer ≡ false
      → (send_chat_message_to_peer host m payload peer s).0 ≡ false
      → (send_envelope host peer (message_envelope host m payload s) s).0 ≢ unsupported
      → waits_for peer
          (message_envelope host m payload s)
          (send_chat_message_to_peer host m payload peer s).1
        ≡ true
  unfolding send_chat_message_to_peer
  send_chat_message_to_peer-waits_for m payload peer s other f u =
      let e = message_envelope host m payload s in
      settle_sent-waits_for peer e (send_envelope host peer e s)
        (ap (λ o. same_text o peer) (send_envelope-SameQueue host peer e s).peer ∙ other) f u
