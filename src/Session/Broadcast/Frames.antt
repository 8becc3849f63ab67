-- ===== src/Session/Broadcast/Frames.antt =====
-- The count that a broadcast returns, beside the frames that it writes.
use mathlib.Core.Path.{subst}
use skypier_chat.Prelude.{
  ℕ, ◌+◌, String, ◌≡◌, refl, sym, ◌⊎◌, Bool, true, false, ◌&&◌, Option, none, some, List, [], ◌∷◌,
  arith, length, length-append, Bool-cases, inl, inr, ap, ◌∙◌, All, same_text, truthy, leb,
  remove_first, any, map, if◌then◌else◌,
}
use skypier_chat.Protocol.{WireEnvelope}
use skypier_chat.Session.{
  Host, Session, Event, QueuedEnvelope, emit_state, emit_delivery, persist_queue, called, is_self,
  tell, failed, DeliveryStatus, delivery_status, envelope_payload,
}
use skypier_chat.Session.Send.{
  SendResult, sent_ok, unsupported, limited, send_failed, send_envelope, message_protocol,
}
use skypier_chat.Session.Send.Frame.{send_envelope-SameQueue}
use skypier_chat.Session.Send.Frames.{
  Frame, frames, frames-emit, emit_state-frames, added, is_sent, AsReported, Unclosed,
  send_envelope-frames,
}
use skypier_chat.Session.Queue.{
  enqueue, evict, evict_choice, make_room, is_message, max_queue_size, has_id, is_same,
  save_and_emit,
}
use skypier_chat.Session.Queue.Peer.{enqueue-peer}
use skypier_chat.Session.Broadcast.{
  PeerStore, supports, skypier_peers, settle_sent, add_sent, send_to_each, broadcast_to,
  send_envelope_to_connected,
}

abbrev pub frame_count : Session → ℕ
frame_count s = length (frames s.events)

tell-frames :
    (o : Option String) (d : DeliveryStatus) (s : Session)
    → frames (tell o d s).events ≡ frames s.events
tell-frames none d s = refl
tell-frames (some id) d s = frames-emit s.events (delivery_status id d) refl

evict_choice-frames :
    (o : Option (QueuedEnvelope × List QueuedEnvelope)) (s : Session)
    → frames (evict_choice o s).events ≡ frames s.events
unfolding emit_delivery
evict_choice-frames none s = refl
evict_choice-frames (some (q, rest)) s =
    tell-frames (truthy q.envelope.message_id) failed (record s { queue = rest })

make_room-frames : (s : Session) → frames (make_room s).events ≡ frames s.events
unfolding evict
make_room-frames s = elim (Bool-cases (leb max_queue_size (length s.queue))) [
  | inl full ↦ simp full (evict_choice-frames (remove_first is_message s.queue) s)
  | inr free ↦ simp free
]

module _ (host : Host) where
  save_and_emit-frames : (s : Session) → frames (save_and_emit host s).events ≡ frames s.events
  unfolding emit_state persist_queue
  save_and_emit-frames s = frames-emit s.events _ refl

  enqueue-frames :
      (peer : String) (e : WireEnvelope) (n : ℕ) (l : Bool) (s : Session)
      → frames (enqueue host peer e n l s).events ≡ frames s.events
  unfolding enqueue
  enqueue-frames peer e n l s = elim (Bool-cases (is_self s peer)) [
    | inl self ↦ simp self
    | inr other ↦ elim (Bool-cases (has_id e && any (is_same peer e) s.queue)) [
      | inl known ↦ simp (other, known)
      | inr new ↦ simp (other, new) (save_and_emit-frames _ ∙ make_room-frames s)
    ]
  ]

  settle_sent-frames :
      (peer : String) (e : WireEnvelope) (r : SendResult × Session)
      → ((settle_sent host peer e r).0 ≡ is_sent r.0)
        × (frames (settle_sent host peer e r).1.events ≡ frames r.1.events)
        × ((settle_sent host peer e r).1.state.local_peer_id ≡ r.1.state.local_peer_id)
  settle_sent-frames peer e (sent_ok, s) = (refl, refl, refl)
  settle_sent-frames peer e (unsupported, s) = (refl, refl, refl)
  settle_sent-frames peer e (limited, s) =
      (refl, enqueue-frames peer e 0 true s, enqueue-peer host peer e 0 true s)
  settle_sent-frames peer e (send_failed, s) =
      (refl, enqueue-frames peer e 0 false s, enqueue-peer host peer e 0 false s)

  abbrev bit : Bool → ℕ
  bit true = 1
  bit false = 0

  length-added : (b : Bool) (f : Frame) → length (added b f) ≡ bit b
  length-added true f = refl
  length-added false f = refl

  add_sent-count :
      (b : Bool) (r : ℕ × Session)
      → ((add_sent host b r).0 ≡ bit b + r.0) × ((add_sent host b r).1 ≡ r.1)
  add_sent-count true (n, s) = (omega arith, refl)
  add_sent-count false (n, s) = (omega arith, refl)

  -- One send to another peer.
  abbrev attempt : String → WireEnvelope → Session → Bool × Session
  attempt peer e s = settle_sent host peer e (send_envelope host peer e s)

  -- As many frames are added as `n` counts, or more where a stream failed to close after one.
  abbrev pub Counts : ℕ → ℕ → ℕ → Type 0
  Counts n before after =
      (more : ℕ) × ((after ≡ more + (n + before)) × ((more ≡ 0) ⊎ Unclosed host message_protocol))

  Counts-trans : (m n a b c : ℕ) → Counts m a b → Counts n b c → Counts (m + n) a c
  Counts-trans m n a b c (k, (e, inl none_k)) (l, (f, inl none_l)) =
      (0, (omega (arith, e, f, none_k, none_l), inl refl))
  Counts-trans m n a b c (k, (e, inr u)) (l, (f, d)) = (k + l, (omega (arith, e, f), inr u))
  Counts-trans m n a b c (k, (e, d)) (l, (f, inr u)) = (k + l, (omega (arith, e, f), inr u))

  added-Counts :
      (before : ℕ) (f : Frame) (sent w : Bool)
      → AsReported host message_protocol false sent w
      → Counts (bit sent) before (before + length (added w f))
  added-Counts before f true w (inl e) = (0, (rw e (omega arith), inl refl))
  added-Counts before f false w (inl e) = (0, (rw e (omega arith), inl refl))
  added-Counts before f sent w (inr (other, silent, e, u)) =
      (1, (rw (e, silent) (omega arith), inr u))

  attempt-frames :
      (peer : String) (e : WireEnvelope) (s : Session)
      → is_self s peer ≡ false
      → Counts (bit (attempt peer e s).0) (frame_count s) (frame_count (attempt peer e s).1)
        × ((attempt peer e s).1.state.local_peer_id ≡ s.state.local_peer_id)
  attempt-frames peer e s other =
      let r = send_envelope host peer e s in
      let k = settle_sent-frames peer e r in
      let f : Frame = record {
        peer = peer;
        protocol = message_protocol;
        payload = envelope_payload e;
      } in
      let (w, (one, reported)) = send_envelope-frames host peer e s in
      let total : frame_count (attempt peer e s).1 ≡ frame_count s + length (added w f) =
        (ap length (k.1 ∙ one) ∙ length-append (frames s.events) (added w f)) in
      (
        rw (total, k.0)
            (added-Counts (frame_count s) f (is_sent r.0) w
              (subst (λ b. AsReported host message_protocol b (is_sent r.0) w) other reported)),
        k.2 ∙ (send_envelope-SameQueue host peer e s).peer,
      )

  send_to_each-count :
      (me : Option String) (peers : List String) (e : WireEnvelope) (s : Session)
      → s.state.local_peer_id ≡ me
      → All (λ p. same_text me p ≡ false) peers
      → Counts
          (send_to_each host peers e s).0
          (frame_count s)
          (frame_count (send_to_each host peers e s).1)
  unfolding send_to_each
  send_to_each-count me [] e s h others = (0, (omega arith, inl refl))
  send_to_each-count me (peer ∷ peers) e s h others =
      let one = attempt-frames peer e s (ap (λ o. same_text o peer) h ∙ others.0) in
      let t = (attempt peer e s).1 in
      let rest = send_to_each-count me peers e t (one.1 ∙ h) others.1 in
      let sum = add_sent-count (attempt peer e s).0 (send_to_each host peers e t) in
      rw (sum.0, sum.1)
        (Counts-trans (bit (attempt peer e s).0) (send_to_each host peers e t).0 (frame_count s)
          (frame_count t) _ one.0 rest)

-- Peers that are not `me`, with a session whose peer is `me` and which has told nothing more.
abbrev Others : Option String → List Event → List String × Session → Type 0
Others me es r =
    All (λ p. same_text me p ≡ false) r.0 × (r.1.state.local_peer_id ≡ me) × (r.1.events ≡ es)

choose-Others :
    (self speaks : Bool) (me : Option String) (es : List Event) (peer : String)
    (skipped asked : List String × Session)
    → same_text me peer ≡ self
    → Others me es skipped
    → Others me es asked
    → Others me es (if self then skipped else if speaks then (peer ∷ asked.0, asked.1) else asked)
choose-Others true speaks me es peer skipped asked h x y = x
choose-Others false true me es peer skipped asked h x y = ((h, y.0), y.1, y.2)
choose-Others false false me es peer skipped asked h x y = y

skypier_peers-Others :
    (store : PeerStore) (peers : List String) (s : Session)
    → Others s.state.local_peer_id s.events (skypier_peers store peers s)
unfolding skypier_peers
skypier_peers-Others store [] s = (tt, refl, refl)
skypier_peers-Others store (peer ∷ peers) s =
    choose-Others (is_self s peer) (supports (store s.calls peer)) s.state.local_peer_id s.events
      peer (skypier_peers store peers s) (skypier_peers store peers (called s)) refl
      (skypier_peers-Others store peers s) (skypier_peers-Others store peers (called s))

module _ (host : Host) where
  broadcast_to-count :
      (me : Option String) (e : WireEnvelope) (r : List String × Session)
      → r.1.state.local_peer_id ≡ me
      → All (λ p. same_text me p ≡ false) r.0
      → Counts host
          (broadcast_to host e r).0
          (frame_count r.1)
          (frame_count (broadcast_to host e r).1)
  broadcast_to-count me e ([], s) h others = (0, (omega arith, inl refl))
  broadcast_to-count me e (peer ∷ peers, s) h others =
      subst (λ fs. Counts host (send_to_each host (peer ∷ peers) e s).0 (frame_count s) (length fs))
        (sym (emit_state-frames host (send_to_each host (peer ∷ peers) e s).1))
        (send_to_each-count host me (peer ∷ peers) e s h others)

  -- A broadcast returns how many frames it has written, whatever the network answers; only where a
  -- stream failed to close after its frame was written there may be more frames than that.
  pub send_envelope_to_connected-count :
      (store : PeerStore) (e : WireEnvelope) (s : Session)
      → Counts host
          (send_envelope_to_connected host store e s).0
          (frame_count s)
          (frame_count (send_envelope_to_connected host store e s).1)
  unfolding send_envelope_to_connected
  send_envelope_to_connected-count store e s = elim (Bool-cases s.has_node) [
    | inl up ↦
        let asked = skypier_peers store (map (λ c. c.remote_peer) (host.connections s.calls)) s in
        let k =
          skypier_peers-Others store (map (λ c. c.remote_peer) (host.connections s.calls)) s in
        simp up (
          subst
            (λ es.
              Counts host (broadcast_to host e asked).0 (length (frames es))
                (frame_count (broadcast_to host e asked).1))
            k.2 (broadcast_to-count s.state.local_peer_id e asked k.1 k.0))
    | inr down ↦ simp down (0, (omega arith, inl refl))
  ]
