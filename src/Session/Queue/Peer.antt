-- ===== src/Session/Queue/Peer.antt =====
-- The operations on the queue leave the local peer id alone.
use skypier_chat.Prelude.{
  String, ◌≡◌, refl, ◌∙◌, Bool, true, false, Option, none, some, List, [], ◌∷◌, arith, select, not,
}
use skypier_chat.Protocol.{WireEnvelope}
use skypier_chat.Session.{Host, Session, QueuedEnvelope, emit_state, persist_queue, emit_delivery}
use skypier_chat.Session.Send.{
  SendResult, sent_ok, unsupported, limited, send_failed, send_envelope,
}
use skypier_chat.Session.Send.Frame.{send_envelope-SameQueue}
use skypier_chat.Session.Queue.{
  enqueue, evict, retry_one, retry_all, retry_tick, flush_all, flush_queue, retry_message,
  settle_flushed, settle_retried, retry_found, is_due,
}

abbrev peer : Session → Option String
peer s = s.state.local_peer_id

module _ (host : Host) where
  pub enqueue-peer :
      (p : String) (e : WireEnvelope) (n : _) (l : Bool) (s : Session)
      → (enqueue host p e n l s).state.local_peer_id ≡ s.state.local_peer_id
  unfolding enqueue evict emit_state persist_queue emit_delivery
  enqueue-peer p e n l s = ground arith

  flush_all-peer :
      (qs : List QueuedEnvelope) (s : Session)
      → (flush_all host qs s).1.state.local_peer_id ≡ s.state.local_peer_id
  unfolding flush_all
  flush_all-peer [] s = refl
  flush_all-peer (q ∷ qs) s =
      let r = send_envelope host q.peer_id q.envelope s in
      ground (
        arith,
        flush_all-peer qs (settle_flushed host q r).1,
        send_envelope-SameQueue host q.peer_id q.envelope s,
      )

  retry_one-peer :
      (q : QueuedEnvelope) (s : Session)
      → (retry_one host q s).state.local_peer_id ≡ s.state.local_peer_id
  unfolding retry_one emit_delivery
  retry_one-peer q s = ground (arith, send_envelope-SameQueue host q.peer_id q.envelope s)

  retry_all-peer :
      (qs : List QueuedEnvelope) (s : Session)
      → (retry_all host qs s).state.local_peer_id ≡ s.state.local_peer_id
  unfolding retry_all
  retry_all-peer [] s = refl
  retry_all-peer (q ∷ qs) s = retry_all-peer qs (retry_one host q s) ∙ retry_one-peer q s

  pub flush_queue-peer :
      (s : Session) → (flush_queue host s).1.state.local_peer_id ≡ s.state.local_peer_id
  unfolding flush_queue emit_state persist_queue
  flush_queue-peer s = ground (arith, flush_all-peer s.queue (record s { queue = [] }))

  pub retry_tick-peer :
      (s : Session) → (retry_tick host s).state.local_peer_id ≡ s.state.local_peer_id
  unfolding retry_tick emit_state persist_queue
  retry_tick-peer s =
      let now = host.now s.calls in
      ground (
        arith,
        retry_all-peer (select (is_due now) s.queue)
            (record s { queue = select (λ x. not (is_due now x)) s.queue }),
      )

  settle_retried-peer :
      (q : QueuedEnvelope) (r : SendResult × Session)
      → (settle_retried host q r).1.state.local_peer_id ≡ r.1.state.local_peer_id
  settle_retried-peer q (sent_ok, s) = refl
  settle_retried-peer q (unsupported, s) = refl
  settle_retried-peer q (limited, s) = enqueue-peer q.peer_id q.envelope 0 true s
  settle_retried-peer q (send_failed, s) = enqueue-peer q.peer_id q.envelope 0 false s

  retry_found-peer :
      (o : Option (QueuedEnvelope × List QueuedEnvelope)) (s : Session)
      → (retry_found host o s).1.state.local_peer_id ≡ s.state.local_peer_id
  unfolding emit_state persist_queue
  retry_found-peer none s = refl
  retry_found-peer (some (q, rest)) s =
      let s' = record s { queue = rest } in
      settle_retried-peer q (send_envelope host q.peer_id q.envelope s')
      ∙ (send_envelope-SameQueue host q.peer_id q.envelope s').peer

  pub retry_message-peer :
      (id : String) (s : Session)
      → (retry_message host id s).1.state.local_peer_id ≡ s.state.local_peer_id
  unfolding retry_message
  retry_message-peer id s = retry_found-peer _ s
