-- ===== src/Session/Queue/Invariant.antt =====
-- What the queue keeps through every operation on it.
use mathlib.Core.Path.{subst, subst₂}
use skypier_chat.Prelude.{
  ℕ, ◌+◌, ◌≤◌, String, ◌≡◌, refl, sym, Bool, true, false, not, Option, none, some, List, [], ◌∷◌,
  arith, length, select, remove_first, Bool-cases, inl, inr, same_text, All, length-append,
  All-append, All-select,
}
use skypier_chat.Protocol.{WireEnvelope}
use skypier_chat.Session.{Host, Session, QueuedEnvelope, emit_state, persist_queue}
use skypier_chat.Session.Send.{
  SendResult, sent_ok, unsupported, limited, send_failed, send_envelope,
}
use skypier_chat.Session.Send.Frame.{send_envelope-SameQueue}
use skypier_chat.Session.Queue.{
  enqueue, retry_tick, flush_queue, retry_message, max_queue_size, max_retries, is_due,
  settle_retried, retry_found,
}
use skypier_chat.Session.Queue.Thinned.{
  Thinned, SameCount, All-Thinned, Thinned-AnyCount, Thinned-prefix, length-Thinned,
}
use skypier_chat.Session.Queue.Distinct.{
  Distinct, clash, clash-rw, Distinct-Thinned, Distinct-push, Distinct-select,
}
use skypier_chat.Session.Queue.Passes.{
  Ticked, Enqueued, enqueue-Enqueued, flush_queue-Thinned, retry_tick-Ticked, retry_tick_idle,
  remove_first-Thinned,
}
use skypier_chat.Session.Queue.Peer.{enqueue-peer, flush_queue-peer, retry_tick-peer}

-- The queue `qs` of a session whose peer is `me`: it respects the size limit, no entry is past the
-- last retry, none is for the peer itself, and no message waits twice for one peer.
pub record IsSound (me : Option String) (qs : List QueuedEnvelope) : Type 0 where
  pub bounded : length qs ≤ max_queue_size
  pub counted : All (λ q. q.retry_count ≤ max_retries) qs
  pub foreign : All (λ q. same_text me q.peer_id ≡ false) qs
  pub distinct : Distinct qs

abbrev pub IsWellFormed : Session → Type 0
IsWellFormed s = IsSound s.state.local_peer_id s.queue

IsSound-Thinned :
    {me : Option String} {xs ys : List QueuedEnvelope}
    → Thinned SameCount xs ys
    → IsSound me xs
    → IsSound me ys
IsSound-Thinned t h = record {
  bounded = omega (arith, length-Thinned t, h.bounded);
  counted = All-Thinned _ (λ x y p e r k. omega arith) t h.counted;
  foreign = All-Thinned _ (λ x y p e r k. rw p k) t h.foreign;
  distinct = Distinct-Thinned t h.distinct;
}

length-select_both :
    (p : QueuedEnvelope → Bool) (xs : List QueuedEnvelope)
    → length (select (λ x. not (p x)) xs) + length (select p xs) ≡ length xs
length-select_both p [] = omega arith
length-select_both p (x ∷ xs) = ground (arith, length-select_both p xs)

module _ (host : Host) where
  -- Flushing keeps the queue well formed.
  pub flush_queue-IsWellFormed :
      (s : Session) → IsWellFormed s → IsWellFormed (flush_queue host s).1
  flush_queue-IsWellFormed s h =
      rw (flush_queue-peer host s) (IsSound-Thinned (flush_queue-Thinned host s) h)

  Enqueued-IsSound :
      (p : String) (e : WireEnvelope) (n : ℕ) (s t : Session)
      → n ≤ max_retries
      → IsWellFormed s
      → Enqueued host p e n s t
      → IsSound s.state.local_peer_id t.queue
  Enqueued-IsSound p e n s t le h q = rw q.queue (record {
    bounded = omega (arith, length-append q.kept (q.entry ∷ []), q.room h.bounded);
    counted =
        All-append _ q.kept (q.entry ∷ []) (IsSound-Thinned q.thinned h).counted
          (omega (arith, q.retry_count), tt);
    foreign =
        All-append _ q.kept (q.entry ∷ []) (IsSound-Thinned q.thinned h).foreign
          (rw q.peer_id q.foreign, tt);
    distinct =
        Distinct-push q.entry q.kept
          (All-Thinned (λ r. clash q.entry r ≡ false)
            (λ x y p' e' r k. clash-rw q.entry q.entry x y refl refl p' e' k) q.thinned q.fresh)
          (IsSound-Thinned q.thinned h).distinct;
  })

  -- Adding an entry, with a retry count in range, keeps the queue well formed.
  pub enqueue-IsWellFormed :
      (p : String) (e : WireEnvelope) (n : ℕ) (l : Bool) (s : Session)
      → n ≤ max_retries
      → IsWellFormed s
      → IsWellFormed (enqueue host p e n l s)
  enqueue-IsWellFormed p e n l s le h = elim (enqueue-Enqueued host p e n l s) [
    | inl same ↦ subst IsWellFormed (sym same) h
    | inr added ↦ rw (enqueue-peer host p e n l s) (Enqueued-IsSound p e n s _ le h added)
  ]

  Ticked-IsSound :
      {me : Option String} (now : ℕ) (qs zs : List QueuedEnvelope)
      → IsSound me qs
      → Ticked host now qs zs
      → IsSound me zs
  Ticked-IsSound now qs zs h (new, e, t) =
      let rest = select (λ x. not (is_due now x)) qs in
      let due = select (is_due now) qs in
      rw e (record {
        bounded = omega (
          arith,
          length-append rest new,
          length-Thinned t,
          length-select_both (is_due now) qs,
          h.bounded,
        );
        counted = All-append _ rest new (All-select _ _ qs h.counted) (
            All-Thinned (λ q. q.retry_count ≤ max_retries) (λ x y p e' r k. omega arith) t
              (All-select _ (is_due now) qs h.counted));
        foreign =
            All-append _ rest new (All-select _ _ qs h.foreign)
              (All-Thinned _ (λ x y p e' r k. rw p k) t (All-select _ (is_due now) qs h.foreign));
        distinct =
            Distinct-Thinned (Thinned-prefix rest (Thinned-AnyCount t))
              (Distinct-select (is_due now) qs h.distinct);
      })

  -- A tick of the retry loop keeps the queue well formed.
  pub retry_tick-IsWellFormed : (s : Session) → IsWellFormed s → IsWellFormed (retry_tick host s)
  retry_tick-IsWellFormed s h = elim (Bool-cases s.has_node) [
    | inl up ↦
        rw (retry_tick-peer host s)
          (Ticked-IsSound (host.now s.calls) s.queue _ h (retry_tick-Ticked host s up))
    | inr down ↦ subst IsWellFormed (sym (retry_tick_idle host s down)) h
  ]

  settle_retried-IsWellFormed :
      (q : QueuedEnvelope) (r : SendResult × Session)
      → IsWellFormed r.1
      → IsWellFormed (settle_retried host q r).1
  settle_retried-IsWellFormed q (sent_ok, s) h = h
  settle_retried-IsWellFormed q (unsupported, s) h = h
  settle_retried-IsWellFormed q (limited, s) h =
      enqueue-IsWellFormed q.peer_id q.envelope 0 true s (omega arith) h
  settle_retried-IsWellFormed q (send_failed, s) h =
      enqueue-IsWellFormed q.peer_id q.envelope 0 false s (omega arith) h

  pub send_envelope-IsWellFormed :
      (p : String) (e : WireEnvelope) (s : Session)
      → IsWellFormed s
      → IsWellFormed (send_envelope host p e s).1
  send_envelope-IsWellFormed p e s h =
      let k = send_envelope-SameQueue host p e s in subst₂ IsSound (sym k.peer) (sym k.queue) h

  retry_found-IsWellFormed :
      (o : Option (QueuedEnvelope × List QueuedEnvelope)) (s : Session) (p : QueuedEnvelope → Bool)
      → remove_first p s.queue ≡ o
      → IsWellFormed s
      → IsWellFormed (retry_found host o s).1
  unfolding emit_state persist_queue
  retry_found-IsWellFormed none s p e h = h
  retry_found-IsWellFormed (some (q, rest)) s p e h = settle_retried-IsWellFormed q _ (
      send_envelope-IsWellFormed q.peer_id q.envelope (record s { queue = rest })
        (IsSound-Thinned (remove_first-Thinned p s.queue q rest e) h))

  -- A retry by hand keeps the queue well formed.
  pub retry_message-IsWellFormed :
      (id : String) (s : Session) → IsWellFormed s → IsWellFormed (retry_message host id s).1
  unfolding retry_message
  retry_message-IsWellFormed id s h = retry_found-IsWellFormed _ s _ refl h
