-- ===== src/Session/Interleave/Races.antt =====
-- What the sequential invariants of the queue do not survive: a message that is queued while a
-- flush is under way.
use mathlib.Core.Path.{subst}
use skypier_chat.Prelude.{
  String, ◌≡◌, refl, Bool, true, false, [], ◌∷◌, ◌++◌, arith, map, length, ◌<◌, ap, Bool-cases,
  Option, none, some, is_some, truthy, inl, inr, eq_refl,
}
use skypier_chat.Protocol.{WireEnvelope}
use skypier_chat.Session.{Host, Session, QueuedEnvelope, is_self, emit_state, persist_queue}
use skypier_chat.Session.Send.{send_failed}
use skypier_chat.Session.Send.Frame.{SameQueue}
use skypier_chat.Session.Queue.{enqueue, has_id, same_id, queued_at, retry_delay}
use skypier_chat.Session.Queue.Distinct.{Distinct, clash}
use skypier_chat.Session.Interleave.{
  World, flushing, submitted, flush_begun, flush_sent, submit, Reach, here, next,
}
use skypier_chat.Session.Interleave.Balance.{initial_world}

SameQueue-refl : (s : Session) → SameQueue s s
SameQueue-refl s = record {
  queue = refl;
  persisted = refl;
  node = refl;
  peer = refl;
  status = refl;
}

module _ (host : Host) where
  -- The world after a flush has begun and a message was submitted.
  abbrev racing : String → WireEnvelope → Bool → Session → World
  racing peer e l s = submit host peer e l (record (initial_world s) {
    session = record s { queue = [] };
    tasks = flushing s.queue ∷ [];
  })

  racing-Reach :
      (peer : String) (e : WireEnvelope) (l : Bool) (s : Session)
      → s.has_node ≡ true
      → 0 < length s.queue
      → Reach host (initial_world s) (racing peer e l s)
  racing-Reach peer e l s up some_queued =
      next (next here (flush_begun up some_queued)) (submitted peer e l)

  enqueue_empty :
      (peer : String) (e : WireEnvelope) (l : Bool) (s : Session)
      → is_self s peer ≡ false
      → ((enqueue host peer e 0 l (record s { queue = [] })).queue
          ≡ queued_at host s peer e 0 (retry_delay l 0) ∷ [])
        × (map (λ x. x.envelope) (enqueue host peer e 0 l (record s { queue = [] })).persisted
            ≡ e ∷ [])
  unfolding enqueue emit_state persist_queue
  enqueue_empty peer e l s other = elim (Bool-cases (has_id e)) [
    | inl named ↦ rw (other, named) (refl, refl)
    | inr anonymous ↦ rw (other, anonymous) (refl, refl)
  ]

  same_id_refl : (o : Option String) → is_some (truthy o) ≡ true → same_id o o ≡ true
  same_id_refl none h = cc
  same_id_refl (some a) h = eq_refl a

  clash_self :
      (q q' : QueuedEnvelope)
      → q'.peer_id ≡ q.peer_id
      → q'.envelope ≡ q.envelope
      → has_id q.envelope ≡ true
      → clash q' q ≡ true
  clash_self q q' p e named =
      rw (p, e) (rw named (rw eq_refl (same_id_refl q.envelope.message_id named)))

  -- A flush is under way for the one message that is queued; the same message is queued anew, for
  -- instance since the user sends it again; then the flush's send fails and its entry is put back.
  -- The queue then holds the message twice, though `enqueue` is meant to rule that out: from every
  -- session with a node whose queue is one message with an id for another peer, the event loop can
  -- reach such a queue.
  pub flush_race_duplicates :
      (q : QueuedEnvelope) (s : Session)
      → s.has_node ≡ true
      → s.queue ≡ q ∷ []
      → has_id q.envelope ≡ true
      → is_self s q.peer_id ≡ false
      → (w : World) × Reach host (initial_world s) w × (¬ Distinct w.session.queue)
  flush_race_duplicates q s up one named other =
      let w = racing q.peer_id q.envelope false s in
      (
        record w {
          session = record w.session { queue = w.session.queue ++ q ∷ [] };
          tasks = flushing [] ∷ [];
        },
        next (racing-Reach q.peer_id q.envelope false s up (omega (arith, ap length one))) (
            flush_sent [] [] q [] send_failed w.session (ap (λ qs. flushing qs ∷ []) one)
              (SameQueue-refl w.session)),
        λ d.
            let d' : Distinct
                (queued_at host s q.peer_id q.envelope 0 (retry_delay false 0) ∷ q ∷ []) =
              subst (λ qs. Distinct (qs ++ q ∷ []))
                (enqueue_empty q.peer_id q.envelope false s other).0 d in
            cc (
              d'.0.0,
              clash_self q (queued_at host s q.peer_id q.envelope 0 (retry_delay false 0)) refl refl
                  named,
            ),
      )

  -- While a flush is under way `enqueue` stores the queue without the entries that the flush has
  -- still to send, and a reload at that point loses them: from every session with a node and a
  -- message in its queue, the event loop can reach a state in which a task has all the old queue
  -- still to send, and the stored copy of the queue has the new message alone.
  pub flush_race_unsaved :
      (peer : String) (e : WireEnvelope) (s : Session)
      → s.has_node ≡ true
      → 0 < length s.queue
      → is_self s peer ≡ false
      → (w : World) × Reach host (initial_world s) w
        × (w.tasks ≡ flushing s.queue ∷ [])
        × (map (λ x. x.envelope) w.session.persisted ≡ e ∷ [])
  flush_race_unsaved peer e s up some_queued other = (
    racing peer e false s,
    racing-Reach peer e false s up some_queued,
    refl,
    (enqueue_empty peer e false s other).1,
  )
