-- ===== src/Session/Queue/Saved.antt =====
-- The copy of the queue in the local storage is the queue, after every operation.
use skypier_chat.Prelude.{
  ℕ, String, ◌≡◌, refl, Bool, Option, none, some, List, [], ◌∷◌, map, Bool-cases, inl, inr, any,
  ◌&&◌,
}
use skypier_chat.Protocol.{WireEnvelope}
use skypier_chat.Session.{
  Host, Session, QueuedEnvelope, PersistedQueueEntry, persist_entry, restore_entry, persist_queue,
  emit_state, create_session, is_self,
}
use skypier_chat.Session.Queue.{
  has_id, is_same, enqueue, retry_tick, flush_queue, flush_pending, run_due, retry_message,
  retry_found, save_and_emit,
}

-- What a reload would restore is the queue.
abbrev pub IsSaved : Session → Type 0
IsSaved s = map restore_entry s.persisted ≡ s.queue

map-restore-persist : (qs : List QueuedEnvelope) → map restore_entry (map persist_entry qs) ≡ qs
unfolding restore_entry
map-restore-persist [] = refl
map-restore-persist (q ∷ qs) = rw (map-restore-persist qs)

module _ (host : Host) where
  save_and_emit-IsSaved : (s : Session) → IsSaved (save_and_emit host s)
  unfolding emit_state persist_queue
  save_and_emit-IsSaved s = map-restore-persist s.queue

  pub enqueue-IsSaved :
      (p : String) (e : WireEnvelope) (n : ℕ) (l : Bool) (s : Session)
      → IsSaved s
      → IsSaved (enqueue host p e n l s)
  unfolding enqueue
  enqueue-IsSaved p e n l s h = elim (Bool-cases (is_self s p)) [
    | inl self ↦ simp self h
    | inr other ↦ elim (Bool-cases (has_id e && any (is_same p e) s.queue)) [
      | inl known ↦ simp (other, known) h
      | inr new ↦ simp (other, new) (save_and_emit-IsSaved _)
    ]
  ]

  flush_pending-IsSaved :
      (qs : List QueuedEnvelope) (s : Session) → IsSaved s → IsSaved (flush_pending host qs s).1
  flush_pending-IsSaved [] s h = unfold emit_state in h
  flush_pending-IsSaved (q ∷ qs) s h = save_and_emit-IsSaved _

  pub flush_queue-IsSaved : (s : Session) → IsSaved s → IsSaved (flush_queue host s).1
  unfolding flush_queue
  flush_queue-IsSaved s h = elim (Bool-cases s.has_node) [
    | inl up ↦ simp up (flush_pending-IsSaved s.queue s h)
    | inr down ↦ simp down (unfold emit_state in h)
  ]

  run_due-IsSaved :
      (due : List QueuedEnvelope) (now : ℕ) (s : Session)
      → IsSaved s
      → IsSaved (run_due host due now s)
  run_due-IsSaved [] now s h = h
  run_due-IsSaved (q ∷ due) now s h = save_and_emit-IsSaved _

  pub retry_tick-IsSaved : (s : Session) → IsSaved s → IsSaved (retry_tick host s)
  unfolding retry_tick
  retry_tick-IsSaved s h = elim (Bool-cases s.has_node) [
    | inl up ↦ simp up (run_due-IsSaved _ (host.now s.calls) s h)
    | inr down ↦ simp down h
  ]

  retry_found-IsSaved :
      (o : Option (QueuedEnvelope × List QueuedEnvelope)) (s : Session)
      → IsSaved s
      → IsSaved (retry_found host o s).1
  retry_found-IsSaved none s h = h
  retry_found-IsSaved (some (q, rest)) s h = save_and_emit-IsSaved _

  pub retry_message-IsSaved :
      (id : String) (s : Session) → IsSaved s → IsSaved (retry_message host id s).1
  unfolding retry_message
  retry_message-IsSaved id s h = retry_found-IsSaved _ s h

pub create_session-IsSaved :
    (relays : List String) (stored : List PersistedQueueEntry)
    → IsSaved (create_session relays stored)
unfolding create_session
create_session-IsSaved relays stored = refl
