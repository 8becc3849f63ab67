-- ===== src/Session/Interleave/Balance.antt =====
-- The account of the queue's entries, kept by every step of the event loop.
use mathlib.Core.Path.{subst}
use skypier_chat.Prelude.{
  ℕ, ◌+◌, String, ◌≡◌, refl, ap, ◌∙◌, Bool, true, false, not, ◌&&◌, Option, none, some, List, [],
  ◌∷◌, ◌++◌, arith, select, any, map, same_text, remove_first, with_head, leb, length,
  if◌then◌else◌, Bool-cases, inl, inr,
}
use skypier_chat.Protocol.{WireEnvelope}
use skypier_chat.Session.{Host, Session, QueuedEnvelope, is_self, failed, emit_state, persist_queue}
use skypier_chat.Session.Send.{SendResult, sent_ok, unsupported, limited, send_failed}
use skypier_chat.Session.Send.Frame.{emit_delivery-SameQueue}
use skypier_chat.Session.Queue.{
  enqueue, evict, evict_choice, drop_oldest, make_room, settle_flushed, settle_due, is_due, is_same,
  has_id, is_message, max_queue_size,
}
use skypier_chat.Session.Interleave.{
  Task, flushing, ticking, retrying, Fate, World, entry_dest, is_accepted, first_out, crowded_out,
  as_gone, fate_of, submit, requeue, finish_retried, save_world, evicted, Step, submitted,
  flush_begun, flush_sent, flush_ended, tick_begun, tick_gave_up, tick_sent, tick_ended,
  retry_begun, retry_sent, elsewhere, Reach, here, next,
}

abbrev pub Dest : Type 0
Dest = String × WireEnvelope

module _ (p : Dest → Bool) where
  abbrev one : Dest → ℕ
  one d = if p d then 1 else 0

  abbrev pub count : List Dest → ℕ
  count [] = 0
  count (d ∷ ds) = one d + count ds

  abbrev pub tally : List QueuedEnvelope → ℕ
  tally [] = 0
  tally (q ∷ qs) = one (entry_dest q) + tally qs

  abbrev pub held : Task → ℕ
  held (flushing qs) = tally qs
  held (ticking qs) = tally qs
  held (retrying q) = one (entry_dest q)

  abbrev pub tally_tasks : List Task → ℕ
  tally_tasks [] = 0
  tally_tasks (t ∷ ts) = held t + tally_tasks ts

  abbrev pub count_gone : List (Dest × Fate) → ℕ
  count_gone [] = 0
  count_gone ((d, f) ∷ ds) = one d + count_gone ds

  tally-append : (xs ys : List QueuedEnvelope) → tally (xs ++ ys) ≡ tally xs + tally ys
  tally-append [] ys = omega arith
  tally-append (x ∷ xs) ys = omega (arith, tally-append xs ys)

  tally_tasks-append :
      (xs ys : List Task) → tally_tasks (xs ++ ys) ≡ tally_tasks xs + tally_tasks ys
  tally_tasks-append [] ys = omega arith
  tally_tasks-append (x ∷ xs) ys = omega (arith, tally_tasks-append xs ys)

  count_gone-append :
      (xs ys : List (Dest × Fate)) → count_gone (xs ++ ys) ≡ count_gone xs + count_gone ys
  count_gone-append [] ys = omega arith
  count_gone-append ((d, f) ∷ xs) ys = omega (arith, count_gone-append xs ys)

  count_gone-as_gone : (f : Fate) (qs : List QueuedEnvelope) → count_gone (as_gone f qs) ≡ tally qs
  count_gone-as_gone f [] = refl
  count_gone-as_gone f (q ∷ qs) = omega (arith, count_gone-as_gone f qs)

  tally-select :
      (f : QueuedEnvelope → Bool) (xs : List QueuedEnvelope)
      → tally (select (λ x. not (f x)) xs) + tally (select f xs) ≡ tally xs
  tally-select f [] = omega arith
  tally-select f (x ∷ xs) = elim (Bool-cases (f x)) [
    | inl e ↦ rw e (omega (arith, tally-select f xs))
    | inr e ↦ rw e (omega (arith, tally-select f xs))
  ]

  abbrev TallyRemoved : Option (QueuedEnvelope × List QueuedEnvelope) → List QueuedEnvelope → Type 0
  TallyRemoved none xs = Unit
  TallyRemoved (some (q, rest)) xs = tally xs ≡ one (entry_dest q) + tally rest

  TallyRemoved-with_head :
      (x : QueuedEnvelope) (xs : List QueuedEnvelope)
      (o : Option (QueuedEnvelope × List QueuedEnvelope))
      → TallyRemoved o xs
      → TallyRemoved (with_head x o) (x ∷ xs)
  TallyRemoved-with_head x xs none h = tt
  TallyRemoved-with_head x xs (some (q, rest)) h = omega arith

  tally-remove_first :
      (f : QueuedEnvelope → Bool) (xs : List QueuedEnvelope) → TallyRemoved (remove_first f xs) xs
  tally-remove_first f [] = tt
  tally-remove_first f (x ∷ xs) = elim (Bool-cases (f x)) [
    | inl e ↦ rw e refl
    | inr e ↦ rw e (TallyRemoved-with_head x xs (remove_first f xs) (tally-remove_first f xs))
  ]

  tally-drop_oldest :
      (xs : List QueuedEnvelope) → tally (drop_oldest xs) + tally (first_out none xs) ≡ tally xs
  tally-drop_oldest [] = omega arith
  tally-drop_oldest (x ∷ xs) = omega arith

  tally-evict_choice :
      (o : Option (QueuedEnvelope × List QueuedEnvelope)) (s : Session)
      → TallyRemoved o s.queue
      → tally (evict_choice o s).queue + tally (first_out o s.queue) ≡ tally s.queue
  tally-evict_choice none s h = tally-drop_oldest s.queue
  tally-evict_choice (some (q, rest)) s h = omega (
    arith,
    h,
    ap tally (emit_delivery-SameQueue q.envelope failed (record s { queue = rest })).queue,
  )

  tally-make_room :
      (s : Session) → tally (make_room s).queue + tally (crowded_out s) ≡ tally s.queue
  unfolding evict
  tally-make_room s = elim (Bool-cases (leb max_queue_size (length s.queue))) [
    | inl full ↦ rw full (tally-evict_choice _ s (tally-remove_first is_message s.queue))
    | inr room ↦ rw room (omega arith)
  ]

  tally-settle_flushed :
      (host : Host) (q : QueuedEnvelope) (r : SendResult) (s : Session)
      → tally (settle_flushed host q (r, s)).1.queue + count_gone (fate_of q r)
        ≡ tally s.queue + one (entry_dest q)
  tally-settle_flushed host q sent_ok s = omega arith
  tally-settle_flushed host q unsupported s = omega arith
  tally-settle_flushed host q limited s =
      omega
        (arith, tally-append s.queue (record q { next_retry_at = host.now s.calls + 15000 } ∷ []))
  tally-settle_flushed host q send_failed s = omega (arith, tally-append s.queue (q ∷ []))

  tally-settle_due :
      (host : Host) (q : QueuedEnvelope) (r : SendResult) (s : Session)
      → tally (settle_due host q (r, s)).queue + count_gone (fate_of q r)
        ≡ tally s.queue + one (entry_dest q)
  tally-settle_due host q sent_ok s = omega arith
  tally-settle_due host q unsupported s = omega arith
  tally-settle_due host q limited s = omega (arith, tally-append)
  tally-settle_due host q send_failed s = omega (arith, tally-append)

  abbrev accepted : Bool → ℕ → ℕ
  accepted b n = if b then n else 0

  tally-enqueue :
      (host : Host) (peer : String) (e : WireEnvelope) (l : Bool) (s : Session)
      → tally (enqueue host peer e 0 l s).queue
          + accepted (is_accepted peer e s) (tally (crowded_out s))
        ≡ tally s.queue + accepted (is_accepted peer e s) (one (peer, e))
  unfolding enqueue emit_state persist_queue
  tally-enqueue host peer e l s = elim (Bool-cases (is_self s peer)) [
    | inl self ↦ rw self refl
    | inr other ↦ elim (Bool-cases (has_id e && any (is_same peer e) s.queue)) [
      | inl known ↦ rw (other, known) refl
      | inr new ↦ rw (other, new) (omega (arith, tally-make_room s, tally-append))
    ]
  ]

  -- Every entry that the queue took in waits in the queue or in a task, or is accounted for.
  abbrev pub IsBalanced : World → Type 0
  IsBalanced w = tally w.session.queue + tally_tasks w.tasks + count_gone w.gone ≡ count w.taken

  submit-IsBalanced :
      (host : Host) (peer : String) (e : WireEnvelope) (l : Bool) (w : World)
      → IsBalanced w
      → IsBalanced (submit host peer e l w)
  submit-IsBalanced host peer e l w h = elim (Bool-cases (is_accepted peer e w.session)) [
    | inl taken ↦ rw taken (
        omega (
          arith,
          rw taken at (tally-enqueue host peer e l w.session),
          count_gone-append (as_gone evicted (crowded_out w.session)) w.gone,
          count_gone-as_gone evicted (crowded_out w.session),
        ))
    | inr skipped ↦
        rw skipped (omega (arith, rw skipped at (tally-enqueue host peer e l w.session)))
  ]

  -- A retried entry is out of every list until it is put back.
  requeue-tally :
      (host : Host) (q : QueuedEnvelope) (l : Bool) (w : World)
      → tally w.session.queue + tally_tasks w.tasks + count_gone w.gone + one (entry_dest q)
        ≡ count w.taken
      → IsBalanced (requeue host q l w)
  requeue-tally host q l w h = elim (Bool-cases (is_accepted q.peer_id q.envelope w.session)) [
    | inl taken ↦ rw taken (
        omega (
          arith,
          rw taken at (tally-enqueue host q.peer_id q.envelope l w.session),
          count_gone-append (as_gone evicted (crowded_out w.session)) w.gone,
          count_gone-as_gone evicted (crowded_out w.session),
        ))
    | inr skipped ↦
        rw skipped
          (omega (arith, rw skipped at (tally-enqueue host q.peer_id q.envelope l w.session)))
  ]

  finish_retried-tally :
      (host : Host) (q : QueuedEnvelope) (r : SendResult) (w : World)
      → tally w.session.queue + tally_tasks w.tasks + count_gone w.gone + one (entry_dest q)
        ≡ count w.taken
      → IsBalanced (finish_retried host q r w)
  finish_retried-tally host q sent_ok w h = omega arith
  finish_retried-tally host q unsupported w h = omega arith
  finish_retried-tally host q limited w h = requeue-tally host q true w h
  finish_retried-tally host q send_failed w h = requeue-tally host q false w h

  save_world-IsBalanced : (host : Host) (w : World) → IsBalanced w → IsBalanced (save_world host w)
  unfolding emit_state persist_queue
  save_world-IsBalanced host w h = h

  -- The task list with one task replaced by another, or taken out.
  tasks_with :
      (ts before after : List Task) (t : Task)
      → ts ≡ before ++ t ∷ after
      → tally_tasks ts ≡ tally_tasks before + (held t + tally_tasks after)
  tasks_with ts before after t e = ap tally_tasks e ∙ tally_tasks-append before (t ∷ after)

  Step-IsBalanced : (host : Host) {w v : World} → Step host w v → IsBalanced w → IsBalanced v
  Step-IsBalanced host {w} (submitted peer e l) h = submit-IsBalanced host peer e l w h
  Step-IsBalanced host (flush_begun up some_queued) h = omega arith
  Step-IsBalanced host {w} (flush_sent before after q pending r s e k) h = omega (
    arith,
    tasks_with w.tasks before after (flushing (q ∷ pending)) e,
    tally_tasks-append before (flushing pending ∷ after),
    tally-settle_flushed host q r s,
    ap tally k.queue,
    count_gone-append (fate_of q r) w.gone,
  )
  Step-IsBalanced host {w} (flush_ended before after e) h =
      save_world-IsBalanced host (record w { tasks = before ++ after })
        (omega
          (arith, tasks_with w.tasks before after (flushing []) e, tally_tasks-append before after))
  Step-IsBalanced host {w} (tick_begun up due) h =
      omega (arith, tally-select (is_due (host.now w.session.calls)) w.session.queue)
  Step-IsBalanced host {w} (tick_gave_up before after q due e late) h = omega (
    arith,
    tasks_with w.tasks before after (ticking (q ∷ due)) e,
    tally_tasks-append before (ticking due ∷ after),
    ap tally (emit_delivery-SameQueue q.envelope failed w.session).queue,
  )
  Step-IsBalanced host {w} (tick_sent before after q due r s e early k) h = omega (
    arith,
    tasks_with w.tasks before after (ticking (q ∷ due)) e,
    tally_tasks-append before (ticking due ∷ after),
    tally-settle_due host q r s,
    ap tally k.queue,
    count_gone-append (fate_of q r) w.gone,
  )
  Step-IsBalanced host {w} (tick_ended before after e) h =
      save_world-IsBalanced host (record w { tasks = before ++ after })
        (omega
          (arith, tasks_with w.tasks before after (ticking []) e, tally_tasks-append before after))
  Step-IsBalanced host {w} (retry_begun id q rest e) h = omega (
    arith,
    subst (λ o. TallyRemoved o w.session.queue) e
        (tally-remove_first (λ x. same_text x.envelope.message_id id) w.session.queue),
  )
  Step-IsBalanced host {w} (retry_sent before after q s r e k) h = save_world-IsBalanced host _ (
      finish_retried-tally host q r (record w { session = s; tasks = before ++ after })
        (omega (
          arith,
          tasks_with w.tasks before after (retrying q) e,
          tally_tasks-append before after,
          ap tally k.queue,
        )))
  Step-IsBalanced host {w} (elsewhere s k) h = omega (arith, ap tally k.queue)

  Reach-IsBalanced : (host : Host) {w v : World} → IsBalanced w → Reach host w v → IsBalanced v
  Reach-IsBalanced host h here = h
  Reach-IsBalanced host h (next r st) = Step-IsBalanced host st (Reach-IsBalanced host h r)

-- The session's state when its queue is all that was taken in.
abbrev pub initial_world : Session → World
initial_world s = record { session = s; tasks = []; taken = map entry_dest s.queue; gone = [] }

count-map : (p : Dest → Bool) (qs : List QueuedEnvelope) → count p (map entry_dest qs) ≡ tally p qs
count-map p [] = refl
count-map p (q ∷ qs) = omega (arith, count-map p qs)

-- However flushes, ticks, retries by hand and new messages interleave, and however their sends end,
-- no entry is lost or made up: for every test `p` on a peer and an envelope, the entries taken in
-- that pass it are as many as those that wait in the queue, those that a task has still to send,
-- and those that were delivered, unsupported by the peer, given up after the last retry, crowded
-- out of a full queue, or refused by `enqueue` on their way back, together.
pub Reach-balance :
    (host : Host) (s : Session) (w : World) (p : Dest → Bool)
    → Reach host (initial_world s) w
    → tally p w.session.queue + tally_tasks p w.tasks + count_gone p w.gone ≡ count p w.taken
Reach-balance host s w p r = Reach-IsBalanced p host (omega (arith, count-map p s.queue)) r
