-- ===== src/Session/Queue/Passes.antt =====
-- The queue after each operation on it, in terms of the queue before.
use mathlib.Core.List.{append-nil}
use mathlib.Core.Path.{subst}
use skypier_chat.Prelude.{
  ℕ, ◌+◌, ◌≤◌, ◌<◌, String, ◌≡◌, refl, sym, ap, Bool, true, false, not, ◌&&◌, Option, none, some,
  List, [], ◌∷◌, ◌++◌, arith, length, select, any, remove_first, length-remove_first, leb,
  leb_false→lt, Bool-cases, inl, inr, ◌⊎◌, Option-cases, All, All-of_guarded, tests, leb→le,
}
use skypier_chat.Protocol.{WireEnvelope}
use skypier_chat.Session.{
  Host, Session, QueuedEnvelope, failed, is_self, emit_state, persist_queue, emit_delivery,
}
use skypier_chat.Session.Send.Frame.{emit_delivery-SameQueue}
use skypier_chat.Session.Queue.{
  evict_choice, drop_oldest, run_due, flush_pending, enqueue, evict, make_room, is_same, has_id,
  is_message, retry_tick, is_due, flush_queue, save_and_emit, max_queue_size, queued_at,
  retry_delay, push,
}
use skypier_chat.Session.Queue.Thinned.{
  Thinned, done, drop, keep, SameCount, NextCount, Thinned-refl, Appended, flush_all-Appended,
  retry_all-Appended,
}
use skypier_chat.Session.Queue.Distinct.{clash}

module _ (host : Host) where
  flush_pending-Thinned :
      (qs : List QueuedEnvelope) (s : Session)
      → s.queue ≡ qs
      → Thinned SameCount qs (flush_pending host qs s).1.queue
  unfolding emit_state persist_queue
  flush_pending-Thinned [] s e = subst (Thinned SameCount []) (sym e) done
  flush_pending-Thinned (q ∷ pending) s e =
      let (new, f, t) = flush_all-Appended host (q ∷ pending) (record s { queue = [] }) in
      subst (Thinned SameCount (q ∷ pending)) (sym f) t

  -- A flush leaves the entries that it could not send, in their order and with their retry counts.
  pub flush_queue-Thinned : (s : Session) → Thinned SameCount s.queue (flush_queue host s).1.queue
  unfolding flush_queue emit_state
  flush_queue-Thinned s = elim (Bool-cases s.has_node) [
    | inl up ↦ simp up (flush_pending-Thinned s.queue s refl)
    | inr down ↦ simp down (Thinned-refl s.queue)
  ]

  select_none :
      (p : QueuedEnvelope → Bool) (xs : List QueuedEnvelope)
      → select p xs ≡ []
      → select (λ x. not (p x)) xs ≡ xs
  select_none p [] e = refl
  select_none p (x ∷ xs) e = ground (arith, select_none p xs)

  -- What a tick makes of the queue: the entries that are not due stay in front, and behind them
  -- stand the due ones that could not be sent.
  abbrev pub Ticked : ℕ → List QueuedEnvelope → List QueuedEnvelope → Type 0
  Ticked now xs zs =
      Appended NextCount (select (λ x. not (is_due now x)) xs) (select (is_due now) xs) zs

  run_due-Ticked :
      (due : List QueuedEnvelope) (now : ℕ) (s : Session)
      → select (is_due now) s.queue ≡ due
      → Appended NextCount
          (select (λ x. not (is_due now x)) s.queue)
          due
          (run_due host due now s).queue
  unfolding emit_state persist_queue
  run_due-Ticked [] now s e = (
    [],
    ground (
      arith,
      append-nil (select (λ x. not (is_due now x)) s.queue),
      select_none (is_due now) s.queue e,
    ),
    done,
  )
  run_due-Ticked (q ∷ due) now s e =
      retry_all-Appended host (q ∷ due)
        (record s { queue = select (λ x. not (is_due now x)) s.queue })

  pub retry_tick-Ticked :
      (s : Session)
      → s.has_node ≡ true
      → Ticked (host.now s.calls) s.queue (retry_tick host s).queue
  unfolding retry_tick
  retry_tick-Ticked s up = simp up (run_due-Ticked _ (host.now s.calls) s refl)

  pub retry_tick_idle : (s : Session) → s.has_node ≡ false → retry_tick host s ≡ s
  unfolding retry_tick
  retry_tick_idle s down = simp down

pub remove_first-Thinned :
    (p : QueuedEnvelope → Bool) (xs : List QueuedEnvelope) (x : QueuedEnvelope)
    (rest : List QueuedEnvelope)
    → remove_first p xs ≡ some (x, rest)
    → Thinned SameCount xs rest
remove_first-Thinned p [] x rest e = cc
remove_first-Thinned p (y ∷ xs) x rest e = elim (Bool-cases (p y)) [
  | inl here ↦
      let f : xs ≡ rest = ground arith in
      subst (Thinned SameCount (y ∷ xs)) f (drop (Thinned-refl xs))
  | inr later ↦ elim (Option-cases (remove_first p xs)) [
    | inl gone ↦ absurd (ground arith)
    | inr ((z, r), found) ↦
        let f : y ∷ r ≡ rest = ground arith in
        subst (Thinned SameCount (y ∷ xs)) f
          (keep refl refl refl (remove_first-Thinned p xs z r found))
  ]
]

drop_oldest-Thinned : (xs : List QueuedEnvelope) → Thinned SameCount xs (drop_oldest xs)
drop_oldest-Thinned [] = done
drop_oldest-Thinned (x ∷ xs) = drop (Thinned-refl xs)

length-drop_oldest :
    (xs : List QueuedEnvelope) → 0 < length xs → length (drop_oldest xs) + 1 ≡ length xs
length-drop_oldest [] h = absurd (omega arith)
length-drop_oldest (x ∷ xs) h = omega arith

evict_choice-Thinned :
    (o : Option (QueuedEnvelope × List QueuedEnvelope)) (s : Session)
    → remove_first is_message s.queue ≡ o
    → Thinned SameCount s.queue (evict_choice o s).queue
unfolding emit_delivery
evict_choice-Thinned none s e = drop_oldest-Thinned s.queue
evict_choice-Thinned (some (x, rest)) s e =
    subst (Thinned SameCount s.queue)
      (sym (emit_delivery-SameQueue x.envelope failed (record s { queue = rest })).queue)
      (remove_first-Thinned is_message s.queue x rest e)

length-evict_choice :
    (o : Option (QueuedEnvelope × List QueuedEnvelope)) (s : Session)
    → remove_first is_message s.queue ≡ o
    → 0 < length s.queue
    → length (evict_choice o s).queue + 1 ≡ length s.queue
length-evict_choice none s e h = length-drop_oldest s.queue h
length-evict_choice (some (x, rest)) s e h = omega (
  arith,
  length-remove_first is_message s.queue e,
  ap length (emit_delivery-SameQueue x.envelope failed (record s { queue = rest })).queue,
)

make_room-Thinned : (s : Session) → Thinned SameCount s.queue (make_room s).queue
unfolding evict
make_room-Thinned s = elim (Bool-cases (leb max_queue_size (length s.queue))) [
  | inl full ↦ simp full (evict_choice-Thinned _ s refl)
  | inr room ↦ simp room (Thinned-refl s.queue)
]

length-make_room :
    (s : Session) → length s.queue ≤ max_queue_size → length (make_room s).queue < max_queue_size
unfolding evict
length-make_room s h = elim (Bool-cases (leb max_queue_size (length s.queue))) [
  | inl full ↦ simp full (
      omega (
        tests,
        length-evict_choice (remove_first is_message s.queue) s refl
            (omega (arith, leb→le max_queue_size (length s.queue) full)),
      ))
  | inr room ↦ simp room (leb_false→lt max_queue_size (length s.queue) room)
]

-- How `enqueue` ends: nothing happens, since the entry is for the local peer or is there already, or
-- the entry stands behind what the size limit leaves of the queue.
pub record Enqueued (host : Host) (peer : String) (e : WireEnvelope) (count : ℕ) (s t : Session)
    : Type 0 where
  pub kept : List QueuedEnvelope
  pub entry : QueuedEnvelope
  pub queue : t.queue ≡ kept ++ entry ∷ []
  pub thinned : Thinned SameCount s.queue kept
  pub room : length s.queue ≤ max_queue_size → length kept < max_queue_size
  pub peer_id : entry.peer_id ≡ peer
  pub envelope : entry.envelope ≡ e
  pub retry_count : entry.retry_count ≡ count
  pub foreign : is_self s peer ≡ false
  pub fresh : All (λ r. clash entry r ≡ false) s.queue

pushed-Enqueued :
    (host : Host) (peer : String) (e : WireEnvelope) (count : ℕ) (l : Bool) (s : Session)
    → is_self s peer ≡ false
    → All (λ r. (has_id e && is_same peer e r) ≡ false) s.queue
    → Enqueued host peer e count s (
        save_and_emit host
          (push (queued_at host s peer e count (retry_delay l count)) (make_room s)))
unfolding emit_state persist_queue
pushed-Enqueued host peer e count l s other new = record {
  kept = (make_room s).queue;
  entry = queued_at host s peer e count (retry_delay l count);
  queue = refl;
  thinned = make_room-Thinned s;
  room = length-make_room s;
  peer_id = refl;
  envelope = refl;
  retry_count = refl;
  foreign = other;
  fresh = new;
}

pub enqueue-Enqueued :
    (host : Host) (peer : String) (e : WireEnvelope) (count : ℕ) (l : Bool) (s : Session)
    → (enqueue host peer e count l s ≡ s)
      ⊎ Enqueued host peer e count s (enqueue host peer e count l s)
unfolding enqueue
enqueue-Enqueued host peer e count l s = elim (Bool-cases (is_self s peer)) [
  | inl self ↦ inl (simp self)
  | inr other ↦ elim (Bool-cases (has_id e && any (is_same peer e) s.queue)) [
    | inl known ↦ inl (simp (other, known))
    | inr new ↦ inr (
        simp (other, new)
          (pushed-Enqueued host peer e count l s other
            (All-of_guarded (has_id e) (is_same peer e) s.queue new)))
  ]
]
