-- ===== src/Session/Queue.antt =====
-- The outgoing queue of packages/network/src/session.ts: computeNextRetryDelay, enqueue, the retry
-- loop, retryMessage and flushQueue. A loop that awaits one send after another is a recursion over
-- its own list, and no other task runs while it waits (Session/Interleave.antt lets them run).
pub mod Thinned
pub mod Distinct
pub mod Passes
pub mod Peer
pub mod Saved
pub mod History
pub mod Outcome
pub mod Budget
pub mod Invariant
pub mod Delay
use skypier_chat.Prelude.{
  ℕ, zero, suc, ◌+◌, ◌*◌, ◌^◌, min, String, ◌≡◌, Bool, true, false, not, ◌&&◌, Option, none, some,
  List, [], ◌∷◌, ◌++◌, length, any, remove_first, select, leb, ltb, is_some, same_text, truthy,
  if◌then◌else◌, ◌==◌,
}
use skypier_chat.Protocol.{
  WireEnvelope, WireEnvelopeKind, message, receipt, presence, sync, Timestamp,
}
use skypier_chat.Session.{
  Host, Session, QueuedEnvelope, failed, is_self, emit_delivery, emit_state, persist_queue,
}
use skypier_chat.Session.Send.{
  SendResult, sent_ok, unsupported, limited, send_failed, send_envelope, limited_retry_delay_ms,
}

abbrev pub max_retries : ℕ
max_retries = 50

abbrev pub base_retry_delay_ms : ℕ
base_retry_delay_ms = 2000

abbrev pub max_retry_delay_ms : ℕ
max_retry_delay_ms = 300000

abbrev pub max_queue_size : ℕ
max_queue_size = 200

unfoldable pub compute_next_retry_delay : ℕ → ℕ
compute_next_retry_delay retry_count =
    min (base_retry_delay_ms * 2 ^ retry_count) max_retry_delay_ms

-- The test of the deduplication, on the queue's entry `q`.
abbrev pub same_id : Option String → Option String → Bool
same_id none m = not (is_some m)
same_id (some id) m = same_text m id

abbrev pub is_same : String → WireEnvelope → QueuedEnvelope → Bool
is_same peer e q = q.peer_id == peer && same_id e.message_id q.envelope.message_id

abbrev pub is_message : QueuedEnvelope → Bool
is_message q = elim q.envelope.kind [ message ↦ true | _ ↦ false ]

abbrev pub has_id : WireEnvelope → Bool
has_id e = is_some (truthy e.message_id)

-- queue.shift()
abbrev pub drop_oldest : List QueuedEnvelope → List QueuedEnvelope
drop_oldest [] = []
drop_oldest (q ∷ qs) = qs

abbrev pub evict_choice : Option (QueuedEnvelope × List QueuedEnvelope) → Session → Session
evict_choice none s = record s { queue = drop_oldest s.queue }
evict_choice (some (removed, rest)) s =
    emit_delivery removed.envelope failed (record s { queue = rest })

-- The queue is full: the oldest message goes, or the oldest entry where there is no message.
unfoldable pub evict : Session → Session
evict s = evict_choice (remove_first is_message s.queue) s

abbrev pub make_room : Session → Session
make_room s = if leb max_queue_size (length s.queue) then evict s else s

abbrev pub retry_delay : Bool → ℕ → ℕ
retry_delay limited_peer count =
    if limited_peer then limited_retry_delay_ms else compute_next_retry_delay count

abbrev pub push : QueuedEnvelope → Session → Session
push q s = record s { queue = s.queue ++ q ∷ [] }

abbrev pub is_due : ℕ → QueuedEnvelope → Bool
is_due now q = leb q.next_retry_at now

module _ (host : Host) where
  abbrev pub queued_at : Session → String → WireEnvelope → ℕ → ℕ → QueuedEnvelope
  queued_at s peer e count delay = record {
    peer_id = peer;
    envelope = e;
    retry_count = count;
    next_retry_at = host.now s.calls + delay;
  }

  abbrev pub save_and_emit : Session → Session
  save_and_emit s = emit_state host (persist_queue s)

  unfoldable pub enqueue : String → WireEnvelope → ℕ → Bool → Session → Session
  enqueue peer e count limited_peer s =
      if is_self s peer
      then s
      else if has_id e && any (is_same peer e) s.queue
      then s
      else save_and_emit
          (push (queued_at s peer e count (retry_delay limited_peer count)) (make_room s))

  -- One entry that is due, after its send ended with the given result.
  abbrev pub settle_due : QueuedEnvelope → SendResult × Session → Session
  settle_due q (sent_ok, s) = s
  settle_due q (unsupported, s) = s
  settle_due q (limited, s) =
      push (queued_at s q.peer_id q.envelope (q.retry_count + 1) limited_retry_delay_ms) s
  settle_due q (send_failed, s) =
      push
        (queued_at s q.peer_id q.envelope (q.retry_count + 1)
          (compute_next_retry_delay (q.retry_count + 1)))
        s

  unfoldable pub retry_one : QueuedEnvelope → Session → Session
  retry_one q s =
      if leb max_retries q.retry_count
      then emit_delivery q.envelope failed s
      else settle_due q (send_envelope host q.peer_id q.envelope s)

  unfoldable pub retry_all : List QueuedEnvelope → Session → Session
  retry_all [] s = s
  retry_all (q ∷ due) s = retry_all due (retry_one q s)

  abbrev run_due : List QueuedEnvelope → ℕ → Session → Session
  run_due [] now s = s
  run_due (q ∷ due) now s =
      save_and_emit
        (retry_all (q ∷ due) (record s { queue = select (λ x. not (is_due now x)) s.queue }))

  -- The callback of the retry loop's timer.
  unfoldable pub retry_tick : Session → Session
  retry_tick s =
      if s.has_node
      then run_due (select (is_due (host.now s.calls)) s.queue) (host.now s.calls) s
      else s

  -- One pending entry of a flush, after its send ended.
  abbrev pub settle_flushed : QueuedEnvelope → SendResult × Session → ℕ × Session
  settle_flushed q (sent_ok, s) = (1, s)
  settle_flushed q (unsupported, s) = (0, s)
  settle_flushed q (limited, s) =
      (0, push (record q { next_retry_at = host.now s.calls + limited_retry_delay_ms }) s)
  settle_flushed q (send_failed, s) = (0, push q s)

  abbrev add_count : ℕ → ℕ × Session → ℕ × Session
  add_count n (m, s) = (n + m, s)

  unfoldable pub flush_all : List QueuedEnvelope → Session → ℕ × Session
  flush_all [] s = (0, s)
  flush_all (q ∷ pending) s =
      let (n, s') = settle_flushed q (send_envelope host q.peer_id q.envelope s) in
      add_count n (flush_all pending s')

  abbrev finish_flush : ℕ × Session → ℕ × Session
  finish_flush (n, s) = (n, save_and_emit s)

  abbrev flush_pending : List QueuedEnvelope → Session → ℕ × Session
  flush_pending [] s = (0, emit_state host s)
  flush_pending (q ∷ pending) s = finish_flush (flush_all (q ∷ pending) (record s { queue = [] }))

  unfoldable pub flush_queue : Session → ℕ × Session
  flush_queue s = if s.has_node then flush_pending s.queue s else (0, emit_state host s)

  -- One entry that the user retries by hand.
  abbrev pub settle_retried : QueuedEnvelope → SendResult × Session → Bool × Session
  settle_retried q (sent_ok, s) = (true, s)
  settle_retried q (unsupported, s) = (false, s)
  settle_retried q (limited, s) = (false, enqueue q.peer_id q.envelope 0 true s)
  settle_retried q (send_failed, s) = (false, enqueue q.peer_id q.envelope 0 false s)

  abbrev finish_retry : Bool × Session → Bool × Session
  finish_retry (b, s) = (b, save_and_emit s)

  abbrev retry_found : Option (QueuedEnvelope × List QueuedEnvelope) → Session → Bool × Session
  retry_found none s = (false, s)
  retry_found (some (q, rest)) s =
      finish_retry
        (settle_retried q (send_envelope host q.peer_id q.envelope (record s { queue = rest })))

  unfoldable pub retry_message : String → Session → Bool × Session
  retry_message id s =
      retry_found (remove_first (λ q. same_text q.envelope.message_id id) s.queue) s
