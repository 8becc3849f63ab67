-- ===== src/Session/Interleave.antt =====
-- The queue's operations as the event loop runs them: each `await` of a send is a point where other
-- tasks go on. A flush, a tick or a retry by hand takes its entries out of the queue first
-- (flushQueue, the retry loop, retryMessage in packages/network/src/session.ts), and is then a task
-- that holds the entries which it has still to send.
pub mod Balance
pub mod Races
use skypier_chat.Prelude.{
  ℕ, ◌<◌, String, ◌≡◌, Bool, true, false, not, ◌&&◌, Option, none, some, List, [], ◌∷◌, ◌++◌,
  length, any, select, remove_first, leb, same_text, if◌then◌else◌,
}
use skypier_chat.Protocol.{WireEnvelope}
use skypier_chat.Session.{Host, Session, QueuedEnvelope, is_self, failed, emit_delivery}
use skypier_chat.Session.Send.{SendResult, sent_ok, unsupported, limited, send_failed}
use skypier_chat.Session.Send.Frame.{SameQueue}
use skypier_chat.Session.Queue.{
  enqueue, settle_flushed, settle_due, settle_retried, save_and_emit, is_due, is_same, has_id,
  is_message, max_retries, max_queue_size,
}

-- A task between two steps, with what it has still to send.
pub data Task : Type 0 where
  flushing ticking : List QueuedEnvelope → Task
  retrying : QueuedEnvelope → Task

-- Why an entry waits no longer.
pub data Fate : Type 0 where
  delivered unsupported_by_peer given_up evicted not_requeued : Fate

pub record World : Type 0 where
  pub session : Session
  pub tasks : List Task
  -- The entries that the queue took in, and those that it is rid of, for the account.
  pub taken : List (String × WireEnvelope)
  pub gone : List ((String × WireEnvelope) × Fate)

abbrev pub entry_dest : QueuedEnvelope → String × WireEnvelope
entry_dest q = (q.peer_id, q.envelope)

-- `enqueue` takes the entry in.
abbrev pub is_accepted : String → WireEnvelope → Session → Bool
is_accepted peer e s =
    if is_self s peer then false else not (has_id e && any (is_same peer e) s.queue)

abbrev pub first_out :
    Option (QueuedEnvelope × List QueuedEnvelope) → List QueuedEnvelope → List QueuedEnvelope
first_out (some (q, rest)) qs = q ∷ []
first_out none [] = []
first_out none (q ∷ qs) = q ∷ []

-- The entry that makes room for a new one.
abbrev pub crowded_out : Session → List QueuedEnvelope
crowded_out s =
    if leb max_queue_size (length s.queue)
    then first_out (remove_first is_message s.queue) s.queue
    else []

abbrev pub as_gone : Fate → List QueuedEnvelope → List ((String × WireEnvelope) × Fate)
as_gone f [] = []
as_gone f (q ∷ qs) = (entry_dest q, f) ∷ as_gone f qs

-- What an end of a send by a flush or by the retry loop rids the queue of.
abbrev pub fate_of : QueuedEnvelope → SendResult → List ((String × WireEnvelope) × Fate)
fate_of q sent_ok = as_gone delivered (q ∷ [])
fate_of q unsupported = as_gone unsupported_by_peer (q ∷ [])
fate_of q limited = []
fate_of q send_failed = []

abbrev pub submit : Host → String → WireEnvelope → Bool → World → World
submit host peer e l w = record w {
  session = enqueue host peer e 0 l w.session;
  taken = if is_accepted peer e w.session then (peer, e) ∷ w.taken else w.taken;
  gone =
      if is_accepted peer e w.session
      then as_gone evicted (crowded_out w.session) ++ w.gone
      else w.gone;
}

-- The end of a retry by hand puts an unsent entry back through `enqueue`.
abbrev pub requeue : Host → QueuedEnvelope → Bool → World → World
requeue host q l w = record w {
  session = enqueue host q.peer_id q.envelope 0 l w.session;
  gone =
      if is_accepted q.peer_id q.envelope w.session
      then as_gone evicted (crowded_out w.session) ++ w.gone
      else as_gone not_requeued (q ∷ []) ++ w.gone;
}

-- The end of a retry by hand, the storage and the listeners told.
abbrev pub finish_retried : Host → QueuedEnvelope → SendResult → World → World
finish_retried host q sent_ok w = record w { gone = fate_of q sent_ok ++ w.gone }
finish_retried host q unsupported w = record w { gone = fate_of q unsupported ++ w.gone }
finish_retried host q limited w = requeue host q true w
finish_retried host q send_failed w = requeue host q false w

abbrev pub save_world : Host → World → World
save_world host w = record w { session = save_and_emit host w.session }

module _ (host : Host) where
  -- One step of the event loop. A send ends with any result, and leaves any session with the same
  -- queue.
  pub data Step (w : World) : World → Type 0 where
    submitted : (peer : String) (e : WireEnvelope) (l : Bool) → Step w (submit host peer e l w)
    flush_begun :
        w.session.has_node ≡ true
        → 0 < length w.session.queue
        → Step w (record w {
          session = record w.session { queue = [] };
          tasks = flushing w.session.queue ∷ w.tasks;
        })
    flush_sent :
        (before after : List Task) (q : QueuedEnvelope) (pending : List QueuedEnvelope)
        (r : SendResult) (s : Session)
        → w.tasks ≡ before ++ flushing (q ∷ pending) ∷ after
        → SameQueue w.session s
        → Step w (record w {
          session = (settle_flushed host q (r, s)).1;
          tasks = before ++ flushing pending ∷ after;
          gone = fate_of q r ++ w.gone;
        })
    flush_ended :
        (before after : List Task)
        → w.tasks ≡ before ++ flushing [] ∷ after
        → Step w (record w { session = save_and_emit host w.session; tasks = before ++ after })
    tick_begun :
        w.session.has_node ≡ true
        → any (is_due (host.now w.session.calls)) w.session.queue ≡ true
        → Step w (record w {
          session = record w.session {
            queue = select (λ x. not (is_due (host.now w.session.calls) x)) w.session.queue;
          };
          tasks = ticking (select (is_due (host.now w.session.calls)) w.session.queue) ∷ w.tasks;
        })
    tick_gave_up :
        (before after : List Task) (q : QueuedEnvelope) (due : List QueuedEnvelope)
        → w.tasks ≡ before ++ ticking (q ∷ due) ∷ after
        → leb max_retries q.retry_count ≡ true
        → Step w (record w {
          session = emit_delivery q.envelope failed w.session;
          tasks = before ++ ticking due ∷ after;
          gone = as_gone given_up (q ∷ []) ++ w.gone;
        })
    tick_sent :
        (before after : List Task) (q : QueuedEnvelope) (due : List QueuedEnvelope) (r : SendResult)
        (s : Session)
        → w.tasks ≡ before ++ ticking (q ∷ due) ∷ after
        → leb max_retries q.retry_count ≡ false
        → SameQueue w.session s
        → Step w (record w {
          session = settle_due host q (r, s);
          tasks = before ++ ticking due ∷ after;
          gone = fate_of q r ++ w.gone;
        })
    tick_ended :
        (before after : List Task)
        → w.tasks ≡ before ++ ticking [] ∷ after
        → Step w (record w { session = save_and_emit host w.session; tasks = before ++ after })
    retry_begun :
        (id : String) (q : QueuedEnvelope) (rest : List QueuedEnvelope)
        → remove_first (λ x. same_text x.envelope.message_id id) w.session.queue ≡ some (q, rest)
        → Step w
            (record w { session = record w.session { queue = rest }; tasks = retrying q ∷ w.tasks })
    retry_sent :
        (before after : List Task) (q : QueuedEnvelope) (s : Session) (r : SendResult)
        → w.tasks ≡ before ++ retrying q ∷ after
        → SameQueue w.session s
        → Step w (
            save_world host
              (finish_retried host q r (record w { session = s; tasks = before ++ after })))
    elsewhere : (s : Session) → SameQueue w.session s → Step w (record w { session = s })

  pub data Reach (w : World) : World → Type 0 where
    here : Reach w w
    next : {v u : World} → Reach w v → Step v u → Reach w u
