-- ===== src/Session/Queue/History.antt =====
-- Any sequence of operations on the queue, each run to its end.
use skypier_chat.Prelude.{String, Bool, arith, List, [], ◌∷◌}
use skypier_chat.Protocol.{WireEnvelope}
use skypier_chat.Session.{Host, Session}
use skypier_chat.Session.Queue.{enqueue, retry_tick, flush_queue, retry_message}
use skypier_chat.Session.Queue.Invariant.{
  IsWellFormed, enqueue-IsWellFormed, retry_tick-IsWellFormed, flush_queue-IsWellFormed,
  retry_message-IsWellFormed,
}
use skypier_chat.Session.Queue.Saved.{
  IsSaved, enqueue-IsSaved, retry_tick-IsSaved, flush_queue-IsSaved, retry_message-IsSaved,
}

-- `add` is a call of `enqueue` as the senders make it, with no retry behind it.
pub data Operation : Type 0 where
  add : String → WireEnvelope → Bool → Operation
  tick flush : Operation
  retry : String → Operation

module _ (host : Host) where
  abbrev pub perform : Operation → Session → Session
  perform (add peer e l) s = enqueue host peer e 0 l s
  perform tick s = retry_tick host s
  perform flush s = (flush_queue host s).1
  perform (retry id) s = (retry_message host id s).1

  abbrev pub run : List Operation → Session → Session
  run [] s = s
  run (op ∷ ops) s = run ops (perform op s)

  perform-IsWellFormed :
      (op : Operation) (s : Session) → IsWellFormed s → IsWellFormed (perform op s)
  perform-IsWellFormed (add p e l) s h = enqueue-IsWellFormed host p e 0 l s (omega arith) h
  perform-IsWellFormed tick s h = retry_tick-IsWellFormed host s h
  perform-IsWellFormed flush s h = flush_queue-IsWellFormed host s h
  perform-IsWellFormed (retry id) s h = retry_message-IsWellFormed host id s h

  perform-IsSaved : (op : Operation) (s : Session) → IsSaved s → IsSaved (perform op s)
  perform-IsSaved (add p e l) s h = enqueue-IsSaved host p e 0 l s h
  perform-IsSaved tick s h = retry_tick-IsSaved host s h
  perform-IsSaved flush s h = flush_queue-IsSaved host s h
  perform-IsSaved (retry id) s h = retry_message-IsSaved host id s h

  -- Whatever the network answers, a sequence of queue operations that run one after another keeps
  -- a well-formed queue well formed: at most 200 entries, none past 50 retries, none for the local
  -- peer, and no message with an id twice for one peer.
  pub run-IsWellFormed :
      (ops : List Operation) (s : Session) → IsWellFormed s → IsWellFormed (run ops s)
  run-IsWellFormed [] s h = h
  run-IsWellFormed (op ∷ ops) s h =
      run-IsWellFormed ops (perform op s) (perform-IsWellFormed op s h)

  -- Whatever the network answers, a sequence of queue operations that run one after another keeps
  -- the stored queue equal to the queue: if a reload of the page would have restored the queue
  -- before them, it restores the queue exactly after them.
  pub run-IsSaved : (ops : List Operation) (s : Session) → IsSaved s → IsSaved (run ops s)
  run-IsSaved [] s h = h
  run-IsSaved (op ∷ ops) s h = run-IsSaved ops (perform op s) (perform-IsSaved op s h)
