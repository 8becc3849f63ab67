-- ===== src/Session/Queue/Outcome.antt =====
-- What a flush does, told by how each of its sends ended.
use mathlib.Core.List.{append-nil, append_assoc}
use mathlib.Core.Path.{ap₂}
use skypier_chat.Prelude.{
  ℕ, ◌+◌, String, ◌≡◌, refl, sym, ◌∙◌, ap, Bool, true, Option, List, [], ◌∷◌, ◌++◌, same_text,
  if◌then◌else◌,
}
use mathlib.Core.Path.{subst}
use skypier_chat.Protocol.{Timestamp}
use skypier_chat.Session.{
  Host, Session, QueuedEnvelope, emit_state, persist_queue, envelope_payload,
}
use skypier_chat.Session.Send.{
  SendResult, sent_ok, unsupported, limited, send_failed, send_envelope, message_protocol,
  limited_retry_delay_ms,
}
use skypier_chat.Session.Send.Frame.{send_envelope-SameQueue}
use skypier_chat.Session.Send.Frames.{
  Frame, frames, frames-emit, added, is_sent, AsReported, send_envelope-frames,
}
use skypier_chat.Session.Queue.{
  settle_flushed, flush_all, flush_queue, flush_pending, save_and_emit,
}

-- The results of the sends of a flush of `pending`, in their order, each with the time at its end.
pub outcomes : Host → List QueuedEnvelope → Session → List (SendResult × Timestamp)
outcomes host [] s = []
outcomes host (q ∷ pending) s =
    let r = send_envelope host q.peer_id q.envelope s in
    (r.0, host.now r.1.calls) ∷ outcomes host pending (settle_flushed host q r).1

-- What a result leaves of the entry in the queue: an entry that failed stays as it is, one that met
-- a limited connection is due 15 seconds after the end of its send.
abbrev pub kept : SendResult → Timestamp → QueuedEnvelope → List QueuedEnvelope
kept sent_ok at q = []
kept unsupported at q = []
kept limited at q = record q { next_retry_at = at + limited_retry_delay_ms } ∷ []
kept send_failed at q = q ∷ []

abbrev pub unsent : List QueuedEnvelope → List (SendResult × Timestamp) → List QueuedEnvelope
unsent (q ∷ qs) ((r, at) ∷ rs) = kept r at q ++ unsent qs rs
unsent [] rs = []
unsent (q ∷ qs) [] = []

abbrev pub count_sent : List (SendResult × Timestamp) → ℕ
count_sent [] = 0
count_sent ((r, at) ∷ rs) = (if is_sent r then 1 else 0) + count_sent rs

abbrev pub frame_of : QueuedEnvelope → Frame
frame_of q = record {
  peer = q.peer_id;
  protocol = message_protocol;
  payload = envelope_payload q.envelope;
}

-- The frames that the sends of a peer `me` add, one after another: each adds its entry's frame or
-- not, as it reports.
abbrev pub AddsAll :
    Host → Option String → List QueuedEnvelope → List (SendResult × Timestamp) → List Frame → Type 0
AddsAll host me (q ∷ qs) ((r, at) ∷ rs) fs =
    (was_written : Bool) × (rest : List Frame) × ((fs ≡ added was_written (frame_of q) ++ rest)
      × AsReported host message_protocol (same_text me q.peer_id) (is_sent r) was_written
      × AddsAll host me qs rs rest)
AddsAll host me [] rs fs = fs ≡ []
AddsAll host me (q ∷ qs) [] fs = fs ≡ []

module _ (host : Host) where
  settle_flushed-queue :
      (q : QueuedEnvelope) (r : SendResult × Session)
      → (settle_flushed host q r).1.queue ≡ r.1.queue ++ kept r.0 (host.now r.1.calls) q
  settle_flushed-queue q (sent_ok, s) = sym (append-nil s.queue)
  settle_flushed-queue q (unsupported, s) = sym (append-nil s.queue)
  settle_flushed-queue q (limited, s) = refl
  settle_flushed-queue q (send_failed, s) = refl

  settle_flushed-same :
      (q : QueuedEnvelope) (r : SendResult × Session)
      → ((settle_flushed host q r).0 ≡ (if is_sent r.0 then 1 else 0))
        × ((settle_flushed host q r).1.events ≡ r.1.events)
        × ((settle_flushed host q r).1.state.local_peer_id ≡ r.1.state.local_peer_id)
  settle_flushed-same q (sent_ok, s) = (refl, refl, refl)
  settle_flushed-same q (unsupported, s) = (refl, refl, refl)
  settle_flushed-same q (limited, s) = (refl, refl, refl)
  settle_flushed-same q (send_failed, s) = (refl, refl, refl)

  flush_all-queue :
      (qs : List QueuedEnvelope) (s : Session)
      → (flush_all host qs s).1.queue ≡ s.queue ++ unsent qs (outcomes host qs s)
  unfolding flush_all outcomes
  flush_all-queue [] s = sym (append-nil s.queue)
  flush_all-queue (q ∷ qs) s =
      let r = send_envelope host q.peer_id q.envelope s in
      let s' = (settle_flushed host q r).1 in
      let left = kept r.0 (host.now r.1.calls) q in
      flush_all-queue qs s'
      ∙ ap (λ xs. xs ++ unsent qs (outcomes host qs s'))
          (settle_flushed-queue q r
            ∙ ap (λ xs. xs ++ left) (send_envelope-SameQueue host q.peer_id q.envelope s).queue)
      ∙ append_assoc s.queue left (unsent qs (outcomes host qs s'))

  flush_all-count :
      (qs : List QueuedEnvelope) (s : Session)
      → (flush_all host qs s).0 ≡ count_sent (outcomes host qs s)
  unfolding flush_all outcomes
  flush_all-count [] s = refl
  flush_all-count (q ∷ qs) s =
      let r = send_envelope host q.peer_id q.envelope s in
      ap₂ (λ a b. a + b) (settle_flushed-same q r).0
        (flush_all-count qs (settle_flushed host q r).1)

  -- The frames after a list of sends are those before it and the added ones.
  abbrev pub AddsTo :
      Option String
      → List QueuedEnvelope
      → List (SendResult × Timestamp)
      → List Frame
      → List Frame
      → Type 0
  AddsTo me qs rs before after =
      (fs : List Frame) × ((after ≡ before ++ fs) × AddsAll host me qs rs fs)

  flush_all-frames :
      (qs : List QueuedEnvelope) (s : Session)
      → AddsTo s.state.local_peer_id qs
          (outcomes host qs s)
          (frames s.events)
          (frames (flush_all host qs s).1.events)
  unfolding flush_all outcomes
  flush_all-frames [] s = ([], (sym (append-nil (frames s.events)), refl))
  flush_all-frames (q ∷ qs) s =
      let me = s.state.local_peer_id in
      let r = send_envelope host q.peer_id q.envelope s in
      let s' = (settle_flushed host q r).1 in
      let same = settle_flushed-same q r in
      let same_me : s'.state.local_peer_id ≡ me =
        (same.2 ∙ (send_envelope-SameQueue host q.peer_id q.envelope s).peer) in
      let (was_written, (one, reported)) = send_envelope-frames host q.peer_id q.envelope s in
      let (rest, (more, all)) =
        subst
          (λ me.
            AddsTo me qs (outcomes host qs s') (frames s'.events)
              (frames (flush_all host qs s').1.events))
          same_me (flush_all-frames qs s') in
      (
        added was_written (frame_of q) ++ rest,
        (
          more
              ∙ ap (λ fs. fs ++ rest) (ap frames same.1 ∙ one)
              ∙ append_assoc (frames s.events) (added was_written (frame_of q)) rest,
          (was_written, rest, (refl, reported, all)),
        ),
      )

  save_and_emit-frames : (s : Session) → frames (save_and_emit host s).events ≡ frames s.events
  unfolding emit_state persist_queue
  save_and_emit-frames s = frames-emit s.events _ refl

  -- What a flush of the session `s`, with its queue `qs`, comes to.
  abbrev pub Flushed : List QueuedEnvelope → Session → ℕ × Session → Type 0
  Flushed qs s r =
      let os = outcomes host qs (record s { queue = [] }) in
      (r.1.queue ≡ unsent qs os)
      × (r.0 ≡ count_sent os)
      × AddsTo s.state.local_peer_id qs os (frames s.events) (frames r.1.events)

  flush_pending-Flushed :
      (qs : List QueuedEnvelope) (s : Session)
      → s.queue ≡ qs
      → Flushed qs s (flush_pending host qs s)
  flush_pending-Flushed [] s e =
      unfold emit_state outcomes in
      (e, refl, ([], (frames-emit s.events _ refl ∙ sym (append-nil (frames s.events)), refl)))
  flush_pending-Flushed (q ∷ qs) s e =
      let s' = record s { queue = [] } in
      let (fs, (more, all)) = flush_all-frames (q ∷ qs) s' in
      (
        unfold emit_state persist_queue in flush_all-queue (q ∷ qs) s',
        flush_all-count (q ∷ qs) s',
        (fs, (save_and_emit-frames _ ∙ more, all)),
      )

  flush_queue_up :
      (s : Session) → s.has_node ≡ true → flush_queue host s ≡ flush_pending host s.queue s
  unfolding flush_queue
  flush_queue_up s up = simp up

-- Where the session has a node, a flush sends the queue's entries in order. Its queue afterwards is
-- the entries whose sends failed, unchanged, and those that met a limited connection, due 15 seconds
-- after the end of their send and otherwise unchanged, in their order; its result is the number of
-- sends that succeeded; and it adds at most one frame for each entry, in the order of the queue:
-- for an entry to another peer one where its send succeeded, and otherwise one only if a stream
-- failed to close after its frame was written; for an entry to the local peer none.
pub flush_queue_outcome :
    (host : Host) (s : Session) → s.has_node ≡ true → Flushed host s.queue s (flush_queue host s)
flush_queue_outcome host s up =
    subst (Flushed host s.queue s) (sym (flush_queue_up host s up))
      (flush_pending-Flushed host s.queue s refl)
