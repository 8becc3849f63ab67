-- ===== src/Session/Tests.antt =====
-- Runs of the outgoing queue and of single sends.
use skypier_chat.Prelude.{
  ℕ, ◌+◌, ◌*◌, ◌≤◌, ◌^◌, ◌≡◌, refl, false, List, [], ◌∷◌, arith, map, length, ltb, ◌==◌,
  if◌then◌else◌,
}
use skypier_chat.Session.{Host, Session, create_session, envelope_payload, is_self}
use skypier_chat.Prelude.Maps.{get}
use skypier_chat.Session.Send.{send_envelope, send_payload, send_failed, message_protocol}
use skypier_chat.Session.Send.Throttle.{send_payload_cooldown}
use skypier_chat.Session.Queue.{flush_queue, enqueue, retry_tick, compute_next_retry_delay}
use skypier_chat.Session.Queue.Distinct.{Distinct}
use skypier_chat.Session.Queue.Outcome.{flush_queue_outcome, Flushed}
use skypier_chat.Session.Queue.Delay.{delay_lem}
use skypier_chat.Session.Send.Frames.{frames, Adds, is_sent, send_envelope-frames}
use skypier_chat.Session.Queue.Invariant.{IsWellFormed}
use skypier_chat.Session.Queue.Saved.{IsSaved, create_session-IsSaved}
use skypier_chat.Session.Queue.History.{
  Operation, add, tick, flush, retry, run, run-IsWellFormed, run-IsSaved,
}
use skypier_chat.Session.Queue.Budget.{busy_ticks, busy_ticks_bound}
use skypier_chat.Session.Interleave.{World, Reach, here, next, flush_begun, flushing}
use skypier_chat.Session.Interleave.Balance.{
  initial_world, Reach-balance, tally, tally_tasks, count_gone, count,
}
use skypier_chat.Session.Interleave.Races.{flush_race_duplicates, flush_race_unsaved}
use skypier_chat.Session.Samples.{
  hello, offline_host, online_host, waiting, ready, session_code, ready-IsWellFormed, one_due,
}

run_tests :
    ((flush_queue online_host (ready (waiting "m1" 0 ∷ waiting "m2" 3 ∷ []))).0 ≡ 2)
    × ((flush_queue offline_host (ready (waiting "m1" 0 ∷ []))).1.queue ≡ waiting "m1" 0 ∷ [])
    × (map
          (λ q. q.retry_count)
          (retry_tick offline_host (ready (waiting "m1" 0 ∷ waiting "m2" 50 ∷ []))).queue
        ≡ 1 ∷ [])
    × (length (enqueue offline_host "bob" (hello "m1") 0 false (ready (waiting "m1" 7 ∷ []))).queue
        ≡ 1)
unfolding session_code
run_tests = (refl, refl, refl, refl)

abbrev history : List Operation
history = add "bob" (hello "m3") false ∷ tick ∷ retry "m1" ∷ flush ∷ []

run-IsWellFormed_example :
    IsWellFormed (run offline_host history (ready (waiting "m1" 0 ∷ waiting "m2" 3 ∷ [])))
run-IsWellFormed_example =
    run-IsWellFormed offline_host history (ready (waiting "m1" 0 ∷ waiting "m2" 3 ∷ []))
      ready-IsWellFormed

run-IsSaved_example : IsSaved (run offline_host history (create_session [] []))
run-IsSaved_example =
    run-IsSaved offline_host history (create_session [] []) (create_session-IsSaved [] [])

flush_queue_outcome_example :
    Flushed online_host one_due.queue one_due (flush_queue online_host one_due)
flush_queue_outcome_example =
    flush_queue_outcome online_host one_due (unfold create_session in refl)

-- A host whose clock shows the time.
abbrev at_time : ℕ → Host
at_time now = record offline_host { now = λ n. now }

-- Two ticks that retry the entry with two idle ones between them.
abbrev timed_ticks : List Host
timed_ticks = at_time 5000000 ∷ at_time 5001000 ∷ at_time 5001500 ∷ at_time 5300000 ∷ []

two_busy : busy_ticks timed_ticks one_due ≡ 2
unfolding session_code compute_next_retry_delay
two_busy = refl

busy_ticks_bound_example : busy_ticks timed_ticks one_due ≤ 51 * length one_due.queue
busy_ticks_bound_example =
    busy_ticks_bound timed_ticks one_due (unfold create_session in refl)
      (unfold create_session in omega arith)

delay_lem_example :
    (compute_next_retry_delay 3 ≡ (if ltb 3 8 then 2000 * 2 ^ 3 else 300000))
    × (2000 ≤ compute_next_retry_delay 3)
    × (compute_next_retry_delay 3 ≤ compute_next_retry_delay 4)
delay_lem_example = delay_lem 3

send_envelope-frames_example :
    Adds online_host message_protocol
      (is_self one_due "bob")
      (is_sent (send_envelope online_host "bob" (hello "m1") one_due).0)
      (record {
        peer = "bob";
        protocol = message_protocol;
        payload = envelope_payload (hello "m1");
      })
      (frames one_due.events)
      (frames (send_envelope online_host "bob" (hello "m1") one_due).1.events)
send_envelope-frames_example = send_envelope-frames online_host "bob" (hello "m1") one_due

abbrev cooling : Session
cooling = record one_due { redial_cooldown_until = ("bob", 6000000) ∷ [] }

cooling_refuses :
    send_payload offline_host "bob" message_protocol (envelope_payload (hello "m1")) cooling
    ≡ (send_failed, cooling)
cooling_refuses =
    send_payload_cooldown offline_host "bob" message_protocol (envelope_payload (hello "m1"))
      6000000 cooling (unfold create_session in refl) (unfold create_session in refl) refl
      (unfold get in refl) (unfold create_session in omega arith)

-- A flush has taken the queue and has still to send its entry.
abbrev in_flush : World
in_flush = record (initial_world one_due) {
  session = record one_due { queue = [] };
  tasks = flushing one_due.queue ∷ [];
}

in_flush-Reach : Reach online_host (initial_world one_due) in_flush
in_flush-Reach =
    next here (flush_begun (unfold create_session in refl) (unfold create_session in omega arith))

Reach-balance_example :
    tally (λ d. d.0 == "bob") in_flush.session.queue
      + tally_tasks (λ d. d.0 == "bob") in_flush.tasks
      + count_gone (λ d. d.0 == "bob") in_flush.gone
    ≡ count (λ d. d.0 == "bob") in_flush.taken
Reach-balance_example =
    Reach-balance online_host one_due in_flush (λ d. d.0 == "bob") in_flush-Reach

flush_race_duplicates_example :
    (w : World) × Reach offline_host (initial_world one_due) w × (¬ Distinct w.session.queue)
flush_race_duplicates_example =
    flush_race_duplicates offline_host (waiting "m1" 0) one_due (unfold create_session in refl) refl
      refl (unfold create_session in refl)

flush_race_unsaved_example :
    (w : World) × Reach offline_host (initial_world one_due) w
    × (w.tasks ≡ flushing one_due.queue ∷ [])
    × (map (λ x. x.envelope) w.session.persisted ≡ hello "m2" ∷ [])
flush_race_unsaved_example =
    flush_race_unsaved offline_host "bob" (hello "m2") one_due (unfold create_session in refl)
      (omega arith) (unfold create_session in refl)
