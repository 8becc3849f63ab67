-- ===== src/Bot.antt =====
-- The interval task of the bot SDK: runIntervalTask in packages/bot/src/scheduler.ts, as a machine
-- over what happens to it: the timer fires, the task that is under way ends, or the caller stops it.
pub mod Runs
pub mod Tests
use skypier_chat.Prelude.{
  ℕ, String, Bool, true, false, ◌||◌, Option, none, some, List, [], ◌∷◌, ◌++◌, max, if◌then◌else◌,
  or_else,
}

pub record IntervalTaskOptions : Type 0 where
  pub interval_ms : ℕ
  pub run_immediately : Option Bool

-- The end of the task: it is done, or it throws.
pub data TaskEnd : Type 0 where
  done : TaskEnd
  thrown : String → TaskEnd

pub data Happening : Type 0 where
  timer_fired : Happening
  task_ended : TaskEnd → Happening
  stop_called : Happening

-- What it does: a call of the task, of `onError`, or of `clearInterval`.
pub data Action : Type 0 where
  task_started : Action
  error_reported : String → Action
  timer_cleared : Action

pub record IntervalTask : Type 0 where
  pub interval_ms : ℕ
  pub stopped : Bool
  pub in_flight : Bool
  pub timer : Bool

-- invokeTask, up to its wait for the task
unfoldable pub invoke_task : IntervalTask → List Action × IntervalTask
invoke_task t =
    if t.stopped || t.in_flight then ([], t) else (task_started ∷ [], record t { in_flight = true })

abbrev pub report : TaskEnd → List Action
report done = []
report (thrown e) = error_reported e ∷ []

-- The rest of it, once the task has ended; without a task under way nothing ends.
unfoldable pub end_task : TaskEnd → IntervalTask → List Action × IntervalTask
end_task e t = if t.in_flight then (report e, record t { in_flight = false }) else ([], t)

-- A timer that was cleared does not fire.
unfoldable pub happen : Happening → IntervalTask → List Action × IntervalTask
happen timer_fired t = if t.timer then invoke_task t else ([], t)
happen (task_ended e) t = end_task e t
happen stop_called t = (timer_cleared ∷ [], record t { stopped = true; timer = false })

-- runIntervalTask; the interval in whole milliseconds, at least a second
unfoldable pub run_interval_task : IntervalTaskOptions → List Action × IntervalTask
run_interval_task o =
    let t : IntervalTask = record {
      interval_ms = max 1000 o.interval_ms;
      stopped = false;
      in_flight = false;
      timer = true;
    } in
    if or_else o.run_immediately true then invoke_task t else ([], t)

abbrev pub happen_all : List Happening → IntervalTask → List Action × IntervalTask
happen_all [] t = ([], t)
happen_all (h ∷ hs) t =
    let first = happen h t in let rest = happen_all hs first.1 in (first.0 ++ rest.0, rest.1)
