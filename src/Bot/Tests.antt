-- ===== src/Bot/Tests.antt =====
-- Runs of an interval task.
use skypier_chat.Prelude.{◌+◌, ◌≡◌, refl, none, List, [], ◌∷◌}
use skypier_chat.Bot.{
  Happening, timer_fired, task_ended, stop_called, done, thrown, IntervalTask, happen_all, happen,
  invoke_task, end_task, run_interval_task,
}
use skypier_chat.Bot.Runs.{starts, ends, bit, starts-happen_all, starts-stop_called}

abbrev begun : IntervalTask
unfolding run_interval_task invoke_task
begun = (run_interval_task (record { interval_ms = 20; run_immediately = none })).1

abbrev busy : List Happening
busy = timer_fired ∷ task_ended (thrown "offline") ∷ timer_fired ∷ task_ended done ∷ []

busy_runs : starts (happen_all busy begun).0 ≡ 1
unfolding happen invoke_task end_task run_interval_task
busy_runs = refl

starts-happen_all_example :
    bit begun.in_flight + starts (happen_all busy begun).0
    ≡ ends busy begun + bit (happen_all busy begun).1.in_flight
starts-happen_all_example = starts-happen_all busy begun

starts-stop_called_example : starts (happen_all (stop_called ∷ busy) begun).0 ≡ 0
starts-stop_called_example = starts-stop_called busy begun
