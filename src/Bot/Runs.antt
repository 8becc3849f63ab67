-- ===== src/Bot/Runs.antt =====
-- How the runs of the task lie in time.
use skypier_chat.Prelude.{ℕ, ◌+◌, ◌≡◌, refl, Bool, true, false, List, [], ◌∷◌, ◌++◌, arith}
use skypier_chat.Bot.{
  Action, task_started, error_reported, timer_cleared, IntervalTask, Happening, timer_fired,
  task_ended, stop_called, TaskEnd, done, thrown, invoke_task, end_task, happen, happen_all, report,
}

abbrev pub starts : List Action → ℕ
starts [] = 0
starts (task_started ∷ acts) = starts acts + 1
starts (error_reported e ∷ acts) = starts acts
starts (timer_cleared ∷ acts) = starts acts

abbrev pub bit : Bool → ℕ
bit true = 1
bit false = 0

-- The ends of runs among the happenings: those at which a run is under way.
abbrev pub is_end : Happening → IntervalTask → Bool
is_end timer_fired t = false
is_end (task_ended e) t = t.in_flight
is_end stop_called t = false

abbrev pub ends : List Happening → IntervalTask → ℕ
ends [] t = 0
ends (h ∷ hs) t = bit (is_end h t) + ends hs (happen h t).1

starts-append : (xs ys : List Action) → starts (xs ++ ys) ≡ starts xs + starts ys
starts-append [] ys = omega arith
starts-append (task_started ∷ xs) ys = omega (arith, starts-append xs ys)
starts-append (error_reported e ∷ xs) ys = starts-append xs ys
starts-append (timer_cleared ∷ xs) ys = starts-append xs ys

starts-report : (e : TaskEnd) → starts (report e) ≡ 0
starts-report done = refl
starts-report (thrown e) = refl

starts-happen :
    (h : Happening) (t : IntervalTask)
    → bit t.in_flight + starts (happen h t).0 ≡ bit (is_end h t) + bit (happen h t).1.in_flight
unfolding happen invoke_task end_task
starts-happen timer_fired t = ground arith
starts-happen (task_ended e) t = ground (arith, starts-report e)
starts-happen stop_called t = ground arith

-- Over any sequence of happenings, the runs that begin, with the one under way before them if any,
-- are as many as those that end and the one under way after them if any: a run begins only once
-- the run before it has ended.
pub starts-happen_all :
    (hs : List Happening) (t : IntervalTask)
    → bit t.in_flight + starts (happen_all hs t).0 ≡ ends hs t + bit (happen_all hs t).1.in_flight
starts-happen_all [] t = omega arith
starts-happen_all (h ∷ hs) t = omega (
  arith,
  starts-append (happen h t).0 (happen_all hs (happen h t).1).0,
  starts-happen h t,
  starts-happen_all hs (happen h t).1,
)

happen-stopped :
    (h : Happening) (t : IntervalTask)
    → t.stopped ≡ true
    → (starts (happen h t).0 ≡ 0) × ((happen h t).1.stopped ≡ true)
unfolding happen invoke_task end_task
happen-stopped timer_fired t s = ground arith
happen-stopped (task_ended e) t s = ground (arith, starts-report e)
happen-stopped stop_called t s = (refl, refl)

starts-stopped :
    (hs : List Happening) (t : IntervalTask) → t.stopped ≡ true → starts (happen_all hs t).0 ≡ 0
starts-stopped [] t s = refl
starts-stopped (h ∷ hs) t s =
    let one = happen-stopped h t s in
    omega (
      arith,
      starts-append (happen h t).0 (happen_all hs (happen h t).1).0,
      one.0,
      starts-stopped hs (happen h t).1 one.1,
    )

-- Once the caller has stopped it no run begins any more, also where a run that was under way ends
-- after the stop.
pub starts-stop_called :
    (hs : List Happening) (t : IntervalTask) → starts (happen_all (stop_called ∷ hs) t).0 ≡ 0
unfolding happen
starts-stop_called hs t = starts-stopped hs (record t { stopped = true; timer = false }) refl
