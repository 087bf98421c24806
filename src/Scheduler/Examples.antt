-- ===== src/Scheduler/Examples.antt =====
-- An idle thread 1 and the threads 2 and 3.
use cf_os.Base.{◌<◌, ◌≡◌, refl, false, [], ◌∷◌, arith}
use cf_os.Scheduler.{
  Sched, runnable, init, start, runqueue_add, runqueue_next, switch_next, switch_to,
  activate_thread, yield_thread, mem, sleep,
}
use cf_os.Scheduler.Fair.{spawn, yield, sleep_for, Runs, run_queue-Runs, yields, step}
use cf_os.Scheduler.Places.{InPlace}
use cf_os.Scheduler.Invariant.{Reach, booted, started, after, Reach-InPlace}

abbrev memory : Sched
memory = record {
  current = 0;
  idle = 0;
  run_queue = [];
  sleep_queue = [];
  reschedule_pending = false;
  ticks = 0;
  state = λ t. runnable;
  wakeup_tick = λ t. 0;
  effects = [];
}

abbrev queued : Sched
queued = step (spawn 3) (step (spawn 2) (init 1 memory))

queued_order : queued.run_queue ≡ 2 ∷ 3 ∷ []
unfolding init runqueue_add mem step
queued_order = refl

two_yields : 1 < yields (yield ∷ yield ∷ [])
unfolding yields
two_yields = omega arith

run_queue-Runs_example : Runs 3 (yield ∷ yield ∷ []) queued
run_queue-Runs_example =
    run_queue-Runs (yield ∷ yield ∷ []) 3 (2 ∷ []) [] queued (omega arith) queued_order two_yields

spawned : Reach queued
unfolding init runqueue_add mem step
spawned =
    after (spawn 3) (step (spawn 2) (init 1 memory))
      (after (spawn 2) (init 1 memory) (booted 1 memory (omega arith)) (omega arith, refl))
      (omega arith, refl)

-- 2 starts, and sleeps for five ticks; 3 runs
abbrev asleep : Sched
asleep = step (sleep_for 5) (start queued)

asleep_order : (asleep.current ≡ 3) × (asleep.sleep_queue ≡ 2 ∷ [])
unfolding init runqueue_add mem step start runqueue_next activate_thread sleep yield_thread
    switch_next switch_to
asleep_order = (refl, refl)

Reach-InPlace_example : InPlace asleep
Reach-InPlace_example =
    Reach-InPlace asleep (after (sleep_for 5) (start queued) (started queued spawned) tt)
