-- ===== src/Scheduler/Invariant.antt =====
-- The events of the scheduler on the places of the threads.
use cf_os.Base.{
  ℕ, ◌≡◌, ◌≢◌, refl, ap, sym, subst, ◌∙◌, Bool, true, false, List, [], ◌∷◌, ◌++◌, arith, leb, ◌==◌,
  ne→==, ==_refl, ==_iff, ◌||◌, Bool-cases, inl, inr, append_assoc,
}
use cf_os.Base.Distinct.{Distinct-middle}
use cf_os.Scheduler.{
  Sched, runnable, running, sleeping, zombie, null, mem, is_running, update, set_state,
  runqueue_add, sleep, deadline, wake, wake_sleepers, tick, maybe_resched, exit_thread, init, start,
}
use cf_os.Scheduler.Fair.{Event, pit, interrupt, resched, yield, exit, sleep_for, spawn, step}
use cf_os.Scheduler.Places.{
  Queues, InPlace, mem-Absent, Absent-mem, mem-append, update_ne, set_state-Queues, add-Queues,
  add-sleep_queue, not_mem, running-ne, sleeping-ne, or-true, yield-InPlace, start-InPlace,
}

-- the current thread stands in neither queue
current-outside :
    (s : Sched)
    → InPlace s
    → s.current ≢ null
    → (mem s.current s.run_queue ≡ false) × (mem s.current s.sleep_queue ≡ false)
current-outside s p nz =
    let runs : is_running (s.state s.current) ≡ true = ap is_running (p.current_ok nz) in
    (
      not_mem s.current s.run_queue
          (λ m. running-ne (s.state s.current) runs (p.queues.run_ok s.current m).0),
      not_mem s.current s.sleep_queue
          (λ m. sleeping-ne (s.state s.current) runs (p.queues.sleep_ok s.current m).0),
    )

exit-InPlace : (s : Sched) → InPlace s → InPlace (exit_thread s)
unfolding exit_thread
exit-InPlace s p = elim (Bool-cases (s.current == null)) [
  | inl e ↦ rw e (yield-InPlace s p.queues)
  | inr f ↦
      let (a, b) = current-outside s p (λ z. ground (arith, ==_refl null)) in
      rw f (
        yield-InPlace (set_state s.current zombie s)
          (set_state-Queues s s.sleep_queue s.current zombie p.queues a b))
]

sleep-InPlace : (n : ℕ) (s : Sched) → InPlace s → InPlace (sleep n s)
unfolding sleep mem
sleep-InPlace n s p = elim (Bool-cases (s.current == null || s.current == s.idle)) [
  | inl e ↦ rw e p
  | inr f ↦
      let nz : s.current ≢ null = λ z. ground (arith) in
      let ni : s.current ≢ s.idle = λ z. ground (arith) in
      let (a, b) = current-outside s p nz in
      let set_in = set_state-Queues s s.sleep_queue s.current sleeping p.queues a b in
      let h : Queues _ (s.current ∷ s.sleep_queue) = record {
        idle_set = p.queues.idle_set;
        distinct_run = p.queues.distinct_run;
        distinct_sleep = (mem-Absent s.current s.sleep_queue b, p.queues.distinct_sleep);
        run_ok = set_in.run_ok;
        sleep_ok = λ t m. elim (Bool-cases (s.current == t)) [
          | inl e ↦
              let same : s.current ≡ t = (==_iff s.current t).0 e in
              (rw e refl, (λ z. nz (same ∙ z)), (λ z. ni (same ∙ z)))
          | inr d ↦ set_in.sleep_ok t (rw (ne→== t s.current (λ z. ground (arith, ==_refl t))) at m)
        ];
      } in
      rw f (
        yield-InPlace
          (record s {
            wakeup_tick = update s.wakeup_tick s.current (deadline s.ticks n);
            state = update s.state s.current sleeping;
            sleep_queue = s.current ∷ s.sleep_queue;
          })
          h)
]

mem-middle : (t : ℕ) (b l : List ℕ) → mem t (b ++ t ∷ l) ≡ true
unfolding mem
mem-middle t b l = mem-append t b (t ∷ l) ∙ rw (==_refl t) (or-true (mem t b))

-- One sleeper less.
drop-Queues :
    (s : Sched) (before l : List ℕ) (t : ℕ)
    → Queues s (before ++ t ∷ l)
    → Queues s (before ++ l) × (mem t (before ++ l) ≡ false)
unfolding mem
drop-Queues s before l t h =
    let (out, d) = Distinct-middle t before l h.distinct_sleep in
    (
      record {
        idle_set = h.idle_set;
        distinct_run = h.distinct_run;
        distinct_sleep = d;
        run_ok = h.run_ok;
        sleep_ok = λ x m. h.sleep_ok x (
            mem-append x before (t ∷ l)
            ∙ wider (mem x before) (x == t) (mem x l) (sym (mem-append x before l) ∙ m));
      },
      Absent-mem t (before ++ l) out,
    )
  where
    wider : (a b c : Bool) → (a || c) ≡ true → (a || (b || c)) ≡ true
    wider true b c h = refl
    wider false b true h = or-true b
    wider false b false h = absurd (cc)

-- The queues do not depend on the clock's part of the state.
clock-Queues :
    (s : Sched) (q k : List ℕ) (f : ℕ → ℕ) (n : ℕ) (b : Bool)
    → Queues s q
    → Queues (record s { wakeup_tick = f; ticks = n; reschedule_pending = b; sleep_queue = k }) q
clock-Queues s q k f n b h = record {
  idle_set = h.idle_set;
  distinct_run = h.distinct_run;
  distinct_sleep = h.distinct_sleep;
  run_ok = h.run_ok;
  sleep_ok = h.sleep_ok;
}

add-current : (t : ℕ) (s : Sched) → (runqueue_add t s).current ≡ s.current
unfolding runqueue_add
add-current t s = ground arith

add-state : (t a : ℕ) (s : Sched) → t ≢ a → (runqueue_add t s).state a ≡ s.state a
unfolding runqueue_add
add-state t a s ne = ground (arith, update_ne s.state t a runnable ne)

abbrev CurrentRuns : Sched → Type 0
CurrentRuns s = s.current ≢ null → s.state s.current ≡ running

add-CurrentRuns :
    (t : ℕ) (s : Sched) → s.state t ≡ sleeping → CurrentRuns s → CurrentRuns (runqueue_add t s)
add-CurrentRuns t s asleep c nz =
    let same = add-current t s in
    let runs = c (λ z. nz (same ∙ z)) in
    let ne : t ≢ s.current =
      λ e. sleeping-ne (s.state s.current) (ap is_running runs) (sym (ap s.state e) ∙ asleep) in
    ap (runqueue_add t s).state same ∙ add-state t s.current s ne ∙ runs

wake-InPlace :
    (l before : List ℕ) (s : Sched)
    → Queues s (before ++ l)
    → CurrentRuns s
    → Queues (wake l s).1 (before ++ (wake l s).0) × CurrentRuns (wake l s).1
unfolding wake
wake-InPlace [] before s h c = (h, c)
wake-InPlace (t ∷ l) before s h c = elim (Bool-cases (leb (s.wakeup_tick t) s.ticks)) [
  | inl e ↦
      let (rest, out) = drop-Queues s before l t h in
      let s1 : Sched = record s { wakeup_tick = update s.wakeup_tick t 0 } in
      let asleep = (h.sleep_ok t (mem-middle t before l)).0 in
      rw e (
        wake-InPlace l before (runqueue_add t s1)
          (add-Queues s1 (before ++ l) t (clock-Queues s (before ++ l) _ _ _ _ rest) out)
          (add-CurrentRuns t s1 asleep c))
  | inr f ↦
      let moved : (before ++ t ∷ []) ++ l ≡ before ++ t ∷ l = append_assoc before (t ∷ []) l in
      let (h', c') = wake-InPlace l (before ++ t ∷ []) s (subst (Queues s) (sym moved) h) c in
      rw f (subst (Queues (wake l s).1) (append_assoc before (t ∷ []) (wake l s).0) h', c')
]

add-InPlace :
    (t : ℕ) (s : Sched)
    → t ≢ s.current
    → mem t s.sleep_queue ≡ false
    → InPlace s
    → InPlace (runqueue_add t s)
add-InPlace t s ne out p = record {
  queues =
      subst (Queues (runqueue_add t s)) (sym (add-sleep_queue t s))
        (add-Queues s s.sleep_queue t p.queues out);
  current_ok = λ nz.
      let same = add-current t s in
      ap (runqueue_add t s).state same
      ∙ add-state t s.current s ne
      ∙ p.current_ok (λ z. nz (same ∙ z));
}

-- Only a thread that is neither current nor asleep is added from outside.
abbrev pub Allowed : Event → Sched → Type 0
Allowed (spawn t) s = (t ≢ s.current) × (mem t s.sleep_queue ≡ false)
Allowed _ s = Unit {0}

-- the states from `sched_init`, with an idle thread, over `sched_start` and the events
pub data Reach : Sched → Type 0 where
  booted : (idle : ℕ) (s : Sched) → idle ≢ null → Reach (init idle s)
  started : (s : Sched) → Reach s → Reach (start s)
  after : (e : Event) (s : Sched) → Reach s → Allowed e s → Reach (step e s)

step-InPlace : (e : Event) (s : Sched) → InPlace s → Allowed e s → InPlace (step e s)
unfolding step tick maybe_resched wake_sleepers
step-InPlace pit s p a = record {
  queues = clock-Queues s s.sleep_queue _ _ _ _ p.queues;
  current_ok = p.current_ok;
}
step-InPlace interrupt s p a =
    let (h, c) = wake-InPlace s.sleep_queue [] s p.queues p.current_ok in
    record { queues = clock-Queues _ _ _ _ _ _ h; current_ok = c }
step-InPlace resched s p a = elim (Bool-cases s.reschedule_pending) [
  | inl e ↦ simp e (yield-InPlace _ (clock-Queues s s.sleep_queue _ _ _ false p.queues))
  | inr f ↦ simp f p
]
step-InPlace yield s p a = yield-InPlace s p.queues
step-InPlace exit s p a = exit-InPlace s p
step-InPlace (sleep_for n) s p a = sleep-InPlace n s p
step-InPlace (spawn t) s p a = add-InPlace t s a.0 a.1 p

init-InPlace : (idle : ℕ) (s : Sched) → idle ≢ null → InPlace (init idle s)
unfolding init mem
init-InPlace idle s nz = record {
  queues = record {
    idle_set = nz;
    distinct_run = tt;
    distinct_sleep = tt;
    run_ok = λ t m. absurd (cc);
    sleep_ok = λ t m. absurd (cc);
  };
  current_ok = λ c. absurd (c refl);
}

-- In every state that scheduler events reach from boot with an idle thread, where only threads that
-- are neither current nor asleep are added from outside, the run queue and the sleep queue hold no
-- thread twice and none in both, threads in the run queue are runnable, those in the sleep queue
-- asleep, and the current thread, if there is one, runs and is in neither.
pub Reach-InPlace : (s : Sched) → Reach s → InPlace s
Reach-InPlace s (booted idle s0 nz) = init-InPlace idle s0 nz
Reach-InPlace s (started s0 r) = start-InPlace s0 (Reach-InPlace s0 r).queues
Reach-InPlace s (after e s0 r a) = step-InPlace e s0 (Reach-InPlace s0 r) a
