-- ===== src/Scheduler/Fair.antt =====
-- Waiting in the run queue: how the place of a thread changes with every event.
use cf_os.Base.{
  ℕ, zero, suc, ◌+◌, ◌%◌, ◌^◌, ◌≤◌, ◌<◌, ◌≡◌, ◌≢◌, ◌⊎◌, refl, ap, ◌∙◌, List, [], ◌∷◌, ◌++◌, arith,
  leb, ◌==◌, length, if◌then◌else◌, not, ◌&&◌, ◌||◌, Bool-cases, inl, inr, append_assoc,
}
use cf_os.Scheduler.{
  Sched, zombie, null, mem, is_running, update, set_state, runqueue_add, runqueue_next,
  activate_thread, switch_to, switch_next, yield_thread, sleep, wake, wake_sleepers, tick,
  maybe_resched, exit_thread,
}

-- a timer interrupt, its part in the scheduler, the return from it, and the calls of threads
pub data Event : Type 0 where
  pit interrupt resched yield exit : Event
  sleep_for spawn : ℕ → Event

unfoldable pub step : Event → Sched → Sched
step pit s = record s { ticks = (s.ticks + 1) % 2 ^ 32 }
step interrupt s = tick s
step resched s = maybe_resched s
step yield s = yield_thread s
step exit s = exit_thread s
step (sleep_for n) s = sleep n s
step (spawn t) s = runqueue_add t s

-- the events that surely give the processor away
abbrev pub hands_over : Event → ℕ
hands_over yield = 1
hands_over exit = 1
hands_over _ = 0

unfoldable pub yields : List Event → ℕ
yields [] = 0
yields (e ∷ evs) = hands_over e + yields evs

-- the thread is the current one after one of the events
pub Runs : ℕ → List Event → Sched → Type 0
Runs t [] s = ⊥
Runs t (e ∷ evs) s = ((step e s).current ≡ t) ⊎ Runs t evs (step e s)

-- behind at most `n` others in the run queue
record Waits (t n : ℕ) (s : Sched) : Type 0 where
  before : List ℕ
  behind : List ℕ
  place : s.run_queue ≡ before ++ t ∷ behind
  near : length before ≤ n

-- Adding a thread leaves the places of those who wait.
add-Waits : (a t n : ℕ) (s : Sched) → Waits t n s → Waits t n (runqueue_add a s)
unfolding runqueue_add
add-Waits a t n s w = elim (Bool-cases (a == null || a == s.idle)) [
  | inl e ↦ rw e w
  | inr f ↦ elim (Bool-cases (mem a s.run_queue)) [
    | inl e ↦ rw (f, e) w
    | inr g ↦
        rw (f, g)
          (record {
            before = w.before;
            behind = w.behind ++ a ∷ [];
            place = ap (λ l. l ++ a ∷ []) w.place ∙ append_assoc w.before (t ∷ w.behind) (a ∷ []);
            near = w.near;
          })
  ]
]

-- Only the run queue matters.
same-Waits : (t n : ℕ) (s s' : Sched) → s'.run_queue ≡ s.run_queue → Waits t n s → Waits t n s'
same-Waits t n s s' e w = record {
  before = w.before;
  behind = w.behind;
  place = e ∙ w.place;
  near = w.near;
}

wake-Waits : (l : List ℕ) (t n : ℕ) (s : Sched) → Waits t n s → Waits t n (wake l s).1
unfolding wake
wake-Waits [] t n s w = w
wake-Waits (a ∷ l) t n s w = elim (Bool-cases (leb (s.wakeup_tick a) s.ticks)) [
  | inl e ↦ rw e (
      wake-Waits l t n _ (
        add-Waits a t n (record s { wakeup_tick = update s.wakeup_tick a 0 })
          (same-Waits t n s _ refl w)))
  | inr f ↦ rw f (wake-Waits l t n s w)
]

pub next-nil : (s : Sched) → s.run_queue ≡ [] → runqueue_next s ≡ (s.idle, s)
unfolding runqueue_next
next-nil s e =
    ap
      (λ q. elim q as (λ _. ℕ × Sched) [
        | [] ↦ (s.idle, s)
        | y ∷ r ↦ (y, record s { run_queue = r })
      ])
      e

pub next-cons :
    (s : Sched) (x : ℕ) (l : List ℕ)
    → s.run_queue ≡ x ∷ l
    → runqueue_next s ≡ (x, record s { run_queue = l })
unfolding runqueue_next
next-cons s x l e =
    ap
      (λ q. elim q as (λ _. ℕ × Sched) [
        | [] ↦ (s.idle, s)
        | y ∷ r ↦ (y, record s { run_queue = r })
      ])
      e

switch_to-run_queue : (x : ℕ) (s : Sched) → (switch_to x s).run_queue ≡ s.run_queue
unfolding switch_to activate_thread
switch_to-run_queue x s = ground arith

switch_to-current : (x : ℕ) (s : Sched) → x ≢ null → (switch_to x s).current ≡ x
unfolding switch_to activate_thread
switch_to-current x s nz = ground arith

-- A switch takes the thread, or brings it one place nearer.
switch-Waits :
    (t n : ℕ) (s : Sched)
    → t ≢ null
    → Waits t n s
    → ((switch_next s).current ≡ t) ⊎ ((m : ℕ) × (n ≡ suc m) × Waits t m (switch_next s))
unfolding switch_next
switch-Waits t n s nz w = go w.before n w.place w.near
  where
    go :
        (before : List ℕ) (n : ℕ)
        → s.run_queue ≡ before ++ t ∷ w.behind
        → length before ≤ n
        → ((switch_next s).current ≡ t) ⊎ ((m : ℕ) × (n ≡ suc m) × Waits t m (switch_next s))
    go [] n e h = rw (next-cons s t w.behind e) (inl (switch_to-current t _ nz))
    go (x ∷ before) zero e h = absurd (omega arith)
    go (x ∷ before) (suc m) e h =
        let s1 : Sched = record s { run_queue = before ++ t ∷ w.behind } in
        rw (next-cons s x (before ++ t ∷ w.behind) e) (
          inr (
            m,
            refl,
            same-Waits t m s1 (switch_to x s1) (switch_to-run_queue x s1)
                (record { before = before; behind = w.behind; place = refl; near = omega arith }),
          ))

yield-Waits :
    (t n : ℕ) (s : Sched)
    → t ≢ null
    → Waits t n s
    → ((yield_thread s).current ≡ t) ⊎ ((m : ℕ) × (n ≡ suc m) × Waits t m (yield_thread s))
unfolding yield_thread
yield-Waits t n s nz w =
    elim (Bool-cases
      (not (s.current == null) && not (s.current == s.idle) && is_running (s.state s.current))) [
        | inl e ↦ rw e (switch-Waits t n _ nz (add-Waits s.current t n s w))
        | inr f ↦ rw f (switch-Waits t n s nz w)
      ]

-- what an event that counts `h` leaves of a wait behind `n`
abbrev Nearer : ℕ → ℕ → ℕ → Sched → Type 0
Nearer t h n s' = (s'.current ≡ t) ⊎ ((m : ℕ) × (h + m ≤ n) × Waits t m s')

counted :
    (t h n : ℕ) (s' : Sched)
    → h ≤ 1
    → (s'.current ≡ t) ⊎ ((m : ℕ) × (n ≡ suc m) × Waits t m s')
    → Nearer t h n s'
counted t h n s' small (inl c) = inl c
counted t h n s' small (inr (m, e, w)) = inr (m, omega arith, w)

exit-Waits :
    (t n : ℕ) (s : Sched)
    → Waits t n s
    → Waits t n (if s.current == null then s else set_state s.current zombie s)
exit-Waits t n s w = elim (Bool-cases (s.current == null)) [
  | inl e ↦ rw e w
  | inr f ↦ rw f (same-Waits t n s _ refl w)
]

nearer :
    (t n : ℕ) (e : Event) (s : Sched)
    → t ≢ null
    → Waits t n s
    → Nearer t (hands_over e) n (step e s)
unfolding step tick maybe_resched exit_thread sleep wake_sleepers
nearer t n pit s nz w = inr (n, omega arith, same-Waits t n s _ refl w)
nearer t n interrupt s nz w =
    let woken = wake s.sleep_queue s in
    inr (n, omega arith, same-Waits t n woken.1 _ refl (wake-Waits s.sleep_queue t n s w))
nearer t n resched s nz w = elim (Bool-cases s.reschedule_pending) [
  | inl e ↦
      simp e (counted t 0 n _ (omega arith) (yield-Waits t n _ nz (same-Waits t n s _ refl w)))
  | inr f ↦ simp f (inr (n, omega arith, w))
]
nearer t n yield s nz w = counted t 1 n _ (omega arith) (yield-Waits t n s nz w)
nearer t n exit s nz w = counted t 1 n _ (omega arith) (yield-Waits t n _ nz (exit-Waits t n s w))
nearer t n (sleep_for k) s nz w = elim (Bool-cases (s.current == null || s.current == s.idle)) [
  | inl e ↦ rw e (inr (n, omega arith, w))
  | inr f ↦ rw f (counted t 0 n _ (omega arith) (yield-Waits t n _ nz (same-Waits t n s _ refl w)))
]
nearer t n (spawn a) s nz w = inr (n, omega arith, add-Waits a t n s w)

Waits-Runs :
    (evs : List Event) (t n : ℕ) (s : Sched)
    → t ≢ null
    → Waits t n s
    → n < yields evs
    → Runs t evs s
unfolding yields Runs
Waits-Runs [] t n s nz w h = absurd (omega arith)
Waits-Runs (e ∷ evs) t n s nz w h = elim (nearer t n e s nz w) [
  | inl c ↦ inl c
  | inr (m, less, w') ↦ inr (Waits-Runs evs t m (step e s) nz w' (omega arith))
]

-- A thread that stands in the run queue with k threads before it becomes the current thread in the
-- course of any sequence of scheduler events with more than k yields and exits, whatever else is
-- spawned, put to sleep or woken meanwhile.
pub run_queue-Runs :
    (evs : List Event) (t : ℕ) (before behind : List ℕ) (s : Sched)
    → t ≢ null
    → s.run_queue ≡ before ++ t ∷ behind
    → length before < yields evs
    → Runs t evs s
run_queue-Runs evs t before behind s nz place h =
    Waits-Runs evs t (length before) s nz
      (record { before = before; behind = behind; place = place; near = omega arith }) h
