-- ===== src/Scheduler.antt =====
-- The scheduler (src/kernel/sched/sched.c, and the sleeping calls of thread.c). Threads are addresses
-- and NULL is 0. `run_queue` and `sleep_queue` are the threads in the order of their links; a thread's
-- `run_link` leads to another link exactly while it stands in `run_queue`. A switch to another thread
-- is a change of `g_current`, with the processor's part of it in a list of effects.
pub mod Fair
pub mod Places
pub mod Invariant
mod Examples
use cf_os.Base.{
  ℕ, zero, suc, ◌+◌, ◌/◌, ◌%◌, ◌^◌, Bool, true, false, not, ◌&&◌, ◌||◌, Option, none, some, List,
  [], ◌∷◌, ◌++◌, ◌==◌, leb, if◌then◌else◌,
}

abbrev pub null : ℕ
null = 0

pub data ThreadState : Type 0 where
  runnable running zombie sleeping : ThreadState

abbrev pub is_running : ThreadState → Bool
is_running running = true
is_running _ = false

-- `activate` is the stack for the next interrupt and the page directory, `switch` is `context_switch`
pub data Effect : Type 0 where
  activate : ℕ → Effect
  switch : ℕ → ℕ → Effect

pub record Sched : Type 0 where
  pub current : ℕ
  pub idle : ℕ
  pub run_queue : List ℕ
  pub sleep_queue : List ℕ
  pub reschedule_pending : Bool
  pub ticks : ℕ
  pub state : ℕ → ThreadState
  pub wakeup_tick : ℕ → ℕ
  pub effects : List Effect

pub mem : ℕ → List ℕ → Bool
mem t [] = false
mem t (x ∷ l) = t == x || mem t l

abbrev pub update {ℓ} : {A : Type ℓ} → (ℕ → A) → ℕ → A → ℕ → A
update f p v q = if p == q then v else f q

abbrev pub set_state : ℕ → ThreadState → Sched → Sched
set_state t v s = record s { state = update s.state t v }

pub runqueue_add : ℕ → Sched → Sched
runqueue_add t s =
    if t == null || t == s.idle
    then s
    else if mem t s.run_queue
    then s
    else record s { state = update s.state t runnable; run_queue = s.run_queue ++ t ∷ [] }

pub without : ℕ → List ℕ → List ℕ
without t [] = []
without t (x ∷ l) = let rest = without t l in if t == x then l else x ∷ rest

pub runqueue_remove : ℕ → Sched → Sched
runqueue_remove t s = if t == null then s else record s { run_queue = without t s.run_queue }

pub runqueue_next : Sched → ℕ × Sched
runqueue_next s = elim s.run_queue [ [] ↦ (s.idle, s) | x ∷ l ↦ (x, record s { run_queue = l }) ]

pub activate_thread : ℕ → Sched → Sched
activate_thread t s = if t == null then s else record s {
  current = t;
  state = update s.state t running;
  effects = s.effects ++ activate t ∷ [];
}

-- `idle` is what `malloc` and `thread_create` lead to, or NULL
pub init : ℕ → Sched → Sched
init idle s = record s {
  current = null;
  idle = idle;
  run_queue = [];
  sleep_queue = [];
  reschedule_pending = false;
  ticks = 0;
}

pub start : Sched → Sched
start s =
    let (next, s') = runqueue_next s in
    if next == null
    then s'
    else (let s'' = activate_thread next s' in
        record s'' { effects = s''.effects ++ switch null next ∷ [] })

-- the end of `ksched_yield`, with the next thread taken from the run queue
pub switch_to : ℕ → Sched → Sched
switch_to next s =
    if next == null || next == s.current
    then if s.current == null then s else set_state s.current running s
    else (let s' = activate_thread next s in
        record s' { effects = s'.effects ++ switch s.current next ∷ [] })

pub switch_next : Sched → Sched
switch_next s = let (next, s') = runqueue_next s in switch_to next s'

pub yield_thread : Sched → Sched
yield_thread s = switch_next (
    if not (s.current == null) && not (s.current == s.idle) && is_running (s.state s.current)
    then runqueue_add s.current s
    else s)

-- `(u64)g_pit_ticks + (ticks ? ticks : 1)`
abbrev pub deadline : ℕ → ℕ → ℕ
deadline now ticks = (now + (if ticks == 0 then 1 else ticks)) % 2 ^ 64

pub sleep : ℕ → Sched → Sched
sleep ticks s =
    if s.current == null || s.current == s.idle
    then s
    else yield_thread (record s {
      wakeup_tick = update s.wakeup_tick s.current (deadline s.ticks ticks);
      state = update s.state s.current sleeping;
      sleep_queue = s.current ∷ s.sleep_queue;
    })

-- `thread_sleep`, with the u32 sum
pub thread_sleep : ℕ → Sched → Sched
thread_sleep milliseconds s = sleep ((milliseconds + 9) % 2 ^ 32 / 10) s

-- the walk over the sleepers: those left, and the state with the others on the run queue
pub wake : List ℕ → Sched → List ℕ × Sched
wake [] s = ([], s)
wake (t ∷ l) s =
    let due = leb (s.wakeup_tick t) s.ticks in
    let woken : Sched = runqueue_add t (record s { wakeup_tick = update s.wakeup_tick t 0 }) in
    let (kept, s') = wake l (if due then woken else s) in (if due then kept else t ∷ kept, s')

pub wake_sleepers : Sched → Sched
wake_sleepers s = let (kept, s') = wake s.sleep_queue s in record s' { sleep_queue = kept }

pub tick : Sched → Sched
tick s = record (wake_sleepers s) { reschedule_pending = true }

pub maybe_resched : Sched → Sched
maybe_resched s =
    if s.reschedule_pending then yield_thread (record s { reschedule_pending = false }) else s

-- `thread_exit` of a thread that belongs to no process
pub exit_thread : Sched → Sched
exit_thread s = yield_thread (if s.current == null then s else set_state s.current zombie s)
