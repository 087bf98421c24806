-- ===== src/ThreadQueue.antt =====
-- The thread queue of src/kernel/sched/queue.c: threads linked by their `next` from `head` to `tail`.
-- The build leaves that file out, and src/kernel/sched/sched.c has a run queue of its own. Threads are cells of a store, of which `next` and `queued` are kept; NULL is 0, and a use of
-- an address without a thread is a `fault`.
pub mod Chain
pub mod Ends
pub mod Remove
mod Examples
use cf_os.Base.{
  ℕ, zero, suc, Bool, true, false, Option, none, some, ◌==◌, if◌then◌else◌, Run, ok, fault, stuck,
}

pub record Thread : Type 0 where
  pub next : ℕ
  pub queued : Bool

pub record Queue : Type 0 where
  pub head : ℕ
  pub tail : ℕ
  pub threads : ℕ → Option Thread

abbrev pub null : ℕ
null = 0

abbrev pub update : (ℕ → Option Thread) → ℕ → Thread → ℕ → Option Thread
update f p v q = if p == q then some v else f q

abbrev pub write : ℕ → Thread → Queue → Queue
write p v s = record s { threads = update s.threads p v }

-- what a pointer to a thread leads to
abbrev pub with_thread {ℓ} : {A : Type ℓ} → ℕ → Queue → (Thread → Run A) → Run A
with_thread p s k = elim (s.threads p) [ none ↦ fault | some th ↦ k th ]

pub init : Queue → Queue
init s = record s { head = null; tail = null }

-- the end of `thread_queue_push`, on a thread that is in no queue
pub link_last : ℕ → Queue → Run Queue
link_last t s =
    if s.head == null
    then ok (record s { head = t; tail = t })
    else with_thread s.tail s
        (λ last. ok (record (write s.tail (record last { next = t }) s) { tail = t }))

pub push : ℕ → Queue → Run Queue
push t s =
    if t == null
    then ok s
    else with_thread t s (λ th.
      if th.queued then ok s else link_last t (write t (record { next = null; queued = true }) s))

-- the body of the loop's `if (cur == thread)`
pub unlink : ℕ → ℕ → Thread → Queue → Run Queue
unlink prev cur th s =
    let finish : Queue → Run Queue = λ s'. ok (
      write cur (record { next = null; queued = false })
        (record s' { tail = if s'.tail == cur then prev else s'.tail })) in
    if prev == null
    then finish (record s { head = th.next })
    else with_thread prev s (λ p. finish (write prev (record p { next = th.next }) s))

-- the loop, from `cur` with `prev` before it
pub find_unlink : ℕ → ℕ → ℕ → ℕ → Queue → Run Queue
find_unlink zero prev cur t s = stuck
find_unlink (suc n) prev cur t s =
    let rest : ℕ → Run Queue = λ next. find_unlink n cur next t s in
    if cur == null
    then ok s
    else with_thread cur s (λ th. if cur == t then unlink prev cur th s else rest th.next)

-- `rounds` bounds the walk.
pub remove : ℕ → ℕ → Queue → Run Queue
remove rounds t s = if t == null then ok s else find_unlink rounds null s.head t s

pub pop : Queue → Run (ℕ × Queue)
pop s =
    if s.head == null
    then ok (null, s)
    else with_thread s.head s (λ th. ok (
      s.head,
      write s.head (record { next = null; queued = false })
          (record s { head = th.next; tail = if th.next == null then null else s.tail }),
    ))

pub front : Queue → ℕ
front s = s.head

pub is_empty : Queue → Bool
is_empty s = s.head == null
