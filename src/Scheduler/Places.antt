-- ===== src/Scheduler/Places.antt =====
-- Where the threads stand: on the run queue, asleep or current, and never on two of these.
use cf_os.Base.{
  ℕ, ◌≡◌, ◌≢◌, refl, ap, sym, subst, ◌∙◌, Bool, true, false, List, [], ◌∷◌, ◌++◌, arith, ◌==◌,
  ne→==, ==_refl, ==_iff, not, ◌&&◌, ◌||◌, Bool-cases, inl, inr,
}
use cf_os.Base.Distinct.{Absent, Distinct, Distinct-snoc}
use cf_os.Scheduler.{
  Sched, ThreadState, runnable, running, sleeping, null, mem, is_running, update, set_state,
  runqueue_add, runqueue_next, activate_thread, switch_to, switch_next, yield_thread, start, Effect,
}
use cf_os.Scheduler.Fair.{next-nil, next-cons}

-- the two queues of a state, where `q` is taken for the sleepers
pub record Queues (s : Sched) (q : List ℕ) : Type 0 where
  pub idle_set : s.idle ≢ null
  pub distinct_run : Distinct s.run_queue
  pub distinct_sleep : Distinct q
  pub run_ok :
      (t : ℕ) → mem t s.run_queue ≡ true → (s.state t ≡ runnable) × (t ≢ null) × (t ≢ s.idle)
  pub sleep_ok : (t : ℕ) → mem t q ≡ true → (s.state t ≡ sleeping) × (t ≢ null) × (t ≢ s.idle)

pub record InPlace (s : Sched) : Type 0 where
  pub queues : Queues s s.sleep_queue
  pub current_ok : s.current ≢ null → s.state s.current ≡ running

pub mem-Absent : (t : ℕ) (l : List ℕ) → mem t l ≡ false → Absent t l
unfolding mem
mem-Absent t [] h = tt
mem-Absent t (x ∷ l) h = elim (Bool-cases (t == x)) [
  | inl e ↦ absurd (true-ne (rw e at h))
  | inr f ↦ ((λ q. ground (arith, ==_refl x)), mem-Absent t l (rw f at h))
]
  where
    true-ne : true ≡ false → ⊥
    true-ne e = cc

pub Absent-mem : (t : ℕ) (l : List ℕ) → Absent t l → mem t l ≡ false
unfolding mem
Absent-mem t [] h = refl
Absent-mem t (x ∷ l) h = rw (ne→== t x h.0, Absent-mem t l h.1) refl

pub mem-append : (t : ℕ) (l m : List ℕ) → mem t (l ++ m) ≡ (mem t l || mem t m)
unfolding mem
mem-append t [] m = refl
mem-append t (x ∷ l) m = elim (Bool-cases (t == x)) [
  | inl e ↦ rw e refl
  | inr f ↦ rw f (mem-append t l m)
]

pub update_self : (f : ℕ → ThreadState) (a : ℕ) (v : ThreadState) → update f a v a ≡ v
update_self f a v = rw (==_refl a) refl

pub update_ne : (f : ℕ → ThreadState) (a b : ℕ) (v : ThreadState) → a ≢ b → update f a v b ≡ f b
update_ne f a b v h = rw (ne→== a b h) refl

-- An element of a list is the one that is absent from it in no case.
mem-ne : (t a : ℕ) (l : List ℕ) → mem t l ≡ true → mem a l ≡ false → a ≢ t
mem-ne t a l h k e = ground (arith, ap (λ (x : ℕ). mem x l) e)

-- A new state of a thread that stands in neither queue leaves the queues in order.
pub set_state-Queues :
    (s : Sched) (q : List ℕ) (t : ℕ) (v : ThreadState)
    → Queues s q
    → mem t s.run_queue ≡ false
    → mem t q ≡ false
    → Queues (set_state t v s) q
set_state-Queues s q t v h a b = record {
  idle_set = h.idle_set;
  distinct_run = h.distinct_run;
  distinct_sleep = h.distinct_sleep;
  run_ok = λ x m.
      let (st, nz, ni) = h.run_ok x m in
      (update_ne s.state t x v (mem-ne x t s.run_queue m a) ∙ st, nz, ni);
  sleep_ok = λ x m.
      let (st, nz, ni) = h.sleep_ok x m in
      (update_ne s.state t x v (mem-ne x t q m b) ∙ st, nz, ni);
}

mem-snoc_ne : (x y : ℕ) (l : List ℕ) → (y == x) ≡ false → mem x (l ++ y ∷ []) ≡ mem x l
unfolding mem
mem-snoc_ne x y l d =
    mem-append x l (y ∷ []) ∙ rw (ne→== x y (λ z. ground (arith, ==_refl x))) (ground arith)

pub add-sleep_queue : (t : ℕ) (s : Sched) → (runqueue_add t s).sleep_queue ≡ s.sleep_queue
unfolding runqueue_add
add-sleep_queue t s = ground arith

pub add-Queues :
    (s : Sched) (q : List ℕ) (t : ℕ) → Queues s q → mem t q ≡ false → Queues (runqueue_add t s) q
unfolding runqueue_add
add-Queues s q t h out = elim (Bool-cases (t == null || t == s.idle)) [
  | inl e ↦ rw e h
  | inr f ↦ elim (Bool-cases (mem t s.run_queue)) [
    | inl e ↦ rw (f, e) h
    | inr g ↦
        let set_in = set_state-Queues s q t runnable h g out in
        rw (f, g)
          (record {
            idle_set = h.idle_set;
            distinct_run = Distinct-snoc s.run_queue t (mem-Absent t s.run_queue g) h.distinct_run;
            distinct_sleep = h.distinct_sleep;
            run_ok = λ x m. elim (Bool-cases (t == x)) [
              | inl e ↦
                  let same : t ≡ x = (==_iff t x).0 e in
                  (rw e refl, (λ z. ground (arith, same)), (λ z. ground (arith, same)))
              | inr d ↦ set_in.run_ok x (sym (mem-snoc_ne x t s.run_queue d) ∙ m)
            ];
            sleep_ok = set_in.sleep_ok;
          })
  ]
]

-- A thread that stands in no queue becomes current and runs.
pub activate-InPlace :
    (x : ℕ) (s : Sched) (es : List Effect)
    → Queues s s.sleep_queue
    → x ≢ null
    → mem x s.run_queue ≡ false
    → mem x s.sleep_queue ≡ false
    → InPlace (record (activate_thread x s) { effects = es })
unfolding activate_thread
activate-InPlace x s es h nz a b =
    let set_in = set_state-Queues s s.sleep_queue x running h a b in
    rw (ne→== x null nz) (record {
      queues = record {
        idle_set = h.idle_set;
        distinct_run = h.distinct_run;
        distinct_sleep = h.distinct_sleep;
        run_ok = set_in.run_ok;
        sleep_ok = set_in.sleep_ok;
      };
      current_ok = λ _. update_self s.state x running;
    })

switch_to-InPlace :
    (x : ℕ) (s : Sched)
    → Queues s s.sleep_queue
    → x ≢ null
    → mem x s.run_queue ≡ false
    → mem x s.sleep_queue ≡ false
    → InPlace (switch_to x s)
unfolding switch_to
switch_to-InPlace x s h nz a b = elim (Bool-cases (x == s.current)) [
  | inl e ↦
      let same : x ≡ s.current = (==_iff x s.current).0 e in
      let nc : (s.current == null) ≡ false = ne→== s.current null (λ z. nz (same ∙ z)) in
      rw (ne→== x null nz, e, nc)
        (record {
          queues =
              set_state-Queues s s.sleep_queue s.current running h
                (subst (λ t. mem t s.run_queue ≡ false) same a)
                (subst (λ t. mem t s.sleep_queue ≡ false) same b);
          current_ok = λ _. update_self s.state s.current running;
        })
  | inr f ↦ rw (ne→== x null nz, f) (activate-InPlace x s _ h nz a b)
]

pub not_mem : (x : ℕ) (l : List ℕ) → (mem x l ≡ true → ⊥) → mem x l ≡ false
not_mem x l h = elim (Bool-cases (mem x l)) [ inl e ↦ absurd (h e) | inr f ↦ f ]

pub runnable-ne : (v : ThreadState) → v ≡ runnable → v ≡ sleeping → ⊥
runnable-ne v a b = cc

pub running-ne : (v : ThreadState) → is_running v ≡ true → v ≢ runnable
running-ne v a b = ground arith

pub sleeping-ne : (v : ThreadState) → is_running v ≡ true → v ≢ sleeping
sleeping-ne v a b = ground arith

pub or-true : (b : Bool) → (b || true) ≡ true
or-true true = refl
or-true false = refl

-- the next thread stands in no queue any more
pub Free : ℕ × Sched → Type 0
Free r =
    Queues r.1 r.1.sleep_queue
    × (r.0 ≢ null)
    × (mem r.0 r.1.run_queue ≡ false)
    × (mem r.0 r.1.sleep_queue ≡ false)

next-Free : (s : Sched) → Queues s s.sleep_queue → Free (runqueue_next s)
unfolding mem Free
next-Free s h = go s.run_queue refl
  where
    go : (l : List ℕ) → s.run_queue ≡ l → Free (runqueue_next s)
    go [] e = rw (next-nil s e) (
      h,
      h.idle_set,
      not_mem s.idle s.run_queue (λ m. (h.run_ok s.idle m).2 refl),
      not_mem s.idle s.sleep_queue (λ m. (h.sleep_ok s.idle m).2 refl),
    )
    go (x ∷ l) e =
        let d : Distinct (x ∷ l) = subst Distinct e h.distinct_run in
        let front : mem x s.run_queue ≡ true = ap (mem x) e ∙ rw (==_refl x) refl in
        let (st, nz, _) = h.run_ok x front in
        let rest : Queues (record s { run_queue = l }) s.sleep_queue = record {
          idle_set = h.idle_set;
          distinct_run = d.1;
          distinct_sleep = h.distinct_sleep;
          run_ok = λ t m. h.run_ok t (ap (mem t) e ∙ rw (m) (or-true (t == x)));
          sleep_ok = h.sleep_ok;
        } in
        rw (next-cons s x l e) (
          rest,
          nz,
          Absent-mem x l d.0,
          not_mem x s.sleep_queue (λ m. runnable-ne (s.state x) st (h.sleep_ok x m).0),
        )

pub switch_next-InPlace : (s : Sched) → Queues s s.sleep_queue → InPlace (switch_next s)
unfolding switch_next Free
switch_next-InPlace s h = let (q, nz, a, b) = next-Free s h in switch_to-InPlace _ _ q nz a b

pub start-InPlace : (s : Sched) → Queues s s.sleep_queue → InPlace (start s)
unfolding start Free
start-InPlace s h =
    let (q, nz, a, b) = next-Free s h in rw (ne→== _ null nz) (activate-InPlace _ _ _ q nz a b)

pub yield-InPlace : (s : Sched) → Queues s s.sleep_queue → InPlace (yield_thread s)
unfolding yield_thread
yield-InPlace s h =
    elim (Bool-cases
      (not (s.current == null) && not (s.current == s.idle) && is_running (s.state s.current))) [
        | inl e ↦
            let out : mem s.current s.sleep_queue ≡ false =
              not_mem s.current s.sleep_queue
                (λ m. sleeping-ne (s.state s.current) (ground arith) (h.sleep_ok s.current m).0) in
            rw e (
              switch_next-InPlace (runqueue_add s.current s) (
                subst (Queues (runqueue_add s.current s)) (sym (add-sleep_queue s.current s))
                  (add-Queues s s.sleep_queue s.current h out)))
        | inr f ↦ rw f (switch_next-InPlace s h)
      ]
