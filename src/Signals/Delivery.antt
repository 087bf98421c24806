-- ===== src/Signals/Delivery.antt =====
-- `signal_fetch` and `signal_has_pending_unmasked` in terms of what waits and what is masked.
use cf_os.Base.{
  ℕ, zero, suc, ◌+◌, ◌≤◌, ◌<◌, ◌≡◌, ◌≢◌, refl, ap, sym, subst, ◌∙◌, Bool, true, false, Option, some,
  none, List, [], ◌∷◌, arith, leb, ◌==◌, length, if◌then◌else◌, ==_iff, not, ◌&&◌, Bool-cases,
  Option-cases, inl, inr,
}
use cf_os.Base.Int.{ℤ, pos, eqb_ℤ}
use cf_os.SignalQueue.{Entry, ret_ok, ret_no_entry, payload, dequeue}
use cf_os.SignalQueue.Invariant.{IsValid, dequeue-IsValid}
use cf_os.SignalQueue.Fifo.{contents, pop, queries_lem, dequeue_refines}
use cf_os.Signals.{
  State, SigSet, sigismember, sigdelset, is_deliverable, first_deliverable, first_pending,
  realtime_ready, signal_fetch, signal_has_pending_unmasked, or_queue, given,
}
use cf_os.Signals.Sets.{IsSigSet, sigdelset-IsSigSet, members_lem}

pub record IsSound (s : State) : Type 0 where
  pub mask : IsSigSet s.mask
  pub pending : IsSigSet s.pending
  pub queue : IsValid s.rt_queue

-- the oldest of those that wait, unless it is masked
pub oldest : SigSet → List Entry → Option Entry
oldest mask [] = none
oldest mask (e ∷ l) = if not (sigismember mask e.sig) then some e else none

abbrev pub waiting : State → List Entry
waiting s = contents s.rt_queue

-- no real-time signal can be delivered: none waits, or the oldest is masked
abbrev pub IsBlocked : State → Type 0
IsBlocked s = oldest s.mask (waiting s) ≡ none

-- what a fetch returns, and whether `signal_has_pending_unmasked` announced a signal before it
pub data Fetched (s : State) : ℤ × Option Entry × Option State → Bool → Type 0 where
  realtime :
      (e : Entry) (rest : List Entry) (s' : State)
      → waiting s ≡ e ∷ rest
      → sigismember s.mask e.sig ≡ false
      → waiting s' ≡ rest
      → s'.pending ≡ s.pending
      → s'.mask ≡ s.mask
      → IsSound s'
      → Fetched s (ret_ok, some e, some s') true
  ordinary :
      (sig : ℕ) (s' : State)
      → IsBlocked s
      → 0 < sig
      → sig ≤ 64
      → is_deliverable s (pos sig) ≡ true
      → ((j : ℕ) → 0 < j → j < sig → is_deliverable s (pos j) ≡ false)
      → ((j : ℕ)
          → 0 < j
          → j ≤ 64
          → sigismember s'.pending (pos j) ≡ (not (j == sig) && sigismember s.pending (pos j)))
      → s'.mask ≡ s.mask
      → s'.rt_queue ≡ s.rt_queue
      → IsSound s'
      → Fetched s (ret_ok, some (payload (pos sig) none), some s') true
  nothing :
      IsBlocked s
      → ((j : ℕ) → 0 < j → j ≤ 64 → is_deliverable s (pos j) ≡ false)
      → Fetched s (ret_no_entry, none, some s) false

-- the loop over the ordinary signals finds the lowest that can be delivered
data Lowest (s : State) (sig n : ℕ) : Option ℕ → Type 0 where
  found :
      (k : ℕ)
      → sig ≤ k
      → k < sig + n
      → is_deliverable s (pos k) ≡ true
      → ((j : ℕ) → sig ≤ j → j < k → is_deliverable s (pos j) ≡ false)
      → Lowest s sig n (some k)
  absent :
      ((j : ℕ) → sig ≤ j → j < sig + n → is_deliverable s (pos j) ≡ false) → Lowest s sig n none

first_deliverable-Lowest : (s : State) (n sig : ℕ) → Lowest s sig n (first_deliverable n sig s)
unfolding first_deliverable
first_deliverable-Lowest s zero sig = absent (λ j a b. absurd (omega arith))
first_deliverable-Lowest s (suc n) sig = elim (Bool-cases (is_deliverable s (pos sig))) [
  | inl t ↦ rw t (found sig (omega arith) (omega arith) t (λ j a b. absurd (omega arith)))
  | inr f ↦
      rw f (later (first_deliverable n (sig + 1) s) f (first_deliverable-Lowest s n (sig + 1)))
]
  where
    at_or_after : (j : ℕ) (P : ℕ → Type 0) → P sig → (sig + 1 ≤ j → P j) → sig ≤ j → P j
    at_or_after j P here after h = elim (Bool-cases (sig == j)) [
      | inl t ↦ subst P ((==_iff sig j).0 t) here
      | inr f ↦ after (ground arith)
    ]

    later :
        (o : Option ℕ)
        → is_deliverable s (pos sig) ≡ false
        → Lowest s (sig + 1) n o
        → Lowest s sig (suc n) o
    later o f (found k a b c d) =
        found k (omega arith) (omega arith) c
          (λ j p q. at_or_after j (λ i. is_deliverable s (pos i) ≡ false) f (λ r. d j r q) p)
    later o f (absent d) = absent (λ j p q.
        at_or_after j (λ i. is_deliverable s (pos i) ≡ false) f (λ r. d j r (omega arith)) p)

leb-suc : (n : ℕ) → leb (suc n) 0 ≡ false
leb-suc n = ground arith

realtime_ready-oldest :
    (s : State) → IsValid s.rt_queue → realtime_ready s ≡ oldest s.mask (waiting s)
unfolding realtime_ready oldest pop
realtime_ready-oldest s v =
    let (_, none_left, _, head) = queries_lem s.rt_queue v in rw (none_left, head) (go (waiting s))
  where
    go :
        (l : List Entry)
        → (if leb (length l) 0
            then none
            else (if eqb_ℤ (pop l).0 ret_ok
                then (elim (pop l).1 [
                  | none ↦ none
                  | some x ↦ if not (sigismember s.mask x.sig) then some x else none
                ])
                else none))
          ≡ oldest s.mask l
    go [] = refl
    go (e ∷ l) = rw (leb-suc (length l)) refl

-- a list whose oldest can be delivered
data Ready (mask : SigSet) (e : Entry) : List Entry → Type 0 where
  front : (rest : List Entry) → sigismember mask e.sig ≡ false → Ready mask e (e ∷ rest)

oldest-Ready :
    (mask : SigSet) (e : Entry) (l : List Entry) → oldest mask l ≡ some e → Ready mask e l
unfolding oldest
oldest-Ready mask e [] h = absurd (cc)
oldest-Ready mask e (x ∷ l) h = elim (Bool-cases (sigismember mask x.sig)) [
  | inl t ↦ absurd (none-ne e (rw t at h))
  | inr f ↦
      let same : x ≡ e = some-inj x e (rw f at h) in
      subst (λ y. Ready mask y (x ∷ l)) same (front l f)
]
  where
    none-ne : (y : Entry) → ◌≢◌ {A = Option Entry} none (some y)
    none-ne y q = cc

    some-inj : (y z : Entry) → ◌≡◌ {A = Option Entry} (some y) (some z) → y ≡ z
    some-inj y z q = cc

realtime-Fetched :
    (s : State) (e : Entry) (l : List Entry)
    → IsSound s
    → l ≡ waiting s
    → Ready s.mask e l
    → let (r, out, q) = dequeue (some s.rt_queue) in
      Fetched s (ret_ok, out, some (record s { rt_queue = or_queue q s.rt_queue })) true
unfolding pop
realtime-Fetched s e l v at (front rest open_) =
    let (q', left, same) = dequeue_refines s.rt_queue v.queue in
    let popped : ◌≡◌ {A = ℤ × Option Entry × List Entry} (pop (contents s.rt_queue))
        (ret_ok, some e, rest) =
      ap pop (sym at) in
    let all = same ∙ popped in
    let s' : State = record s { rt_queue = q' } in
    let sound : IsSound s' = record {
      mask = v.mask;
      pending = v.pending;
      queue = dequeue-IsValid s.rt_queue q' v.queue left;
    } in
    rw (left, ap (λ t. t.1) all)
      (realtime e rest s' (sym at) open_ (ap (λ t. t.2) all) refl refl sound)

cleared-Fetched :
    (s : State)
    → IsSound s
    → IsBlocked s
    → (o : Option ℕ) → Lowest s 1 64 o
    → Fetched s
        (elim o [
          | some sig ↦ (
            ret_ok,
            some (payload (pos sig) none),
            some (record s { pending = sigdelset s.pending (pos sig) }),
          )
          | none ↦ (ret_no_entry, none, some s)
        ])
        (given o)
cleared-Fetched s v blocked o (found k a b c d) =
    ordinary k (record s { pending = sigdelset s.pending (pos k) }) blocked (omega arith)
      (omega arith) c (λ j p q. d j (omega arith) q)
      (λ j p q.
        (members_lem s.pending s.pending k j v.pending v.pending (omega arith) (omega arith) p q).1)
      refl refl
      (record {
        mask = v.mask;
        pending = sigdelset-IsSigSet s.pending (pos k) v.pending;
        queue = v.queue;
      })
cleared-Fetched s v blocked o (absent d) =
    nothing blocked (λ j p q. d j (omega arith) (omega arith))

-- On sound signal state `signal_fetch` delivers and removes the oldest waiting real-time signal
-- where that is not masked, else the lowest ordinary signal that is pending and not masked, else it
-- answers that there is none and changes nothing; `signal_has_pending_unmasked` announces exactly
-- the first two.
pub signal_fetch-Fetched :
    (s : State)
    → IsSound s
    → Fetched s (signal_fetch (some s) true) (signal_has_pending_unmasked (some s))
unfolding signal_fetch signal_has_pending_unmasked
signal_fetch-Fetched s v = elim (Option-cases (realtime_ready s)) [
  | inl e ↦
      let blocked : IsBlocked s = sym (realtime_ready-oldest s v.queue) ∙ e in
      rw e (cleared-Fetched s v blocked (first_pending s) (first_deliverable-Lowest s 64 1))
  | inr (x, e) ↦
      let at = sym (realtime_ready-oldest s v.queue) ∙ e in
      rw e (realtime-Fetched s x (waiting s) v refl (oldest-Ready s.mask x (waiting s) at))
]
