-- ===== src/SignalQueue/Invariant.antt =====
-- The pool of a signal queue: every entry stands on exactly one of the two lists.
use cf_os.Base.{
  ℕ, zero, suc, ◌+◌, ◌≡◌, refl, sym, ap, subst, ◌∙◌, Option, some, List, [], ◌∷◌, ◌++◌, arith,
  length, set, length-set, length-append, append_assoc, ◌||◌, Bool-cases, inl, inr,
}
use cf_os.Base.Distinct.{Absent, Distinct, Within, Distinct-insert, Within-insert}
use cf_os.Base.Int.{ℤ, ltb_ℤ}
use cf_os.SignalQueue.{
  SigInfo, Entry, Rtq, capacity, sig_min, sig_max, payload, init_loop, init, enqueue_at, enqueue,
  dequeue_at, dequeue,
}

pub record IsValid (q : Rtq) : Type 0 where
  pub pool_size : length q.pool ≡ capacity
  pub shared_out : length q.used + length q.free ≡ capacity
  pub distinct : Distinct (q.used ++ q.free)
  pub within : Within capacity (q.used ++ q.free)
  pub counted : q.count ≡ length q.used

enqueue_at-IsValid :
    (l : List ℕ) (e : Entry) (q : Rtq) → l ≡ q.free → IsValid q → IsValid (enqueue_at l e q).1
unfolding enqueue_at
enqueue_at-IsValid [] e q h v = v
enqueue_at-IsValid (i ∷ rest) e q h v =
    let same : q.used ++ q.free ≡ (q.used ++ i ∷ []) ++ rest =
      rw (← h) (sym (append_assoc q.used (i ∷ []) rest)) in
    let n : suc (length rest) ≡ length q.free = ap length h in
    let z = v.shared_out in
    let c = v.counted in
    record {
      pool_size = length-set q.pool i e ∙ v.pool_size;
      shared_out = omega (arith, length-append q.used (i ∷ []));
      distinct = subst Distinct same v.distinct;
      within = subst (Within capacity) same v.within;
      counted = omega (arith, length-append q.used (i ∷ []));
    }

-- `rtq_enqueue` keeps the queue well formed, whatever it returns.
pub enqueue-IsValid :
    (q q' : Rtq) (sig : ℤ) (info : Option SigInfo)
    → IsValid q
    → (enqueue (some q) sig info).1 ≡ some q'
    → IsValid q'
unfolding enqueue
enqueue-IsValid q q' sig info v h = elim (Bool-cases (ltb_ℤ sig sig_min || ltb_ℤ sig_max sig)) [
  | inl bad ↦
      let e : ◌≡◌ {A = Option Rtq} (some q) (some q') = rw bad at h in
      let e' : q ≡ q' = cc in subst IsValid e' v
  | inr good ↦
      let e : ◌≡◌ {A = Option Rtq} (some (enqueue_at q.free (payload sig info) q).1) (some q') =
        rw good at h in
      let e' : (enqueue_at q.free (payload sig info) q).1 ≡ q' = cc in
      subst IsValid e' (enqueue_at-IsValid q.free (payload sig info) q refl v)
]

dequeue_at-IsValid : (l : List ℕ) (q : Rtq) → l ≡ q.used → IsValid q → IsValid (dequeue_at l q).2
unfolding dequeue_at
dequeue_at-IsValid [] q h v = v
dequeue_at-IsValid (i ∷ rest) q h v =
    let d : Distinct (i ∷ (rest ++ q.free)) = rw (← h) at v.distinct in
    let w : Within capacity (i ∷ (rest ++ q.free)) = rw (← h) at v.within in
    let n : suc (length rest) ≡ length q.used = ap length h in
    let z = v.shared_out in
    let c = v.counted in
    record {
      pool_size = length-set q.pool i _ ∙ v.pool_size;
      shared_out = omega arith;
      distinct = Distinct-insert i rest q.free d.0 d.1;
      within = Within-insert capacity i rest q.free w.0 w.1;
      counted = ground arith;
    }

-- `rtq_dequeue` keeps the queue well formed, whatever it returns.
pub dequeue-IsValid : (q q' : Rtq) → IsValid q → (dequeue (some q)).2 ≡ some q' → IsValid q'
unfolding dequeue
dequeue-IsValid q q' v h =
    let e : (dequeue_at q.used q).2 ≡ q' = cc in
    subst IsValid e (dequeue_at-IsValid q.used q refl v)

-- `rtq_init` after `i` rounds, with `n` to go
init_loop-IsValid :
    (n i : ℕ) (q : Rtq)
    → i + n ≡ capacity
    → q.used ≡ []
    → length q.pool ≡ capacity
    → length q.free ≡ i
    → Distinct q.free
    → Within i q.free
    → IsValid (record (init_loop n i q) { count = 0 }) × ((init_loop n i q).used ≡ [])
unfolding init_loop
init_loop-IsValid zero i q e u p l d w = (
  record {
    pool_size = p;
    shared_out = rw u (omega arith);
    distinct = rw u d;
    within = rw u (subst (λ t. Within t q.free) (omega arith) w);
    counted = rw u;
  },
  u,
)
init_loop-IsValid (suc n) i q e u p l d w =
    init_loop-IsValid n (i + 1) (record q { free = i ∷ q.free; pool = set q.pool i _ })
      (omega arith) u (length-set q.pool i _ ∙ p) (omega arith) (Within-Absent q.free i w, d)
      (omega arith, Within-up q.free i w)
  where
    Within-Absent : (l : List ℕ) (b : ℕ) → Within b l → Absent b l
    Within-Absent [] b h = tt
    Within-Absent (x ∷ l) b h = (omega arith, Within-Absent l b h.1)

    Within-up : (l : List ℕ) (b : ℕ) → Within b l → Within (b + 1) l
    Within-up [] b h = tt
    Within-up (x ∷ l) b h = (omega arith, Within-up l b h.1)

-- `rtq_init` makes any memory of 64 pool entries a well-formed queue without signals.
pub init-IsValid :
    (q q' : Rtq) → length q.pool ≡ capacity → init (some q) ≡ some q' → IsValid q' × (q'.used ≡ [])
unfolding init
init-IsValid q q' p h =
    let fresh : Rtq = record q { used = []; free = [] } in
    let e : record (init_loop capacity 0 fresh) { count = 0 } ≡ q' = cc in
    let (v, u) = init_loop-IsValid capacity 0 fresh refl refl p refl tt tt in
    (subst IsValid e v, ap (λ r. r.used) (sym e) ∙ u)

pub init_total : (q : Rtq) → (q' : Rtq) × (init (some q) ≡ some q')
unfolding init
init_total q = (_, refl)
