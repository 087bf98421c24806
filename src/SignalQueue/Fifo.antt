-- ===== src/SignalQueue/Fifo.antt =====
-- A signal queue seen from outside: a queue of at most 64 signals, oldest first.
use cf_os.Base.{
  ℕ, zero, suc, ◌+◌, ◌<◌, ◌≡◌, ◌≢◌, refl, sym, ap, ◌∙◌, Option, none, some, List, [], ◌∷◌, ◌++◌,
  arith, length, set, true, false, ◌||◌, Bool-cases, inl, inr, ltb, leb, if◌then◌else◌, get_or,
}
use mathlib.Core.Path.{ap₂}
use cf_os.Base.Distinct.{Absent, Distinct, Within, Distinct-middle, Within-middle, Absent-left}
use cf_os.Base.Int.{ℤ, ltb_ℤ}
use cf_os.SignalQueue.{
  SigInfo, Entry, Rtq, capacity, sig_min, sig_max, payload, ret_ok, ret_busy, ret_invalid,
  ret_no_entry, cleared, enqueue_at, enqueue, dequeue_at, dequeue, peek, peek_at, is_empty, is_full,
  no_entries, count_of,
}
use cf_os.SignalQueue.Invariant.{IsValid, enqueue-IsValid, dequeue-IsValid}

-- what the caller passes to `rtq_enqueue`, or that it calls `rtq_dequeue`
pub data Op : Type 0 where
  put : ℤ → Option SigInfo → Op
  take : Op

abbrev pub Reply : Type 0
Reply = ℤ × Option Entry

-- The specification: a list of payloads, bounded by the capacity.
unfoldable pub push : ℤ → Option SigInfo → List Entry → ℤ × List Entry
push sig info l =
    if ltb_ℤ sig sig_min || ltb_ℤ sig_max sig
    then (ret_invalid, l)
    else (if ltb (length l) capacity then (ret_ok, l ++ payload sig info ∷ []) else (ret_busy, l))

unfoldable pub pop : List Entry → ℤ × Option Entry × List Entry
pop [] = (ret_no_entry, none, [])
pop (x ∷ l) = (ret_ok, some x, l)

pub run_spec : List Entry → List Op → List Reply
run_spec l [] = []
run_spec l (put sig info ∷ ops) = let (r, l') = push sig info l in (r, none) ∷ run_spec l' ops
run_spec l (take ∷ ops) = let (r, out, l') = pop l in (r, out) ∷ run_spec l' ops

-- A client's calls on the queue, in order, with what each returns.
unfoldable pub run : Option Rtq → List Op → List Reply
run q [] = []
run q (put sig info ∷ ops) = let (r, q') = enqueue q sig info in (r, none) ∷ run q' ops
run q (take ∷ ops) = let (r, out, q') = dequeue q in (r, out) ∷ run q' ops

-- the payloads at the indices of a list
abbrev pub payloads : List Entry → List ℕ → List Entry
payloads pool [] = []
payloads pool (i ∷ l) = get_or pool i cleared ∷ payloads pool l

abbrev pub contents : Rtq → List Entry
contents q = payloads q.pool q.used

length-payloads : (pool : List Entry) (l : List ℕ) → length (payloads pool l) ≡ length l
length-payloads pool [] = refl
length-payloads pool (i ∷ l) = ap suc (length-payloads pool l)

payloads-append :
    (pool : List Entry) (l m : List ℕ) → payloads pool (l ++ m) ≡ payloads pool l ++ payloads pool m
payloads-append pool [] m = refl
payloads-append pool (i ∷ l) m = ap (λ t. get_or pool i cleared ∷ t) (payloads-append pool l m)

get_or-set_same :
    (pool : List Entry) (i : ℕ) (e : Entry) → i < length pool → get_or (set pool i e) i cleared ≡ e
get_or-set_same [] i e h = absurd (omega arith)
get_or-set_same (x ∷ pool) zero e h = refl
get_or-set_same (x ∷ pool) (suc i) e h = get_or-set_same pool i e (omega arith)

get_or-set_apart :
    (pool : List Entry) (i j : ℕ) (e : Entry)
    → i ≢ j
    → get_or (set pool i e) j cleared ≡ get_or pool j cleared
get_or-set_apart [] i j e h = refl
get_or-set_apart (x ∷ pool) zero zero e h = absurd (h refl)
get_or-set_apart (x ∷ pool) zero (suc j) e h = refl
get_or-set_apart (x ∷ pool) (suc i) zero e h = refl
get_or-set_apart (x ∷ pool) (suc i) (suc j) e h = get_or-set_apart pool i j e (λ p. h (ap suc p))

payloads-set :
    (pool : List Entry) (i : ℕ) (e : Entry) (l : List ℕ)
    → Absent i l
    → payloads (set pool i e) l ≡ payloads pool l
payloads-set pool i e [] a = refl
payloads-set pool i e (j ∷ l) a =
    ap₂ ◌∷◌ (get_or-set_apart pool i j e a.0) (payloads-set pool i e l a.1)

module _ (q : Rtq) (v : IsValid q) where
  enqueue_at-contents :
      (l : List ℕ) (e : Entry)
      → l ≡ q.free
      → ◌≡◌ {A = ℤ × List Entry}
          ((enqueue_at l e q).0, contents (enqueue_at l e q).1)
          (if ltb (length (contents q)) capacity
            then (ret_ok, contents q ++ e ∷ [])
            else (ret_busy, contents q))
  unfolding enqueue_at
  enqueue_at-contents [] e h =
      let n : 0 ≡ length q.free = ap length h in
      let z = v.shared_out in
      let full : ltb (length (contents q)) capacity ≡ false =
        ground (arith, length-payloads q.pool q.used) in
      rw full
  enqueue_at-contents (i ∷ rest) e h =
      let n : suc (length rest) ≡ length q.free = ap length h in
      let z = v.shared_out in
      let p = v.pool_size in
      let room : ltb (length (contents q)) capacity ≡ true =
        ground (arith, length-payloads q.pool q.used) in
      let d : Distinct (q.used ++ i ∷ rest) = rw h v.distinct in
      let w : Within capacity (q.used ++ i ∷ rest) = rw h v.within in
      let absent = Absent-left i q.used rest (Distinct-middle i q.used rest d).0 in
      let inside = (Within-middle capacity i q.used rest w).0 in
      rw (
        room,
        payloads-append (set q.pool i e) q.used (i ∷ []),
        payloads-set q.pool i e q.used absent,
        get_or-set_same q.pool i e (omega arith),
      )

  dequeue_at-contents :
      (l : List ℕ)
      → l ≡ q.used
      → ◌≡◌ {A = ℤ × Option Entry × List Entry}
          ((dequeue_at l q).0, (dequeue_at l q).1, contents (dequeue_at l q).2)
          (pop (contents q))
  unfolding dequeue_at pop
  dequeue_at-contents [] h = rw (← h)
  dequeue_at-contents (i ∷ rest) h =
      let d : Distinct (i ∷ (rest ++ q.free)) = rw (← h) at v.distinct in
      rw (← h, payloads-set q.pool i cleared rest (Absent-left i rest q.free d.0))

module _ (q : Rtq) (v : IsValid q) where
  -- `rtq_enqueue` returns what the bounded queue returns, and leaves its contents.
  pub enqueue_refines :
      (sig : ℤ) (info : Option SigInfo)
      → (q' : Rtq) × ((enqueue (some q) sig info).1 ≡ some q')
        × ◌≡◌ {A = ℤ × List Entry}
            ((enqueue (some q) sig info).0, contents q')
            (push sig info (contents q))
  unfolding enqueue push
  enqueue_refines sig info = elim (Bool-cases (ltb_ℤ sig sig_min || ltb_ℤ sig_max sig)) [
    | inl bad ↦ (q, rw bad, rw bad)
    | inr good ↦ (
      (enqueue_at q.free (payload sig info) q).1,
      rw good,
      rw good (enqueue_at-contents q v q.free (payload sig info) refl),
    )
  ]

  -- `rtq_dequeue` too.
  pub dequeue_refines :
      (q' : Rtq) × ((dequeue (some q)).2 ≡ some q')
      × ◌≡◌ {A = ℤ × Option Entry × List Entry}
          ((dequeue (some q)).0, (dequeue (some q)).1, contents q')
          (pop (contents q))
  unfolding dequeue
  dequeue_refines = ((dequeue_at q.used q).2, refl, dequeue_at-contents q v q.used refl)

-- From a well-formed queue, any sequence of enqueues and dequeues returns what a queue of at most 64
-- signals in order of arrival returns, with the same codes, signals and infos.
pub run_refines :
    (ops : List Op) (q : Rtq) → IsValid q → run (some q) ops ≡ run_spec (contents q) ops
unfolding run run_spec
run_refines [] q v = refl
run_refines (put sig info ∷ ops) q v =
    let (q', e, same) = enqueue_refines q v sig info in
    let ih = run_refines ops q' (enqueue-IsValid q q' sig info v e) in rw (e, ih, ← same)
run_refines (take ∷ ops) q v =
    let (q', e, same) = dequeue_refines q v in
    let ih = run_refines ops q' (dequeue-IsValid q q' v e) in rw (e, ih, ← same)

no_entries-eq-leb : (l : List ℕ) → no_entries l ≡ leb (length l) 0
no_entries-eq-leb [] = refl
no_entries-eq-leb (i ∷ l) = ground arith

none_free : (f : List ℕ) (n m : ℕ) → n + length f ≡ capacity → m ≡ n → no_entries f ≡ leb capacity m
none_free [] n m h e = ground arith
none_free (i ∷ f) n m h e = ground arith

peek_at-pop :
    (q : Rtq) (l : List ℕ)
    → peek_at l q ≡ ((pop (payloads q.pool l)).0, (pop (payloads q.pool l)).1)
unfolding peek_at pop
peek_at-pop q [] = refl
peek_at-pop q (i ∷ l) = refl

-- On a well-formed queue `rtq_count`, `rtq_is_empty`, `rtq_is_full` and `rtq_peek` answer as the
-- list of waiting signals does.
pub queries_lem :
    (q : Rtq)
    → IsValid q
    → (count_of (some q) ≡ length (contents q))
      × (is_empty (some q) ≡ leb (length (contents q)) 0)
      × (is_full (some q) ≡ leb capacity (length (contents q)))
      × (peek (some q) ≡ ((pop (contents q)).0, (pop (contents q)).1))
unfolding count_of is_empty is_full peek
queries_lem q v =
    let n = length-payloads q.pool q.used in
    (
      v.counted ∙ sym n,
      no_entries-eq-leb q.used ∙ ap (λ t. leb t 0) (sym n),
      none_free q.free (length q.used) (length (contents q)) v.shared_out n,
      peek_at-pop q q.used,
    )
