-- ===== src/Signals/Calls.antt =====
-- What every operation on a thread's signals keeps.
use cf_os.Base.{
  ◌≡◌, refl, Bool, true, Option, some, none, List, [], ◌∷◌, length, Bool-cases, inl, inr,
}
use cf_os.Base.Int.{ℤ}
use cf_os.SignalQueue.{SigInfo, Entry, capacity}
use cf_os.SignalQueue.Invariant.{enqueue-IsValid, init-IsValid, init_total}
use cf_os.SignalQueue.Fifo.{enqueue_refines}
use cf_os.Signals.{
  State, SigSet, words_with, emptied, or_bits, and_not_bits, out_of_range, is_realtime, sigaddset,
  signal_thread_init, signal_add, signal_fetch, signal_block, signal_unblock, signal_clear_all,
}
use cf_os.Signals.Sets.{IsSigSet, sigaddset-IsSigSet, words_with-IsSigSet, emptied-IsSigSet}
use cf_os.Signals.Delivery.{IsSound, Fetched, realtime, ordinary, nothing, signal_fetch-Fetched}

pub data Call : Type 0 where
  add : ℤ → Option SigInfo → Call
  fetch clear : Call
  block unblock : SigSet → Call

-- the sets that a caller passes have their two words
abbrev pub WellFormed : List Call → Type 0
WellFormed [] = Unit {0}
WellFormed (add sig info ∷ cs) = WellFormed cs
WellFormed (fetch ∷ cs) = WellFormed cs
WellFormed (clear ∷ cs) = WellFormed cs
WellFormed (block t ∷ cs) = IsSigSet t × WellFormed cs
WellFormed (unblock t ∷ cs) = IsSigSet t × WellFormed cs

-- the state after a call
pub after : Call → State → Option State
after (add sig info) s = (signal_add (some s) sig info).1
after fetch s = (signal_fetch (some s) true).2
after clear s = signal_clear_all (some s)
after (block t) s = (signal_block (some s) (some t)).1
after (unblock t) s = (signal_unblock (some s) (some t)).1

pub run : List Call → State → Option State
run [] s = some s
run (c ∷ cs) s = elim (after c s) [ none ↦ none | some s' ↦ run cs s' ]

abbrev Keeps : Option State → Type 0
Keeps o = (s : State) × (o ≡ some s) × IsSound s

add-Keeps :
    (s : State) (sig : ℤ) (info : Option SigInfo)
    → IsSound s
    → Keeps (signal_add (some s) sig info).1
unfolding signal_add
add-Keeps s sig info v = elim (Bool-cases (out_of_range sig)) [
  | inl t ↦ rw t (s, refl, v)
  | inr f ↦ elim (Bool-cases (is_realtime sig)) [
    | inl t ↦
        let (q', e, _) = enqueue_refines s.rt_queue v.queue sig info in
        let s' : State = record s { rt_queue = q' } in
        rw (f, t, e)
          (
            s',
            refl,
            record {
              mask = v.mask;
              pending = v.pending;
              queue = enqueue-IsValid s.rt_queue q' sig info v.queue e;
            },
          )
    | inr g ↦
        rw (f, g)
          (
            record s { pending = sigaddset s.pending sig },
            refl,
            record {
              mask = v.mask;
              pending = sigaddset-IsSigSet s.pending sig v.pending;
              queue = v.queue;
            },
          )
  ]
]

Fetched-Keeps :
    (s : State) (r : ℤ × Option Entry × Option State) (b : Bool)
    → IsSound s
    → Fetched s r b
    → Keeps r.2
Fetched-Keeps s r b v (realtime e rest s' _ _ _ _ _ w) = (s', refl, w)
Fetched-Keeps s r b v (ordinary sig s' _ _ _ _ _ _ _ _ w) = (s', refl, w)
Fetched-Keeps s r b v (nothing _ _) = (s, refl, v)

masked-IsSound :
    (s : State) (f : Bool → Bool → Bool) (t : SigSet)
    → IsSound s
    → IsSigSet t
    → IsSound (record s { mask = words_with f s.mask t })
masked-IsSound s f t v h = record {
  mask = words_with-IsSigSet f s.mask t v.mask h;
  pending = v.pending;
  queue = v.queue;
}

next-Keeps :
    (o : Option State) (cs : List Call)
    → Keeps o
    → ((s : State) → IsSound s → Keeps (run cs s))
    → Keeps (elim o [ none ↦ none | some s' ↦ run cs s' ])
next-Keeps o cs (s', e, w) k = rw e (k s' w)

run-Keeps : (cs : List Call) (s : State) → IsSound s → WellFormed cs → Keeps (run cs s)
unfolding run after signal_block signal_unblock signal_clear_all
run-Keeps [] s v h = (s, refl, v)
run-Keeps (add sig info ∷ cs) s v h =
    next-Keeps _ cs (add-Keeps s sig info v) (λ s' w. run-Keeps cs s' w h)
run-Keeps (fetch ∷ cs) s v h =
    next-Keeps _ cs (Fetched-Keeps s _ _ v (signal_fetch-Fetched s v)) (λ s' w. run-Keeps cs s' w h)
run-Keeps (clear ∷ cs) s v h =
    run-Keeps cs (record s { pending = emptied s.pending })
      (record {
        mask = v.mask;
        pending = emptied-IsSigSet s.pending v.pending.two;
        queue = v.queue;
      })
      h
run-Keeps (block t ∷ cs) s v h = run-Keeps cs _ (masked-IsSound s or_bits t v h.0) h.1
run-Keeps (unblock t ∷ cs) s v h = run-Keeps cs _ (masked-IsSound s and_not_bits t v h.0) h.1

-- After `signal_thread_init` of any memory of the right size, any sequence of signal calls, with
-- sets of two words and signals of any number, keeps the sets well-formed and the real-time queue
-- sound.
pub run-IsSound :
    (cs : List Call) (s : State)
    → length s.mask ≡ 2
    → length s.pending ≡ 2
    → length s.rt_queue.pool ≡ capacity
    → WellFormed cs
    → (s' : State) × (run cs (signal_thread_init s) ≡ some s') × IsSound s'
unfolding signal_thread_init
run-IsSound cs s m p size h = run-Keeps cs (signal_thread_init s) fresh h
  where
    fresh : IsSound (signal_thread_init s)
    fresh =
        let (q, e) = init_total s.rt_queue in
        rw e (record {
          mask = emptied-IsSigSet s.mask m;
          pending = emptied-IsSigSet s.pending p;
          queue = (init-IsValid s.rt_queue q size e).0;
        })
