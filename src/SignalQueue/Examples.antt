-- ===== src/SignalQueue/Examples.antt =====
-- The queue after `rtq_init`, filled and drained.
use cf_os.Base.{◌≡◌, refl, none, some, List, [], ◌∷◌, replicate}
use cf_os.Base.Int.{pos}
use cf_os.SignalQueue.{
  Rtq, capacity, cleared, init_loop, init, enqueue_at, enqueue, dequeue_at, dequeue, payload,
}
use cf_os.SignalQueue.Invariant.{IsValid, init-IsValid}
use cf_os.SignalQueue.Fifo.{Op, put, take, run_spec, run, contents, run_refines}

abbrev memory : Rtq
memory = record { used = 7 ∷ []; free = []; pool = replicate 64 cleared; count = 9 }

abbrev fresh : Rtq
fresh = record (init_loop capacity 0 (record memory { used = []; free = [] })) { count = 0 }

fresh_is : init (some memory) ≡ some fresh
unfolding init
fresh_is = refl

fresh-IsValid : IsValid fresh
fresh-IsValid = (init-IsValid memory fresh refl fresh_is).0

abbrev calls : List Op
calls = put (pos 34) none ∷ put (pos 65) none ∷ put (pos 40) none ∷ take ∷ take ∷ take ∷ []

run_refines_example : run (some fresh) calls ≡ run_spec (contents fresh) calls
run_refines_example = run_refines calls fresh fresh-IsValid

drained :
    run (some fresh) (put (pos 34) none ∷ take ∷ take ∷ [])
    ≡ (pos 0, none) ∷ (pos 0, some (payload (pos 34) none)) ∷ (pos 40, none) ∷ []
unfolding run init_loop enqueue enqueue_at dequeue dequeue_at payload
drained = refl
