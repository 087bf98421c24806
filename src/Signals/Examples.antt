-- ===== src/Signals/Examples.antt =====
-- A thread with one real-time signal and one ordinary signal.
use cf_os.Base.{
  ℕ, zero, suc, ◌<◌, ◌≡◌, refl, Bool, true, false, some, none, List, [], ◌∷◌, arith, ◌==◌, length,
  replicate, get_or, not, ◌&&◌, ◌||◌,
}
use cf_os.Base.Int.{pos}
use cf_os.SignalQueue.{Rtq, cleared}
use cf_os.SignalQueue.{payload}
use cf_os.SignalQueue.Invariant.{IsValid}
use cf_os.Signals.{
  State, SigSet, words_with, or_bits, and_not_bits, sigaddset, sigdelset, sigismember,
  signal_thread_init, signal_fetch, signal_has_pending_unmasked,
}
use cf_os.Signals.Sets.{IsSigSet, members_lem}
use cf_os.Signals.Delivery.{IsSound, Fetched, signal_fetch-Fetched}
use cf_os.Signals.Calls.{Call, add, fetch, block, run, run-IsSound}

-- no signal, and the signals 1 and 2
abbrev none_set : SigSet
none_set = replicate 32 false ∷ replicate 32 false ∷ []

abbrev first_two : SigSet
first_two = (true ∷ true ∷ replicate 30 false) ∷ replicate 32 false ∷ []

two_words : (w v : List Bool) → length w ≡ 32 → length v ≡ 32 → IsSigSet (w ∷ v ∷ [])
two_words w v a b = record { two = refl; words = each }
  where
    each : (i : ℕ) → i < 2 → length (get_or (w ∷ v ∷ []) i []) ≡ 32
    each zero h = a
    each (suc zero) h = b
    each (suc (suc i)) h = absurd (omega arith)

first_two-IsSigSet : IsSigSet first_two
first_two-IsSigSet = two_words _ _ refl refl

abbrev memory : State
memory = record {
  mask = none_set;
  pending = none_set;
  rt_queue = record { used = []; free = []; pool = replicate 64 cleared; count = 0 };
}

members_lem_example :
    (sigismember (sigaddset none_set (pos 9)) (pos 2) ≡ ((2 == 9) || sigismember none_set (pos 2)))
    × (sigismember (sigdelset none_set (pos 9)) (pos 2)
        ≡ (not (2 == 9) && sigismember none_set (pos 2)))
    × (sigismember (words_with or_bits none_set first_two) (pos 2)
        ≡ (sigismember none_set (pos 2) || sigismember first_two (pos 2)))
    × (sigismember (words_with and_not_bits none_set first_two) (pos 2)
        ≡ (sigismember none_set (pos 2) && not (sigismember first_two (pos 2))))
members_lem_example =
    members_lem none_set first_two 9 2 (two_words _ _ refl refl) first_two-IsSigSet (omega arith)
      (omega arith) (omega arith) (omega arith)

abbrev calls : List Call
calls = add (pos 40) none ∷ block first_two ∷ add (pos 2) none ∷ fetch ∷ []

run-IsSound_example : (s' : State) × (run calls (signal_thread_init memory) ≡ some s') × IsSound s'
run-IsSound_example = run-IsSound calls memory refl refl refl (first_two-IsSigSet, tt)

abbrev free_list : List ℕ
free_list =
    1 ∷ 2 ∷ 3 ∷ 4 ∷ 5 ∷ 6 ∷ 7 ∷ 8 ∷ 9 ∷ 10 ∷ 11 ∷ 12 ∷ 13 ∷ 14 ∷ 15 ∷ 16 ∷ 17 ∷ 18 ∷ 19 ∷ 20 ∷ 21
    ∷ 22 ∷ 23 ∷ 24 ∷ 25 ∷ 26 ∷ 27 ∷ 28 ∷ 29 ∷ 30 ∷ 31 ∷ 32 ∷ 33 ∷ 34 ∷ 35 ∷ 36 ∷ 37 ∷ 38 ∷ 39 ∷ 40
    ∷ 41 ∷ 42 ∷ 43 ∷ 44 ∷ 45 ∷ 46 ∷ 47 ∷ 48 ∷ 49 ∷ 50 ∷ 51 ∷ 52 ∷ 53 ∷ 54 ∷ 55 ∷ 56 ∷ 57 ∷ 58 ∷ 59
    ∷ 60 ∷ 61 ∷ 62 ∷ 63 ∷ []

abbrev queue_with : Rtq
queue_with = record {
  used = 0 ∷ [];
  free = free_list;
  pool = payload (pos 40) none ∷ replicate 63 cleared;
  count = 1;
}

queue_with-IsValid : IsValid queue_with
queue_with-IsValid = record {
  pool_size = refl;
  shared_out = refl;
  distinct = omega arith;
  within = omega arith;
  counted = refl;
}

-- the real-time signal 40 waits, and the ordinary signal 2
abbrev ready : State
ready = record {
  mask = none_set;
  pending = (false ∷ true ∷ replicate 30 false) ∷ replicate 32 false ∷ [];
  rt_queue = queue_with;
}

ready-IsSound : IsSound ready
ready-IsSound = record {
  mask = two_words _ _ refl refl;
  pending = two_words _ _ refl refl;
  queue = queue_with-IsValid;
}

signal_fetch-Fetched_example :
    Fetched ready (signal_fetch (some ready) true) (signal_has_pending_unmasked (some ready))
signal_fetch-Fetched_example = signal_fetch-Fetched ready ready-IsSound
