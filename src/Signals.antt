-- ===== src/Signals.antt =====
-- The signals of a thread (src/kernel/syscall/signal/signal.c) and the sets of signals of
-- include/kernel/signal/signal.h. A set is two `unsigned long` words of 32 bits, and a word is the list
-- of its bits, the lowest first. Real-time signals wait in the queue of SignalQueue.
pub mod Sets
pub mod Delivery
pub mod Calls
mod Examples
use cf_os.Base.{
  ℕ, zero, suc, ◌+◌, ◌-◌, ◌/◌, ◌%◌, Bool, true, false, not, ◌&&◌, ◌||◌, Option, none, some, List,
  [], ◌∷◌, if◌then◌else◌, get_or, set, replicate,
}
use cf_os.Base.Int.{ℤ, pos, negsuc, ltb_ℤ, eqb_ℤ, pos_part}
use cf_os.SignalQueue
use cf_os.SignalQueue.{
  SigInfo, Entry, Rtq, sig_min, sig_max, ret_ok, ret_invalid, ret_no_entry, no_info, payload,
  is_empty, enqueue, dequeue, peek,
}

abbrev pub Word : Type 0
Word = List Bool

abbrev pub SigSet : Type 0
SigSet = List Word

abbrev pub word_bits : ℕ
word_bits = 32

-- the loops of `sigemptyset`, `signal_block` and `signal_unblock` over the words, and the operator on
-- the bits of a word
pub emptied : SigSet → SigSet
emptied [] = []
emptied (w ∷ s) = replicate word_bits false ∷ emptied s

pub bits_with : (Bool → Bool → Bool) → Word → Word → Word
bits_with f [] v = []
bits_with f (b ∷ w) [] = b ∷ w
bits_with f (b ∷ w) (c ∷ v) = f b c ∷ bits_with f w v

pub words_with : (Bool → Bool → Bool) → SigSet → SigSet → SigSet
words_with f [] t = []
words_with f (w ∷ s) [] = w ∷ s
words_with f (w ∷ s) (v ∷ t) = bits_with f w v ∷ words_with f s t

abbrev pub out_of_range : ℤ → Bool
out_of_range sig = ltb_ℤ sig sig_min || ltb_ℤ sig_max sig

-- bit `k` of a set, where `k` is `sig - 1`
abbrev pub bit : SigSet → ℕ → Bool
bit s k = get_or (get_or s (k / word_bits) []) (k % word_bits) false

abbrev pub with_bit : SigSet → ℕ → Bool → SigSet
with_bit s k v = set s (k / word_bits) (set (get_or s (k / word_bits) []) (k % word_bits) v)

pub sigaddset : SigSet → ℤ → SigSet
sigaddset s sig = if out_of_range sig then s else with_bit s (pos_part sig - 1) true

pub sigdelset : SigSet → ℤ → SigSet
sigdelset s sig = if out_of_range sig then s else with_bit s (pos_part sig - 1) false

pub sigismember : SigSet → ℤ → Bool
sigismember s sig = if out_of_range sig then false else bit s (pos_part sig - 1)

-- `thread_sigstate_t`
pub record State : Type 0 where
  pub mask : SigSet
  pub pending : SigSet
  pub rt_queue : Rtq

abbrev pub sig_rt_min : ℤ
sig_rt_min = pos 34

-- `SIG_IS_REALTIME`
abbrev pub is_realtime : ℤ → Bool
is_realtime sig = not (ltb_ℤ sig sig_rt_min) && not (ltb_ℤ sig_max sig)

abbrev pub or_queue : Option Rtq → Rtq → Rtq
or_queue none q = q
or_queue (some q') q = q'

pub signal_thread_init : State → State
signal_thread_init s = record {
  mask = emptied s.mask;
  pending = emptied s.pending;
  rt_queue = or_queue (SignalQueue.init (some s.rt_queue)) s.rt_queue;
}

pub signal_add : Option State → ℤ → Option SigInfo → ℤ × Option State
signal_add none sig info = (ret_invalid, none)
signal_add (some s) sig info =
    if out_of_range sig
    then (ret_invalid, some s)
    else if is_realtime sig
    then (let (r, q) = enqueue (some s.rt_queue) sig info in
        (r, some (record s { rt_queue = or_queue q s.rt_queue })))
    else (ret_ok, some (record s { pending = sigaddset s.pending sig }))

-- `sig` is pending and not masked
abbrev pub is_deliverable : State → ℤ → Bool
is_deliverable s sig = sigismember s.pending sig && not (sigismember s.mask sig)

-- the loop over the ordinary signals, with `n` left from `sig` on
pub first_deliverable : ℕ → ℕ → State → Option ℕ
first_deliverable zero sig s = none
first_deliverable (suc n) sig s =
    let rest = first_deliverable n (sig + 1) s in
    if is_deliverable s (pos sig) then some sig else rest

-- `for (sig = SIG_MIN; sig <= SIG_MAX; ++sig)`
abbrev pub first_pending : State → Option ℕ
first_pending s = first_deliverable 64 1 s

-- the oldest real-time signal, if `rtq_peek` finds one that is not masked
pub realtime_ready : State → Option Entry
realtime_ready s =
    if is_empty (some s.rt_queue)
    then none
    else (let (r, e) = peek (some s.rt_queue) in
        if eqb_ℤ r ret_ok
        then (elim e [
          | none ↦ none
          | some x ↦ if not (sigismember s.mask x.sig) then some x else none
        ])
        else none)

-- Returned are the code, what goes through `out_sig` and `out_info`, and the state.
pub signal_fetch : Option State → Bool → ℤ × Option Entry × Option State
signal_fetch none has_out = (ret_invalid, none, none)
signal_fetch (some s) has_out =
    if not has_out then (ret_invalid, none, some s) else (elim (realtime_ready s) [
      | some e ↦
          let (r, out, q) = dequeue (some s.rt_queue) in
          (ret_ok, out, some (record s { rt_queue = or_queue q s.rt_queue }))
      | none ↦ elim (first_pending s) [
        | some sig ↦ (
          ret_ok,
          some (payload (pos sig) none),
          some (record s { pending = sigdelset s.pending (pos sig) }),
        )
        | none ↦ (ret_no_entry, none, some s)
      ]
    ])

abbrev pub or_bits : Bool → Bool → Bool
or_bits b c = b || c

abbrev pub and_not_bits : Bool → Bool → Bool
and_not_bits b c = b && not c

pub signal_block : Option State → Option SigSet → ℤ × Option State
signal_block none t = (ret_invalid, none)
signal_block (some s) none = (ret_invalid, some s)
signal_block (some s) (some t) = (ret_ok, some (record s { mask = words_with or_bits s.mask t }))

pub signal_unblock : Option State → Option SigSet → ℤ × Option State
signal_unblock none t = (ret_invalid, none)
signal_unblock (some s) none = (ret_invalid, some s)
signal_unblock (some s) (some t) =
    (ret_ok, some (record s { mask = words_with and_not_bits s.mask t }))

abbrev pub given {ℓ} : {A : Type ℓ} → Option A → Bool
given none = false
given (some a) = true

pub signal_has_pending_unmasked : Option State → Bool
signal_has_pending_unmasked none = false
signal_has_pending_unmasked (some s) = given (realtime_ready s) || given (first_pending s)

pub signal_clear_all : Option State → Option State
signal_clear_all none = none
signal_clear_all (some s) = some (record s { pending = emptied s.pending })
