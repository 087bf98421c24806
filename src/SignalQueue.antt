-- ===== src/SignalQueue.antt =====
-- The queue of real-time signals (src/kernel/syscall/signal/queue.c): 64 pool entries, each on one of
-- two intrusive lists. A list is modelled by the pool indices in link order: `LinkBefore` the head
-- appends, `LinkAfter` the head puts in front, and `LinkRemove` of `head.next` takes the first.
-- A pointer that the code tests for NULL is an `Option`.
pub mod Invariant
pub mod Fifo
mod Examples
use cf_os.Base.{
  ℕ, zero, suc, ◌+◌, ◌-◌, Bool, true, false, ◌||◌, Option, none, some, List, [], ◌∷◌, ◌++◌, ◌==◌,
  if◌then◌else◌, get_or, set, ◌%◌, ◌^◌,
}
use cf_os.Base.Int.{ℤ, pos, negsuc, ltb_ℤ}

pub record SigInfo : Type 0 where
  pub si_signo : ℤ
  pub si_errno : ℤ
  pub si_code : ℤ
  pub si_addr : ℕ
  pub si_status : ℤ

pub record Entry : Type 0 where
  pub sig : ℤ
  pub info : SigInfo

pub record Rtq : Type 0 where
  pub used : List ℕ
  pub free : List ℕ
  pub pool : List Entry
  pub count : ℕ

abbrev pub capacity : ℕ
capacity = 64

abbrev pub sig_min : ℤ
sig_min = pos 1

abbrev pub sig_max : ℤ
sig_max = pos 64

-- The codes returned. `EINVAL` is -2 and `ENOENT` is -40, so their negations are positive.
abbrev pub ret_ok : ℤ
ret_ok = pos 0

abbrev pub ret_busy : ℤ
ret_busy = negsuc 6

abbrev pub ret_invalid : ℤ
ret_invalid = pos 2

abbrev pub ret_no_entry : ℤ
ret_no_entry = pos 40

-- `memset(&info, 0, sizeof(info))`
abbrev pub no_info : SigInfo
no_info = record {
  si_signo = pos 0;
  si_errno = pos 0;
  si_code = pos 0;
  si_addr = 0;
  si_status = pos 0;
}

abbrev pub cleared : Entry
cleared = record { sig = pos 0; info = no_info }

-- the loop of `rtq_init`, with `n` entries left from index `i`
pub init_loop : ℕ → ℕ → Rtq → Rtq
init_loop zero i q = q
init_loop (suc n) i q =
    init_loop n (i + 1) (record q { free = i ∷ q.free; pool = set q.pool i cleared })

pub init : Option Rtq → Option Rtq
init none = none
init (some q) =
    some (record (init_loop capacity 0 (record q { used = []; free = [] })) { count = 0 })

abbrev pub no_entries : List ℕ → Bool
no_entries [] = true
no_entries (i ∷ l) = false

pub is_empty : Option Rtq → Bool
is_empty none = true
is_empty (some q) = no_entries q.used

pub is_full : Option Rtq → Bool
is_full none = false
is_full (some q) = no_entries q.free

-- the payload that `rtq_enqueue` stores
pub payload : ℤ → Option SigInfo → Entry
payload sig none = record { sig = sig; info = record no_info { si_signo = sig } }
payload sig (some info) = record { sig = sig; info = info }

-- the tail of `rtq_enqueue`, on the free list
pub enqueue_at : List ℕ → Entry → Rtq → ℤ × Rtq
enqueue_at [] e q = (ret_busy, q)
enqueue_at (i ∷ rest) e q = (
  ret_ok,
  record {
    used = q.used ++ i ∷ [];
    free = rest;
    pool = set q.pool i e;
    count = (q.count + 1) % 2 ^ 32;
  },
)

pub enqueue : Option Rtq → ℤ → Option SigInfo → ℤ × Option Rtq
enqueue none sig info = (ret_invalid, none)
enqueue (some q) sig info =
    if ltb_ℤ sig sig_min || ltb_ℤ sig_max sig
    then (ret_invalid, some q)
    else (let (r, q') = enqueue_at q.free (payload sig info) q in (r, some q'))

-- the tail of `rtq_dequeue`, on the used list; the option is what goes through the out pointers
pub dequeue_at : List ℕ → Rtq → ℤ × Option Entry × Rtq
dequeue_at [] q = (ret_no_entry, none, q)
dequeue_at (i ∷ rest) q = (
  ret_ok,
  some (get_or q.pool i cleared),
  record {
    used = rest;
    free = i ∷ q.free;
    pool = set q.pool i cleared;
    count = if q.count == 0 then 0 else q.count - 1;
  },
)

pub dequeue : Option Rtq → ℤ × Option Entry × Option Rtq
dequeue none = (ret_invalid, none, none)
dequeue (some q) = let (r, out, q') = dequeue_at q.used q in (r, out, some q')

pub peek_at : List ℕ → Rtq → ℤ × Option Entry
peek_at [] q = (ret_no_entry, none)
peek_at (i ∷ rest) q = (ret_ok, some (get_or q.pool i cleared))

pub peek : Option Rtq → ℤ × Option Entry
peek none = (ret_invalid, none)
peek (some q) = peek_at q.used q

pub count_of : Option Rtq → ℕ
count_of none = 0
count_of (some q) = q.count
