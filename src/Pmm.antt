-- ===== src/Pmm.antt =====
-- The physical frame allocator (src/kernel/mm/pmm.c). `frame_bitmap` is a list of u32 words and a word
-- is the list of its 32 bits, the lowest first: `|= 1u << b` and `&= ~(1u << b)` write one bit, and
-- `!= 0xFFFFFFFFu` asks for a bit that is clear. An index beyond the array is a `fault`.
pub mod Bitmap
pub mod Scan
pub mod Frames
pub mod Free
pub mod Boot
pub mod Region
mod Examples
use cf_os.Base.{
  ℕ, zero, suc, ◌+◌, ◌-◌, ◌*◌, ◌/◌, ◌%◌, ◌^◌, Bool, true, false, not, ◌&&◌, Option, none, some,
  List, [], ◌∷◌, ltb, leb, ◌==◌, if◌then◌else◌, get_elem?, get_or, set, replicate, Run, ok, fault,
  stuck, ◌>>=◌,
}
use cf_os.Base.Errno
use cf_os.Base.Errno.{Errno}

abbrev pub frame_size : ℕ
frame_size = 4096

abbrev pub Word : Type 0
Word = List Bool

pub record Pmm : Type 0 where
  pub bitmap : List Word
  pub total : ℕ
  pub used : ℕ

-- u32 arithmetic
abbrev pub add32 : ℕ → ℕ → ℕ
add32 a b = (a + b) % 2 ^ 32

abbrev pub align_down : ℕ → ℕ → ℕ
align_down value align = value / align * align

abbrev pub align_up : ℕ → ℕ → ℕ
align_up value align = add32 value (align - 1) / align * align

-- `frame_bitmap[f >> 5] & (1u << (f & 31u))`, and a write of that bit
pub look : List Word → ℕ → Run Bool
look bitmap f = elim (get_elem? bitmap (f / 32)) [
  | none ↦ fault
  | some w ↦ ok (get_or w (f % 32) false)
]

pub mark : List Word → ℕ → Bool → Run (List Word)
mark bitmap f v = elim (get_elem? bitmap (f / 32)) [
  | none ↦ fault
  | some w ↦ ok (set bitmap (f / 32) (set w (f % 32) v))
]

pub set_frame : List Word → ℕ → Run (List Word)
set_frame bitmap addr = mark bitmap (addr / frame_size) true

pub clear_frame : List Word → ℕ → Run (List Word)
clear_frame bitmap addr = mark bitmap (addr / frame_size) false

pub test_frame : List Word → ℕ → Run Bool
test_frame bitmap addr = look bitmap (addr / frame_size)

-- the inner loop of `first_free_frame`, over the bits of a word from `b` on
pub free_bit : Word → ℕ → Option ℕ
free_bit [] b = none
free_bit (x ∷ w) b = if x then free_bit w (b + 1) else some b

pub all_ones : Word → Bool
all_ones [] = true
all_ones (x ∷ w) = x && all_ones w

-- the outer loop, with `n` words left from index `i`
pub scan : List Word → ℕ → ℕ → ℕ → Run (Option ℕ)
scan bitmap total zero i = ok none
scan bitmap total (suc n) i =
    let rest = scan bitmap total n (i + 1) in
    elim (get_elem? bitmap i) [
      | none ↦ fault
      | some w ↦ if all_ones w then rest else (elim (free_bit w 0) [
        | none ↦ rest
        | some b ↦ ok (if ltb (i * 32 + b) total then some (i * 32 + b) else none)
      ])
    ]

pub first_free_frame : Pmm → Run (Option ℕ)
first_free_frame s = scan s.bitmap s.total ((s.total + 31) / 32) 0

-- for (addr = a; addr < end; addr += PMM_FRAME_SIZE) { set_frame(addr); ++frames_used; }
pub claim_loop : ℕ → ℕ → ℕ → Pmm → Run Pmm
claim_loop zero addr end s = stuck
claim_loop (suc n) addr end s =
    let rest = λ (bm : List Word).
      claim_loop n (add32 addr frame_size) end (record s { bitmap = bm; used = add32 s.used 1 }) in
    if ltb addr end then set_frame s.bitmap addr >>= rest else ok s

-- the rounds that a walk up to `end` in steps of a frame takes at most, and the last test
abbrev pub rounds : ℕ → ℕ
rounds end = end / frame_size + 2

pub init : ℕ → ℕ → Pmm → Run (Errno × Pmm)
init mem_size kernel_end s =
    let total = mem_size / frame_size in
    let words = (total + 31) / 32 in
    let bitmap_phys = align_up kernel_end frame_size in
    let zeroed : Pmm = record {
      bitmap = replicate words (replicate 32 false);
      total = total;
      used = 0;
    } in
    let reserved_end = add32 bitmap_phys (words * 4) in
    if mem_size == 0
    then ok (Errno.invalid_argument, s)
    else if bitmap_phys == 0
    then ok (Errno.bad_address, record s { bitmap = []; total = total })
    else (claim_loop (rounds reserved_end) 0 reserved_end zeroed >>= λ s'. ok (Errno.success, s'))

pub alloc_frame : Pmm → Run (ℕ × Pmm)
alloc_frame s = first_free_frame s >>= λ found. elim found [
  | none ↦ ok (0, s)
  | some frame ↦ set_frame s.bitmap (frame * frame_size) >>= λ bm.
      ok (frame * frame_size, record s { bitmap = bm; used = add32 s.used 1 })
]

-- `if (frames_used) --frames_used;`
abbrev pub drop_used : ℕ → ℕ
drop_used n = if n == 0 then 0 else n - 1

pub free_frame : ℕ → Pmm → Run (Errno × Pmm)
free_frame paddr s =
    if not (paddr % frame_size == 0)
    then ok (Errno.invalid_alignment, s)
    else (test_frame s.bitmap paddr >>= λ taken.
        if not taken
        then ok (Errno.invalid_argument, s)
        else (clear_frame s.bitmap paddr >>= λ bm.
            ok (Errno.success, record s { bitmap = bm; used = drop_used s.used })))

-- one round of each region loop
pub reserve_one : ℕ → Pmm → Run Pmm
reserve_one a s = test_frame s.bitmap a >>= λ taken.
    if taken
    then ok s
    else (set_frame s.bitmap a >>= λ bm. ok (record s { bitmap = bm; used = add32 s.used 1 }))

pub unreserve_one : ℕ → Pmm → Run Pmm
unreserve_one a s = test_frame s.bitmap a >>= λ taken.
    if taken
    then (clear_frame s.bitmap a >>= λ bm. ok (record s { bitmap = bm; used = drop_used s.used }))
    else ok s

-- for (a = start; a < end; a += PMM_FRAME_SIZE) one(a)
pub region_loop : (ℕ → Pmm → Run Pmm) → ℕ → ℕ → ℕ → Pmm → Run Pmm
region_loop one zero a end s = stuck
region_loop one (suc n) a end s =
    let rest = λ (s' : Pmm). region_loop one n (add32 a frame_size) end s' in
    if ltb a end then one a s >>= rest else ok s

abbrev pub region : (ℕ → Pmm → Run Pmm) → ℕ → ℕ → Pmm → Run (Errno × Pmm)
region one paddr_start paddr_end s =
    let first = align_down paddr_start frame_size in
    let last = align_up paddr_end frame_size in
    if leb paddr_end paddr_start
    then ok (Errno.invalid_argument, s)
    else (region_loop one (rounds last) first last s >>= λ s'. ok (Errno.success, s'))

pub reserve_region : ℕ → ℕ → Pmm → Run (Errno × Pmm)
reserve_region = region reserve_one

pub unreserve_region : ℕ → ℕ → Pmm → Run (Errno × Pmm)
unreserve_region = region unreserve_one

pub free_frames : Pmm → ℕ
free_frames s = (s.total + 2 ^ 32 - s.used) % 2 ^ 32
