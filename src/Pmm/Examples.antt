-- ===== src/Pmm/Examples.antt =====
-- A machine of 64 frames with a kernel of one page, and the theorems at it.
use cf_os.Base.{ℕ, ◌+◌, ◌/◌, ◌≡◌, ◌⊎◌, refl, true, false, [], ◌∷◌, arith, replicate, ok}
use cf_os.Base.Errno.{Errno}
use cf_os.Pmm.{
  Word, Pmm, frame_size, look, mark, set_frame, test_frame, free_bit, all_ones, scan,
  first_free_frame, claim_loop, init, alloc_frame, free_frame, reserve_region, unreserve_region,
  free_frames,
}
use cf_os.Pmm.Scan.{AllUsed}
use cf_os.Pmm.Frames.{IsValid, Took, alloc_frame_lem}
use cf_os.Pmm.Free.{FreeOutcome, free_frame_outcomes, free_frame-alloc_frame}
use cf_os.Pmm.Boot.{Claimed, words_of, reserved_end, init-Claimed}
use cf_os.Pmm.Region.{Covers, reserve_region-Covers, unreserve_region-Covers, reserve_region-wraps}

abbrev blank : Pmm
blank = record { bitmap = []; total = 0; used = 0 }

abbrev low_word : Word
low_word = true ∷ true ∷ true ∷ replicate 29 false

-- 64 frames, the first three in use
abbrev small : Pmm
small = record { bitmap = low_word ∷ replicate 32 false ∷ []; total = 64; used = 3 }

abbrev small_next : Pmm
small_next = record small {
  bitmap = (true ∷ true ∷ true ∷ true ∷ replicate 28 false) ∷ replicate 32 false ∷ [];
  used = 4;
}

boots : init 0x40000 0x1800 blank ≡ ok (Errno.success, small)
unfolding init claim_loop set_frame mark
boots = refl

allocates : alloc_frame small ≡ ok (0x3000, small_next)
unfolding alloc_frame first_free_frame scan free_bit all_ones set_frame mark
allocates = refl

counts_free : free_frames small ≡ 61
unfolding free_frames
counts_free = refl

frees_twice : free_frame 0x3000 small ≡ ok (Errno.invalid_argument, small)
unfolding free_frame test_frame look
frees_twice = refl

small-IsValid : IsValid small
small-IsValid = record {
  words = (refl, (refl, tt));
  size = refl;
  counted = refl;
  small = omega arith;
}

alloc_frame_lem_example :
    (addr : ℕ) × (s' : Pmm) × (alloc_frame small ≡ ok (addr, s'))
    × (Took small addr s' ⊎ (AllUsed small.bitmap 64 × (addr ≡ 0) × (s' ≡ small)))
alloc_frame_lem_example = alloc_frame_lem small small-IsValid

free_frame_outcomes_example :
    (e : Errno) × (s' : Pmm) × (free_frame 0x2000 small ≡ ok (e, s'))
    × FreeOutcome small 0x2000 e s'
free_frame_outcomes_example = free_frame_outcomes small 0x2000 small-IsValid (omega arith)

free_frame-alloc_frame_example : free_frame 0x3000 small_next ≡ ok (Errno.success, small)
free_frame-alloc_frame_example =
    free_frame-alloc_frame small small_next 0x3000 small-IsValid allocates (omega arith)

init-Claimed_example :
    (s' : Pmm) × (init 0x40000 0x1800 blank ≡ ok (Errno.success, s'))
    × Claimed
        (words_of 0x40000)
        (0x40000 / frame_size)
        ((reserved_end 0x40000 0x1800 + 4095) / frame_size)
        s'
    × IsValid s'
init-Claimed_example =
    init-Claimed 0x40000 0x1800 blank (omega arith) (omega arith) (omega arith) (omega arith)

reserve_region-Covers_example :
    (s' : Pmm) × (reserve_region 0x5001 0x22000 small ≡ ok (Errno.success, s'))
    × Covers small (0x5001 / frame_size) ((0x22000 + 4095) / frame_size) true s'
reserve_region-Covers_example =
    reserve_region-Covers 0x5001 0x22000 small small-IsValid (omega arith) (omega arith)
      (omega arith)

unreserve_region-Covers_example :
    (s' : Pmm) × (unreserve_region 0x1000 0x1800 small ≡ ok (Errno.success, s'))
    × Covers small (0x1000 / frame_size) ((0x1800 + 4095) / frame_size) false s'
unreserve_region-Covers_example =
    unreserve_region-Covers 0x1000 0x1800 small small-IsValid (omega arith) (omega arith)
      (omega arith)

reserve_region-wraps_example :
    reserve_region 0xffff_e000 0xffff_ffff small ≡ ok (Errno.success, small)
reserve_region-wraps_example =
    reserve_region-wraps 0xffff_e000 0xffff_ffff small (omega arith) (omega arith) (omega arith)
