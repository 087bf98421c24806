-- ===== src/Pmm/Free.antt =====
-- `pmm_free_frame`: every outcome inside the bitmap, the fault outside it, and the round trip with
-- `pmm_alloc_frame`.
use cf_os.Base.{
  ℕ, ◌*◌, ◌/◌, ◌%◌, ◌≤◌, ◌<◌, ◌≡◌, ◌≢◌, ◌⊎◌, refl, ap, sym, subst, ◌∙◌, true, false, arith, ◌==◌,
  length, ok, fault, Bool-cases, inl, inr, Run,
}
use cf_os.Base.Errno.{Errno}
use cf_os.Pmm.{Pmm, frame_size, drop_used, look, clear_frame, test_frame, alloc_frame, free_frame}
use cf_os.Pmm.Bitmap.{look_fault, look_total, mark-mark_back}
use cf_os.Pmm.Frames.{IsValid, Turned, Took, clear_Turned, alloc_frame_lem}

-- The outcomes of freeing `paddr`, one for each return of the code.
abbrev pub FreeOutcome : Pmm → ℕ → Errno → Pmm → Type 0
FreeOutcome s paddr e s' =
    ((paddr % frame_size ≢ 0) × (e ≡ Errno.invalid_alignment) × (s' ≡ s))
    ⊎ ((paddr % frame_size ≡ 0)
        × (look s.bitmap (paddr / frame_size) ≡ ok false)
        × (e ≡ Errno.invalid_argument)
        × (s' ≡ s))
    ⊎ ((paddr % frame_size ≡ 0) × (e ≡ Errno.success) × Turned s (paddr / frame_size) true false s')

-- On a well-formed allocator and an address whose frame has a bit in the bitmap, `pmm_free_frame`
-- refuses an unaligned address and a frame that is not in use and changes nothing, and else frees
-- that frame alone and takes one off the count.
pub free_frame_outcomes :
    (s : Pmm) (paddr : ℕ)
    → IsValid s
    → paddr / frame_size < 32 * length s.bitmap
    → (e : Errno) × (s' : Pmm) × (free_frame paddr s ≡ ok (e, s')) × FreeOutcome s paddr e s'
unfolding free_frame test_frame clear_frame
free_frame_outcomes s paddr v inside = elim (Bool-cases (paddr % frame_size == 0)) [
  | inr skew ↦ (Errno.invalid_alignment, s, rw skew, inl (ground arith, refl, refl))
  | inl aligned ↦
      let (b, seen) = look_total s.bitmap (paddr / frame_size) v.words inside in
      elim (Bool-cases b) [
        | inr clear ↦
            let seen' : look s.bitmap (paddr / frame_size) ≡ ok false = seen ∙ ap ok clear in
            (
              Errno.invalid_argument,
              s,
              rw (aligned, seen'),
              inr (inl (ground arith, seen', refl, refl)),
            )
        | inl taken ↦
            let seen' : look s.bitmap (paddr / frame_size) ≡ ok true = seen ∙ ap ok taken in
            let (bm, done, t) = clear_Turned s v (paddr / frame_size) inside seen' in
            (
              Errno.success,
              record s { bitmap = bm; used = drop_used s.used },
              rw (aligned, seen', done),
              inr (inr (ground arith, refl, t)),
            )
      ]
]

-- An aligned address whose frame has no bit in the bitmap makes `pmm_free_frame` read outside the
-- bitmap.
pub free_frame-fault :
    (s : Pmm) (paddr : ℕ)
    → paddr % frame_size ≡ 0
    → 32 * length s.bitmap ≤ paddr / frame_size
    → free_frame paddr s ≡ fault
unfolding free_frame test_frame
free_frame-fault s paddr aligned beyond =
    let al : (paddr % frame_size == 0) ≡ true = ground arith in
    rw (al, look_fault s.bitmap (paddr / frame_size) beyond)

module _ (s s' : Pmm) (addr : ℕ) (v : IsValid s) where
  free_frame_back : Took s addr s' → free_frame addr s' ≡ ok (Errno.success, s)
  unfolding free_frame test_frame clear_frame
  free_frame_back t =
      let al : (addr % frame_size == 0) ≡ true = ground (arith, t.aligned) in
      let back =
        mark-mark_back s.bitmap s'.bitmap (addr / frame_size) false true t.turned.before
          t.turned.marks in
      let same : record s' { bitmap = s.bitmap; used = drop_used s'.used } ≡ s =
        ground (arith, t.turned.total_kept, t.turned.balance) in
      rw (al, t.turned.after, back) (ap (λ r. ok (Errno.success, r)) same)

  -- On a well-formed allocator, freeing the address that an allocation just returned, where that is
  -- not 0, succeeds and restores the allocator, its bitmap and its count.
  pub free_frame-alloc_frame :
      alloc_frame s ≡ ok (addr, s') → addr ≢ 0 → free_frame addr s' ≡ ok (Errno.success, s)
  free_frame-alloc_frame done nonzero =
      let (addr', s'', e, outcome) = alloc_frame_lem s v in
      let same : ◌≡◌ {A = Run (ℕ × Pmm)} (ok (addr', s'')) (ok (addr, s')) = sym e ∙ done in
      let same_addr : addr' ≡ addr = ground arith in
      let same_state : s'' ≡ s' = ground arith in
      elim outcome [
        | inl took ↦
            free_frame_back
              (subst (λ a. Took s a s') same_addr (subst (λ u. Took s addr' u) same_state took))
        | inr (all, z, same_s) ↦ absurd (nonzero (sym same_addr ∙ z))
      ]
