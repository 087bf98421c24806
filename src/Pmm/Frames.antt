-- ===== src/Pmm/Frames.antt =====
-- `pmm_init`, `pmm_alloc_frame` and `pmm_free_frame` on the frames of a well-formed allocator.
use cf_os.Base.{
  ℕ, ◌+◌, ◌*◌, ◌/◌, ◌%◌, ◌^◌, ◌<◌, ◌≡◌, ◌≢◌, ◌⊎◌, refl, ◌∙◌, Bool, true, false, Option, some, none,
  List, arith, length, ok, inl, inr,
}
use cf_os.Pmm.{
  Word, Pmm, frame_size, add32, look, mark, set_frame, alloc_frame, drop_used, first_free_frame,
}
use cf_os.Pmm.Bitmap.{AllWords, bit, count, mark_lem, count-le}
use cf_os.Pmm.Scan.{AllUsed, FirstFree, first_free_frame-FirstFree}

-- The bitmap has a bit for every frame, and `frames_used` counts the bits that are set.
pub record IsValid (s : Pmm) : Type 0 where
  pub words : AllWords s.bitmap
  pub size : length s.bitmap ≡ (s.total + 31) / 32
  pub counted : s.used ≡ count s.bitmap
  pub small : s.total < 2 ^ 20

-- `s'` is `s` with the bit of frame `f` turned from `old` to `v`, and the count with it.
pub record Turned (s : Pmm) (f : ℕ) (old v : Bool) (s' : Pmm) : Type 0 where
  pub before : look s.bitmap f ≡ ok old
  pub after : look s'.bitmap f ≡ ok v
  pub other : (g : ℕ) → f ≢ g → look s'.bitmap g ≡ look s.bitmap g
  pub marks : mark s.bitmap f v ≡ ok s'.bitmap
  pub total_kept : s'.total ≡ s.total
  pub balance : s'.used + bit old ≡ s.used + bit v
  pub valid : IsValid s'

module _ (s : Pmm) (valid : IsValid s) (f : ℕ) (inside : f < 32 * length s.bitmap) where
  used-lt : s.used < 2 ^ 21
  used-lt =
      let c = count-le s.bitmap valid.words in
      let z = valid.size in let y = valid.counted in let x = valid.small in omega arith

  pub set_Turned :
      look s.bitmap f ≡ ok false
      → (bm : List Word) × (mark s.bitmap f true ≡ ok bm)
        × Turned s f false true (record s { bitmap = bm; used = add32 s.used 1 })
  set_Turned clear =
      let (bm, m) = mark_lem s.bitmap f false true valid.words clear inside in
      let z = valid.size in
      let y = valid.counted in
      let x = valid.small in
      (
        bm,
        m.done,
        record {
          before = clear;
          after = m.at;
          other = m.other;
          marks = m.done;
          total_kept = refl;
          balance = omega (arith, used-lt);
          valid = record {
            words = m.words;
            size = m.size ∙ z;
            counted = omega (arith, used-lt, m.counted);
            small = x;
          };
        },
      )

  pub clear_Turned :
      look s.bitmap f ≡ ok true
      → (bm : List Word) × (mark s.bitmap f false ≡ ok bm)
        × Turned s f true false (record s { bitmap = bm; used = drop_used s.used })
  clear_Turned taken =
      let (bm, m) = mark_lem s.bitmap f true false valid.words taken inside in
      let z = valid.size in
      let y = valid.counted in
      let x = valid.small in
      let c = m.counted in
      let d : drop_used s.used + 1 ≡ s.used = ground arith in
      (
        bm,
        m.done,
        record {
          before = taken;
          after = m.at;
          other = m.other;
          marks = m.done;
          total_kept = refl;
          balance = omega arith;
          valid = record { words = m.words; size = m.size ∙ z; counted = omega arith; small = x };
        },
      )

-- What `pmm_alloc_frame` is to have done when it returns `addr`: the lowest free frame is taken.
pub record Took (s : Pmm) (addr : ℕ) (s' : Pmm) : Type 0 where
  pub aligned : addr % frame_size ≡ 0
  pub inside : addr / frame_size < s.total
  pub lowest : AllUsed s.bitmap (addr / frame_size)
  pub turned : Turned s (addr / frame_size) false true s'

-- On a well-formed allocator `pmm_alloc_frame` either puts a frame in use that was free, the lowest
-- such, and returns its address, or every frame is in use, it returns 0 and nothing changes.
pub alloc_frame_lem :
    (s : Pmm)
    → IsValid s
    → (addr : ℕ) × (s' : Pmm) × (alloc_frame s ≡ ok (addr, s'))
      × (Took s addr s' ⊎ (AllUsed s.bitmap s.total × (addr ≡ 0) × (s' ≡ s)))
unfolding alloc_frame set_frame
alloc_frame_lem s v = go r e found
  where
    first : (r : Option ℕ) × (first_free_frame s ≡ ok r) × FirstFree s.bitmap s.total r
    first = first_free_frame-FirstFree s v.words v.size

    r : Option ℕ
    r = first.0

    e : first_free_frame s ≡ ok r
    e = first.1

    found : FirstFree s.bitmap s.total r
    found = first.2

    go :
        (o : Option ℕ)
        → first_free_frame s ≡ ok o
        → FirstFree s.bitmap s.total o
        → (addr : ℕ) × (s' : Pmm) × (alloc_frame s ≡ ok (addr, s'))
          × (Took s addr s' ⊎ (AllUsed s.bitmap s.total × (addr ≡ 0) × (s' ≡ s)))
    go none p all = (0, s, rw p, inr (all, refl, refl))
    go (some f) p (lt, clear, below) =
        let z = v.size in
        let (bm, done, t) = set_Turned s v f (omega arith) clear in
        let back : f * frame_size / frame_size ≡ f = omega arith in
        (
          f * frame_size,
          record s { bitmap = bm; used = add32 s.used 1 },
          rw (p, back, done),
          inl (record {
            aligned = omega arith;
            inside = rw back lt;
            lowest = rw back below;
            turned = rw back t;
          }),
        )
