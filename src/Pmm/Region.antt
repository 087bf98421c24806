-- ===== src/Pmm/Region.antt =====
-- `pmm_reserve_region` and `pmm_unreserve_region`: what a walk over a region does to its frames.
use cf_os.Base.{
  ℕ, zero, suc, ◌+◌, ◌*◌, ◌/◌, ◌^◌, ◌≤◌, ◌<◌, ◌≡◌, refl, ap, sym, subst, ◌∙◌, Bool, true, false,
  arith, ltb, leb, ◌==◌, length, ok, ◌>>=◌, le→ltb, Bool-cases, inl, inr, Run,
}
use cf_os.Base.Errno.{Errno}
use cf_os.Pmm.{
  Pmm, frame_size, add32, drop_used, align_up, align_down, rounds, look, set_frame, clear_frame,
  test_frame, reserve_one, unreserve_one, region_loop, region, reserve_region, unreserve_region,
}
use cf_os.Pmm.Bitmap.{look_total}
use cf_os.Pmm.Frames.{IsValid, Turned, set_Turned, clear_Turned}

-- The frames from `lo` up to `hi` have the bit `v`, the others are as they were, and so is the rest.
pub record Covers (s : Pmm) (lo hi : ℕ) (v : Bool) (s' : Pmm) : Type 0 where
  pub inside : (g : ℕ) → lo ≤ g → g < hi → look s'.bitmap g ≡ ok v
  pub low : (g : ℕ) → g < lo → look s'.bitmap g ≡ look s.bitmap g
  pub high : (g : ℕ) → hi ≤ g → look s'.bitmap g ≡ look s.bitmap g
  pub total_kept : s'.total ≡ s.total
  pub size_kept : length s'.bitmap ≡ length s.bitmap
  pub valid : IsValid s'

Covers-of_Turned :
    (s s' : Pmm) (k : ℕ) (old v : Bool) → IsValid s → Turned s k old v s' → Covers s k (suc k) v s'
Covers-of_Turned s s' k old v ok_s t =
    let a = t.valid.size in
    let b = ok_s.size in
    let c = t.total_kept in
    record {
      inside =
          λ g l h. let e : k ≡ g = omega arith in subst (λ x. look s'.bitmap x ≡ ok v) e t.after;
      low = λ g h. t.other g (omega arith);
      high = λ g h. t.other g (omega arith);
      total_kept = c;
      size_kept = a ∙ ap (λ x. (x + 31) / 32) c ∙ sym b;
      valid = t.valid;
    }

Covers-of_same :
    (s : Pmm) (k : ℕ) (v : Bool) → IsValid s → look s.bitmap k ≡ ok v → Covers s k (suc k) v s
Covers-of_same s k v ok_s seen = record {
  inside = λ g l h. let e : k ≡ g = omega arith in subst (λ x. look s.bitmap x ≡ ok v) e seen;
  low = λ g h. refl;
  high = λ g h. refl;
  total_kept = refl;
  size_kept = refl;
  valid = ok_s;
}

-- One round covers the frame that it is at.
abbrev OneRound : (ℕ → Pmm → Run Pmm) → Bool → Type 0
OneRound one v =
    (s : Pmm) (k : ℕ)
    → IsValid s
    → k < 32 * length s.bitmap
    → (s' : Pmm) × (one (k * frame_size) s ≡ ok s') × Covers s k (suc k) v s'

reserve_one-round : OneRound reserve_one true
unfolding reserve_one test_frame set_frame
reserve_one-round s k v h =
    let (b, seen) = look_total s.bitmap k v.words h in
    let at : k * frame_size / frame_size ≡ k = omega arith in
    elim (Bool-cases b) [
      | inl taken ↦
          let seen' : look s.bitmap k ≡ ok true = seen ∙ ap ok taken in
          (s, rw (at, seen'), Covers-of_same s k true v seen')
      | inr clear ↦
          let seen' : look s.bitmap k ≡ ok false = seen ∙ ap ok clear in
          let (bm, done, t) = set_Turned s v k h seen' in
          let s' : Pmm = record s { bitmap = bm; used = add32 s.used 1 } in
          (s', rw (at, seen', done), Covers-of_Turned s s' k false true v t)
    ]

unreserve_one-round : OneRound unreserve_one false
unfolding unreserve_one test_frame clear_frame
unreserve_one-round s k v h =
    let (b, seen) = look_total s.bitmap k v.words h in
    let at : k * frame_size / frame_size ≡ k = omega arith in
    elim (Bool-cases b) [
      | inr clear ↦
          let seen' : look s.bitmap k ≡ ok false = seen ∙ ap ok clear in
          (s, rw (at, seen'), Covers-of_same s k false v seen')
      | inl taken ↦
          let seen' : look s.bitmap k ≡ ok true = seen ∙ ap ok taken in
          let (bm, done, t) = clear_Turned s v k h seen' in
          let s' : Pmm = record s { bitmap = bm; used = drop_used s.used } in
          (s', rw (at, seen', done), Covers-of_Turned s s' k true false v t)
    ]

Covers-join :
    (s t u : Pmm) (lo hi : ℕ) (v : Bool)
    → lo < hi
    → Covers s lo (suc lo) v t
    → Covers t (suc lo) hi v u
    → Covers s lo hi v u
Covers-join s t u lo hi v h a b = record {
  inside = λ g l k. elim (Bool-cases (lo == g)) [
    | inl same ↦ let e : lo ≡ g = ground arith in b.low g (omega arith) ∙ a.inside g l (omega arith)
    | inr apart ↦ b.inside g (ground arith) k
  ];
  low = λ g k. b.low g (omega arith) ∙ a.low g k;
  high = λ g k. b.high g k ∙ a.high g (omega arith);
  total_kept = b.total_kept ∙ a.total_kept;
  size_kept = b.size_kept ∙ a.size_kept;
  valid = b.valid;
}

Covers-empty : (s : Pmm) (k : ℕ) (v : Bool) → IsValid s → Covers s k k v s
Covers-empty s k v ok_s = record {
  inside = λ g l h. absurd (omega arith);
  low = λ g h. refl;
  high = λ g h. refl;
  total_kept = refl;
  size_kept = refl;
  valid = ok_s;
}

module _ (one : ℕ → Pmm → Run Pmm) where
  region_loop-step :
      (n a end next : ℕ) (s s' : Pmm)
      → ltb a end ≡ true
      → one a s ≡ ok s'
      → add32 a frame_size ≡ next
      → region_loop one (suc n) a end s ≡ region_loop one n next end s'
  unfolding region_loop
  region_loop-step n a end next s s' more done e =
      rw (more, done) (ap (λ x. region_loop one n x end s') e)

  region_loop-Covers :
      (v : Bool) (n lo hi : ℕ) (s : Pmm)
      → OneRound one v
      → IsValid s
      → hi ≤ 32 * length s.bitmap
      → hi < 2 ^ 20
      → lo ≤ hi
      → hi < lo + n
      → (s' : Pmm) × (region_loop one n (lo * frame_size) (hi * frame_size) s ≡ ok s')
        × Covers s lo hi v s'
  unfolding region_loop
  region_loop-Covers v zero lo hi s round ok_s fits small le fuel = absurd (omega arith)
  region_loop-Covers v (suc n) lo hi s round ok_s fits small le fuel =
      elim (Bool-cases (ltb (lo * frame_size) (hi * frame_size))) [
        | inr out ↦
            let same : lo ≡ hi = ground arith in
            (s, rw out, subst (λ x. Covers s lo x v s) same (Covers-empty s lo v ok_s))
        | inl more ↦
            let lt : lo < hi = ground arith in
            let (t, done, c) = round s lo ok_s (omega arith) in
            let next : add32 (lo * frame_size) frame_size ≡ suc lo * frame_size = omega arith in
            let (u, e, d) =
              region_loop-Covers v n (suc lo) hi t round c.valid (omega (arith, c.size_kept)) small
                (omega arith) (omega arith) in
            (
              u,
              region_loop-step n (lo * frame_size) (hi * frame_size) (suc lo * frame_size) s t more
                    done next
                  ∙ e,
              Covers-join s t u lo hi v lt c d,
            )
      ]

  region-Covers :
      (v : Bool) (start end : ℕ) (s : Pmm)
      → OneRound one v
      → IsValid s
      → start < end
      → end + 4095 < 2 ^ 32
      → (end + 4095) / frame_size ≤ 32 * length s.bitmap
      → (s' : Pmm) × (region one start end s ≡ ok (Errno.success, s'))
        × Covers s (start / frame_size) ((end + 4095) / frame_size) v s'
  region-Covers v start end s round ok_s order no_wrap fits =
      let lo = start / frame_size in
      let hi = (end + 4095) / frame_size in
      let (s', e, c) =
        region_loop-Covers v (rounds (hi * frame_size)) lo hi s round ok_s fits (omega arith)
          (omega arith) (omega arith) in
      let up : add32 end 4095 ≡ end + 4095 = omega arith in
      let test : leb end start ≡ false = ground arith in
      (s', rw (test, up) (ap (λ r. r >>= λ u. ok (Errno.success, u)) e), c)

-- On a well-formed allocator, reserving a non-empty region inside the bitmap whose end rounds up
-- without overflow succeeds, puts exactly the frames that it touches in use, besides those already
-- used, and keeps the count exact.
pub reserve_region-Covers :
    (start end : ℕ) (s : Pmm)
    → IsValid s
    → start < end
    → end + 4095 < 2 ^ 32
    → (end + 4095) / frame_size ≤ 32 * length s.bitmap
    → (s' : Pmm) × (reserve_region start end s ≡ ok (Errno.success, s'))
      × Covers s (start / frame_size) ((end + 4095) / frame_size) true s'
unfolding reserve_region
reserve_region-Covers start end s v order no_wrap fits =
    region-Covers reserve_one true start end s reserve_one-round v order no_wrap fits

-- On a well-formed allocator, releasing a non-empty region inside the bitmap whose end rounds up
-- without overflow succeeds, makes exactly the frames that it touches free, besides those already
-- free, and keeps the count exact.
pub unreserve_region-Covers :
    (start end : ℕ) (s : Pmm)
    → IsValid s
    → start < end
    → end + 4095 < 2 ^ 32
    → (end + 4095) / frame_size ≤ 32 * length s.bitmap
    → (s' : Pmm) × (unreserve_region start end s ≡ ok (Errno.success, s'))
      × Covers s (start / frame_size) ((end + 4095) / frame_size) false s'
unfolding unreserve_region
unreserve_region-Covers start end s v order no_wrap fits =
    region-Covers unreserve_one false start end s unreserve_one-round v order no_wrap fits

-- A region whose end lies in the last page of the 32-bit address space wraps to an end of 0: the
-- call succeeds and reserves nothing.
pub reserve_region-wraps :
    (start end : ℕ) (s : Pmm)
    → start < end
    → end < 2 ^ 32
    → 0xffff_f000 < end
    → reserve_region start end s ≡ ok (Errno.success, s)
unfolding reserve_region region_loop
reserve_region-wraps start end s order small last =
    let test : leb end start ≡ false = ground arith in
    let zero_end : align_up end frame_size ≡ 0 = omega arith in
    let none_below = le→ltb (align_down start frame_size) 0 (omega arith) in
    rw (test, zero_end, none_below)
