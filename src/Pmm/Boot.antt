-- ===== src/Pmm/Boot.antt =====
-- `pmm_init`: the frames that its loop claims.
use cf_os.Base.{
  ℕ, zero, suc, ◌+◌, ◌*◌, ◌/◌, ◌%◌, ◌^◌, ◌≤◌, ◌<◌, ◌≡◌, refl, ap, sym, subst, ◌∙◌, true, false,
  some, List, arith, ltb, ◌==◌, length, replicate, length-replicate, get_elem?, get_or, ok, ◌>>=◌,
  ne→==, Bool-cases, inl, inr,
}
use cf_os.Base.Errno.{Errno}
use cf_os.Pmm.{Word, Pmm, frame_size, add32, align_up, rounds, look, set_frame, claim_loop, init}
use cf_os.Pmm.Bitmap.{AllWords, count, mark_lem, look_of_word}
use cf_os.Pmm.Scan.{AllUsed}
use cf_os.Pmm.Frames.{IsValid}

-- The first `k` frames are in use and counted, the others are free.
pub record Claimed (words total k : ℕ) (s : Pmm) : Type 0 where
  pub all_words : AllWords s.bitmap
  pub size : length s.bitmap ≡ words
  pub total_is : s.total ≡ total
  pub used_is : s.used ≡ k
  pub count_is : count s.bitmap ≡ k
  pub below : AllUsed s.bitmap k
  pub above : (g : ℕ) → k ≤ g → g < 32 * words → look s.bitmap g ≡ ok false

Claimed-suc :
    (words total k : ℕ) (s : Pmm)
    → Claimed words total k s
    → k < 32 * words
    → k < 2 ^ 20
    → (bm : List Word) × (set_frame s.bitmap (k * frame_size) ≡ ok bm)
      × Claimed words total (suc k) (record s { bitmap = bm; used = add32 s.used 1 })
unfolding set_frame
Claimed-suc words total k s c inside small =
    let z = c.size in
    let y = c.used_is in
    let x = c.count_is in
    let clear = c.above k (omega arith) inside in
    let (bm, m) = mark_lem s.bitmap k false true c.all_words clear (omega arith) in
    let at_k : k * frame_size / frame_size ≡ k = omega arith in
    (
      bm,
      rw at_k m.done,
      record {
        all_words = m.words;
        size = m.size ∙ z;
        total_is = c.total_is;
        used_is = omega arith;
        count_is = omega (arith, m.counted);
        below = λ g h. elim (Bool-cases (k == g)) [
          | inl same ↦ let e : k ≡ g = ground arith in subst (λ t. look bm t ≡ ok true) e m.at
          | inr apart ↦ m.other g (ground arith) ∙ c.below g (ground arith)
        ];
        above = λ g h l. m.other g (omega arith) ∙ c.above g (omega arith) l;
      },
    )

claim_loop-step :
    (n addr end next : ℕ) (s : Pmm) (bm : List Word)
    → ltb addr end ≡ true
    → set_frame s.bitmap addr ≡ ok bm
    → add32 addr frame_size ≡ next
    → claim_loop (suc n) addr end s
      ≡ claim_loop n next end (record s { bitmap = bm; used = add32 s.used 1 })
unfolding claim_loop
claim_loop-step n addr end next s bm more done e =
    rw (more, done)
      (ap (λ x. claim_loop n x end (record s { bitmap = bm; used = add32 s.used 1 })) e)

-- The loop turns `Claimed k` into `Claimed m`, with `m` the frames up to `end`, in the rounds given.
claim_loop-Claimed :
    (n words total k m end : ℕ) (s : Pmm)
    → m ≡ (end + 4095) / 4096
    → m ≤ 32 * words
    → m < 2 ^ 20
    → k ≤ m
    → m < k + n
    → Claimed words total k s
    → (s' : Pmm) × (claim_loop n (k * frame_size) end s ≡ ok s') × Claimed words total m s'
unfolding claim_loop
claim_loop-Claimed zero words total k m end s em fits small le fuel c = absurd (omega arith)
claim_loop-Claimed (suc n) words total k m end s em fits small le fuel c =
    elim (Bool-cases (ltb (k * frame_size) end)) [
      | inr out ↦
          let same : k ≡ m = ground arith in
          (s, rw out, subst (λ t. Claimed words total t s) same c)
      | inl more ↦
          let (bm, done, c') = Claimed-suc words total k s c (ground arith) (omega arith) in
          let next : add32 (k * frame_size) frame_size ≡ suc k * frame_size = ground arith in
          let (s', e, c'') =
            claim_loop-Claimed n words total (suc k) m end
              (record s { bitmap = bm; used = add32 s.used 1 }) em fits small (ground arith)
              (omega arith) c' in
          (
            s',
            claim_loop-step n (k * frame_size) end (suc k * frame_size) s bm more done next ∙ e,
            c'',
          )
    ]

AllWords-replicate : (n : ℕ) → AllWords (replicate n (replicate 32 false))
AllWords-replicate zero = tt
AllWords-replicate (suc n) = (refl, AllWords-replicate n)

count-replicate : (n : ℕ) → count (replicate n (replicate 32 false)) ≡ 0
count-replicate zero = refl
count-replicate (suc n) = omega (arith, count-replicate n)

get_elem?-replicate : (n i : ℕ) (w : Word) → i < n → get_elem? (replicate n w) i ≡ some w
get_elem?-replicate zero i w h = absurd (omega arith)
get_elem?-replicate (suc n) zero w h = refl
get_elem?-replicate (suc n) (suc i) w h = get_elem?-replicate n i w (omega arith)

get_or-replicate : (n i : ℕ) → get_or (replicate n false) i false ≡ false
get_or-replicate zero i = refl
get_or-replicate (suc n) zero = refl
get_or-replicate (suc n) (suc i) = get_or-replicate n i

Claimed-zero :
    (words total : ℕ)
    → Claimed words total 0
        (record { bitmap = replicate words (replicate 32 false); total = total; used = 0 })
Claimed-zero words total = record {
  all_words = AllWords-replicate words;
  size = length-replicate words (replicate 32 false);
  total_is = refl;
  used_is = refl;
  count_is = count-replicate words;
  below = λ g h. absurd (omega arith);
  above = λ g l h.
      look_of_word (replicate words (replicate 32 false)) g (replicate 32 false)
        (get_elem?-replicate words (g / 32) (replicate 32 false) (omega arith))
      ∙ ap ok (get_or-replicate 32 (g % 32));
}

-- where the bitmap starts and how far the reserved region goes
abbrev pub words_of : ℕ → ℕ
words_of mem_size = (mem_size / frame_size + 31) / 32

abbrev pub reserved_end : ℕ → ℕ → ℕ
reserved_end mem_size kernel_end = add32 (align_up kernel_end frame_size) (words_of mem_size * 4)

-- With a kernel that ends above 0 and a bitmap that fits in a memory below 4 GiB, `pmm_init`
-- succeeds, puts in use exactly the frames up to the bitmap's end, counts them, and leaves a
-- well-formed allocator.
pub init-Claimed :
    (mem_size kernel_end : ℕ) (s : Pmm)
    → 0 < kernel_end
    → kernel_end + 4095 < 2 ^ 32
    → mem_size < 2 ^ 32
    → align_up kernel_end frame_size + words_of mem_size * 4 + 4095 ≤ mem_size
    → (s' : Pmm) × (init mem_size kernel_end s ≡ ok (Errno.success, s'))
      × Claimed
          (words_of mem_size)
          (mem_size / frame_size)
          ((reserved_end mem_size kernel_end + 4095) / frame_size)
          s'
      × IsValid s'
unfolding init
init-Claimed mem_size kernel_end s pos no_wrap small fits =
    let zero_size : (mem_size == 0) ≡ false = ne→== mem_size 0 (omega arith) in
    let has_place : (align_up kernel_end frame_size == 0) ≡ false =
      ne→== (align_up kernel_end frame_size) 0 (omega arith) in
    let (s', e, c) =
      claim_loop-Claimed (rounds (reserved_end mem_size kernel_end)) (words_of mem_size)
        (mem_size / frame_size) 0 ((reserved_end mem_size kernel_end + 4095) / frame_size)
        (reserved_end mem_size kernel_end)
        (record {
          bitmap = replicate (words_of mem_size) (replicate 32 false);
          total = mem_size / frame_size;
          used = 0;
        })
        refl (omega arith) (omega arith) (omega arith) (omega arith)
        (Claimed-zero (words_of mem_size) (mem_size / frame_size)) in
    (
      s',
      rw (zero_size, has_place) (ap (λ r. r >>= λ u. ok (Errno.success, u)) e),
      c,
      record {
        words = c.all_words;
        size = c.size ∙ ap (λ t. (t + 31) / 32) (sym c.total_is);
        counted = c.used_is ∙ sym c.count_is;
        small = rw c.total_is (omega arith);
      },
    )
