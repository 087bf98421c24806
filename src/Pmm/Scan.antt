-- ===== src/Pmm/Scan.antt =====
-- `first_free_frame`: its two loops over the words and their bits.
use cf_os.Base.{
  ℕ, zero, suc, ◌+◌, ◌*◌, ◌/◌, ◌%◌, ◌≤◌, ◌<◌, ◌≡◌, refl, ap, ◌∙◌, true, false, Option, some, none,
  List, [], ◌∷◌, arith, ltb, length, get_elem?, get_or, ok, Bool-cases, inl, inr,
}
use cf_os.Pmm.{Word, Pmm, look, free_bit, all_ones, scan, first_free_frame}
use cf_os.Pmm.Bitmap.{AllWords, word_at, look_of_word}

-- bit `k` of the word is clear and every lower one is set
abbrev FirstClear : Word → ℕ → Type 0
FirstClear w k =
    (k < length w) × (get_or w k false ≡ false) × ((j : ℕ) → j < k → get_or w j false ≡ true)

FirstClear-cons : (w : Word) (k : ℕ) → FirstClear w k → FirstClear (true ∷ w) (suc k)
FirstClear-cons w k (l, z, below) = (omega arith, z, go)
  where
    go : (j : ℕ) → j < suc k → get_or (true ∷ w) j false ≡ true
    go zero h = refl
    go (suc j) h = below j (omega arith)

free_bit-FirstClear :
    (w : Word) (b : ℕ)
    → all_ones w ≡ false
    → (k : ℕ) × (free_bit w b ≡ some (b + k)) × FirstClear w k
unfolding free_bit all_ones
free_bit-FirstClear [] b h = absurd (cc)
free_bit-FirstClear (false ∷ w) b h =
    (0, ap some (omega arith), (omega arith, refl, λ j p. absurd (omega arith)))
free_bit-FirstClear (true ∷ w) b h =
    let (k, e, f) = free_bit-FirstClear w (b + 1) h in
    (suc k, e ∙ ap some (omega arith), FirstClear-cons w k f)

all_ones_lem : (w : Word) (j : ℕ) → all_ones w ≡ true → j < length w → get_or w j false ≡ true
unfolding all_ones
all_ones_lem [] j h l = absurd (omega arith)
all_ones_lem (false ∷ w) j h l = absurd (cc)
all_ones_lem (true ∷ w) zero h l = refl
all_ones_lem (true ∷ w) (suc j) h l = all_ones_lem w j h (omega arith)

-- every frame below `n` is in use
abbrev pub AllUsed : List Word → ℕ → Type 0
AllUsed bm n = (g : ℕ) → g < n → look bm g ≡ ok true

-- what the search for a free frame is to answer
abbrev pub FirstFree : List Word → ℕ → Option ℕ → Type 0
FirstFree bm total none = AllUsed bm total
FirstFree bm total (some f) = (f < total) × (look bm f ≡ ok false) × AllUsed bm f

-- The frames below word `i` being in use, so are those up to bit `k` of that word.
AllUsed-word :
    (bm : List Word) (i k : ℕ) (w : Word)
    → get_elem? bm i ≡ some w
    → AllUsed bm (i * 32)
    → ((j : ℕ) → j < k → get_or w j false ≡ true)
    → k ≤ 32
    → AllUsed bm (i * 32 + k)
AllUsed-word bm i k w e below bits small g h = elim (Bool-cases (ltb g (i * 32))) [
  | inl low ↦ below g (ground arith)
  | inr high ↦
      let q : g / 32 ≡ i = ground arith in
      look_of_word bm g w (rw q e) ∙ ap ok (bits (g % 32) (ground arith))
]

module _ (bm : List Word) (total : ℕ) (a : AllWords bm) (fits : total ≤ 32 * length bm) where
  scan_step :
      (n i : ℕ) (w : Word) (k : ℕ)
      → get_elem? bm i ≡ some w
      → length w ≡ 32
      → all_ones w ≡ false
      → free_bit w 0 ≡ some (0 + k)
      → FirstClear w k
      → AllUsed bm (i * 32)
      → (r : Option ℕ) × (scan bm total (suc n) i ≡ ok r) × FirstFree bm total r
  unfolding scan
  scan_step n i w k e l ones found (inside, clear, bits) below =
      let found' : free_bit w 0 ≡ some k = found ∙ ap some (omega arith) in
      let used = AllUsed-word bm i k w e below bits (omega arith) in
      elim (Bool-cases (ltb (i * 32 + k) total)) [
        | inl in_range ↦
            let q : (i * 32 + k) / 32 ≡ i = omega arith in
            let m : (i * 32 + k) % 32 ≡ k = omega arith in
            (
              some (i * 32 + k),
              rw (scan, e, ones, found', in_range),
              (
                ground arith,
                look_of_word bm (i * 32 + k) w (rw q e)
                    ∙ ap ok (ap (λ t. get_or w t false) m ∙ clear),
                used,
              ),
            )
        | inr beyond ↦ (none, rw (scan, e, ones, found', beyond), λ g h. used g (ground arith))
      ]

  scan_lem :
      (n i : ℕ)
      → i + n ≡ length bm
      → AllUsed bm (i * 32)
      → (r : Option ℕ) × (scan bm total n i ≡ ok r) × FirstFree bm total r
  unfolding scan
  scan_lem zero i e below = (none, refl, λ g h. below g (omega arith))
  scan_lem (suc n) i e below =
      let (w, at, l) = word_at bm i a (omega arith) in
      elim (Bool-cases (all_ones w)) [
        | inl ones ↦
            let used =
              AllUsed-word bm i 32 w at below (λ j h. all_ones_lem w j ones (omega arith))
                (omega arith) in
            let (r, s, f) = scan_lem n (i + 1) (omega arith) (λ g h. used g (omega arith)) in
            (r, rw (scan, at, ones) s, f)
        | inr some_clear ↦
            let (k, found, f) = free_bit-FirstClear w 0 some_clear in
            scan_step n i w k at l some_clear found f below
      ]

-- On a bitmap of 32-bit words with just enough of them for the frame total, `first_free_frame` reads
-- only inside the bitmap and answers with the lowest free frame, or with none exactly where all
-- frames are in use.
pub first_free_frame-FirstFree :
    (s : Pmm)
    → AllWords s.bitmap
    → length s.bitmap ≡ (s.total + 31) / 32
    → (r : Option ℕ) × (first_free_frame s ≡ ok r) × FirstFree s.bitmap s.total r
unfolding first_free_frame
first_free_frame-FirstFree s a size =
    scan_lem s.bitmap s.total a (omega arith) ((s.total + 31) / 32) 0 (omega arith)
      (λ g h. absurd (omega arith))
