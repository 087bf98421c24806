-- ===== src/Pmm/Bitmap.antt =====
-- One bit of the frame bitmap: what a write of it leaves, and what it does to the number of set bits.
use cf_os.Base.{
  ℕ, zero, suc, ◌+◌, ◌*◌, ◌/◌, ◌%◌, ◌<◌, ◌≡◌, ◌≢◌, refl, ap, sym, subst, ◌∙◌, Bool, true, false,
  some, List, [], ◌∷◌, arith, ◌==◌, length, get_elem?, get_or, set, length-set, Run, ok, Bool-cases,
  Option-cases, get_elem?-lt, inl, inr, fault, ◌≤◌,
}
use cf_os.Pmm.{Word, look, mark}

-- every word has 32 bits
abbrev pub AllWords : List Word → Type 0
AllWords [] = Unit {0}
AllWords (w ∷ ws) = (length w ≡ 32) × AllWords ws

abbrev pub bit : Bool → ℕ
bit true = 1
bit false = 0

abbrev pub count_bits : Word → ℕ
count_bits [] = 0
count_bits (x ∷ w) = bit x + count_bits w

-- how many frames the bitmap marks as used
abbrev pub count : List Word → ℕ
count [] = 0
count (w ∷ ws) = count_bits w + count ws

get_or-set_self : (w : Word) (i : ℕ) (v : Bool) → i < length w → get_or (set w i v) i false ≡ v
get_or-set_self [] i v h = absurd (omega arith)
get_or-set_self (x ∷ w) zero v h = refl
get_or-set_self (x ∷ w) (suc i) v h = get_or-set_self w i v (omega arith)

get_or-set_ne :
    (w : Word) (i j : ℕ) (v : Bool) → i ≢ j → get_or (set w i v) j false ≡ get_or w j false
get_or-set_ne [] i j v h = refl
get_or-set_ne (x ∷ w) zero zero v h = absurd (h refl)
get_or-set_ne (x ∷ w) zero (suc j) v h = refl
get_or-set_ne (x ∷ w) (suc i) zero v h = refl
get_or-set_ne (x ∷ w) (suc i) (suc j) v h = get_or-set_ne w i j v (λ e. h (ap suc e))

count_bits-set :
    (w : Word) (i : ℕ) (v : Bool)
    → i < length w
    → count_bits (set w i v) + bit (get_or w i false) ≡ count_bits w + bit v
count_bits-set [] i v h = absurd (omega arith)
count_bits-set (x ∷ w) zero v h = omega arith
count_bits-set (x ∷ w) (suc i) v h = omega (arith, count_bits-set w i v (omega arith))

AllWords-set :
    (ws : List Word) (i : ℕ) (w : Word) → AllWords ws → length w ≡ 32 → AllWords (set ws i w)
AllWords-set [] i w a h = tt
AllWords-set (x ∷ ws) zero w a h = (h, a.1)
AllWords-set (x ∷ ws) (suc i) w a h = (a.0, AllWords-set ws i w a.1 h)

count-set :
    (ws : List Word) (i : ℕ) (u w : Word)
    → get_elem? ws i ≡ some u
    → count (set ws i w) + count_bits u ≡ count ws + count_bits w
count-set [] i u w h = absurd (ground arith)
count-set (x ∷ ws) zero u w h = let e : count_bits x ≡ count_bits u = ground arith in omega arith
count-set (x ∷ ws) (suc i) u w h = omega (arith, count-set ws i u w h)

-- The word that holds a frame, for a frame that the bitmap covers.
pub word_at :
    (ws : List Word) (i : ℕ)
    → AllWords ws
    → i < length ws
    → (w : Word) × (get_elem? ws i ≡ some w) × (length w ≡ 32)
word_at [] i a h = absurd (omega arith)
word_at (x ∷ ws) zero a h = (x, refl, a.0)
word_at (x ∷ ws) (suc i) a h = word_at ws i a.1 (omega arith)

set_same : (ws : List Word) (i : ℕ) (w : Word) → i < length ws → get_elem? (set ws i w) i ≡ some w
set_same [] i w h = absurd (omega arith)
set_same (x ∷ ws) zero w h = refl
set_same (x ∷ ws) (suc i) w h = set_same ws i w (omega arith)

set_other :
    (ws : List Word) (i j : ℕ) (w : Word) → i ≢ j → get_elem? (set ws i w) j ≡ get_elem? ws j
set_other [] i j w h = refl
set_other (x ∷ ws) zero zero w h = absurd (h refl)
set_other (x ∷ ws) zero (suc j) w h = refl
set_other (x ∷ ws) (suc i) zero w h = refl
set_other (x ∷ ws) (suc i) (suc j) w h = set_other ws i j w (λ e. h (ap suc e))

-- What the write of bit `f` is to leave.
pub record Marked (bm : List Word) (f : ℕ) (old v : Bool) (bm' : List Word) : Type 0 where
  pub done : mark bm f v ≡ ok bm'
  pub words : AllWords bm'
  pub size : length bm' ≡ length bm
  pub at : look bm' f ≡ ok v
  pub other : (g : ℕ) → f ≢ g → look bm' g ≡ look bm g
  pub counted : count bm' + bit old ≡ count bm + bit v

pub look_of_word :
    (bm : List Word) (f : ℕ) (w : Word)
    → get_elem? bm (f / 32) ≡ some w
    → look bm f ≡ ok (get_or w (f % 32) false)
unfolding look
look_of_word bm f w e = rw (e, look)

look_cong :
    (bm bm' : List Word) (f : ℕ)
    → get_elem? bm' (f / 32) ≡ get_elem? bm (f / 32)
    → look bm' f ≡ look bm f
unfolding look
look_cong bm bm' f e = rw (e, look)

pub look_total :
    (bm : List Word) (f : ℕ) → AllWords bm → f < 32 * length bm → (b : Bool) × (look bm f ≡ ok b)
look_total bm f a h =
    let (w, e, l) = word_at bm (f / 32) a (omega arith) in
    (get_or w (f % 32) false, look_of_word bm f w e)

look-mark_other :
    (bm : List Word) (f g : ℕ) (v : Bool) (w : Word)
    → get_elem? bm (f / 32) ≡ some w
    → f / 32 < length bm
    → f ≢ g
    → look (set bm (f / 32) (set w (f % 32) v)) g ≡ look bm g
look-mark_other bm f g v w e l ne = elim (Bool-cases (f / 32 == g / 32)) [
  | inl same ↦
      let new = set w (f % 32) v in
      let s : f / 32 ≡ g / 32 = ground arith in
      look_of_word (set bm (f / 32) new) g new (rw (← s) (set_same bm (f / 32) new l))
      ∙ ap ok (get_or-set_ne w (f % 32) (g % 32) v (λ t. ne (omega arith)))
      ∙ sym (look_of_word bm g w (rw (← s) e))
  | inr far ↦
      look_cong bm (set bm (f / 32) (set w (f % 32) v)) g
        (set_other bm (f / 32) (g / 32) (set w (f % 32) v) (ground arith))
]

module _ (bm : List Word) (f : ℕ) (old v : Bool) (w : Word) (a : AllWords bm)
    (e : get_elem? bm (f / 32) ≡ some w) (l : length w ≡ 32) (k : f / 32 < length bm) where
  mark_word : get_or w (f % 32) false ≡ old → Marked bm f old v (set bm (f / 32) (set w (f % 32) v))
  unfolding mark
  mark_word o = record {
    done = rw (e, mark);
    words = AllWords-set bm (f / 32) (set w (f % 32) v) a (length-set w (f % 32) v ∙ l);
    size = length-set bm (f / 32) (set w (f % 32) v);
    at =
        look_of_word (set bm (f / 32) (set w (f % 32) v)) f (set w (f % 32) v)
          (set_same bm (f / 32) (set w (f % 32) v) k)
        ∙ ap ok (get_or-set_self w (f % 32) v (omega arith));
    other = λ g ne. look-mark_other bm f g v w e k ne;
    counted = omega (
      arith,
      count-set bm (f / 32) w (set w (f % 32) v) e,
      count_bits-set w (f % 32) v (omega arith),
      ap bit o,
    );
  }

-- A write of a bit that the bitmap covers changes that bit, and the count of set bits with it.
pub mark_lem :
    (bm : List Word) (f : ℕ) (old v : Bool)
    → AllWords bm
    → look bm f ≡ ok old
    → f < 32 * length bm
    → (bm' : List Word) × Marked bm f old v bm'
mark_lem bm f old v a seen h =
    let (w, e, l) = word_at bm (f / 32) a (omega arith) in
    let same : ◌≡◌ {A = Run Bool} (ok (get_or w (f % 32) false)) (ok old) =
      sym (look_of_word bm f w e) ∙ seen in
    (set bm (f / 32) (set w (f % 32) v), mark_word bm f old v w a e l (omega arith) (cc))

count_bits-le : (w : Word) → count_bits w ≤ length w
count_bits-le [] = omega arith
count_bits-le (true ∷ w) = omega (arith, count_bits-le w)
count_bits-le (false ∷ w) = omega (arith, count_bits-le w)

-- No more frames are in use than the bitmap has bits.
pub count-le : (bm : List Word) → AllWords bm → count bm ≤ 32 * length bm
count-le [] a = omega arith
count-le (w ∷ ws) a = omega (arith, count_bits-le w, count-le ws a.1)

set-set_word :
    (w : Word) (i : ℕ) (v old : Bool) → get_or w i false ≡ old → set (set w i v) i old ≡ w
set-set_word [] i v old h = refl
set-set_word (x ∷ w) zero v old h = ap (λ y. y ∷ w) (sym h)
set-set_word (x ∷ w) (suc i) v old h = ap (λ y. x ∷ y) (set-set_word w i v old h)

set-set_same :
    (ws : List Word) (i : ℕ) (u v w : Word)
    → get_elem? ws i ≡ some w
    → u ≡ w
    → set (set ws i v) i u ≡ ws
set-set_same [] i u v w h e = refl
set-set_same (x ∷ ws) zero u v w h e =
    let x_is : x ≡ w = ground arith in ap (λ y. y ∷ ws) (e ∙ sym x_is)
set-set_same (x ∷ ws) (suc i) u v w h e = ap (λ y. x ∷ y) (set-set_same ws i u v w h e)

-- Writing the old bit back restores the bitmap.
pub mark-mark_back :
    (bm bm' : List Word) (f : ℕ) (old v : Bool)
    → look bm f ≡ ok old
    → mark bm f v ≡ ok bm'
    → mark bm' f old ≡ ok bm
unfolding look mark
mark-mark_back bm bm' f old v seen done = elim (Option-cases (get_elem? bm (f / 32))) [
  | inl missing ↦ absurd (ground arith)
  | inr (w, e) ↦
      let here : get_or w (f % 32) false ≡ old = ground arith in
      let is : set bm (f / 32) (set w (f % 32) v) ≡ bm' = ground arith in
      let there = set_same bm (f / 32) (set w (f % 32) v) (get_elem?-lt bm (f / 32) e) in
      let back : mark (set bm (f / 32) (set w (f % 32) v)) f old ≡ ok bm =
        rw (mark, there)
          (ap ok (
            set-set_same bm (f / 32) (set (set w (f % 32) v) (f % 32) old) (set w (f % 32) v) w e
              (set-set_word w (f % 32) v old here))) in
      subst (λ b. mark b f old ≡ ok bm) is back
]

-- Beyond the bitmap there is no bit to read.
pub look_fault : (bm : List Word) (f : ℕ) → 32 * length bm ≤ f → look bm f ≡ fault
unfolding look
look_fault bm f h = elim (Option-cases (get_elem? bm (f / 32))) [
  | inl missing ↦ rw (look, missing)
  | inr (w, e) ↦ absurd (omega (arith, get_elem?-lt bm (f / 32) e))
]
