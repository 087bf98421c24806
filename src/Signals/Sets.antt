-- ===== src/Signals/Sets.antt =====
-- Membership in the sets of signals, after each operation on them.
use cf_os.Base.{
  ℕ, zero, suc, ◌-◌, ◌/◌, ◌%◌, ◌≤◌, ◌<◌, ◌≡◌, ◌≢◌, refl, ap, sym, ◌∙◌, Bool, true, false, [], ◌∷◌,
  arith, ◌==◌, length, set, replicate, length-set, get_or, if◌then◌else◌, ==_refl, ==_iff, not,
  ◌&&◌, ◌||◌, Bool-cases, inl, inr,
}
use cf_os.Base.{get_or-set_self, get_or-set_ne}
use cf_os.Base.Int.{ℤ, pos, negsuc, pos_part}
use cf_os.Signals.{
  Word, SigSet, word_bits, emptied, bits_with, words_with, out_of_range, bit, with_bit, sigaddset,
  sigdelset, sigismember, or_bits, and_not_bits,
}

-- two words of 32 bits
pub record IsSigSet (s : SigSet) : Type 0 where
  pub two : length s ≡ 2
  pub words : (i : ℕ) → i < 2 → length (get_or s i []) ≡ word_bits

pub with_bit_self :
    (s : SigSet) (k : ℕ) (v : Bool) → IsSigSet s → k < 64 → bit (with_bit s k v) k ≡ v
with_bit_self s k v h in_range =
    let w = get_or s (k / word_bits) [] in
    let size : length w ≡ word_bits = h.words (k / word_bits) (omega arith) in
    let outer : get_or (with_bit s k v) (k / word_bits) [] ≡ set w (k % word_bits) v =
      get_or-set_self s (k / word_bits) (set w (k % word_bits) v) [] (omega (arith, h.two)) in
    ap (λ x. get_or x (k % word_bits) false) outer
    ∙ get_or-set_self w (k % word_bits) v false (omega arith)

pub with_bit-ne :
    (s : SigSet) (k j : ℕ) (v : Bool)
    → IsSigSet s
    → k < 64
    → j ≢ k
    → bit (with_bit s k v) j ≡ bit s j
with_bit-ne s k j v h in_range ne = elim (Bool-cases (k / word_bits == j / word_bits)) [
  | inl t ↦
      let same : k / word_bits ≡ j / word_bits = (==_iff (k / word_bits) (j / word_bits)).0 t in
      let w = get_or s (k / word_bits) [] in
      let outer : get_or (with_bit s k v) (j / word_bits) [] ≡ set w (k % word_bits) v =
        ap (λ i. get_or (with_bit s k v) i []) (sym same)
        ∙ get_or-set_self s (k / word_bits) (set w (k % word_bits) v) [] (omega (arith, h.two)) in
      ap (λ x. get_or x (j % word_bits) false) outer
      ∙ get_or-set_ne w (k % word_bits) (j % word_bits) v false (omega arith)
      ∙ ap (λ i. get_or (get_or s i []) (j % word_bits) false) same
  | inr f ↦
      ap (λ x. get_or x (j % word_bits) false)
        (get_or-set_ne s (k / word_bits) (j / word_bits) _ []
          (λ e. ground (arith, ==_refl (j / word_bits))))
]

pub with_bit-IsSigSet :
    (s : SigSet) (k : ℕ) (v : Bool) → IsSigSet s → k < 64 → IsSigSet (with_bit s k v)
with_bit-IsSigSet s k v h in_range = record {
  two = length-set s (k / word_bits) _ ∙ h.two;
  words = λ i small. elim (Bool-cases (k / word_bits == i)) [
    | inl t ↦
        let same : k / word_bits ≡ i = (==_iff (k / word_bits) i).0 t in
        let w = get_or s (k / word_bits) [] in
        ap (λ x. length (get_or (with_bit s k v) x [])) (sym same)
        ∙ ap (λ (x : Word). length x)
            (get_or-set_self s (k / word_bits) (set w (k % word_bits) v) [] (omega (arith, h.two)))
        ∙ length-set w (k % word_bits) v
        ∙ h.words (k / word_bits) (omega arith)
    | inr f ↦
        ap (λ (x : Word). length x)
          (get_or-set_ne s (k / word_bits) i _ [] (λ e. ground (arith, ==_refl i)))
        ∙ h.words i small
  ];
}

get_or-bits_with :
    (f : Bool → Bool → Bool) (w v : Word) (i : ℕ)
    → i < length w
    → i < length v
    → get_or (bits_with f w v) i false ≡ f (get_or w i false) (get_or v i false)
unfolding bits_with
get_or-bits_with f [] v i a b = absurd (omega arith)
get_or-bits_with f (x ∷ w) [] i a b = absurd (omega arith)
get_or-bits_with f (x ∷ w) (y ∷ v) zero a b = refl
get_or-bits_with f (x ∷ w) (y ∷ v) (suc i) a b =
    get_or-bits_with f w v i (omega arith) (omega arith)

get_or-words_with :
    (f : Bool → Bool → Bool) (s t : SigSet) (i : ℕ)
    → i < length s
    → i < length t
    → get_or (words_with f s t) i [] ≡ bits_with f (get_or s i []) (get_or t i [])
unfolding words_with
get_or-words_with f [] t i a b = absurd (omega arith)
get_or-words_with f (x ∷ s) [] i a b = absurd (omega arith)
get_or-words_with f (x ∷ s) (y ∷ t) zero a b = refl
get_or-words_with f (x ∷ s) (y ∷ t) (suc i) a b =
    get_or-words_with f s t i (omega arith) (omega arith)

-- The operator acts on each signal by itself.
pub bit-words_with :
    (f : Bool → Bool → Bool) (s t : SigSet) (k : ℕ)
    → IsSigSet s
    → IsSigSet t
    → k < 64
    → bit (words_with f s t) k ≡ f (bit s k) (bit t k)
bit-words_with f s t k h g in_range =
    let i = k / word_bits in
    ap (λ x. get_or x (k % word_bits) false)
      (get_or-words_with f s t i (omega (arith, h.two)) (omega (arith, g.two)))
    ∙ get_or-bits_with f (get_or s i []) (get_or t i []) (k % word_bits)
        (omega (arith, h.words i (omega arith))) (omega (arith, g.words i (omega arith)))

length-words_with : (f : Bool → Bool → Bool) (s t : SigSet) → length (words_with f s t) ≡ length s
unfolding words_with
length-words_with f [] t = refl
length-words_with f (w ∷ s) [] = refl
length-words_with f (w ∷ s) (v ∷ t) = ap suc (length-words_with f s t)

length-bits_with : (f : Bool → Bool → Bool) (w v : Word) → length (bits_with f w v) ≡ length w
unfolding bits_with
length-bits_with f [] v = refl
length-bits_with f (b ∷ w) [] = refl
length-bits_with f (b ∷ w) (c ∷ v) = ap suc (length-bits_with f w v)

pub words_with-IsSigSet :
    (f : Bool → Bool → Bool) (s t : SigSet) → IsSigSet s → IsSigSet t → IsSigSet (words_with f s t)
words_with-IsSigSet f s t h g = record {
  two = length-words_with f s t ∙ h.two;
  words = λ i small.
      ap (λ (x : Word). length x)
        (get_or-words_with f s t i (omega (arith, h.two)) (omega (arith, g.two)))
      ∙ length-bits_with f (get_or s i []) (get_or t i [])
      ∙ h.words i small;
}

pub emptied-IsSigSet : (s : SigSet) → length s ≡ 2 → IsSigSet (emptied s)
unfolding emptied
emptied-IsSigSet [] e = absurd (omega arith)
emptied-IsSigSet (w ∷ []) e = absurd (omega arith)
emptied-IsSigSet (w ∷ v ∷ u ∷ s) e = absurd (omega arith)
emptied-IsSigSet (w ∷ v ∷ []) e = record { two = refl; words = each }
  where
    each : (i : ℕ) → i < 2 → length (get_or (emptied (w ∷ v ∷ [])) i []) ≡ word_bits
    each zero h = refl
    each (suc zero) h = refl
    each (suc (suc i)) h = absurd (omega arith)

get_or-replicate : (n j : ℕ) → get_or (replicate n false) j false ≡ false
get_or-replicate zero j = refl
get_or-replicate (suc n) zero = refl
get_or-replicate (suc n) (suc j) = get_or-replicate n j

get_or-emptied : (s : SigSet) (i j : ℕ) → get_or (get_or (emptied s) i []) j false ≡ false
unfolding emptied
get_or-emptied [] i j = refl
get_or-emptied (w ∷ s) zero j = get_or-replicate word_bits j
get_or-emptied (w ∷ s) (suc i) j = get_or-emptied s i j

in_range-false : (j : ℕ) → 0 < j → j ≤ 64 → out_of_range (pos j) ≡ false
in_range-false j a b = ground arith

sigismember-bit : (s : SigSet) (j : ℕ) → 0 < j → j ≤ 64 → sigismember s (pos j) ≡ bit s (j - 1)
unfolding sigismember
sigismember-bit s j a b = rw (in_range-false j a b) refl

pub sigismember-emptied : (s : SigSet) (sig : ℤ) → sigismember (emptied s) sig ≡ false
unfolding sigismember
sigismember-emptied s sig = elim (Bool-cases (out_of_range sig)) [
  | inl t ↦ rw t refl
  | inr f ↦
      rw f (get_or-emptied s ((pos_part sig - 1) / word_bits) ((pos_part sig - 1) % word_bits))
]

small : (sig : ℤ) → out_of_range sig ≡ false → pos_part sig - 1 < 64
small (pos n) e = ground arith
small (negsuc n) e = omega arith

pub sigaddset-IsSigSet : (s : SigSet) (sig : ℤ) → IsSigSet s → IsSigSet (sigaddset s sig)
unfolding sigaddset
sigaddset-IsSigSet s sig h = elim (Bool-cases (out_of_range sig)) [
  | inl t ↦ rw t h
  | inr f ↦ rw f (with_bit-IsSigSet s (pos_part sig - 1) true h (small sig f))
]

pub sigdelset-IsSigSet : (s : SigSet) (sig : ℤ) → IsSigSet s → IsSigSet (sigdelset s sig)
unfolding sigdelset
sigdelset-IsSigSet s sig h = elim (Bool-cases (out_of_range sig)) [
  | inl t ↦ rw t h
  | inr f ↦ rw f (with_bit-IsSigSet s (pos_part sig - 1) false h (small sig f))
]

-- Writing the bit of one signal is felt by that signal alone.
write_lem :
    (s : SigSet) (sig j : ℕ) (v : Bool)
    → IsSigSet s
    → 0 < sig
    → sig ≤ 64
    → 0 < j
    → j ≤ 64
    → bit (with_bit s (sig - 1) v) (j - 1) ≡ (if j == sig then v else bit s (j - 1))
write_lem s sig j v h a b c d = elim (Bool-cases (j == sig)) [
  | inl t ↦
      let same : j ≡ sig = (==_iff j sig).0 t in
      rw (t, same) (with_bit_self s (sig - 1) v h (omega arith))
  | inr f ↦
      rw f (with_bit-ne s (sig - 1) (j - 1) v h (omega arith) (λ e. ground (arith, ==_refl sig)))
]

-- For signals from 1 to 64 and well-formed sets, `sigaddset` and `sigdelset` change the membership
-- of their signal and of no other, and the words of `signal_block` and `signal_unblock` are the
-- union and the difference.
pub members_lem :
    (s t : SigSet) (sig j : ℕ)
    → IsSigSet s
    → IsSigSet t
    → 0 < sig
    → sig ≤ 64
    → 0 < j
    → j ≤ 64
    → (sigismember (sigaddset s (pos sig)) (pos j) ≡ ((j == sig) || sigismember s (pos j)))
      × (sigismember (sigdelset s (pos sig)) (pos j) ≡ (not (j == sig) && sigismember s (pos j)))
      × (sigismember (words_with or_bits s t) (pos j)
          ≡ (sigismember s (pos j) || sigismember t (pos j)))
      × (sigismember (words_with and_not_bits s t) (pos j)
          ≡ (sigismember s (pos j) && not (sigismember t (pos j))))
unfolding sigaddset sigdelset
members_lem s t sig j h g a b c d =
    let member = λ (u : SigSet). sigismember-bit u j c d in
    let here = in_range-false sig a b in
    (
      rw here (member _ ∙ write_lem s sig j true h a b c d ∙ either (j == sig) (sym (member s))),
      rw here (member _ ∙ write_lem s sig j false h a b c d ∙ less (j == sig) (sym (member s))),
      rw (member s, member t) (member _ ∙ bit-words_with or_bits s t (j - 1) h g (omega arith)),
      rw (member s, member t)
          (member _ ∙ bit-words_with and_not_bits s t (j - 1) h g (omega arith)),
    )
  where
    either : (c : Bool) {x y : Bool} → x ≡ y → (if c then true else x) ≡ (c || y)
    either true e = refl
    either false e = e

    less : (c : Bool) {x y : Bool} → x ≡ y → (if c then false else x) ≡ (not c && y)
    less true e = refl
    less false e = e
