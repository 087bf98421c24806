-- ===== src/Line/View.antt =====
-- When a state of the arrays shows an editor, and the history's part of that.
use cf_os.Base.{
  ℕ, zero, suc, ◌+◌, ◌-◌, ◌≤◌, ◌<◌, ◌≡◌, refl, ap, sym, ◌∙◌, List, [], ◌∷◌, ◌++◌, arith, length,
  set, length-append, get_or, append_assoc,
}
use cf_os.Base.Int.{ℤ, pos, negsuc}
use cf_os.Line.{Line, buffer_size, history_size, shift_loop}
use cf_os.Line.Arrays.{Holds}
use cf_os.Line.Spec.{Editor}

-- the first arrays hold the texts
abbrev pub AllHold : List (List ℕ) → List (List ℕ) → Type 0
AllHold arrs [] = Unit {0}
AllHold [] (t ∷ ts) = ⊥
AllHold (a ∷ arrs) (t ∷ ts) = Holds a t × AllHold arrs ts

abbrev pub AllSized : List (List ℕ) → Type 0
AllSized [] = Unit {0}
AllSized (a ∷ arrs) = (length a ≡ buffer_size) × AllSized arrs

-- an index is -1 or names a line of the history
abbrev pub IndexOk : ℤ → ℕ → Type 0
IndexOk (pos i) n = i < n
IndexOk (negsuc k) n = k ≡ 0

pub record Shows (l : Line) (e : Editor) : Type 0 where
  pub buffer : Holds l.buffer e.text
  pub len : l.len ≡ length e.text
  pub slots : length l.history ≡ history_size
  pub sized : AllSized l.history
  pub past : AllHold l.history e.past
  pub count : l.history_count ≡ length e.past
  pub bounded : length e.past ≤ history_size
  pub draft : Holds l.draft e.draft
  pub index : l.history_index ≡ e.index
  pub index_ok : IndexOk e.index (length e.past)
  pub ready : l.ready ≡ e.ready
  pub eof : l.eof ≡ e.eof
  pub effects : l.effects ≡ e.effects

pub AllHold-at :
    (arrs ts : List (List ℕ)) (i : ℕ)
    → AllHold arrs ts
    → i < length ts
    → Holds (get_or arrs i []) (get_or ts i [])
AllHold-at arrs [] i a h = absurd (omega arith)
AllHold-at [] (t ∷ ts) i a h = absurd a
AllHold-at (x ∷ arrs) (t ∷ ts) zero a h = a.0
AllHold-at (x ∷ arrs) (t ∷ ts) (suc i) a h = AllHold-at arrs ts i a.1 (omega arith)

pub AllSized-at :
    (arrs : List (List ℕ)) (i : ℕ)
    → AllSized arrs
    → i < length arrs
    → length (get_or arrs i []) ≡ buffer_size
AllSized-at [] i a h = absurd (omega arith)
AllSized-at (x ∷ arrs) zero a h = a.0
AllSized-at (x ∷ arrs) (suc i) a h = AllSized-at arrs i a.1 (omega arith)

pub AllSized-set :
    (arrs : List (List ℕ)) (i : ℕ) (v : List ℕ)
    → AllSized arrs
    → length v ≡ buffer_size
    → AllSized (set arrs i v)
AllSized-set [] i v a h = tt
AllSized-set (x ∷ arrs) zero v a h = (h, a.1)
AllSized-set (x ∷ arrs) (suc i) v a h = (a.0, AllSized-set arrs i v a.1 h)

-- The array behind the texts takes one more.
pub AllHold-snoc :
    (arrs ts : List (List ℕ)) (v text : List ℕ)
    → AllHold arrs ts
    → length ts < length arrs
    → Holds v text
    → AllHold (set arrs (length ts) v) (ts ++ text ∷ [])
AllHold-snoc [] [] v text a h k = absurd (omega arith)
AllHold-snoc (x ∷ arrs) [] v text a h k = (k, tt)
AllHold-snoc [] (t ∷ ts) v text a h k = absurd a
AllHold-snoc (x ∷ arrs) (t ∷ ts) v text a h k =
    (a.0, AllHold-snoc arrs ts v text a.1 (omega arith) k)

-- what the shift loop makes of a list: the first goes and the last stays twice
abbrev pub shifted : List (List ℕ) → List (List ℕ)
shifted [] = []
shifted (a ∷ []) = a ∷ []
shifted (a ∷ b ∷ r) = b ∷ shifted (b ∷ r)

set-at : (pre r : List (List ℕ)) (a v : List ℕ) → set (pre ++ a ∷ r) (length pre) v ≡ pre ++ v ∷ r
set-at [] r a v = refl
set-at (x ∷ pre) r a v = ap (λ t. x ∷ t) (set-at pre r a v)

get-at : (pre r : List (List ℕ)) (a b : List ℕ) → get_or (pre ++ a ∷ b ∷ r) (length pre + 1) [] ≡ b
get-at [] r a b = refl
get-at (x ∷ pre) r a b =
    let n : length (x ∷ pre) + 1 ≡ suc (length pre + 1) = omega arith in
    ap (λ m. get_or (x ∷ (pre ++ a ∷ b ∷ r)) m []) n ∙ get-at pre r a b

pub shift_loop-shifted :
    (r pre : List (List ℕ)) (a : List ℕ)
    → shift_loop (length r) (length pre + 1) (pre ++ a ∷ r) ≡ pre ++ shifted (a ∷ r)
unfolding shift_loop
shift_loop-shifted [] pre a = refl
shift_loop-shifted (b ∷ r) pre a =
    let i : length pre + 1 - 1 ≡ length pre = omega arith in
    let moved : set (pre ++ a ∷ b ∷ r) (length pre + 1 - 1)
          (get_or (pre ++ a ∷ b ∷ r) (length pre + 1) [])
        ≡ (pre ++ b ∷ []) ++ b ∷ r =
      ap (λ k. set (pre ++ a ∷ b ∷ r) k (get_or (pre ++ a ∷ b ∷ r) (length pre + 1) [])) i
      ∙ ap (λ v. set (pre ++ a ∷ b ∷ r) (length pre) v) (get-at pre r a b)
      ∙ set-at pre (b ∷ r) a b
      ∙ sym (append_assoc pre (b ∷ []) (b ∷ r)) in
    let n : length pre + 1 + 1 ≡ length (pre ++ b ∷ []) + 1 =
      omega (arith, length-append pre (b ∷ [])) in
    ap (λ h. shift_loop (length r) (length pre + 1 + 1) h) moved
    ∙ ap (λ m. shift_loop (length r) m ((pre ++ b ∷ []) ++ b ∷ r)) n
    ∙ shift_loop-shifted r (pre ++ b ∷ []) b
    ∙ append_assoc pre (b ∷ []) (shifted (b ∷ r))

pub AllHold-shifted :
    (arrs ts : List (List ℕ)) (a t : List ℕ)
    → AllHold (a ∷ arrs) (t ∷ ts)
    → AllHold (shifted (a ∷ arrs)) ts
AllHold-shifted arrs [] a t h = tt
AllHold-shifted [] (u ∷ ts) a t h = absurd h.1
AllHold-shifted (b ∷ arrs) (u ∷ ts) a t h = (h.1.0, AllHold-shifted arrs ts b u h.1)

pub AllSized-shifted : (arrs : List (List ℕ)) → AllSized arrs → AllSized (shifted arrs)
AllSized-shifted [] h = tt
AllSized-shifted (a ∷ []) h = h
AllSized-shifted (a ∷ b ∷ r) h = (h.1.0, AllSized-shifted (b ∷ r) h.1)

pub length-shifted : (arrs : List (List ℕ)) → length (shifted arrs) ≡ length arrs
length-shifted [] = refl
length-shifted (a ∷ []) = refl
length-shifted (a ∷ b ∷ r) = ap suc (length-shifted (b ∷ r))
