-- ===== src/Base/Distinct.antt =====
-- Lists of addresses or indices without repetition, by recursion on the list.
use Prim.Native.Nat.{ℕ, ◌<◌}
use mathlib.Core.Path.{sym, subst}
use mathlib.Core.Logic.{◌≢◌}
use mathlib.Core.List.{List, [], ◌∷◌, ◌++◌, append-nil}

abbrev pub Absent : ℕ → List ℕ → Type 0
Absent a [] = Unit {0}
Absent a (x ∷ xs) = (a ≢ x) × Absent a xs

abbrev pub Distinct : List ℕ → Type 0
Distinct [] = Unit {0}
Distinct (x ∷ xs) = Absent x xs × Distinct xs

-- all below a bound
abbrev pub Within : ℕ → List ℕ → Type 0
Within n [] = Unit {0}
Within n (x ∷ xs) = (x < n) × Within n xs

pub Absent-append : (a : ℕ) (xs ys : List ℕ) → Absent a xs → Absent a ys → Absent a (xs ++ ys)
Absent-append a [] ys p q = q
Absent-append a (x ∷ xs) ys p q = (p.0, Absent-append a xs ys p.1 q)

pub Absent-left : (a : ℕ) (xs ys : List ℕ) → Absent a (xs ++ ys) → Absent a xs
Absent-left a [] ys p = tt
Absent-left a (x ∷ xs) ys p = (p.0, Absent-left a xs ys p.1)

pub Absent-right : (a : ℕ) (xs ys : List ℕ) → Absent a (xs ++ ys) → Absent a ys
Absent-right a [] ys p = p
Absent-right a (x ∷ xs) ys p = Absent-right a xs ys p.1

-- An element taken out of the middle is absent from the rest, which stays distinct.
pub Distinct-middle :
    (a : ℕ) (xs ys : List ℕ) → Distinct (xs ++ a ∷ ys) → Absent a (xs ++ ys) × Distinct (xs ++ ys)
Distinct-middle a [] ys d = d
Distinct-middle a (x ∷ xs) ys d =
    let (out, rest) = Distinct-middle a xs ys d.1 in
    let here = Absent-right x xs (a ∷ ys) d.0 in
    (
      (λ e. here.0 (sym e), out),
      (Absent-append x xs ys (Absent-left x xs (a ∷ ys) d.0) here.1, rest),
    )

pub Distinct-insert :
    (a : ℕ) (xs ys : List ℕ) → Absent a (xs ++ ys) → Distinct (xs ++ ys) → Distinct (xs ++ a ∷ ys)
Distinct-insert a [] ys p d = (p, d)
Distinct-insert a (x ∷ xs) ys p d = (
  Absent-append x xs (a ∷ ys) (Absent-left x xs ys d.0)
      (λ e. p.0 (sym e), Absent-right x xs ys d.0),
  Distinct-insert a xs ys p.1 d.1,
)

pub Within-middle :
    (n a : ℕ) (xs ys : List ℕ) → Within n (xs ++ a ∷ ys) → (a < n) × Within n (xs ++ ys)
Within-middle n a [] ys w = w
Within-middle n a (x ∷ xs) ys w = let (h, r) = Within-middle n a xs ys w.1 in (h, (w.0, r))

pub Within-insert :
    (n a : ℕ) (xs ys : List ℕ) → a < n → Within n (xs ++ ys) → Within n (xs ++ a ∷ ys)
Within-insert n a [] ys h w = (h, w)
Within-insert n a (x ∷ xs) ys h w = (w.0, Within-insert n a xs ys h w.1)

pub Distinct-snoc : (xs : List ℕ) (a : ℕ) → Absent a xs → Distinct xs → Distinct (xs ++ a ∷ [])
Distinct-snoc xs a out d =
    Distinct-insert a xs [] (subst (Absent a) (sym (append-nil xs)) out)
      (subst Distinct (sym (append-nil xs)) d)
