-- ===== src/Base/Bytes.antt =====
-- Strings as lists of their bytes, and `strcmp(a, b) == 0`.
use Prim.Native.Nat.{ℕ}
use mathlib.Core.Path.{◌≡◌, refl, sym, ap, ◌∙◌}
use mathlib.Core.Logic.{◌≢◌, inl, inr}
use mathlib.Core.Bool.{Bool, true, false, ◌&&◌}
use mathlib.Core.List.{List, [], ◌∷◌}
use native.Mathlib.Omega.{arith}
use cf_os.Base.Tests.{◌==◌, ==_refl, ==_iff, Bool-cases}

unfoldable pub strcmp_same : List ℕ → List ℕ → Bool
strcmp_same [] [] = true
strcmp_same [] (d ∷ b) = false
strcmp_same (c ∷ a) [] = false
strcmp_same (c ∷ a) (d ∷ b) = c == d && strcmp_same a b

pub strcmp_same_refl : (a : List ℕ) → strcmp_same a a ≡ true
unfolding strcmp_same
strcmp_same_refl [] = refl
strcmp_same_refl (c ∷ a) = rw (==_refl c, strcmp_same_refl a)

pub eq_of_strcmp_same : (a b : List ℕ) → strcmp_same a b ≡ true → a ≡ b
unfolding strcmp_same
eq_of_strcmp_same [] [] h = refl
eq_of_strcmp_same [] (d ∷ b) h = absurd (cc)
eq_of_strcmp_same (c ∷ a) [] h = absurd (cc)
eq_of_strcmp_same (c ∷ a) (d ∷ b) h = elim (Bool-cases (c == d)) [
  | inl e ↦
      let rest : strcmp_same a b ≡ true = ap (λ x. x && strcmp_same a b) (sym e) ∙ h in
      ap (λ x. x ∷ a) ((==_iff c d).0 e) ∙ ap (λ l. d ∷ l) (eq_of_strcmp_same a b rest)
  | inr e ↦ absurd (bad e)
]
  where
    bad : (c == d) ≡ false → ⊥
    bad e = ground arith

pub ne→strcmp_same : (a b : List ℕ) → a ≢ b → strcmp_same a b ≡ false
ne→strcmp_same a b h = elim (Bool-cases (strcmp_same a b)) [
  | inl e ↦ absurd (h (eq_of_strcmp_same a b e))
  | inr e ↦ e
]
