-- ===== src/Paths/Split.antt =====
-- The components of a path, and what one call of `vfs_next_component` takes of them.
use cf_os.Base.{
  ℕ, ◌+◌, ◌≤◌, ◌<◌, ◌≡◌, refl, ap, subst, ◌∙◌, Bool, true, false, Option, some, none, List, [], ◌∷◌,
  arith, ◌==◌, length, if◌then◌else◌, not, Bool-cases, inl, inr,
}
use cf_os.Paths.{
  Name, name_max, slash, skip_slashes, copy_component, Next, too_long, at_end, component, is_empty,
  next_at, next_component,
}

-- a component under way, before the components behind it
abbrev close : Name → List Name → List Name
close [] ws = ws
close (c ∷ w) ws = (c ∷ w) ∷ ws

-- the bytes up to the first slash, and the components behind
pub groups : Name → Name × List Name
groups [] = ([], [])
groups (c ∷ p) = let (w, ws) = groups p in if c == slash then ([], close w ws) else (c ∷ w, ws)

-- the names between the slashes, less the empty ones
pub split : Name → List Name
split p = let (w, ws) = groups p in close w ws

unfoldable pub no_names : List Name → Bool
no_names [] = true
no_names (w ∷ ws) = false

split-skip_slashes : (p : Name) → split (skip_slashes p) ≡ split p
unfolding split groups skip_slashes
split-skip_slashes [] = refl
split-skip_slashes (c ∷ p) = elim (Bool-cases (c == slash)) [
  | inl t ↦ rw t (split-skip_slashes p)
  | inr f ↦ rw (f, groups, f) refl
]

length-skip_slashes : (p : Name) → length (skip_slashes p) ≤ length p
unfolding skip_slashes
length-skip_slashes [] = omega arith
length-skip_slashes (c ∷ p) = elim (Bool-cases (c == slash)) [
  | inl t ↦ rw t (omega (arith, length-skip_slashes p))
  | inr f ↦ rw f (omega arith)
]

-- what the copying loop finds of a component that ends after `w`
data Copied (len : ℕ) (p w : Name) (ws : List Name) : Option (Name × Name) → Type 0 where
  fits :
      (r : Name)
      → len + length w ≤ name_max
      → split r ≡ ws
      → length r + length w ≤ length p
      → Copied len p w ws (some (w, r))
  over : name_max < len + length w → Copied len p w ws none

copy_component-Copied :
    (p : Name) (len : ℕ)
    → len ≤ name_max
    → Copied len p (groups p).0 (groups p).1 (copy_component p len)
unfolding copy_component groups split
copy_component-Copied [] len h = fits [] (omega arith) refl (omega arith)
copy_component-Copied (c ∷ p) len h = elim (Bool-cases (c == slash)) [
  | inl t ↦ rw t (fits (c ∷ p) (omega arith) (rw t refl) (omega arith))
  | inr f ↦ elim (Bool-cases (len == name_max)) [
    | inl t ↦ rw (f, t) (over (ground arith))
    | inr g ↦
        rw (f, g)
          (step (groups p).0 (groups p).1 (copy_component p (len + 1))
            (copy_component-Copied p (len + 1) (ground arith)))
  ]
]
  where
    step :
        (w : Name) (ws : List Name) (o : Option (Name × Name))
        → Copied (len + 1) p w ws o
        → Copied len (c ∷ p) (c ∷ w) ws (elim o [ none ↦ none | some r ↦ some (c ∷ r.0, r.1) ])
    step w ws o (fits r a b d) = fits r (omega arith) b (omega arith)
    step w ws o (over a) = over (omega arith)

-- empty, or a byte other than a slash in front
NoSlash : Name → Type 0
NoSlash [] = Unit {0}
NoSlash (c ∷ p) = (c == slash) ≡ false

skip_slashes-NoSlash : (p : Name) → NoSlash (skip_slashes p)
unfolding skip_slashes NoSlash
skip_slashes-NoSlash [] = tt
skip_slashes-NoSlash (c ∷ p) = elim (Bool-cases (c == slash)) [
  | inl t ↦ rw t (skip_slashes-NoSlash p)
  | inr f ↦ rw f f
]

is_empty-split : (p : Name) → NoSlash p → is_empty p ≡ no_names (split p)
unfolding is_empty no_names split groups NoSlash
is_empty-split [] h = refl
is_empty-split (c ∷ p) h = rw (h, no_names) refl

-- one call of `vfs_next_component`, by the components that the cursor has left
pub data NextIs (cursor : Name) : List Name → Next → Type 0 where
  no_more : NextIs cursor [] at_end
  long : (w : Name) (ws : List Name) → name_max < length w → NextIs cursor (w ∷ ws) too_long
  name :
      (w : Name) (ws : List Name) (more : Bool) (rest : Name)
      → length w ≤ name_max
      → split rest ≡ ws
      → length rest < length cursor
      → more ≡ not (no_names ws)
      → NextIs cursor (w ∷ ws) (component w more rest)

next_at-NextIs : (p : Name) → NoSlash p → NextIs p (split p) (next_at p)
unfolding next_at is_empty split groups NoSlash
next_at-NextIs [] h = no_more
next_at-NextIs (c ∷ p) h =
    rw (h)
      (found (copy_component (c ∷ p) 0) (rw h at (copy_component-Copied (c ∷ p) 0 (omega arith))))
  where
    found :
        (o : Option (Name × Name))
        → Copied 0 (c ∷ p) (c ∷ (groups p).0) (groups p).1 o
        → NextIs (c ∷ p) ((c ∷ (groups p).0) ∷ (groups p).1) (elim o [
          | none ↦ too_long
          | some r ↦ component r.0 (not (is_empty (skip_slashes r.1))) (skip_slashes r.1)
        ])
    found o (over a) = long (c ∷ (groups p).0) (groups p).1 (omega arith)
    found o (fits r a b d) =
        let rest = skip_slashes r in
        let same = split-skip_slashes r ∙ b in
        name (c ∷ (groups p).0) (groups p).1 (not (is_empty rest)) rest (omega arith) same
          (omega (arith, length-skip_slashes r))
          (ap not (is_empty-split rest (skip_slashes-NoSlash r) ∙ ap no_names same))

NextIs-longer :
    (p q : Name) (ws : List Name) (n : Next) → length p ≤ length q → NextIs p ws n → NextIs q ws n
NextIs-longer p q ws n h no_more = no_more
NextIs-longer p q ws n h (long w vs a) = long w vs a
NextIs-longer p q ws n h (name w vs more rest a b d e) = name w vs more rest a b (omega arith) e

pub next_component-NextIs : (cursor : Name) → NextIs cursor (split cursor) (next_component cursor)
unfolding next_component
next_component-NextIs cursor =
    let p = skip_slashes cursor in
    subst (λ ws. NextIs cursor ws (next_at p)) (split-skip_slashes cursor)
      (NextIs-longer p cursor (split p) (next_at p) (length-skip_slashes cursor)
        (next_at-NextIs p (skip_slashes-NoSlash cursor)))
