-- ===== src/Paths/Walk.antt =====
-- The loop of `vfs_lookup` against a walk over the components.
use cf_os.Base.{
  ℕ, zero, suc, ◌+◌, ◌<◌, ◌≡◌, refl, ap, subst, some, List, [], ◌∷◌, arith, ltb, ◌==◌, length, ok,
  if◌then◌else◌, lt→ltb, le→ltb, Bool-cases, inl, inr,
}
use cf_os.Base.Errno.{Errno}
use cf_os.Paths.{
  Name, Vnodes, null, name_max, Next, too_long, at_end, component, is_empty, is_success,
  next_component, descend, walk, check_slash, map_run, vfs_lookup,
}
use cf_os.Paths.Split.{split, NextIs, no_more, long, name, next_component-NextIs}

-- from a vnode down a list of names
unfoldable pub resolve : Vnodes → ℕ → List Name → Errno × ℕ
resolve v current [] = (Errno.success, current)
resolve v current (w ∷ ws) =
    let (result, next) = descend v current w in
    let below = resolve v next ws in
    if ltb name_max (length w)
    then (Errno.name_too_long, null)
    else if is_success result
    then below
    else (result, null)

walk-resolve :
    (n : ℕ) (v : Vnodes) (current : ℕ) (cursor : Name)
    → length cursor < n
    → walk n v current cursor ≡ ok (resolve v current (split cursor))
unfolding walk resolve
walk-resolve zero v current cursor h = absurd (omega arith)
walk-resolve (suc n) v current cursor h =
    step (split cursor) (next_component cursor) (next_component-NextIs cursor)
      (λ below rest k. walk-resolve n v below rest k)
  where
    step :
        (ws : List Name) (next : Next)
        → NextIs cursor ws next
        → ((below : ℕ) (rest : Name)
            → length rest < n
            → walk n v below rest ≡ ok (resolve v below (split rest)))
        → elim next [
          | too_long ↦ ok (Errno.name_too_long, null)
          | at_end ↦ ok (Errno.success, current)
          | component w more rest ↦
              let (result, below) = descend v current w in
              let go = walk n v below rest in if is_success result then go else ok (result, null)
        ]
          ≡ ok (resolve v current ws)
    step ws next no_more go = refl
    step ws next (long w vs a) go = rw (lt→ltb name_max (length w) a) refl
    step ws next (name w vs more rest a b d e) go =
        let below = (descend v current w).1 in
        let there : walk n v below rest ≡ ok (resolve v below vs) =
          subst (λ l. walk n v below rest ≡ ok (resolve v below l)) b
            (go below rest (omega arith)) in
        elim (Bool-cases (is_success (descend v current w).0)) [
          | inl t ↦ rw (le→ltb name_max (length w) a, t) there
          | inr f ↦ rw (le→ltb name_max (length w) a, f) refl
        ]

-- what a lookup answers, in terms of the components
unfoldable pub by_names : Vnodes → Name → ℕ → Errno × ℕ
by_names v path out =
    if is_empty path
    then (Errno.invalid_argument, out)
    else if v.root == null
    then (Errno.not_found, null)
    else check_slash v path (resolve v v.root (split path))

-- On every path `vfs_lookup` ends, and its answer is that of the walk over the list of the names
-- between the slashes: an empty path and a missing root are refused, then a name over 255 bytes, the
-- lookups of the file system and a trailing slash after what is no directory are met in order.
pub vfs_lookup-eq-by_names :
    (v : Vnodes) (path : Name) (out : ℕ) → vfs_lookup v (some path) out ≡ ok (by_names v path out)
unfolding vfs_lookup by_names
vfs_lookup-eq-by_names v path out = elim (Bool-cases (is_empty path)) [
  | inl t ↦ rw t refl
  | inr f ↦ elim (Bool-cases (v.root == null)) [
    | inl t ↦ rw (f, t) refl
    | inr g ↦
        rw (f, g)
          (ap (map_run (check_slash v path))
            (walk-resolve (length path + 1) v v.root path (omega arith)))
  ]
]
