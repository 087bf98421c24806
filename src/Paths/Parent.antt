-- ===== src/Paths/Parent.antt =====
-- The parent and the last name of a path, and the lookup of the whole path.
use cf_os.Base.{
  ℕ, zero, suc, ◌+◌, ◌≤◌, ◌<◌, ◌≡◌, ◌≢◌, refl, ap, sym, subst, ◌∙◌, Bool, true, false, some, List,
  [], ◌∷◌, arith, ltb, ◌==◌, length, ok, if◌then◌else◌, lt→ltb, le→ltb, not, Bool-cases, inl, inr,
}
use cf_os.Base.Errno.{Errno}
use cf_os.Paths.{
  Name, Vnodes, null, name_max, Next, too_long, at_end, component, is_empty, is_success, is_dots,
  next_component, descend, check_slash, vfs_lookup, leaf_of, walk_parent, resolve_parent_path,
}
use cf_os.Paths.Split.{split, no_names, NextIs, no_more, long, name, next_component-NextIs}
use cf_os.Paths.Walk.{resolve, by_names, vfs_lookup-eq-by_names}

abbrev Answer : Type 0
Answer = Errno × ℕ × Name

-- the parent of a list of names below a vnode
pub parent_of : Bool → Vnodes → ℕ → List Name → Answer
parent_of memory v current [] = (Errno.invalid_argument, null, [])
parent_of memory v current (w ∷ ws) =
    let (result, next) = descend v current w in
    let below = parent_of memory v next ws in
    if ltb name_max (length w)
    then (Errno.name_too_long, null, [])
    else if no_names ws
    then leaf_of memory current w
    else if is_success result
    then below
    else (result, null, [])

walk_parent-eq-parent_of :
    (n : ℕ) (memory : Bool) (v : Vnodes) (current : ℕ) (cursor : Name)
    → length cursor < n
    → walk_parent n memory v current cursor ≡ ok (parent_of memory v current (split cursor))
unfolding walk_parent parent_of
walk_parent-eq-parent_of zero memory v current cursor h = absurd (omega arith)
walk_parent-eq-parent_of (suc n) memory v current cursor h =
    step (split cursor) (next_component cursor) (next_component-NextIs cursor)
      (λ below rest k. walk_parent-eq-parent_of n memory v below rest k)
  where
    step :
        (ws : List Name) (next : Next)
        → NextIs cursor ws next
        → ((below : ℕ) (rest : Name)
            → length rest < n
            → walk_parent n memory v below rest ≡ ok (parent_of memory v below (split rest)))
        → elim next [
          | too_long ↦ ok (Errno.name_too_long, null, [])
          | at_end ↦ ok (Errno.invalid_argument, null, [])
          | component w more rest ↦
              if not more
              then ok (leaf_of memory current w)
              else (let (result, below) = descend v current w in
                  let go = walk_parent n memory v below rest in
                  if is_success result then go else ok (result, null, []))
        ]
          ≡ ok (parent_of memory v current ws)
    step ws next no_more go = refl
    step ws next (long w vs a) go = rw (lt→ltb name_max (length w) a) refl
    step ws next (name w vs more rest a b d e) go =
        let below = (descend v current w).1 in
        let there : walk_parent n memory v below rest ≡ ok (parent_of memory v below vs) =
          subst (λ l. walk_parent n memory v below rest ≡ ok (parent_of memory v below l)) b
            (go below rest (omega arith)) in
        elim (Bool-cases (no_names vs)) [
          | inl t ↦ rw (le→ltb name_max (length w) a, e, t) refl
          | inr g ↦ elim (Bool-cases (is_success (descend v current w).0)) [
            | inl t ↦ rw (le→ltb name_max (length w) a, e, g, t) there
            | inr f ↦ rw (le→ltb name_max (length w) a, e, g, f) refl
          ]
        ]

leaf_of-success :
    (memory : Bool) (v : Vnodes) (current dir : ℕ) (w leaf : Name)
    → leaf_of memory current w ≡ (Errno.success, dir, leaf)
    → (current ≡ dir) × (w ≡ leaf) × (is_dots w ≡ false)
unfolding leaf_of
leaf_of-success memory v current dir w leaf h = ground arith

is_success-eq : (e : Errno) → is_success e ≡ true → e ≡ Errno.success
is_success-eq e h = ground arith

-- A step answers with the code for success, or with an error and NULL.
descend-form :
    (v : Vnodes) (current : ℕ) (w : Name)
    → (if is_success (descend v current w).0
        then (Errno.success, (descend v current w).1)
        else ((descend v current w).0, null))
      ≡ descend v current w
unfolding descend
descend-form v current w = ground arith

resolve-one :
    (v : Vnodes) (current : ℕ) (w : Name)
    → ltb name_max (length w) ≡ false
    → resolve v current (w ∷ []) ≡ descend v current w
unfolding resolve
resolve-one v current w h = rw h (descend-form v current w)

ltb-false→le : (a b : ℕ) → ltb a b ≡ false → b ≤ a
ltb-false→le a b h = ground arith

failed-ne :
    (r : Errno) (dir : ℕ) (leaf : Name)
    → is_success r ≡ false
    → ◌≢◌ {A = Answer} (r, null, []) (Errno.success, dir, leaf)
failed-ne r dir leaf h e = ground arith

refused-ne :
    (parent dir : ℕ) (old leaf : Name)
    → ◌≢◌ {A = Answer} (Errno.invalid_argument, parent, old) (Errno.success, dir, leaf)
refused-ne parent dir old leaf e = ground arith

resolve-parent_of :
    (memory : Bool) (v : Vnodes) (current dir : ℕ) (leaf : Name) (ws : List Name)
    → parent_of memory v current ws ≡ (Errno.success, dir, leaf)
    → (resolve v current ws ≡ descend v dir leaf)
      × (is_dots leaf ≡ false)
      × (length leaf ≤ name_max)
unfolding parent_of no_names resolve
resolve-parent_of memory v current dir leaf [] h = absurd (ground arith)
resolve-parent_of memory v current dir leaf (w ∷ []) h =
    elim (Bool-cases (ltb name_max (length w))) [
      | inl t ↦ absurd (failed-ne Errno.name_too_long dir leaf refl (rw t at h))
      | inr f ↦
          let (here, same, named) = leaf_of-success memory v current dir w leaf (rw f at h) in
          let short : length w ≤ name_max = ltb-false→le name_max (length w) f in
          (
            resolve-one v current w f ∙ ap (λ c. descend v c w) here ∙ ap (descend v dir) same,
            subst (λ l. is_dots l ≡ false) same named,
            subst (λ l. length l ≤ name_max) same short,
          )
    ]
resolve-parent_of memory v current dir leaf (w ∷ u ∷ ws) h =
    elim (Bool-cases (ltb name_max (length w))) [
      | inl t ↦ absurd (failed-ne Errno.name_too_long dir leaf refl (rw t at h))
      | inr f ↦ elim (Bool-cases (is_success (descend v current w).0)) [
        | inl t ↦
            let ih =
              resolve-parent_of memory v (descend v current w).1 dir leaf (u ∷ ws)
                (rw (f, t) at h) in
            (rw (f, t) ih.0, ih.1, ih.2)
        | inr g ↦ absurd (failed-ne (descend v current w).0 dir leaf g (rw (f, g) at h))
      ]
    ]

-- what the search for the parent answers, in terms of the components
pub parent_by_names : Bool → Vnodes → Name → ℕ → Name → Answer
parent_by_names memory v path parent leaf =
    if is_empty path
    then (Errno.invalid_argument, parent, leaf)
    else if v.root == null
    then (Errno.not_found, null, [])
    else parent_of memory v v.root (split path)

pub resolve_parent_path-eq-parent_by_names :
    (memory : Bool) (v : Vnodes) (path : Name) (parent : ℕ) (leaf : Name)
    → resolve_parent_path memory v (some path) parent leaf
      ≡ ok (parent_by_names memory v path parent leaf)
unfolding resolve_parent_path parent_by_names
resolve_parent_path-eq-parent_by_names memory v path parent leaf =
    elim (Bool-cases (is_empty path)) [
      | inl t ↦ rw t refl
      | inr f ↦ elim (Bool-cases (v.root == null)) [
        | inl t ↦ rw (f, t) refl
        | inr g ↦
            rw (f, g)
              (walk_parent-eq-parent_of (length path + 1) memory v v.root path (omega arith))
      ]
    ]

ok-inj : (a b : Answer) → ok a ≡ ok b → a ≡ b
ok-inj a b e = cc

-- Where `vfs_resolve_parent_path` finds a parent and a leaf name, `vfs_lookup` of the same path is
-- the lookup of that leaf in that parent with the check for a trailing slash, and the leaf is of at
-- most 255 bytes and neither "." nor "..".
pub vfs_lookup-resolve_parent_path :
    (memory : Bool) (v : Vnodes) (path : Name) (parent dir : ℕ) (old leaf : Name) (out : ℕ)
    → resolve_parent_path memory v (some path) parent old ≡ ok (Errno.success, dir, leaf)
    → (vfs_lookup v (some path) out ≡ ok (check_slash v path (descend v dir leaf)))
      × (is_dots leaf ≡ false)
      × (length leaf ≤ name_max)
unfolding parent_by_names by_names
vfs_lookup-resolve_parent_path memory v path parent dir old leaf out h =
    let e = sym (resolve_parent_path-eq-parent_by_names memory v path parent old) ∙ h in
    let e' : parent_by_names memory v path parent old ≡ (Errno.success, dir, leaf) = ok-inj _ _ e in
    elim (Bool-cases (is_empty path)) [
      | inl t ↦ absurd (refused-ne parent dir old leaf (rw t at e'))
      | inr f ↦ elim (Bool-cases (v.root == null)) [
        | inl t ↦ absurd (failed-ne Errno.not_found dir leaf refl (rw (f, t) at e'))
        | inr g ↦
            let (found, named, short) =
              resolve-parent_of memory v v.root dir leaf (split path) (rw (f, g) at e') in
            let answer : by_names v path out ≡ check_slash v path (descend v dir leaf) =
              rw (f, g) (ap (check_slash v path) found) in
            (vfs_lookup-eq-by_names v path out ∙ ap ok answer, named, short)
      ]
    ]
