-- ===== src/Paths.antt =====
-- Path lookup (src/kernel/fs/vfs/lookup.c). A path is the bytes before its NUL, and the cursor is what
-- is left of it. Vnodes are addresses, NULL is 0; what the code asks of them, and the file system's own
-- `lookup`, are a record. A loop's rounds are bounded by the bytes of the path.
pub mod Split
pub mod Walk
pub mod Parent
mod Examples
use cf_os.Base.{
  ℕ, zero, suc, ◌+◌, ◌-◌, Bool, true, false, not, ◌&&◌, ◌||◌, Option, none, some, List, [], ◌∷◌,
  ◌==◌, if◌then◌else◌, length, Run, ok, stuck,
}
use cf_os.Base.Errno
use cf_os.Base.Errno.{Errno}
use cf_os.Base.Bytes.{strcmp_same}

abbrev pub Name : Type 0
Name = List ℕ

abbrev pub null : ℕ
null = 0

abbrev pub name_max : ℕ
name_max = 255

abbrev pub slash : ℕ
slash = b'/'

-- `vfs_get_root`, the fields of a vnode that are read, and `ops->lookup` with its out pointer
pub record Vnodes : Type 0 where
  pub root : ℕ
  pub is_dir : ℕ → Bool
  pub has_lookup : ℕ → Bool
  pub lookup : ℕ → Name → Errno × ℕ

abbrev pub is_success : Errno → Bool
is_success Errno.success = true
is_success _ = false

-- while (*p == '/') ++p;
pub skip_slashes : Name → Name
skip_slashes [] = []
skip_slashes (c ∷ p) = if c == slash then skip_slashes p else c ∷ p

-- The copying loop, with `len` bytes copied: the bytes copied from here on and what is left.
pub copy_component : Name → ℕ → Option (Name × Name)
copy_component [] len = some ([], [])
copy_component (c ∷ p) len =
    let rest = copy_component p (len + 1) in
    if c == slash
    then some ([], c ∷ p)
    else if len == name_max
    then none
    else (elim rest [ none ↦ none | some r ↦ some (c ∷ r.0, r.1) ])

-- what `vfs_next_component` reports: an error, no component, or a name, `has_more` and the cursor
pub data Next : Type 0 where
  too_long : Next
  at_end : Next
  component : Name → Bool → Name → Next

abbrev pub is_empty : Name → Bool
is_empty [] = true
is_empty (c ∷ p) = false

pub next_at : Name → Next
next_at p = if is_empty p then at_end else (elim (copy_component p 0) [
  | none ↦ too_long
  | some r ↦ let cursor = skip_slashes r.1 in component r.0 (not (is_empty cursor)) cursor
])

pub next_component : Name → Next
next_component cursor = next_at (skip_slashes cursor)

-- the callers pass a name and an out pointer that are not NULL
pub lookup_component : Vnodes → ℕ → Name → Errno × ℕ
lookup_component v dir name =
    if dir == null
    then (Errno.invalid_argument, null)
    else if not (v.is_dir dir)
    then (Errno.not_directory, null)
    else if not (v.has_lookup dir)
    then (Errno.not_supported, null)
    else v.lookup dir name

-- one step of either loop: the vnode below, or the error
pub descend : Vnodes → ℕ → Name → Errno × ℕ
descend v current name =
    let (result, next) = lookup_component v current name in
    if not (is_success result)
    then (result, null)
    else if next == null
    then (Errno.internal, null)
    else (Errno.success, next)

-- the loop of `vfs_lookup`
pub walk : ℕ → Vnodes → ℕ → Name → Run (Errno × ℕ)
walk zero v current cursor = stuck
walk (suc n) v current cursor = elim (next_component cursor) [
  | too_long ↦ ok (Errno.name_too_long, null)
  | at_end ↦ ok (Errno.success, current)
  | component name more rest ↦
      let (result, next) = descend v current name in
      let go = walk n v next rest in if is_success result then go else ok (result, null)
]

-- the last byte of the path is a slash
pub ends_in_slash : Name → Bool
ends_in_slash [] = false
ends_in_slash (c ∷ []) = c == slash
ends_in_slash (c ∷ d ∷ p) = ends_in_slash (d ∷ p)

-- the check of a trailing slash, on what the loop found
pub check_slash : Vnodes → Name → Errno × ℕ → Errno × ℕ
check_slash v path (result, current) =
    if not (is_success result)
    then (result, null)
    else if ends_in_slash path && not (v.is_dir current)
    then (Errno.not_directory, null)
    else (Errno.success, current)

abbrev pub map_run {ℓ κ} : {A : Type ℓ} {B : Type κ} → (A → B) → Run A → Run B
map_run f (ok a) = ok (f a)
map_run f Run.fault = Run.fault
map_run f stuck = stuck

-- Returned are the code and what `*out` then holds, `out` being what it held before.
pub vfs_lookup : Vnodes → Option Name → ℕ → Run (Errno × ℕ)
vfs_lookup v none out = ok (Errno.invalid_argument, out)
vfs_lookup v (some path) out =
    if is_empty path
    then ok (Errno.invalid_argument, out)
    else if v.root == null
    then ok (Errno.not_found, null)
    else map_run (check_slash v path) (walk (length path + 1) v v.root path)

pub vfs_resolve : Vnodes → Option Name → Run ℕ
vfs_resolve v path = map_run (λ r. if is_success r.0 then r.1 else null) (vfs_lookup v path null)

abbrev pub is_dots : Name → Bool
is_dots name = strcmp_same name (b'.' ∷ []) || strcmp_same name (b'.' ∷ b'.' ∷ [])

-- the end of the loop of `vfs_resolve_parent_path`; `memory` is what `malloc` can give
pub leaf_of : Bool → ℕ → Name → Errno × ℕ × Name
leaf_of memory current name =
    if is_dots name
    then (Errno.invalid_argument, null, [])
    else if not memory
    then (Errno.out_of_memory, null, [])
    else (Errno.success, current, name)

pub walk_parent : ℕ → Bool → Vnodes → ℕ → Name → Run (Errno × ℕ × Name)
walk_parent zero memory v current cursor = stuck
walk_parent (suc n) memory v current cursor = elim (next_component cursor) [
  | too_long ↦ ok (Errno.name_too_long, null, [])
  | at_end ↦ ok (Errno.invalid_argument, null, [])
  | component name more rest ↦
      if not more
      then ok (leaf_of memory current name)
      else (let (result, next) = descend v current name in
          let go = walk_parent n memory v next rest in
          if is_success result then go else ok (result, null, []))
]

-- Returned are the code and what `*parent_out` and `*leaf_name_out` then hold, where `parent` and
-- `leaf` are what they held before. A leaf that is NULL is the empty name, as no leaf is empty.
pub resolve_parent_path : Bool → Vnodes → Option Name → ℕ → Name → Run (Errno × ℕ × Name)
resolve_parent_path memory v none parent leaf = ok (Errno.invalid_argument, parent, leaf)
resolve_parent_path memory v (some path) parent leaf =
    if is_empty path
    then ok (Errno.invalid_argument, parent, leaf)
    else if v.root == null
    then ok (Errno.not_found, null, [])
    else walk_parent (length path + 1) memory v v.root path

-- `vfs_resolve_path` returns a vnode or NULL; with it, what `*parent_out` and `*leaf_name_out` then
-- hold.
pub resolve_path : Bool → Vnodes → Option Name → ℕ → Name → Run (ℕ × ℕ × Name)
resolve_path memory v path parent leaf_name =
    map_run
      (λ (r : Errno × ℕ × Name). if is_success r.0 then (r.1, r.1, r.2) else (null, r.1, leaf_name))
      (resolve_parent_path memory v path parent [])
