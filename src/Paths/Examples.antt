-- ===== src/Paths/Examples.antt =====
-- A root with a directory `bin` and a file `ls` in it.
use cf_os.Base.{
  ℕ, ◌≤◌, ◌≡◌, refl, true, false, some, [], ◌∷◌, ltb, ◌==◌, length, ok, if◌then◌else◌, ◌&&◌,
}
use cf_os.Base.Errno.{Errno}
use cf_os.Base.Bytes.{strcmp_same}
use cf_os.Paths.{
  Name, Vnodes, is_dots, name_max, check_slash, ends_in_slash, descend, lookup_component,
  vfs_lookup, resolve_parent_path, walk, walk_parent, leaf_of, next_component, next_at,
  skip_slashes, copy_component, is_empty,
}
use cf_os.Paths.Walk.{by_names, vfs_lookup-eq-by_names}
use cf_os.Paths.Parent.{vfs_lookup-resolve_parent_path}

abbrev bin : Name
bin = b'b' ∷ b'i' ∷ b'n' ∷ []

abbrev ls : Name
ls = b'l' ∷ b's' ∷ []

look_in : ℕ → Name → Errno × ℕ
look_in dir name =
    if dir == 1 && strcmp_same name bin
    then (Errno.success, 2)
    else if dir == 2 && strcmp_same name ls
    then (Errno.success, 3)
    else (Errno.not_found, 0)

abbrev tree : Vnodes
tree = record { root = 1; is_dir = λ v. ltb v 3; has_lookup = λ v. ltb v 3; lookup = look_in }

-- "/bin//ls"
abbrev path : Name
path = b'/' ∷ b'b' ∷ b'i' ∷ b'n' ∷ b'/' ∷ b'/' ∷ ls

found : vfs_lookup tree (some path) 9 ≡ ok (Errno.success, 3)
unfolding vfs_lookup check_slash ends_in_slash walk next_component next_at skip_slashes
    copy_component is_empty descend lookup_component look_in strcmp_same
found = refl

vfs_lookup-eq-by_names_example : vfs_lookup tree (some path) 9 ≡ ok (by_names tree path 9)
vfs_lookup-eq-by_names_example = vfs_lookup-eq-by_names tree path 9

parent_found : resolve_parent_path true tree (some path) 9 [] ≡ ok (Errno.success, 2, ls)
unfolding resolve_parent_path walk_parent leaf_of next_component next_at skip_slashes copy_component
    is_empty descend lookup_component look_in strcmp_same
parent_found = refl

vfs_lookup-resolve_parent_path_example :
    (vfs_lookup tree (some path) 9 ≡ ok (check_slash tree path (descend tree 2 ls)))
    × (is_dots ls ≡ false)
    × (length ls ≤ name_max)
vfs_lookup-resolve_parent_path_example =
    vfs_lookup-resolve_parent_path true tree path 9 2 [] ls 9 parent_found
