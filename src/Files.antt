-- ===== src/Files.antt =====
-- Open files and descriptor tables (src/kernel/fs/vfs/fd.c, ref.c, file.c and vnode.c). Files and
-- vnodes are cells of a store, NULL is 0, and a use of an address that holds no live object is a `fault`.
-- The file system's own `read` and `write` are arguments: what they return and how many bytes they report.
-- The `int` reference counts are numbers without a bound: an overflow past 2 ^ 31 references is left out.
pub mod Refs
pub mod Table
pub mod Alloc
pub mod Dup
pub mod Generic
mod Examples
use cf_os.Base.{
  ℕ, zero, suc, ◌+◌, ◌-◌, ◌%◌, ◌^◌, Bool, true, false, not, ◌&&◌, ◌||◌, Option, none, some, List,
  [], ◌∷◌, ◌==◌, ltb, leb, if◌then◌else◌, get_elem?, set, replicate, Run, ok, fault, ◌>>=◌,
}
use cf_os.Base.Int.{ℤ, pos, negsuc, ltb_ℤ, eqb_ℤ, pos_part}
use cf_os.Base.Errno
use cf_os.Base.Errno.{Errno}

-- `struct file`, less its flags and private pointer, and the count of a `struct vnode`; `refcount` is
-- an `int` that every caller keeps positive
pub record File : Type 0 where
  pub vn : ℕ
  pub offset : ℕ
  pub refcount : ℕ

pub record Store : Type 0 where
  pub files : ℕ → Option File
  pub vnodes : ℕ → Option ℕ

pub record Slot : Type 0 where
  pub file : ℕ
  pub used : Bool

abbrev pub Table : Type 0
Table = List Slot

abbrev pub null : ℕ
null = 0

abbrev pub fd_max : ℕ
fd_max = 256

abbrev pub update {ℓ} : {A : Type ℓ} → (ℕ → Option A) → ℕ → Option A → ℕ → Option A
update f p v q = if p == q then v else f q

-- the negative codes that this layer returns as an `int`
abbrev pub err_invalid_argument : ℤ
err_invalid_argument = negsuc 1

abbrev pub err_bad_fd : ℤ
err_bad_fd = negsuc 59

abbrev pub err_too_many : ℤ
err_too_many = negsuc 60

abbrev pub success : ℤ
success = pos 0

-- vnode.c

pub vnode_ref : ℕ → Store → Run Store
vnode_ref vn s = if vn == null then ok s else (elim (s.vnodes vn) [
  | none ↦ fault
  | some n ↦ ok (record s { vnodes = update s.vnodes vn (some ((n + 1) % 2 ^ 32)) })
])

-- the vnode's `destroy` hook releases what only the file system knows of
pub vnode_unref : ℕ → Store → Run Store
vnode_unref vn s = if vn == null then ok s else (elim (s.vnodes vn) [
  | none ↦ fault
  | some n ↦
      if n == 0
      then ok s
      else (if n == 1
          then ok (record s { vnodes = update s.vnodes vn none })
          else ok (record s { vnodes = update s.vnodes vn (some (n - 1)) }))
])

-- ref.c and `vfs_close`

abbrev pub set_refs : ℕ → File → ℕ → Store → Store
set_refs f file n s = record s { files = update s.files f (some (record file { refcount = n })) }

pub file_ref : ℕ → Store → Run Store
file_ref f s = if f == null then ok s else (elim (s.files f) [
  | none ↦ fault
  | some file ↦ ok (set_refs f file (file.refcount + 1) s)
])

pub vfs_close : ℕ → Store → Run Store
vfs_close f s = if f == null then ok s else (elim (s.files f) [
  | none ↦ fault
  | some file ↦
      if ltb 1 file.refcount
      then ok (set_refs f file (file.refcount - 1) s)
      else (vnode_unref file.vn s >>= λ s'. ok (record s' { files = update s'.files f none }))
])

pub file_unref : ℕ → Store → Run Store
file_unref f s = if f == null then ok s else (elim (s.files f) [
  | none ↦ fault
  | some file ↦
      if leb file.refcount 1 then vfs_close f s else ok (set_refs f file (file.refcount - 1) s)
])

-- `vfs_open_vnode`; `alloc` is the address that `calloc` returned
pub vfs_open_vnode : ℕ → Option ℕ → Store → Run (ℕ × Store)
vfs_open_vnode vn alloc s = if vn == null then ok (null, s) else (elim alloc [
  | none ↦ ok (null, s)
  | some f ↦ vnode_ref vn s >>= λ s'. ok (
    f,
    record s' { files = update s'.files f (some (record { vn = vn; offset = 0; refcount = 1 })) },
  )
])

-- fd.c

abbrev pub free_slot : Slot
free_slot = record { file = null; used = false }

pub table_init : Option Table → Option Table
table_init none = none
table_init (some t) = some (replicate fd_max free_slot)

-- the loop of `fd_find_free` over the slots from number `i` on
pub find_free_from : Table → ℕ → ℤ
find_free_from [] i = err_too_many
find_free_from (e ∷ t) i = if not e.used then pos i else find_free_from t (i + 1)

abbrev pub drop3 : Table → Table
drop3 (a ∷ b ∷ c ∷ t) = t
drop3 t = []

-- `for (int i = 3; i < FD_MAX; ++i)`
pub find_free : Table → ℤ
find_free t = find_free_from (drop3 t) 3

abbrev pub holding : ℕ → Slot
holding f = record { file = f; used = true }

pub fd_alloc : Table → ℕ → Store → Run (ℤ × Table × Store)
fd_alloc t f s =
    let fd = find_free t in
    if f == null
    then ok (err_invalid_argument, t, s)
    else (if ltb_ℤ fd (pos 0)
        then ok (fd, t, s)
        else (file_ref f s >>= λ s'. ok (fd, set t (pos_part fd) (holding f), s')))

pub fd_install_take : Table → ℕ → ℤ × Table
fd_install_take t f =
    let fd = find_free t in
    if f == null
    then (err_invalid_argument, t)
    else (if ltb_ℤ fd (pos 0) then (fd, t) else (fd, set t (pos_part fd) (holding f)))

-- the slot that a descriptor names, if it is in use
abbrev pub slot_of : Table → ℤ → Option Slot
slot_of t fd =
    if ltb_ℤ fd (pos 0) || not (ltb_ℤ fd (pos fd_max))
    then none
    else (elim (get_elem? t (pos_part fd)) [
      | none ↦ none
      | some e ↦ if e.used then some e else none
    ])

pub fd_get : Table → ℤ → ℕ
fd_get t fd = elim (slot_of t fd) [ none ↦ null | some e ↦ e.file ]

pub fd_close : Table → ℤ → Store → Run (ℤ × Table × Store)
fd_close t fd s = elim (slot_of t fd) [
  | none ↦ ok (err_bad_fd, t, s)
  | some e ↦ file_unref e.file s >>= λ s'. ok (success, set t (pos_part fd) free_slot, s')
]

-- the end of `fd_alloc_at`: the slot takes the file
abbrev pub take_slot : Table → ℤ → ℕ → Store → Run (ℤ × Table × Store)
take_slot t want f s = file_ref f s >>= λ s'. ok (want, set t (pos_part want) (holding f), s')

pub fd_alloc_at : Table → ℤ → ℕ → Store → Run (ℤ × Table × Store)
fd_alloc_at t want f s =
    if f == null || (ltb_ℤ want (pos 0) || not (ltb_ℤ want (pos fd_max)))
    then ok (err_invalid_argument, t, s)
    else (elim (slot_of t want) [
      | none ↦ take_slot t want f s
      | some e ↦
          if e.file == f
          then ok (want, t, s)
          else (fd_close t want s >>= λ r.
              if eqb_ℤ r.0 success then take_slot r.1 want f r.2 else ok r)
    ])

pub fd_dup : Table → ℤ → Store → Run (ℤ × Table × Store)
fd_dup t oldfd s =
    let f = fd_get t oldfd in if f == null then ok (err_bad_fd, t, s) else fd_alloc t f s

pub fd_dup2 : Table → ℤ → ℤ → Store → Run (ℤ × Table × Store)
fd_dup2 t oldfd newfd s =
    let f = fd_get t oldfd in
    if ltb_ℤ newfd (pos 0) || not (ltb_ℤ newfd (pos fd_max))
    then ok (err_invalid_argument, t, s)
    else (if f == null
        then ok (err_bad_fd, t, s)
        else (if eqb_ℤ oldfd newfd then ok (newfd, t, s) else fd_alloc_at t newfd f s))

pub fd_count : Table → ℕ
fd_count [] = 0
fd_count (e ∷ t) = if e.used then suc (fd_count t) else fd_count t

-- file.c: the generic operations

-- `result == ERR_SUCCESS`
pub is_success : Errno → Bool
is_success Errno.success = true
is_success other = false

-- The end of `vfs_generic_read` and `vfs_generic_write`, after the vnode's operation has returned
-- `result` and reported `done` bytes. Returned are the code, `*out` and the file.
pub transfer_done : ℕ → Errno → ℕ → File → Errno × ℕ × File
transfer_done len result done file =
    if ltb len done
    then (Errno.io_error, 0, file)
    else (if ltb (2 ^ 32 - 1 - file.offset) done
        then (Errno.invalid_argument, 0, file)
        else (if is_success result
            then (result, done, record file { offset = file.offset + done })
            else (result, done, file)))

-- `has_buf` says that the buffer is not NULL, and `op` is the vnode's operation, if it has one.
pub generic_transfer : Bool → ℕ → Option (ℕ → ℕ → Errno × ℕ) → File → Errno × ℕ × File
generic_transfer has_buf len op file =
    if file.vn == null || (not (len == 0) && not has_buf)
    then (Errno.invalid_argument, 0, file)
    else (elim op [
      | none ↦ (Errno.not_supported, 0, file)
      | some run ↦ let (result, done) = run file.offset len in transfer_done len result done file
    ])

pub generic_seek : ℕ → File → Errno × File
generic_seek off file = (Errno.success, record file { offset = off })
