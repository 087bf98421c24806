-- ===== src/Files/Generic.antt =====
-- `vfs_generic_read` and `vfs_generic_write`: what they report and where they leave the offset.
use cf_os.Base.{
  ℕ, ◌+◌, ◌-◌, ◌≤◌, ◌<◌, ◌^◌, ◌≡◌, Bool, false, not, ◌&&◌, ◌||◌, Option, arith, ltb, ◌==◌,
  if◌then◌else◌, Bool-cases, Option-cases, inl, inr, refl,
}
use cf_os.Base.Errno.{Errno}
use cf_os.Files.{File, null, is_success, transfer_done, generic_transfer}

pub record TransferSound (len : ℕ) (file : File) (r : Errno) (out : ℕ) (file' : File) : Type 0 where
  pub within : out ≤ len
  pub no_wrap : file.offset < 2 ^ 32 → file'.offset < 2 ^ 32
  pub moves : file'.offset ≡ file.offset + (if is_success r then out else 0)
  pub vnode_kept : file'.vn ≡ file.vn
  pub refs_kept : file'.refcount ≡ file.refcount

refused :
    (len : ℕ) (file : File) (r : Errno) → is_success r ≡ false → TransferSound len file r 0 file
refused len file r e = record {
  within = omega arith;
  no_wrap = λ h. h;
  moves = rw e (omega arith);
  vnode_kept = refl;
  refs_kept = refl;
}

refl_invalid : is_success Errno.invalid_argument ≡ false
unfolding is_success
refl_invalid = refl

refl_unsupported : is_success Errno.not_supported ≡ false
unfolding is_success
refl_unsupported = refl

refl_io : is_success Errno.io_error ≡ false
unfolding is_success
refl_io = refl

transfer_done-TransferSound :
    (len : ℕ) (result : Errno) (done : ℕ) (file : File)
    → let t = transfer_done len result done file in TransferSound len file t.0 t.1 t.2
unfolding transfer_done
transfer_done-TransferSound len result done file = elim (Bool-cases (ltb len done)) [
  | inl long ↦ simp long (refused len file Errno.io_error refl_io)
  | inr short ↦ elim (Bool-cases (ltb (2 ^ 32 - 1 - file.offset) done)) [
    | inl far ↦ simp (short, far) (refused len file Errno.invalid_argument refl_invalid)
    | inr near ↦ elim (Bool-cases (is_success result)) [
      | inl well ↦
          simp (short, near, well)
            (record {
              within = ground arith;
              no_wrap = λ h. ground arith;
              moves = rw well;
              vnode_kept = refl;
              refs_kept = refl;
            })
      | inr ill ↦
          simp (short, near, ill)
            (record {
              within = ground arith;
              no_wrap = λ h. h;
              moves = rw ill (omega arith);
              vnode_kept = refl;
              refs_kept = refl;
            })
    ]
  ]
]

-- Whatever the vnode's operation answers, a generic read or write reports at most the length asked
-- for, moves the offset by the bytes reported on success and not at all on failure, and an offset
-- below 2 ^ 32 stays below it.
pub generic_transfer-TransferSound :
    (has_buf : Bool) (len : ℕ) (op : Option (ℕ → ℕ → Errno × ℕ)) (file : File)
    → let t = generic_transfer has_buf len op file in TransferSound len file t.0 t.1 t.2
unfolding generic_transfer
generic_transfer-TransferSound has_buf len op file =
    elim (Bool-cases (file.vn == null || (not (len == 0) && not has_buf))) [
      | inl bad ↦ simp bad (refused len file Errno.invalid_argument refl_invalid)
      | inr good ↦ elim (Option-cases op) [
        | inl missing ↦ simp (good, missing) (refused len file Errno.not_supported refl_unsupported)
        | inr (run, has) ↦
            simp (good, has)
              (transfer_done-TransferSound len (run file.offset len).0 (run file.offset len).1 file)
      ]
    ]
