-- ===== src/Block.antt =====
-- The block devices (src/kernel/fs/block/blockdev.c). A device is a record with its address, and the
-- registry is the devices in the order of their links; a device's fields stay as they are once it is
-- registered. The driver's `read` and `write` are fields: from a sector and a count they give the code
-- and the bytes read, or from these and the bytes to write the code.
pub mod Access
pub mod Names
mod Examples
use cf_os.Base.{
  ℕ, ◌-◌, Bool, true, false, not, ◌&&◌, ◌||◌, Option, none, some, List, [], ◌∷◌, ◌==◌, ltb, leb,
  if◌then◌else◌,
}
use cf_os.Base.Errno
use cf_os.Base.Errno.{Errno}
use cf_os.Base.Bytes.{strcmp_same}

abbrev pub ReadOp : Type 0
ReadOp = ℕ → ℕ → Errno × List ℕ

abbrev pub WriteOp : Type 0
WriteOp = ℕ → ℕ → List ℕ → Errno

pub record Ops : Type 0 where
  pub read : Option ReadOp
  pub write : Option WriteOp

pub record Device : Type 0 where
  pub address : ℕ
  pub name : Option (List ℕ)
  pub ops : Option Ops
  pub sector_size : ℕ
  pub sector_count : ℕ

-- the tests for NULL
abbrev pub given {ℓ} : {A : Type ℓ} → Option A → Bool
given none = false
given (some a) = true

abbrev pub has_name : Option (List ℕ) → Bool
has_name none = false
has_name (some []) = false
has_name (some (c ∷ s)) = true

abbrev pub has_ops : Option Ops → Bool
has_ops none = false
has_ops (some ops) = given ops.read && given ops.write

abbrev pub has_read : Option Ops → Option ReadOp
has_read none = none
has_read (some ops) = ops.read

abbrev pub has_write : Option Ops → Option WriteOp
has_write none = none
has_write (some ops) = ops.write

abbrev pub complete : Device → Bool
complete bd =
    has_name bd.name && has_ops bd.ops && not (bd.sector_size == 0) && not (bd.sector_count == 0)

-- a registered device has a name
abbrev pub name_of : Device → List ℕ
name_of bd = elim bd.name [ none ↦ [] | some s ↦ s ]

-- the walks over the registry that compare names
unfoldable pub find_name : List ℕ → List Device → Option Device
find_name name [] = none
find_name name (it ∷ l) = if strcmp_same (name_of it) name then some it else find_name name l

unfoldable pub register : Option Device → List Device → Errno × List Device
register none l = (Errno.invalid_argument, l)
register (some bd) l =
    if not (complete bd)
    then (Errno.invalid_argument, l)
    else (if given (find_name (name_of bd) l)
        then (Errno.already_exists, l)
        else (Errno.success, bd ∷ l))

pub drop_device : ℕ → List Device → Errno × List Device
drop_device address [] = (Errno.not_found, [])
drop_device address (it ∷ l) =
    let rest = drop_device address l in
    if it.address == address then (Errno.success, l) else (rest.0, it ∷ rest.1)

pub unregister : Option Device → List Device → Errno × List Device
unregister none l = (Errno.invalid_argument, l)
unregister (some bd) l = drop_device bd.address l

pub lookup : Option (List ℕ) → List Device → Option Device
lookup none l = none
lookup (some name) l = find_name name l

-- `!buf || lba >= sector_count || count > sector_count - lba`
abbrev pub outside : Device → ℕ → ℕ → Bool → Bool
outside bd lba count has_buf =
    not has_buf || (leb bd.sector_count lba || ltb (bd.sector_count - lba) count)

unfoldable pub read : Option Device → ℕ → ℕ → Bool → Errno × List ℕ
read none lba count has_buf = (Errno.invalid_argument, [])
read (some bd) lba count has_buf = elim (has_read bd.ops) [
  | none ↦ (Errno.invalid_argument, [])
  | some op ↦
      if count == 0
      then (Errno.success, [])
      else (if outside bd lba count has_buf then (Errno.invalid_argument, []) else op lba count)
]

unfoldable pub write : Option Device → ℕ → ℕ → Bool → List ℕ → Errno
write none lba count has_buf bytes = Errno.invalid_argument
write (some bd) lba count has_buf bytes = elim (has_write bd.ops) [
  | none ↦ Errno.invalid_argument
  | some op ↦
      if count == 0
      then Errno.success
      else (if outside bd lba count has_buf then Errno.invalid_argument else op lba count bytes)
]
