-- ===== src/Block/Examples.antt =====
-- A disk of eight sectors, registered and read.
use cf_os.Base.{
  ℕ, ◌+◌, ◌≡◌, ◌≢◌, refl, some, none, List, [], ◌∷◌, ltb, replicate, if◌then◌else◌, le→ltb,
}
use cf_os.Base.Errno.{Errno}
use cf_os.Block.{Device, ReadOp, WriteOp, name_of, find_name, register, lookup, unregister}
use cf_os.Block.Access.{Inside}
use cf_os.Block.Names.{unregister-register}

abbrev careful : ReadOp
careful lba count =
    if ltb 8 (lba + count) then (Errno.device_fault, []) else (Errno.success, replicate count lba)

-- a driver that trusts its caller
abbrev trusting : ReadOp
trusting lba count = (Errno.success, replicate count lba)

abbrev careful_write : WriteOp
careful_write lba count bytes = if ltb 8 (lba + count) then Errno.device_fault else Errno.success

abbrev trusting_write : WriteOp
trusting_write lba count bytes = Errno.success

abbrev hd0 : Device
hd0 = record {
  address = 0x8000;
  name = some (b'h' ∷ b'd' ∷ b'0' ∷ []);
  ops = some (record { read = some careful; write = some careful_write });
  sector_size = 512;
  sector_count = 8;
}

drivers-Inside : (lba count : ℕ) → Inside hd0 lba count → careful lba count ≡ trusting lba count
drivers-Inside lba count h = rw (le→ltb 8 (lba + count) h.1) refl

same_write :
    (lba count : ℕ) (bytes : List ℕ)
    → Inside hd0 lba count
    → careful_write lba count bytes ≡ trusting_write lba count bytes
same_write lba count bytes h = rw (le→ltb 8 (lba + count) h.1) refl

none_registered : find_name (name_of hd0) [] ≡ none
unfolding find_name
none_registered = refl

unregister-register_example :
    (l' : List Device) × (register (some hd0) [] ≡ (Errno.success, l'))
    × (lookup (some (name_of hd0)) l' ≡ some hd0)
    × ((m : List ℕ) → m ≢ name_of hd0 → lookup (some m) l' ≡ lookup (some m) [])
    × (register (some hd0) l' ≡ (Errno.already_exists, l'))
    × (unregister (some hd0) l' ≡ (Errno.success, []))
unregister-register_example = unregister-register hd0 [] refl none_registered
