-- ===== src/Block/Names.antt =====
-- The registry of block devices: what a registration means for the names.
use cf_os.Base.{ℕ, ◌≡◌, ◌≢◌, refl, sym, true, some, none, List, ◌∷◌, ==_refl}
use cf_os.Base.Errno.{Errno}
use cf_os.Base.Bytes.{strcmp_same, strcmp_same_refl, ne→strcmp_same}
use cf_os.Block.{Device, complete, name_of, find_name, register, drop_device, unregister, lookup}

-- A complete block device whose name is not registered is registered: its name then leads to it and
-- every other name where it led, registering it again is refused as existing, and unregistering it
-- restores the registry.
pub unregister-register :
    (bd : Device) (l : List Device)
    → complete bd ≡ true
    → find_name (name_of bd) l ≡ none
    → (l' : List Device) × (register (some bd) l ≡ (Errno.success, l'))
      × (lookup (some (name_of bd)) l' ≡ some bd)
      × ((m : List ℕ) → m ≢ name_of bd → lookup (some m) l' ≡ lookup (some m) l)
      × (register (some bd) l' ≡ (Errno.already_exists, l'))
      × (unregister (some bd) l' ≡ (Errno.success, l))
unfolding register lookup find_name unregister drop_device
unregister-register bd l whole fresh =
    let own : strcmp_same (name_of bd) (name_of bd) ≡ true = strcmp_same_refl (name_of bd) in
    (
      bd ∷ l,
      rw (whole, fresh) refl,
      rw own refl,
      λ m ne. rw (ne→strcmp_same (name_of bd) m (λ e. ne (sym e))) refl,
      rw (whole, own) refl,
      rw (==_refl bd.address) refl,
    )
