-- ===== src/Block/Access.antt =====
-- `blockdev_read` and `blockdev_write`: the requests that reach the driver.
use cf_os.Base.{
  ℕ, ◌+◌, ◌-◌, ◌≤◌, ◌<◌, ◌≡◌, refl, Bool, true, false, Option, some, List, arith, ltb, leb, ◌==◌,
  ◌||◌, Bool-cases, inl, inr,
}
use cf_os.Block.{Device, ReadOp, WriteOp, read, write}

-- a request that the device can answer
abbrev pub Inside : Device → ℕ → ℕ → Type 0
Inside bd lba count = (0 < count) × (lba + count ≤ bd.sector_count)

abbrev pub with_read : Device → ReadOp → Option WriteOp → Device
with_read bd op w = record bd { ops = some (record { read = some op; write = w }) }

abbrev pub with_write : Device → Option ReadOp → WriteOp → Device
with_write bd r op = record bd { ops = some (record { read = r; write = some op }) }

in_range : (n lba count : ℕ) → (leb n lba || ltb (n - lba) count) ≡ false → lba + count ≤ n
in_range n lba count h = ground arith

-- Two drivers that agree on every request of at least one sector that lies inside the device give
-- the same answer to every read: a driver is asked for no sector that the device does not have.
pub read_agree :
    (bd : Device) (w : Option WriteOp) (op op' : ReadOp)
    → ((lba count : ℕ) → Inside bd lba count → op lba count ≡ op' lba count)
    → (lba count : ℕ) (has_buf : Bool)
    → read (some (with_read bd op w)) lba count has_buf
      ≡ read (some (with_read bd op' w)) lba count has_buf
unfolding read
read_agree bd w op op' agree lba count false = refl
read_agree bd w op op' agree lba count true = elim (Bool-cases (count == 0)) [
  | inl z ↦ rw z refl
  | inr z ↦ elim (Bool-cases (leb bd.sector_count lba || ltb (bd.sector_count - lba) count)) [
    | inl out ↦ rw (z, out) refl
    | inr fits ↦
        rw (z, fits) (agree lba count (ground arith, in_range bd.sector_count lba count fits))
  ]
]

-- Two drivers that agree on every request of at least one sector that lies inside the device give
-- the same answer to every write.
pub write_agree :
    (bd : Device) (r : Option ReadOp) (op op' : WriteOp)
    → ((lba count : ℕ) (bytes : List ℕ)
        → Inside bd lba count
        → op lba count bytes ≡ op' lba count bytes)
    → (lba count : ℕ) (has_buf : Bool) (bytes : List ℕ)
    → write (some (with_write bd r op)) lba count has_buf bytes
      ≡ write (some (with_write bd r op')) lba count has_buf bytes
unfolding write
write_agree bd r op op' agree lba count false bytes = refl
write_agree bd r op op' agree lba count true bytes = elim (Bool-cases (count == 0)) [
  | inl z ↦ rw z refl
  | inr z ↦ elim (Bool-cases (leb bd.sector_count lba || ltb (bd.sector_count - lba) count)) [
    | inl out ↦ rw (z, out) refl
    | inr fits ↦
        rw (z, fits) (agree lba count bytes (ground arith, in_range bd.sector_count lba count fits))
  ]
]
