-- ===== src/Partition/Access.antt =====
-- The sectors that a partition's reads and writes ask the disk's driver for.
use cf_os.Base.{
  ℕ, ◌+◌, ◌-◌, ◌^◌, ◌≤◌, ◌<◌, ◌≡◌, refl, false, some, List, arith, ltb, leb, ◌==◌, ◌||◌, Bool-cases,
  inl, inr,
}
use cf_os.Block
use cf_os.Block.{Device, Ops, ReadOp, WriteOp}
use cf_os.Partition.{partition_read, partition_write, add32, beyond}

-- a request of at least one sector that lies inside the partition
abbrev pub Within : ℕ → ℕ → ℕ → ℕ → Type 0
Within start n lba count = (0 < count) × (start ≤ lba) × (lba + count ≤ start + n)

abbrev pub driven : Device → ReadOp → WriteOp → Device
driven disk op wop = record disk { ops = some (record { read = some op; write = some wop }) }

not_beyond : (n lba count : ℕ) → beyond n lba count ≡ false → lba + count ≤ n
not_beyond n lba count h = ground arith

module _ (disk : Device) (start n : ℕ) (fits : start + n ≤ disk.sector_count)
    (small : disk.sector_count < 2 ^ 32) where
  module _ (lba count : ℕ) (ok_there : beyond n lba count ≡ false)
      (some_sector : (count == 0) ≡ false) where
    shifted : add32 start lba ≡ start + lba
    shifted = omega (arith, not_beyond n lba count ok_there)

    on_disk :
        (leb disk.sector_count (start + lba) || ltb (disk.sector_count - (start + lba)) count)
        ≡ false
    on_disk = let le = not_beyond n lba count ok_there in ground arith

    asked : Within start n (start + lba) count
    asked =
        let le = not_beyond n lba count ok_there in (ground arith, omega arith, omega (arith, le))

  partition_read_agree :
      (op op' : ReadOp) (wop wop' : WriteOp)
      → ((l c : ℕ) → Within start n l c → op l c ≡ op' l c)
      → (lba count : ℕ)
      → partition_read (driven disk op wop) start n lba count
        ≡ partition_read (driven disk op' wop') start n lba count
  unfolding partition_read Block.read
  partition_read_agree op op' wop wop' agree lba count = elim (Bool-cases (beyond n lba count)) [
    | inl t ↦ rw t refl
    | inr f ↦ elim (Bool-cases (count == 0)) [
      | inl z ↦ rw (f, z) refl
      | inr z ↦
          rw (f, z, shifted lba count f z, on_disk lba count f z)
            (agree (start + lba) count (asked lba count f z))
    ]
  ]

  partition_write_agree :
      (op op' : ReadOp) (wop wop' : WriteOp)
      → ((l c : ℕ) (bytes : List ℕ) → Within start n l c → wop l c bytes ≡ wop' l c bytes)
      → (lba count : ℕ) (bytes : List ℕ)
      → partition_write (driven disk op wop) start n lba count bytes
        ≡ partition_write (driven disk op' wop') start n lba count bytes
  unfolding partition_write Block.write
  partition_write_agree op op' wop wop' agree lba count bytes =
      elim (Bool-cases (beyond n lba count)) [
        | inl t ↦ rw t refl
        | inr f ↦ elim (Bool-cases (count == 0)) [
          | inl z ↦ rw (f, z) refl
          | inr z ↦
              rw (f, z, shifted lba count f z, on_disk lba count f z)
                (agree (start + lba) count bytes (asked lba count f z))
        ]
      ]

-- For a partition that lies on a disk of less than 2 ^ 32 sectors, two disk drivers that agree on
-- the requests of at least one sector inside the partition give the same answers to all reads and
-- writes of the partition: no other sector is asked for.
pub partition-Within :
    (disk : Device) (start n : ℕ) (op op' : ReadOp) (wop wop' : WriteOp)
    → start + n ≤ disk.sector_count
    → disk.sector_count < 2 ^ 32
    → ((l c : ℕ) → Within start n l c → op l c ≡ op' l c)
    → ((l c : ℕ) (bytes : List ℕ) → Within start n l c → wop l c bytes ≡ wop' l c bytes)
    → (lba count : ℕ) (bytes : List ℕ)
    → (partition_read (driven disk op wop) start n lba count
        ≡ partition_read (driven disk op' wop') start n lba count)
      × (partition_write (driven disk op wop) start n lba count bytes
          ≡ partition_write (driven disk op' wop') start n lba count bytes)
partition-Within disk start n op op' wop wop' fits small reads writes lba count bytes = (
  partition_read_agree disk start n fits small op op' wop wop' reads lba count,
  partition_write_agree disk start n fits small op op' wop wop' writes lba count bytes,
)
