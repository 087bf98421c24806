-- ===== src/Partition/Examples.antt =====
-- A disk of 1000 sectors with two partitions and one that overlaps the first.
use cf_os.Base.{
  ℕ, zero, suc, ◌+◌, ◌-◌, ◌*◌, ◌/◌, ◌%◌, ◌^◌, ◌≤◌, ◌<◌, ◌≡◌, ◌≢◌, ◌⊎◌, ◌↔◌, refl, ap, sym, subst,
  ◌∙◌, Bool, true, false, Option, some, none, List, [], ◌∷◌, ◌++◌, arith, ltb, leb, ◌==◌, length,
  set, take, drop, replicate, length-replicate, length-append, length-set, get_elem?, get_or, ok,
  fault, stuck, ◌>>=◌, if◌then◌else◌, lt→ltb, le→ltb, ne→==, ==_refl, ==_iff, not, ◌&&◌, ◌||◌,
  Bool-cases, Option-cases, inl, inr, Run, append-nil, append_assoc, map, get_elem?-set_self,
  get_elem?-set_ne, get_elem?-lt, get_elem?_total, set-set_back, ltb→lt,
}
use cf_os.Base.Errno.{Errno}
use cf_os.Block
use cf_os.Block.{Device, Ops, ReadOp, WriteOp, name_of, find_name}
use cf_os.Partition.{
  State, Scanned, disk_name, scan, scan_entries, usable, is_primary, read_u32, overlaps,
  partition_read, partition_at, partition_write,
}
use cf_os.Partition.Place.{Outcome, unscanned, scan-Outcome, range_of}
use cf_os.Partition.Access.{Within, driven, partition-Within}

abbrev entry : ℕ → ℕ → ℕ → List ℕ
entry type start n = 0x80 ∷ 0 ∷ 0 ∷ 0 ∷ type ∷ 0 ∷ 0 ∷ 0 ∷ start ∷ 0 ∷ 0 ∷ 0 ∷ n ∷ 0 ∷ 0 ∷ 0 ∷ []

abbrev boot_sector : List ℕ
boot_sector =
    replicate 446 0
    ++ entry 0x83 10 100
    ++ entry 0x0c 50 20
    ++ entry 0x05 120 10
    ++ entry 0x0b 110 90
    ++ 0x55 ∷ 0xaa ∷ []

abbrev read_boot : ReadOp
read_boot lba count = (Errno.success, boot_sector)

abbrev write_none : WriteOp
write_none lba count bytes = Errno.success

abbrev hd0 : Device
hd0 = record {
  address = 0x100;
  name = some disk_name;
  ops = some (record { read = some read_boot; write = some write_none });
  sector_size = 512;
  sector_count = 1000;
}

abbrev slot_at : ℕ → ℕ
slot_at i = 0x200 + i * 0x20

abbrev scanned : Scanned × State
scanned = scan slot_at (some hd0) (unscanned (hd0 ∷ []))

-- the second entry overlaps the first, the third is an extended partition
scanned_ranges : map range_of (scanned.1).slots ≡ (10, 100) ∷ (0, 0) ∷ (0, 0) ∷ (110, 90) ∷ []
unfolding scan scan_entries usable is_primary read_u32 overlaps partition_at Block.read
    Block.register Block.find_name cf_os.Base.Bytes.strcmp_same
scanned_ranges = refl

scan-Outcome_example : Outcome hd0 scanned
scan-Outcome_example = scan-Outcome slot_at hd0 (hd0 ∷ []) (omega arith)

abbrev trusting : ReadOp
trusting lba count = (Errno.success, lba ∷ [])

abbrev careful : ReadOp
careful lba count =
    if leb 10 lba && leb (lba + count) 110 then (Errno.success, lba ∷ []) else (Errno.io_error, [])

partition-Within_example :
    (partition_read (driven hd0 careful write_none) 10 100 5 2
      ≡ partition_read (driven hd0 trusting write_none) 10 100 5 2)
    × (partition_write (driven hd0 careful write_none) 10 100 5 2 (1 ∷ [])
        ≡ partition_write (driven hd0 trusting write_none) 10 100 5 2 (1 ∷ []))
partition-Within_example =
    partition-Within hd0 10 100 careful trusting write_none write_none (omega arith) (omega arith)
      same (λ l c b w. refl) 5 2 (1 ∷ [])
  where
    same : (l c : ℕ) → Within 10 100 l c → careful l c ≡ trusting l c
    same l c w =
        let low : leb 10 l ≡ true = ground (arith, w.1) in
        let high : leb (l + c) 110 ≡ true = ground (arith, w.2) in rw (low, high) refl
