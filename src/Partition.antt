-- ===== src/Partition.antt =====
-- The partitions of the disk (src/kernel/fs/block/partition.c), over the block devices (Block). A slot
-- of `g_partitions` is there once its device has a name; its device's operations are those of this
-- file, with the slot as private data.
pub mod Place
pub mod Access
mod Examples
use cf_os.Base.{
  ℕ, zero, suc, ◌+◌, ◌-◌, ◌*◌, ◌%◌, ◌^◌, Bool, true, false, not, ◌&&◌, ◌||◌, Option, none, some,
  List, [], ◌∷◌, ◌==◌, ltb, leb, if◌then◌else◌, get_or, set, replicate,
}
use cf_os.Base.Errno
use cf_os.Base.Errno.{Errno}
use cf_os.Base.Bytes.{strcmp_same}
use cf_os.Block
use cf_os.Block.{Device, Ops, ReadOp, WriteOp, name_of, given}

abbrev pub partition_count : ℕ
partition_count = 4

-- the sectors of a partition: the first and their number
abbrev pub Range : Type 0
Range = ℕ × ℕ

pub record Partition : Type 0 where
  pub device : Device
  pub disk : Device
  pub start_lba : ℕ

pub record State : Type 0 where
  pub slots : List (Option Partition)
  pub disk : Option Device
  pub devices : List Device

-- what `partition_scan` returns: an error code or a number
pub data Scanned : Type 0 where
  failed : Errno → Scanned
  found : ℕ → Scanned

abbrev pub add32 : ℕ → ℕ → ℕ
add32 a b = (a + b) % 2 ^ 32

abbrev pub byte : List ℕ → ℕ → ℕ
byte sector k = get_or sector k 0

pub read_u32 : List ℕ → ℕ → ℕ
read_u32 sector k =
    byte sector k
    + 2 ^ 8 * byte sector (k + 1)
    + 2 ^ 16 * byte sector (k + 2)
    + 2 ^ 24 * byte sector (k + 3)

-- lba >= sector_count || count > sector_count - lba
abbrev pub beyond : ℕ → ℕ → ℕ → Bool
beyond sector_count lba count = leb sector_count lba || ltb (sector_count - lba) count

-- from the disk, the first sector and the number of sectors; the buffer was tested before
pub partition_read : Device → ℕ → ℕ → ReadOp
partition_read disk start_lba sector_count lba count =
    if beyond sector_count lba count
    then (Errno.invalid_argument, [])
    else Block.read (some disk) (add32 start_lba lba) count true

pub partition_write : Device → ℕ → ℕ → WriteOp
partition_write disk start_lba sector_count lba count bytes =
    if beyond sector_count lba count
    then Errno.invalid_argument
    else Block.write (some disk) (add32 start_lba lba) count true bytes

-- `g_partition_names`
abbrev pub partition_name : ℕ → List ℕ
partition_name i = b'h' ∷ b'd' ∷ b'0' ∷ b'p' ∷ (b'1' + i) ∷ []

abbrev pub disk_name : List ℕ
disk_name = b'h' ∷ b'd' ∷ b'0' ∷ []

-- the slot `i`, whose device stands at `address`
pub partition_at : ℕ → ℕ → Device → ℕ → ℕ → Partition
partition_at address i disk start_lba sector_count = record {
  device = record {
    address = address;
    name = some (partition_name i);
    ops = some (record {
      read = some (partition_read disk start_lba sector_count);
      write = some (partition_write disk start_lba sector_count);
    });
    sector_size = disk.sector_size;
    sector_count = sector_count;
  };
  disk = disk;
  start_lba = start_lba;
}

pub registered : List (Option Partition) → ℕ
registered [] = 0
registered (none ∷ l) = registered l
registered (some p ∷ l) = 1 + registered l

-- the loop over the ranges of the `i` entries before
pub overlaps : List Range → ℕ → ℕ → ℕ → Bool
overlaps ranges zero start_lba sector_count = false
overlaps [] (suc i) start_lba sector_count = false
overlaps ((s, n) ∷ ranges) (suc i) start_lba sector_count =
    let rest = overlaps ranges i start_lba sector_count in
    if not (n == 0) && ltb start_lba (add32 s n) && ltb s (add32 start_lba sector_count)
    then true
    else rest

-- an entry of the table with a type and a size, that is no extended partition
pub is_primary : List ℕ → ℕ → Bool
is_primary sector entry =
    let status = byte sector entry in
    let type = byte sector (entry + 4) in
    not (type == 0 || read_u32 sector (entry + 12) == 0)
    && not
        (not (status == 0) && not (status == 0x80) || type == 0x05 || type == 0x0f || type == 0x85)

-- !start_lba || start_lba >= disk->sector_count || sector_count > disk->sector_count - start_lba
abbrev pub off_disk : Device → ℕ → ℕ → Bool
off_disk disk start_lba sector_count =
    start_lba == 0 || beyond disk.sector_count start_lba sector_count

-- the entry passes every `continue`
pub usable : Device → List ℕ → ℕ → List Range → Bool
usable disk sector i ranges =
    let start_lba = read_u32 sector (446 + i * 16 + 8) in
    let sector_count = read_u32 sector (446 + i * 16 + 12) in
    is_primary sector (446 + i * 16)
    && (not (off_disk disk start_lba sector_count)
        && not (overlaps ranges i start_lba sector_count))

-- the loop that takes the registered slots back
pub roll_back : List (Option Partition) → List Device → List Device
roll_back [] devices = devices
roll_back (none ∷ l) devices = roll_back l devices
roll_back (some p ∷ l) devices = roll_back l (Block.unregister (some p.device) devices).1

abbrev pub is_success : Errno → Bool
is_success Errno.success = true
is_success _ = false

-- The loop over the entries from `i` on, with `n` left. `at` gives the addresses of the slots' devices.
pub scan_entries : ℕ → (ℕ → ℕ) → Device → List ℕ → ℕ → List Range → ℕ → State → Scanned × State
scan_entries zero at_slot disk sector i ranges count s = (found count, s)
scan_entries (suc n) at_slot disk sector i ranges count s =
    let start_lba = read_u32 sector (446 + i * 16 + 8) in
    let sector_count = read_u32 sector (446 + i * 16 + 12) in
    let p = partition_at (at_slot i) i disk start_lba sector_count in
    let slots = set s.slots i (some p) in
    let (result, devices) = Block.register (some p.device) s.devices in
    let skip = scan_entries n at_slot disk sector (i + 1) ranges count s in
    let go =
      scan_entries n at_slot disk sector (i + 1) (set ranges i (start_lba, sector_count))
        (count + 1) (record s { slots = slots; devices = devices }) in
    let undone : State = record {
      slots = replicate partition_count none;
      disk = none;
      devices = roll_back slots devices;
    } in
    if not (usable disk sector i ranges)
    then skip
    else (if is_success result then go else (failed result, undone))

abbrev pub is_disk : Device → Bool
is_disk disk =
    disk.sector_size == 512
    && not (disk.sector_count == 0)
    && given disk.name
    && strcmp_same (name_of disk) disk_name

-- the disk that was scanned before, if any
abbrev pub scanned_before : Device → State → Option Scanned
scanned_before disk s = elim s.disk [
  | none ↦ none
  | some d ↦
      some
        (if not (d.address == disk.address) then failed Errno.busy else found (registered s.slots))
]

pub scan : (ℕ → ℕ) → Option Device → State → Scanned × State
scan at_slot none s = (failed Errno.invalid_argument, s)
scan at_slot (some disk) s =
    let (result, sector) = Block.read (some disk) 0 1 true in
    let go =
      scan_entries partition_count at_slot disk sector 0 (replicate partition_count (0, 0)) 0
        (record s { disk = some disk }) in
    if not (is_disk disk)
    then (failed Errno.invalid_argument, s)
    else (elim (scanned_before disk s) [
      | some r ↦ (r, s)
      | none ↦
          if not (is_success result)
          then (failed result, s)
          else if not (byte sector 510 == 0x55) || not (byte sector 511 == 0xaa)
          then (failed Errno.not_found, s)
          else go
    ])
