-- ===== src/Partition/Place.antt =====
-- Where the partitions that a scan registers lie.
use cf_os.Base.{
  ℕ, zero, suc, ◌+◌, ◌*◌, ◌^◌, ◌≤◌, ◌<◌, ◌≡◌, ◌≢◌, refl, ap, sym, subst, ◌∙◌, Bool, true, false,
  Option, some, none, List, [], ◌∷◌, arith, ltb, ◌==◌, length, set, replicate, length-set, get_or,
  if◌then◌else◌, lt→ltb, ne→==, ==_iff, not, ◌&&◌, ◌||◌, Bool-cases, inl, inr, map, ltb→lt,
}
use cf_os.Base.Errno.{Errno}
use cf_os.Block
use cf_os.Block.{Device}
use cf_os.Partition.{
  Partition, State, Range, Scanned, failed, found, partition_count, partition_at, add32, beyond,
  byte, read_u32, registered, overlaps, usable, is_primary, off_disk, scan_entries, roll_back, scan,
  is_disk, is_success,
}
use cf_os.Base.{get_or-set_self, get_or-set_ne, if_then, if_else}

abbrev pub Slots : Type 0
Slots = List (Option Partition)

-- the sectors of the slot `j`, none where it is empty
abbrev pub range_of : Option Partition → Range
range_of none = (0, 0)
range_of (some p) = (p.start_lba, p.device.sector_count)

abbrev pub range_at : Slots → ℕ → Range
range_at slots j = range_of (get_or slots j none)

abbrev pub IsIn : ℕ → Range → Type 0
IsIn q r = (r.0 ≤ q) × (q < r.0 + r.1)

-- The partitions lie on the disk behind its first sector, and no sector belongs to two of them.
pub record Placed (disk : Device) (slots : Slots) : Type 0 where
  pub size : length slots ≡ partition_count
  pub inside : (j q : ℕ) → IsIn q (range_at slots j) → (0 < q) × (q < disk.sector_count)
  pub no_wrap : (j : ℕ) → (range_at slots j).0 + (range_at slots j).1 < 2 ^ 32
  pub apart : (j k q : ℕ) → j ≢ k → IsIn q (range_at slots j) → IsIn q (range_at slots k) → ⊥

and-both : (a b : Bool) → (a && b) ≡ true → (a ≡ true) × (b ≡ true)
and-both true b e = (refl, e)
and-both false b e = ground arith

map-set :
    (l : Slots) (i : ℕ) (p : Option Partition)
    → map range_of (set l i p) ≡ set (map range_of l) i (range_of p)
map-set [] i p = refl
map-set (x ∷ l) zero p = refl
map-set (x ∷ l) (suc i) p = ap (λ k. range_of x ∷ k) (map-set l i p)

registered-set :
    (l : Slots) (i : ℕ) (p : Partition)
    → i < length l
    → get_or l i none ≡ none
    → registered (set l i (some p)) ≡ registered l + 1
unfolding registered
registered-set [] i p lt e = absurd (omega arith)
registered-set (none ∷ l) zero p lt e = omega arith
registered-set (some x ∷ l) zero p lt e = ground arith
registered-set (none ∷ l) (suc i) p lt e = registered-set l i p (omega arith) e
registered-set (some x ∷ l) (suc i) p lt e = omega (arith, registered-set l i p (omega arith) e)

true-ne : true ≢ false
true-ne e = ground arith

-- A range that overlaps none of the first `i` shares no sector with them.
overlaps-Apart :
    (slots : Slots) (i start n j q : ℕ)
    → overlaps (map range_of slots) i start n ≡ false
    → ((k : ℕ) → (range_at slots k).0 + (range_at slots k).1 < 2 ^ 32)
    → start + n < 2 ^ 32
    → j < i
    → IsIn q (range_at slots j)
    → IsIn q (start, n)
    → ⊥
unfolding overlaps
overlaps-Apart slots zero start n j q e w small lt a b = absurd (omega arith)
overlaps-Apart [] (suc i) start n j q e w small lt a b = omega (arith, a.0, a.1)
overlaps-Apart (o ∷ slots) (suc i) start n zero q e w small lt a b =
    let r = range_of o in
    let no_wrap : r.0 + r.1 < 2 ^ 32 = w 0 in
    let one : (r.1 == 0) ≡ false = ne→== r.1 0 (omega (arith, a.0, a.1)) in
    let two : ltb start (add32 r.0 r.1) ≡ true = lt→ltb _ _ (omega (arith, a.1, b.0, no_wrap)) in
    let three : ltb r.0 (add32 start n) ≡ true = lt→ltb _ _ (omega (arith, a.0, b.1, small)) in
    let hit : (not (r.1 == 0) && ltb start (add32 r.0 r.1) && ltb r.0 (add32 start n)) ≡ true =
      rw (one, two, three) refl in
    true-ne (sym (if_then _ true (overlaps (map range_of slots) i start n) hit) ∙ e)
overlaps-Apart (o ∷ slots) (suc i) start n (suc j) q e w small lt a b =
    let r = range_of o in
    let test = not (r.1 == 0) && ltb start (add32 r.0 r.1) && ltb r.0 (add32 start n) in
    let rest = overlaps (map range_of slots) i start n in
    elim (Bool-cases test) [
      | inl hit ↦ true-ne (sym (if_then test true rest hit) ∙ e)
      | inr miss ↦
          overlaps-Apart slots i start n j q (sym (if_else test true rest miss) ∙ e)
            (λ k. w (suc k)) small (omega arith) a b
    ]

-- Nothing stands at the slot `i` and behind it.
abbrev Fresh : ℕ → Slots → Type 0
Fresh i slots = (j : ℕ) → i ≤ j → get_or slots j none ≡ none

module _ (disk : Device) (slots : Slots) (v : Placed disk slots) (i : ℕ) (lt : i < partition_count)
    (fresh : Fresh i slots) (p : Partition) (low : 0 < p.start_lba)
    (high : p.start_lba + p.device.sector_count ≤ disk.sector_count)
    (small : disk.sector_count < 2 ^ 32)
    (alone : overlaps (map range_of slots) i p.start_lba p.device.sector_count ≡ false) where
  abbrev next : Slots
  next = set slots i (some p)

  abbrev range : Range
  range = (p.start_lba, p.device.sector_count)

  range_here : range_at next i ≡ range
  range_here = ap range_of (get_or-set_self slots i (some p) none (omega (arith, v.size)))

  range_there : (j : ℕ) → i ≢ j → range_at next j ≡ range_at slots j
  range_there j ne = ap range_of (get_or-set_ne slots i j (some p) none ne)

  new-Apart : (k q : ℕ) → i ≢ k → IsIn q (range_at slots k) → IsIn q range → ⊥
  new-Apart k q ne a b = elim (Bool-cases (ltb k i)) [
    | inl before ↦
        overlaps-Apart slots i p.start_lba p.device.sector_count k q alone v.no_wrap (omega arith)
          (ltb→lt k i before) a b
    | inr behind ↦
        let e : range_at slots k ≡ (0, 0) = ap range_of (fresh k (ground arith)) in
        let c : IsIn q (0, 0) = subst (λ r. IsIn q r) e a in omega (arith, c.1)
  ]

  at_or_not :
      (P : Range → Type 0) (j : ℕ)
      → (i ≡ j → P range)
      → (i ≢ j → P (range_at slots j))
      → P (range_at next j)
  at_or_not P j here there = elim (Bool-cases (i == j)) [
    | inl e ↦
        let same = (==_iff i j).0 e in
        subst (λ k. P (range_at next k)) same (subst (λ r. P r) (sym range_here) (here same))
    | inr f ↦
        let ne : i ≢ j = λ e. ground (arith, e) in
        subst (λ r. P r) (sym (range_there j ne)) (there ne)
  ]

  set-Placed : Placed disk next
  set-Placed = record {
    size = length-set slots i (some p) ∙ v.size;
    inside = λ j q.
        at_or_not (λ r. IsIn q r → (0 < q) × (q < disk.sector_count)) j
          (λ _ a. (omega (arith, a.0), omega (arith, a.1))) (λ ne. v.inside j q);
    no_wrap = λ j. at_or_not (λ r. r.0 + r.1 < 2 ^ 32) j (λ _. omega arith) (λ ne. v.no_wrap j);
    apart = λ j k q ne.
        at_or_not (λ r. IsIn q r → IsIn q (range_at next k) → ⊥) j
          (λ ij a b.
            let ik : i ≢ k = λ e. ne (sym ij ∙ e) in
            new-Apart k q ik (subst (λ r. IsIn q r) (range_there k ik) b) a)
          (λ ij a.
            at_or_not (λ r. IsIn q r → ⊥) k (λ _ b. new-Apart j q ij a b)
              (λ ik b. v.apart j k q ne a b));
  }

  set-Fresh : Fresh (i + 1) next
  set-Fresh j le =
      get_or-set_ne slots i j (some p) none (λ e. omega (arith, e)) ∙ fresh j (omega arith)

  set-registered : registered next ≡ registered slots + 1
  set-registered = registered-set slots i p (omega (arith, v.size)) (fresh i (omega arith))

-- What the tests of an entry tell of its range.
usable-Fits :
    (disk : Device) (sector : List ℕ) (i : ℕ) (ranges : List Range)
    → usable disk sector i ranges ≡ true
    → (0 < read_u32 sector (446 + i * 16 + 8))
      × (read_u32 sector (446 + i * 16 + 8) + read_u32 sector (446 + i * 16 + 12)
          ≤ disk.sector_count)
      × (overlaps ranges i
            (read_u32 sector (446 + i * 16 + 8))
            (read_u32 sector (446 + i * 16 + 12))
          ≡ false)
unfolding usable
usable-Fits disk sector i ranges e =
    let start = read_u32 sector (446 + i * 16 + 8) in
    let n = read_u32 sector (446 + i * 16 + 12) in
    let on_disk = not (off_disk disk start n) in
    let alone = not (overlaps ranges i start n) in
    let r =
      and-both on_disk alone (and-both (is_primary sector (446 + i * 16)) (on_disk && alone) e).1 in
    let f = fits_of start n disk.sector_count r.0 in
    (f.0, f.1, not-false (overlaps ranges i start n) r.1)
  where
    not-false : (b : Bool) → not b ≡ true → b ≡ false
    not-false false e = refl
    not-false true e = ground arith

    fits_of :
        (start n total : ℕ)
        → not (start == 0 || beyond total start n) ≡ true
        → (0 < start) × (start + n ≤ total)
    fits_of start n total h = (ground arith, ground arith)

-- What a scan that finds partitions is to leave.
pub record Listed (disk : Device) (n : ℕ) (s : State) : Type 0 where
  pub placed : Placed disk s.slots
  pub counted : n ≡ registered s.slots

-- A scan that fails leaves no partition and no disk, so that the next scan starts afresh.
pub Outcome : Device → Scanned × State → Type 0
Outcome disk (failed c, s) = (s.disk ≡ none) × (s.slots ≡ replicate partition_count none)
Outcome disk (found n, s) = Listed disk n s

scan_entries-Outcome :
    (n : ℕ) (at_slot : ℕ → ℕ) (disk : Device) (sector : List ℕ) (i : ℕ) (s : State)
    → i + n ≡ partition_count
    → disk.sector_count < 2 ^ 32
    → Placed disk s.slots
    → Fresh i s.slots
    → Outcome disk
        (scan_entries n at_slot disk sector i (map range_of s.slots) (registered s.slots) s)
unfolding scan_entries partition_at Outcome
scan_entries-Outcome zero at_slot disk sector i s count small v fresh = record {
  placed = v;
  counted = refl;
}
scan_entries-Outcome (suc n) at_slot disk sector i s count small v fresh =
    let start = read_u32 sector (446 + i * 16 + 8) in
    let length_of = read_u32 sector (446 + i * 16 + 12) in
    let p = partition_at (at_slot i) i disk start length_of in
    let (result, devices) = Block.register (some p.device) s.devices in
    let u = usable disk sector i (map range_of s.slots) in
    let slots = set s.slots i (some p) in
    let s1 : State = record s { slots = slots; devices = devices } in
    let skip =
      scan_entries n at_slot disk sector (i + 1) (map range_of s.slots) (registered s.slots) s in
    let placed = set (map range_of s.slots) i (start, length_of) in
    let go = scan_entries n at_slot disk sector (i + 1) placed (registered s.slots + 1) s1 in
    let undone : State = record {
      slots = replicate partition_count none;
      disk = none;
      devices = roll_back slots devices;
    } in
    let inner : Scanned × State = if is_success result then go else (failed result, undone) in
    elim (Bool-cases u) [
      | inr f ↦
          subst (λ x. Outcome disk x) (sym (if_then (not u) skip inner (ap not f)))
            (scan_entries-Outcome n at_slot disk sector (i + 1) s (omega arith) small v
              (λ j le. fresh j (omega arith)))
      | inl t ↦
          let f = usable-Fits disk sector i (map range_of s.slots) t in
          let sum = set-registered disk s.slots v i (omega arith) fresh p f.0 f.1 small f.2 in
          let same : scan_entries n at_slot disk sector (i + 1) (map range_of slots)
                (registered slots) s1
              ≡ go =
            ap (λ r. scan_entries n at_slot disk sector (i + 1) r (registered slots) s1)
              (map-set s.slots i (some p))
            ∙ ap (λ c. scan_entries n at_slot disk sector (i + 1) placed c s1) sum in
          let next =
            scan_entries-Outcome n at_slot disk sector (i + 1) s1 (omega arith) small
              (set-Placed disk s.slots v i (omega arith) fresh p f.0 f.1 small f.2)
              (set-Fresh disk s.slots v i (omega arith) fresh p f.0 f.1 small f.2) in
          subst (λ x. Outcome disk x) (sym (if_else (not u) skip inner (ap not t)))
            (elim (Bool-cases (is_success result)) [
              | inr bad ↦
                  subst (λ x. Outcome disk x)
                    (sym (if_else (is_success result) go (failed result, undone) bad)) (refl, refl)
              | inl good ↦
                  subst (λ x. Outcome disk x)
                    (sym (if_then (is_success result) go (failed result, undone) good))
                    (subst (λ x. Outcome disk x) same next)
            ])
    ]

abbrev pub none_there : Slots
none_there = replicate partition_count none

empty_slot : (j : ℕ) → get_or none_there j none ≡ none
empty_slot zero = refl
empty_slot (suc zero) = refl
empty_slot (suc (suc zero)) = refl
empty_slot (suc (suc (suc zero))) = refl
empty_slot (suc (suc (suc (suc j)))) = refl

empty-Placed : (disk : Device) → Placed disk none_there
empty-Placed disk =
    let e : (j : ℕ) → range_at none_there j ≡ (0, 0) = λ j. ap range_of (empty_slot j) in
    let out : (j q : ℕ) → IsIn q (range_at none_there j) → ⊥ =
      λ j q a. absurd-in q (subst (λ r. IsIn q r) (e j) a) in
    record {
      size = refl;
      inside = λ j q a. absurd (out j q a);
      no_wrap = λ j. subst (λ (r : Range). r.0 + r.1 < 2 ^ 32) (sym (e j)) (omega arith);
      apart = λ j k q ne a b. out j q a;
    }
  where
    absurd-in : (q : ℕ) → IsIn q (0, 0) → ⊥
    absurd-in q a = omega (arith, a.1)

Outcome-if :
    (disk : Device) (b : Bool) (x y : Scanned × State)
    → Outcome disk x
    → Outcome disk y
    → Outcome disk (if b then x else y)
Outcome-if disk true x y a b = a
Outcome-if disk false x y a b = b

-- no disk was scanned yet
abbrev pub unscanned : List Device → State
unscanned devices = record { slots = none_there; disk = none; devices = devices }

-- From a state without partitions, `partition_scan` of a disk of less than 2 ^ 32 sectors either
-- fails and leaves no partition and no disk, or returns the number of partitions that it lists,
-- which all lie on the disk behind its first sector and share no sector.
pub scan-Outcome :
    (at_slot : ℕ → ℕ) (disk : Device) (devices : List Device)
    → disk.sector_count < 2 ^ 32
    → Outcome disk (scan at_slot (some disk) (unscanned devices))
unfolding scan Outcome registered
scan-Outcome at_slot disk devices small =
    let s = unscanned devices in
    let (result, sector) = Block.read (some disk) 0 1 true in
    let start : State = record s { disk = some disk } in
    let run =
      scan_entries partition_count at_slot disk sector 0 (replicate partition_count (0, 0)) 0
        start in
    let unread : Scanned × State = (failed result, s) in
    let unsigned : Scanned × State = (failed Errno.not_found, s) in
    let signed = not (byte sector 510 == 0x55) || not (byte sector 511 == 0xaa) in
    let read_on : Scanned × State = if signed then unsigned else run in
    let done =
      scan_entries-Outcome partition_count at_slot disk sector 0 start refl small
        (empty-Placed disk) (λ j le. empty_slot j) in
    Outcome-if disk (not (is_disk disk)) (failed Errno.invalid_argument, s)
      (if not (is_success result) then unread else read_on) (refl, refl)
      (Outcome-if disk (not (is_success result)) unread read_on (refl, refl)
        (Outcome-if disk signed unsigned run (refl, refl) done))
