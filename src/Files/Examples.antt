-- ===== src/Files/Examples.antt =====
-- A table with one file open twice, whose vnode has one reference.
use cf_os.Base.{
  ℕ, zero, suc, ◌+◌, ◌<◌, ◌≡◌, ◌≢◌, ◌↔◌, refl, subst, true, Option, some, none, [], ◌∷◌, arith,
  ◌==◌, set, replicate, ok, Bool-cases, inl, inr,
}
use cf_os.Base.Int.{ℤ, pos, negsuc}
use cf_os.Base.Errno.{Errno}
use cf_os.Files.{
  File, Store, Table, null, free_slot, holding, slot_of, update, success, find_free, table_init,
  fd_alloc, fd_get, fd_close, fd_dup2, fd_count, generic_transfer,
}
use cf_os.Files.Refs.{refs_of, refs_of-some, refs_of-none, Dropped}
use cf_os.Files.Table.{Accounted, slots_of, NoNull}
use cf_os.Files.Alloc.{AllocOutcome, OnlySlot, Opened, fd_alloc-outcome}
use cf_os.Files.Generic.{TransferSound, generic_transfer-TransferSound}
use cf_os.Files.Dup.{AllReady, fd_close-closes, fd_dup2-Opened}

abbrev the_file : File
the_file = record { vn = 0x50; offset = 0; refcount = 2 }

abbrev store : Store
store = record {
  files = update (λ p. none) 0x80 (some the_file);
  vnodes = update (λ p. none) 0x50 (some 1);
}

abbrev table : Table
table = free_slot ∷ free_slot ∷ free_slot ∷ holding 0x80 ∷ holding 0x80 ∷ replicate 251 free_slot

NoNull-free : (n : ℕ) → NoNull (replicate n free_slot)
NoNull-free zero = tt
NoNull-free (suc n) = (λ u. absurd (cc), NoNull-free n)

slots_of-free : (n f : ℕ) → slots_of (replicate n free_slot) f ≡ 0
slots_of-free zero f = refl
slots_of-free (suc n) f = omega (arith, slots_of-free n f)

in_use : ◌≢◌ {A = ℕ} 0x80 null
in_use = omega arith

store_balanced : (f : ℕ) → f ≢ null → refs_of store f ≡ slots_of table f + 0
store_balanced f nz = elim (Bool-cases (0x80 == f)) [
  | inl same ↦ rw same (omega (arith, slots_of-free 251 f, refs_of-some store f the_file (rw same)))
  | inr apart ↦ rw apart (omega (arith, slots_of-free 251 f, refs_of-none store f (rw apart)))
]

table-Accounted : Accounted (λ f. 0) table store
table-Accounted = record {
  size = refl;
  no_null = (
    λ u. absurd (cc),
    (λ u. absurd (cc), (λ u. absurd (cc), (λ u. in_use, (λ u. in_use, NoNull-free 251)))),
  );
  balanced = store_balanced;
  positive = λ f file h. elim (Bool-cases (0x80 == f)) [
    | inl same ↦
        let e : ◌≡◌ {A = Option File} (some the_file) (some file) = rw same at h in
        let e' : the_file ≡ file = cc in subst (λ (x : File). 0 < x.refcount) e' (omega arith)
    | inr apart ↦ let e : ◌≡◌ {A = Option File} none (some file) = rw apart at h in absurd (cc)
  ];
}

store-AllReady : AllReady store
store-AllReady f file h = elim (Bool-cases (0x80 == f)) [
  | inl same ↦
      let e : ◌≡◌ {A = Option File} (some the_file) (some file) = rw same at h in
      let e' : the_file ≡ file = cc in
      inr (1, subst (λ (x : File). store.vnodes x.vn ≡ some 1) e' refl)
  | inr apart ↦ let e : ◌≡◌ {A = Option File} none (some file) = rw apart at h in absurd (cc)
]

three_open : fd_get table (pos 3) ≢ null
unfolding fd_get
three_open = omega arith

fd_alloc-outcome_example :
    (t' : Table) × (s' : Store) × (fd_alloc table 0x80 store ≡ ok (find_free table, t', s'))
    × AllocOutcome (λ f. 0) table 0x80 store (find_free table) t' s'
fd_alloc-outcome_example =
    fd_alloc-outcome (λ f. 0) table store table-Accounted 0x80 the_file in_use refl

fd_close-closes_example :
    (t' : Table) × (s' : Store) × (i : ℕ) × (fd_close table (pos 4) store ≡ ok (success, t', s'))
    × (◌≡◌ {A = ℤ} (pos 4) (pos i))
    × (slot_of t' (pos 4) ≡ none)
    × OnlySlot i table t'
    × Accounted (λ f. 0) t' s'
    × Dropped 0x80 store s'
    × ((s'.files 0x80 ≡ none) ↔ (refs_of store 0x80 ≡ 1))
    × (t' ≡ set table i free_slot)
fd_close-closes_example =
    fd_close-closes (λ f. 0) table store table-Accounted (pos 4) (holding 0x80) store-AllReady refl

fd_dup2-Opened_example :
    (t' : Table) × (s' : Store) × (fd_dup2 table (pos 3) (pos 200) store ≡ ok (pos 200, t', s'))
    × Opened (λ f. 0) table 200 (fd_get table (pos 3)) t' s'
fd_dup2-Opened_example =
    fd_dup2-Opened (λ f. 0) table store table-Accounted store-AllReady (pos 3) 200 three_open
      (omega arith)

-- the second close of a file opened once finds the slot free
closes_once :
    (table_init (some []) ≡ some (replicate 256 free_slot))
    × (fd_count table ≡ 2)
    × (fd_close (replicate 256 free_slot) (pos 5) store
        ≡ ok (negsuc 59, replicate 256 free_slot, store))
unfolding table_init fd_count fd_close
closes_once = (refl, refl, refl)

generic_transfer-TransferSound_example :
    let t = generic_transfer true 8 (some (λ off len. (Errno.success, 5))) the_file in
    TransferSound 8 the_file t.0 t.1 t.2
generic_transfer-TransferSound_example =
    generic_transfer-TransferSound true 8 (some (λ off len. (Errno.success, 5))) the_file
