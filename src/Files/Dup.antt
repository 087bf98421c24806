-- ===== src/Files/Dup.antt =====
-- `fd_close`, `fd_dup` and `fd_dup2` on a table with its accounts.
use cf_os.Base.{
  ℕ, zero, suc, ◌+◌, ◌<◌, ◌≡◌, ◌≢◌, ◌↔◌, refl, ap, sym, subst, ◌∙◌, true, false, some, none, [],
  ◌∷◌, arith, ◌==◌, set, get_elem?, ok, ne→==, ==_refl, ==_iff, not, ◌||◌, Bool-cases, Option-cases,
  inl, inr, get_elem?-set_self, get_elem?-lt, get_elem?_total,
}
use cf_os.Base.Int.{ℤ, pos, ltb_ℤ, eqb_ℤ, pos_part}
use cf_os.Files.{
  File, Store, Slot, Table, null, fd_max, free_slot, holding, slot_of, success, err_bad_fd,
  find_free, take_slot, fd_get, fd_close, fd_alloc_at, fd_dup, fd_dup2,
}
use cf_os.Files.Refs.{
  refs_of, refs_of-none, refs_of-some, VnodeReady, Dropped, file_ref-Added, file_unref-Dropped,
}
use cf_os.Files.Table.{
  Accounted, Accounted-take, Accounted-release, NoNull-at, slot_of-some, slot_of-used, slots_of,
  holds,
}
use cf_os.Files.Alloc.{
  OnlySlot, set-OnlySlot, fd_get_of_slot, fd_get_of_none, fd_get-set, slot_of-unused, Opened,
  AllocOutcome, fd_alloc-outcome,
}

-- The vnode of every live file can be released.
abbrev pub AllReady : Store → Type 0
AllReady s = (f : ℕ) (file : File) → s.files f ≡ some file → VnodeReady s file

slots_of-pos :
    (t : Table) (i : ℕ) (e : Slot) → get_elem? t i ≡ some e → e.used ≡ true → 0 < slots_of t e.file
slots_of-pos [] i e h u = absurd (ground arith)
slots_of-pos (x ∷ t) zero e h u =
    let same : x ≡ e = cc in
    let one : holds e e.file ≡ 1 = simp (u, ==_refl e.file) in
    let one' : holds x e.file ≡ 1 = subst (λ k. holds k e.file ≡ 1) (sym same) one in omega arith
slots_of-pos (x ∷ t) (suc i) e h u = omega (arith, slots_of-pos t i e h u)

module _ (elsewhere : ℕ → ℕ) (t : Table) (s : Store) (acc : Accounted elsewhere t s) where
  -- A slot in use holds a live file.
  live_at_slot :
      (i : ℕ) (e : Slot)
      → get_elem? t i ≡ some e
      → e.used ≡ true
      → (e.file ≢ null) × ((file : File) × (s.files e.file ≡ some file))
  live_at_slot i e at used =
      let nn = NoNull-at t i e acc.no_null at used in
      elim (Option-cases (s.files e.file)) [
        | inl freed ↦ absurd (
            omega (
              arith,
              slots_of-pos t i e at used,
              acc.balanced e.file nn,
              refs_of-none s e.file freed,
            ))
        | inr (file, here) ↦ (nn, (file, here))
      ]

  -- What the file of a descriptor in use is.
  pub live_of_fd :
      (fd : ℤ)
      → fd_get t fd ≢ null
      → (i : ℕ) × (e : Slot) × (file : File) × (fd ≡ pos i)
        × (slot_of t fd ≡ some e)
        × (fd_get t fd ≡ e.file)
        × (s.files e.file ≡ some file)
  live_of_fd fd opened = elim (Option-cases (slot_of t fd)) [
    | inl closed ↦ absurd (opened (fd_get_of_none t fd closed))
    | inr (e, h) ↦
        let (i, is, lt, at, used) = slot_of-some t fd e h in
        let (nn, (file, here)) = live_at_slot i e at used in
        (i, e, file, is, h, fd_get_of_slot t fd e h, here)
  ]

  -- In a table and store whose reference counts are the number of descriptors and other holders, and
  -- where a live file has a live vnode or none, closing a descriptor in use succeeds, frees its slot
  -- and no other, keeps the counts exact, and frees the file exactly if that was its only reference.
  pub fd_close-closes :
      (fd : ℤ) (e : Slot)
      → AllReady s
      → slot_of t fd ≡ some e
      → (t' : Table) × (s' : Store) × (i : ℕ) × (fd_close t fd s ≡ ok (success, t', s'))
        × (fd ≡ pos i)
        × (slot_of t' fd ≡ none)
        × OnlySlot i t t'
        × Accounted elsewhere t' s'
        × Dropped e.file s s'
        × ((s'.files e.file ≡ none) ↔ (refs_of s e.file ≡ 1))
        × (t' ≡ set t i free_slot)
  unfolding fd_close
  fd_close-closes fd e ready h =
      let (i, is, lt, at, used) = slot_of-some t fd e h in
      let (nn, (file, here)) = live_at_slot i e at used in
      let (s', done, dropped, freed) =
        file_unref-Dropped s e.file file nn here acc.positive (ready e.file file here) in
      let part : pos_part fd ≡ i = ap pos_part is in
      let r = refs_of-some s e.file file here in
      (
        set t i free_slot,
        s',
        i,
        rw (h, fd_close, done, part),
        is,
        rw is (
            slot_of-unused (set t i free_slot) i free_slot
              (get_elem?-set_self t i free_slot (get_elem?-lt t i at)) refl),
        set-OnlySlot t i free_slot,
        Accounted-release elsewhere t s s' i e acc at used dropped,
        dropped,
        (λ x. r ∙ freed.0 x, λ x. freed.1 (sym r ∙ x)),
        refl,
      )

  -- `fd_close` of anything else reports a bad descriptor and changes nothing.
  pub fd_close-bad : (fd : ℤ) → slot_of t fd ≡ none → fd_close t fd s ≡ ok (err_bad_fd, t, s)
  unfolding fd_close
  fd_close-bad fd h = rw (h, fd_close)

  -- With exact reference counts, `fd_dup` of an open descriptor opens its file once more at the
  -- lowest free descriptor from 3 on, or, where there is none, reports too many files and changes
  -- nothing.
  pub fd_dup-outcome :
      (fd : ℤ)
      → fd_get t fd ≢ null
      → (t' : Table) × (s' : Store) × (fd_dup t fd s ≡ ok (find_free t, t', s'))
        × AllocOutcome elsewhere t (fd_get t fd) s (find_free t) t' s'
  unfolding fd_dup
  fd_dup-outcome fd opened =
      let (i, e, file, is, h, got, here) = live_of_fd fd opened in
      let here' : s.files (fd_get t fd) ≡ some file = rw got here in
      let (t', s', done, out) =
        fd_alloc-outcome elsewhere t s acc (fd_get t fd) file opened here' in
      (t', s', rw (ne→== (fd_get t fd) null opened) done, out)

take_slot-Opened :
    (elsewhere : ℕ → ℕ) (t : Table) (s : Store) (acc : Accounted elsewhere t s) (j f : ℕ)
    (file : File) (e : Slot)
    → f ≢ null
    → s.files f ≡ some file
    → get_elem? t j ≡ some e
    → e.used ≡ false
    → (t' : Table) × (s' : Store) × (take_slot t (pos j) f s ≡ ok (pos j, t', s'))
      × Opened elsewhere t j f t' s'
take_slot-Opened elsewhere t s acc j f file e live at slot unused =
    let (s', done, added) = file_ref-Added s f file live at acc.positive in
    (
      set t j (holding f),
      s',
      rw done,
      record {
        gets = fd_get-set t j f (get_elem?-lt t j slot) acc.size;
        only = set-OnlySlot t j (holding f);
        accounts = Accounted-take elsewhere t s s' j e acc slot f live unused added;
      },
    )

OnlySlot-trans : (i : ℕ) (t u v : Table) → OnlySlot i t u → OnlySlot i u v → OnlySlot i t v
OnlySlot-trans i t u v a b = record { others = λ j ne. b.others j ne ∙ a.others j ne }

OnlySlot-refl : (i : ℕ) (t : Table) → OnlySlot i t t
OnlySlot-refl i t = record { others = λ j ne. refl }

module _ (elsewhere : ℕ → ℕ) (t : Table) (s : Store) (acc : Accounted elsewhere t s)
    (ready : AllReady s) where
  alloc_at_free :
      (j f : ℕ) (file : File) (e : Slot)
      → j < fd_max
      → f ≢ null
      → s.files f ≡ some file
      → get_elem? t j ≡ some e
      → e.used ≡ false
      → (t' : Table) × (s' : Store) × (fd_alloc_at t (pos j) f s ≡ ok (pos j, t', s'))
        × Opened elsewhere t j f t' s'
  unfolding fd_alloc_at
  alloc_at_free j f file e inside live at slot unused =
      let (t', s', done, opened) =
        take_slot-Opened elsewhere t s acc j f file e live at slot unused in
      let in_range : (f == null || (ltb_ℤ (pos j) (pos 0) || not (ltb_ℤ (pos j) (pos fd_max))))
          ≡ false =
        ground arith in
      (t', s', rw (in_range, fd_alloc_at, slot_of-unused t j e slot unused) done, opened)

  alloc_at_used :
      (j f : ℕ) (file : File) (e : Slot)
      → j < fd_max
      → f ≢ null
      → s.files f ≡ some file
      → get_elem? t j ≡ some e
      → e.used ≡ true
      → (t' : Table) × (s' : Store) × (fd_alloc_at t (pos j) f s ≡ ok (pos j, t', s'))
        × Opened elsewhere t j f t' s'
  unfolding fd_alloc_at
  alloc_at_used j f file e inside live at slot used =
      let in_range : (f == null || (ltb_ℤ (pos j) (pos 0) || not (ltb_ℤ (pos j) (pos fd_max))))
          ≡ false =
        ground arith in
      let here = slot_of-used t j e inside slot used in
      elim (Bool-cases (e.file == f)) [
        | inl same ↦
            let fg : e.file ≡ f = ground arith in
            (
              t,
              s,
              rw (in_range, fd_alloc_at, here, same),
              record {
                gets = fd_get_of_slot t (pos j) e here ∙ fg;
                only = OnlySlot-refl j t;
                accounts = acc;
              },
            )
        | inr apart ↦
            let (t1, s1, i, done, is, gone, only, acc1, d, freed, set_is) =
              fd_close-closes elsewhere t s acc (pos j) e ready here in
            let ij : i ≡ j = sym (ap pos_part is) in
            let slot1 : get_elem? t1 j ≡ some free_slot =
              rw (set_is, ij) (get_elem?-set_self t j free_slot (get_elem?-lt t j slot)) in
            let at1 : s1.files f ≡ some file = d.others f (ground arith) ∙ at in
            let (t', s', taken, opened) =
              take_slot-Opened elsewhere t1 s1 acc1 j f file free_slot live at1 slot1 refl in
            let only' : OnlySlot j t t1 = subst (λ x. OnlySlot x t t1) ij only in
            (
              t',
              s',
              rw (in_range, fd_alloc_at, here, apart, done) taken,
              record {
                gets = opened.gets;
                only = OnlySlot-trans j t t1 t' only' opened.only;
                accounts = opened.accounts;
              },
            )
      ]

  -- With exact reference counts, live vnodes or none behind live files, an open old descriptor and a
  -- new one below 256, `fd_dup2` returns the new descriptor, which then leads to the old one's file,
  -- leaves the other slots alone and keeps the counts exact, whatever the new descriptor held.
  pub fd_dup2-Opened :
      (oldfd : ℤ) (j : ℕ)
      → fd_get t oldfd ≢ null
      → j < fd_max
      → (t' : Table) × (s' : Store) × (fd_dup2 t oldfd (pos j) s ≡ ok (pos j, t', s'))
        × Opened elsewhere t j (fd_get t oldfd) t' s'
  unfolding fd_dup2
  fd_dup2-Opened oldfd j opened inside =
      let (i, e, file, is, h, got, here) = live_of_fd elsewhere t s acc oldfd opened in
      let here' : s.files (fd_get t oldfd) ≡ some file = rw got here in
      let in_range : (ltb_ℤ (pos j) (pos 0) || not (ltb_ℤ (pos j) (pos fd_max))) ≡ false =
        ground arith in
      let not_null = ne→== (fd_get t oldfd) null opened in
      let (x, slot) = get_elem?_total t j (omega (arith, acc.size)) in
      elim (Bool-cases (eqb_ℤ oldfd (pos j))) [
        | inl same ↦
            let ij : i + 0 ≡ j + 0 =
              (==_iff (i + 0) (j + 0)).0 (subst (λ fd. eqb_ℤ fd (pos j) ≡ true) is same) in
            let fd_is : oldfd ≡ pos j = is ∙ ap pos (omega arith) in
            (
              t,
              s,
              rw (in_range, not_null, same),
              record { gets = ap (fd_get t) (sym fd_is); only = OnlySlot-refl j t; accounts = acc },
            )
        | inr apart ↦ elim (Bool-cases x.used) [
          | inl used ↦
              let (t', s', done, o) =
                alloc_at_used j (fd_get t oldfd) file x inside opened here' slot used in
              (t', s', rw (in_range, not_null, apart) done, o)
          | inr unused ↦
              let (t', s', done, o) =
                alloc_at_free j (fd_get t oldfd) file x inside opened here' slot unused in
              (t', s', rw (in_range, not_null, apart) done, o)
        ]
      ]
