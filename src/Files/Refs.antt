-- ===== src/Files/Refs.antt =====
-- Reference counts of files: taking and dropping one reference.
use cf_os.Base.{
  ℕ, ◌+◌, ◌-◌, ◌<◌, ◌≡◌, ◌≢◌, ◌⊎◌, ◌↔◌, refl, ap, sym, ◌∙◌, true, false, Option, some, none, arith,
  ltb, leb, ◌==◌, ok, ne→==, ==_refl, Bool-cases, inl, inr,
}
use cf_os.Files.{File, Store, null, update, set_refs, vnode_unref, file_ref, vfs_close, file_unref}

-- the references that a file counts, none once it is freed
abbrev pub refs_of : Store → ℕ → ℕ
refs_of s f = elim (s.files f) [ none ↦ 0 | some file ↦ file.refcount ]

-- A live file has a reference.
abbrev pub Positive : Store → Type 0
Positive s = (f : ℕ) (file : File) → s.files f ≡ some file → 0 < file.refcount

-- The vnode of a file is there to be released.
abbrev pub VnodeReady : Store → File → Type 0
VnodeReady s file = (file.vn ≡ null) ⊎ ((n : ℕ) × (s.vnodes file.vn ≡ some n))

pub record Added (f : ℕ) (s s' : Store) : Type 0 where
  pub others : (g : ℕ) → f ≢ g → s'.files g ≡ s.files g
  pub count : refs_of s' f ≡ refs_of s f + 1
  pub positive : Positive s'
  pub vnodes_kept : s'.vnodes ≡ s.vnodes

pub record Dropped (f : ℕ) (s s' : Store) : Type 0 where
  pub others : (g : ℕ) → f ≢ g → s'.files g ≡ s.files g
  pub count : refs_of s' f + 1 ≡ refs_of s f
  pub positive : Positive s'

pub refs_of-some :
    (s : Store) (f : ℕ) (file : File) → s.files f ≡ some file → refs_of s f ≡ file.refcount
refs_of-some s f file e = rw (e, refs_of)

pub refs_of-none : (s : Store) (f : ℕ) → s.files f ≡ none → refs_of s f ≡ 0
refs_of-none s f e = rw (e, refs_of)

module _ (s : Store) (f : ℕ) (file : File) (live : f ≢ null) (at : s.files f ≡ some file)
    (positive : Positive s) where
  set_refs-others : (n g : ℕ) → f ≢ g → (set_refs f file n s).files g ≡ s.files g
  set_refs-others n g ne = rw (ne→== f g ne)

  set_refs-count : (n : ℕ) → refs_of (set_refs f file n s) f ≡ n
  set_refs-count n =
      refs_of-some (set_refs f file n s) f (record file { refcount = n }) (rw (==_refl f))

  set_refs-Positive : (n : ℕ) → 0 < n → Positive (set_refs f file n s)
  set_refs-Positive n h g other e = elim (Bool-cases (f == g)) [
    | inl same ↦
        let e' : ◌≡◌ {A = Option File} (some (record file { refcount = n })) (some other) =
          rw same at e in
        let r : n ≡ other.refcount = ground arith in omega arith
    | inr apart ↦ positive g other (rw apart at e)
  ]

  refs_at : refs_of s f ≡ file.refcount
  refs_at = refs_of-some s f file at

  pub file_ref-Added : (s' : Store) × (file_ref f s ≡ ok s') × Added f s s'
  unfolding file_ref
  file_ref-Added = (
    set_refs f file (file.refcount + 1) s,
    rw (ne→== f null live, at, file_ref),
    record {
      others = set_refs-others (file.refcount + 1);
      count = omega (arith, set_refs-count (file.refcount + 1), refs_at);
      positive = set_refs-Positive (file.refcount + 1) (omega arith);
      vnodes_kept = refl;
    },
  )

  vnode_unref_total :
      VnodeReady s file → (s' : Store) × (vnode_unref file.vn s ≡ ok s') × (s'.files ≡ s.files)
  unfolding vnode_unref
  vnode_unref_total (inl nul) =
      let e : (file.vn == null) ≡ true = ground arith in (s, rw (e, vnode_unref), refl)
  vnode_unref_total (inr (n, there)) = elim (Bool-cases (file.vn == null)) [
    | inl nul ↦ (s, rw (nul, vnode_unref), refl)
    | inr has ↦ elim (Bool-cases (n == 0)) [
      | inl zero_count ↦ (s, rw (has, there, vnode_unref, zero_count), refl)
      | inr some_count ↦ elim (Bool-cases (n == 1)) [
        | inl last ↦ (
          record s { vnodes = update s.vnodes file.vn none },
          rw (has, there, vnode_unref, some_count, last),
          refl,
        )
        | inr more ↦ (
          record s { vnodes = update s.vnodes file.vn (some (n - 1)) },
          rw (has, there, vnode_unref, some_count, more),
          refl,
        )
      ]
    ]
  ]

  freed-Positive :
      (s' : Store) → s'.files ≡ s.files → Positive (record s' { files = update s'.files f none })
  freed-Positive s' same g other e = elim (Bool-cases (f == g)) [
    | inl here ↦ let e' : ◌≡◌ {A = Option File} none (some other) = rw here at e in absurd (cc)
    | inr apart ↦
        let e' : s'.files g ≡ some other = rw apart at e in
        positive g other (sym (ap (λ h. h g) same) ∙ e')
  ]

  -- The last reference frees the file, any other is taken off its count.
  pub file_unref-Dropped :
      VnodeReady s file
      → (s' : Store) × (file_unref f s ≡ ok s')
        × Dropped f s s'
        × ((s'.files f ≡ none) ↔ (file.refcount ≡ 1))
  unfolding file_unref vfs_close
  file_unref-Dropped ready = elim (Bool-cases (leb file.refcount 1)) [
    | inl last ↦
        let (s1, e, same) = vnode_unref_total ready in
        let p = positive f file at in
        let one : file.refcount ≡ 1 = ground arith in
        let not_more : ltb 1 file.refcount ≡ false = ground arith in
        (
          record s1 { files = update s1.files f none },
          rw (ne→== f null live, at, file_unref, last, at, not_more, ne→== f null live, e),
          record {
            others = λ g ne. rw (ne→== f g ne) (ap (λ h. h g) same);
            count = omega (
              arith,
              refs_at,
              refs_of-none (record s1 { files = update s1.files f none }) f (rw (==_refl f)),
            );
            positive = freed-Positive s1 same;
          },
          (λ h. one, λ h. rw (==_refl f)),
        )
    | inr more ↦
        let p = positive f file at in
        (
          set_refs f file (file.refcount - 1) s,
          rw (ne→== f null live, at, file_unref, more),
          record {
            others = set_refs-others (file.refcount - 1);
            count = ground (arith, set_refs-count (file.refcount - 1), refs_at);
            positive = set_refs-Positive (file.refcount - 1) (ground arith);
          },
          (
            λ h.
                let h' : ◌≡◌ {A = Option File} (some (record file { refcount = file.refcount - 1 }))
                    none =
                  rw (==_refl f) at h in
                absurd (cc),
            λ h. absurd (ground arith),
          ),
        )
  ]
