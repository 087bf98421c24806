-- ===== src/Files/Alloc.antt =====
-- `fd_alloc` and `fd_close`: the descriptor that they give or take, and the accounts after them.
use cf_os.Base.{
  ℕ, suc, ◌+◌, ◌-◌, ◌≤◌, ◌<◌, ◌≡◌, ◌≢◌, ◌⊎◌, refl, ap, sym, ◌∙◌, true, false, Option, some, none,
  arith, length, set, get_elem?, ok, if◌then◌else◌, le→ltb, ne→==, not, ◌||◌, Bool-cases, inl, inr,
  get_elem?-set_self, get_elem?-set_ne, get_elem?-lt,
}
use cf_os.Base.Int.{ℤ, pos, ltb_ℤ}
use cf_os.Files.{
  File, Store, Slot, Table, null, fd_max, holding, drop3, slot_of, err_too_many, find_free,
  fd_alloc, fd_get,
}
use cf_os.Files.Refs.{file_ref-Added}
use cf_os.Files.Table.{
  Accounted, Accounted-take, slot_of-used, Found, find_free_from-Found, get_elem?-drop3,
}

-- Descriptor `i` is written and every other one leads where it led.
pub record OnlySlot (i : ℕ) (t t' : Table) : Type 0 where
  pub others : (j : ℕ) → i ≢ j → slot_of t' (pos j) ≡ slot_of t (pos j)

slot_cong :
    (t t' : Table) (j : ℕ) → get_elem? t' j ≡ get_elem? t j → slot_of t' (pos j) ≡ slot_of t (pos j)
slot_cong t t' j e = ap (look_slot j) e
  where
    look_slot : ℕ → Option Slot → Option Slot
    look_slot j o =
        if ltb_ℤ (pos j) (pos 0) || not (ltb_ℤ (pos j) (pos fd_max))
        then none
        else (elim o [ none ↦ none | some e ↦ if e.used then some e else none ])

pub set-OnlySlot : (t : Table) (i : ℕ) (v : Slot) → OnlySlot i t (set t i v)
set-OnlySlot t i v = record {
  others = λ j ne. slot_cong t (set t i v) j (get_elem?-set_ne t i j v ne);
}

pub fd_get_of_slot : (t : Table) (fd : ℤ) (e : Slot) → slot_of t fd ≡ some e → fd_get t fd ≡ e.file
unfolding fd_get
fd_get_of_slot t fd e h = rw (h, fd_get)

pub fd_get_of_none : (t : Table) (fd : ℤ) → slot_of t fd ≡ none → fd_get t fd ≡ null
unfolding fd_get
fd_get_of_none t fd h = rw (h, fd_get)

pub slot_of-unused :
    (t : Table) (i : ℕ) (e : Slot)
    → get_elem? t i ≡ some e
    → e.used ≡ false
    → slot_of t (pos i) ≡ none
slot_of-unused t i e at u =
    elim (Bool-cases (ltb_ℤ (pos i) (pos 0) || not (ltb_ℤ (pos i) (pos fd_max)))) [
      | inl out ↦ rw out
      | inr inside ↦ rw (inside, at, u)
    ]

-- `fd_get` of a descriptor just taken
pub fd_get-set :
    (t : Table) (i f : ℕ)
    → i < length t
    → length t ≡ fd_max
    → fd_get (set t i (holding f)) (pos i) ≡ f
fd_get-set t i f h size = fd_get_of_slot (set t i (holding f)) (pos i) (holding f) (
    slot_of-used (set t i (holding f)) i (holding f) (omega arith)
      (get_elem?-set_self t i (holding f) h) refl)

-- What a successful open of `f` at descriptor `i` leaves.
pub record Opened (elsewhere : ℕ → ℕ) (t : Table) (i f : ℕ) (t' : Table) (s' : Store) : Type 0 where
  pub gets : fd_get t' (pos i) ≡ f
  pub only : OnlySlot i t t'
  pub accounts : Accounted elsewhere t' s'

-- All descriptors from 3 on are in use.
abbrev pub AllTaken : Table → Type 0
AllTaken t = (j : ℕ) (x : Slot) → 3 ≤ j → get_elem? t j ≡ some x → x.used ≡ true

-- Descriptor `i` was free, and it is the lowest such from 3 on.
abbrev pub LowestFree : Table → ℕ → Type 0
LowestFree t i =
    (3 ≤ i)
    × (slot_of t (pos i) ≡ none)
    × ((j : ℕ) (x : Slot) → 3 ≤ j → j < i → get_elem? t j ≡ some x → x.used ≡ true)

abbrev pub AllocOutcome : (ℕ → ℕ) → Table → ℕ → Store → ℤ → Table → Store → Type 0
AllocOutcome elsewhere t f s r t' s' =
    ((i : ℕ) × (r ≡ pos i) × LowestFree t i × Opened elsewhere t i f t' s')
    ⊎ ((r ≡ err_too_many) × AllTaken t × (t' ≡ t) × (s' ≡ s))

module _ (elsewhere : ℕ → ℕ) (t : Table) (s : Store) (acc : Accounted elsewhere t s) where
  alloc-Found :
      (f : ℕ) (file : File) (r : ℤ)
      → f ≢ null
      → s.files f ≡ some file
      → find_free t ≡ r
      → Found (drop3 t) 3 r
      → (t' : Table) × (s' : Store) × (fd_alloc t f s ≡ ok (r, t', s'))
        × AllocOutcome elsewhere t f s r t' s'
  unfolding fd_alloc
  alloc-Found f file r live at found (inr (full, all)) = (
    t,
    s,
    rw (ne→== f null live, found, full),
    inr (
      full,
      λ j x l h.
          let e : suc (suc (suc (j - 3))) ≡ j = omega arith in
          all (j - 3) x (get_elem?-drop3 t (j - 3) ∙ ap (get_elem? t) e ∙ h),
      refl,
      refl,
    ),
  )
  alloc-Found f file r live at found (inl (k, e, is, slot, unused, below)) =
      let i = suc (suc (suc k)) in
      let is' : r ≡ pos i = is ∙ ap pos (omega arith) in
      let slot' : get_elem? t i ≡ some e = sym (get_elem?-drop3 t k) ∙ slot in
      let (s', done, added) = file_ref-Added s f file live at acc.positive in
      let inside = get_elem?-lt t i slot' in
      let not_neg : ltb_ℤ (pos i) (pos 0) ≡ false = le→ltb (i + 0) (0 + 0) (omega arith) in
      (
        set t i (holding f),
        s',
        rw (ne→== f null live, found, is', not_neg, done),
        inl (
          i,
          is',
          (
            omega arith,
            slot_of-unused t i e slot' unused,
            λ j x l m h.
                let je : suc (suc (suc (j - 3))) ≡ j = omega arith in
                below (j - 3) x (omega arith) (get_elem?-drop3 t (j - 3) ∙ ap (get_elem? t) je ∙ h),
          ),
          record {
            gets = fd_get-set t i f inside acc.size;
            only = set-OnlySlot t i (holding f);
            accounts = Accounted-take elsewhere t s s' i e acc slot' f live unused added;
          },
        ),
      )

  -- With exact reference counts, `fd_alloc` of a live file opens it at the lowest free descriptor
  -- from 3 on and takes one reference, or, where there is none, returns ERR_TOO_MANY_OPEN_FILES,
  -- which is -61, and changes nothing.
  pub fd_alloc-outcome :
      (f : ℕ) (file : File)
      → f ≢ null
      → s.files f ≡ some file
      → (t' : Table) × (s' : Store) × (fd_alloc t f s ≡ ok (find_free t, t', s'))
        × AllocOutcome elsewhere t f s (find_free t) t' s'
  unfolding find_free
  fd_alloc-outcome f file live at =
      alloc-Found f file (find_free t) live at refl (find_free_from-Found (drop3 t) 3)
