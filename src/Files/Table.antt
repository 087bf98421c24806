-- ===== src/Files/Table.antt =====
-- A descriptor table and the files behind it: each file counts the slots that hold it and the
-- references from elsewhere.
use cf_os.Base.{
  ℕ, zero, suc, ◌+◌, ◌<◌, ◌≡◌, ◌≢◌, ◌⊎◌, refl, ap, sym, subst, ◌∙◌, true, false, some, [], ◌∷◌,
  arith, ltb, ◌==◌, length, set, length-set, get_elem?, if◌then◌else◌, lt→ltb, le→ltb, ◌&&◌,
  Bool-cases, Option-cases, inl, inr,
}
use cf_os.Base.Int.{ℤ, pos, negsuc}
use cf_os.Files.{
  Store, Slot, Table, null, fd_max, free_slot, holding, drop3, slot_of, err_too_many,
  find_free_from,
}
use cf_os.Files.Refs.{refs_of, Positive, Added, Dropped}

abbrev pub holds : Slot → ℕ → ℕ
holds e f = if e.used && (e.file == f) then 1 else 0

-- how many slots in use hold the file
abbrev pub slots_of : Table → ℕ → ℕ
slots_of [] f = 0
slots_of (e ∷ t) f = holds e f + slots_of t f

-- no slot in use holds NULL
abbrev pub NoNull : Table → Type 0
NoNull [] = Unit {0}
NoNull (e ∷ t) = (e.used ≡ true → e.file ≢ null) × NoNull t

-- `elsewhere` says how many references to a file other code keeps.
pub record Accounted (elsewhere : ℕ → ℕ) (t : Table) (s : Store) : Type 0 where
  pub size : length t ≡ fd_max
  pub no_null : NoNull t
  pub balanced : (f : ℕ) → f ≢ null → refs_of s f ≡ slots_of t f + elsewhere f
  pub positive : Positive s

pub slots_of-set :
    (t : Table) (i f : ℕ) (e new : Slot)
    → get_elem? t i ≡ some e
    → slots_of (set t i new) f + holds e f ≡ slots_of t f + holds new f
slots_of-set [] i f e new h = absurd (ground arith)
slots_of-set (x ∷ t) zero f e new h =
    let same : x ≡ e = ground arith in
    let same' : holds x f ≡ holds e f = ap (λ k. holds k f) same in omega arith
slots_of-set (x ∷ t) (suc i) f e new h = omega (arith, slots_of-set t i f e new h)

NoNull-set :
    (t : Table) (i : ℕ) (new : Slot)
    → NoNull t
    → (new.used ≡ true → new.file ≢ null)
    → NoNull (set t i new)
NoNull-set [] i new n h = tt
NoNull-set (x ∷ t) zero new n h = (h, n.1)
NoNull-set (x ∷ t) (suc i) new n h = (n.0, NoNull-set t i new n.1 h)

pub NoNull-at :
    (t : Table) (i : ℕ) (e : Slot)
    → NoNull t
    → get_elem? t i ≡ some e
    → e.used ≡ true
    → e.file ≢ null
NoNull-at [] i e n h u = absurd (ground arith)
NoNull-at (x ∷ t) zero e n h u =
    let same : x ≡ e = ground arith in subst (λ k. k.used ≡ true → k.file ≢ null) same n.0 u
NoNull-at (x ∷ t) (suc i) e n h u = NoNull-at t i e n.1 h u

-- A descriptor in use: its number, its place and what stands there.
pub slot_of-some :
    (t : Table) (fd : ℤ) (e : Slot)
    → slot_of t fd ≡ some e
    → (i : ℕ) × (fd ≡ pos i) × (i < fd_max) × (get_elem? t i ≡ some e) × (e.used ≡ true)
slot_of-some t (pos i) e h = elim (Bool-cases (ltb i fd_max)) [
  | inr out ↦ absurd (ground arith)
  | inl inside ↦ elim (Option-cases (get_elem? t i)) [
    | inl missing ↦ absurd (ground arith)
    | inr (k, at) ↦ elim (Bool-cases k.used) [
      | inl used ↦
          let same : k ≡ e = ground arith in
          (i, refl, ground arith, at ∙ ap some same, sym (ap (λ x. x.used) same) ∙ used)
      | inr unused ↦ absurd (ground arith)
    ]
  ]
]
slot_of-some t (negsuc n) e h = absurd (ground arith)

pub slot_of-used :
    (t : Table) (i : ℕ) (e : Slot)
    → i < fd_max
    → get_elem? t i ≡ some e
    → e.used ≡ true
    → slot_of t (pos i) ≡ some e
slot_of-used t i e h at u =
    let inside : ltb (i + 0) (fd_max + 0) ≡ true = lt→ltb (i + 0) (fd_max + 0) (omega arith) in
    let low : ltb (i + 0) 0 ≡ false = le→ltb (i + 0) 0 (omega arith) in ground arith

refs_of_same : (s s' : Store) (g : ℕ) → s'.files g ≡ s.files g → refs_of s' g ≡ refs_of s g
refs_of_same s s' g e = rw (e, refs_of)

module _ (elsewhere : ℕ → ℕ) (t : Table) (s s' : Store) (i : ℕ) (e : Slot)
    (acc : Accounted elsewhere t s) (at : get_elem? t i ≡ some e) where
  -- A free slot takes a file that has one more reference.
  pub Accounted-take :
      (f : ℕ)
      → f ≢ null
      → e.used ≡ false
      → Added f s s'
      → Accounted elsewhere (set t i (holding f)) s'
  Accounted-take f live unused a = record {
    size = length-set t i (holding f) ∙ acc.size;
    no_null = NoNull-set t i (holding f) acc.no_null (λ u. live);
    balanced = λ g nz.
        let c = slots_of-set t i g e (holding f) at in
        let b = acc.balanced g nz in
        let z : holds e g ≡ 0 = rw unused in
        elim (Bool-cases (f == g)) [
          | inl same ↦
              let fg : f ≡ g = ground arith in
              let one : holds (holding f) g ≡ 1 = rw same in
              let up : refs_of s' g ≡ refs_of s g + 1 =
                subst (λ x. refs_of s' x ≡ refs_of s x + 1) fg a.count in
              omega arith
          | inr apart ↦
              let none_more : holds (holding f) g ≡ 0 = rw apart in
              let kept = refs_of_same s s' g (a.others g (ground arith)) in omega arith
        ];
    positive = a.positive;
  }

  -- A slot in use gives its file up, which loses a reference.
  pub Accounted-release :
      e.used ≡ true → Dropped e.file s s' → Accounted elsewhere (set t i free_slot) s'
  Accounted-release used d = record {
    size = length-set t i free_slot ∙ acc.size;
    no_null = NoNull-set t i free_slot acc.no_null (λ u. absurd (cc));
    balanced = λ g nz.
        let c = slots_of-set t i g e free_slot at in
        let b = acc.balanced g nz in
        let z : holds free_slot g ≡ 0 = refl in
        elim (Bool-cases (e.file == g)) [
          | inl same ↦
              let fg : e.file ≡ g = ground arith in
              let one : holds e g ≡ 1 = simp (used, same) in
              let down : refs_of s' g + 1 ≡ refs_of s g =
                subst (λ x. refs_of s' x + 1 ≡ refs_of s x) fg d.count in
              omega arith
          | inr apart ↦
              let none_less : holds e g ≡ 0 = simp (used, apart) in
              let kept = refs_of_same s s' g (d.others g (ground arith)) in omega arith
        ];
    positive = d.positive;
  }

-- Where the search for a free slot ends.
abbrev pub Found : Table → ℕ → ℤ → Type 0
Found t i r =
    ((k : ℕ) × (e : Slot) × (r ≡ pos (i + k))
      × (get_elem? t k ≡ some e)
      × (e.used ≡ false)
      × ((j : ℕ) (x : Slot) → j < k → get_elem? t j ≡ some x → x.used ≡ true))
    ⊎ ((r ≡ err_too_many) × ((j : ℕ) (x : Slot) → get_elem? t j ≡ some x → x.used ≡ true))

first_used : (e x : Slot) (t : Table) → e.used ≡ true → get_elem? (e ∷ t) 0 ≡ some x → x.used ≡ true
first_used e x t used h = let same : e ≡ x = cc in sym (ap (λ y. y.used) same) ∙ used

below_cons :
    (e : Slot) (t : Table) (k : ℕ)
    → e.used ≡ true
    → ((j : ℕ) (x : Slot) → j < k → get_elem? t j ≡ some x → x.used ≡ true)
    → (j : ℕ) (x : Slot) → j < suc k
    → get_elem? (e ∷ t) j ≡ some x
    → x.used ≡ true
below_cons e t k used b zero x l h = first_used e x t used h
below_cons e t k used b (suc j) x l h = b j x (omega arith) h

all_cons :
    (e : Slot) (t : Table)
    → e.used ≡ true
    → ((j : ℕ) (x : Slot) → get_elem? t j ≡ some x → x.used ≡ true)
    → (j : ℕ) (x : Slot) → get_elem? (e ∷ t) j ≡ some x
    → x.used ≡ true
all_cons e t used a zero x h = first_used e x t used h
all_cons e t used a (suc j) x h = a j x h

pub find_free_from-Found : (t : Table) (i : ℕ) → Found t i (find_free_from t i)
unfolding find_free_from
find_free_from-Found [] i = inr (refl, λ j x h. absurd (ground arith))
find_free_from-Found (e ∷ t) i = elim (Bool-cases e.used) [
  | inr unused ↦
      simp unused (inl (0, e, ap pos (omega arith), refl, unused, λ j x l h. absurd (omega arith)))
  | inl used ↦ simp used (elim (find_free_from-Found t (i + 1)) [
    | inl (k, x, r, at, unused, below) ↦
        inl (suc k, x, r ∙ ap pos (omega arith), at, unused, below_cons e t k used below)
    | inr (r, all) ↦ inr (r, all_cons e t used all)
  ])
]

pub get_elem?-drop3 : (t : Table) (k : ℕ) → get_elem? (drop3 t) k ≡ get_elem? t (suc (suc (suc k)))
get_elem?-drop3 [] k = refl
get_elem?-drop3 (a ∷ []) k = refl
get_elem?-drop3 (a ∷ b ∷ []) k = refl
get_elem?-drop3 (a ∷ b ∷ c ∷ t) k = refl
