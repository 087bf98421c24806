-- ===== src/Line/History.antt =====
-- The history of the line discipline: what the shift and the append of `line_store_history` keep.
use cf_os.Base.{
  ℕ, ◌+◌, ◌-◌, ◌≤◌, ◌<◌, ◌≡◌, refl, ap, sym, subst, ◌∙◌, Bool, true, false, List, [], ◌∷◌, ◌++◌,
  arith, ◌==◌, length, set, drop, length-append, length-set, get_or, if◌then◌else◌, not, ◌&&◌,
  Bool-cases, inl, inr,
}
use cf_os.Base.Int.{ℤ, pos, negsuc}
use cf_os.Line.{
  Line, buffer_size, history_size, memcpy, shift_loop, same_bytes, strcmp_eq, make_room,
  append_history, store_history,
}
use cf_os.Line.Arrays.{Holds, Holds-memcpy, c_string-Holds}
use cf_os.Line.Spec.{Editor, remember}
use cf_os.Line.View.{
  Shows, AllHold, AllSized, AllHold-at, AllSized-at, AllSized-set, AllHold-snoc, IndexOk, shifted,
  shift_loop-shifted, AllHold-shifted, AllSized-shifted, length-shifted,
}

-- the history's arrays hold the remembered texts
pub record Kept (h : List (List ℕ)) (c : ℕ) (ts : List (List ℕ)) : Type 0 where
  pub slots : length h ≡ history_size
  pub sized : AllSized h
  pub texts : AllHold h ts
  pub count : c ≡ length ts
  pub bounded : length ts ≤ history_size

pub Shows-Kept : (l : Line) (e : Editor) → Shows l e → Kept l.history l.history_count e.past
Shows-Kept l e s = record {
  slots = s.slots;
  sized = s.sized;
  texts = s.past;
  count = s.count;
  bounded = s.bounded;
}

IndexOk-grow : (i : ℤ) (m n : ℕ) → m ≤ n → IndexOk i m → IndexOk i n
IndexOk-grow (pos i) m n h ok_i = omega arith
IndexOk-grow (negsuc k) m n h ok_i = ok_i

pub past-Shows :
    (l : Line) (e : Editor) (h past : List (List ℕ)) (c : ℕ)
    → Shows l e
    → Kept h c past
    → length e.past ≤ length past
    → Shows (record l { history = h; history_count = c }) (record e { past = past })
past-Shows l e h past c s k grow = record {
  buffer = s.buffer;
  len = s.len;
  slots = k.slots;
  sized = k.sized;
  past = k.texts;
  count = k.count;
  bounded = k.bounded;
  draft = s.draft;
  index = s.index;
  index_ok = IndexOk-grow e.index (length e.past) (length past) grow s.index_ok;
  ready = s.ready;
  eof = s.eof;
  effects = s.effects;
}

shift_loop-all :
    (h : List (List ℕ)) → length h ≡ history_size → shift_loop (history_size - 1) 1 h ≡ shifted h
shift_loop-all [] e = absurd (omega arith)
shift_loop-all (a ∷ r) e =
    let n : length r ≡ history_size - 1 = omega arith in
    subst (λ n. shift_loop n 1 (a ∷ r) ≡ shifted (a ∷ r)) n (shift_loop-shifted r [] a)

-- the shift forgets the oldest of eight
shifted-Kept :
    (h past : List (List ℕ)) (c : ℕ)
    → Kept h c past
    → length past ≡ history_size
    → Kept (shift_loop (history_size - 1) 1 h) (c - 1) (drop 1 past)
shifted-Kept h [] c k full = absurd (omega arith)
shifted-Kept [] (t ∷ ts) c k full = absurd (k.texts)
shifted-Kept (a ∷ h) (t ∷ ts) c k full =
    subst (λ arrs. Kept arrs (c - 1) ts) (sym (shift_loop-all (a ∷ h) k.slots))
      (record {
        slots = length-shifted (a ∷ h) ∙ k.slots;
        sized = AllSized-shifted (a ∷ h) k.sized;
        texts = AllHold-shifted h ts a t k.texts;
        count = omega (arith, k.count);
        bounded = omega (arith, k.bounded);
      })

append-Kept :
    (h past : List (List ℕ)) (c : ℕ) (buffer text : List ℕ) (len : ℕ)
    → Kept h c past
    → length past < history_size
    → Holds buffer text
    → len ≡ length text
    → Kept (set h c (memcpy (get_or h c []) buffer (len + 1))) (c + 1) (past ++ text ∷ [])
append-Kept h past c buffer text len k room held same =
    let size : length (get_or h c []) ≡ buffer_size =
      AllSized-at h c k.sized (omega (arith, k.slots, k.count)) in
    let v = memcpy (get_or h c []) buffer (len + 1) in
    let held' : Holds v text =
      subst (λ n. Holds (memcpy (get_or h c []) buffer (n + 1)) text) (sym same)
        (Holds-memcpy (get_or h c []) buffer text size held) in
    record {
      slots = length-set h c v ∙ k.slots;
      sized = AllSized-set h c v k.sized held'.size;
      texts =
          subst (λ n. AllHold (set h n v) (past ++ text ∷ [])) (sym k.count)
            (AllHold-snoc h past v text k.texts (omega (arith, k.slots)) held');
      count = omega (arith, k.count, length-append past (text ∷ []));
      bounded = omega (arith, length-append past (text ∷ []));
    }

-- Two conditionals on the same answer are related as their branches are.
pub if_both {ℓ m n} :
    {A : Type ℓ} {B : Type m} (P : A → B → Type n) (b c : Bool) {x x' : A} {y y' : B}
    → b ≡ c
    → (c ≡ true → P x y)
    → (c ≡ false → P x' y')
    → P (if b then x else x') (if c then y else y')
if_both P b true e one two = rw e (one refl)
if_both P b false e one two = rw e (two refl)

-- the test of `line_store_history` for a repeated line
repeats :
    (l : Line) (e : Editor)
    → Shows l e
    → (not (l.history_count == 0) && strcmp_eq (get_or l.history (l.history_count - 1) []) l.buffer)
      ≡ (not (length e.past == 0) && same_bytes (get_or e.past (length e.past - 1) []) e.text)
repeats l e s = elim (Bool-cases (length e.past == 0)) [
  | inl t ↦ let t' : (l.history_count == 0) ≡ true = ap (λ n. n == 0) s.count ∙ t in rw (t, t')
  | inr f ↦
      let f' : (l.history_count == 0) ≡ false = ap (λ n. n == 0) s.count ∙ f in
      let last : Holds (get_or l.history (l.history_count - 1) [])
          (get_or e.past (length e.past - 1) []) =
        subst (λ n. Holds (get_or l.history (n - 1) []) (get_or e.past (length e.past - 1) []))
          (sym s.count) (AllHold-at l.history e.past (length e.past - 1) s.past (ground arith)) in
      rw (
        f,
        f',
        c_string-Holds (get_or l.history (l.history_count - 1) [])
            (get_or e.past (length e.past - 1) []) last,
        c_string-Holds l.buffer e.text s.buffer,
      )
]

length-drop_one : (ts : List (List ℕ)) → length (drop 1 ts) ≡ length ts - 1
length-drop_one [] = refl
length-drop_one (t ∷ ts) = omega arith

-- where a line is kept, the shift has made room for it
appended-Shows :
    (l : Line) (e : Editor)
    → Shows l e
    → Shows (append_history (make_room l)) (record e {
      past = (if length e.past == history_size then drop 1 e.past else e.past) ++ e.text ∷ [];
    })
unfolding make_room append_history
appended-Shows l e s = elim (Bool-cases (length e.past == history_size)) [
  | inl t ↦
      let t' : (l.history_count == history_size) ≡ true = ap (λ n. n == history_size) s.count ∙ t in
      let full : length e.past ≡ history_size = ground arith in
      let past = drop 1 e.past in
      let kept = shifted-Kept l.history e.past l.history_count (Shows-Kept l e s) full in
      let room : length past < history_size = omega (arith, length-drop_one e.past) in
      let k =
        append-Kept (shift_loop (history_size - 1) 1 l.history) past (l.history_count - 1) l.buffer
          e.text l.len kept room s.buffer s.len in
      let grow : length e.past ≤ length (past ++ e.text ∷ []) =
        omega (arith, length-append past (e.text ∷ []), length-drop_one e.past) in
      rw (t, t') (past-Shows l e _ _ _ s k grow)
  | inr f ↦
      let f' : (l.history_count == history_size) ≡ false =
        ap (λ n. n == history_size) s.count ∙ f in
      let room : length e.past < history_size = ground (arith, s.bounded) in
      let k =
        append-Kept l.history e.past l.history_count l.buffer e.text l.len (Shows-Kept l e s) room
          s.buffer s.len in
      let grow : length e.past ≤ length (e.past ++ e.text ∷ []) =
        omega (arith, length-append e.past (e.text ∷ [])) in
      rw (f, f') (past-Shows l e _ _ _ s k grow)
]

pub store_history-Shows :
    (l : Line) (e : Editor)
    → Shows l e
    → Shows (store_history l) (record e { past = remember e.text e.past })
unfolding store_history remember
store_history-Shows l e s = elim (Bool-cases (length e.text == 0)) [
  | inl t ↦ let t' : (l.len == 0) ≡ true = ap (λ n. n == 0) s.len ∙ t in rw (t, t') s
  | inr f ↦
      let f' : (l.len == 0) ≡ false = ap (λ n. n == 0) s.len ∙ f in
      let past' =
        (if length e.past == history_size then drop 1 e.past else e.past) ++ e.text ∷ [] in
      rw (f', f)
        (if_both (λ l' p. Shows l' (record e { past = p })) _ _ {x = l}
          {x' = append_history (make_room l)} {y = e.past} {y' = past'} (repeats l e s) (λ _. s)
          (λ _. appended-Shows l e s))
]
