-- ===== src/Line/Editing.antt =====
-- What a read of the line discipline answers and leaves.
use cf_os.Base.{
  ℕ, ◌≤◌, ◌<◌, ◌≡◌, refl, sym, subst, ◌∙◌, Bool, true, false, List, [], ◌∷◌, ◌++◌, arith, leb,
  length, ok, ne→==, ◌||◌, Bool-cases, inl, inr,
}
use cf_os.Base.Int.{ℤ, pos, negsuc}
use cf_os.Line.{Line, KeyEvent, no_index, reset, take_line, wait_line, read}
use cf_os.Line.Arrays.{Holds-clear, take-Holds}
use cf_os.Line.Spec.{Editor}
use cf_os.Line.View.{Shows}

-- what a read leaves: no text, no line, and the history as it was
abbrev pub fresh : Editor → Editor
fresh e = record e { text = []; index = no_index; ready = false; eof = false }

reset-Shows : (l : Line) (e : Editor) → Shows l e → Shows (reset l) (fresh e)
unfolding reset
reset-Shows l e s = record {
  buffer = Holds-clear l.buffer e.text s.buffer;
  len = refl;
  slots = s.slots;
  sized = s.sized;
  past = s.past;
  count = s.count;
  bounded = s.bounded;
  draft = s.draft;
  index = refl;
  index_ok = refl;
  ready = refl;
  eof = refl;
  effects = s.effects;
}

-- what a read that finds a line or the end of file answers
pub data Taken (capacity : ℕ) (l : Line) (e : Editor) : ℤ × List ℕ × Line → Type 0 where
  ended : (l' : Line) → e.eof ≡ true → Shows l' (fresh e) → Taken capacity l e (pos 0, [], l')
  too_long : e.eof ≡ false → capacity ≤ length e.text → Taken capacity l e (negsuc 0, [], l)
  taken :
      (l' : Line)
      → e.eof ≡ false
      → length e.text < capacity
      → Shows l' (fresh e)
      → Taken capacity l e (pos (length e.text), e.text ++ 0 ∷ [], l')

leb→le : (a b : ℕ) → leb a b ≡ true → a ≤ b
leb→le a b h = ground arith

leb-false→lt : (a b : ℕ) → leb a b ≡ false → b < a
leb-false→lt a b h = ground arith

take_line-Taken :
    (capacity : ℕ) (l : Line) (e : Editor) → Shows l e → Taken capacity l e (take_line capacity l)
unfolding take_line
take_line-Taken capacity l e s = elim (Bool-cases l.eof) [
  | inl t ↦ simp t (ended (reset l) (sym s.eof ∙ t) (reset-Shows l e s))
  | inr f ↦ elim (Bool-cases (leb capacity l.len)) [
    | inl small ↦
        rw (f, small) (too_long (sym s.eof ∙ f) (omega (arith, leb→le capacity l.len small, s.len)))
    | inr fits ↦
        let room : length e.text < capacity =
          omega (arith, leb-false→lt capacity l.len fits, s.len) in
        let fits' : leb capacity (length e.text) ≡ false =
          subst (λ n. leb capacity n ≡ false) s.len fits in
        let result = take-Holds l.buffer e.text s.buffer in
        simp (f, s.len, fits', result) (taken (reset l) (sym s.eof ∙ f) room (reset-Shows l e s))
  ]
]

read-there :
    (rows capacity : ℕ) (wait : Bool) (arrivals : List (List KeyEvent)) (l : Line)
    → 0 < capacity
    → (l.ready || l.eof) ≡ true
    → read rows true capacity wait arrivals l ≡ ok (take_line capacity l)
unfolding read wait_line
read-there rows capacity wait [] l room flags = rw (ne→== capacity 0 (omega arith), flags)
read-there rows capacity wait (evs ∷ later) l room flags =
    rw (ne→== capacity 0 (omega arith), flags)

-- A read with a buffer and a capacity, of a state that shows an editor with a line or the end of
-- file: it returns at once, whatever arrives. At the end of file it answers 0 and forgets it; where
-- the text does not fit the capacity it answers -1 and leaves the state as it is, so that the same
-- read fails again; else it answers the length, the bytes are the text and a NUL, and the line is
-- consumed while the history stays.
pub read-Taken :
    (rows capacity : ℕ) (wait : Bool) (arrivals : List (List KeyEvent)) (l : Line) (e : Editor)
    → Shows l e
    → 0 < capacity
    → (e.ready || e.eof) ≡ true
    → (r : ℤ × List ℕ × Line) × ((read rows true capacity wait arrivals l ≡ ok r)
        × Taken capacity l e r)
read-Taken rows capacity wait arrivals l e s room there =
    let flags : (l.ready || l.eof) ≡ true = rw (s.ready, s.eof) there in
    (
      take_line capacity l,
      (read-there rows capacity wait arrivals l room flags, take_line-Taken capacity l e s),
    )
