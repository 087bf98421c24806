-- ===== src/Line/Session.antt =====
-- Whole sessions at the line discipline: a line typed and read, and a look into the history and back.
use cf_os.Base.{
  ℕ, zero, suc, ◌+◌, ◌≤◌, ◌<◌, ◌≡◌, ◌≢◌, refl, ap, sym, subst, ◌∙◌, Bool, true, false, List, [],
  ◌∷◌, ◌++◌, arith, ◌==◌, length, length-append, ok, lt→ltb, le→ltb, ne→==, ◌||◌, append-nil,
  append_assoc,
}
use cf_os.Base.Int.{ℤ, pos, ltb_ℤ}
use cf_os.Line.{Line, KeyEvent, no_index, int_pred, deliver, up, down, other, putc}
use cf_os.Line.Spec.{
  Editor, also, remember, show, older, newer, submit, type_char, on_char, on_key, on_event,
}
use cf_os.Line.View.{Shows}
use cf_os.Line.{read, press}
use cf_os.Line.Refine.{answers, answers_spec, answers_refine}
use cf_os.Line.Editing.{Taken, ended, too_long, taken, fresh, read-Taken}

abbrev pub type_key : ℕ → KeyEvent
type_key c = record { type = press; keycode = other; ascii = c }

-- the presses that type a text and Enter
pub typing : List ℕ → List KeyEvent
typing [] = type_key 10 ∷ []
typing (c ∷ cs) = type_key c ∷ typing cs

abbrev pub Printable : List ℕ → Type 0
Printable [] = Unit {0}
Printable (c ∷ cs) = (32 ≤ c) × (c ≢ 0x7f) × Printable cs

type_one :
    (rows c : ℕ) (e : Editor)
    → 32 ≤ c
    → c ≢ 0x7f
    → (e.ready || e.eof) ≡ false
    → length e.text < 255
    → (on_event rows (type_key c) e).1
      ≡ also (putc c ∷ []) (record e { index = no_index; text = e.text ++ c ∷ [] })
unfolding on_event on_key on_char type_char
type_one rows c e low del flags room = rw (
  flags,
  ne→== c 0x03 (omega arith),
  ne→== c 0x1a (omega arith),
  ne→== c 0x04 (omega arith),
  ne→== c 10 (omega arith),
  ne→== c 13 (omega arith),
  ne→== c 8 (omega arith),
  ne→== c 0x7f del,
  le→ltb c 32 low,
  lt→ltb (length e.text) 255 room,
)

-- a line `t` was submitted in `e`
record Submitted (t : List ℕ) (e e' : Editor) : Type 0 where
  text : e'.text ≡ t
  past : e'.past ≡ remember t e.past
  ready : e'.ready ≡ true
  eof : e'.eof ≡ e.eof

type_all :
    (rows : ℕ) (cs : List ℕ) (e : Editor)
    → Printable cs
    → (e.ready || e.eof) ≡ false
    → length e.text + length cs ≤ 255
    → Submitted (e.text ++ cs) e (answers_spec rows (typing cs) e).1
unfolding answers_spec typing on_event on_key on_char submit
type_all rows [] e p flags room =
    let t : e.text ++ [] ≡ e.text = append-nil e.text in
    rw (flags, t) (record { text = refl; past = refl; ready = refl; eof = refl })
type_all rows (c ∷ cs) e p flags room =
    let one = type_one rows c e p.0 p.1 flags (omega arith) in
    let e1 = also (putc c ∷ []) (record e { index = no_index; text = e.text ++ c ∷ [] }) in
    let rest = type_all rows cs e1 p.2 flags (omega (arith, length-append e.text (c ∷ []))) in
    let t : (e.text ++ c ∷ []) ++ cs ≡ e.text ++ c ∷ cs = append_assoc e.text (c ∷ []) cs in
    subst (λ x. Submitted (e.text ++ c ∷ cs) e (answers_spec rows (typing cs) x).1) (sym one)
      (subst (λ x. Submitted x e (answers_spec rows (typing cs) e1).1) t
        (record { text = rest.text; past = rest.past; ready = rest.ready; eof = rest.eof }))

deliver-answers :
    (rows : ℕ) (evs : List KeyEvent) (l : Line) → deliver rows evs l ≡ (answers rows evs l).1
unfolding deliver answers
deliver-answers rows [] l = refl
deliver-answers rows (ev ∷ evs) l = deliver-answers rows evs _

fitting :
    (capacity : ℕ) (l : Line) (e : Editor) (r : ℤ × List ℕ × Line)
    → Taken capacity l e r
    → e.eof ≡ false
    → length e.text < capacity
    → (l' : Line) × (r ≡ (pos (length e.text), e.text ++ 0 ∷ [], l')) × Shows l' (fresh e)
fitting capacity l e r (ended l' at_end s) open_ room = absurd (ground arith)
fitting capacity l e r (too_long open_' small) open_ room = absurd (omega arith)
fitting capacity l e r (taken l' open_' fits s) open_ room = (l', refl, s)

-- From a state that shows an editor with no text that waits for input: after at most 255 printable
-- characters and Enter were typed, a read with a capacity above their number returns that number at
-- once, the bytes are the characters and a NUL, and the editor is left empty with the line in the
-- history.
pub read-typing :
    (rows capacity : ℕ) (wait : Bool) (arrivals : List (List KeyEvent)) (cs : List ℕ) (l : Line)
    (e : Editor)
    → Shows l e
    → e.text ≡ []
    → (e.ready || e.eof) ≡ false
    → e.eof ≡ false
    → Printable cs
    → length cs ≤ 255
    → length cs < capacity
    → (l' : Line) × (e' : Editor) × (read rows true capacity wait arrivals
          (deliver rows (typing cs) l)
        ≡ ok (pos (length cs), cs ++ 0 ∷ [], l'))
      × Shows l' e'
      × (e'.text ≡ [])
      × (e'.past ≡ remember cs e.past)
read-typing rows capacity wait arrivals cs l e s empty flags open_ p short room =
    let evs = typing cs in
    let e1 = (answers_spec rows evs e).1 in
    let shown : Shows (deliver rows evs l) e1 =
      subst (λ x. Shows x e1) (sym (deliver-answers rows evs l))
        (answers_refine rows evs l e s).1 in
    let sub : Submitted cs e e1 =
      subst (λ t. Submitted (t ++ cs) e e1) empty
        (type_all rows cs e p flags (omega (arith, ap (λ (x : List ℕ). length x) empty))) in
    let size : length e1.text ≡ length cs = ap (λ (x : List ℕ). length x) sub.text in
    let there : (e1.ready || e1.eof) ≡ true = ap (λ r. r || e1.eof) sub.ready in
    let (r, (runs, result)) =
      read-Taken rows capacity wait arrivals (deliver rows evs l) e1 shown (omega arith) there in
    let (l', same, s') =
      fitting capacity (deliver rows evs l) e1 r result (sub.eof ∙ open_) (omega arith) in
    let answer : r ≡ (pos (length cs), cs ++ 0 ∷ [], l') =
      same ∙ ap (λ t. (pos (length t), t ++ 0 ∷ [], l')) sub.text in
    (l', fresh e1, runs ∙ ap ok answer, s', refl, sub.past)

-- the newest line of the history is the last
newest_last : (n : ℕ) → (n == 0) ≡ false → ltb_ℤ (int_pred n) (pos 0) ≡ false
newest_last zero h = absurd (ground arith)
newest_last (suc n) h = ground arith

last_twice : (n : ℕ) → ltb_ℤ (int_pred n) (int_pred n) ≡ false
last_twice zero = refl
last_twice (suc n) = ground arith

up_down_spec :
    (rows ch ch' : ℕ) (e : Editor)
    → (e.ready || e.eof) ≡ false
    → e.index ≡ no_index
    → (length e.past == 0) ≡ false
    → let e' =
        (answers_spec rows
          (record { type = press; keycode = up; ascii = ch }
            ∷ record { type = press; keycode = down; ascii = ch' }
            ∷ [])
          e).1 in
      (e'.text ≡ e.text) × (e'.past ≡ e.past) × (e'.index ≡ no_index)
unfolding answers_spec on_event on_key older newer show
up_down_spec rows ch ch' e flags at some_past =
    let before_any : ltb_ℤ e.index (pos 0) ≡ true = ap (λ i. ltb_ℤ i (pos 0)) at in
    rw
      (
        flags,
        some_past,
        before_any,
        flags,
        some_past,
        newest_last (length e.past) some_past,
        last_twice (length e.past),
      )
      (refl, refl, refl)

-- From a state that shows an editor that waits for input, is not in the history and has lines there,
-- Up and then Down bring back the text that was being typed, and the history is as before.
pub up-down :
    (rows ch ch' : ℕ) (l : Line) (e : Editor)
    → Shows l e
    → (e.ready || e.eof) ≡ false
    → e.index ≡ no_index
    → 0 < length e.past
    → (e' : Editor) × Shows
        (deliver rows
          (record { type = press; keycode = up; ascii = ch }
            ∷ record { type = press; keycode = down; ascii = ch' }
            ∷ [])
          l)
        e'
      × (e'.text ≡ e.text)
      × (e'.past ≡ e.past)
      × (e'.index ≡ no_index)
up-down rows ch ch' l e s flags at some_past =
    let evs : List KeyEvent =
      record { type = press; keycode = up; ascii = ch }
      ∷ record { type = press; keycode = down; ascii = ch' }
      ∷ [] in
    let e1 = (answers_spec rows evs e).1 in
    let shown : Shows (deliver rows evs l) e1 =
      subst (λ x. Shows x e1) (sym (deliver-answers rows evs l))
        (answers_refine rows evs l e s).1 in
    let (t, p, i) = up_down_spec rows ch ch' e flags at (ne→== (length e.past) 0 (omega arith)) in
    (e1, shown, t, p, i)
