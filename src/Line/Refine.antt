-- ===== src/Line/Refine.antt =====
-- Key events, the history's keys among them, against the editor over texts.
use cf_os.Base.{
  ℕ, zero, suc, ◌+◌, ◌<◌, ◌≡◌, refl, ap, sym, subst, ◌∙◌, true, false, some, List, [], ◌∷◌, arith,
  ◌==◌, length, get_or, not, ◌||◌,
}
use cf_os.Base.Int.{ℤ, pos, negsuc, ltb_ℤ, pos_part}
use cf_os.Line.{
  Line, Key, KeyEvent, memcpy, int_pred, replace, history_up, history_down, history_move,
  handle_key, handle_keyevent, is_press, up, down, page_up, page_down, f12, other,
}
use cf_os.Line.Arrays.{Holds, Holds-memcpy}
use cf_os.Line.Spec.{Editor, show, older, newer, on_key, on_event}
use cf_os.Line.View.{Shows, IndexOk, AllHold-at}
use cf_os.Line.History.{if_both}
use cf_os.Line.Edits.{index-Shows, draft-Shows, emit-Shows, clear_index, replace-Shows}
use cf_os.Line.Keys.{Answers, handle_char-Answers}

recall-Shows :
    (l : Line) (e : Editor) (i i' : ℤ) (k : ℕ)
    → Shows l e
    → i ≡ i'
    → i' ≡ pos k
    → k < length e.past
    → Shows
        (replace (get_or l.history (pos_part i) []) (record l { history_index = i }))
        (show (get_or e.past (pos_part i') []) (record e { index = i' }))
recall-Shows l e i i' k s same at inside =
    let inside' : IndexOk i' (length e.past) =
      subst (λ j. IndexOk j (length e.past)) (sym at) inside in
    let held : Holds (get_or l.history (pos_part i) []) (get_or e.past (pos_part i') []) =
      subst (λ j. Holds (get_or l.history (pos_part j) []) (get_or e.past (pos_part i') []))
        (sym same)
        (subst (λ j. Holds (get_or l.history (pos_part j) []) (get_or e.past (pos_part j) []))
          (sym at) (AllHold-at l.history e.past k s.past inside)) in
    replace-Shows _ _ _ _ (index-Shows l e i i' s same inside') held

newest : (n : ℕ) → (n == 0) ≡ false → (k : ℕ) × (int_pred n ≡ pos k) × (k < n)
newest zero h = absurd (ground arith)
newest (suc n) h = (n, refl, omega arith)

before :
    (i : ℤ) (n : ℕ)
    → IndexOk i n
    → ltb_ℤ (pos 0) i ≡ true
    → (k : ℕ) × (int_pred (pos_part i) ≡ pos k) × (k < n)
before (pos zero) n h lt = absurd (ground arith)
before (pos (suc a)) n h lt = (a, refl, omega arith)
before (negsuc a) n h lt = absurd (ground arith)

after : (i : ℤ) (n : ℕ) → ltb_ℤ i (pos 0) ≡ false → ltb_ℤ i (int_pred n) ≡ true → pos_part i + 1 < n
after (pos a) zero h lt = absurd (ground arith)
after (pos a) (suc n) h lt = ground arith
after (negsuc a) n h lt = absurd (ground arith)

older-Shows :
    (l : Line) (e : Editor)
    → Shows l e
    → (length e.past == 0) ≡ false
    → Shows (history_up l) (older e)
unfolding history_up older
older-Shows l e s some_past =
    if_both Shows _ (ltb_ℤ e.index (pos 0)) (ap (λ i. ltb_ℤ i (pos 0)) s.index)
      (λ typing.
        let (k, at, inside) = newest (length e.past) some_past in
        let saved : Holds (memcpy l.draft l.buffer (l.len + 1)) e.text =
          subst (λ n. Holds (memcpy l.draft l.buffer (n + 1)) e.text) (sym s.len)
            (Holds-memcpy l.draft l.buffer e.text s.draft.size s.buffer) in
        recall-Shows _ _ (int_pred l.history_count) (int_pred (length e.past)) k
          (draft-Shows l e _ e.text s saved) (ap int_pred s.count) at inside)
      (λ browsing.
        if_both Shows _ (ltb_ℤ (pos 0) e.index) (ap (λ i. ltb_ℤ (pos 0) i) s.index)
          (λ later.
            let (k, at, inside) = before e.index (length e.past) s.index_ok later in
            recall-Shows l e (int_pred (pos_part l.history_index)) (int_pred (pos_part e.index)) k s
              (ap (λ i. int_pred (pos_part i)) s.index) at inside)
          (λ oldest. s))

newer-Shows : (l : Line) (e : Editor) → Shows l e → Shows (history_down l) (newer e)
unfolding history_down newer
newer-Shows l e s =
    if_both Shows _ (ltb_ℤ e.index (pos 0)) (ap (λ i. ltb_ℤ i (pos 0)) s.index) (λ typing. s)
      (λ browsing.
        if_both Shows _ (ltb_ℤ e.index (int_pred (length e.past)))
          (ap (λ i. ltb_ℤ i (int_pred l.history_count)) s.index
            ∙ ap (λ n. ltb_ℤ e.index (int_pred n)) s.count)
          (λ earlier.
            recall-Shows l e (pos (pos_part l.history_index + 1)) (pos (pos_part e.index + 1))
              (pos_part e.index + 1) s (ap (λ i. pos (pos_part i + 1)) s.index) refl
              (after e.index (length e.past) browsing earlier))
          (λ last. replace-Shows _ _ l.draft e.draft (clear_index l e s) s.draft))

handle_key-Answers :
    (rows : ℕ) (key : Key) (ch : ℕ) (l : Line) (e : Editor)
    → Shows l e
    → Answers (handle_key rows key ch l) (on_key rows key ch e)
unfolding handle_key on_key history_move
handle_key-Answers rows up ch l e s = (
  refl,
  if_both Shows _ (length e.past == 0) (ap (λ n. n == 0) s.count) (λ empty. s)
      (λ some_past. older-Shows l e s some_past),
)
handle_key-Answers rows down ch l e s = (
  refl,
  if_both Shows _ (length e.past == 0) (ap (λ n. n == 0) s.count) (λ empty. s)
      (λ some_past. newer-Shows l e s),
)
handle_key-Answers rows page_up ch l e s = (refl, emit-Shows l e _ s)
handle_key-Answers rows page_down ch l e s = (refl, emit-Shows l e _ s)
handle_key-Answers rows f12 ch l e s = (refl, s)
handle_key-Answers rows other ch l e s = handle_char-Answers ch l e s

handle_keyevent-Answers :
    (rows : ℕ) (ev : KeyEvent) (l : Line) (e : Editor)
    → Shows l e
    → Answers (handle_keyevent rows (some ev) l) (on_event rows ev e)
unfolding handle_keyevent on_event
handle_keyevent-Answers rows ev l e s =
    if_both Answers _ (not (is_press ev.type)) refl (λ released. (refl, s))
      (λ pressed.
        if_both Answers _ (e.ready || e.eof)
          (ap (λ r. r || l.eof) s.ready ∙ ap (λ f. e.ready || f) s.eof) (λ waiting. (refl, s))
          (λ editing. handle_key-Answers rows ev.keycode ev.ascii l e s))

-- the answers to a sequence of events, with the state at the end
unfoldable pub answers : ℕ → List KeyEvent → Line → List ℕ × Line
answers rows [] l = ([], l)
answers rows (ev ∷ evs) l =
    let (r, l') = handle_keyevent rows (some ev) l in
    let (rs, l'') = answers rows evs l' in (r ∷ rs, l'')

unfoldable pub answers_spec : ℕ → List KeyEvent → Editor → List ℕ × Editor
answers_spec rows [] e = ([], e)
answers_spec rows (ev ∷ evs) e =
    let (r, e') = on_event rows ev e in let (rs, e'') = answers_spec rows evs e' in (r ∷ rs, e'')

-- From a state whose arrays show an editor over texts, any sequence of key events returns what the
-- editor returns, and the arrays then show the editor's text, history of at most eight lines, draft
-- and flags, with the same calls of terminal, signals and scheduler.
pub answers_refine :
    (rows : ℕ) (evs : List KeyEvent) (l : Line) (e : Editor)
    → Shows l e
    → ((answers rows evs l).0 ≡ (answers_spec rows evs e).0)
      × Shows (answers rows evs l).1 (answers_spec rows evs e).1
unfolding answers answers_spec
answers_refine rows [] l e s = (refl, s)
answers_refine rows (ev ∷ evs) l e s =
    let (same, s') = handle_keyevent-Answers rows ev l e s in
    let (rest, s'') = answers_refine rows evs _ _ s' in (rw (same, rest), s'')
