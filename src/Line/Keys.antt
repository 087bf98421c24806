-- ===== src/Line/Keys.antt =====
-- The key handler of the line discipline against the editor over texts.
use cf_os.Base.{
  ℕ, zero, suc, ◌+◌, ◌-◌, ◌≡◌, ◌≢◌, refl, ap, sym, subst, true, false, List, [], ◌∷◌, ◌++◌, arith,
  ltb, ◌==◌, length, set, take, length-append, if◌then◌else◌, ◌||◌, ltb→lt,
}
use cf_os.Line.{
  Line, buffer_size, no_index, terminate, interrupt, suspend, end_of_file, enter, backspace, insert,
  handle_char, store_history, yielded, putc, signal, sigint,
}
use cf_os.Line.Arrays.{Holds, Holds-clear, Holds-terminate, Holds-snoc, Holds-unsnoc}
use cf_os.Line.Spec.{Editor, also, submit, type_char, erase, on_char}
use cf_os.Line.View.{Shows}
use cf_os.Line.History.{if_both, store_history-Shows}
use cf_os.Line.Edits.{text-Shows, flags-Shows, emit-Shows, clear_index}

-- the same answer, and a state that shows the editor
abbrev pub Answers : ℕ × Line → ℕ × Editor → Type 0
Answers x y = (x.0 ≡ y.0) × Shows x.1 y.1

submit-Shows :
    (l : Line) (e : Editor)
    → Shows l e
    → Shows (record (store_history (terminate l)) { ready = true }) (submit e)
unfolding submit
submit-Shows l e s =
    let ended : Holds (set l.buffer l.len 0) e.text =
      subst (λ n. Holds (set l.buffer n 0) e.text) (sym s.len)
        (Holds-terminate l.buffer e.text s.buffer) in
    let kept = store_history-Shows _ _ (text-Shows l e _ e.text l.len s ended s.len) in
    flags-Shows _ _ _ _ _ _ kept refl (kept.eof)

insert-Shows :
    (ch : ℕ) (l : Line) (e : Editor) → ch ≢ 0 → Shows l e → Shows (insert ch l) (type_char ch e)
unfolding insert type_char
insert-Shows ch l e nz s =
    if_both Shows (ltb l.len (buffer_size - 1)) (ltb (length e.text) 255)
      (ap (λ n. ltb n 255) s.len)
      (λ room.
        let held : Holds (set (set l.buffer l.len ch) (l.len + 1) 0) (e.text ++ ch ∷ []) =
          subst (λ n. Holds (set (set l.buffer n ch) (n + 1) 0) (e.text ++ ch ∷ [])) (sym s.len)
            (Holds-snoc l.buffer e.text ch s.buffer nz (ltb→lt (length e.text) 255 room)) in
        emit-Shows _ _ (putc ch ∷ []) (
          text-Shows _ _ _ _ (l.len + 1) (clear_index l e s) held
            (omega (arith, s.len, length-append e.text (ch ∷ [])))))
      (λ full. s)

-- a list that is not empty ends in an element
unsnoc :
    (t : List ℕ) (n : ℕ)
    → length t ≡ suc n
    → (c : ℕ) × (t ≡ take n t ++ c ∷ []) × (length (take n t) ≡ n)
unsnoc [] n h = absurd (omega arith)
unsnoc (c ∷ []) zero h = (c, refl, refl)
unsnoc (c ∷ d ∷ t) zero h = absurd (omega arith)
unsnoc (c ∷ []) (suc n) h = absurd (omega arith)
unsnoc (c ∷ d ∷ t) (suc n) h =
    let (last, form, size) = unsnoc (d ∷ t) n (omega arith) in
    (last, ap (λ x. c ∷ x) form, omega (arith, size))

backspace-Shows : (l : Line) (e : Editor) → Shows l e → Shows (backspace l) (erase e)
unfolding backspace erase
backspace-Shows l e s =
    if_both Shows (l.len == 0) (length e.text == 0) (ap (λ n. n == 0) s.len) (λ none_left. s)
      (λ some_left.
        let n = length e.text - 1 in
        let (c, form, size) = unsnoc e.text n (ground arith) in
        let same : l.len - 1 ≡ length (take n e.text) = omega (arith, s.len, size) in
        let held : Holds (set l.buffer (l.len - 1) 0) (take n e.text) =
          subst (λ k. Holds (set l.buffer k 0) (take n e.text)) (sym same)
            (Holds-unsnoc l.buffer (take n e.text) c
              (subst (λ t. Holds l.buffer t) form s.buffer)) in
        emit-Shows _ _ (putc 8 ∷ putc 32 ∷ putc 8 ∷ [])
          (text-Shows _ _ _ _ (l.len - 1) (clear_index l e s) held same))

interrupt-Shows :
    (l : Line) (e : Editor)
    → Shows l e
    → Shows (interrupt l) (
        also
          (putc b'^' ∷ putc b'C' ∷ putc 10 ∷ signal sigint ∷ [])
          (record e { text = []; index = no_index }))
unfolding interrupt
interrupt-Shows l e s =
    emit-Shows _ _ _
      (text-Shows _ _ _ [] 0 (clear_index l e s) (Holds-clear l.buffer e.text s.buffer) refl)

end_of_file-Answers :
    (l : Line) (e : Editor)
    → Shows l e
    → Answers (end_of_file l) (
        if length e.text == 0
        then (1, also (yielded ∷ []) (record e { eof = true }))
        else (1, also (putc 10 ∷ []) (submit e)))
unfolding end_of_file
end_of_file-Answers l e s =
    if_both Answers (l.len == 0) (length e.text == 0) (ap (λ n. n == 0) s.len)
      (λ empty. (refl, emit-Shows _ _ _ (flags-Shows l e _ _ true true s s.ready refl)))
      (λ typed. (refl, emit-Shows _ _ _ (submit-Shows l e s)))

enter-Shows :
    (l : Line) (e : Editor)
    → Shows l e
    → Shows (enter l) (also (putc 10 ∷ yielded ∷ []) (record (submit e) { index = no_index }))
unfolding enter
enter-Shows l e s = emit-Shows _ _ _ (clear_index _ _ (submit-Shows l e s))

pub handle_char-Answers :
    (ch : ℕ) (l : Line) (e : Editor) → Shows l e → Answers (handle_char ch l) (on_char ch e)
unfolding handle_char on_char suspend
handle_char-Answers ch l e s =
    if_both Answers _ (ch == 0x03) refl (λ _. (refl, interrupt-Shows l e s))
      (λ _.
        if_both Answers _ (ch == 0x1a) refl (λ _. (refl, emit-Shows l e _ s))
          (λ _.
            if_both Answers _ (ch == 0x04) refl (λ _. end_of_file-Answers l e s)
              (λ _.
                if_both Answers _ (ch == 10 || ch == 13) refl (λ _. (refl, enter-Shows l e s))
                  (λ _.
                    if_both Answers _ (ch == 8 || ch == 0x7f) refl
                      (λ _. (refl, backspace-Shows l e s))
                      (λ _.
                        if_both Answers _ (ltb ch 32) refl (λ _. (refl, s))
                          (λ printable. (refl, insert-Shows ch l e (not_nul ch printable) s)))))))
  where
    not_nul : (c : ℕ) → ltb c 32 ≡ false → c ≢ 0
    not_nul c h = ground arith
