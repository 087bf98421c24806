-- ===== src/Line/Spec.antt =====
-- The line editor as it is meant: texts instead of arrays, a history of at most eight lines, a draft.
use cf_os.Base.{
  ℕ, ◌+◌, ◌-◌, Bool, true, not, ◌&&◌, ◌||◌, List, [], ◌∷◌, ◌++◌, ◌==◌, ltb, if◌then◌else◌, length,
  get_or, take, drop,
}
use cf_os.Base.Int.{ℤ, pos, negsuc, ltb_ℤ, pos_part}
use cf_os.Line.{
  Effect, putc, scrollback, signal, yielded, Key, f12, up, down, page_up, page_down, other,
  KeyEvent, sigint, sigtstp, no_index, same_bytes, int_pred, rub_out, echo, page, is_press,
  history_size,
}

pub record Editor : Type 0 where
  pub text : List ℕ
  pub past : List (List ℕ)
  pub draft : List ℕ
  pub index : ℤ
  pub ready : Bool
  pub eof : Bool
  pub effects : List Effect

abbrev pub also : List Effect → Editor → Editor
also es e = record e { effects = e.effects ++ es }

-- A line is remembered unless it is empty or repeats the last; the oldest of eight goes.
unfoldable pub remember : List ℕ → List (List ℕ) → List (List ℕ)
remember text past =
    if length text == 0
    then past
    else (if not (length past == 0) && same_bytes (get_or past (length past - 1) []) text
        then past
        else (if length past == history_size then drop 1 past else past) ++ text ∷ [])

unfoldable pub show : List ℕ → Editor → Editor
show text e = record e { text = text; effects = e.effects ++ rub_out (length e.text) ++ echo text }

unfoldable pub older : Editor → Editor
older e =
    let recall : ℤ → Editor → Editor =
      λ i e'. show (get_or e'.past (pos_part i) []) (record e' { index = i }) in
    if ltb_ℤ e.index (pos 0)
    then recall (int_pred (length e.past)) (record e { draft = e.text })
    else (if ltb_ℤ (pos 0) e.index then recall (int_pred (pos_part e.index)) e else e)

unfoldable pub newer : Editor → Editor
newer e =
    if ltb_ℤ e.index (pos 0)
    then e
    else (if ltb_ℤ e.index (int_pred (length e.past))
        then show (get_or e.past (pos_part e.index + 1) [])
            (record e { index = pos (pos_part e.index + 1) })
        else show e.draft (record e { index = no_index }))

unfoldable pub submit : Editor → Editor
submit e = record e { past = remember e.text e.past; ready = true }

unfoldable pub type_char : ℕ → Editor → Editor
type_char ch e =
    if ltb (length e.text) 255
    then also (putc ch ∷ []) (record e { index = no_index; text = e.text ++ ch ∷ [] })
    else e

unfoldable pub erase : Editor → Editor
erase e =
    if length e.text == 0
    then e
    else also (putc 8 ∷ putc 32 ∷ putc 8 ∷ [])
        (record e { index = no_index; text = take (length e.text - 1) e.text })

unfoldable pub on_char : ℕ → Editor → ℕ × Editor
on_char ch e =
    if ch == 0x03
    then (
      0,
      also (putc b'^' ∷ putc b'C' ∷ putc 10 ∷ signal sigint ∷ [])
          (record e { text = []; index = no_index }),
    )
    else (if ch == 0x1a
        then (0, also (putc b'^' ∷ putc b'Z' ∷ putc 10 ∷ signal sigtstp ∷ []) e)
        else (if ch == 0x04
            then (if length e.text == 0
                then (1, also (yielded ∷ []) (record e { eof = true }))
                else (1, also (putc 10 ∷ []) (submit e)))
            else (if ch == 10 || ch == 13
                then (1, also (putc 10 ∷ yielded ∷ []) (record (submit e) { index = no_index }))
                else (if ch == 8 || ch == 0x7f
                    then (0, erase e)
                    else (if ltb ch 32 then (0, e) else (0, type_char ch e))))))

unfoldable pub on_key : ℕ → Key → ℕ → Editor → ℕ × Editor
on_key rows up ch e = (0, if length e.past == 0 then e else older e)
on_key rows down ch e = (0, if length e.past == 0 then e else newer e)
on_key rows page_up ch e = (0, also (scrollback (negsuc (page rows - 1)) ∷ []) e)
on_key rows page_down ch e = (0, also (scrollback (pos (page rows)) ∷ []) e)
on_key rows f12 ch e = (0, e)
on_key rows other ch e = on_char ch e

unfoldable pub on_event : ℕ → KeyEvent → Editor → ℕ × Editor
on_event rows ev e =
    if not (is_press ev.type)
    then (0, e)
    else (if e.ready || e.eof then (0, e) else on_key rows ev.keycode ev.ascii e)
