-- ===== src/Line.antt =====
-- The line discipline (src/kernel/drivers/input/line.c). The static buffers are arrays of 256 bytes, and
-- the text in one is what stands before its first NUL. What a call does to the terminal, the signals and
-- the scheduler is a list of effects. While a reader waits, other code delivers key events: they are
-- an argument of `read`, one list for each `sched_yield`.
pub mod Arrays
pub mod Spec
pub mod View
pub mod History
pub mod Edits
pub mod Keys
pub mod Refine
pub mod Editing
pub mod Session
mod Examples
use cf_os.Base.{
  ℕ, zero, suc, ◌+◌, ◌-◌, Bool, true, false, not, ◌&&◌, ◌||◌, Option, none, some, List, [], ◌∷◌,
  ◌++◌, ◌==◌, ltb, leb, if◌then◌else◌, length, get_or, set, take, drop, Run, ok, stuck, ◌>>=◌,
}
use cf_os.Base.Int.{ℤ, pos, negsuc, ltb_ℤ, pos_part}

abbrev pub buffer_size : ℕ
buffer_size = 256

abbrev pub history_size : ℕ
history_size = 8

pub data Effect : Type 0 where
  putc : ℕ → Effect
  scrollback : ℤ → Effect
  signal : ℕ → Effect
  yielded : Effect

pub record Line : Type 0 where
  pub buffer : List ℕ
  pub len : ℕ
  pub history : List (List ℕ)
  pub draft : List ℕ
  pub history_count : ℕ
  pub history_index : ℤ
  pub ready : Bool
  pub eof : Bool
  pub effects : List Effect

pub data Press : Type 0 where
  press release : Press

-- the key codes that the handler tells apart
pub data Key : Type 0 where
  f12 up down page_up page_down other : Key

pub record KeyEvent : Type 0 where
  pub type : Press
  pub keycode : Key
  pub ascii : ℕ

abbrev pub sigint : ℕ
sigint = 2

abbrev pub sigtstp : ℕ
sigtstp = 20

abbrev pub no_index : ℤ
no_index = negsuc 0

-- the bytes before the first NUL, `strlen`, `strcmp(a, b) == 0` and `memcpy(dst, src, n)`
pub c_string : List ℕ → List ℕ
c_string [] = []
c_string (c ∷ s) = if c == 0 then [] else c ∷ c_string s

abbrev pub strlen : List ℕ → ℕ
strlen s = length (c_string s)

pub same_bytes : List ℕ → List ℕ → Bool
same_bytes [] [] = true
same_bytes [] (d ∷ b) = false
same_bytes (c ∷ a) [] = false
same_bytes (c ∷ a) (d ∷ b) = c == d && same_bytes a b

abbrev pub strcmp_eq : List ℕ → List ℕ → Bool
strcmp_eq a b = same_bytes (c_string a) (c_string b)

abbrev pub memcpy : List ℕ → List ℕ → ℕ → List ℕ
memcpy dst src n = take n src ++ drop n dst

-- (int)n - 1
abbrev pub int_pred : ℕ → ℤ
int_pred zero = negsuc 0
int_pred (suc n) = pos n

abbrev pub emit : List Effect → Line → Line
emit es l = record l { effects = l.effects ++ es }

pub reset : Line → Line
reset l = record l {
  len = 0;
  buffer = set l.buffer 0 0;
  history_index = no_index;
  ready = false;
  eof = false;
}

-- for (i = 1; i < LINE_HISTORY_SIZE; i++) memcpy(line_history[i - 1], line_history[i], ...)
pub shift_loop : ℕ → ℕ → List (List ℕ) → List (List ℕ)
shift_loop zero i h = h
shift_loop (suc n) i h = shift_loop n (i + 1) (set h (i - 1) (get_or h i []))

-- the entry is written at the count, after the oldest made room
pub make_room : Line → Line
make_room l =
    if l.history_count == history_size
    then record l {
      history = shift_loop (history_size - 1) 1 l.history;
      history_count = l.history_count - 1;
    }
    else l

pub append_history : Line → Line
append_history l = record l {
  history =
      set l.history l.history_count
        (memcpy (get_or l.history l.history_count []) l.buffer (l.len + 1));
  history_count = l.history_count + 1;
}

pub store_history : Line → Line
store_history l =
    if l.len == 0
    then l
    else (if not (l.history_count == 0)
          && strcmp_eq (get_or l.history (l.history_count - 1) []) l.buffer
        then l
        else append_history (make_room l))

-- `line_replace` rubs each character out and echoes the new ones.
pub rub_out : ℕ → List Effect
rub_out zero = []
rub_out (suc n) = putc 8 ∷ putc 32 ∷ putc 8 ∷ rub_out n

pub echo : List ℕ → List Effect
echo [] = []
echo (c ∷ s) = putc c ∷ echo s

pub replace : List ℕ → Line → Line
replace text l =
    let n = strlen text in
    let b = memcpy l.buffer text (n + 1) in
    record l { len = n; buffer = b; effects = l.effects ++ rub_out l.len ++ echo (take n b) }

pub history_up : Line → Line
history_up l =
    let shown : ℤ → Line → Line =
      λ i l'. replace (get_or l'.history (pos_part i) []) (record l' { history_index = i }) in
    if ltb_ℤ l.history_index (pos 0)
    then shown (int_pred l.history_count) (record l { draft = memcpy l.draft l.buffer (l.len + 1) })
    else (if ltb_ℤ (pos 0) l.history_index
        then shown (int_pred (pos_part l.history_index)) l
        else l)

pub history_down : Line → Line
history_down l =
    if ltb_ℤ l.history_index (pos 0)
    then l
    else (if ltb_ℤ l.history_index (int_pred l.history_count)
        then replace (get_or l.history (pos_part l.history_index + 1) [])
            (record l { history_index = pos (pos_part l.history_index + 1) })
        else replace l.draft (record l { history_index = no_index }))

pub history_move : ℤ → Line → Line
history_move direction l =
    if l.history_count == 0
    then l
    else (if ltb_ℤ direction (pos 0) then history_up l else history_down l)

-- Enter and Ctrl+D end the text at the length.
abbrev pub terminate : Line → Line
terminate l = record l { buffer = set l.buffer l.len 0 }

pub interrupt : Line → Line
interrupt l =
    emit (putc b'^' ∷ putc b'C' ∷ putc 10 ∷ signal sigint ∷ [])
      (record l { len = 0; buffer = set l.buffer 0 0; history_index = no_index })

pub suspend : Line → Line
suspend l = emit (putc b'^' ∷ putc b'Z' ∷ putc 10 ∷ signal sigtstp ∷ []) l

pub end_of_file : Line → ℕ × Line
end_of_file l =
    if l.len == 0
    then (1, emit (yielded ∷ []) (record l { eof = true }))
    else (1, emit (putc 10 ∷ []) (record (store_history (terminate l)) { ready = true }))

pub enter : Line → Line
enter l =
    emit (putc 10 ∷ yielded ∷ [])
      (record (store_history (terminate l)) { history_index = no_index; ready = true })

pub backspace : Line → Line
backspace l =
    if l.len == 0
    then l
    else emit (putc 8 ∷ putc 32 ∷ putc 8 ∷ []) (record l {
      history_index = no_index;
      len = l.len - 1;
      buffer = set l.buffer (l.len - 1) 0;
    })

pub insert : ℕ → Line → Line
insert ch l =
    if ltb l.len (buffer_size - 1)
    then emit (putc ch ∷ []) (record l {
      history_index = no_index;
      buffer = set (set l.buffer l.len ch) (l.len + 1) 0;
      len = l.len + 1;
    })
    else l

-- the part of the handler that looks at the character
pub handle_char : ℕ → Line → ℕ × Line
handle_char ch l =
    if ch == 0x03
    then (0, interrupt l)
    else (if ch == 0x1a
        then (0, suspend l)
        else (if ch == 0x04
            then end_of_file l
            else (if ch == 10 || ch == 13
                then (1, enter l)
                else (if ch == 8 || ch == 0x7f
                    then (0, backspace l)
                    else (if ltb ch 32 then (0, l) else (0, insert ch l))))))

-- a scroll by a page of the terminal's `rows`
abbrev pub page : ℕ → ℕ
page rows = if ltb 1 rows then rows - 1 else 1

pub handle_key : ℕ → Key → ℕ → Line → ℕ × Line
handle_key rows up ch l = (0, history_move (negsuc 0) l)
handle_key rows down ch l = (0, history_move (pos 1) l)
handle_key rows page_up ch l = (0, emit (scrollback (negsuc (page rows - 1)) ∷ []) l)
handle_key rows page_down ch l = (0, emit (scrollback (pos (page rows)) ∷ []) l)
handle_key rows f12 ch l = (0, l)
handle_key rows other ch l = handle_char ch l

abbrev pub is_press : Press → Bool
is_press press = true
is_press release = false

pub handle_keyevent : ℕ → Option KeyEvent → Line → ℕ × Line
handle_keyevent rows none l = (0, l)
handle_keyevent rows (some ev) l =
    if not (is_press ev.type)
    then (0, l)
    else (if l.ready || l.eof then (0, l) else handle_key rows ev.keycode ev.ascii l)

pub handle_ascii : ℕ → ℕ → Line → Line
handle_ascii rows ch l =
    (handle_keyevent rows (some (record { type = press; keycode = other; ascii = ch })) l).1

-- events delivered one after the other
pub deliver : ℕ → List KeyEvent → Line → Line
deliver rows [] l = l
deliver rows (ev ∷ evs) l = deliver rows evs (handle_keyevent rows (some ev) l).1

-- `line_read` once a line or the end of file is there: the result, the bytes written and the state
pub take_line : ℕ → Line → ℤ × List ℕ × Line
take_line capacity l =
    if l.eof
    then (pos 0, [], reset l)
    else (if leb capacity l.len
        then (negsuc 0, [], l)
        else (pos l.len, take l.len l.buffer ++ 0 ∷ [], reset l))

-- the waiting loop, with the events that arrive during each yield; it waits on when none are left
pub wait_line : ℕ → ℕ → Bool → List (List KeyEvent) → Line → Run (ℤ × List ℕ × Line)
wait_line rows capacity wait [] l =
    if l.ready || l.eof
    then ok (take_line capacity l)
    else (if not wait then ok (pos 0, [], l) else stuck)
wait_line rows capacity wait (evs ∷ later) l =
    if l.ready || l.eof
    then ok (take_line capacity l)
    else (if not wait
        then ok (pos 0, [], l)
        else wait_line rows capacity wait later (deliver rows evs (emit (yielded ∷ []) l)))

pub read : ℕ → Bool → ℕ → Bool → List (List KeyEvent) → Line → Run (ℤ × List ℕ × Line)
read rows has_buffer capacity wait arrivals l =
    if not has_buffer || capacity == 0
    then ok (negsuc 0, [], l)
    else wait_line rows capacity wait arrivals l
