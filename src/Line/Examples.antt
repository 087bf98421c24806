-- ===== src/Line/Examples.antt =====
-- The line discipline at concrete states: two characters typed, Enter, and the reads.
use cf_os.Base.{ℕ, ◌≡◌, refl, true, false, List, [], ◌∷◌, replicate, ok, arith}
use cf_os.Base.Int.{ℤ, pos, negsuc}
use cf_os.Line.{
  Line, KeyEvent, buffer_size, history_size, no_index, read, deliver, press, up, down, wait_line,
  take_line, reset,
}
use cf_os.Line.Arrays.{Holds}
use cf_os.Line.Spec.{Editor, remember}
use cf_os.Line.View.{Shows}
use cf_os.Line.Refine.{answers, answers_spec, answers_refine}
use cf_os.Line.Editing.{Taken, read-Taken}
use cf_os.Line.Session.{typing, type_key, read-typing, up-down}

abbrev empty : List ℕ
empty = replicate buffer_size 0

abbrev booted : Line
booted = record {
  buffer = empty;
  len = 0;
  history = replicate history_size empty;
  draft = empty;
  history_count = 0;
  history_index = no_index;
  ready = false;
  eof = false;
  effects = [];
}

-- a line `ls` that waits for its reader
abbrev waiting : Line
waiting = record booted { buffer = 108 ∷ 115 ∷ replicate 254 0; len = 2; ready = true }

abbrev waiting_editor : Editor
waiting_editor = record {
  text = 108 ∷ 115 ∷ [];
  past = [];
  draft = [];
  index = no_index;
  ready = true;
  eof = false;
  effects = [];
}

waiting-Shows : Shows waiting waiting_editor
waiting-Shows = record {
  buffer = record {
    behind = replicate 253 0;
    form = refl;
    no_nul = (omega arith, (omega arith, tt));
    size = refl;
  };
  len = refl;
  slots = refl;
  sized = (refl, (refl, (refl, (refl, (refl, (refl, (refl, (refl, tt))))))));
  past = tt;
  count = refl;
  bounded = omega arith;
  draft = record { behind = replicate 255 0; form = refl; no_nul = tt; size = refl };
  index = refl;
  index_ok = refl;
  ready = refl;
  eof = refl;
  effects = refl;
}

read-Taken_example :
    (r : ℤ × List ℕ × Line) × ((read 25 true 16 true [] waiting ≡ ok r)
      × Taken 16 waiting waiting_editor r)
read-Taken_example =
    read-Taken 25 16 true [] waiting waiting_editor waiting-Shows (omega arith) refl

-- A buffer of two bytes is too small for the line, and stays so.
too_small : read 25 true 2 true [] waiting ≡ ok (negsuc 0, [], waiting)
unfolding read wait_line take_line
too_small = refl

fits : read 25 true 3 true [] waiting ≡ ok (pos 2, 108 ∷ 115 ∷ 0 ∷ [], reset waiting)
unfolding read wait_line take_line
fits = refl

abbrev nothing_held : Holds empty []
nothing_held = record { behind = replicate 255 0; form = refl; no_nul = tt; size = refl }

-- one line in the history, a character typed after it
abbrev recalled : Line
recalled = record booted {
  buffer = 120 ∷ replicate 255 0;
  len = 1;
  history = (108 ∷ 115 ∷ replicate 254 0) ∷ replicate 7 empty;
  history_count = 1;
}

abbrev recalled_editor : Editor
recalled_editor = record {
  text = 120 ∷ [];
  past = (108 ∷ 115 ∷ []) ∷ [];
  draft = [];
  index = no_index;
  ready = false;
  eof = false;
  effects = [];
}

recalled-Shows : Shows recalled recalled_editor
recalled-Shows = record {
  buffer = record {
    behind = replicate 254 0;
    form = refl;
    no_nul = (omega arith, tt);
    size = refl;
  };
  len = refl;
  slots = refl;
  sized = (refl, (refl, (refl, (refl, (refl, (refl, (refl, (refl, tt))))))));
  past = (
    record {
      behind = replicate 253 0;
      form = refl;
      no_nul = (omega arith, (omega arith, tt));
      size = refl;
    },
    tt,
  );
  count = refl;
  bounded = omega arith;
  draft = nothing_held;
  index = refl;
  index_ok = refl;
  ready = refl;
  eof = refl;
  effects = refl;
}

abbrev booted_editor : Editor
booted_editor = record recalled_editor { text = []; past = [] }

booted-Shows : Shows booted booted_editor
booted-Shows = record {
  buffer = nothing_held;
  len = refl;
  slots = refl;
  sized = (refl, (refl, (refl, (refl, (refl, (refl, (refl, (refl, tt))))))));
  past = tt;
  count = refl;
  bounded = omega arith;
  draft = nothing_held;
  index = refl;
  index_ok = refl;
  ready = refl;
  eof = refl;
  effects = refl;
}

abbrev ls_keys : List KeyEvent
ls_keys = type_key 108 ∷ type_key 115 ∷ type_key 10 ∷ []

answers_refine_example :
    ((answers 25 ls_keys booted).0 ≡ (answers_spec 25 ls_keys booted_editor).0)
    × Shows (answers 25 ls_keys booted).1 (answers_spec 25 ls_keys booted_editor).1
answers_refine_example = answers_refine 25 ls_keys booted booted_editor booted-Shows

read-typing_example :
    (l' : Line) × (e' : Editor) × (read 25 true 16 true []
        (deliver 25 (typing (108 ∷ 115 ∷ [])) booted)
      ≡ ok (pos 2, 108 ∷ 115 ∷ 0 ∷ [], l'))
    × Shows l' e'
    × (e'.text ≡ [])
    × (e'.past ≡ remember (108 ∷ 115 ∷ []) [])
read-typing_example =
    read-typing 25 16 true [] (108 ∷ 115 ∷ []) booted booted_editor booted-Shows refl refl refl
      (omega arith, omega arith, (omega arith, omega arith, tt)) (omega arith) (omega arith)

abbrev up_then_down : List KeyEvent
up_then_down =
    record { type = press; keycode = up; ascii = 0 }
    ∷ record { type = press; keycode = down; ascii = 0 }
    ∷ []

up-down_example :
    (e' : Editor) × Shows (deliver 25 up_then_down recalled) e'
    × (e'.text ≡ 120 ∷ [])
    × (e'.past ≡ (108 ∷ 115 ∷ []) ∷ [])
    × (e'.index ≡ no_index)
up-down_example = up-down 25 0 0 recalled recalled_editor recalled-Shows refl refl (omega arith)
