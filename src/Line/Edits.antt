-- ===== src/Line/Edits.antt =====
-- What one change of a state does to the editor that it shows.
use cf_os.Base.{ℕ, ◌+◌, ◌≡◌, refl, ap, sym, subst, ◌∙◌, Bool, List, ◌++◌, length, take}
use cf_os.Base.Int.{ℤ}
use cf_os.Line.{Line, Effect, no_index, memcpy, strlen, rub_out, echo, emit, replace}
use cf_os.Line.Arrays.{Holds, Holds-memcpy, c_string-Holds, take-Holds}
use cf_os.Line.Spec.{Editor, also, show}
use cf_os.Line.View.{Shows, IndexOk}

pub text-Shows :
    (l : Line) (e : Editor) (b t : List ℕ) (n : ℕ)
    → Shows l e
    → Holds b t
    → n ≡ length t
    → Shows (record l { buffer = b; len = n }) (record e { text = t })
text-Shows l e b t n s held len = record {
  buffer = held;
  len = len;
  slots = s.slots;
  sized = s.sized;
  past = s.past;
  count = s.count;
  bounded = s.bounded;
  draft = s.draft;
  index = s.index;
  index_ok = s.index_ok;
  ready = s.ready;
  eof = s.eof;
  effects = s.effects;
}

pub index-Shows :
    (l : Line) (e : Editor) (i i' : ℤ)
    → Shows l e
    → i ≡ i'
    → IndexOk i' (length e.past)
    → Shows (record l { history_index = i }) (record e { index = i' })
index-Shows l e i i' s same inside = record {
  buffer = s.buffer;
  len = s.len;
  slots = s.slots;
  sized = s.sized;
  past = s.past;
  count = s.count;
  bounded = s.bounded;
  draft = s.draft;
  index = same;
  index_ok = inside;
  ready = s.ready;
  eof = s.eof;
  effects = s.effects;
}

pub draft-Shows :
    (l : Line) (e : Editor) (b t : List ℕ)
    → Shows l e
    → Holds b t
    → Shows (record l { draft = b }) (record e { draft = t })
draft-Shows l e b t s held = record {
  buffer = s.buffer;
  len = s.len;
  slots = s.slots;
  sized = s.sized;
  past = s.past;
  count = s.count;
  bounded = s.bounded;
  draft = held;
  index = s.index;
  index_ok = s.index_ok;
  ready = s.ready;
  eof = s.eof;
  effects = s.effects;
}

pub flags-Shows :
    (l : Line) (e : Editor) (r r' f f' : Bool)
    → Shows l e
    → r ≡ r'
    → f ≡ f'
    → Shows (record l { ready = r; eof = f }) (record e { ready = r'; eof = f' })
flags-Shows l e r r' f f' s same_r same_f = record {
  buffer = s.buffer;
  len = s.len;
  slots = s.slots;
  sized = s.sized;
  past = s.past;
  count = s.count;
  bounded = s.bounded;
  draft = s.draft;
  index = s.index;
  index_ok = s.index_ok;
  ready = same_r;
  eof = same_f;
  effects = s.effects;
}

effects-Shows :
    (l : Line) (e : Editor) (es es' : List Effect)
    → Shows l e
    → es ≡ es'
    → Shows (record l { effects = es }) (record e { effects = es' })
effects-Shows l e es es' s same = record {
  buffer = s.buffer;
  len = s.len;
  slots = s.slots;
  sized = s.sized;
  past = s.past;
  count = s.count;
  bounded = s.bounded;
  draft = s.draft;
  index = s.index;
  index_ok = s.index_ok;
  ready = s.ready;
  eof = s.eof;
  effects = same;
}

pub emit-Shows :
    (l : Line) (e : Editor) (es : List Effect) → Shows l e → Shows (emit es l) (also es e)
emit-Shows l e es s = effects-Shows l e _ _ s (ap (λ x. x ++ es) s.effects)

pub clear_index :
    (l : Line) (e : Editor)
    → Shows l e
    → Shows (record l { history_index = no_index }) (record e { index = no_index })
clear_index l e s = index-Shows l e no_index no_index s refl refl

pub replace-Shows :
    (l : Line) (e : Editor) (arr t : List ℕ)
    → Shows l e
    → Holds arr t
    → Shows (replace arr l) (show t e)
unfolding replace show
replace-Shows l e arr t s held =
    let n : strlen arr ≡ length t = ap (λ (x : List ℕ). length x) (c_string-Holds arr t held) in
    let b = memcpy l.buffer arr (strlen arr + 1) in
    let held' : Holds b t =
      subst (λ k. Holds (memcpy l.buffer arr (k + 1)) t) (sym n)
        (Holds-memcpy l.buffer arr t s.buffer.size held) in
    let taken : take (strlen arr) b ≡ t = ap (λ k. take k b) n ∙ take-Holds b t held' in
    let shown : l.effects ++ rub_out l.len ++ echo (take (strlen arr) b)
        ≡ e.effects ++ rub_out (length e.text) ++ echo t =
      ap (λ x. x ++ rub_out l.len ++ echo (take (strlen arr) b)) s.effects
      ∙ ap (λ k. e.effects ++ rub_out k ++ echo (take (strlen arr) b)) s.len
      ∙ ap (λ x. e.effects ++ rub_out (length e.text) ++ echo x) taken in
    effects-Shows _ _ _ _ (text-Shows l e b t (strlen arr) s held' n) shown
