-- ===== src/ThreadQueue/Examples.antt =====
-- A queue of two threads, with a third that is not queued.
use cf_os.Base.{
  ℕ, ◌≡◌, refl, ap, sym, ◌∙◌, Bool, false, Option, some, none, [], ◌∷◌, arith, ◌==◌, ok,
  if◌then◌else◌, ne→==, Bool-cases, inl, inr,
}
use cf_os.Base.Distinct.{Absent}
use cf_os.ThreadQueue.{Thread, Queue, pop, remove}
use cf_os.ThreadQueue.Chain.{Holds}
use cf_os.ThreadQueue.Ends.{idle, linked, pop-Holds}
use cf_os.ThreadQueue.Remove.{remove-Holds, remove-Absent}

abbrev two : Queue
two = record {
  head = 5;
  tail = 7;
  threads = λ a.
      if a == 5
      then some (linked 7)
      else (if a == 7 then some (linked 0) else (if a == 9 then some idle else none));
}

queued_of : Option Thread → Bool
queued_of none = false
queued_of (some th) = th.queued

unlisted :
    (a : ℕ) (th : Thread) → Absent a (5 ∷ 7 ∷ []) → two.threads a ≡ some th → th.queued ≡ false
unfolding queued_of
unlisted a th out e = elim (Bool-cases (a == 9)) [
  | inl t ↦
      let at : two.threads a ≡ some idle = rw (ne→== a 5 out.0, ne→== a 7 out.1.0, t) refl in
      sym (ap queued_of (sym at ∙ e))
  | inr f ↦
      let at : two.threads a ≡ none = rw (ne→== a 5 out.0, ne→== a 7 out.1.0, f) refl in
      sym (ap queued_of (sym at ∙ e))
]

two-Holds : Holds two (5 ∷ 7 ∷ [])
two-Holds = record {
  links = (refl, omega arith, (7, (refl, (refl, omega arith, (0, (refl, refl))))));
  distinct = ((omega arith, tt), (tt, tt));
  tail = refl;
  outside = unlisted;
}

pop-Holds_example :
    (s' : Queue) × (pop two ≡ ok (5, s')) × Holds s' (7 ∷ []) × (s'.threads 5 ≡ some idle)
pop-Holds_example = pop-Holds two 5 (7 ∷ []) two-Holds

remove-Holds_example : (s' : Queue) × (remove 2 7 two ≡ ok s') × Holds s' (5 ∷ [])
remove-Holds_example = remove-Holds two 2 7 (5 ∷ []) [] two-Holds (omega arith)

remove-Absent_example : remove 3 9 two ≡ ok two
remove-Absent_example =
    remove-Absent two 3 9 (5 ∷ 7 ∷ []) two-Holds (omega arith, (omega arith, tt)) (omega arith)
