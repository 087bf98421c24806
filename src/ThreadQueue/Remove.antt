-- ===== src/ThreadQueue/Remove.antt =====
-- `thread_queue_remove`: the walk to a thread of the chain, and its removal.
use cf_os.Base.{
  ℕ, zero, suc, ◌<◌, ◌≡◌, ◌≢◌, refl, ap, sym, subst, ◌∙◌, false, Option, some, none, List, [], ◌∷◌,
  ◌++◌, arith, ◌==◌, length, ok, if◌then◌else◌, ne→==, ==_refl, ==_iff, Bool-cases, inl, inr, Run,
  append-nil, append_assoc,
}
use cf_os.Base.Distinct.{
  Absent, Distinct, Absent-append, Absent-left, Absent-right, Distinct-middle,
}
use cf_os.ThreadQueue.{Thread, Queue, null, update, with_thread, unlink, find_unlink, remove}
use cf_os.ThreadQueue.Chain.{
  Chain, last, Holds, update_self, update-ne, Chain-update, Chain-split, Chain-join, last-snoc,
  snoc-cases,
}
use cf_os.ThreadQueue.Ends.{idle, linked, outside-update, Chain-last}

-- the last of a list, or what stands before it
abbrev last_or : ℕ → List ℕ → ℕ
last_or prev [] = prev
last_or prev (x ∷ xs) = last_or x xs

last_or-snoc : (xs : List ℕ) (prev z : ℕ) → last_or prev (xs ++ z ∷ []) ≡ z
last_or-snoc [] prev z = refl
last_or-snoc (x ∷ xs) prev z = last_or-snoc xs x z

-- The walk reaches the thread with the one before it.
walk :
    (s : Queue) (n : ℕ) (xs ys : List ℕ) (prev p t m : ℕ)
    → Chain s.threads p (xs ++ t ∷ ys) null
    → Absent t xs
    → s.threads t ≡ some (linked m)
    → length xs < n
    → find_unlink n prev p t s ≡ unlink (last_or prev xs) t (linked m) s
unfolding find_unlink
walk s zero xs ys prev p t m c out cell h = absurd (omega arith)
walk s (suc n) [] ys prev p t m c out cell h =
    subst (λ q. find_unlink (suc n) prev q t s ≡ unlink prev t (linked m) s) (sym c.0)
      (rw (ne→== t null c.1, with_thread, cell, ==_refl t) refl)
walk s (suc n) (x ∷ xs) ys prev p t m c out cell h =
    let (at, live, (q, (here, rest))) = c in
    let rest' = walk s n xs ys x q t m rest out.1 cell (omega arith) in
    subst (λ q. find_unlink (suc n) prev q t s ≡ unlink (last_or x xs) t (linked m) s) (sym at)
      (rw (ne→== x null live, with_thread, here, ne→== x t (λ e. out.0 (sym e))) rest')

walk_off :
    (s : Queue) (n : ℕ) (xs : List ℕ) (prev p t : ℕ)
    → Chain s.threads p xs null
    → Absent t xs
    → length xs < n
    → find_unlink n prev p t s ≡ ok s
unfolding find_unlink
walk_off s zero xs prev p t c out h = absurd (omega arith)
walk_off s (suc n) [] prev p t c out h =
    subst (λ q. find_unlink (suc n) prev q t s ≡ ok s) (sym c) refl
walk_off s (suc n) (x ∷ xs) prev p t c out h =
    let (at, live, (q, (here, rest))) = c in
    subst (λ q. find_unlink (suc n) prev q t s ≡ ok s) (sym at)
      (rw (ne→== x null live, with_thread, here, ne→== x t (λ e. out.0 (sym e)))
        (walk_off s n xs x q t rest out.1 (omega arith)))

last-append : (xs : List ℕ) (y : ℕ) (ys : List ℕ) → last (xs ++ y ∷ ys) ≡ last (y ∷ ys)
last-append [] y ys = refl
last-append (x ∷ []) y ys = refl
last-append (x ∷ z ∷ xs) y ys = last-append (z ∷ xs) y ys

last-ne : (t y : ℕ) (ys : List ℕ) → Absent t (y ∷ ys) → last (y ∷ ys) ≢ t
last-ne t y [] out e = out.0 (sym e)
last-ne t y (z ∷ ys) out e = last-ne t z ys out.1 e

-- The tail after the removal is the last of those left.
tail_after :
    (tail t z : ℕ) (xs ys : List ℕ)
    → Absent t ys
    → tail ≡ last (xs ++ t ∷ ys)
    → z ≡ last xs
    → (if tail == t then z else tail) ≡ last (xs ++ ys)
tail_after tail t z xs [] out h at =
    rw (h ∙ last-append xs t [], ==_refl t) (at ∙ ap last (sym (append-nil xs)))
tail_after tail t z xs (y ∷ ys) out h at =
    let e : tail ≡ last (y ∷ ys) = h ∙ last-append xs t (y ∷ ys) in
    rw (ne→== tail t (λ q. last-ne t y ys out (sym e ∙ q))) (e ∙ sym (last-append xs y ys))

-- what each removal leaves: the store with the thread idle, over one with its link taken over
left_over :
    (s : Queue) (f : ℕ → Option Thread) (head tail t m : ℕ) (xs ys : List ℕ)
    → Holds s (xs ++ t ∷ ys)
    → Chain f head (xs ++ ys) null
    → tail ≡ last (xs ++ ys)
    → ((a : ℕ) → Absent a (xs ++ ys) → f a ≡ s.threads a)
    → Holds (record { head = head; tail = tail; threads = update f t idle }) (xs ++ ys)
left_over s f head tail t m xs ys h c at same =
    let (out, d) = Distinct-middle t xs ys h.distinct in
    record {
      links = Chain-update f head null t idle (xs ++ ys) out c;
      distinct = d;
      tail = at;
      outside = λ a th gone e. elim (Bool-cases (t == a)) [
        | inl q ↦
            let got : some idle ≡ some th =
              sym (update_self f t idle) ∙ ap (update f t idle) ((==_iff t a).0 q) ∙ e in
            sym (ap (λ (o : Option Thread). elim o [ none ↦ false | some r ↦ r.queued ]) got)
        | inr q ↦
            let ne : t ≢ a = λ r. ground (arith, ==_refl a) in
            let not_listed : Absent a (xs ++ t ∷ ys) =
              Absent-append a xs (t ∷ ys) (Absent-left a xs ys gone)
                ((λ r. ne (sym r)), Absent-right a xs ys gone) in
            h.outside a th not_listed (sym (same a gone) ∙ outside-update f t idle a th ne e)
      ];
    }

remove_first :
    (s : Queue) (n t : ℕ) (ys : List ℕ)
    → Holds s (t ∷ ys)
    → 0 < n
    → (s' : Queue) × (remove n t s ≡ ok s') × Holds s' ys
unfolding remove unlink
remove_first s n t ys h rounds =
    let (at, live, (m, (here, rest))) = h.links in
    let tail' : ℕ = if s.tail == t then null else s.tail in
    let s' : Queue = record { head = m; tail = tail'; threads = update s.threads t idle } in
    let walked = walk s n [] ys null s.head t m h.links tt here rounds in
    (
      s',
      rw (ne→== t null live, walked) refl,
      left_over s s.threads m tail' t m [] ys h rest
          (tail_after s.tail t null [] ys h.distinct.0 h.tail refl) (λ a _. refl),
    )

Distinct-left : (xs ys : List ℕ) → Distinct (xs ++ ys) → Distinct xs
Distinct-left [] ys d = tt
Distinct-left (x ∷ xs) ys d = (Absent-left x xs ys d.0, Distinct-left xs ys d.1)

Distinct-join : (zs : List ℕ) (z : ℕ) (ys : List ℕ) → Distinct (zs ++ z ∷ ys) → Absent z ys
Distinct-join zs z ys d = Absent-right z zs ys (Distinct-middle z zs ys d).0

remove_later :
    (s : Queue) (n t z : ℕ) (zs ys : List ℕ)
    → Holds s ((zs ++ z ∷ []) ++ t ∷ ys)
    → length (zs ++ z ∷ []) < n
    → (s' : Queue) × (remove n t s ≡ ok s') × Holds s' ((zs ++ z ∷ []) ++ ys)
unfolding remove unlink
remove_later s n t z zs ys h rounds =
    let xs = zs ++ z ∷ [] in
    let (p, (left, right)) = Chain-split s.threads s.head null xs (t ∷ ys) h.links in
    let (at, live, (m, (here, rest))) = right in
    let (out, d) = Distinct-middle t xs ys h.distinct in
    let d_left : Distinct xs = Distinct-left xs ys d in
    let (cell, z_live, chained) = Chain-last s.threads s.head zs z p m d_left left in
    let z_out : Absent z ys =
      (Distinct-join zs z ys (subst Distinct (append_assoc zs (z ∷ []) ys) d)) in
    let f = update s.threads z (linked m) in
    let tail' : ℕ = if s.tail == t then z else s.tail in
    let built : ℕ → Run Queue = λ prev. ok (record {
      head = s.head;
      tail = (if s.tail == t then prev else s.tail);
      threads = update (update s.threads prev (linked m)) t idle;
    }) in
    let walked = walk s n xs ys null s.head t m h.links (Absent-left t xs ys out) here rounds in
    (
      record { head = s.head; tail = tail'; threads = update f t idle },
      rw (ne→== t null live, walked, last_or-snoc zs null z, ne→== z null z_live, with_thread, cell)
          (ap built (last_or-snoc zs null z)),
      left_over s f s.head tail' t m xs ys h
          (Chain-join f s.head m null xs ys chained
            (Chain-update s.threads m null z (linked m) ys z_out rest))
          (tail_after s.tail t z xs ys (Absent-right t xs ys out) h.tail (sym (last-snoc zs z)))
          (λ a gone.
            update-ne s.threads z a (linked m)
              (λ e. (Absent-right a zs (z ∷ []) (Absent-left a xs ys gone)).0 (sym e))),
    )

-- Removing a thread from a queue whose links run through a list, wherever in the list it stands,
-- ends after as many rounds as its position and leaves a queue whose links run through the list
-- without it.
pub remove-Holds :
    (s : Queue) (n t : ℕ) (xs ys : List ℕ)
    → Holds s (xs ++ t ∷ ys)
    → length xs < n
    → (s' : Queue) × (remove n t s ≡ ok s') × Holds s' (xs ++ ys)
remove-Holds s n t xs ys h rounds = elim (snoc-cases xs) [
  | inl e ↦
      subst (λ l. (s' : Queue) × (remove n t s ≡ ok s') × Holds s' (l ++ ys)) (sym e)
        (remove_first s n t ys (subst (λ l. Holds s (l ++ t ∷ ys)) e h) (omega arith))
  | inr (zs, z, e) ↦
      subst (λ l. (s' : Queue) × (remove n t s ≡ ok s') × Holds s' (l ++ ys)) (sym e)
        (remove_later s n t z zs ys (subst (λ l. Holds s (l ++ t ∷ ys)) e h)
          (subst (λ l. length l < n) e rounds))
]

-- Removing a thread that is not in a queue whose links run through a list ends after one round more
-- than the list is long, and changes nothing.
pub remove-Absent :
    (s : Queue) (n t : ℕ) (xs : List ℕ)
    → Holds s xs
    → Absent t xs
    → length xs < n
    → remove n t s ≡ ok s
unfolding remove
remove-Absent s n t xs h out rounds = elim (Bool-cases (t == null)) [
  | inl e ↦ rw e refl
  | inr e ↦ rw e (walk_off s n xs null s.head t h.links out rounds)
]
