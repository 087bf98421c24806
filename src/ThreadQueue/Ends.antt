-- ===== src/ThreadQueue/Ends.antt =====
-- `thread_queue_push` and `thread_queue_pop` on the ends of the chain.
use cf_os.Base.{
  ℕ, ◌≡◌, ◌≢◌, refl, ap, sym, subst, ◌∙◌, true, false, Option, some, none, List, [], ◌∷◌, ◌++◌,
  arith, ◌==◌, ok, if◌then◌else◌, ne→==, ==_refl, ==_iff, Bool-cases, inl, inr, Run,
}
use cf_os.Base.Distinct.{
  Absent, Distinct, Absent-left, Absent-right, Distinct-snoc, Distinct-middle,
}
use cf_os.ThreadQueue.{Thread, Queue, null, update, with_thread, link_last, push, pop}
use cf_os.ThreadQueue.Chain.{
  Chain, last, Holds, update_self, update-ne, Chain-update, Chain-split, Chain-join,
  unqueued-Absent, last-snoc, snoc-cases,
}

abbrev pub idle : Thread
idle = record { next = null; queued = false }

abbrev joined : Thread
joined = record { next = null; queued = true }

abbrev pub linked : ℕ → Thread
linked n = record { next = n; queued = true }

head-cons : (s : Queue) (x : ℕ) (xs : List ℕ) → Holds s (x ∷ xs) → (s.head == null) ≡ false
head-cons s x xs h = ne→== s.head null (λ e. h.links.1 (sym h.links.0 ∙ e))

-- the cell of a thread on its own, linked behind the list
pub outside-update :
    (f : ℕ → Option Thread) (b : ℕ) (v : Thread) (a : ℕ) (th : Thread)
    → b ≢ a
    → update f b v a ≡ some th
    → f a ≡ some th
outside-update f b v a th ne e = sym (update-ne f b a v ne) ∙ e

-- Popping a queue whose links run through a list with a first thread returns that thread, unlinked
-- and marked as not queued, and the queue's links run through the rest.
pub pop-Holds :
    (s : Queue) (x : ℕ) (xs : List ℕ)
    → Holds s (x ∷ xs)
    → (s' : Queue) × (pop s ≡ ok (x, s')) × Holds s' xs × (s'.threads x ≡ some idle)
unfolding pop
pop-Holds s x xs h =
    let (at, live, (n, (here, rest))) = h.links in
    let cell : s.threads s.head ≡ some (record { next = n; queued = true }) =
      ap s.threads at ∙ here in
    let tail' : ℕ = if n == null then null else s.tail in
    let s' : Queue = record { head = n; tail = tail'; threads = update s.threads x idle } in
    let runs : pop s ≡ ok (x, s') =
      rw (head-cons s x xs h, with_thread, cell)
        (ap (λ a. ok (a, record { head = n; tail = tail'; threads = update s.threads a idle }))
          at) in
    (
      s',
      runs,
      record {
        links = Chain-update s.threads n null x idle xs h.distinct.0 rest;
        distinct = h.distinct.1;
        tail = tail_of xs n rest h.tail;
        outside = λ a th out e. elim (Bool-cases (x == a)) [
          | inl t ↦
              let same : x ≡ a = (==_iff x a).0 t in
              let got : some idle ≡ some th =
                sym (update_self s.threads x idle) ∙ ap (update s.threads x idle) same ∙ e in
              sym (ap (λ (o : Option Thread). elim o [ none ↦ false | some r ↦ r.queued ]) got)
          | inr f ↦
              let ne : x ≢ a = λ q. ground (arith, ==_refl a) in
              h.outside a th ((λ q. ne (sym q)), out) (outside-update s.threads x idle a th ne e)
        ];
      },
      update_self s.threads x idle,
    )
  where
    tail_of :
        (ys : List ℕ) (n : ℕ)
        → Chain s.threads n ys null
        → s.tail ≡ last (x ∷ ys)
        → (if n == null then null else s.tail) ≡ last ys
    tail_of [] n c t = rw c
    tail_of (y ∷ ys) n c t = rw (ne→== n null (λ e. c.1 (sym c.0 ∙ e)), t)

-- the store once `t` is queued with no one behind it
abbrev entered : ℕ → Queue → ℕ → Option Thread
entered t s = update s.threads t joined

pub Chain-last :
    (f : ℕ → Option Thread) (p : ℕ) (ys : List ℕ) (y q t : ℕ)
    → Distinct (ys ++ y ∷ [])
    → Chain f p (ys ++ y ∷ []) q
    → (f y ≡ some (linked q)) × (y ≢ null) × Chain (update f y (linked t)) p (ys ++ y ∷ []) t
Chain-last f p ys y q t d c =
    let (m, (left, right)) = Chain-split f p q ys (y ∷ []) c in
    let (at, live, (n, (here, end))) = right in
    let out : Absent y ys = Absent-left y ys [] (Distinct-middle y ys [] d).0 in
    let v = linked t in
    let tail_link : Chain (update f y v) m (y ∷ []) t =
      (at, live, (t, (update_self f y v, refl))) in
    (
      subst (λ k. f y ≡ some (linked k)) end here,
      live,
      Chain-join (update f y v) p m t ys (y ∷ []) (Chain-update f p m y v ys out left) tail_link,
    )

not_queued_but :
    (s : Queue) (t : ℕ) (xs : List ℕ) (a : ℕ) (th : Thread)
    → ((a : ℕ) (th : Thread) → Absent a xs → s.threads a ≡ some th → th.queued ≡ false)
    → a ≢ t
    → Absent a xs
    → entered t s a ≡ some th
    → th.queued ≡ false
not_queued_but s t xs a th h ne out e =
    h a th out (outside-update s.threads t joined a th (λ q. ne (sym q)) e)

-- the thread that enters stands in no queue
module _ (s : Queue) (t : ℕ) (th : Thread) (nz : t ≢ null) (cell : s.threads t ≡ some th)
    (free : th.queued ≡ false) where
  push-Holds_empty : Holds s [] → (s' : Queue) × (push t s ≡ ok s') × Holds s' (t ∷ [])
  unfolding push link_last
  push-Holds_empty h =
      let s' : Queue = record { head = t; tail = t; threads = entered t s } in
      let runs : push t s ≡ ok s' =
        rw (ne→== t null nz, with_thread, cell, free, h.links, ==_refl null) refl in
      (
        s',
        runs,
        record {
          links = (refl, nz, (null, (update_self s.threads t joined, refl)));
          distinct = (tt, tt);
          tail = refl;
          outside = λ a r out e. not_queued_but s t [] a r h.outside out.0 tt e;
        },
      )

  push-Holds_snoc :
      (ys : List ℕ) (y : ℕ)
      → Holds s (ys ++ y ∷ [])
      → (s' : Queue) × (push t s ≡ ok s') × Holds s' ((ys ++ y ∷ []) ++ t ∷ [])
  unfolding push link_last
  push-Holds_snoc ys y h =
      let out : Absent t (ys ++ y ∷ []) =
        unqueued-Absent s.threads s.head null t th (ys ++ y ∷ []) h.links cell free in
      let y_ne : y ≢ t = λ e. (Absent-right t ys (y ∷ []) out).0 (sym e) in
      let f1 = entered t s in
      let (last_cell, y_live, chained) =
        Chain-last f1 s.head ys y null t h.distinct
          (Chain-update s.threads s.head null t joined (ys ++ y ∷ []) out h.links) in
      let f2 = update f1 y (linked t) in
      let s' : Queue = record { head = s.head; tail = t; threads = f2 } in
      let at_tail : s.tail ≡ y = h.tail ∙ last-snoc ys y in
      let built : ℕ → Run Queue =
        λ k. ok (record { head = s.head; tail = t; threads = update f1 k (linked t) }) in
      let own : f2 t ≡ some joined =
        update-ne f1 y t (linked t) y_ne ∙ update_self s.threads t joined in
      let runs : push t s ≡ ok s' =
        rw (ne→== t null nz, with_thread, cell, free, head-snoc ys y h.links, at_tail, last_cell)
          (ap built at_tail) in
      (
        s',
        runs,
        record {
          links =
              Chain-join f2 s.head t null (ys ++ y ∷ []) (t ∷ []) chained
                (refl, nz, (null, (own, refl)));
          distinct = Distinct-snoc (ys ++ y ∷ []) t out h.distinct;
          tail = sym (last-snoc (ys ++ y ∷ []) t);
          outside = λ a r gone e.
              let not_listed : Absent a (ys ++ y ∷ []) =
                Absent-left a (ys ++ y ∷ []) (t ∷ []) gone in
              let not_t : a ≢ t = (Absent-right a (ys ++ y ∷ []) (t ∷ []) gone).0 in
              let not_y : y ≢ a = λ q. (Absent-right a ys (y ∷ []) not_listed).0 (sym q) in
              not_queued_but s t (ys ++ y ∷ []) a r h.outside not_t not_listed
                (outside-update f1 y (linked t) a r not_y e);
        },
      )
    where
      head-snoc :
          (zs : List ℕ) (z : ℕ)
          → Chain s.threads s.head (zs ++ z ∷ []) null
          → (s.head == null) ≡ false
      head-snoc [] z c = ne→== s.head null (λ e. c.1 (sym c.0 ∙ e))
      head-snoc (w ∷ zs) z c = ne→== s.head null (λ e. c.1 (sym c.0 ∙ e))

  -- Pushing a thread that is not queued, on a queue whose links run through a list of distinct
  -- threads, puts it last: head, tail and links then run through the list and the thread.
  pub push-Holds :
      (xs : List ℕ) → Holds s xs → (s' : Queue) × (push t s ≡ ok s') × Holds s' (xs ++ t ∷ [])
  push-Holds xs h = elim (snoc-cases xs) [
    | inl e ↦
        subst (λ l. (s' : Queue) × (push t s ≡ ok s') × Holds s' (l ++ t ∷ [])) (sym e)
          (push-Holds_empty (subst (λ l. Holds s l) e h))
    | inr (ys, y, e) ↦
        subst (λ l. (s' : Queue) × (push t s ≡ ok s') × Holds s' (l ++ t ∷ [])) (sym e)
          (push-Holds_snoc ys y (subst (λ l. Holds s l) e h))
  ]
