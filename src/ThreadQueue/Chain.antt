-- ===== src/ThreadQueue/Chain.antt =====
-- When a queue's links run through a list of threads.
use cf_os.Base.{
  ℕ, ◌≡◌, ◌≢◌, ◌⊎◌, refl, ap, sym, subst, ◌∙◌, true, false, Option, some, none, List, [], ◌∷◌, ◌++◌,
  arith, ne→==, ==_refl, inl, inr,
}
use cf_os.Base.Distinct.{Absent, Distinct}
use cf_os.ThreadQueue.{Thread, Queue, null, update}

-- the links run from `p` through the list to `q`
abbrev pub Chain : (ℕ → Option Thread) → ℕ → List ℕ → ℕ → Type 0
Chain f p [] q = p ≡ q
Chain f p (x ∷ xs) q =
    (p ≡ x)
    × (x ≢ null)
    × ((n : ℕ) × ((f x ≡ some (record { next = n; queued = true })) × Chain f n xs q))

abbrev pub last : List ℕ → ℕ
last [] = null
last (x ∷ []) = x
last (x ∷ y ∷ r) = last (y ∷ r)

pub record Holds (s : Queue) (xs : List ℕ) : Type 0 where
  pub links : Chain s.threads s.head xs null
  pub distinct : Distinct xs
  pub tail : s.tail ≡ last xs
  pub outside : (a : ℕ) (th : Thread) → Absent a xs → s.threads a ≡ some th → th.queued ≡ false

pub update_self : (f : ℕ → Option Thread) (a : ℕ) (v : Thread) → update f a v a ≡ some v
update_self f a v = rw (==_refl a)

pub update-ne : (f : ℕ → Option Thread) (a b : ℕ) (v : Thread) → a ≢ b → update f a v b ≡ f b
update-ne f a b v h = rw (ne→== a b h)

pub Chain-update :
    (f : ℕ → Option Thread) (p q a : ℕ) (v : Thread) (xs : List ℕ)
    → Absent a xs
    → Chain f p xs q
    → Chain (update f a v) p xs q
Chain-update f p q a v [] out c = c
Chain-update f p q a v (x ∷ xs) out c =
    let (at, live, (n, (here, rest))) = c in
    (at, live, (n, (update-ne f a x v out.0 ∙ here, Chain-update f n q a v xs out.1 rest)))

pub Chain-split :
    (f : ℕ → Option Thread) (p q : ℕ) (xs ys : List ℕ)
    → Chain f p (xs ++ ys) q
    → (m : ℕ) × (Chain f p xs m × Chain f m ys q)
Chain-split f p q [] ys c = (p, (refl, c))
Chain-split f p q (x ∷ xs) ys c =
    let (at, live, (n, (here, rest))) = c in
    let (m, (left, right)) = Chain-split f n q xs ys rest in
    (m, ((at, live, (n, (here, left))), right))

pub Chain-join :
    (f : ℕ → Option Thread) (p m q : ℕ) (xs ys : List ℕ)
    → Chain f p xs m
    → Chain f m ys q
    → Chain f p (xs ++ ys) q
Chain-join f p m q [] ys c d = subst (λ k. Chain f k ys q) (sym c) d
Chain-join f p m q (x ∷ xs) ys c d =
    let (at, live, (n, (here, rest))) = c in
    (at, live, (n, (here, Chain-join f n m q xs ys rest d)))

some-inj : (a b : Thread) → some a ≡ some b → a.queued ≡ b.queued
some-inj a b e = ap (λ (o : Option Thread). elim o [ none ↦ false | some th ↦ th.queued ]) e

-- A thread that is not queued is on no chain.
pub unqueued-Absent :
    (f : ℕ → Option Thread) (p q a : ℕ) (th : Thread) (xs : List ℕ)
    → Chain f p xs q
    → f a ≡ some th
    → th.queued ≡ false
    → Absent a xs
unqueued-Absent f p q a th [] c at un = tt
unqueued-Absent f p q a th (x ∷ xs) c at un =
    let (_, live, (n, (here, rest))) = c in
    (
      λ e.
          let same : th.queued ≡ true =
            some-inj th (record { next = n; queued = true }) (sym at ∙ ap f e ∙ here) in
          ground arith,
      unqueued-Absent f n q a th xs rest at un,
    )

pub last-snoc : (xs : List ℕ) (x : ℕ) → last (xs ++ x ∷ []) ≡ x
last-snoc [] x = refl
last-snoc (y ∷ []) x = refl
last-snoc (y ∷ z ∷ r) x = last-snoc (z ∷ r) x

-- A list is empty or ends in an element.
pub snoc-cases : (xs : List ℕ) → (xs ≡ []) ⊎ ((ys : List ℕ) × (y : ℕ) × (xs ≡ ys ++ y ∷ []))
snoc-cases [] = inl refl
snoc-cases (x ∷ xs) = elim (snoc-cases xs) [
  | inl e ↦ inr ([], x, ap (λ l. x ∷ l) e)
  | inr (ys, y, e) ↦ inr (x ∷ ys, y, ap (λ l. x ∷ l) e)
]
