-- ===== src/Heap/Session.antt =====
-- What every sequence of the heap's calls keeps.
use cf_os.Base.{
  ℕ, zero, suc, ◌+◌, ◌*◌, ◌^◌, ◌≤◌, ◌<◌, ◌≡◌, refl, ap, sym, subst, ◌∙◌, Bool, false, some, none,
  List, [], ◌∷◌, arith, leb, ◌==◌, get_elem?, ok, ne→==, Bool-cases, inl, inr, Run,
}
use cf_os.Heap.{Heap, Chunk, header, null, page_size, init, malloc, free, calloc, realloc}
use cf_os.Base.{if_then, if_else}
use cf_os.Heap.Chunks.{Chain, Merged, Chain-le, blocks, Holds, stop}
use cf_os.Heap.Grow.{IsHeap, Backed}
use cf_os.Heap.Calls.{malloc-Allocated, free-Freed}
use cf_os.Heap.Moves.{calloc-Zeroed, realloc-Moved, usable_size-Holds, written}

-- The heaps that calls reach from `heap_init`: sizes whose pages can be counted in 32 bits, pointers to
-- blocks in use, and whatever their owners write to them.
pub data Reach : Heap → Type 0 where
  booted :
      (start max : ℕ) (paged : Bool) (h : Heap)
      → start ≤ max
      → max + page_size < 2 ^ 32
      → Backed paged max h.pmm
      → Reach (init start max paged h)
  mallocs :
      (size p : ℕ) (h h' : Heap)
      → Reach h
      → size + header + 4095 < 2 ^ 32
      → malloc size h ≡ ok (p, h')
      → Reach h'
  callocs :
      (nmemb size p : ℕ) (h h' : Heap)
      → Reach h
      → 0 < nmemb
      → 0 < size
      → nmemb * size + header + 4095 < 2 ^ 32
      → calloc nmemb size h ≡ ok (p, h')
      → Reach h'
  reallocs :
      (a n size p : ℕ) (h h' : Heap)
      → Reach h
      → Holds a n h.chunks
      → size + header + 4095 < 2 ^ 32
      → realloc (a + header) size h ≡ ok (p, h')
      → Reach h'
  frees :
      (a n : ℕ) (h h' : Heap)
      → Reach h
      → Holds a n h.chunks
      → free (a + header) h ≡ ok h'
      → Reach h'
  writes : (m : ℕ → ℕ) (h : Heap) → Reach h → Reach (record h { memory = m })

result_of {ℓ} : {A : Type ℓ} (m : Run A) (a b : A) → m ≡ ok a → m ≡ ok b → a ≡ b
result_of m a b e e' = cc

init-IsHeap :
    (start max : ℕ) (paged : Bool) (h : Heap)
    → start ≤ max
    → max + page_size < 2 ^ 32
    → Backed paged max h.pmm
    → IsHeap (init start max paged h)
unfolding init Chain Merged
init-IsHeap start max paged h le top b = record {
  chain = omega arith;
  merged = tt;
  room = le;
  top = top;
  backed = b;
}

malloc-IsHeap :
    (size p : ℕ) (h h' : Heap)
    → IsHeap h
    → size + header + 4095 < 2 ^ 32
    → malloc size h ≡ ok (p, h')
    → IsHeap h'
unfolding malloc
malloc-IsHeap zero p h h' v small e =
    subst (λ x. IsHeap x.1) (result_of (malloc zero h) (null, h) (p, h') refl e) v
malloc-IsHeap (suc n) p h h' v small e =
    let (r, is, a) = malloc-Allocated (suc n) h v (omega arith) small in
    subst (λ x. IsHeap x.1) (result_of (malloc (suc n) h) r (p, h') is e) a.valid

free-IsHeap :
    (a n : ℕ) (h h' : Heap)
    → IsHeap h
    → Holds a n h.chunks
    → free (a + header) h ≡ ok h'
    → IsHeap h'
free-IsHeap a n h h' v at e =
    let (x, is, f) = free-Freed a n h v at in
    subst (λ y. IsHeap y) (result_of (free (a + header) h) x h' is e) f.valid

realloc-IsHeap :
    (a n size p : ℕ) (h h' : Heap)
    → IsHeap h
    → Holds a n h.chunks
    → size + header + 4095 < 2 ^ 32
    → realloc (a + header) size h ≡ ok (p, h')
    → IsHeap h'
unfolding realloc
realloc-IsHeap a n size p h h' v at small e =
    let nz : (a + header == null) ≡ false = ne→== (a + header) null (omega arith) in
    let old = usable_size-Holds a n h v at in
    elim (Bool-cases (size == 0)) [
      | inl t ↦
          let (x, is, f) = free-Freed a n h v at in
          let runs : realloc (a + header) size h ≡ ok (null, x) = rw (nz, t, is) refl in
          subst (λ y. IsHeap y.1) (result_of (realloc (a + header) size h) (null, x) (p, h') runs e)
            f.valid
      | inr some_size ↦ elim (Bool-cases (leb size n)) [
        | inl fits ↦
            let runs : realloc (a + header) size h ≡ ok (a + header, h) =
              rw (nz, some_size, old, fits) refl in
            subst (λ y. IsHeap y.1)
              (result_of (realloc (a + header) size h) (a + header, h) (p, h') runs e) v
        | inr longer ↦
            let (r, runs, m) = realloc-Moved a n size h v at (ground arith) small in
            subst (λ y. IsHeap y.1) (result_of (realloc (a + header) size h) r (p, h') runs e)
              m.valid
      ]
    ]

Reach-IsHeap : (h : Heap) → Reach h → IsHeap h
Reach-IsHeap _ (booted start max paged h le top b) = init-IsHeap start max paged h le top b
Reach-IsHeap _ (mallocs size p h h' r small e) =
    malloc-IsHeap size p h h' (Reach-IsHeap h r) small e
Reach-IsHeap _ (callocs nmemb size p h h' r a b small e) =
    let (q, is, z) = calloc-Zeroed nmemb size h (Reach-IsHeap h r) a b small in
    subst (λ x. IsHeap x.1) (result_of (calloc nmemb size h) q (p, h') is e) z.valid
Reach-IsHeap _ (reallocs a n size p h h' r at small e) =
    realloc-IsHeap a n size p h h' (Reach-IsHeap h r) at small e
Reach-IsHeap _ (frees a n h h' r at e) = free-IsHeap a n h h' (Reach-IsHeap h r) at e
Reach-IsHeap _ (writes m h r) = written h m (Reach-IsHeap h r)

-- The blocks in use lie in the heap's region, in order, and each starts after a header behind the end
-- of the one before; no two neighbouring chunks are free.
pub record Separated (h : Heap) : Type 0 where
  pub apart :
      (i j : ℕ) (x y : ℕ × ℕ)
      → i < j
      → get_elem? (blocks h.chunks) i ≡ some x
      → get_elem? (blocks h.chunks) j ≡ some y
      → x.0 + x.1 + header ≤ y.0
  pub inside :
      (i : ℕ) (x : ℕ × ℕ)
      → get_elem? (blocks h.chunks) i ≡ some x
      → (h.start_addr + header ≤ x.0) × (x.0 + x.1 ≤ h.end_addr)
  pub bounded : h.end_addr ≤ h.max_addr
  pub merged : Merged false h.chunks

some-pair : (x y : ℕ × ℕ) → some x ≡ some y → x ≡ y
some-pair x y e = ap (λ o. elim o as (λ _. ℕ × ℕ) [ none ↦ x | some z ↦ z ]) e

blocks-inside :
    (lo hi i : ℕ) (l : List Chunk) (x : ℕ × ℕ)
    → Chain lo hi l
    → get_elem? (blocks l) i ≡ some x
    → (lo + header ≤ x.0) × (x.0 + x.1 ≤ hi)
unfolding Chain blocks
blocks-inside lo hi i [] x h e = ground arith
blocks-inside lo hi i (c ∷ l) x h e = elim (Bool-cases c.free) [
  | inl t ↦
      let r = blocks-inside (stop c) hi i l x h.1 (
        sym (
          ap (λ b. get_elem? b i)
            (if_then c.free (blocks l) ((c.address + header, c.size) ∷ blocks l) t))
        ∙ e) in
      (omega (arith, r.0, h.0), r.1)
  | inr f ↦
      at (λ k. blocks-inside (stop c) hi k l x h.1) i
        (sym (
            ap (λ b. get_elem? b i)
              (if_else c.free (blocks l) ((c.address + header, c.size) ∷ blocks l) f))
          ∙ e)
]
  where
    at :
        ((k : ℕ) → get_elem? (blocks l) k ≡ some x → (stop c + header ≤ x.0) × (x.0 + x.1 ≤ hi))
        → (k : ℕ) → get_elem? ((c.address + header, c.size) ∷ blocks l) k ≡ some x
        → (lo + header ≤ x.0) × (x.0 + x.1 ≤ hi)
    at next zero e' =
        let same = some-pair (c.address + header, c.size) x e' in
        subst (λ z. (lo + header ≤ z.0) × (z.0 + z.1 ≤ hi)) same
          (omega (arith, h.0), omega (arith, Chain-le (stop c) hi l h.1))
    at next (suc k) e' = let r = next k e' in (omega (arith, r.0, h.0), r.1)

blocks-apart :
    (lo hi i j : ℕ) (l : List Chunk) (x y : ℕ × ℕ)
    → Chain lo hi l
    → i < j
    → get_elem? (blocks l) i ≡ some x
    → get_elem? (blocks l) j ≡ some y
    → x.0 + x.1 + header ≤ y.0
unfolding Chain blocks
blocks-apart lo hi i j [] x y h lt e e' = ground arith
blocks-apart lo hi i j (c ∷ l) x y h lt e e' = elim (Bool-cases c.free) [
  | inl t ↦
      let tail = if_then c.free (blocks l) ((c.address + header, c.size) ∷ blocks l) t in
      blocks-apart (stop c) hi i j l x y h.1 lt (sym (ap (λ b. get_elem? b i) tail) ∙ e)
        (sym (ap (λ b. get_elem? b j) tail) ∙ e')
  | inr f ↦
      let whole = if_else c.free (blocks l) ((c.address + header, c.size) ∷ blocks l) f in
      at (λ i j lt. blocks-apart (stop c) hi i j l x y h.1 lt) i j lt
        (sym (ap (λ b. get_elem? b i) whole) ∙ e) (sym (ap (λ b. get_elem? b j) whole) ∙ e')
]
  where
    at :
        ((i j : ℕ)
          → i < j
          → get_elem? (blocks l) i ≡ some x
          → get_elem? (blocks l) j ≡ some y
          → x.0 + x.1 + header ≤ y.0)
        → (i j : ℕ) → i < j
        → get_elem? ((c.address + header, c.size) ∷ blocks l) i ≡ some x
        → get_elem? ((c.address + header, c.size) ∷ blocks l) j ≡ some y
        → x.0 + x.1 + header ≤ y.0
    at next i zero lt a b = absurd (omega arith)
    at next zero (suc j) lt a b =
        let same = some-pair (c.address + header, c.size) x a in
        subst (λ z. z.0 + z.1 + header ≤ y.0) same
          (omega (arith, (blocks-inside (stop c) hi j l y h.1 b).0))
    at next (suc i) (suc j) lt a b = next i j (omega arith) a b

-- In every heap that calls of malloc, calloc, realloc and free and writes of bytes reach from
-- `heap_init` with a maximum more than a page below 4 GiB and a well-formed frame allocator, with
-- sizes whose pages can be counted in 32 bits and pointers to blocks in use, the blocks in use lie
-- inside the heap's region, below its maximum, in order and a header or more apart, and no two
-- neighbouring chunks are free.
pub Reach-Separated : (h : Heap) → Reach h → Separated h
Reach-Separated h r =
    let v = Reach-IsHeap h r in
    record {
      apart = λ i j x y lt. blocks-apart h.start_addr h.end_addr i j h.chunks x y v.chain lt;
      inside = λ i x. blocks-inside h.start_addr h.end_addr i h.chunks x v.chain;
      bounded = v.room;
      merged = v.merged;
    }
