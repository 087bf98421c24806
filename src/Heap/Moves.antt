-- ===== src/Heap/Moves.antt =====
-- `calloc` and `realloc`: the bytes of the blocks.
use cf_os.Base.{
  ℕ, ◌+◌, ◌-◌, ◌*◌, ◌/◌, ◌%◌, ◌^◌, ◌≤◌, ◌<◌, ◌≡◌, ◌⊎◌, refl, sym, subst, ◌∙◌, true, false, some,
  List, [], ◌∷◌, arith, ltb, leb, ◌==◌, ok, ne→==, ==_refl, inl, inr,
}
use native.Mathlib.Nat.{le-div_iff_mul-le, mul-pos}
use cf_os.Heap.{
  Heap, Chunk, header, null, sub32, memset, memcpy, calloc, realloc, clear_block, move_block,
  usable_size, chunk_at,
}
use cf_os.Heap.Chunks.{Chain, blocks, Holds, Inserted, stop, Holds-low}
use cf_os.Heap.Grow.{IsHeap}
use cf_os.Heap.Calls.{Gave, Allocated, malloc-Allocated, free-Freed}

-- The size that stands in the header of a block in use.
chunk_at-Holds :
    (a n lo hi : ℕ) (l : List Chunk)
    → Chain lo hi l
    → Holds a n l
    → (c : Chunk) × (chunk_at a l ≡ some c) × (c.size ≡ n)
unfolding Chain Holds chunk_at
chunk_at-Holds a n lo hi [] h x = elim x [ ]
chunk_at-Holds a n lo hi (c ∷ l) h (inl at) = (c, rw (at.0, ==_refl a) refl, at.1)
chunk_at-Holds a n lo hi (c ∷ l) h (inr rest) =
    let below = Holds-low a n (stop c) hi l h.1 rest in
    let other : (c.address == a) ≡ false = ne→== c.address a (λ e. omega (arith, below.0, e)) in
    let (d, e, s) = chunk_at-Holds a n (stop c) hi l h.1 rest in (d, rw (other, e) refl, s)

pub usable_size-Holds :
    (a n : ℕ) (h : Heap) → IsHeap h → Holds a n h.chunks → usable_size (a + header) h ≡ ok n
unfolding usable_size
usable_size-Holds a n h v at =
    let bound = Holds-low a n h.start_addr h.end_addr h.chunks v.chain at in
    let (c, e, s) = chunk_at-Holds a n h.start_addr h.end_addr h.chunks v.chain at in
    let nz : (a + header == null) ≡ false = ne→== (a + header) null (omega arith) in
    let back : sub32 (a + header) header ≡ a = omega (arith, bound.1, v.room, v.top) in
    rw (nz, back, e, s) refl

-- Bytes outside the blocks' headers may be written: the heap's shape stays.
pub written : (h : Heap) (m : ℕ → ℕ) → IsHeap h → IsHeap (record h { memory = m })
written h m v = record {
  chain = v.chain;
  merged = v.merged;
  room = v.room;
  top = v.top;
  backed = v.backed;
}

pub memset-inside : (m : ℕ → ℕ) (p byte n q : ℕ) → p ≤ q → q < p + n → memset m p byte n q ≡ byte
unfolding memset
memset-inside m p byte n q le lt =
    let low : leb p q ≡ true = ground arith in
    let high : ltb q (p + n) ≡ true = ground arith in rw (low, high) refl

pub memset-outside :
    (m : ℕ → ℕ) (p byte n q : ℕ) → (q < p ⊎ (p + n ≤ q)) → memset m p byte n q ≡ m q
unfolding memset
memset-outside m p byte n q (inl lt) = let low : leb p q ≡ false = ground arith in rw low refl
memset-outside m p byte n q (inr le) =
    let low : leb p q ≡ true = ground arith in
    let high : ltb q (p + n) ≡ false = ground arith in rw (low, high) refl

pub memcpy-outside :
    (m : ℕ → ℕ) (to from n q : ℕ) → (q < to ⊎ (to + n ≤ q)) → memcpy m to from n q ≡ m q
unfolding memcpy
memcpy-outside m to from n q (inl lt) = let low : leb to q ≡ false = ground arith in rw low refl
memcpy-outside m to from n q (inr le) =
    let low : leb to q ≡ true = ground arith in
    let high : ltb q (to + n) ≡ false = ground arith in rw (low, high) refl

pub memcpy-inside :
    (m : ℕ → ℕ) (to from n i : ℕ) → i < n → memcpy m to from n (to + i) ≡ m (from + i)
unfolding memcpy
memcpy-inside m to from n i lt =
    let low : leb to (to + i) ≡ true = ground arith in
    let high : ltb (to + i) (to + n) ≡ true = ground arith in
    let back : to + i - to ≡ i = omega arith in rw (low, high, back) refl

-- What `calloc` is to do: give out a block of zeros, or NULL.
pub record Zeroed (total : ℕ) (h : Heap) (r : ℕ × Heap) : Type 0 where
  pub valid : IsHeap r.1
  pub outcome :
      (Gave total r.0 h r.1 × ((i : ℕ) → i < total → (r.1).memory (r.0 + i) ≡ 0))
      ⊎ ((r.0 ≡ null) × ((r.1).chunks ≡ h.chunks))

clear_block-Zeroed :
    (total : ℕ) (h : Heap) (p : ℕ) (h' : Heap)
    → Allocated total h (p, h')
    → (q : ℕ × Heap) × (clear_block total (p, h') ≡ ok q) × Zeroed total h q
unfolding clear_block
clear_block-Zeroed total h p h' a = elim a.outcome [
  | inl g ↦
      let nz : (p == null) ≡ false = ne→== p null (omega (arith, g.pointer)) in
      (
        (p, record h' { memory = memset h'.memory p 0 total }),
        rw nz refl,
        record {
          valid = written h' (memset h'.memory p 0 total) a.valid;
          outcome = inl (
            record {
              place = g.place;
              given_size = g.given_size;
              pointer = g.pointer;
              enough = g.enough;
              there = g.there;
              apart = g.apart;
              added = g.added;
            },
            λ i lt. memset-inside h'.memory p 0 total (p + i) (omega arith) (omega arith),
          );
        },
      )
  | inr (z, same) ↦ ((p, h'), rw z refl, record { valid = a.valid; outcome = inr (z, same) })
]

-- x
pub calloc-Zeroed :
    (nmemb size : ℕ) (h : Heap)
    → IsHeap h
    → 0 < nmemb
    → 0 < size
    → nmemb * size + header + 4095 < 2 ^ 32
    → (r : ℕ × Heap) × (calloc nmemb size h ≡ ok r) × Zeroed (nmemb * size) h r
unfolding calloc
calloc-Zeroed nmemb size h v a b small =
    let first : (nmemb == 0) ≡ false = ne→== nmemb 0 (omega arith) in
    let second : (size == 0) ≡ false = ne→== size 0 (omega arith) in
    let fits : nmemb ≤ (2 ^ 32 - 1) / size = (le-div_iff_mul-le b).1 (omega arith) in
    let third : ltb ((2 ^ 32 - 1) / size) nmemb ≡ false = ground arith in
    let total : nmemb * size % 2 ^ 32 ≡ nmemb * size = omega arith in
    let ((p, h'), e, x) = malloc-Allocated (nmemb * size) h v (mul-pos a b) small in
    let (q, e', z) = clear_block-Zeroed (nmemb * size) h p h' x in
    (q, rw (first, second, third, total, e) e', z)

-- What moving the block at `a` is to do: the new block's bytes are the old ones, all blocks from before
-- keep theirs, and the blocks in use are those from before, less the old and with the new one; or NULL, and
-- nothing changes.
pub record Moved (a n new_size : ℕ) (h : Heap) (r : ℕ × Heap) : Type 0 where
  pub valid : IsHeap r.1
  pub others :
      (b m i : ℕ)
      → Holds b m h.chunks
      → i < m
      → (r.1).memory (b + header + i) ≡ h.memory (b + header + i)
  pub outcome :
      ((mid : List (ℕ × ℕ)) × (given : ℕ) × (new_size ≤ given)
        × Inserted (r.0, given) (blocks h.chunks) mid
        × Inserted (a + header, n) (blocks (r.1).chunks) mid
        × ((i : ℕ) → i < n → (r.1).memory (r.0 + i) ≡ h.memory (a + header + i)))
      ⊎ ((r.0 ≡ null) × ((r.1).chunks ≡ h.chunks))

-- On a well-formed heap, `realloc` of a block in use to a larger size of less than 4 GiB with its
-- header and a page always ends: either it gives out a block of at least that size with the old
-- bytes, releases the old block and no other, and the bytes of all blocks from before stay; or it
-- answers NULL and the blocks and their bytes stay.
pub realloc-Moved :
    (a n new_size : ℕ) (h : Heap)
    → IsHeap h
    → Holds a n h.chunks
    → n < new_size
    → new_size + header + 4095 < 2 ^ 32
    → (r : ℕ × Heap) × (realloc (a + header) new_size h ≡ ok r) × Moved a n new_size h r
unfolding realloc move_block
realloc-Moved a n new_size h v at more small =
    let nz : (a + header == null) ≡ false = ne→== (a + header) null (omega arith) in
    let some_size : (new_size == 0) ≡ false = ne→== new_size 0 (omega arith) in
    let longer : leb new_size n ≡ false = ground arith in
    let old = usable_size-Holds a n h v at in
    let bound = λ (b m : ℕ) (x : Holds b m h.chunks).
      Holds-low b m h.start_addr h.end_addr h.chunks v.chain x in
    let ((p, h1), e, x) = malloc-Allocated new_size h v (omega arith) small in
    elim x.outcome [
      | inl g ↦
          let m1 = memcpy h1.memory p (a + header) n in
          let (h2, e', f) =
            free-Freed a n (record h1 { memory = m1 }) (written h1 m1 x.valid) (x.kept a n at) in
          let nn : (p == null) ≡ false = ne→== p null (omega (arith, g.pointer)) in
          (
            (p, h2),
            rw (nz, some_size, old, longer, e, nn, e') refl,
            record {
              valid = f.valid;
              others = λ b m i at' lt.
                  f.bytes_kept (b + header + i)
                  ∙ memcpy-outside h1.memory p (a + header) n (b + header + i)
                      (elim (g.apart b m at') [
                        | inl below ↦ inl (omega (arith, g.pointer))
                        | inr above ↦ inr (omega (arith, g.pointer, g.enough))
                      ])
                  ∙ x.bytes_kept (b + header + i) (omega (arith, (bound b m at').1));
              outcome = inl (
                blocks h1.chunks,
                g.given_size,
                g.enough,
                subst (λ q. Inserted (q, g.given_size) (blocks h.chunks) (blocks h1.chunks))
                    (sym g.pointer) g.added,
                f.taken,
                λ i lt.
                    f.bytes_kept (p + i)
                    ∙ memcpy-inside h1.memory p (a + header) n i lt
                    ∙ x.bytes_kept (a + header + i) (omega (arith, (bound a n at).1)),
              );
            },
          )
      | inr (z, same) ↦ (
        (null, h1),
        rw (nz, some_size, old, longer, e, z) refl,
        record {
          valid = x.valid;
          others = λ b m i at' lt. x.bytes_kept (b + header + i) (omega (arith, (bound b m at').1));
          outcome = inr (refl, same);
        },
      )
    ]
