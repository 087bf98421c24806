-- ===== src/Heap/Aligned.antt =====
-- `malloc_align` and `free_align`: the aligned pointer and the one that is kept before it.
use cf_os.Base.{
  ℕ, ◌+◌, ◌-◌, ◌*◌, ◌/◌, ◌%◌, ◌^◌, ◌≤◌, ◌<◌, ◌≡◌, ◌⊎◌, refl, ap, subst, ◌∙◌, true, false, arith,
  ltb, leb, ◌==◌, ok, ◌>>=◌, ne→==, not, ◌||◌, inl, inr, Run,
}
use cf_os.Base.{if_else}
use native.Mathlib.Nat.{div-mul-le_self, lt-div-mul-add}
use Prim.Native.Nat.{bit_and}
use cf_os.Base.Errno.{Errno}
use cf_os.Pmm.{add32, align_up}
use cf_os.Heap.{
  Heap, header, null, sub32, malloc, store_word, load_word, malloc_align, align_block, free_align,
}
use cf_os.Heap.Chunks.{blocks, Inserted, Holds-low}
use cf_os.Heap.Grow.{IsHeap}
use cf_os.Heap.Calls.{Gave, Allocated, malloc-Allocated, Freed, free-Freed}
use cf_os.Heap.Moves.{written}

store_word-byte : (m : ℕ → ℕ) (a v k : ℕ) → k < 4 → store_word m a v (a + k) ≡ v / 256 ^ k % 256
unfolding store_word
store_word-byte m a v k lt =
    let low : leb a (a + k) ≡ true = ground arith in
    let high : ltb (a + k) (a + 4) ≡ true = ground arith in
    let back : a + k - a ≡ k = omega arith in rw (low, high, back) refl

a_zero : (a : ℕ) → a + 0 ≡ a
a_zero a = omega arith

-- A pointer that is stored is read back.
pub load_word-store_word : (m : ℕ → ℕ) (a v : ℕ) → v < 2 ^ 32 → load_word (store_word m a v) a ≡ v
unfolding load_word
load_word-store_word m a v small =
    let zero_byte : store_word m a v a ≡ v / 256 ^ 0 % 256 =
      subst (λ x. store_word m a v x ≡ v / 256 ^ 0 % 256) (a_zero a)
        (store_word-byte m a v 0 (omega arith)) in
    let one = store_word-byte m a v 1 (omega arith) in
    let two = store_word-byte m a v 2 (omega arith) in
    let three = store_word-byte m a v 3 (omega arith) in omega (arith, zero_byte, one, two, three)

-- What an aligned allocation is to give: a multiple of the alignment, inside a block that was added to
-- those in use, from where `free_align` finds that block and takes it alone.
pub record Aligned (size align p : ℕ) (h h' : Heap) : Type 0 where
  pub valid : IsHeap h'
  pub place : ℕ
  pub given_size : ℕ
  pub added : Inserted (place + header, given_size) (blocks h.chunks) (blocks h'.chunks)
  pub multiple : (k : ℕ) × (p ≡ k * align)
  pub low : place + header + 4 ≤ p
  pub high : p + size ≤ place + header + given_size
  pub releases :
      (h'' : Heap) × (free_align p h' ≡ ok (Errno.success, h'')) × Freed place given_size h' h''

-- The multiple of `align` that `align_up` gives.
align_up-Bounds :
    (x align : ℕ)
    → 0 < align
    → x + align < 2 ^ 32
    → (x ≤ align_up x align) × (align_up x align < x + align)
align_up-Bounds x align pos small =
    let up : add32 x (align - 1) ≡ x + align - 1 = omega arith in
    let low = div-mul-le_self (x + align - 1) align in
    let high = lt-div-mul-add {a = x + align - 1} pos in
    rw up (omega (arith, high), omega (arith, low))

abbrev total_size : ℕ → ℕ → ℕ
total_size size align = add32 (sub32 (add32 size align) 1) 4

module _ (size align : ℕ) (h : Heap) (p : ℕ) (h1 : Heap) (pos : 0 < align)
    (a : Allocated (size + align + 3) h (p, h1)) (g : Gave (size + align + 3) p h h1) where
  abbrev aligned : ℕ
  aligned = align_up (add32 p 4) align

  abbrev h2 : Heap
  h2 = record h1 { memory = store_word h1.memory (sub32 aligned 4) p }

  given-Aligned : Aligned size align aligned h h2
  unfolding free_align
  given-Aligned =
      let inside =
        Holds-low g.place g.given_size h1.start_addr h1.end_addr h1.chunks a.valid.chain g.there in
      let four : add32 p 4 ≡ p + 4 =
        omega (arith, inside.1, g.pointer, g.enough, a.valid.room, a.valid.top) in
      let bounds =
        align_up-Bounds (p + 4) align pos
          (omega (arith, inside.1, g.pointer, g.enough, a.valid.room, a.valid.top)) in
      let at : aligned ≡ align_up (p + 4) align = ap (λ x. align_up x align) four in
      let v2 = written h1 (store_word h1.memory (sub32 aligned 4) p) a.valid in
      let (h3, e, f) = free-Freed g.place g.given_size h2 v2 g.there in
      let kept : load_word h2.memory (sub32 aligned 4) ≡ g.place + header =
        load_word-store_word h1.memory (sub32 aligned 4) p
          (omega (arith, inside.1, g.pointer, g.enough, a.valid.room, a.valid.top))
        ∙ g.pointer in
      let nz : (aligned == null) ≡ false =
        ne→== aligned null (λ z. omega (arith, bounds.0, at, z)) in
      record {
        valid = v2;
        place = g.place;
        given_size = g.given_size;
        added = g.added;
        multiple = (add32 (add32 p 4) (align - 1) / align, refl);
        low = omega (arith, bounds.0, at, g.pointer);
        high = omega (arith, bounds.1, at, g.pointer, g.enough);
        releases = (h3, rw (nz, kept, e) refl, f);
      }

-- On a well-formed heap and for an alignment above 0 without common bits with its predecessor, and a
-- size that is below 4 GiB with both, a header and a page, `malloc_align` ends: it gives a multiple
-- of the alignment with room for the size inside a block that is added to those in use, and
-- `free_align` of it finds that block and takes it alone; or it answers NULL and the chunks stay.
pub malloc_align-Aligned :
    (size align : ℕ) (h : Heap)
    → IsHeap h
    → 0 < align
    → bit_and align (align - 1) ≡ 0
    → size + align + 3 + header + 4095 < 2 ^ 32
    → (r : ℕ × Heap) × (malloc_align size align h ≡ ok r)
      × (Aligned size align r.0 h r.1 ⊎ ((r.0 ≡ null) × ((r.1).chunks ≡ h.chunks)))
unfolding malloc_align align_block
malloc_align-Aligned size align h v pos power small =
    let nz : (align == 0) ≡ false = ne→== align 0 (omega arith) in
    let test = align == 0 || not (bit_and align (align - 1) == 0) in
    let passes : test ≡ false = rw (nz, power) refl in
    let total : total_size size align ≡ size + align + 3 = omega arith in
    let ((p, h1), e, a) = malloc-Allocated (size + align + 3) h v (omega arith) small in
    let start =
      if_else test (ok (null, h)) (malloc (total_size size align) h >>= align_block align) passes
      ∙ ap (λ t. malloc t h >>= align_block align) total
      ∙ ap (λ (r : Run (ℕ × Heap)). r >>= align_block align) e in
    elim a.outcome [
      | inl g ↦
          let nn : (p == null) ≡ false = ne→== p null (omega (arith, g.pointer)) in
          (
            (aligned size align h p h1 pos a g, h2 size align h p h1 pos a g),
            start ∙ rw nn refl,
            inl (given-Aligned size align h p h1 pos a g),
          )
      | inr (z, same) ↦ ((null, h1), start ∙ rw z refl, inr (refl, same))
    ]
