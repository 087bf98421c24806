-- ===== src/Heap/Examples.antt =====
-- A heap over 64 frames, taken by address from 0x10000 on.
use cf_os.Base.{
  ◌⊎◌, ℕ, ◌+◌, ◌≡◌, refl, Bool, true, false, some, none, [], ◌∷◌, arith, replicate, ok, inl,
}
use cf_os.Pmm.{Pmm}
use cf_os.Pmm.Frames.{IsValid}
use cf_os.Heap.{
  Heap, Chunk, header, init, malloc, free, calloc, realloc, malloc_align, claim, find_free_chunk,
  merge, merge_next, merge_prev, free_after, free_chunk,
}
use cf_os.Heap.Chunks.{Holds, Chain, Merged}
use cf_os.Heap.Grow.{IsHeap, Backed}
use cf_os.Heap.Calls.{Allocated, malloc-Allocated, Freed, free-Freed}
use cf_os.Heap.Moves.{Zeroed, calloc-Zeroed, Moved, realloc-Moved}
use cf_os.Heap.Session.{Reach, booted, mallocs, Separated, Reach-Separated}
use cf_os.Heap.Wrap.{malloc-wraps}
use cf_os.Heap.{null}
use cf_os.Heap.Aligned.{Aligned, malloc_align-Aligned}

abbrev frames : Pmm
frames = record { bitmap = replicate 32 false ∷ replicate 32 false ∷ []; total = 64; used = 0 }

frames-IsValid : IsValid frames
frames-IsValid = record {
  words = (refl, (refl, tt));
  size = refl;
  counted = refl;
  small = omega arith;
}

frames-Backed : Backed false 0x30000 frames
frames-Backed = record { valid = frames-IsValid; fits = λ _. omega arith }

abbrev memory : Heap
memory = record {
  chunks = [];
  start_addr = 0;
  end_addr = 0;
  max_addr = 0;
  paged = false;
  memory = λ q. 0xcc;
  mapped = [];
  pmm = frames;
}

abbrev chunk : ℕ → ℕ → Bool → Chunk
chunk address size free = record { address = address; size = size; free = free }

abbrev busy : Heap
busy = record (init 0x10000 0x30000 false memory) {
  chunks = chunk 0x10000 100 false ∷ chunk 0x11000 200 true ∷ chunk 0x12000 50 false ∷ [];
  end_addr = 0x13000;
}

busy-IsHeap : IsHeap busy
unfolding init Chain Merged
busy-IsHeap = record {
  chain = (omega arith, (omega arith, (omega arith, omega arith)));
  merged = (refl, (refl, (refl, tt)));
  room = omega arith;
  top = omega arith;
  backed = frames-Backed;
}

busy_first : Holds 0x10000 100 busy.chunks
unfolding Holds
busy_first = inl (refl, refl, refl)

-- the first chunk that is free and large enough is taken whole
reuses :
    malloc 150 busy
    ≡ ok (
      0x11010,
      record busy {
        chunks = chunk 0x10000 100 false ∷ chunk 0x11000 200 false ∷ chunk 0x12000 50 false ∷ [];
      },
    )
unfolding init malloc find_free_chunk claim
reuses = refl

-- the freed chunk takes in its free neighbour
merges :
    free 0x10010 busy
    ≡ ok (record busy { chunks = chunk 0x10000 316 true ∷ chunk 0x12000 50 false ∷ [] })
unfolding init free free_chunk merge_next merge
merges = refl

-- the chunk at 0x11000 takes in its neighbour, and the one before takes in both
merges_both :
    free_chunk 0x11000
      (chunk 0x10000 100 true ∷ chunk 0x11000 200 false ∷ chunk 0x12000 50 true ∷ [])
    ≡ some (chunk 0x10000 382 true ∷ [])
unfolding free_chunk free_after merge_next merge_prev merge
merges_both = refl

malloc-Allocated_example : (r : ℕ × Heap) × (malloc 300 busy ≡ ok r) × Allocated 300 busy r
malloc-Allocated_example = malloc-Allocated 300 busy busy-IsHeap (omega arith) (omega arith)

free-Freed_example :
    (h' : Heap) × (free (0x10000 + header) busy ≡ ok h') × Freed 0x10000 100 busy h'
free-Freed_example = free-Freed 0x10000 100 busy busy-IsHeap busy_first

calloc-Zeroed_example : (r : ℕ × Heap) × (calloc 5 30 busy ≡ ok r) × Zeroed 150 busy r
calloc-Zeroed_example =
    calloc-Zeroed 5 30 busy busy-IsHeap (omega arith) (omega arith) (omega arith)

realloc-Moved_example :
    (r : ℕ × Heap) × (realloc (0x10000 + header) 120 busy ≡ ok r) × Moved 0x10000 100 120 busy r
realloc-Moved_example =
    realloc-Moved 0x10000 100 120 busy busy-IsHeap busy_first (omega arith) (omega arith)

malloc_align-Aligned_example :
    (r : ℕ × Heap) × (malloc_align 20 64 busy ≡ ok r)
    × (Aligned 20 64 r.0 busy r.1 ⊎ ((r.0 ≡ null) × ((r.1).chunks ≡ busy.chunks)))
malloc_align-Aligned_example =
    malloc_align-Aligned 20 64 busy busy-IsHeap (omega arith) refl (omega arith)

abbrev empty : Heap
empty = init 0x10000 0x30000 false memory

empty-Reach : Reach empty
empty-Reach = booted 0x10000 0x30000 false memory (omega arith) (omega arith) frames-Backed

empty-IsHeap : IsHeap empty
unfolding init Chain Merged
empty-IsHeap = record {
  chain = omega arith;
  merged = tt;
  room = omega arith;
  top = omega arith;
  backed = frames-Backed;
}

abbrev first_call : (r : ℕ × Heap) × (malloc 300 empty ≡ ok r) × Allocated 300 empty r
first_call = malloc-Allocated 300 empty empty-IsHeap (omega arith) (omega arith)

Reach-Separated_example : Separated first_call.0.1
Reach-Separated_example =
    Reach-Separated first_call.0.1
      (mallocs 300 first_call.0.0 empty first_call.0.1 empty-Reach (omega arith) first_call.1)

none_free : find_free_chunk busy.chunks 0xffff_f000 ≡ none
unfolding init find_free_chunk
none_free = refl

malloc-wraps_example :
    malloc 0xffff_f000 busy
    ≡ ok (
      0x13010,
      record busy {
        chunks =
            chunk 0x10000 100 false
            ∷ chunk 0x11000 200 true
            ∷ chunk 0x12000 50 false
            ∷ chunk 0x13000 0xffff_f000 false
            ∷ [];
      },
    )
malloc-wraps_example =
    malloc-wraps 0xffff_f000 busy busy-IsHeap (omega arith) (omega arith) none_free
