-- ===== src/Heap/Calls.antt =====
-- `malloc` and `free` on the blocks in use.
use cf_os.Base.{
  ℕ, ◌+◌, ◌*◌, ◌/◌, ◌^◌, ◌≤◌, ◌<◌, ◌≡◌, ◌⊎◌, refl, sym, subst, false, Option, some, none, [], ◌∷◌,
  ◌++◌, arith, ◌==◌, ok, ◌>>=◌, ne→==, Bool-cases, Option-cases, inl, inr, Run,
}
use cf_os.Heap.{
  Heap, Chunk, header, null, page_size, is_success, needed_pages, request_space, sub32, malloc,
  free, payload, claim, find_free_chunk,
}
use cf_os.Heap.Chunks.{
  Chain, blocks, Holds, Inserted, Chain-snoc, Merged-snoc, snoc-Inserted, Holds-snoc, Holds_append,
  Holds-low,
}
use cf_os.Heap.Merge.{find_free_chunk-Claimed, free_chunk-Released}
use cf_os.Heap.Grow.{IsHeap, Grew, expand_by_pages-Expanded}

-- What a call that gives out the pointer `p` for `size` bytes is to do: a chunk in use of that size or
-- more stands before `p`, and the blocks in use are those from before and this one.
pub record Gave (size p : ℕ) (h h' : Heap) : Type 0 where
  pub place : ℕ
  pub given_size : ℕ
  pub pointer : p ≡ place + header
  pub enough : size ≤ given_size
  pub there : Holds place given_size h'.chunks
  pub apart :
      (b m : ℕ) → Holds b m h.chunks → (b + header + m ≤ place) ⊎ (place + header + given_size ≤ b)
  pub added : Inserted (place + header, given_size) (blocks h.chunks) (blocks h'.chunks)

-- What `malloc` is to do: give out a block, or NULL and leave the chunks; bytes below the old end stay.
pub record Allocated (size : ℕ) (h : Heap) (r : ℕ × Heap) : Type 0 where
  pub valid : IsHeap r.1
  pub bytes_kept : (q : ℕ) → q < h.end_addr → (r.1).memory q ≡ h.memory q
  pub kept : (b m : ℕ) → Holds b m h.chunks → Holds b m (r.1).chunks
  pub outcome : Gave size r.0 h r.1 ⊎ ((r.0 ≡ null) × ((r.1).chunks ≡ h.chunks))

module _ (size : ℕ) (h : Heap) (v : IsHeap h) where
  -- a chunk that was free is claimed
  claimed-Allocated :
      (c : Chunk)
      → find_free_chunk h.chunks size ≡ some c
      → Allocated size h (payload c, record h { chunks = claim c.address h.chunks })
  claimed-Allocated c e =
      let r =
        find_free_chunk-Claimed h.start_addr h.end_addr size false h.chunks c v.chain v.merged e in
      let at = Holds-low c.address c.size h.start_addr h.end_addr _ r.chain r.there in
      record {
        valid = record {
          chain = r.chain;
          merged = r.merged;
          room = v.room;
          top = v.top;
          backed = v.backed;
        };
        bytes_kept = λ q lt. refl;
        kept = r.kept;
        outcome = inl (record {
          place = c.address;
          given_size = c.size;
          pointer = omega (arith, at.1, v.room, v.top);
          enough = r.big;
          there = r.there;
          apart = r.apart;
          added = r.put;
        });
      }

  abbrev fresh : Heap → Chunk
  fresh h' = record {
    address = sub32 h'.end_addr (needed_pages size * page_size);
    size = size;
    free = false;
  }

  -- a chunk in new pages at the end
  added-Allocated :
      (h' : Heap)
      → size + header + 4095 < 2 ^ 32
      → Grew (needed_pages size) h h'
      → Allocated size h (payload (fresh h'), record h' { chunks = h'.chunks ++ fresh h' ∷ [] })
  added-Allocated h' small g =
      let need : needed_pages size ≡ (size + header + 4095) / page_size = omega arith in
      let place : (fresh h').address ≡ h.end_addr =
        omega (arith, g.end_at, g.valid.room, g.valid.top, need) in
      let chain : Chain h'.start_addr h.end_addr h'.chunks =
        subst (λ s. Chain s h.end_addr h'.chunks) (sym g.start_kept)
          (subst (λ l. Chain h.start_addr h.end_addr l) (sym g.chunks_kept) v.chain) in
      record {
        valid = record {
          chain =
              Chain-snoc h'.start_addr h.end_addr h'.end_addr h'.chunks (fresh h') chain
                (omega (arith, place)) (omega (arith, place, g.end_at, need));
          merged = Merged-snoc false h'.chunks (fresh h') refl g.valid.merged;
          room = g.valid.room;
          top = g.valid.top;
          backed = g.valid.backed;
        };
        bytes_kept = g.bytes_kept;
        kept = λ b m at.
            Holds_append b m h'.chunks (fresh h' ∷ [])
              (subst (λ l. Holds b m l) (sym g.chunks_kept) at);
        outcome = inl (record {
          place = (fresh h').address;
          given_size = size;
          pointer = omega (arith, place, g.end_at, need, g.valid.room, g.valid.top);
          enough = omega arith;
          there = Holds-snoc h'.chunks (fresh h') refl;
          apart = λ b m at.
              inl (
                omega
                  (arith, place, (Holds-low b m h.start_addr h.end_addr h.chunks v.chain at).1));
          added =
              subst
                (λ l.
                  Inserted ((fresh h').address + header, size) (blocks l)
                    (blocks (h'.chunks ++ fresh h' ∷ [])))
                g.chunks_kept (snoc-Inserted h'.chunks (fresh h') refl);
        });
      }

  abbrev after_request : Run (Option Chunk × Heap) → Run (ℕ × Heap)
  after_request m = m >>= λ r. ok ((elim r.0 [ none ↦ null | some c ↦ payload c ]), r.1)

  requested-Allocated :
      size + header + 4095 < 2 ^ 32
      → (r : ℕ × Heap) × (after_request (request_space size h) ≡ ok r) × Allocated size h r
  unfolding request_space
  requested-Allocated small =
      let ((code, h'), e, x) = expand_by_pages-Expanded (needed_pages size) h v in
      elim (Bool-cases (is_success code)) [
        | inl t ↦ (
          (payload (fresh h'), record h' { chunks = h'.chunks ++ fresh h' ∷ [] }),
          rw (e, t) refl,
          added-Allocated h' small (subst (λ k. Grew k h h') (x.full t) x.grew),
        )
        | inr f ↦ (
          (null, h'),
          rw (e, f) refl,
          record {
            valid = x.grew.valid;
            bytes_kept = x.grew.bytes_kept;
            kept = λ b m at. subst (λ l. Holds b m l) (sym x.grew.chunks_kept) at;
            outcome = inr (refl, x.grew.chunks_kept);
          },
        )
      ]

-- On a well-formed heap, `malloc` of a size above 0 and below 4 GiB with its header and a page
-- always ends: either a block of at least that size, apart from all blocks in use, is added to them,
-- or it answers NULL and the chunks stay; the heap stays well-formed, blocks in use and bytes below
-- the old end stay.
pub malloc-Allocated :
    (size : ℕ) (h : Heap)
    → IsHeap h
    → 0 < size
    → size + header + 4095 < 2 ^ 32
    → (r : ℕ × Heap) × (malloc size h ≡ ok r) × Allocated size h r
unfolding malloc
malloc-Allocated size h v pos small =
    let nz : (size == 0) ≡ false = ne→== size 0 (omega arith) in
    elim (Option-cases (find_free_chunk h.chunks size)) [
      | inl e ↦ let (r, is, a) = requested-Allocated size h v small in (r, rw (nz, e) is, a)
      | inr (c, e) ↦ (
        (payload c, record h { chunks = claim c.address h.chunks }),
        rw (nz, e) refl,
        claimed-Allocated size h v c e,
      )
    ]

-- What `free` of the block at `a` is to do: that block is in use no more, and nothing else changes.
pub record Freed (a n : ℕ) (h h' : Heap) : Type 0 where
  pub valid : IsHeap h'
  pub taken : Inserted (a + header, n) (blocks h'.chunks) (blocks h.chunks)
  pub bytes_kept : (q : ℕ) → h'.memory q ≡ h.memory q
  pub region_kept : (h'.start_addr ≡ h.start_addr) × (h'.end_addr ≡ h.end_addr)

-- On a well-formed heap, `free` of a block in use ends, takes that block alone from those in use,
-- changes no byte, and leaves the heap well-formed, with no two neighbouring free chunks.
pub free-Freed :
    (a n : ℕ) (h : Heap)
    → IsHeap h
    → Holds a n h.chunks
    → (h' : Heap) × (free (a + header) h ≡ ok h') × Freed a n h h'
unfolding free
free-Freed a n h v at =
    let bound = Holds-low a n h.start_addr h.end_addr h.chunks v.chain at in
    let (k, e, r) =
      free_chunk-Released h.start_addr h.end_addr a n h.chunks (omega (arith, v.room, v.top))
        v.chain v.merged at in
    let nz : (a + header == null) ≡ false = ne→== (a + header) null (omega arith) in
    let back : sub32 (a + header) header ≡ a = omega (arith, bound.1, v.room, v.top) in
    (
      record h { chunks = k },
      rw (nz, back, e) refl,
      record {
        valid = record {
          chain = r.chain;
          merged = r.merged;
          room = v.room;
          top = v.top;
          backed = v.backed;
        };
        taken = r.taken;
        bytes_kept = λ q. refl;
        region_kept = (refl, refl);
      },
    )
