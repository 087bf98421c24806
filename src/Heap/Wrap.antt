-- ===== src/Heap/Wrap.antt =====
-- Sizes near 4 GiB, whose number of pages wraps. The new header itself then stands behind the end.
use cf_os.Base.{
  ℕ, ◌+◌, ◌*◌, ◌%◌, ◌^◌, ◌≤◌, ◌<◌, ◌≡◌, refl, false, none, [], ◌∷◌, ◌++◌, arith, ◌==◌, ok, ne→==,
}
use cf_os.Heap.{
  Heap, header, page_size, sub32, malloc, needed_pages, request_space, find_free_chunk,
  expand_by_pages,
}
use cf_os.Heap.Grow.{IsHeap}

-- On a well-formed heap without a free chunk of the size, a size within a page of 4 GiB with its
-- header makes `malloc` ask for no page at all and give out a block behind the end of the heap.
pub malloc-wraps :
    (size : ℕ) (h : Heap)
    → IsHeap h
    → size + header < 2 ^ 32
    → 2 ^ 32 ≤ size + header + 4095
    → find_free_chunk h.chunks size ≡ none
    → malloc size h
      ≡ ok (
        h.end_addr + header,
        record h {
          chunks = h.chunks ++ (record { address = h.end_addr; size = size; free = false }) ∷ [];
        },
      )
unfolding malloc request_space expand_by_pages
malloc-wraps size h v small big e =
    let nz : (size == 0) ≡ false = ne→== size 0 (omega arith) in
    let pages : needed_pages size ≡ 0 = omega arith in
    let place : sub32 h.end_addr (0 * page_size) ≡ h.end_addr = omega (arith, v.room, v.top) in
    let pointer : (h.end_addr + header) % 2 ^ 32 ≡ h.end_addr + header =
      omega (arith, v.room, v.top) in
    rw (nz, e, pages, place, pointer) refl
