-- ===== src/Heap.antt =====
-- The kernel's heap (src/kernel/mm/heap.c). The chunks are listed in the order of their links, with
-- their headers; a pointer to a header that is not in the list is a `fault`. `memory` holds the bytes
-- outside the headers. Frames come from the frame allocator (Pmm), and what `vmm_map_page` is asked for
-- is a list of frames and addresses. A header that is written behind the end of the heap, where the
-- number of pages wraps, stands in the list all the same and is no `fault`.
pub mod Chunks
pub mod Merge
pub mod Grow
pub mod Calls
pub mod Moves
pub mod Session
pub mod Wrap
pub mod Aligned
mod Examples
use cf_os.Base.{
  ℕ, zero, suc, ◌+◌, ◌-◌, ◌*◌, ◌/◌, ◌%◌, ◌^◌, Bool, true, false, not, ◌&&◌, ◌||◌, Option, none,
  some, List, [], ◌∷◌, ◌++◌, ◌==◌, ltb, leb, if◌then◌else◌, Run, ok, fault, ◌>>=◌,
}
use Prim.Native.Nat.{bit_and}
use cf_os.Base.Errno
use cf_os.Base.Errno.{Errno}
use cf_os.Pmm.{Pmm, add32, align_up, alloc_frame, reserve_region}

abbrev pub null : ℕ
null = 0

abbrev pub page_size : ℕ
page_size = 4096

-- `sizeof(heap_chunk_t)`: four fields of 32 bits
abbrev pub header : ℕ
header = 16

-- `heap_chunk_t`, with its address in place of its links
pub record Chunk : Type 0 where
  pub address : ℕ
  pub size : ℕ
  pub free : Bool

pub record Heap : Type 0 where
  pub chunks : List Chunk
  pub start_addr : ℕ
  pub end_addr : ℕ
  pub max_addr : ℕ
  -- `heap_pd` is not NULL
  pub paged : Bool
  pub memory : ℕ → ℕ
  pub mapped : List (ℕ × ℕ)
  pub pmm : Pmm

abbrev pub sub32 : ℕ → ℕ → ℕ
sub32 a b = (a + 2 ^ 32 - b) % 2 ^ 32

-- `memset` and `memcpy`, of regions that do not overlap
pub memset : (ℕ → ℕ) → ℕ → ℕ → ℕ → ℕ → ℕ
memset m p byte n q = if leb p q && ltb q (p + n) then byte else m q

pub memcpy : (ℕ → ℕ) → ℕ → ℕ → ℕ → ℕ → ℕ
memcpy m to from n q = if leb to q && ltb q (to + n) then m (from + (q - to)) else m q

-- the end of a round of `expand_heap_by_pages`
abbrev pub grown : Heap → Heap
grown h = record h {
  memory = memset h.memory h.end_addr 0 page_size;
  end_addr = add32 h.end_addr page_size;
}

-- the page under the new end is mapped to a frame
pub map_frame : Heap → ℕ × Pmm → Run (Bool × Heap)
map_frame h (frame, p) =
    if frame == 0
    then ok (false, record h { pmm = p })
    else ok (true, grown (record h { pmm = p; mapped = h.mapped ++ (frame, h.end_addr) ∷ [] }))

-- one round up to its end
pub grow_page : Heap → Run (Bool × Heap)
grow_page h =
    if h.paged
    then alloc_frame h.pmm >>= map_frame h
    else (reserve_region h.end_addr (add32 h.end_addr page_size) h.pmm >>= λ r.
        ok (true, grown (record h { pmm = r.1 })))

pub expand_by_pages : ℕ → Heap → Run (Errno × Heap)
expand_by_pages zero h = ok (Errno.success, h)
expand_by_pages (suc n) h =
    if ltb h.max_addr (add32 h.end_addr page_size)
    then ok (Errno.heap_exhausted, h)
    else (grow_page h >>= λ r.
        if r.0 then expand_by_pages n r.1 else ok (Errno.frame_unavailable, r.1))

pub init : ℕ → ℕ → Bool → Heap → Heap
init start max paged h = record h {
  chunks = [];
  start_addr = start;
  end_addr = start;
  max_addr = max;
  paged = paged;
}

pub find_free_chunk : List Chunk → ℕ → Option Chunk
find_free_chunk [] size = none
find_free_chunk (c ∷ l) size = if c.free && leb size c.size then some c else find_free_chunk l size

abbrev pub needed_pages : ℕ → ℕ
needed_pages size = add32 (add32 size header) (page_size - 1) / page_size

abbrev pub is_success : Errno → Bool
is_success Errno.success = true
is_success _ = false

pub request_space : ℕ → Heap → Run (Option Chunk × Heap)
request_space size h = expand_by_pages (needed_pages size) h >>= λ r.
    let h' = r.1 in
    let chunk : Chunk = record {
      address = sub32 h'.end_addr (needed_pages size * page_size);
      size = size;
      free = false;
    } in
    if is_success r.0
    then ok (some chunk, record h' { chunks = h'.chunks ++ chunk ∷ [] })
    else ok (none, h')

-- `chunk->free = 0`
pub claim : ℕ → List Chunk → List Chunk
claim a [] = []
claim a (c ∷ l) = if c.address == a then record c { free = false } ∷ l else c ∷ claim a l

-- the address of a chunk's payload
abbrev pub payload : Chunk → ℕ
payload c = add32 c.address header

pub malloc : ℕ → Heap → Run (ℕ × Heap)
malloc size h = if size == 0 then ok (null, h) else (elim (find_free_chunk h.chunks size) [
  | some c ↦ ok (payload c, record h { chunks = claim c.address h.chunks })
  | none ↦ request_space size h >>= λ r. ok ((elim r.0 [ none ↦ null | some c ↦ payload c ]), r.1)
])

-- the two merges of `free`: of a chunk with the one after it, and of the one before it with the chunk
pub merge : Chunk → Chunk → Chunk
merge c d = record c { size = add32 c.size (add32 header d.size) }

pub merge_next : Chunk → List Chunk → List Chunk
merge_next c [] = c ∷ []
merge_next c (d ∷ l) = if d.free then merge c d ∷ l else c ∷ d ∷ l

pub merge_prev : Chunk → List Chunk → List Chunk
merge_prev p [] = p ∷ []
merge_prev p (c ∷ l) = if p.free then merge p c ∷ l else p ∷ c ∷ l

abbrev pub freed : Chunk → Chunk
freed c = record c { free = true }

-- `p` stands before the chunks that are looked through
pub free_after : Chunk → ℕ → List Chunk → Option (List Chunk)
free_after p a [] = none
free_after p a (c ∷ l) =
    let rest = free_after c a l in
    if c.address == a
    then some (merge_prev p (merge_next (freed c) l))
    else (elim rest [ none ↦ none | some l' ↦ some (p ∷ l') ])

pub free_chunk : ℕ → List Chunk → Option (List Chunk)
free_chunk a [] = none
free_chunk a (c ∷ l) = if c.address == a then some (merge_next (freed c) l) else free_after c a l

pub free : ℕ → Heap → Run Heap
free ptr h = if ptr == null then ok h else (elim (free_chunk (sub32 ptr header) h.chunks) [
  | none ↦ fault
  | some l ↦ ok (record h { chunks = l })
])

pub chunk_at : ℕ → List Chunk → Option Chunk
chunk_at a [] = none
chunk_at a (c ∷ l) = if c.address == a then some c else chunk_at a l

pub usable_size : ℕ → Heap → Run ℕ
usable_size ptr h =
    if ptr == null
    then ok 0
    else (elim (chunk_at (sub32 ptr header) h.chunks) [ none ↦ fault | some c ↦ ok c.size ])

-- the end of `calloc`, with the pointer that `malloc` gave
pub clear_block : ℕ → ℕ × Heap → Run (ℕ × Heap)
clear_block total (ptr, h) =
    if ptr == null then ok (ptr, h) else ok (ptr, record h { memory = memset h.memory ptr 0 total })

pub calloc : ℕ → ℕ → Heap → Run (ℕ × Heap)
calloc nmemb size h =
    if nmemb == 0 || size == 0
    then ok (null, h)
    else if ltb ((2 ^ 32 - 1) / size) nmemb
    then ok (null, h)
    else malloc (nmemb * size % 2 ^ 32) h >>= clear_block (nmemb * size % 2 ^ 32)

-- the end of `realloc`, with the pointer that `malloc` gave
pub move_block : ℕ → ℕ → ℕ × Heap → Run (ℕ × Heap)
move_block ptr old_size (new_ptr, h) =
    if new_ptr == null
    then ok (null, h)
    else (free ptr (record h { memory = memcpy h.memory new_ptr ptr old_size }) >>= λ h'.
        ok (new_ptr, h'))

pub realloc : ℕ → ℕ → Heap → Run (ℕ × Heap)
realloc ptr new_size h =
    if ptr == null
    then malloc new_size h
    else if new_size == 0
    then (free ptr h >>= λ h'. ok (null, h'))
    else (usable_size ptr h >>= λ old_size.
        if leb new_size old_size
        then ok (ptr, h)
        else malloc new_size h >>= move_block ptr old_size)

-- `void **` cells: four bytes, the lowest first
pub store_word : (ℕ → ℕ) → ℕ → ℕ → ℕ → ℕ
store_word m a v q = if leb a q && ltb q (a + 4) then v / 256 ^ (q - a) % 256 else m q

pub load_word : (ℕ → ℕ) → ℕ → ℕ
load_word m a = m a + 256 * m (a + 1) + 65536 * m (a + 2) + 16777216 * m (a + 3)

-- the end of `malloc_align`, with the pointer that `malloc` gave
pub align_block : ℕ → ℕ × Heap → Run (ℕ × Heap)
align_block align (raw, h) =
    let aligned = align_up (add32 raw 4) align in
    if raw == null
    then ok (null, h)
    else ok (aligned, record h { memory = store_word h.memory (sub32 aligned 4) raw })

pub malloc_align : ℕ → ℕ → Heap → Run (ℕ × Heap)
malloc_align size align h =
    if align == 0 || not (bit_and align (align - 1) == 0)
    then ok (null, h)
    else malloc (add32 (sub32 (add32 size align) 1) 4) h >>= align_block align

pub free_align : ℕ → Heap → Run (Errno × Heap)
free_align ptr h =
    if ptr == null
    then ok (Errno.invalid_argument, h)
    else (free (load_word h.memory (sub32 ptr 4)) h >>= λ h'. ok (Errno.success, h'))
