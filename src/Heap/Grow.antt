-- ===== src/Heap/Grow.antt =====
-- The heap's well-formedness, and its growth by pages.
use cf_os.Base.{
  ℕ, zero, suc, ◌+◌, ◌*◌, ◌/◌, ◌^◌, ◌≤◌, ◌<◌, ◌≡◌, ◌⊎◌, refl, ap, sym, subst, ◌∙◌, Bool, true,
  false, List, [], ◌∷◌, ◌++◌, arith, ltb, leb, ◌==◌, length, ok, ◌>>=◌, Bool-cases, inl, inr, Run,
}
use cf_os.Base.Errno.{Errno}
use cf_os.Pmm.{Pmm, add32, alloc_frame, reserve_region}
use cf_os.Pmm.Frames.{IsValid, alloc_frame_lem, Took}
use cf_os.Pmm.Scan.{AllUsed}
use cf_os.Base.{if_then, if_else}
use cf_os.Pmm.Region.{reserve_region-Covers}
use cf_os.Heap.{Heap, page_size, memset, grown, map_frame, grow_page, expand_by_pages, is_success}
use cf_os.Heap.Chunks.{Chain, Merged, Chain-raise}

-- The frame allocator is well-formed and, where the heap takes its frames by address, has bits for
-- them all.
pub record Backed (paged : Bool) (max : ℕ) (p : Pmm) : Type 0 where
  pub valid : IsValid p
  pub fits : paged ≡ false → (max + 4095) / page_size ≤ 32 * length p.bitmap

-- The chunks lie apart in the region, no two neighbours are free, and the region lies below its
-- maximum, more than a page below 4 GiB.
pub record IsHeap (h : Heap) : Type 0 where
  pub chain : Chain h.start_addr h.end_addr h.chunks
  pub merged : Merged false h.chunks
  pub room : h.end_addr ≤ h.max_addr
  pub top : h.max_addr + page_size < 2 ^ 32
  pub backed : Backed h.paged h.max_addr h.pmm

-- The heap `h'` is `h` with `k` pages more at its end.
pub record Grew (k : ℕ) (h h' : Heap) : Type 0 where
  pub valid : IsHeap h'
  pub chunks_kept : h'.chunks ≡ h.chunks
  pub start_kept : h'.start_addr ≡ h.start_addr
  pub max_kept : h'.max_addr ≡ h.max_addr
  pub end_at : h'.end_addr ≡ h.end_addr + k * page_size
  pub bytes_kept : (q : ℕ) → q < h.end_addr → h'.memory q ≡ h.memory q

Grew-refl : (h : Heap) → IsHeap h → Grew 0 h h
Grew-refl h v = record {
  valid = v;
  chunks_kept = refl;
  start_kept = refl;
  max_kept = refl;
  end_at = omega arith;
  bytes_kept = λ q lt. refl;
}

Grew-trans : (k l : ℕ) (h h' h'' : Heap) → Grew k h h' → Grew l h' h'' → Grew (k + l) h h''
Grew-trans k l h h' h'' a b = record {
  valid = b.valid;
  chunks_kept = b.chunks_kept ∙ a.chunks_kept;
  start_kept = b.start_kept ∙ a.start_kept;
  max_kept = b.max_kept ∙ a.max_kept;
  end_at = omega (arith, a.end_at, b.end_at);
  bytes_kept = λ q lt. b.bytes_kept q (omega (arith, a.end_at)) ∙ a.bytes_kept q lt;
}

memset-below : (m : ℕ → ℕ) (p byte n q : ℕ) → q < p → memset m p byte n q ≡ m q
unfolding memset
memset-below m p byte n q lt = let t : leb p q ≡ false = ground arith in rw t refl

-- Only the frame allocator and the list of mappings change before a page is added.
grown-Grew :
    (h : Heap) (p : Pmm) (maps : List (ℕ × ℕ))
    → IsHeap h
    → Backed h.paged h.max_addr p
    → h.end_addr + page_size ≤ h.max_addr
    → Grew 1 h (grown (record h { pmm = p; mapped = maps }))
grown-Grew h p maps v b fits =
    let e : add32 h.end_addr page_size ≡ h.end_addr + page_size = omega (arith, v.top) in
    record {
      valid = record {
        chain = rw e (
            Chain-raise h.start_addr h.end_addr (h.end_addr + page_size) h.chunks (omega arith)
              v.chain);
        merged = v.merged;
        room = rw e fits;
        top = v.top;
        backed = b;
      };
      chunks_kept = refl;
      start_kept = refl;
      max_kept = refl;
      end_at = omega (arith, e);
      bytes_kept = λ q lt. memset-below h.memory h.end_addr 0 page_size q lt;
    }

Backed-paged : (paged : Bool) (max : ℕ) (p : Pmm) → paged ≡ true → IsValid p → Backed paged max p
Backed-paged true max p e v = record { valid = v; fits = λ f. ground arith }
Backed-paged false max p e v = ground arith

-- What a round of the growth is to do: add a page, or find no frame and leave the heap as it was.
abbrev Rounded : Heap → Run (Bool × Heap) → Type 0
Rounded h r =
    (b : Bool) × (h' : Heap) × (r ≡ ok (b, h'))
    × (((b ≡ true) × Grew 1 h h') ⊎ ((b ≡ false) × Grew 0 h h'))

unframed-Grew :
    (h : Heap) (p : Pmm) → IsHeap h → Backed h.paged h.max_addr p → Grew 0 h (record h { pmm = p })
unframed-Grew h p v b = record {
  valid = record { chain = v.chain; merged = v.merged; room = v.room; top = v.top; backed = b };
  chunks_kept = refl;
  start_kept = refl;
  max_kept = refl;
  end_at = omega arith;
  bytes_kept = λ q lt. refl;
}

map_frame-Rounded :
    (h : Heap) (addr : ℕ) (p : Pmm)
    → IsHeap h
    → Backed h.paged h.max_addr p
    → h.end_addr + page_size ≤ h.max_addr
    → Rounded h (map_frame h (addr, p))
unfolding map_frame
map_frame-Rounded h addr p v b fits = elim (Bool-cases (addr == 0)) [
  | inl t ↦ (false, record h { pmm = p }, rw t refl, inr (refl, unframed-Grew h p v b))
  | inr f ↦ (
    true,
    grown (record h { pmm = p; mapped = h.mapped ++ (addr, h.end_addr) ∷ [] }),
    rw f refl,
    inl (refl, grown-Grew h p (h.mapped ++ (addr, h.end_addr) ∷ []) v b fits),
  )
]

kept-IsValid :
    (s : Pmm) (addr : ℕ) (p : Pmm)
    → IsValid s
    → (Took s addr p ⊎ (AllUsed s.bitmap s.total × (addr ≡ 0) × (p ≡ s)))
    → IsValid p
kept-IsValid s addr p v (inl took) = took.turned.valid
kept-IsValid s addr p v (inr (all, z, e)) = subst (λ x. IsValid x) (sym e) v

grow_page-Rounded :
    (h : Heap) → IsHeap h → h.end_addr + page_size ≤ h.max_addr → Rounded h (grow_page h)
unfolding grow_page
grow_page-Rounded h v fits =
    let up : add32 h.end_addr page_size ≡ h.end_addr + page_size = omega (arith, v.top) in
    let by_frame : Run (Bool × Heap) = alloc_frame h.pmm >>= map_frame h in
    let by_region : Run (Bool × Heap) =
      (reserve_region h.end_addr (add32 h.end_addr page_size) h.pmm >>= λ r.
      ok (true, grown (record h { pmm = r.1 }))) in
    elim (Bool-cases h.paged) [
      | inl t ↦
          let (addr, p, e, o) = alloc_frame_lem h.pmm v.backed.valid in
          let b =
            Backed-paged h.paged h.max_addr p t (kept-IsValid h.pmm addr p v.backed.valid o) in
          let start =
            if_then h.paged by_frame by_region t
            ∙ ap (λ (r : Run (ℕ × Pmm)). r >>= map_frame h) e in
          let (b', h', is, grew) = map_frame-Rounded h addr p v b fits in (b', h', start ∙ is, grew)
      | inr f ↦
          let (p, e, c) =
            reserve_region-Covers h.end_addr (h.end_addr + page_size) h.pmm v.backed.valid
              (omega arith) (omega (arith, v.top)) (omega (arith, v.backed.fits f)) in
          let b : Backed h.paged h.max_addr p = record {
            valid = c.valid;
            fits = λ x. omega (arith, v.backed.fits f, c.size_kept);
          } in
          let run : by_region ≡ ok (true, grown (record h { pmm = p })) =
            ap
              (λ (x : ℕ). reserve_region h.end_addr x h.pmm >>= λ r.
                ok (true, grown (record h { pmm = r.1 })))
              up
            ∙ ap (λ (r : Run (Errno × Pmm)). r >>= λ r. ok (true, grown (record h { pmm = r.1 })))
                e in
          (
            true,
            grown (record h { pmm = p }),
            if_else h.paged by_frame by_region f ∙ run,
            inl (refl, grown-Grew h p h.mapped v b fits),
          )
    ]

-- What the growth by `n` pages is to do: it ends, with the pages it added, all of them on success.
pub record Expanded (n : ℕ) (h : Heap) (r : Errno × Heap) : Type 0 where
  pub pages : ℕ
  pub grew : Grew pages h r.1
  pub full : is_success r.0 ≡ true → pages ≡ n

pub expand_by_pages-Expanded :
    (n : ℕ) (h : Heap)
    → IsHeap h
    → (r : Errno × Heap) × (expand_by_pages n h ≡ ok r) × Expanded n h r
unfolding expand_by_pages
expand_by_pages-Expanded zero h v =
    ((Errno.success, h), refl, record { pages = 0; grew = Grew-refl h v; full = λ _. refl })
expand_by_pages-Expanded (suc n) h v =
    let up : add32 h.end_addr page_size ≡ h.end_addr + page_size = omega (arith, v.top, v.room) in
    elim (Bool-cases (ltb h.max_addr (add32 h.end_addr page_size))) [
      | inl t ↦ (
        (Errno.heap_exhausted, h),
        rw t refl,
        record { pages = 0; grew = Grew-refl h v; full = λ e. ground arith },
      )
      | inr f ↦
          let (b, h1, e, o) = grow_page-Rounded h v (ground (arith, up)) in
          elim o [
            | inl (t, g) ↦
                let (r, e', x) = expand_by_pages-Expanded n h1 g.valid in
                (
                  r,
                  rw (f, e, t) e',
                  record {
                    pages = 1 + x.pages;
                    grew = Grew-trans 1 x.pages h h1 r.1 g x.grew;
                    full = λ s. omega (arith, x.full s);
                  },
                )
            | inr (t, g) ↦ (
              (Errno.frame_unavailable, h1),
              rw (f, e, t) refl,
              record { pages = 0; grew = g; full = λ s. ground arith },
            )
          ]
    ]
