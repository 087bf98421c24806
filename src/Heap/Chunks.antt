-- ===== src/Heap/Chunks.antt =====
-- The chunks of the heap: in order and apart, no two free neighbours, and the blocks in use.
use cf_os.Base.{
  ℕ, ◌+◌, ◌≤◌, ◌≡◌, ◌⊎◌, refl, ap, Bool, true, false, List, [], ◌∷◌, ◌++◌, arith, if◌then◌else◌,
  ◌&&◌, Bool-cases, inl, inr,
}
use cf_os.Heap.{Chunk, header}

abbrev pub stop : Chunk → ℕ
stop c = c.address + header + c.size

-- The chunks lie between `lo` and `hi`, in the order of the list and apart.
unfoldable pub Chain : ℕ → ℕ → List Chunk → Type 0
Chain lo hi [] = lo ≤ hi
Chain lo hi (c ∷ l) = (lo ≤ c.address) × Chain (stop c) hi l

-- No two neighbours are free, where `f` tells whether the chunk before the list is.
unfoldable pub Merged : Bool → List Chunk → Type 0
Merged f [] = Unit
Merged f (c ∷ l) = ((f && c.free) ≡ false) × Merged c.free l

-- The blocks that the chunks in use give to their owners: address and size.
unfoldable pub blocks : List Chunk → List (ℕ × ℕ)
blocks [] = []
blocks (c ∷ l) = if c.free then blocks l else (c.address + header, c.size) ∷ blocks l

-- A chunk in use stands at `a` with size `n`.
unfoldable pub Holds : ℕ → ℕ → List Chunk → Type 0
Holds a n [] = ⊥
Holds a n (c ∷ l) = ((c.address ≡ a) × (c.size ≡ n) × (c.free ≡ false)) ⊎ Holds a n l

-- `bs'` is `bs` with the block `b` at some place.
pub record Inserted (b : ℕ × ℕ) (bs bs' : List (ℕ × ℕ)) : Type 0 where
  pub before : List (ℕ × ℕ)
  pub behind : List (ℕ × ℕ)
  pub was : bs ≡ before ++ behind
  pub now : bs' ≡ before ++ b ∷ behind

Inserted-cons :
    (b x : ℕ × ℕ) (bs bs' : List (ℕ × ℕ)) → Inserted b bs bs' → Inserted b (x ∷ bs) (x ∷ bs')
Inserted-cons b x bs bs' i = record {
  before = x ∷ i.before;
  behind = i.behind;
  was = ap (λ l. x ∷ l) i.was;
  now = ap (λ l. x ∷ l) i.now;
}

-- the same chunk in front of both
pub blocks-Inserted :
    (b : ℕ × ℕ) (c : Chunk) (l l' : List Chunk)
    → Inserted b (blocks l) (blocks l')
    → Inserted b (blocks (c ∷ l)) (blocks (c ∷ l'))
unfolding blocks
blocks-Inserted b c l l' i = elim (Bool-cases c.free) [
  | inl t ↦ rw t i
  | inr f ↦ rw f (Inserted-cons b (c.address + header, c.size) (blocks l) (blocks l') i)
]

pub Chain-le : (lo hi : ℕ) (l : List Chunk) → Chain lo hi l → lo ≤ hi
unfolding Chain
Chain-le lo hi [] h = h
Chain-le lo hi (c ∷ l) h = omega (arith, h.0, Chain-le (stop c) hi l h.1)

pub Chain-lower : (lo lo' hi : ℕ) (l : List Chunk) → lo' ≤ lo → Chain lo hi l → Chain lo' hi l
unfolding Chain
Chain-lower lo lo' hi [] le h = omega arith
Chain-lower lo lo' hi (c ∷ l) le h = (omega (arith, h.0), h.1)

pub Chain-raise : (lo hi hi' : ℕ) (l : List Chunk) → hi ≤ hi' → Chain lo hi l → Chain lo hi' l
unfolding Chain
Chain-raise lo hi hi' [] le h = omega arith
Chain-raise lo hi hi' (c ∷ l) le h = (h.0, Chain-raise (stop c) hi hi' l le h.1)

-- A chunk at the end.
pub Chain-snoc :
    (lo hi hi' : ℕ) (l : List Chunk) (c : Chunk)
    → Chain lo hi l
    → hi ≤ c.address
    → stop c ≤ hi'
    → Chain lo hi' (l ++ c ∷ [])
unfolding Chain
Chain-snoc lo hi hi' [] c h le end = (omega arith, end)
Chain-snoc lo hi hi' (d ∷ l) c h le end = (h.0, Chain-snoc (stop d) hi hi' l c h.1 le end)

pub Merged-snoc :
    (f : Bool) (l : List Chunk) (c : Chunk) → c.free ≡ false → Merged f l → Merged f (l ++ c ∷ [])
unfolding Merged
Merged-snoc true [] c e m = (e, tt)
Merged-snoc false [] c e m = (refl, tt)
Merged-snoc f (d ∷ l) c e m = (m.0, Merged-snoc d.free l c e m.1)

pub snoc-Inserted :
    (l : List Chunk) (c : Chunk)
    → c.free ≡ false
    → Inserted (c.address + header, c.size) (blocks l) (blocks (l ++ c ∷ []))
unfolding blocks
snoc-Inserted [] c e = rw e (record { before = []; behind = []; was = refl; now = refl })
snoc-Inserted (d ∷ l) c e =
    blocks-Inserted (c.address + header, c.size) d l (l ++ c ∷ []) (snoc-Inserted l c e)

pub Holds-snoc :
    (l : List Chunk) (c : Chunk) → c.free ≡ false → Holds c.address c.size (l ++ c ∷ [])
unfolding Holds
Holds-snoc [] c e = inl (refl, refl, e)
Holds-snoc (d ∷ l) c e = inr (Holds-snoc l c e)

pub Holds_append : (a n : ℕ) (l k : List Chunk) → Holds a n l → Holds a n (l ++ k)
unfolding Holds
Holds_append a n [] k x = elim x [ ]
Holds_append a n (d ∷ l) k (inl at) = inl at
Holds_append a n (d ∷ l) k (inr rest) = inr (Holds_append a n l k rest)

pub Holds-low :
    (a n lo hi : ℕ) (l : List Chunk)
    → Chain lo hi l
    → Holds a n l
    → (lo ≤ a) × (a + header + n ≤ hi)
unfolding Chain Holds
Holds-low a n lo hi [] h x = elim x [ ]
Holds-low a n lo hi (c ∷ l) h (inl at) =
    (omega (arith, h.0, at.0), omega (arith, at.0, at.1, Chain-le (stop c) hi l h.1))
Holds-low a n lo hi (c ∷ l) h (inr rest) =
    let r = Holds-low a n (stop c) hi l h.1 rest in (omega (arith, h.0, r.0), r.1)
