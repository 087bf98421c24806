-- ===== src/Heap/Merge.antt =====
-- The search for a free chunk, and `free` with its merges, on the chunks.
use cf_os.Base.{
  ℕ, ◌+◌, ◌^◌, ◌≤◌, ◌<◌, ◌≡◌, ◌≢◌, ◌⊎◌, refl, ap, sym, subst, ◌∙◌, Bool, true, false, some, none,
  List, [], ◌∷◌, arith, leb, ◌==◌, ne→==, ==_refl, ◌&&◌, Bool-cases, inl, inr,
}
use cf_os.Base.{if_then, if_else}
use cf_os.Pmm.{add32}
use cf_os.Heap.{
  Chunk, header, merge, merge_next, merge_prev, freed, free_after, free_chunk, claim,
  find_free_chunk,
}
use cf_os.Heap.Chunks.{
  Chain, Merged, blocks, Holds, Inserted, stop, blocks-Inserted, Chain-le, Chain-lower, Holds-low,
}

-- What is to hold of the chunk that the search finds, and of the chunks once it is claimed.
pub record Claimed (lo hi size : ℕ) (f : Bool) (l : List Chunk) (c : Chunk) : Type 0 where
  pub low : lo ≤ c.address
  pub big : size ≤ c.size
  pub put : Inserted (c.address + header, c.size) (blocks l) (blocks (claim c.address l))
  pub chain : Chain lo hi (claim c.address l)
  pub merged : Merged f (claim c.address l)
  pub there : Holds c.address c.size (claim c.address l)
  pub kept : (b m : ℕ) → Holds b m l → Holds b m (claim c.address l)
  pub apart :
      (b m : ℕ) → Holds b m l → (b + header + m ≤ c.address) ⊎ (c.address + header + c.size ≤ b)

free_test : (b : Bool) → (f : Bool) → b ≡ false → (f && b) ≡ false
free_test b true e = e
free_test b false e = refl

true-ne : true ≢ false
true-ne e = ground arith

head-Claimed :
    (lo hi size : ℕ) (f : Bool) (c : Chunk) (l : List Chunk)
    → Chain lo hi (c ∷ l)
    → Merged f (c ∷ l)
    → c.free ≡ true
    → size ≤ c.size
    → Claimed lo hi size f (c ∷ l) c
unfolding Chain Merged blocks claim Holds
head-Claimed lo hi size f c l h m e big = record {
  low = h.0;
  big = big;
  put =
      rw (==_refl c.address, e) (record { before = []; behind = blocks l; was = refl; now = refl });
  chain = rw (==_refl c.address) h;
  merged = rw (==_refl c.address) (free_test false f refl, loosened c.free l m.1);
  there = rw (==_refl c.address) (inl (refl, refl, refl));
  kept = λ b n at. rw (==_refl c.address) (inr (behind b n at));
  apart = λ b n at. inr (Holds-low b n (stop c) hi l h.1 (behind b n at)).0;
}
  where
    loosened : (b : Bool) (k : List Chunk) → Merged b k → Merged false k
    loosened b [] m' = tt
    loosened b (d ∷ k) m' = (refl, m'.1)

    behind : (b n : ℕ) → Holds b n (c ∷ l) → Holds b n l
    behind b n (inl at) = absurd (true-ne (sym e ∙ at.2))
    behind b n (inr rest) = rest

cons-Claimed :
    (lo hi size : ℕ) (f : Bool) (d : Chunk) (l : List Chunk) (c : Chunk)
    → lo ≤ d.address
    → (f && d.free) ≡ false
    → Claimed (stop d) hi size d.free l c
    → Claimed lo hi size f (d ∷ l) c
unfolding Chain Merged claim Holds
cons-Claimed lo hi size f d l c le m r =
    let other : (d.address == c.address) ≡ false = ne→== _ _ (λ e. omega (arith, r.low, e)) in
    record {
      low = omega (arith, r.low);
      big = r.big;
      put = rw other (blocks-Inserted (c.address + header, c.size) d l (claim c.address l) r.put);
      chain = rw other (le, r.chain);
      merged = rw other (m, r.merged);
      there = rw other (inr r.there);
      kept = rw other kept';
      apart = apart';
    }
  where
    kept' : (b n : ℕ) → Holds b n (d ∷ l) → Holds b n (d ∷ claim c.address l)
    kept' b n (inl at) = inl at
    kept' b n (inr rest) = inr (r.kept b n rest)

    apart' :
        (b n : ℕ)
        → Holds b n (d ∷ l)
        → (b + header + n ≤ c.address) ⊎ (c.address + header + c.size ≤ b)
    apart' b n (inl at) = inl (omega (arith, r.low, at.0, at.1))
    apart' b n (inr rest) = r.apart b n rest

some-inj : (a b : Chunk) → some a ≡ some b → a ≡ b
some-inj a b e = ap (λ o. elim o as (λ _. Chunk) [ none ↦ a | some x ↦ x ]) e

and-left : (a b : Bool) → (a && b) ≡ true → a ≡ true
and-left true b e = refl
and-left false b e = e

and-right : (a b : Bool) → (a && b) ≡ true → b ≡ true
and-right true b e = e
and-right false b e = ground arith

pub find_free_chunk-Claimed :
    (lo hi size : ℕ) (f : Bool) (l : List Chunk) (c : Chunk)
    → Chain lo hi l
    → Merged f l
    → find_free_chunk l size ≡ some c
    → Claimed lo hi size f l c
unfolding Chain Merged find_free_chunk
find_free_chunk-Claimed lo hi size f [] c h m e = ground arith
find_free_chunk-Claimed lo hi size f (d ∷ l) c h m e =
    let later = cons-Claimed lo hi size f d l c h.0 m.0 in
    let next = find_free_chunk-Claimed (stop d) hi size d.free l c h.1 m.1 in
    let test = d.free && leb size d.size in
    let go_on = find_free_chunk l size in
    elim (Bool-cases test) [
      | inl t ↦
          subst (λ x. Claimed lo hi size f (d ∷ l) x)
            (some-inj d c (sym (if_then test (some d) go_on t) ∙ e))
            (head-Claimed lo hi size f d l h m (and-left d.free (leb size d.size) t)
              (ground (arith, and-right d.free (leb size d.size) t)))
      | inr t ↦ later (next (sym (if_else test (some d) go_on t) ∙ e))
    ]

-- What the first merge of `free` is to leave: a free chunk where `c` stood, before `rest`.
record Joined (c : Chunk) (hi : ℕ) (l k : List Chunk) : Type 0 where
  pub front : Chunk
  pub rest : List Chunk
  pub is : k ≡ front ∷ rest
  pub place : front.address ≡ c.address
  pub is_free : front.free ≡ true
  pub chain : Chain (stop front) hi rest
  pub same : blocks rest ≡ blocks l
  pub merged : Merged true rest

merge_next-Joined :
    (lo hi : ℕ) (c : Chunk) (l : List Chunk)
    → hi < 2 ^ 32
    → Chain lo hi (c ∷ l)
    → Merged false l
    → Joined c hi l (merge_next (freed c) l)
unfolding Chain Merged blocks merge_next merge
merge_next-Joined lo hi c [] small h m = record {
  front = freed c;
  rest = [];
  is = refl;
  place = refl;
  is_free = refl;
  chain = h.1;
  same = refl;
  merged = tt;
}
merge_next-Joined lo hi c (d ∷ k) small h m = elim (Bool-cases d.free) [
  | inl t ↦
      let end = Chain-le (stop d) hi k h.1.1 in
      let size : add32 c.size (add32 header d.size) ≡ c.size + header + d.size = omega arith in
      record {
        front = merge (freed c) d;
        rest = k;
        is = rw t refl;
        place = refl;
        is_free = refl;
        chain =
            Chain-lower (stop d) (stop (merge (freed c) d)) hi k (omega (arith, h.1.0, size)) h.1.1;
        same = rw t refl;
        merged = rw t at m.1;
      }
  | inr f ↦ record {
    front = freed c;
    rest = d ∷ k;
    is = rw f refl;
    place = refl;
    is_free = refl;
    chain = h.1;
    same = refl;
    merged = (rw f refl, m.1);
  }
]

-- What is to hold of the chunks `k` that `free` of the block leaves of `l`.
pub record Released (lo hi : ℕ) (f : Bool) (a n : ℕ) (l k : List Chunk) : Type 0 where
  pub chain : Chain lo hi k
  pub merged : Merged f k
  pub taken : Inserted (a + header, n) (blocks k) (blocks l)

module _ (lo hi : ℕ) (f : Bool) (c : Chunk) (r : List Chunk) (h : Chain lo hi (c ∷ r))
    (used : c.free ≡ false) (k : List Chunk) (j : Joined c hi r k) where
  front-blocks : blocks (j.front ∷ j.rest) ≡ blocks r
  unfolding blocks
  front-blocks = rw j.is_free j.same

  used-blocks : blocks (c ∷ r) ≡ (c.address + header, c.size) ∷ blocks r
  unfolding blocks
  used-blocks = rw used refl

  alone-Released : f ≡ false → Released lo hi f c.address c.size (c ∷ r) k
  unfolding Chain Merged
  alone-Released e = record {
    chain = rw j.is (omega (arith, h.0, j.place), j.chain);
    merged = rw (j.is, e) (refl, subst (λ b. Merged b j.rest) (sym j.is_free) j.merged);
    taken =
        rw j.is (record { before = []; behind = blocks r; was = front-blocks; now = used-blocks });
  }

  module _ (lo' : ℕ) (g : Bool) (p : Chunk) (small : hi < 2 ^ 32) (h' : Chain lo' hi (p ∷ c ∷ r))
      (m : (g && p.free) ≡ false) where
    into_prev :
        p.free ≡ true → Released lo' hi g c.address c.size (p ∷ c ∷ r) (merge p j.front ∷ j.rest)
    unfolding Chain Merged blocks merge
    into_prev e =
        let end = Chain-le (stop j.front) hi j.rest j.chain in
        let size : add32 p.size (add32 header j.front.size) ≡ p.size + header + j.front.size =
          omega (arith, h'.1.0, j.place) in
        record {
          chain = (
            h'.0,
            Chain-lower (stop j.front) (stop (merge p j.front)) hi j.rest
                (omega (arith, h'.1.0, j.place, size)) j.chain,
          );
          merged = (m, subst (λ b. Merged b j.rest) (sym e) j.merged);
          taken = record {
            before = [];
            behind = blocks r;
            was = rw e j.same;
            now = rw e used-blocks;
          };
        }

    beside_prev :
        p.free ≡ false → Released lo' hi g c.address c.size (p ∷ c ∷ r) (p ∷ j.front ∷ j.rest)
    unfolding Chain Merged
    beside_prev e = record {
      chain = (h'.0, (omega (arith, h'.1.0, j.place), j.chain));
      merged = (m, (rw e refl, subst (λ b. Merged b j.rest) (sym j.is_free) j.merged));
      taken =
          blocks-Inserted (c.address + header, c.size) p (j.front ∷ j.rest) (c ∷ r)
            (record { before = []; behind = blocks r; was = front-blocks; now = used-blocks });
    }

    merge_prev-Released : Released lo' hi g c.address c.size (p ∷ c ∷ r) (merge_prev p k)
    unfolding merge_prev
    merge_prev-Released = rw j.is (elim (Bool-cases p.free) [
      | inl t ↦
          subst (λ x. Released lo' hi g c.address c.size (p ∷ c ∷ r) x)
            (sym (if_then p.free (merge p j.front ∷ j.rest) (p ∷ j.front ∷ j.rest) t)) (into_prev t)
      | inr t ↦
          subst (λ x. Released lo' hi g c.address c.size (p ∷ c ∷ r) x)
            (sym (if_else p.free (merge p j.front ∷ j.rest) (p ∷ j.front ∷ j.rest) t))
            (beside_prev t)
    ])

cons-Released :
    (lo hi a n : ℕ) (f : Bool) (p : Chunk) (l k : List Chunk)
    → lo ≤ p.address
    → (f && p.free) ≡ false
    → Released (stop p) hi p.free a n l k
    → Released lo hi f a n (p ∷ l) (p ∷ k)
unfolding Chain Merged
cons-Released lo hi a n f p l k le m r = record {
  chain = (le, r.chain);
  merged = (m, r.merged);
  taken = blocks-Inserted (a + header, n) p k l r.taken;
}

free_after-Released :
    (lo hi a n : ℕ) (f : Bool) (p : Chunk) (l : List Chunk)
    → hi < 2 ^ 32
    → Chain lo hi (p ∷ l)
    → Merged f (p ∷ l)
    → Holds a n l
    → (k : List Chunk) × (free_after p a l ≡ some k) × Released lo hi f a n (p ∷ l) k
unfolding Chain Merged Holds free_after
free_after-Released lo hi a n f p [] small h m x = elim x [ ]
free_after-Released lo hi a n f p (c ∷ r) small h m (inl at) =
    let j = merge_next-Joined (stop p) hi c r small h.1 (subst (λ b. Merged b r) at.2 m.1.1) in
    let k = merge_next (freed c) r in
    let here : (c.address == a) ≡ true = rw at.0 (==_refl a) in
    let done = merge_prev-Released (stop p) hi p.free c r h.1 at.2 k j lo f p small h m.0 in
    (
      merge_prev p k,
      rw here refl,
      subst (λ x. Released lo hi f x n (p ∷ c ∷ r) (merge_prev p k)) at.0
          (subst (λ x. Released lo hi f c.address x (p ∷ c ∷ r) (merge_prev p k)) at.1 done),
    )
free_after-Released lo hi a n f p (c ∷ r) small h m (inr rest) =
    let below = Holds-low a n (stop c) hi r h.1.1 rest in
    let other : (c.address == a) ≡ false = ne→== c.address a (λ e. omega (arith, below.0, e)) in
    let (k, e, done) = free_after-Released (stop p) hi a n p.free c r small h.1 m.1 rest in
    (p ∷ k, rw (other, e) refl, cons-Released lo hi a n f p (c ∷ r) k h.0 m.0 done)

-- `free` of a block in use finds its chunk and releases that block alone.
pub free_chunk-Released :
    (lo hi a n : ℕ) (l : List Chunk)
    → hi < 2 ^ 32
    → Chain lo hi l
    → Merged false l
    → Holds a n l
    → (k : List Chunk) × (free_chunk a l ≡ some k) × Released lo hi false a n l k
unfolding Chain Merged Holds free_chunk
free_chunk-Released lo hi a n [] small h m x = elim x [ ]
free_chunk-Released lo hi a n (c ∷ r) small h m (inl at) =
    let j = merge_next-Joined lo hi c r small h (subst (λ b. Merged b r) at.2 m.1) in
    let k = merge_next (freed c) r in
    let here : (c.address == a) ≡ true = rw at.0 (==_refl a) in
    let done = alone-Released lo hi false c r h at.2 k j refl in
    (
      k,
      rw here refl,
      subst (λ x. Released lo hi false x n (c ∷ r) k) at.0
          (subst (λ x. Released lo hi false c.address x (c ∷ r) k) at.1 done),
    )
free_chunk-Released lo hi a n (c ∷ r) small h m (inr rest) =
    let below = Holds-low a n (stop c) hi r h.1 rest in
    let other : (c.address == a) ≡ false = ne→== c.address a (λ e. omega (arith, below.0, e)) in
    let (k, e, done) = free_after-Released lo hi a n false c r small h m rest in
    (k, rw (other, e) refl, done)
