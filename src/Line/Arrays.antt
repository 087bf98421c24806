-- ===== src/Line/Arrays.antt =====
-- Texts in arrays of 256 bytes: what the writes of the line discipline do to the text.
use cf_os.Base.{
  ℕ, zero, suc, ◌+◌, ◌-◌, ◌<◌, ◌≡◌, ◌≢◌, refl, ap, sym, ◌∙◌, List, [], ◌∷◌, ◌++◌, arith, length,
  set, take, drop, length-append, length-set, ne→==, append_assoc,
}
use cf_os.Line.{c_string, memcpy, buffer_size}

-- no byte of a text is NUL
abbrev pub NoNul : List ℕ → Type 0
NoNul [] = Unit {0}
NoNul (c ∷ s) = (c ≢ 0) × NoNul s

-- The array holds the text, its NUL and anything behind.
pub record Holds (arr text : List ℕ) : Type 0 where
  pub behind : List ℕ
  pub form : arr ≡ text ++ 0 ∷ behind
  pub no_nul : NoNul text
  pub size : length arr ≡ buffer_size

pub Holds-length : (arr text : List ℕ) → Holds arr text → length text < buffer_size
Holds-length arr text h =
    omega (arith, h.size, ap (λ (x : List ℕ). length x) h.form, length-append text (0 ∷ h.behind))

c_string-append : (text rest : List ℕ) → NoNul text → c_string (text ++ 0 ∷ rest) ≡ text
unfolding c_string
c_string-append [] rest n = refl
c_string-append (c ∷ text) rest n = rw (ne→== c 0 n.0, c_string-append text rest n.1)

pub c_string-Holds : (arr text : List ℕ) → Holds arr text → c_string arr ≡ text
c_string-Holds arr text h = rw h.form (c_string-append text h.behind h.no_nul)

pub NoNul-append : (a b : List ℕ) → NoNul a → NoNul b → NoNul (a ++ b)
NoNul-append [] b m n = n
NoNul-append (c ∷ a) b m n = (m.0, NoNul-append a b m.1 n)

set-append :
    (text rest : List ℕ) (x v : ℕ) → set (text ++ x ∷ rest) (length text) v ≡ text ++ v ∷ rest
set-append [] rest x v = refl
set-append (c ∷ text) rest x v = ap (λ t. c ∷ t) (set-append text rest x v)

pub take-append : (text rest : List ℕ) → take (length text) (text ++ rest) ≡ text
take-append [] rest = refl
take-append (c ∷ text) rest = ap (λ t. c ∷ t) (take-append text rest)

-- `arr[len] = 0` changes nothing where the text ends there.
pub Holds-terminate : (arr text : List ℕ) → Holds arr text → Holds (set arr (length text) 0) text
Holds-terminate arr text h = record {
  behind = h.behind;
  form = ap (λ a. set a (length text) 0) h.form ∙ set-append text h.behind 0 0;
  no_nul = h.no_nul;
  size = length-set arr (length text) 0 ∙ h.size;
}

-- `arr[0] = 0` empties the text.
pub Holds-clear : (arr text : List ℕ) → Holds arr text → Holds (set arr 0 0) []
Holds-clear arr [] h = Holds-terminate arr [] h
Holds-clear arr (c ∷ text) h = record {
  behind = text ++ 0 ∷ h.behind;
  form = ap (λ a. set a 0 0) h.form;
  no_nul = tt;
  size = length-set arr 0 0 ∙ h.size;
}

snoc-cons : (text rest : List ℕ) (c : ℕ) → (text ++ c ∷ []) ++ rest ≡ text ++ c ∷ rest
snoc-cons text rest c = append_assoc text (c ∷ []) rest

length-snoc : (text : List ℕ) (c : ℕ) → length (text ++ c ∷ []) ≡ length text + 1
length-snoc text c = length-append text (c ∷ [])

-- `arr[len] = c; arr[len + 1] = 0` appends a character while there is room.
pub Holds-snoc :
    (arr text : List ℕ) (c : ℕ)
    → Holds arr text
    → c ≢ 0
    → length text < 255
    → Holds (set (set arr (length text) c) (length text + 1) 0) (text ++ c ∷ [])
Holds-snoc arr text c h nz room = go h.behind h.form
  where
    go :
        (behind : List ℕ)
        → arr ≡ text ++ 0 ∷ behind
        → Holds (set (set arr (length text) c) (length text + 1) 0) (text ++ c ∷ [])
    go [] e =
        absurd (omega (arith, h.size, ap (λ (x : List ℕ). length x) e, length-append text (0 ∷ [])))
    go (x ∷ behind) e = record {
      behind = behind;
      form =
          let one : set arr (length text) c ≡ (text ++ c ∷ []) ++ x ∷ behind =
            ap (λ a. set a (length text) c) e
            ∙ set-append text (x ∷ behind) 0 c
            ∙ sym (snoc-cons text (x ∷ behind) c) in
          ap (λ a. set a (length text + 1) 0) one
          ∙ ap (λ n. set ((text ++ c ∷ []) ++ x ∷ behind) n 0) (sym (length-snoc text c))
          ∙ set-append (text ++ c ∷ []) behind x 0;
      no_nul = NoNul-append text (c ∷ []) h.no_nul (nz, tt);
      size =
          length-set (set arr (length text) c) (length text + 1) 0
          ∙ length-set arr (length text) c
          ∙ h.size;
    }

NoNul-left : (a b : List ℕ) → NoNul (a ++ b) → NoNul a
NoNul-left [] b n = tt
NoNul-left (c ∷ a) b n = (n.0, NoNul-left a b n.1)

-- `arr[len - 1] = 0` takes the last character away.
pub Holds-unsnoc :
    (arr text : List ℕ) (c : ℕ) → Holds arr (text ++ c ∷ []) → Holds (set arr (length text) 0) text
Holds-unsnoc arr text c h = record {
  behind = 0 ∷ h.behind;
  form =
      ap (λ a. set a (length text) 0) (h.form ∙ snoc-cons text (0 ∷ h.behind) c)
      ∙ set-append text (0 ∷ h.behind) c 0;
  no_nul = NoNul-left text (c ∷ []) h.no_nul;
  size = length-set arr (length text) 0 ∙ h.size;
}

take-snoc :
    (text rest : List ℕ) (x : ℕ) → take (length text + 1) (text ++ x ∷ rest) ≡ text ++ x ∷ []
take-snoc text rest x =
    ap (λ a. take (length text + 1) a) (sym (snoc-cons text rest x))
    ∙ ap (λ n. take n ((text ++ x ∷ []) ++ rest)) (sym (length-snoc text x))
    ∙ take-append (text ++ x ∷ []) rest

length-drop : (n : ℕ) (xs : List ℕ) → length (drop n xs) ≡ length xs - n
length-drop zero xs = omega arith
length-drop (suc n) [] = omega arith
length-drop (suc n) (x ∷ xs) = omega (arith, length-drop n xs)

-- `memcpy(dst, src, strlen(src) + 1)` copies the text.
pub Holds-memcpy :
    (dst src text : List ℕ)
    → length dst ≡ buffer_size
    → Holds src text
    → Holds (memcpy dst src (length text + 1)) text
Holds-memcpy dst src text size h =
    let copied : take (length text + 1) src ≡ text ++ 0 ∷ [] =
      ap (λ a. take (length text + 1) a) h.form ∙ take-snoc text h.behind 0 in
    let rest = drop (length text + 1) dst in
    let form : memcpy dst src (length text + 1) ≡ text ++ 0 ∷ rest =
      ap (λ a. a ++ rest) copied ∙ snoc-cons text rest 0 in
    record {
      behind = rest;
      form = form;
      no_nul = h.no_nul;
      size =
          ap (λ (x : List ℕ). length x) form
          ∙ omega (
            arith,
            length-append text (0 ∷ rest),
            length-drop (length text + 1) dst,
            Holds-length src text h,
          );
    }

pub take-Holds : (arr text : List ℕ) → Holds arr text → take (length text) arr ≡ text
take-Holds arr text h = ap (λ a. take (length text) a) h.form ∙ take-append text (0 ∷ h.behind)
