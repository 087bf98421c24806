-- ===== src/Ipc/Registry.antt =====
-- The service registry: registering, looking up and unregistering names, also those of 32 bytes and
-- more, which `ipc_copy_name` cuts.
use cf_os.Base.{
  ℕ, zero, suc, ◌+◌, ◌≤◌, ◌<◌, ◌≡◌, ◌≢◌, refl, ap, sym, subst, ◌∙◌, Bool, true, false, Option, some,
  none, List, [], ◌∷◌, ◌++◌, arith, length, take, ok, fault, if◌then◌else◌, lt→ltb, le→ltb, ne→==,
  ==_refl, Bool-cases, inl, inr,
}
use cf_os.Ipc.{
  Name, Port, Service, Ipc, null, name_max, ipc_ok, ipc_eexist, ipc_enoent, update, with_port,
  on_registry, copy_name, copy_name_loop, same_name, find_in, find_service, register_service,
  unregister_service, lookup_service, drop_name,
}

pub same_name_refl : (a : Name) → same_name a a ≡ true
unfolding same_name
same_name_refl [] = refl
same_name_refl (c ∷ a) = rw (==_refl c, same_name_refl a)

pub eq_of_same_name : (a b : Name) → same_name a b ≡ true → a ≡ b
unfolding same_name
eq_of_same_name [] [] h = refl
eq_of_same_name [] (d ∷ b) h = absurd (cc)
eq_of_same_name (c ∷ a) [] h = absurd (cc)
eq_of_same_name (c ∷ a) (d ∷ b) h = ground (arith, eq_of_same_name a b)

pub same_name_ne : (a b : Name) → a ≢ b → same_name a b ≡ false
same_name_ne a b ne = elim (Bool-cases (same_name a b)) [
  | inl same ↦ absurd (ne (eq_of_same_name a b same))
  | inr differ ↦ differ
]

copy_name_loop-take : (src : Name) (i n : ℕ) → i + n ≡ 31 → copy_name_loop src i ≡ take n src
unfolding copy_name_loop
copy_name_loop-take [] i zero h = refl
copy_name_loop-take [] i (suc n) h = refl
copy_name_loop-take (c ∷ src) i zero h = rw (le→ltb i 31 (omega arith))
copy_name_loop-take (c ∷ src) i (suc n) h =
    rw (lt→ltb i 31 (omega arith), copy_name_loop-take src (i + 1) n (omega arith))

-- `ipc_copy_name` keeps the first 31 bytes.
pub copy_name-eq-take : (src : Name) → copy_name src ≡ take 31 src
unfolding copy_name
copy_name-eq-take src = copy_name_loop-take src 0 31 refl

take_all : (n : ℕ) (xs : Name) → length xs ≤ n → take n xs ≡ xs
take_all zero [] h = refl
take_all zero (x ∷ xs) h = absurd (omega arith)
take_all (suc n) [] h = refl
take_all (suc n) (x ∷ xs) h = ap (λ t. x ∷ t) (take_all n xs (omega arith))

length-take_le : (n : ℕ) (xs : Name) → length (take n xs) ≤ n
length-take_le zero xs = omega arith
length-take_le (suc n) [] = omega arith
length-take_le (suc n) (x ∷ xs) = omega (arith, length-take_le n xs)

copy_name_short : (name : Name) → length name < name_max → copy_name name ≡ name
copy_name_short name h = copy_name-eq-take name ∙ take_all 31 name (omega arith)

copy_name_long : (name : Name) → name_max ≤ length name → copy_name name ≢ name
copy_name_long name h e =
    absurd (omega (arith, length-take_le 31 name, ap length (sym (copy_name-eq-take name) ∙ e)))

find_in-append :
    (name : Name) (l : List Service) (svc : Service)
    → find_in name (l ++ svc ∷ []) ≡ elim (find_in name l) [
      | some found ↦ some found
      | none ↦ if same_name svc.name name then some svc else none
    ]
unfolding find_in
find_in-append name [] svc = refl
find_in-append name (x ∷ l) svc = elim (Bool-cases (same_name x.name name)) [
  | inl same ↦ rw same
  | inr differ ↦ rw differ (find_in-append name l svc)
]

none_added :
    (o : Option Service) (svc : Service) (b : Bool)
    → b ≡ false
    → (elim o [ some found ↦ some found | none ↦ if b then some svc else none ]) ≡ o
none_added none svc b h = rw h
none_added (some found) svc b h = refl

-- what a registration that is accepted leaves
abbrev pub registered : Name → ℕ → Port → List Service → Ipc → Ipc
registered name p port l s = record s {
  ports = update s.ports p (some (record port { name = copy_name name }));
  registry = some (l ++ record { name = copy_name name; port = p } ∷ []);
}

pub find_service_fault :
    (s : Ipc) (name : Name) → s.registry ≡ none → find_service (some name) s ≡ fault
unfolding find_service
find_service_fault s name unset = rw (unset, find_service)

module _ (s : Ipc) (l : List Service) (set_up : s.registry ≡ some l) where
  pub find_service_eq : (name : Name) → find_service (some name) s ≡ ok (find_in name l)
  unfolding find_service
  find_service_eq name = rw (set_up, find_service)

  register_accepts :
      (name : Name) (p a : ℕ) (port : Port)
      → p ≢ null
      → s.ports p ≡ some port
      → find_in name l ≡ none
      → register_service (some name) p (some a) s ≡ ok (ipc_ok, registered name p port l s)
  unfolding register_service
  register_accepts name p a port live at free =
      rw (ne→== p null live, find_service_eq name, free, at, with_port, set_up, on_registry)

  lookup_eq :
      (name : Name)
      → lookup_service (some name) s
        ≡ ok (elim (find_in name l) [ some svc ↦ svc.port | none ↦ null ])
  unfolding lookup_service
  lookup_eq name = rw (find_service_eq name) (ground arith)

-- the port that a name leads to, NULL if there is none
abbrev pub port_of : Name → List Service → ℕ
port_of name l = elim (find_in name l) [ some svc ↦ svc.port | none ↦ null ]

-- Each name stands for at most one service.
abbrev pub Unique : List Service → Type 0
Unique [] = Unit {0}
Unique (svc ∷ l) = (find_in svc.name l ≡ none) × Unique l

module _ (s : Ipc) (l : List Service) (set_up : s.registry ≡ some l) (name : Name) (p a : ℕ)
    (port : Port) (live : p ≢ null) (at : s.ports p ≡ some port)
    (free : find_in name l ≡ none) where
  -- Where the IPC layer is initialised and a name of at most 31 bytes is not registered yet,
  -- registering a port under it succeeds, the name then leads to the port, every other name leads
  -- where it led, and registering it once more is refused as existing.
  pub lookup-register :
      length name < name_max
      → (s' : Ipc) × (register_service (some name) p (some a) s ≡ ok (ipc_ok, s'))
        × (lookup_service (some name) s' ≡ ok p)
        × ((m : Name) → m ≢ name → lookup_service (some m) s' ≡ lookup_service (some m) s)
        × (register_service (some name) p (some a) s' ≡ ok (ipc_eexist, s'))
  unfolding register_service
  lookup-register short =
      let svc : Service = record { name = copy_name name; port = p } in
      let s' = registered name p port l s in
      let l' = l ++ svc ∷ [] in
      let same : same_name (copy_name name) name ≡ true =
        rw (copy_name_short name short) (same_name_refl name) in
      let now : find_in name l' ≡ some svc = rw (find_in-append name l svc, free, same) in
      (
        s',
        register_accepts s l set_up name p a port live at free,
        lookup_eq s' l' refl name ∙ rw now,
        λ m ne.
            let other : same_name (copy_name name) m ≡ false =
              rw (copy_name_short name short) (same_name_ne name m (λ e. ne (sym e))) in
            let kept : find_in m l' ≡ find_in m l =
              find_in-append m l svc
              ∙ none_added (find_in m l) svc (same_name (copy_name name) m) other in
            lookup_eq s' l' refl m
            ∙ ap (λ (o : Option Service). ok (elim o [ some v ↦ v.port | none ↦ null ])) kept
            ∙ sym (lookup_eq s l set_up m),
        rw (ne→== p null live, find_service_eq s' l' refl name, now),
      )

  -- Where the IPC layer is initialised and neither it nor its first 31 bytes are registered, a name
  -- of 32 bytes or more is registered under its first 31 bytes: these then lead to the port, the
  -- name itself still leads nowhere, every name but the first 31 bytes leads where it led, and
  -- registering the name again is accepted.
  pub register-long :
      name_max ≤ length name
      → find_in (take 31 name) l ≡ none
      → (s' : Ipc) × (s'' : Ipc) × (register_service (some name) p (some a) s ≡ ok (ipc_ok, s'))
        × (lookup_service (some (take 31 name)) s' ≡ ok p)
        × (lookup_service (some name) s' ≡ ok null)
        × ((m : Name) → m ≢ take 31 name → lookup_service (some m) s' ≡ lookup_service (some m) s)
        × (register_service (some name) p (some a) s' ≡ ok (ipc_ok, s''))
  register-long long first_free =
      let svc : Service = record { name = copy_name name; port = p } in
      let s' = registered name p port l s in
      let l' = l ++ svc ∷ [] in
      let port' : Port = record port { name = copy_name name } in
      let cut : copy_name name ≡ take 31 name = copy_name-eq-take name in
      let differ : same_name (copy_name name) name ≡ false =
        same_name_ne (copy_name name) name (copy_name_long name long) in
      let still : find_in name l' ≡ none = rw (find_in-append name l svc, free, differ) in
      let same : same_name (copy_name name) (take 31 name) ≡ true =
        rw cut (same_name_refl (take 31 name)) in
      let now : find_in (take 31 name) l' ≡ some svc =
        rw (find_in-append (take 31 name) l svc, first_free, same) in
      let at' : s'.ports p ≡ some port' = rw (==_refl p) in
      (
        s',
        registered name p port' l' s',
        register_accepts s l set_up name p a port live at free,
        lookup_eq s' l' refl (take 31 name) ∙ rw now,
        lookup_eq s' l' refl name ∙ rw still,
        λ m ne.
            let other : same_name (copy_name name) m ≡ false =
              rw cut (same_name_ne (take 31 name) m (λ e. ne (sym e))) in
            let kept : find_in m l' ≡ find_in m l =
              find_in-append m l svc
              ∙ none_added (find_in m l) svc (same_name (copy_name name) m) other in
            lookup_eq s' l' refl m
            ∙ ap (λ (o : Option Service). ok (elim o [ some v ↦ v.port | none ↦ null ])) kept
            ∙ sym (lookup_eq s l set_up m),
        register_accepts s' l' refl name p a port' live at' still,
      )

find_in-drop_other :
    (name m : Name) (l : List Service) → m ≢ name → find_in m (drop_name name l) ≡ find_in m l
unfolding find_in drop_name
find_in-drop_other name m [] ne = refl
find_in-drop_other name m (x ∷ l) ne = elim (Bool-cases (same_name x.name name)) [
  | inl same ↦
      let e = eq_of_same_name x.name name same in
      let apart : same_name x.name m ≡ false = same_name_ne x.name m (λ t. ne (sym t ∙ e)) in
      rw (same, apart)
  | inr differ ↦
      rw differ
        (ap (λ o. if same_name x.name m then some x else o) (find_in-drop_other name m l ne))
]

find_in-drop_self :
    (name : Name) (l : List Service) → Unique l → find_in name (drop_name name l) ≡ none
unfolding find_in drop_name
find_in-drop_self name [] u = refl
find_in-drop_self name (x ∷ l) u = elim (Bool-cases (same_name x.name name)) [
  | inl same ↦ rw same (subst (λ n. find_in n l ≡ none) (eq_of_same_name x.name name same) u.0)
  | inr differ ↦ rw (differ, find_in, differ) (find_in-drop_self name l u.1)
]

-- Where registered names are unique, unregistering a registered name succeeds, the name then leads
-- nowhere, every other name leads where it led, and unregistering it again answers that there is
-- none.
pub lookup-unregister :
    (s : Ipc) (l : List Service) (name : Name) (svc : Service)
    → s.registry ≡ some l
    → Unique l
    → find_in name l ≡ some svc
    → (s' : Ipc) × (unregister_service (some name) s ≡ ok (ipc_ok, s'))
      × (lookup_service (some name) s' ≡ ok null)
      × ((m : Name) → m ≢ name → lookup_service (some m) s' ≡ lookup_service (some m) s)
      × (unregister_service (some name) s' ≡ ok (ipc_enoent, s'))
unfolding unregister_service
lookup-unregister s l name svc set_up u found =
    let l' = drop_name name l in
    let s' : Ipc = record s { registry = some l' } in
    let gone = find_in-drop_self name l u in
    (
      s',
      rw (find_service_eq s l set_up name, found, set_up, on_registry),
      lookup_eq s' l' refl name ∙ rw gone,
      λ m ne.
          lookup_eq s' l' refl m
          ∙ ap (λ (o : Option Service). ok (elim o [ some v ↦ v.port | none ↦ null ]))
              (find_in-drop_other name m l ne)
          ∙ sym (lookup_eq s l set_up m),
      rw (find_service_eq s' l' refl name, gone),
    )
