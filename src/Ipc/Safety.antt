-- ===== src/Ipc/Safety.antt =====
-- Soundness of the port system, call by call and over sequences of calls.
use cf_os.Base.{
  ℕ, suc, ◌≤◌, ◌≡◌, refl, ap, sym, subst, Bool, Option, some, none, List, [], ◌∷◌, ◌++◌, arith, ltb,
  ◌==◌, length, length-append, ok, fault, ==_refl, not, ◌||◌, Bool-cases, Option-cases, inl, inr,
  Run,
}
use cf_os.Base.Int.{ℤ}
use cf_os.Ipc.{
  Name, Msg, Port, Service, Ipc, null, max_data, next32, prev32, update, with_port, on_registry,
  ipc_ok, ipc_einval, ipc_enomem, ipc_e2big, ipc_eexist, ipc_enoent, copy_name, init, port_create,
  drop_port, unregister_port, free_queue, port_destroy, send, recv, recv_from, find_service,
  find_in, register_service, unregister_service, drop_name,
}
use cf_os.Ipc.Ports.{PortValid, AllSized, AllSized-snoc, length-take, message}
use cf_os.Ipc.Registry.{find_service_eq, find_service_fault}
use cf_os.Ipc.Reach.{
  AllLive, RegistryLive, IsSound, Step, Reach, AllLive-update, RegistryLive-update, AllLive-freed,
  AllLive-drop_port, AllLive-drop_name, AllLive-snoc, valid-update, valid-freed,
}

find_service-none : (s : Ipc) → find_service none s ≡ ok none
unfolding find_service
find_service-none s = refl

abbrev Pair : Type 0
Pair = ℤ × Ipc

module _ (s : Ipc) (sound : IsSound s) where
  stays : (r r' : ℤ) (t : Ipc) → ◌≡◌ {A = Run Pair} (ok (r, s)) (ok (r', t)) → IsSound t
  stays r r' t h = let e : s ≡ t = cc in subst IsSound e sound

  moves :
      (u : Ipc) (r r' : ℤ) (t : Ipc)
      → IsSound u
      → ◌≡◌ {A = Run Pair} (ok (r, u)) (ok (r', t))
      → IsSound t
  moves u r r' t ok_u h = let e : u ≡ t = cc in subst IsSound e ok_u

  -- A port whose inbox or name is rewritten keeps the system sound.
  port_written :
      (p : ℕ) (new : Port) (n : ℕ)
      → PortValid new
      → IsSound (record s { next_msg_id = n; ports = update s.ports p (some new) })
  port_written p new n v = record {
    live = RegistryLive-update s.ports p new s.registry sound.live;
    valid = valid-update s.ports p new sound.valid v;
  }

  init-IsSound : IsSound (init s)
  unfolding init
  init-IsSound = elim (Bool-cases s.ready) [
    | inl ready ↦ simp ready sound
    | inr cold ↦ simp cold (record { live = tt; valid = sound.valid })
  ]

  create-IsSound : (p : ℕ) → IsSound (port_create (some p) s).1
  unfolding port_create
  create-IsSound p =
      let new : Port = record {
        id = s.next_port_id;
        name = [];
        owner = null;
        pending = 0;
        inbox = [];
      } in
      record {
        live = RegistryLive-update s.ports p new s.registry sound.live;
        valid = valid-update s.ports p new sound.valid (record { counted = refl; sized = tt });
      }

  sent-valid :
      (p src type len : ℕ) (b : List ℕ) (port : Port)
      → len ≤ max_data
      → len ≤ length b
      → s.ports p ≡ some port
      → PortValid (record port {
        inbox = port.inbox ++ message s src type len b ∷ [];
        pending = next32 port.pending;
      })
  sent-valid p src type len b port small enough at =
      let v = sound.valid p port at in
      let m = message s src type len b in
      let c = v.counted in
      record {
        counted = omega (arith, length-append port.inbox (m ∷ []));
        sized = AllSized-snoc port.inbox m v.sized (length-take len b enough) small;
      }

  send-IsSound :
      (t : Ipc) (r : ℤ) (p src type len : ℕ) (b : List ℕ) (alloc : Option ℕ)
      → len ≤ length b
      → send p src type (some b) len alloc s ≡ ok (r, t)
      → IsSound t
  unfolding send
  send-IsSound t r p src type len b alloc enough h = elim (Bool-cases (p == null)) [
    | inl nul ↦ stays ipc_einval r t (rw nul at h)
    | inr live ↦ elim (Bool-cases (ltb max_data len)) [
      | inl big ↦ stays ipc_e2big r t (rw (live, big) at h)
      | inr fits ↦ elim (Option-cases alloc) [
        | inl failed ↦ stays ipc_enomem r t (rw (live, fits, failed) at h)
        | inr (a, got) ↦ elim (Option-cases (s.ports p)) [
          | inl dangling ↦
              let bad : ◌≡◌ {A = Run Pair} fault (ok (r, t)) =
                rw (live, fits, got, dangling, with_port) at h in
              absurd (cc)
          | inr (port, at) ↦
              moves _ ipc_ok r t
                (port_written p _ (next32 s.next_msg_id)
                  (sent-valid p src type len b port (ground arith) enough at))
                (rw (live, fits, got, at, with_port) at h)
        ]
      ]
    ]
  ]

  recv_from-IsSound :
      (p : ℕ) (port : Port) (l : List Msg)
      → s.ports p ≡ some port
      → l ≡ port.inbox
      → IsSound (recv_from l p port s).2
  unfolding recv_from
  recv_from-IsSound p port [] at e = sound
  recv_from-IsSound p port (m ∷ rest) at e =
      let v = sound.valid p port at in
      let c = v.counted in
      let n : suc (length rest) ≡ length port.inbox = ap length e in
      let sized : AllSized (m ∷ rest) = subst AllSized (sym e) v.sized in
      port_written p (record port { inbox = rest; pending = prev32 port.pending }) s.next_msg_id
        (record { counted = omega arith; sized = sized.2 })

  recv-IsSound :
      (t : Ipc) (r : ℤ) (p : ℕ) (given : Bool) (m : Option Msg)
      → recv p given s ≡ ok (r, m, t)
      → IsSound t
  unfolding recv
  recv-IsSound t r p given m h = elim (Bool-cases (p == null || not given)) [
    | inl refused ↦
        let h' : ◌≡◌ {A = Run (ℤ × Option Msg × Ipc)} (ok (ipc_einval, none, s)) (ok (r, m, t)) =
          rw refused at h in
        let e : s ≡ t = cc in subst IsSound e sound
    | inr accepted ↦ elim (Option-cases (s.ports p)) [
      | inl dangling ↦
          let bad : ◌≡◌ {A = Run (ℤ × Option Msg × Ipc)} fault (ok (r, m, t)) =
            rw (accepted, dangling, with_port) at h in
          absurd (cc)
      | inr (port, at) ↦
          let h' : ◌≡◌ {A = Run (ℤ × Option Msg × Ipc)} (ok (recv_from port.inbox p port s))
              (ok (r, m, t)) =
            rw (accepted, at, with_port) at h in
          let e : (recv_from port.inbox p port s).2 ≡ t = cc in
          subst IsSound e (recv_from-IsSound p port port.inbox at refl)
    ]
  ]

  registry_written :
      (l : List Service) → AllLive s.ports l → IsSound (record s { registry = some l })
  registry_written l a = record { live = a; valid = sound.valid }

  on_registry_written :
      (f : List Service → List Service) (l : List Service)
      → s.registry ≡ some l
      → AllLive s.ports (f l)
      → IsSound (record s { registry = on_registry f s })
  on_registry_written f l e a = record {
    live =
        let e' : on_registry f s ≡ some (f l) = rw (e, on_registry) in
        subst (RegistryLive s.ports) (sym e') a;
    valid = sound.valid;
  }

  live_at : (l : List Service) → s.registry ≡ some l → AllLive s.ports l
  live_at l e = subst (RegistryLive s.ports) e sound.live

  unregister_port-IsSound : (t : Ipc) (r : ℤ) (p : ℕ) → unregister_port p s ≡ ok (r, t) → IsSound t
  unfolding unregister_port
  unregister_port-IsSound t r p h = elim (Bool-cases (p == null)) [
    | inl nul ↦ stays ipc_einval r t (rw nul at h)
    | inr live ↦ elim (Option-cases s.registry) [
      | inl unset ↦
          let bad : ◌≡◌ {A = Run Pair} fault (ok (r, t)) = simp (live, unset) at h in absurd (cc)
      | inr (l, set_up) ↦
          moves _ ipc_ok r t
            (registry_written (drop_port p l) (AllLive-drop_port s.ports p l (live_at l set_up)))
            (simp (live, set_up) at h)
    ]
  ]

  unregister-IsSound :
      (t : Ipc) (r : ℤ) (name : Option Name) → unregister_service name s ≡ ok (r, t) → IsSound t
  unfolding unregister_service
  unregister-IsSound t r none h = stays ipc_enoent r t (rw find_service-none at h)
  unregister-IsSound t r (some name) h = elim (Option-cases s.registry) [
    | inl unset ↦
        let bad : ◌≡◌ {A = Run Pair} fault (ok (r, t)) =
          rw (find_service_fault s name unset) at h in
        absurd (cc)
    | inr (l, set_up) ↦ elim (Option-cases (find_in name l)) [
      | inl missing ↦ stays ipc_enoent r t (rw (find_service_eq s l set_up name, missing) at h)
      | inr (svc, found) ↦
          moves _ ipc_ok r t
            (on_registry_written (drop_name name) l set_up
              (AllLive-drop_name s.ports name l (live_at l set_up)))
            (rw (find_service_eq s l set_up name, found) at h)
    ]
  ]

  register-IsSound :
      (t : Ipc) (r : ℤ) (p : ℕ) (name : Option Name) (alloc : Option ℕ)
      → register_service name p alloc s ≡ ok (r, t)
      → IsSound t
  unfolding register_service
  register-IsSound t r p none alloc h = stays ipc_einval r t h
  register-IsSound t r p (some name) alloc h = elim (Bool-cases (p == null)) [
    | inl nul ↦ stays ipc_einval r t (simp nul at h)
    | inr live ↦ elim (Option-cases s.registry) [
      | inl unset ↦
          let bad : ◌≡◌ {A = Run Pair} fault (ok (r, t)) =
            rw (live, find_service_fault s name unset) at h in
          absurd (cc)
      | inr (l, set_up) ↦ elim (Option-cases (find_in name l)) [
        | inr (svc, found) ↦
            stays ipc_eexist r t (rw (live, find_service_eq s l set_up name, found) at h)
        | inl free ↦ elim (Option-cases alloc) [
          | inl failed ↦
              stays ipc_enomem r t (rw (live, find_service_eq s l set_up name, free, failed) at h)
          | inr (a, got) ↦ elim (Option-cases (s.ports p)) [
            | inl dangling ↦
                let bad : ◌≡◌ {A = Run Pair} fault (ok (r, t)) =
                  rw (live, find_service_eq s l set_up name, free, got, dangling, with_port) at h in
                absurd (cc)
            | inr (port, at) ↦
                moves _ ipc_ok r t (named l set_up name p port at)
                  (rw (live, find_service_eq s l set_up name, free, got, at, with_port) at h)
          ]
        ]
      ]
    ]
  ]
    where
      named :
          (l : List Service)
          → s.registry ≡ some l
          → (name : Name) (p : ℕ) (port : Port) → s.ports p ≡ some port
          → IsSound (record s {
            ports = update s.ports p (some (record port { name = copy_name name }));
            registry = on_registry (λ l. l ++ record { name = copy_name name; port = p } ∷ []) s;
          })
      named l set_up name p port at =
          let new : Port = record port { name = copy_name name } in
          let v = sound.valid p port at in
          let add = λ (k : List Service). k ++ record { name = copy_name name; port = p } ∷ [] in
          let e : on_registry add s ≡ some (add l) = rw (set_up, on_registry) in
          record {
            live = subst (RegistryLive (update s.ports p (some new))) (sym e) (
                AllLive-snoc (update s.ports p (some new)) l _
                  (AllLive-update s.ports p new l (live_at l set_up)) (new, rw (==_refl p)));
            valid =
                valid-update s.ports p new sound.valid
                  (record { counted = v.counted; sized = v.sized });
          }

  destroyed-IsSound :
      (p : ℕ) (l : List Service) (port : Port)
      → s.registry ≡ some l
      → s.ports p ≡ some port
      → IsSound (record s {
        registry = some (drop_port p l);
        ports = update (update s.ports p (some (record port { pending = 0; inbox = [] }))) p none;
      })
  destroyed-IsSound p l port set_up at =
      let emptied : Port = record port { pending = 0; inbox = [] } in
      record {
        live =
            AllLive-freed (update s.ports p (some emptied)) p l
              (AllLive-update s.ports p emptied l (live_at l set_up));
        valid =
            valid-freed (update s.ports p (some emptied)) p
              (valid-update s.ports p emptied sound.valid (record { counted = refl; sized = tt }));
      }

  destroy-IsSound : (t : Ipc) (p : ℕ) → port_destroy p s ≡ ok t → IsSound t
  unfolding port_destroy unregister_port free_queue
  destroy-IsSound t p h = elim (Bool-cases (p == null)) [
    | inl nul ↦
        let h' : ◌≡◌ {A = Run Ipc} (ok s) (ok t) = rw nul at h in
        let e : s ≡ t = cc in subst IsSound e sound
    | inr live ↦ elim (Option-cases s.registry) [
      | inl unset ↦
          let bad : ◌≡◌ {A = Run Ipc} fault (ok t) = simp (live, unset) at h in absurd (cc)
      | inr (l, set_up) ↦ elim (Option-cases (s.ports p)) [
        | inl dangling ↦
            let bad : ◌≡◌ {A = Run Ipc} fault (ok t) = simp (live, set_up, dangling) at h in
            absurd (cc)
        | inr (port, at) ↦
            let done : ◌≡◌ {A = Run Ipc}
                (ok (record s {
                  registry = some (drop_port p l);
                  ports =
                      update (update s.ports p (some (record port { pending = 0; inbox = [] }))) p
                        none;
                }))
                (ok t) =
              simp (live, set_up, at) at h in
            let e : record s {
              registry = some (drop_port p l);
              ports =
                  update (update s.ports p (some (record port { pending = 0; inbox = [] }))) p none;
            }
                ≡ t =
              cc in
            subst IsSound e (destroyed-IsSound p l port set_up at)
      ]
    ]
  ]

pub Step-IsSound : {s t : Ipc} → Step s t → IsSound s → IsSound t
Step-IsSound (Step.inits s t e) v = subst IsSound (sym e) (init-IsSound s v)
Step-IsSound (Step.creates s t p live fresh e) v = subst IsSound (sym e) (create-IsSound s v p)
Step-IsSound (Step.destroys s t p e) v = destroy-IsSound s v t p e
Step-IsSound (Step.sends s t r p src type len b alloc enough e) v =
    send-IsSound s v t r p src type len b alloc enough e
Step-IsSound (Step.receives s t r p given m e) v = recv-IsSound s v t r p given m e
Step-IsSound (Step.registers s t r p name alloc e) v = register-IsSound s v t r p name alloc e
Step-IsSound (Step.unregisters s t r name e) v = unregister-IsSound s v t r name e
Step-IsSound (Step.unregisters_port s t r p e) v = unregister_port-IsSound s v t r p e

-- In every state that calls of the IPC layer reach from boot, with fresh addresses from the
-- allocator, every registered name leads to a live port and every port's pending count is the length
-- of its inbox modulo 2 ^ 32.
pub Reach-IsSound : (s : Ipc) → Reach s → IsSound s
Reach-IsSound s r = go r
  where
    go : {t : Ipc} → Reach t → IsSound t
    go Reach.start = record { live = tt; valid = λ p port h. absurd (cc) }
    go (Reach.next r step) = Step-IsSound step (go r)
