-- ===== src/Ipc/Reach.antt =====
-- The calls of the IPC layer as steps, the states that they reach, and what makes a state sound.
use cf_os.Base.{
  ℕ, ◌≤◌, ◌≡◌, ◌≢◌, subst, Bool, false, Option, some, none, List, [], ◌∷◌, ◌++◌, arith, ◌==◌,
  length, ok, Bool-cases, inl, inr,
}
use cf_os.Base.Int.{ℤ}
use cf_os.Ipc.{
  Name, Msg, Port, Service, Ipc, null, update, init, port_create, drop_port, unregister_port,
  port_destroy, send, recv, register_service, unregister_service, drop_name,
}
use cf_os.Ipc.Ports.{PortValid}

abbrev pub Live : (ℕ → Option Port) → ℕ → Type 0
Live ports p = (port : Port) × (ports p ≡ some port)

abbrev pub AllLive : (ℕ → Option Port) → List Service → Type 0
AllLive ports [] = Unit {0}
AllLive ports (svc ∷ l) = Live ports svc.port × AllLive ports l

abbrev pub RegistryLive : (ℕ → Option Port) → Option (List Service) → Type 0
RegistryLive ports none = Unit {0}
RegistryLive ports (some l) = AllLive ports l

pub record IsSound (s : Ipc) : Type 0 where
  pub live : RegistryLive s.ports s.registry
  pub valid : (p : ℕ) (port : Port) → s.ports p ≡ some port → PortValid port

-- the state before `ipc_init`
abbrev pub boot : Ipc
boot = record {
  registry = none;
  next_port_id = 1;
  next_msg_id = 1;
  ready = false;
  ports = λ p. none;
}

-- One call that returns. `calloc` hands out an address that no port has, and a sender's `len` is at most
-- the bytes that it points to.
pub data Step : Ipc → Ipc → Type 0 where
  inits : (s t : Ipc) → t ≡ init s → Step s t
  creates :
      (s t : Ipc) (p : ℕ) → p ≢ null → s.ports p ≡ none → t ≡ (port_create (some p) s).1 → Step s t
  destroys : (s t : Ipc) (p : ℕ) → port_destroy p s ≡ ok t → Step s t
  sends :
      (s t : Ipc) (r : ℤ) (p src type len : ℕ) (b : List ℕ) (alloc : Option ℕ)
      → len ≤ length b
      → send p src type (some b) len alloc s ≡ ok (r, t)
      → Step s t
  receives :
      (s t : Ipc) (r : ℤ) (p : ℕ) (given : Bool) (m : Option Msg)
      → recv p given s ≡ ok (r, m, t)
      → Step s t
  registers :
      (s t : Ipc) (r : ℤ) (p : ℕ) (name : Option Name) (alloc : Option ℕ)
      → register_service name p alloc s ≡ ok (r, t)
      → Step s t
  unregisters :
      (s t : Ipc) (r : ℤ) (name : Option Name) → unregister_service name s ≡ ok (r, t) → Step s t
  unregisters_port : (s t : Ipc) (r : ℤ) (p : ℕ) → unregister_port p s ≡ ok (r, t) → Step s t

pub data Reach : Ipc → Type 0 where
  start : Reach boot
  next : {s t : Ipc} → Reach s → Step s t → Reach t

-- Writing a live port keeps every port live.
pub AllLive-update :
    (ports : ℕ → Option Port) (p : ℕ) (port : Port) (l : List Service)
    → AllLive ports l
    → AllLive (update ports p (some port)) l
AllLive-update ports p port [] a = tt
AllLive-update ports p port (svc ∷ l) a = (here, AllLive-update ports p port l a.1)
  where
    here : Live (update ports p (some port)) svc.port
    here = elim (Bool-cases (p == svc.port)) [
      | inl same ↦ (port, rw same)
      | inr apart ↦ (a.0.0, rw apart a.0.1)
    ]

pub RegistryLive-update :
    (ports : ℕ → Option Port) (p : ℕ) (port : Port) (o : Option (List Service))
    → RegistryLive ports o
    → RegistryLive (update ports p (some port)) o
RegistryLive-update ports p port none a = tt
RegistryLive-update ports p port (some l) a = AllLive-update ports p port l a

-- After its services are dropped, a port can be freed.
pub AllLive-freed :
    (ports : ℕ → Option Port) (p : ℕ) (l : List Service)
    → AllLive ports l
    → AllLive (update ports p none) (drop_port p l)
unfolding drop_port
AllLive-freed ports p [] a = tt
AllLive-freed ports p (svc ∷ l) a = elim (Bool-cases (svc.port == p)) [
  | inl same ↦ rw same (AllLive-freed ports p l a.1)
  | inr apart ↦
      let other : (p == svc.port) ≡ false = ground arith in
      rw apart ((a.0.0, rw other a.0.1), AllLive-freed ports p l a.1)
]

pub AllLive-drop_port :
    (ports : ℕ → Option Port) (p : ℕ) (l : List Service)
    → AllLive ports l
    → AllLive ports (drop_port p l)
unfolding drop_port
AllLive-drop_port ports p [] a = tt
AllLive-drop_port ports p (svc ∷ l) a = elim (Bool-cases (svc.port == p)) [
  | inl same ↦ rw same (AllLive-drop_port ports p l a.1)
  | inr apart ↦ rw apart (a.0, AllLive-drop_port ports p l a.1)
]

pub AllLive-drop_name :
    (ports : ℕ → Option Port) (name : Name) (l : List Service)
    → AllLive ports l
    → AllLive ports (drop_name name l)
unfolding drop_name
AllLive-drop_name ports name [] a = tt
AllLive-drop_name ports name (svc ∷ l) a = ground (arith, AllLive-drop_name ports name l)

pub AllLive-snoc :
    (ports : ℕ → Option Port) (l : List Service) (svc : Service)
    → AllLive ports l
    → Live ports svc.port
    → AllLive ports (l ++ svc ∷ [])
AllLive-snoc ports [] svc a h = (h, tt)
AllLive-snoc ports (x ∷ l) svc a h = (a.0, AllLive-snoc ports l svc a.1 h)

-- A write of a well-formed port keeps all ports well formed.
pub valid-update :
    (ports : ℕ → Option Port) (p : ℕ) (new : Port)
    → ((q : ℕ) (port : Port) → ports q ≡ some port → PortValid port)
    → PortValid new
    → (q : ℕ) (port : Port) → update ports p (some new) q ≡ some port
    → PortValid port
valid-update ports p new v n q port h = elim (Bool-cases (p == q)) [
  | inl same ↦
      let e : ◌≡◌ {A = Option Port} (some new) (some port) = rw same at h in
      let e' : new ≡ port = cc in subst PortValid e' n
  | inr apart ↦ v q port (rw apart at h)
]

pub valid-freed :
    (ports : ℕ → Option Port) (p : ℕ)
    → ((q : ℕ) (port : Port) → ports q ≡ some port → PortValid port)
    → (q : ℕ) (port : Port) → update ports p none q ≡ some port
    → PortValid port
valid-freed ports p v q port h = elim (Bool-cases (p == q)) [
  | inl same ↦ let e : ◌≡◌ {A = Option Port} none (some port) = rw same at h in absurd (cc)
  | inr apart ↦ v q port (rw apart at h)
]
