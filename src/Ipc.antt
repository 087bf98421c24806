-- ===== src/Ipc.antt =====
-- Message ports and the service registry (src/kernel/ipc/ipc.c). A port is an address in a store of
-- ports, and NULL is 0; an intrusive list is a list in link order (`ListBefore` the head appends). A
-- name is the bytes of a C string before its NUL. `calloc` is an argument: the address that it
-- returned, or none. A pointer to no live port, or a registry that `ipc_init` has not set up, is a `fault`.
pub mod Ports
pub mod Fifo
pub mod Registry
pub mod Reach
pub mod Safety
mod Examples
use cf_os.Base.{
  ℕ, zero, suc, ◌+◌, ◌-◌, ◌%◌, ◌^◌, Bool, true, false, not, ◌&&◌, ◌||◌, Option, none, some, List,
  [], ◌∷◌, ◌++◌, ◌==◌, ltb, if◌then◌else◌, take, Run, ok, fault, ◌>>=◌,
}
use cf_os.Base.Int.{ℤ, pos, negsuc}

abbrev pub Name : Type 0
Name = List ℕ

pub record Msg : Type 0 where
  pub id : ℕ
  pub src : ℕ
  pub type : ℕ
  pub flags : ℕ
  pub len : ℕ
  pub payload : List ℕ

pub record Port : Type 0 where
  pub id : ℕ
  pub name : Name
  pub owner : ℕ
  pub pending : ℕ
  pub inbox : List Msg

pub record Service : Type 0 where
  pub name : Name
  pub port : ℕ

pub record Ipc : Type 0 where
  pub registry : Option (List Service)
  pub next_port_id : ℕ
  pub next_msg_id : ℕ
  pub ready : Bool
  pub ports : ℕ → Option Port

abbrev pub null : ℕ
null = 0

abbrev pub name_max : ℕ
name_max = 32

abbrev pub max_data : ℕ
max_data = 256

abbrev pub ipc_ok : ℤ
ipc_ok = pos 0

abbrev pub ipc_einval : ℤ
ipc_einval = negsuc 0

abbrev pub ipc_enomem : ℤ
ipc_enomem = negsuc 1

abbrev pub ipc_eagain : ℤ
ipc_eagain = negsuc 2

abbrev pub ipc_e2big : ℤ
ipc_e2big = negsuc 3

abbrev pub ipc_enoent : ℤ
ipc_enoent = negsuc 4

abbrev pub ipc_eexist : ℤ
ipc_eexist = negsuc 5

-- u32 and usize counters
abbrev pub next32 : ℕ → ℕ
next32 n = (n + 1) % 2 ^ 32

abbrev pub prev32 : ℕ → ℕ
prev32 n = (n + 2 ^ 32 - 1) % 2 ^ 32

-- a write of one cell of the store
abbrev pub update : (ℕ → Option Port) → ℕ → Option Port → ℕ → Option Port
update f p v q = if p == q then v else f q

-- while (src[i] && i < IPC_NAME_MAX - 1) { dst[i] = src[i]; i++; }
pub copy_name_loop : Name → ℕ → Name
copy_name_loop [] i = []
copy_name_loop (c ∷ src) i =
    let rest = copy_name_loop src (i + 1) in if ltb i (name_max - 1) then c ∷ rest else []

pub copy_name : Name → Name
copy_name src = copy_name_loop src 0

-- `strcmp(a, b) == 0`
pub same_name : Name → Name → Bool
same_name [] [] = true
same_name [] (d ∷ b) = false
same_name (c ∷ a) [] = false
same_name (c ∷ a) (d ∷ b) = c == d && same_name a b

-- the walk of `ipc_find_service`
pub find_in : Name → List Service → Option Service
find_in name [] = none
find_in name (svc ∷ l) = if same_name svc.name name then some svc else find_in name l

pub find_service : Option Name → Ipc → Run (Option Service)
find_service none s = ok none
find_service (some name) s = elim s.registry [ none ↦ fault | some l ↦ ok (find_in name l) ]

pub init : Ipc → Ipc
init s =
    if s.ready
    then s
    else record s { registry = some []; next_port_id = 1; next_msg_id = 1; ready = true }

-- what a pointer to a port leads to
abbrev pub with_port {ℓ} : {A : Type ℓ} → ℕ → Ipc → (Port → Run A) → Run A
with_port p s k = elim (s.ports p) [ none ↦ fault | some port ↦ k port ]

pub port_create : Option ℕ → Ipc → ℕ × Ipc
port_create none s = (null, s)
port_create (some p) s = (
  p,
  record s {
    next_port_id = next32 s.next_port_id;
    ports =
        update s.ports p
          (some (record { id = s.next_port_id; name = []; owner = null; pending = 0; inbox = [] }));
  },
)

-- the loop of `ipc_unregister_port`
pub drop_port : ℕ → List Service → List Service
drop_port p [] = []
drop_port p (svc ∷ l) = if svc.port == p then drop_port p l else svc ∷ drop_port p l

pub unregister_port : ℕ → Ipc → Run (ℤ × Ipc)
unregister_port p s = if p == null then ok (ipc_einval, s) else (elim s.registry [
  | none ↦ fault
  | some l ↦ ok (ipc_ok, record s { registry = some (drop_port p l) })
])

-- `ipc_free_queue` empties the inbox of a port that is freed next
pub free_queue : ℕ → Ipc → Run Ipc
free_queue p s =
    if p == null
    then ok s
    else with_port p s (λ port.
      ok (record s { ports = update s.ports p (some (record port { pending = 0; inbox = [] })) }))

pub port_destroy : ℕ → Ipc → Run Ipc
port_destroy p s =
    if p == null
    then ok s
    else (unregister_port p s >>= λ r.
        free_queue p (r.1) >>= λ s'. ok (record s' { ports = update s'.ports p none }))

pub send : ℕ → ℕ → ℕ → Option (List ℕ) → ℕ → Option ℕ → Ipc → Run (ℤ × Ipc)
send dst src type bytes len alloc s =
    let missing : Bool = elim bytes [ none ↦ not (len == 0) | some b ↦ false ] in
    let copied : List ℕ = elim bytes [ none ↦ [] | some b ↦ take len b ] in
    let msg : Msg = record {
      id = s.next_msg_id;
      src = src;
      type = type;
      flags = 0;
      len = len;
      payload = copied;
    } in
    if dst == null || missing
    then ok (ipc_einval, s)
    else (if ltb max_data len then ok (ipc_e2big, s) else (elim alloc [
      | none ↦ ok (ipc_enomem, s)
      | some a ↦ with_port dst s (λ port. ok (
        ipc_ok,
        record s {
          next_msg_id = next32 s.next_msg_id;
          ports = update s.ports dst (
              some (record port { inbox = port.inbox ++ msg ∷ []; pending = next32 port.pending }));
        },
      ))
    ]))

-- the tail of `ipc_recv`, on the inbox
pub recv_from : List Msg → ℕ → Port → Ipc → ℤ × Option Msg × Ipc
recv_from [] p port s = (ipc_eagain, none, s)
recv_from (msg ∷ rest) p port s = (
  ipc_ok,
  some msg,
  record s {
    ports = update s.ports p (some (record port { inbox = rest; pending = prev32 port.pending }));
  },
)

-- `out_given` says that `out` is not NULL.
pub recv : ℕ → Bool → Ipc → Run (ℤ × Option Msg × Ipc)
recv p out_given s =
    if p == null || not out_given
    then ok (ipc_einval, none, s)
    else with_port p s (λ port. ok (recv_from port.inbox p port s))

pub pending : ℕ → Ipc → Run ℕ
pending p s = if p == null then ok 0 else with_port p s (λ port. ok port.pending)

-- a change of the registry's list
abbrev pub on_registry : (List Service → List Service) → Ipc → Option (List Service)
on_registry f s = elim s.registry [ none ↦ none | some l ↦ some (f l) ]

pub register_service : Option Name → ℕ → Option ℕ → Ipc → Run (ℤ × Ipc)
register_service none p alloc s = ok (ipc_einval, s)
register_service (some name) p alloc s =
    if p == null
    then ok (ipc_einval, s)
    else (find_service (some name) s >>= λ found. elim found [
      | some svc ↦ ok (ipc_eexist, s)
      | none ↦ elim alloc [
        | none ↦ ok (ipc_enomem, s)
        | some a ↦ with_port p s (λ port. ok (
          ipc_ok,
          record s {
            ports = update s.ports p (some (record port { name = copy_name name }));
            registry = on_registry (λ l. l ++ record { name = copy_name name; port = p } ∷ []) s;
          },
        ))
      ]
    ])

-- `ListRemove` of the service that was found, the first of that name
pub drop_name : Name → List Service → List Service
drop_name name [] = []
drop_name name (svc ∷ l) = if same_name svc.name name then l else svc ∷ drop_name name l

pub unregister_service : Option Name → Ipc → Run (ℤ × Ipc)
unregister_service none s = find_service none s >>= λ found. ok (ipc_enoent, s)
unregister_service (some name) s = find_service (some name) s >>= λ found. elim found [
  | none ↦ ok (ipc_enoent, s)
  | some svc ↦ ok (ipc_ok, record s { registry = on_registry (drop_name name) s })
]

pub lookup_service : Option Name → Ipc → Run ℕ
lookup_service name s =
    find_service name s >>= λ found. elim found [ none ↦ ok null | some svc ↦ ok svc.port ]
