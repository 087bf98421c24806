-- ===== src/Ipc/Ports.antt =====
-- `ipc_send` and `ipc_recv` on one port.
use cf_os.Base.{
  ℕ, zero, suc, ◌%◌, ◌^◌, ◌≤◌, ◌≡◌, ◌≢◌, refl, ap, subst, true, false, some, none, List, [], ◌∷◌,
  ◌++◌, arith, ltb, ◌==◌, length, take, length-append, ok, le→ltb, ne→==, ==_refl,
}
use cf_os.Ipc.{
  Msg, Port, Ipc, null, max_data, ipc_ok, ipc_eagain, next32, prev32, update, with_port, send, recv,
  recv_from,
}

-- `pending` counts the inbox, and a message holds the bytes that its length says.
abbrev pub AllSized : List Msg → Type 0
AllSized [] = Unit {0}
AllSized (m ∷ l) = (length m.payload ≡ m.len) × (m.len ≤ max_data) × AllSized l

pub record PortValid (port : Port) : Type 0 where
  pub counted : port.pending ≡ length port.inbox % 2 ^ 32
  pub sized : AllSized port.inbox

-- the message that `ipc_send` queues
abbrev pub message : Ipc → ℕ → ℕ → ℕ → List ℕ → Msg
message s src type len b = record {
  id = s.next_msg_id;
  src = src;
  type = type;
  flags = 0;
  len = len;
  payload = take len b;
}

pub length-take : (n : ℕ) (xs : List ℕ) → n ≤ length xs → length (take n xs) ≡ n
length-take zero xs h = refl
length-take (suc n) [] h = absurd (omega arith)
length-take (suc n) (x ∷ xs) h = omega (arith, length-take n xs (omega arith))

pub AllSized-snoc :
    (l : List Msg) (m : Msg)
    → AllSized l
    → length m.payload ≡ m.len
    → m.len ≤ max_data
    → AllSized (l ++ m ∷ [])
AllSized-snoc [] m a p q = (p, q, tt)
AllSized-snoc (x ∷ l) m a p q = (a.0, a.1, AllSized-snoc l m a.2 p q)

-- What a call on port `p` leaves alone.
pub record OnlyPort (p : ℕ) (s s' : Ipc) : Type 0 where
  pub others : (q : ℕ) → p ≢ q → s'.ports q ≡ s.ports q
  pub registry_kept : s'.registry ≡ s.registry
  pub ready_kept : s'.ready ≡ s.ready
  pub port_ids_kept : s'.next_port_id ≡ s.next_port_id

-- A send with a payload buffer to a live, well-formed port, of at most 256 bytes that the buffer
-- has, succeeds where the allocator gives a cell: the message stands last in that port's inbox,
-- other ports keep theirs, and the message counter moves on.
pub send-appends :
    (p src type len a : ℕ) (b : List ℕ) (s : Ipc) (port : Port)
    → p ≢ null
    → len ≤ max_data
    → len ≤ length b
    → s.ports p ≡ some port
    → PortValid port
    → (s' : Ipc) × (port' : Port) × (send p src type (some b) len (some a) s ≡ ok (ipc_ok, s'))
      × (s'.ports p ≡ some port')
      × (port'.inbox ≡ port.inbox ++ message s src type len b ∷ [])
      × PortValid port'
      × OnlyPort p s s'
      × (s'.next_msg_id ≡ next32 s.next_msg_id)
unfolding send
send-appends p src type len a b s port live small enough at v =
    let m = message s src type len b in
    let port' : Port = record port {
      inbox = port.inbox ++ m ∷ [];
      pending = next32 port.pending;
    } in
    let not_null : (p == null) ≡ false = ne→== p null live in
    let fits : ltb max_data len ≡ false = le→ltb max_data len small in
    let self : (p == p) ≡ true = ==_refl p in
    let c = v.counted in
    (
      record s { next_msg_id = next32 s.next_msg_id; ports = update s.ports p (some port') },
      port',
      rw (not_null, fits, at, with_port),
      rw self,
      refl,
      record {
        counted = omega (arith, length-append port.inbox (m ∷ []));
        sized = AllSized-snoc port.inbox m v.sized (length-take len b enough) small;
      },
      record {
        others = λ q ne. rw (ne→== p q ne);
        registry_kept = refl;
        ready_kept = refl;
        port_ids_kept = refl;
      },
      refl,
    )

-- A receive takes the first message of the inbox.
pub recv-takes :
    (p : ℕ) (s : Ipc) (port : Port) (m : Msg) (rest : List Msg)
    → p ≢ null
    → s.ports p ≡ some port
    → port.inbox ≡ m ∷ rest
    → PortValid port
    → (s' : Ipc) × (port' : Port) × (recv p true s ≡ ok (ipc_ok, some m, s'))
      × (s'.ports p ≡ some port')
      × (port'.inbox ≡ rest)
      × PortValid port'
      × OnlyPort p s s'
      × (s'.next_msg_id ≡ s.next_msg_id)
unfolding recv recv_from
recv-takes p s port m rest live at inbox v =
    let port' : Port = record port { inbox = rest; pending = prev32 port.pending } in
    let not_null : (p == null) ≡ false = ne→== p null live in
    let self : (p == p) ≡ true = ==_refl p in
    let c = v.counted in
    let n : length port.inbox ≡ suc (length rest) = ap length inbox in
    let sized : AllSized (m ∷ rest) = subst AllSized inbox v.sized in
    (
      record s { ports = update s.ports p (some port') },
      port',
      rw (not_null, at, with_port, inbox),
      rw self,
      refl,
      record { counted = omega arith; sized = sized.2 },
      record {
        others = λ q ne. rw (ne→== p q ne);
        registry_kept = refl;
        ready_kept = refl;
        port_ids_kept = refl;
      },
      refl,
    )

-- On an empty inbox a receive asks to try again, and changes nothing.
pub recv-again :
    (p : ℕ) (s : Ipc) (port : Port)
    → p ≢ null
    → s.ports p ≡ some port
    → port.inbox ≡ []
    → recv p true s ≡ ok (ipc_eagain, none, s)
unfolding recv recv_from
recv-again p s port live at inbox = rw (ne→== p null live, at, with_port, inbox)
