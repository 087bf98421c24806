-- ===== src/Ipc/Fifo.antt =====
-- A port against its specification, a queue of messages with the next message number.
use cf_os.Base.{
  ℕ, ◌≡◌, ◌≢◌, refl, ap, ◌∙◌, true, Option, some, none, List, [], ◌∷◌, ◌++◌, arith, ltb, length,
  take, ok, ◌>>=◌, if◌then◌else◌, ne→==, Bool-cases, inl, inr, Run, false, ◌%◌, ◌^◌, Option-cases,
}
use cf_os.Base.Int.{ℤ}
use cf_os.Ipc.{
  Msg, Port, Ipc, null, max_data, ipc_ok, ipc_enomem, ipc_eagain, ipc_e2big, next32, with_port,
  send, recv, pending,
}
use cf_os.Ipc.Ports.{PortValid, send-appends, recv-takes, recv-again}

-- a client's calls on one port: send all of `bytes`, with the address that `calloc` returns, if any;
-- receive; ask how many messages wait
pub data Op : Type 0 where
  give : (src type : ℕ) → (bytes : List ℕ) → (cell : Option ℕ) → Op
  take_one : Op
  count : Op

-- what the calls return: a code, a code with the message, or a number
pub data Reply : Type 0 where
  sent : ℤ → Reply
  received : ℤ → Option Msg → Reply
  counted : ℕ → Reply

-- the calls against the code
unfoldable pub run : ℕ → List Op → Ipc → Run (List Reply)
run p [] s = ok []
run p (give src type b cell ∷ ops) s =
    send p src type (some b) (length b) cell s >>= λ r. run p ops r.1 >>= λ rs. ok (sent r.0 ∷ rs)
run p (take_one ∷ ops) s = recv p true s >>= λ r. run p ops r.2 >>= λ rs. ok (received r.0 r.1 ∷ rs)
run p (count ∷ ops) s = pending p s >>= λ n. run p ops s >>= λ rs. ok (counted n ∷ rs)

-- the calls against the specification: the messages that wait, the oldest first, and the next number
unfoldable pub run_spec : List Op → List Msg → ℕ → List Reply
run_spec [] q n = []
run_spec (give src type b cell ∷ ops) q n =
    let m : Msg = record {
      id = n;
      src = src;
      type = type;
      flags = 0;
      len = length b;
      payload = b;
    } in
    if ltb max_data (length b) then sent ipc_e2big ∷ run_spec ops q n else (elim cell [
      | none ↦ sent ipc_enomem ∷ run_spec ops q n
      | some a ↦ sent ipc_ok ∷ run_spec ops (q ++ m ∷ []) (next32 n)
    ])
run_spec (take_one ∷ ops) [] n = received ipc_eagain none ∷ run_spec ops [] n
run_spec (take_one ∷ ops) (m ∷ q) n = received ipc_ok (some m) ∷ run_spec ops q n
run_spec (count ∷ ops) q n = counted (length q % 2 ^ 32) ∷ run_spec ops q n

take-length : (xs : List ℕ) → take (length xs) xs ≡ xs
take-length [] = refl
take-length (x ∷ xs) = ap (λ t. x ∷ t) (take-length xs)

send-too_big :
    (p src type : ℕ) (b : List ℕ) (cell : Option ℕ) (s : Ipc)
    → p ≢ null
    → ltb max_data (length b) ≡ true
    → send p src type (some b) (length b) cell s ≡ ok (ipc_e2big, s)
unfolding send
send-too_big p src type b cell s live big = rw (ne→== p null live, big)

send-no_memory :
    (p src type : ℕ) (b : List ℕ) (s : Ipc)
    → p ≢ null
    → ltb max_data (length b) ≡ false
    → send p src type (some b) (length b) none s ≡ ok (ipc_enomem, s)
unfolding send
send-no_memory p src type b s live fits = rw (ne→== p null live, fits)

pending-length :
    (p : ℕ) (s : Ipc) (port : Port)
    → p ≢ null
    → s.ports p ≡ some port
    → PortValid port
    → pending p s ≡ ok (length port.inbox % 2 ^ 32)
unfolding pending
pending-length p s port live at v = rw (ne→== p null live, at, with_port, v.counted) refl

take_step :
    (p : ℕ) (ops : List Op) (s : Ipc) (port : Port) (q : List Msg)
    → p ≢ null
    → s.ports p ≡ some port
    → port.inbox ≡ q
    → PortValid port
    → ((s' : Ipc) (port' : Port) (q' : List Msg)
        → s'.ports p ≡ some port'
        → port'.inbox ≡ q'
        → PortValid port'
        → run p ops s' ≡ ok (run_spec ops q' s'.next_msg_id))
    → run p (take_one ∷ ops) s ≡ ok (run_spec (take_one ∷ ops) q s.next_msg_id)
unfolding run run_spec
take_step p ops s port [] live at inbox v later =
    rw (recv-again p s port live at inbox, later s port [] at inbox v)
take_step p ops s port (m ∷ q) live at inbox v later =
    let (s', port', done, at', inbox', v', only, ids) = recv-takes p s port m q live at inbox v in
    let tail : run p ops s' ≡ ok (run_spec ops q s.next_msg_id) =
      later s' port' q at' inbox' v' ∙ ap (λ n. ok (run_spec ops q n)) ids in
    rw (done, tail)

-- From a port that is live and well-formed, any sequence of sends of whole buffers, receives and
-- queries of the pending count on it never faults and returns what a first-in first-out queue that
-- numbers its messages returns, with the same codes and messages, whether the allocator gives each
-- send a cell or not; the count is that of the messages that wait, modulo 2 ^ 32.
pub calls_refine :
    (p : ℕ) (ops : List Op) (s : Ipc) (port : Port) (q : List Msg)
    → p ≢ null
    → s.ports p ≡ some port
    → port.inbox ≡ q
    → PortValid port
    → run p ops s ≡ ok (run_spec ops q s.next_msg_id)
unfolding run run_spec
calls_refine p [] s port q live at inbox v = refl
calls_refine p (take_one ∷ ops) s port q live at inbox v =
    take_step p ops s port q live at inbox v
      (λ s' port' q' at' inbox' v'. calls_refine p ops s' port' q' live at' inbox' v')
calls_refine p (count ∷ ops) s port q live at inbox v =
    let tail = calls_refine p ops s port q live at inbox v in
    rw (pending-length p s port live at v, tail, inbox) refl
calls_refine p (give src type b cell ∷ ops) s port q live at inbox v =
    let tail = calls_refine p ops s port q live at inbox v in
    elim (Bool-cases (ltb max_data (length b))) [
      | inl big ↦ rw (send-too_big p src type b cell s live big, tail, big)
      | inr fits ↦ elim (Option-cases cell) [
        | inl e ↦ rw (e, send-no_memory p src type b s live fits, tail, fits)
        | inr (a, e) ↦
            let (s', port', done, at', inbox', v', only, ids) =
              send-appends p src type (length b) a b s port live (ground arith) (omega arith) at
                v in
            let next = calls_refine p ops s' port' port'.inbox live at' refl v' in
            let whole = take-length b in rw (e, done, next, ids, inbox', inbox, whole, fits)
      ]
    ]
