-- ===== src/Ipc/Examples.antt =====
-- Two ports and a short name and a long one.
use cf_os.Base.{◌≡◌, ◌≢◌, refl, sym, true, some, none, List, [], ◌∷◌, arith, replicate, take, ok}
use cf_os.Ipc.{
  Name, Port, Service, Ipc, null, ipc_ok, ipc_eexist, ipc_enoent, update, same_name, find_in, init,
  port_create, register_service, unregister_service, lookup_service,
}
use cf_os.Ipc.Ports.{PortValid}
use cf_os.Ipc.Fifo.{Op, give, take_one, count, run, run_spec, calls_refine}
use cf_os.Ipc.Registry.{lookup-register, register-long, lookup-unregister}
use cf_os.Ipc.Reach.{boot, Step, Reach, IsSound}
use cf_os.Ipc.Safety.{Reach-IsSound}

abbrev port_a : Port
port_a = record { id = 1; name = []; owner = 0; pending = 0; inbox = [] }

abbrev short_name : Name
short_name = b'n' ∷ b'e' ∷ b't' ∷ []

abbrev long_name : Name
long_name = replicate 40 b'x'

abbrev ready : Ipc
ready = record {
  registry = some [];
  next_port_id = 2;
  next_msg_id = 1;
  ready = true;
  ports = update (λ p. none) 0x100 (some port_a);
}

set_up_runs : (port_create (some 0x100) (init boot)).1 ≡ ready
unfolding init port_create
set_up_runs = refl

port_a-valid : PortValid port_a
port_a-valid = record { counted = refl; sized = tt }

abbrev client : List Op
client =
    give 7 3 (1 ∷ 2 ∷ []) (some 1) ∷ give 7 3 [] none ∷ count ∷ take_one ∷ count ∷ take_one ∷ []

calls_refine_example : run 0x100 client ready ≡ ok (run_spec client [] 1)
calls_refine_example =
    calls_refine 0x100 client ready port_a [] (omega arith) refl refl port_a-valid

nothing_found : (name : Name) → find_in name [] ≡ none
unfolding find_in
nothing_found name = refl

lookup-register_example :
    (s' : Ipc) × (register_service (some short_name) 0x100 (some 1) ready ≡ ok (ipc_ok, s'))
    × (lookup_service (some short_name) s' ≡ ok 0x100)
    × ((m : Name) → m ≢ short_name → lookup_service (some m) s' ≡ lookup_service (some m) ready)
    × (register_service (some short_name) 0x100 (some 1) s' ≡ ok (ipc_eexist, s'))
lookup-register_example =
    lookup-register ready [] refl short_name 0x100 1 port_a (omega arith) refl
      (nothing_found short_name) (omega arith)

register-long_example :
    (s' : Ipc) × (s'' : Ipc) × (register_service (some long_name) 0x100 (some 1) ready
      ≡ ok (ipc_ok, s'))
    × (lookup_service (some (take 31 long_name)) s' ≡ ok 0x100)
    × (lookup_service (some long_name) s' ≡ ok null)
    × ((m : Name)
        → m ≢ take 31 long_name
        → lookup_service (some m) s' ≡ lookup_service (some m) ready)
    × (register_service (some long_name) 0x100 (some 1) s' ≡ ok (ipc_ok, s''))
register-long_example =
    register-long ready [] refl long_name 0x100 1 port_a (omega arith) refl
      (nothing_found long_name) (omega arith) (nothing_found (take 31 long_name))

abbrev net : Service
net = record { name = short_name; port = 0x100 }

abbrev one_service : Ipc
one_service = record ready { registry = some (net ∷ []) }

net_found : find_in short_name (net ∷ []) ≡ some net
unfolding find_in same_name
net_found = refl

lookup-unregister_example :
    (s' : Ipc) × (unregister_service (some short_name) one_service ≡ ok (ipc_ok, s'))
    × (lookup_service (some short_name) s' ≡ ok null)
    × ((m : Name)
        → m ≢ short_name
        → lookup_service (some m) s' ≡ lookup_service (some m) one_service)
    × (unregister_service (some short_name) s' ≡ ok (ipc_enoent, s'))
lookup-unregister_example =
    lookup-unregister one_service (net ∷ []) short_name net refl (nothing_found short_name, tt)
      net_found

ready-Reach : Reach ready
unfolding init
ready-Reach =
    Reach.next (Reach.next Reach.start (Step.inits boot (init boot) refl))
      (Step.creates (init boot) ready 0x100 (omega arith) no_port (sym set_up_runs))
  where
    no_port : (init boot).ports 0x100 ≡ none
    no_port = refl

Reach-IsSound_example : IsSound ready
Reach-IsSound_example = Reach-IsSound ready ready-Reach
