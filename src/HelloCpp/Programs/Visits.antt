-- ===== src/HelloCpp/Programs/Visits.antt =====
-- What the clients of Demos/BinderCppDemo get from the server, one after another.
use mathlib.Core.Path.{subst}
use android_source_learn.Prelude.{ℕ, zero, suc, ◌+◌, ◌%◌, ◌^◌, ◌≡◌, refl, ap, some, List, arith}
use android_source_learn.Prelude.Int.{ℤ, pos, signed32}
use android_source_learn.HelloCpp.{
  ParcelClass, Strings, Greeter, say_hello, say_hello_to, request_head, bp_say_hello,
  bp_say_hello_to,
}
use android_source_learn.HelloCpp.Fifo.{IsFifo, Delivers}
use android_source_learn.HelloCpp.Transparent.{bp_say_hello-link, bp_say_hello_to-link}
use android_source_learn.HelloCpp.Programs.{
  ManagerClass, IsManager, service_name, greeted_name, new_service, cpp_server_main,
  cpp_client_main, run_clients, visited, logged,
}

module _ (c : ParcelClass) (str : Strings) (base : ℕ → c.Parcel → c.Parcel → ℤ × c.Parcel)
    (deliver : c.Parcel → c.Parcel) {W : Type 0} (sm : ManagerClass c W)
    (laws : IsManager c str base deliver sm) (fifo : IsFifo c) (delivers : Delivers c fifo deliver)
    (texts : str.to_string8 (str.to_string16 greeted_name) ≡ greeted_name) where
  abbrev pub name16 : List ℕ
  name16 = str.to_string16 service_name

  called_once :
      (w : W) (g : Greeter) (b : sm.Binder)
      → laws.Hosts w name16 g
      → sm.get_service name16 w ≡ some b
      → let w' = bp_say_hello c str (sm.transact b) w in
        laws.Hosts w' name16 (say_hello g) × (sm.get_service name16 w' ≡ some b)
  unfolding bp_say_hello
  called_once w g b h found =
      let (_, hosts, still) = laws.reached w name16 g b 1 (request_head c str) h found in
      (
        subst (laws.Hosts (bp_say_hello c str (sm.transact b) w) name16)
            (bp_say_hello-link c str base deliver g) hosts,
        still,
      )

  called_to :
      (w : W) (g : Greeter) (b : sm.Binder)
      → laws.Hosts w name16 g
      → sm.get_service name16 w ≡ some b
      → let (z, w') = bp_say_hello_to c str (sm.transact b) greeted_name w in
        (z ≡ (say_hello_to greeted_name g).0) × laws.Hosts w' name16 (say_hello_to greeted_name g).1
  unfolding bp_say_hello_to
  called_to w g b h found =
      let data' = c.write_string16 (str.to_string16 greeted_name) (request_head c str) in
      let (same, hosts, _) = laws.reached w name16 g b 2 data' h found in
      let local = bp_say_hello_to-link c str base deliver fifo delivers greeted_name g texts in
      (
        rw same (ap (λ r. r.0) local),
        subst (laws.Hosts (bp_say_hello_to c str (sm.transact b) greeted_name w).1 name16)
            (ap (λ r. r.1) local) hosts,
      )

  -- The two calls of a client.
  client_step :
      (w : W) (g : Greeter)
      → laws.Hosts w name16 g
      → (w' : W) × (cpp_client_main c str sm w
          ≡ (pos 0, some (say_hello_to greeted_name (say_hello g)).0, w'))
        × laws.Hosts w' name16 (visited g)
  unfolding cpp_client_main
  client_step w g h =
      let (b, found) = laws.found w name16 g h in
      let (hosts, still) = called_once w g b h found in
      let (count, after) = called_to _ (say_hello g) b hosts still in
      (
        (bp_say_hello_to c str (sm.transact b) greeted_name
            (bp_say_hello c str (sm.transact b) w)).1,
        rw (found, cpp_client_main) (rw count refl),
        after,
      )

  visited_counts :
      (g : Greeter) (k : ℕ)
      → g.count ≡ k % 2 ^ 32
      → g.cnt ≡ k % 2 ^ 32
      → ((visited g).count ≡ (k + 1) % 2 ^ 32)
        × ((visited g).cnt ≡ (k + 1) % 2 ^ 32)
        × ((say_hello_to greeted_name (say_hello g)).0 ≡ signed32 ((k + 1) % 2 ^ 32))
  unfolding say_hello say_hello_to
  visited_counts g k e f =
      let next : (g.cnt + 1) % 2 ^ 32 ≡ (k + 1) % 2 ^ 32 = omega (arith, f) in
      (omega (arith, e), next, ap signed32 next)

  -- The service behind a name after `k` clients.
  pub record Served (w : W) (k : ℕ) : Type 0 where
    greeter : Greeter
    hosts : laws.Hosts w name16 greeter
    count : greeter.count ≡ k % 2 ^ 32
    cnt : greeter.cnt ≡ k % 2 ^ 32

  run_clients-Served :
      (n k : ℕ) (w : W)
      → Served w k
      → ((run_clients c str sm n w).0 ≡ logged n k) × Served (run_clients c str sm n w).1 (k + n)
  run_clients-Served zero k w v = (refl, subst (Served w) (omega arith) v)
  run_clients-Served (suc n) k w v =
      let (w', ran, hosts) = client_step w v.greeter v.hosts in
      let (count, cnt, z) = visited_counts v.greeter k v.count v.cnt in
      let (rest, served) =
        run_clients-Served n (k + 1) w'
          (record { greeter = visited v.greeter; hosts = hosts; count = count; cnt = cnt }) in
      (
        rw (ran, z, rest) refl,
        rw ran (subst (Served (run_clients c str sm n w').1) (omega arith) served),
      )

  -- After the server has been started, clients one after another all succeed: the first logs the
  -- count 1, and each one more than the one before, as a 32-bit number; after `n` clients the
  -- service is still there under its name, and both its counters are `n`, modulo 2^32.
  pub run_clients-logged :
      (n : ℕ) (w : W)
      → let (outs, w') = run_clients c str sm n (cpp_server_main c str sm w) in
        (outs ≡ logged n 0) × Served w' n
  unfolding cpp_server_main
  run_clients-logged n w =
      let start : Served (cpp_server_main c str sm w) 0 = record {
        greeter = new_service;
        hosts = laws.added w name16 new_service;
        count = refl;
        cnt = refl;
      } in
      let (outs, served) = run_clients-Served n 0 _ start in
      (
        outs,
        subst (Served (run_clients c str sm n (cpp_server_main c str sm w)).1) (omega arith) served,
      )
