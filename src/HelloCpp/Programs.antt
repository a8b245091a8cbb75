-- ===== src/HelloCpp/Programs.antt =====
-- The programs BinderServer.cpp and BinderClient.cpp of Demos/BinderCppDemo. What they call of
-- libbinder is a parameter; the threads of the server only wait for transactions.
pub mod Visits
use mathlib.Core.Path.{subst}
use android_source_learn.Prelude.{
  ℕ, zero, suc, ◌+◌, ◌%◌, ◌^◌, ◌≡◌, refl, ◌∙◌, ap, Option, none, some, List, [], ◌∷◌, length, arith,
}
use android_source_learn.Prelude.Int.{ℤ, pos, minus_one, signed32}
use android_source_learn.HelloCpp.{
  ParcelClass, Strings, Greeter, say_hello, say_hello_to, request_head, bp_say_hello,
  bp_say_hello_to,
}
use android_source_learn.HelloCpp.Fifo.{Item, IsFifo}
use android_source_learn.HelloCpp.Transparent.{link, bp_say_hello-link, bp_say_hello_to-link}

-- "hello"
abbrev pub service_name : List ℕ
service_name = b'h' ∷ b'e' ∷ b'l' ∷ b'l' ∷ b'o' ∷ []

-- "nihao"
abbrev pub greeted_name : List ℕ
greeted_name = b'n' ∷ b'i' ∷ b'h' ∷ b'a' ∷ b'o' ∷ []

-- The object behind `defaultServiceManager()`, and the transactions with a binder that it finds,
-- over the state of all processes. A null binder is `none`.
pub record ManagerClass (c : ParcelClass) (W : Type 0) : Type 1 where
  pub Binder : Type 0
  pub add_service : List ℕ → Greeter → W → W
  pub get_service : List ℕ → W → Option Binder
  pub transact : Binder → ℕ → c.Parcel → W → c.Parcel × W

-- A process with a new BnHelloService: the static counters are 0.
abbrev pub new_service : Greeter
new_service = record { count = 0; cnt = 0; log = [] }

module _ (c : ParcelClass) (str : Strings) {W : Type 0} (sm : ManagerClass c W) where
  -- `main` of BinderServer.cpp, up to the point where its threads wait.
  unfoldable pub cpp_server_main : W → W
  cpp_server_main w = sm.add_service (str.to_string16 service_name) new_service w

  -- `main` of BinderClient.cpp: its result, the count that it logs, and what becomes of the rest.
  unfoldable pub cpp_client_main : W → ℤ × Option ℤ × W
  cpp_client_main w = elim (sm.get_service (str.to_string16 service_name) w) [
    | none ↦ (minus_one, none, w)
    | some binder ↦
        let w' = bp_say_hello c str (sm.transact binder) w in
        let (cnt, w'') = bp_say_hello_to c str (sm.transact binder) greeted_name w' in
        (pos 0, some cnt, w'')
  ]

  -- Clients one after another, with the result and the log of each.
  abbrev pub run_clients : ℕ → W → List (ℤ × Option ℤ) × W
  run_clients zero w = ([], w)
  run_clients (suc n) w =
      let (z, cnt, w') = cpp_client_main w in
      let (rest, w'') = run_clients n w' in ((z, cnt) ∷ rest, w'')

-- What libbinder is documented to do: a service that was added is found under its name, and a
-- transaction with its binder is one with the service, which goes on under its name.
-- `Hosts w name g` says that a service in the state `g` has been added under `name`.
pub record IsManager (c : ParcelClass) (str : Strings)
    (base : ℕ → c.Parcel → c.Parcel → ℤ × c.Parcel) (deliver : c.Parcel → c.Parcel) {W : Type 0}
    (sm : ManagerClass c W) : Type 1 where
  pub Hosts : W → List ℕ → Greeter → Type 0
  pub added : (w : W) (name : List ℕ) (g : Greeter) → Hosts (sm.add_service name g w) name g
  pub found :
      (w : W) (name : List ℕ) (g : Greeter)
      → Hosts w name g
      → (b : sm.Binder) × (sm.get_service name w ≡ some b)
  pub reached :
      (w : W) (name : List ℕ) (g : Greeter) (b : sm.Binder) (code : ℕ) (data' : c.Parcel)
      → Hosts w name g
      → sm.get_service name w ≡ some b
      → ((sm.transact b code data' w).0 ≡ (link c str base deliver code data' g).0)
        × Hosts (sm.transact b code data' w).1 name (link c str base deliver code data' g).1
        × (sm.get_service name (sm.transact b code data' w).1 ≡ some b)

-- A client that calls the service once more.
abbrev pub visited : Greeter → Greeter
visited g = (say_hello_to greeted_name (say_hello g)).1

-- What the clients from the one after `k` others on return and log, `n` of them.
abbrev pub logged : ℕ → ℕ → List (ℤ × Option ℤ)
logged zero k = []
logged (suc n) k = (pos 0, some (signed32 ((k + 1) % 2 ^ 32))) ∷ logged n (k + 1)
