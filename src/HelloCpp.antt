-- ===== src/HelloCpp.antt =====
-- The service hello over libbinder, in Demos/BinderCppDemo: BnHelloService.cpp on the side of the
-- service and BpHelloService.cpp on the side of its clients. The class Parcel, the strings and the
-- transport are parameters.
pub mod Fifo
pub mod Transparent
pub mod Programs
use android_source_learn.Prelude.{ℕ, ◌+◌, ◌%◌, ◌^◌, List, [], ◌∷◌, ◌==◌, if◌then◌else◌}
use android_source_learn.Prelude.Int.{ℤ, pos, minus_one, is_nonzero, signed32}

-- What the code calls of the class Parcel. A reader gives the parcel with its position moved on.
pub record ParcelClass : Type 1 where
  pub Parcel : Type 0
  pub empty : Parcel
  pub write_int32 : ℤ → Parcel → Parcel
  pub write_string16 : List ℕ → Parcel → Parcel
  pub read_int32 : Parcel → ℤ × Parcel
  pub read_string16 : Parcel → List ℕ × Parcel

-- The constructors of String16 and String8 from each other's characters.
pub record Strings : Type 0 where
  pub to_string16 : List ℕ → List ℕ
  pub to_string8 : List ℕ → List ℕ

abbrev pub hello_svr_cmd_sayhello : ℕ
hello_svr_cmd_sayhello = 1

abbrev pub hello_svr_cmd_sayhello_to : ℕ
hello_svr_cmd_sayhello_to = 2

-- "IHelloService"
abbrev pub hello_interface : List ℕ
hello_interface =
    b'I' ∷ b'H' ∷ b'e' ∷ b'l' ∷ b'l' ∷ b'o' ∷ b'S' ∷ b'e' ∷ b'r' ∷ b'v' ∷ b'i' ∷ b'c' ∷ b'e' ∷ []

-- A line of the log.
pub data Line : Type 0 where
  hello : ℕ → Line
  hello_to : List ℕ → ℕ → Line

-- The static counters of the two functions, as 32-bit words, and the log, newest first.
pub record Greeter : Type 0 where
  pub count : ℕ
  pub cnt : ℕ
  pub log : List Line

unfoldable pub say_hello : Greeter → Greeter
say_hello g =
    let count' = (g.count + 1) % 2 ^ 32 in record g { count = count'; log = hello count' ∷ g.log }

unfoldable pub say_hello_to : List ℕ → Greeter → ℤ × Greeter
say_hello_to name g =
    let cnt' = (g.cnt + 1) % 2 ^ 32 in
    (signed32 cnt', record g { cnt = cnt'; log = hello_to name cnt' ∷ g.log })

module _ (c : ParcelClass) (str : Strings) where
  -- `BnHelloService::onTransact`, with its result, the reply and the service; `base` is
  -- `BBinder::onTransact`.
  unfoldable pub on_transact :
      (base : ℕ → c.Parcel → c.Parcel → ℤ × c.Parcel)
      → (code : ℕ) (data' reply : c.Parcel) → Greeter
      → ℤ × c.Parcel × Greeter
  on_transact base code data' reply g =
      if code == hello_svr_cmd_sayhello
      then (pos 0, c.write_int32 (pos 0) reply, say_hello g)
      else if code == hello_svr_cmd_sayhello_to
      then (let (policy, data1) = c.read_int32 data' in
          let (name16_tmp, data2) = c.read_string16 data1 in
          let (name16, _) = c.read_string16 data2 in
          let (cnt, g') = say_hello_to (str.to_string8 name16) g in
          (pos 0, c.write_int32 cnt (c.write_int32 (pos 0) reply), g'))
      else (let (status, reply') = base code data' reply in (status, reply', g))

  -- The head that both functions of BpHelloService write.
  abbrev pub request_head : c.Parcel
  request_head = c.write_string16 (str.to_string16 hello_interface) (c.write_int32 (pos 0) c.empty)

  -- What a proxy is over: `transact` gives the reply, and what has become of the other side.
  module _ {S : Type 0} (transact : ℕ → c.Parcel → S → c.Parcel × S) where
    -- `BpHelloService::sayHello`
    unfoldable pub bp_say_hello : S → S
    bp_say_hello s = (transact hello_svr_cmd_sayhello request_head s).1

    -- `BpHelloService::sayHelloTo`
    unfoldable pub bp_say_hello_to : List ℕ → S → ℤ × S
    bp_say_hello_to name s =
        let data' = c.write_string16 (str.to_string16 name) request_head in
        let (reply, s') = transact hello_svr_cmd_sayhello_to data' s in
        let (exception, reply') = c.read_int32 reply in
        (if is_nonzero exception then minus_one else (c.read_int32 reply').0, s')
