-- ===== src/HelloCpp/Transparent.antt =====
-- A proxy stands for the service: calls through BpHelloService, the transport and
-- BnHelloService::onTransact do what the same calls of the service itself do.
use android_source_learn.Prelude.{
  ℕ, ◌+◌, ◌%◌, ◌^◌, ◌<◌, ◌≡◌, refl, List, [], ◌∷◌, if◌then◌else◌, arith,
}
use android_source_learn.Prelude.Int.{ℤ, pos, is_nonzero, signed32}
use android_source_learn.HelloCpp.{
  ParcelClass, Strings, Greeter, say_hello, say_hello_to, on_transact, request_head, bp_say_hello,
  bp_say_hello_to, hello_interface,
}
use android_source_learn.HelloCpp.Fifo.{Delivers, number, text, IsInt32, IsFifo}

signed32-IsInt32 : (n : ℕ) → n < 2 ^ 32 → IsInt32 (signed32 n)
signed32-IsInt32 n small = ground arith

say_hello_to-IsInt32 : (name : List ℕ) (g : Greeter) → IsInt32 (say_hello_to name g).0
unfolding say_hello_to
say_hello_to-IsInt32 name g = signed32-IsInt32 ((g.cnt + 1) % 2 ^ 32) (omega arith)

-- A call of the service.
pub data Call : Type 0 where
  say : Call
  say_to : List ℕ → Call

-- The names survive the two conversions, as texts do.
abbrev pub AreTexts : Strings → List Call → Type 0
AreTexts str [] = Unit {0}
AreTexts str (say ∷ cs) = AreTexts str cs
AreTexts str (say_to name ∷ cs) = (str.to_string8 (str.to_string16 name) ≡ name) × AreTexts str cs

-- The calls of the service itself, with their results.
abbrev pub run_local : List Call → Greeter → List ℤ × Greeter
run_local [] g = ([], g)
run_local (say ∷ cs) g = run_local cs (say_hello g)
run_local (say_to name ∷ cs) g =
    let (z, g') = say_hello_to name g in let (zs, g'') = run_local cs g' in (z ∷ zs, g'')

module _ (c : ParcelClass) (str : Strings) (base : ℕ → c.Parcel → c.Parcel → ℤ × c.Parcel)
    (deliver : c.Parcel → c.Parcel) where
  -- The transport: it delivers the request, and the reply of a transaction with the result 0.
  abbrev pub link : ℕ → c.Parcel → Greeter → c.Parcel × Greeter
  link code data' g =
      let (status, reply, g') = on_transact c str base code (deliver data') c.empty g in
      (if is_nonzero status then c.empty else deliver reply, g')

  -- The calls through a proxy.
  abbrev pub run_proxy : List Call → Greeter → List ℤ × Greeter
  run_proxy [] g = ([], g)
  run_proxy (say ∷ cs) g = run_proxy cs (bp_say_hello c str link g)
  run_proxy (say_to name ∷ cs) g =
      let (z, g') = bp_say_hello_to c str link name g in
      let (zs, g'') = run_proxy cs g' in (z ∷ zs, g'')

  pub bp_say_hello-link : (g : Greeter) → bp_say_hello c str link g ≡ say_hello g
  unfolding bp_say_hello on_transact
  bp_say_hello-link g = refl

  module _ (fifo : IsFifo c) (delivers : Delivers c fifo deliver) where
    -- The answer to a greeting: the count, behind the word that says that there is no exception.
    answered :
        (z : ℤ)
        → fifo.Unread
            (deliver (c.write_int32 z (c.write_int32 (pos 0) c.empty)))
            (number (pos 0) ∷ number z ∷ [])
    answered z = delivers _ _ (fifo.write_int32 _ _ z (fifo.write_int32 _ _ (pos 0) fifo.empty))

    requested :
        (name : List ℕ)
        → fifo.Unread (deliver (c.write_string16 (str.to_string16 name) (request_head c str))) (
            number (pos 0)
            ∷ text (str.to_string16 hello_interface)
            ∷ text (str.to_string16 name)
            ∷ [])
    requested name = delivers _ _ (
        fifo.write_string16 _ _ _
          (fifo.write_string16 _ _ _ (fifo.write_int32 _ _ (pos 0) fifo.empty)))

    pub bp_say_hello_to-link :
        (name : List ℕ) (g : Greeter)
        → str.to_string8 (str.to_string16 name) ≡ name
        → bp_say_hello_to c str link name g ≡ say_hello_to name g
    unfolding bp_say_hello_to on_transact
    bp_say_hello_to-link name g same =
        let (_, behind_policy) = fifo.read_int32 _ _ (pos 0) (omega arith) (requested name) in
        let (_, behind_interface) = fifo.read_string16 _ _ _ behind_policy in
        let (got, _) = fifo.read_string16 _ _ _ behind_interface in
        let z = (say_hello_to name g).0 in
        let (no_exception, behind) = fifo.read_int32 _ _ (pos 0) (omega arith) (answered z) in
        let (count, _) = fifo.read_int32 _ _ z (say_hello_to-IsInt32 name g) behind in
        rw (got, same, no_exception, count) refl

    -- If a parcel is read in the order in which it was written, the transport delivers what was
    -- written as a parcel at its start, and the names are texts, then any calls through a proxy give the results of the same
    -- calls of the service itself, and leave the same counters and the same log.
    pub run_proxy-run_local :
        (cs : List Call) (g : Greeter) → AreTexts str cs → run_proxy cs g ≡ run_local cs g
    run_proxy-run_local [] g texts = refl
    run_proxy-run_local (say ∷ cs) g texts =
        rw (bp_say_hello-link g) (run_proxy-run_local cs (say_hello g) texts)
    run_proxy-run_local (say_to name ∷ cs) g (same, texts) =
        rw (bp_say_hello_to-link name g same, run_proxy-run_local cs (say_hello_to name g).1 texts)
          refl
