-- ===== src/HelloServer/Calls.antt =====
-- What `hello_service_handler` does with a marshalled call of HELLO_SVR_CMD_SAYHELLO_TO.
use mathlib.Core.Path.{subst}
use android_source_learn.Prelude.{
  ◌^◌, ℕ, ◌+◌, ◌%◌, ◌≤◌, ◌≡◌, refl, true, false, none, some, List, [], ◌∷◌, map, length, length-map,
  ltb, if◌then◌else◌, Bool-cases, inl, inr, arith,
}
use android_source_learn.Prelude.Int.{pos}
use android_source_learn.Memory.Units.{unit16}
use android_source_learn.Abi.{TransactionSecctx}
use android_source_learn.Bio.{
  BinderIo, Parcel, c_string, align4, string16_bytes, bio_get_string16, bio_put_uint32,
}
use android_source_learn.Bio.Reads.{advance, bio_get_uint32-room, bio_get_string16-room}
use android_source_learn.Bio.Message.{word, text, Holds, HoldsItem, size_of, total_size}
use android_source_learn.HelloServer.{
  Hello, Handled, hello_svr_cmd_sayhello_to, sayhello_to, copy_name, handle_sayhello_to,
  hello_service_handler,
}

-- The reader behind a string.
abbrev behind_text : BinderIo → List ℕ → BinderIo
behind_text io s = advance (advance io 4) (align4 (string16_bytes (length (c_string s))))

read_text :
    (reply : Parcel) (msg : BinderIo) (s : List ℕ)
    → HoldsItem reply.mem msg.cursor (text s)
    → size_of (text s) ≤ msg.data_avail
    → bio_get_string16 reply.mem msg
      ≡ (some (msg.cursor + 4), length (c_string s), behind_text msg s)
read_text reply msg s (len, units, _) room =
    subst
      (λ n.
        bio_get_string16 reply.mem msg
        ≡ (some (msg.cursor + 4), n, advance (advance msg 4) (align4 (string16_bytes n))))
      len (bio_get_string16-room reply.mem msg (rw len room))

-- The answer to a greeting: the counter goes on by one, as a 32-bit number, and the new count is in
-- the reply, behind the word that says that there is no exception.
abbrev pub greeted : Hello → Parcel → Handled
greeted h reply =
    let count = (h.hellos_to + 1) % 2 ^ 32 in
    some (record h { hellos_to = count }, bio_put_uint32 count (bio_put_uint32 0 reply), pos 0)

copy_name-some :
    (xs : List ℕ) → ltb (length xs) 512 ≡ true → copy_name xs ≡ some (map (λ c. c % 256) xs)
unfolding copy_name
copy_name-some xs short = rw short

copy_name-none : (xs : List ℕ) → ltb (length xs) 512 ≡ false → copy_name xs ≡ none
unfolding copy_name
copy_name-none xs long = rw long

handle_sayhello_to-eq :
    (h : Hello) (msg : BinderIo) (reply : Parcel) (interface name : List ℕ)
    → Holds reply.mem msg.cursor (text interface ∷ text name ∷ [])
    → total_size (text interface ∷ text name ∷ []) ≤ msg.data_avail
    → handle_sayhello_to h msg reply
      ≡ (if ltb (length (c_string name)) 512 then greeted h reply else none)
unfolding handle_sayhello_to sayhello_to
handle_sayhello_to-eq h msg reply interface name (first, (second, _)) room =
    let msg' = behind_text msg interface in
    let one = read_text reply msg interface first (omega arith) in
    let at : msg.cursor + size_of (text interface) ≡ msg'.cursor = omega arith in
    let there : HoldsItem reply.mem msg'.cursor (text name) =
      subst (λ a. HoldsItem reply.mem a (text name)) at second in
    let two = read_text reply msg' name there (omega arith) in
    rw (one, handle_sayhello_to)
      (rw (two, handle_sayhello_to)
        (rw (one, two, there.1)
          (elim (Bool-cases (ltb (length (c_string name)) 512)) [
            | inl short ↦
                rw (short, copy_name-some (map unit16 (c_string name)) (rw length-units short)) refl
            | inr long ↦
                rw (long, copy_name-none (map unit16 (c_string name)) (rw length-units long)) refl
          ])))
  where
    length-units : length (map unit16 (c_string name)) ≡ length (c_string name)
    length-units = length-map (c_string name) unit16

-- A call of HELLO_SVR_CMD_SAYHELLO_TO, whose message holds a word, an interface name and the name
-- to greet, is answered with the next count if the name has less than 512 characters; a longer
-- name is written past the end of the array that the code copies it to.
pub hello_service_handler-sayhello_to :
    (h : Hello) (txn : TransactionSecctx) (msg : BinderIo) (reply : Parcel) (policy : ℕ)
    (interface name : List ℕ)
    → txn.transaction_data.code ≡ hello_svr_cmd_sayhello_to
    → Holds reply.mem msg.cursor (word policy ∷ text interface ∷ text name ∷ [])
    → total_size (word policy ∷ text interface ∷ text name ∷ []) ≤ msg.data_avail
    → hello_service_handler h txn msg reply
      ≡ (if ltb (length (c_string name)) 512 then greeted h reply else none)
unfolding hello_service_handler
hello_service_handler-sayhello_to h txn msg reply policy interface name code (_, rest) room =
    rw (code, bio_get_uint32-room reply.mem msg (omega arith), hello_service_handler)
      (handle_sayhello_to-eq h (advance msg 4) reply interface name rest (omega arith))
