-- ===== src/Protocol/Listing.antt =====
-- A request to list, from the message to the name that its sender reads in the reply.
use mathlib.Core.Path.{subst}
use mathlib.Core.Option.{some-injective}
use android_source_learn.Prelude.{
  ℕ, ◌%◌, ◌^◌, ◌≤◌, ◌≡◌, refl, sym, ◌∙◌, ap, ◌≢◌, true, Option, none, some, List, [], ◌∷◌, map,
  length, ltb, get_elem?, if◌then◌else◌, arith,
}
use android_source_learn.Prelude.Int.{ℤ, pos, minus_one}
use android_source_learn.Memory.{Memory}
use android_source_learn.Memory.Units.{unit16}
use android_source_learn.Abi.{Abi, TransactionSecctx}
use android_source_learn.Bio.{BinderIo, Parcel, c_string, bio_put_string16}
use android_source_learn.Bio.Reads.{bio_get_uint32-room, advance}
use android_source_learn.Bio.Message.{
  Item, word, text, Holds, total_size, Value, got_units, got_null,
}
use android_source_learn.ServiceManager.Access.{System, svc_can_list}
use android_source_learn.ServiceManager.Registry.{Svcinfo, Manager}
use android_source_learn.ServiceManager.Handler.{
  Answers, Outcome, svcmgr_id, svc_mgr_list_services, handle_list, dispatch, refresh_sehandle,
  svcmgr_handler,
}
use android_source_learn.ServiceManager.Handler.Effects.{refresh_same}
use android_source_learn.ServiceManager.Handler.Listing.{supporting, list_walk-get_elem?}
use android_source_learn.ServiceManager.Handler.Requests.{svcmgr_handler-dispatch}
use android_source_learn.Protocol.Replies.{empty_reply}
use android_source_learn.Protocol.ListReply.{Received, read_name, read_name_cases}

-- The items of a request for the service at index `n` of the priorities `req`.
abbrev pub list_items : ℕ → ℕ → List Item
list_items n req = word 0 ∷ word 0 ∷ text svcmgr_id ∷ word n ∷ word req ∷ []

-- The answer: the name, or -1 if there are not so many.
abbrev pub listed : Manager → Parcel → Option Svcinfo → Outcome
listed m reply none = some (m, reply, minus_one)
listed m reply (some si) = some (m, bio_put_string16 (some si.name) reply, pos 0)

module _ (sys : System) (abi : Abi) where
  handle_list-listed :
      (m : Manager) (txn : TransactionSecctx) (msg : BinderIo) (reply : Parcel) (n req : ℕ)
      → svc_can_list sys txn.transaction_data.sender_pid txn.secctx txn.transaction_data.sender_euid
        ≡ true
      → Holds reply.mem msg.cursor (word n ∷ word req ∷ [])
      → 8 ≤ msg.data_avail
      → handle_list sys abi m txn msg reply
        ≡ listed m reply (get_elem? (supporting (req % 2 ^ 32) m.svclist) (n % 2 ^ 32))
  unfolding handle_list
  handle_list-listed m txn msg reply n req allowed (first, (second, _)) room =
      rw
        (
          bio_get_uint32-room reply.mem msg (omega arith),
          bio_get_uint32-room reply.mem (advance msg 4) (omega arith),
          allowed,
          first,
          second,
          list_walk-get_elem? (n % 2 ^ 32) (req % 2 ^ 32) m.svclist,
          handle_list,
        )
        (answered (get_elem? (supporting (req % 2 ^ 32) m.svclist) (n % 2 ^ 32)))
    where
      answered :
          (o : Option Svcinfo)
          → (elim o [
            | none ↦ some (m, reply, minus_one)
            | some si ↦ some (m, bio_put_string16 (some si.name) reply, pos 0)
          ])
            ≡ listed m reply o
      answered none = refl
      answered (some si) = refl

  dispatch-list :
      (ans : Answers) (m : Manager) (txn : TransactionSecctx) (msg : BinderIo) (reply : Parcel)
      → txn.transaction_data.code ≡ svc_mgr_list_services
      → dispatch sys abi ans m txn msg reply ≡ handle_list sys abi m txn msg reply
  unfolding dispatch
  dispatch-list ans m txn msg reply coded = ground arith

  -- A request to list is answered with the service at its index among those that support its
  -- priorities.
  pub svcmgr_handler-listed :
      (ans : Answers) (m : Manager) (txn : TransactionSecctx) (msg : BinderIo) (reply : Parcel)
      (n req : ℕ)
      → txn.transaction_data.target ≡ 0
      → txn.transaction_data.code ≡ svc_mgr_list_services
      → svc_mgr_list_services ≢ abi.ping_transaction
      → svc_can_list sys txn.transaction_data.sender_pid txn.secctx txn.transaction_data.sender_euid
        ≡ true
      → Holds reply.mem msg.cursor (list_items n req)
      → total_size (list_items n req) ≤ msg.data_avail
      → svcmgr_handler sys abi ans m txn msg reply
        ≡ listed
            (refresh_sehandle ans m)
            reply
            (get_elem? (supporting (req % 2 ^ 32) m.svclist) (n % 2 ^ 32))
  svcmgr_handler-listed ans m txn msg reply n req me coded other allowed holds room =
      let (msg', dispatched, cur, av, _, _, _) =
        svcmgr_handler-dispatch sys abi ans m txn msg reply (word n ∷ word req ∷ []) me
          (λ ping. other (sym coded ∙ ping)) holds room in
      dispatched
      ∙ dispatch-list ans (refresh_sehandle ans m) txn msg' reply coded
      ∙ handle_list-listed (refresh_sehandle ans m) txn msg' reply n req allowed
          (subst (λ a. Holds reply.mem a (word n ∷ word req ∷ [])) (sym cur) holds.1.1.1)
          (omega (arith, av))
      ∙ ap
          (λ (l : List Svcinfo).
            listed (refresh_sehandle ans m) reply
              (get_elem? (supporting (req % 2 ^ 32) l) (n % 2 ^ 32)))
          (refresh_same sys abi ans m).0

-- The result of a request, and what its sender reads, by the service at the index.
abbrev pub ListAnswer : Option Svcinfo → ℤ → Value → Type 0
ListAnswer none z v = z ≡ minus_one
ListAnswer (some si) z v =
    (z ≡ pos 0)
    × (v ≡ (
        if ltb (length (c_string si.name)) 110
        then got_units (map unit16 (c_string si.name))
        else got_null))

listed-ListAnswer :
    (o : Option Svcinfo) (m m' : Manager) (rdata : ℕ) (mem mem' : Memory) (reader : BinderIo)
    (reply : Parcel) (z : ℤ)
    → ((si : Svcinfo) → o ≡ some si → length (c_string si.name) ≤ 127)
    → listed m (empty_reply rdata mem) o ≡ some (m', reply, z)
    → Received reply reader mem'
    → ListAnswer o z (read_name mem' reader)
listed-ListAnswer none m m' rdata mem mem' reader reply z names ran r =
    sym (ap (λ o. o.2) (some-injective _ _ ran))
listed-ListAnswer (some si) m m' rdata mem mem' reader reply z names ran r =
    let same = some-injective _ _ ran in
    (
      sym (ap (λ o. o.2) same),
      read_name_cases rdata mem mem' reader si.name (names si refl)
          (subst (λ (p : Parcel). Received p reader mem') (sym (ap (λ o. o.1) same)) r),
    )

-- A whole request to list. The message with the index `n` and the priorities `req` is in the memory
-- of the manager, its sender may list, and the manager's handler returns; the driver has carried
-- the reply to the sender. Then the sender has the name of the service at index `n` among those
-- that support a priority of `req`, if that name has less than 110 characters. A longer one does
-- not fit into the reply: the result is 0 all the same, and nothing is read. If there are not so
-- many services the result is -1.
pub svcmgr_handler-list_services :
    (sys : System) (abi : Abi) (ans : Answers) (m m' : Manager) (txn : TransactionSecctx)
    (msg : BinderIo) (rdata : ℕ) (mem mem' : Memory) (reader : BinderIo) (n req : ℕ)
    (reply : Parcel) (z : ℤ)
    → txn.transaction_data.target ≡ 0
    → txn.transaction_data.code ≡ svc_mgr_list_services
    → svc_mgr_list_services ≢ abi.ping_transaction
    → svc_can_list sys txn.transaction_data.sender_pid txn.secctx txn.transaction_data.sender_euid
      ≡ true
    → Holds mem msg.cursor (list_items n req)
    → total_size (list_items n req) ≤ msg.data_avail
    → ((si : Svcinfo)
        → get_elem? (supporting (req % 2 ^ 32) m.svclist) (n % 2 ^ 32) ≡ some si
        → length (c_string si.name) ≤ 127)
    → svcmgr_handler sys abi ans m txn msg (empty_reply rdata mem) ≡ some (m', reply, z)
    → Received reply reader mem'
    → ListAnswer
        (get_elem? (supporting (req % 2 ^ 32) m.svclist) (n % 2 ^ 32))
        z
        (read_name mem' reader)
svcmgr_handler-list_services sys abi ans m m' txn msg rdata mem mem' reader n req reply z me coded
      other allowed holds room names ran r =
    listed-ListAnswer _ (refresh_sehandle ans m) m' rdata mem mem' reader reply z names
      (sym (
          svcmgr_handler-listed sys abi ans m txn msg (empty_reply rdata mem) n req me coded other
            allowed holds room)
        ∙ ran)
      r
