-- ===== src/Tests/Hello.antt =====
-- A call of the service hello.
use android_source_learn.Prelude.{◌≡◌, refl, none, [], ◌∷◌, length, ltb, if◌then◌else◌, arith}
use android_source_learn.Bio.{Parcel, c_string}
use android_source_learn.Bio.Message.{Holds, word, text, put_items}
use android_source_learn.Bio.Message.Writing.{put_items-Grows}
use android_source_learn.HelloServer.{Hello, hello_svr_cmd_sayhello_to, hello_service_handler}
use android_source_learn.HelloServer.Calls.{greeted, hello_service_handler-sayhello_to}
use android_source_learn.HelloClient.{hello_id}
use android_source_learn.Tests.World.{zeros, hello, request, reader_at, parcel_at}

-- The message of the call, in memory.
abbrev called : Parcel
called = put_items (word 0 ∷ text hello_id ∷ text hello ∷ []) (parcel_at 1056 480 zeros)

called_items : Holds called.mem 1056 (word 0 ∷ text hello_id ∷ text hello ∷ [])
unfolding c_string
called_items =
    (put_items-Grows (word 0 ∷ text hello_id ∷ text hello ∷ []) (parcel_at 1056 480 zeros)
      ((omega arith), ((omega arith), tt)) (omega arith)).1

abbrev no_calls : Hello
no_calls = record { hellos = 0; hellos_to = 0; written = [] }

hello_service_handler-sayhello_to_example :
    hello_service_handler no_calls
      (request hello_svr_cmd_sayhello_to)
      (reader_at 1056 100)
      (parcel_at 8192 256 called.mem)
    ≡ (if ltb (length (c_string hello)) 512
        then greeted no_calls (parcel_at 8192 256 called.mem)
        else none)
unfolding c_string
hello_service_handler-sayhello_to_example =
    hello_service_handler-sayhello_to no_calls (request hello_svr_cmd_sayhello_to)
      (reader_at 1056 100) (parcel_at 8192 256 called.mem) 0 hello_id hello refl called_items
      (omega arith)
