-- ===== src/Tests/Proxies.antt =====
-- The service hello over libbinder, with a parcel that has a position.
use android_source_learn.Prelude.{ℕ, ◌≡◌, refl, ap, List, [], ◌∷◌, ◌++◌}
use android_source_learn.Prelude.Int.{ℤ, pos, minus_one}
use android_source_learn.HelloCpp.{ParcelClass, Strings, Greeter}
use android_source_learn.HelloCpp.Fifo.{Delivers, Item, number, text, IsFifo}
use android_source_learn.HelloCpp.Transparent.{
  Call, say, say_to, run_local, run_proxy, run_proxy-run_local,
}
use android_source_learn.Tests.World.{hello}

-- What is behind the position of a parcel, and what is ahead of it.
pub record Tape : Type 0 where
  pub behind : List Item
  pub ahead : List Item

abbrev put : Item → Tape → Tape
put i p = record { behind = p.behind ++ i ∷ []; ahead = [] }

abbrev next_number : List Item → ℤ × List Item
next_number [] = (pos 0, [])
next_number (number z ∷ is) = (z, is)
next_number (text s ∷ is) = (pos 0, is)

abbrev next_text : List Item → List ℕ × List Item
next_text [] = ([], [])
next_text (number z ∷ is) = ([], is)
next_text (text s ∷ is) = (s, is)

abbrev pub no_items : Tape
no_items = record { behind = []; ahead = [] }

abbrev pub tape_parcel : ParcelClass
tape_parcel = record {
  Parcel = Tape;
  empty = no_items;
  write_int32 = λ z p. put (number z) p;
  write_string16 = λ s p. put (text s) p;
  read_int32 = λ p. ((next_number p.ahead).0, record p { ahead = (next_number p.ahead).1 });
  read_string16 = λ p. ((next_text p.ahead).0, record p { ahead = (next_text p.ahead).1 });
}

-- The other process has the parcel with its position at the start.
abbrev pub rewound : Tape → Tape
rewound p = record { behind = []; ahead = p.behind }

pub tape_parcel-IsFifo : IsFifo tape_parcel
tape_parcel-IsFifo = record {
  Written = λ p is. p.behind ≡ is;
  Unread = λ p is. p.ahead ≡ is;
  empty = refl;
  write_int32 = λ p is z h. ap (λ l. l ++ number z ∷ []) h;
  write_string16 = λ p is s h. ap (λ l. l ++ text s ∷ []) h;
  read_int32 = λ p is z small h. rw h (refl, refl);
  read_string16 = λ p is s h. rw h (refl, refl);
}

pub rewound-Delivers : Delivers tape_parcel tape_parcel-IsFifo rewound
unfolding tape_parcel-IsFifo
rewound-Delivers = λ p is h. h

-- Characters of one byte, which the conversions keep.
abbrev pub plain : Strings
plain = record { to_string16 = λ s. s; to_string8 = λ s. s }

abbrev pub unknown : ℕ → Tape → Tape → ℤ × Tape
unknown code data' reply = (minus_one, reply)

abbrev new_greeter : Greeter
new_greeter = record { count = 0; cnt = 0; log = [] }

abbrev calls : List Call
calls = say_to hello ∷ say ∷ say_to [] ∷ []

run_proxy-run_local_example :
    run_proxy tape_parcel plain unknown rewound calls new_greeter ≡ run_local calls new_greeter
run_proxy-run_local_example =
    run_proxy-run_local tape_parcel plain unknown rewound tape_parcel-IsFifo rewound-Delivers calls
      new_greeter (refl, (refl, tt))
