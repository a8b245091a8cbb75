-- ===== src/Tests/Clients.antt =====
-- Three clients of a server over libbinder, with one name in the service manager.
use android_source_learn.Prelude.{ℕ, ◌≡◌, refl, Option, none, some, List}
use android_source_learn.HelloCpp.{Greeter}
use android_source_learn.HelloCpp.Transparent.{link}
use android_source_learn.HelloCpp.Programs.{
  ManagerClass, IsManager, cpp_server_main, run_clients, logged,
}
use android_source_learn.HelloCpp.Programs.Visits.{Served, run_clients-logged}
use android_source_learn.Tests.Proxies.{
  rewound-Delivers, rewound, no_items, tape_parcel, tape_parcel-IsFifo, plain, unknown,
}

-- The service that was added last, if there is one; its binder is its name.
abbrev Place : Type 0
Place = Option Greeter

abbrev reach : List ℕ → ℕ → tape_parcel.Parcel → Place → tape_parcel.Parcel × Place
reach b code data' none = (no_items, none)
reach b code data' (some g) =
    let (reply, g') = link tape_parcel plain unknown rewound code data' g in (reply, some g')

abbrev find : List ℕ → Place → Option (List ℕ)
find name none = none
find name (some g) = some name

abbrev one_place : ManagerClass tape_parcel Place
one_place = record {
  Binder = List ℕ;
  add_service = λ name g w. some g;
  get_service = find;
  transact = reach;
}

one_place-IsManager : IsManager tape_parcel plain unknown rewound one_place
one_place-IsManager = record {
  Hosts = λ w name g. w ≡ some g;
  added = λ w name g. refl;
  found = λ w name g h. (name, rw h refl);
  reached = λ w name g b code data' h found. rw h (refl, refl, rw h at found);
}

run_clients-logged_example :
    let (outs, w') =
      run_clients tape_parcel plain one_place 3
        (cpp_server_main tape_parcel plain one_place none) in
    (outs ≡ logged 3 0)
    × Served tape_parcel plain unknown rewound one_place one_place-IsManager tape_parcel-IsFifo
        rewound-Delivers refl w' 3
run_clients-logged_example =
    run_clients-logged tape_parcel plain unknown rewound one_place one_place-IsManager
      tape_parcel-IsFifo rewound-Delivers refl 3 none
