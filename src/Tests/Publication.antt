-- ===== src/Tests/Publication.antt =====
-- The registration of Tests/Registering, with the driver's answer to it.
use android_source_learn.Prelude.{false}
use android_source_learn.Abi.{TransactionData}
use android_source_learn.Binder.Call.{Response}
use android_source_learn.Tests.World.{read_words}
use android_source_learn.Tests.Finding.{registered}

abbrev answer : Response
answer = record { failed = false; mem = registered.mem; read_consumed = 76 }

abbrev arrived : TransactionData
arrived = read_words registered.mem 516
