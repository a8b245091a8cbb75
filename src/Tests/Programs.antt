-- ===== src/Tests/Programs.antt =====
-- The server from its start, with the answers of the driver of Tests/Exchanges.
use android_source_learn.Prelude.{[], ◌∷◌}
use android_source_learn.HelloServer.Main.{server_main}
use android_source_learn.HelloServer.Main.Starting.{IsRun, server_main-IsRun}
use android_source_learn.Tests.World.{kernel}
use android_source_learn.Tests.Exchanges.{ready, first_answer, second_answer}
use android_source_learn.Tests.Manager.{smooth_start, ping, nothing}

server_main-IsRun_example : IsRun (
    server_main kernel smooth_start.open_answers
      (λ t m. first_answer ∷ second_answer ∷ [])
      4096
      256
      512
      1024
      (ping ∷ [])
      ready
      nothing)
server_main-IsRun_example =
    server_main-IsRun kernel 4096 256 512 1024 (ping ∷ []) smooth_start.open_answers
      (λ t m. first_answer ∷ second_answer ∷ []) ready nothing
