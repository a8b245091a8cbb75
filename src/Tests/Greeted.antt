-- ===== src/Tests/Greeted.antt =====
-- The client from its start, with the answers of the driver of Tests/Exchanges to both calls.
use android_source_learn.Prelude.{◌≡◌, refl, [], ◌∷◌, arith}
use android_source_learn.Prelude.Int.{pos}
use android_source_learn.Binder.Commands.{free_buffer, acquire}
use android_source_learn.Binder.Open.{binder_open}
use android_source_learn.Binder.Parse.Stream.{noop, complete, reply}
use android_source_learn.ServiceManager.Handler.{svc_mgr_check_service}
use android_source_learn.HelloClient.Main.{exited, client_main}
use android_source_learn.Protocol.Greeting.{Replies, client_main-greets}
use android_source_learn.Tests.World.{
  kernel, kernel-IsObjectLayout, policy, one_service, quiet, request,
}
use android_source_learn.Tests.Exchanges.{
  kernel-AreCodes, ready, sent, sent-Hands, incoming, found_hello, handled, answer, received,
  first_answer, first_answer-Delivers, second_answer, second_answer-Delivers, answer-Conveys,
}
use android_source_learn.Tests.Manager.{smooth_start, nothing}

received-Replies : Replies kernel 512 (first_answer ∷ second_answer ∷ []) received answer.mem
received-Replies = record {
  quiet = first_answer ∷ [];
  resp = second_answer;
  rest = [];
  commands = reply received ∷ [];
  answers = refl;
  are_quiet = ((noop ∷ complete ∷ [], first_answer-Delivers, refl), tt);
  delivers = second_answer-Delivers;
  first = refl;
  memory = refl;
}

client_main-greets_example :
    client_main kernel 256 512 1024
      (λ t m. first_answer ∷ second_answer ∷ [])
      smooth_start.open_answers
      ready
      nothing
    ≡ exited (pos 0) (free_buffer received.buffer ∷ free_buffer received.buffer ∷ acquire 7 ∷ [])
unfolding binder_open
client_main-greets_example =
    client_main-greets policy kernel kernel-IsObjectLayout kernel-AreCodes 256 512 1024
      (λ t m. first_answer ∷ second_answer ∷ []) smooth_start.open_answers nothing ready sent.mem
      answer.mem answer.mem quiet one_service one_service (request svc_mgr_check_service) incoming
      8192 answer (pos 0) 7 (λ h. h) received received (λ e. cc) (omega arith) (omega arith)
      sent-Hands found_hello (omega arith) (omega arith) (omega arith) handled received-Replies
      answer-Conveys (λ t is_call. received-Replies)
