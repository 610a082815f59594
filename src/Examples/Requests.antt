-- ===== src/Examples/Requests.antt =====
-- Runs of the theorems on the requests of an HTTP/1 connection.
use skywalking_rover.Common.{ℕ, suc, ◌≡◌, refl, Bool, true, false, List, [], ◌∷◌, ◌++◌}
use mathlib.Core.List.{Permᴰ}
use skywalking_rover.Http1.{
  Request, Metrics, success, skip, Message, request, response, handle_messages, max_retry_count,
}
use skywalking_rover.Http1.Laws.{take_down, all_found, handle_messages-permd, rounds, rounds-empty}

abbrev ask : ℕ → ℕ → Request ℕ
ask from to = record { min_data_id = from; max_data_id = to; content = from }

abbrev no_metrics : Metrics ℕ ℕ
no_metrics = record { half_requests = []; analyze_un_finished = [] }

-- Two requests, a response to the second one that cannot be read yet, and a third request.
abbrev messages : List (Message ℕ ℕ)
messages =
    request (success (ask 1 1))
    ∷ request (success (ask 3 3))
    ∷ response 4 3 (λ q. skip)
    ∷ request (success (ask 2 2))
    ∷ response 3 2 (λ q. success 200)
    ∷ []

abbrev all_well : Request ℕ → ℕ → Bool
all_well q r = true

-- The request that was put back stands in front of an earlier one.
put_front_test :
    (handle_messages (take_down all_well) messages no_metrics []).0.half_requests
    ≡ ask 3 3 ∷ ask 1 1 ∷ []
unfolding handle_messages
put_front_test = refl

paired_test : (handle_messages (take_down all_well) messages no_metrics []).1 ≡ ask 2 2 ∷ []
unfolding handle_messages
paired_test = refl

messages_example :
    Permᴰ
      ((handle_messages (take_down all_well) messages no_metrics []).0.half_requests
        ++ (handle_messages (take_down all_well) messages no_metrics []).1)
      (all_found all_well messages ++ ([] ++ []))
messages_example = handle_messages-permd all_well messages no_metrics []

-- An analyzer without the details of the pair, which counts its calls.
abbrev no_details : Request ℕ → ℕ → ℕ → ℕ × Bool
no_details q r calls = (suc calls, false)

abbrev waiting : Metrics ℕ ℕ
waiting = record no_metrics {
  analyze_un_finished = record { request = ask 1 1; response = 200; retry_count = 0 } ∷ [];
}

rounds_test : (rounds no_details max_retry_count waiting 0).1 ≡ 3
unfolding rounds
rounds_test = refl

rounds_example : (rounds no_details max_retry_count waiting 0).0.analyze_un_finished ≡ []
rounds_example = rounds-empty no_details waiting 0
