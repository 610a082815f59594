-- ===== src/Http1/Laws.antt =====
-- No request of pkg/accesslog/collector/protocols/http1.go is lost or paired twice, and no pair is
-- retried for ever.
use skywalking_rover.Common.{
  ℕ, zero, suc, ◌≤◌, ◌<◌, ◌≡◌, refl, Bool, List, [], ◌∷◌, ◌++◌, Option, none, some, arith, ltb,
  last?, All, Bool-cases, inl, inr,
}
use mathlib.Core.List.{Permᴰ}
use mathlib.Core.List.Permᴰ
use skywalking_rover.Http1.{
  Request, UnFinished, Metrics, Reading, success, skip, error, max_retry_count, insert_request,
  append_request, append_request_to_list, matches, keep_front, find_matches_request, handle_request,
  append_analyze_un_finished, finish_response, respond, handle_response, retry,
  handle_un_finished_events, Message, request, response, handle_message, handle_messages,
}

module _ {A : Type 0} where
  insert_request-permd :
      (r : Request A) (qs : List (Request A)) → Permᴰ (insert_request r qs) (r ∷ qs)
  unfolding insert_request
  insert_request-permd r [] = Permᴰ.refl (r ∷ [])
  insert_request-permd r (q ∷ qs) = elim (Bool-cases (ltb r.min_data_id q.min_data_id)) [
    | inl e ↦ rw e (Permᴰ.refl _)
    | inr e ↦
        rw e (Permᴰ.trans (Permᴰ.cons refl (insert_request-permd r qs)) (Permᴰ.swap refl refl))
  ]

  append_request-permd :
      (r : Request A) (qs : List (Request A)) (back : Option (Request A))
      → Permᴰ (append_request r qs back) (r ∷ qs)
  unfolding append_request
  append_request-permd r qs none = Permᴰ.refl (r ∷ qs)
  append_request-permd r qs (some back) = elim (Bool-cases (ltb back.min_data_id r.min_data_id)) [
    | inl e ↦ rw e (Permᴰ.trans (Permᴰ.middle r qs []) (Permᴰ.cons refl (Permᴰ.append-nil qs)))
    | inr e ↦ rw e (insert_request-permd r qs)
  ]

  exchange : (fs gs t : List (Request A)) → Permᴰ (gs ++ (fs ++ t)) ((fs ++ gs) ++ t)
  exchange [] gs t = Permᴰ.refl (gs ++ t)
  exchange (f ∷ fs) gs t =
      Permᴰ.trans (Permᴰ.middle f gs (fs ++ t)) (Permᴰ.cons refl (exchange fs gs t))

  -- What is found and what is left.
  abbrev together : Option (Request A) × List (Request A) → List (Request A)
  together (none, qs) = qs
  together (some q, qs) = q ∷ qs

  keep_front-permd :
      (q : Request A) (r : Option (Request A) × List (Request A))
      → Permᴰ (together (keep_front q r)) (q ∷ together r)
  keep_front-permd q (none, qs) = Permᴰ.refl (q ∷ qs)
  keep_front-permd q (some p, qs) = Permᴰ.swap refl refl

  find_matches_request-permd :
      (current prev : ℕ) (qs : List (Request A))
      → Permᴰ (together (find_matches_request current prev qs)) qs
  unfolding find_matches_request
  find_matches_request-permd current prev [] = Permᴰ.nil
  find_matches_request-permd current prev (q ∷ qs) = elim (Bool-cases (matches current prev q)) [
    | inl e ↦ rw e (Permᴰ.refl _)
    | inr e ↦ rw e (
        Permᴰ.trans (keep_front-permd q (find_matches_request current prev qs))
          (Permᴰ.cons refl (find_matches_request-permd current prev qs)))
  ]

-- An analyzer that takes down the requests of its pairs and answers as it likes.
module _ {A B : Type 0} (answer : Request A → B → Bool) where
  abbrev pub take_down : Request A → B → List (Request A) → List (Request A) × Bool
  take_down q r log = (q ∷ log, answer q r)

  -- The requests that the reader found.
  abbrev pub found_in : Message A B → List (Request A)
  found_in (request (success r)) = r ∷ []
  found_in (request skip) = []
  found_in (request error) = []
  found_in (response current prev read) = []

  abbrev pub all_found : List (Message A B) → List (Request A)
  all_found [] = []
  all_found (x ∷ xs) = found_in x ++ all_found xs

  finish_response-permd :
      (q : Request A) (r : Reading B) (m : Metrics A B) (log : List (Request A))
      → let t = finish_response take_down q r m log in
        Permᴰ (t.0.half_requests ++ t.1) (q ∷ m.half_requests ++ log)
  unfolding finish_response append_analyze_un_finished
  finish_response-permd q (success r) m log = elim (Bool-cases (answer q r)) [
    | inl e ↦ rw e (Permᴰ.middle q m.half_requests log)
    | inr e ↦ rw e (Permᴰ.middle q m.half_requests log)
  ]
  finish_response-permd q skip m log = Permᴰ.refl _
  finish_response-permd q error m log = Permᴰ.refl _

  respond-permd :
      (read : Request A → Reading B) (m : Metrics A B) (log : List (Request A))
      (r : Option (Request A) × List (Request A))
      → Permᴰ (together r) m.half_requests
      → let t = respond take_down read m log r in
        Permᴰ (t.0.half_requests ++ t.1) (m.half_requests ++ log)
  respond-permd read m log (none, qs) p = Permᴰ.refl _
  respond-permd read m log (some q, qs) p =
      Permᴰ.trans (finish_response-permd q (read q) (record m { half_requests = qs }) log)
        (Permᴰ.append_right log p)

  handle_message-permd :
      (x : Message A B) (m : Metrics A B) (log : List (Request A))
      → let t = handle_message take_down x m log in
        Permᴰ (t.0.half_requests ++ t.1) (found_in x ++ (m.half_requests ++ log))
  unfolding handle_message handle_request append_request_to_list handle_response
  handle_message-permd (request (success r)) m log =
      Permᴰ.append_right log (append_request-permd r m.half_requests (last? m.half_requests))
  handle_message-permd (request skip) m log = Permᴰ.refl _
  handle_message-permd (request error) m log = Permᴰ.refl _
  handle_message-permd (response current prev read) m log =
      respond-permd read m log (find_matches_request current prev m.half_requests)
        (find_matches_request-permd current prev m.half_requests)

  -- Messages in a row, in any order and however they are read and analyzed, lose no request and pair
  -- none twice: those that wait and those that the analyzer got with a response are, in some order,
  -- those that waited or had been paired before and those that the reader found.
  pub handle_messages-permd :
      (xs : List (Message A B)) (m : Metrics A B) (log : List (Request A))
      → let t = handle_messages take_down xs m log in
        Permᴰ (t.0.half_requests ++ t.1) (all_found xs ++ (m.half_requests ++ log))
  unfolding handle_messages
  handle_messages-permd [] m log = Permᴰ.refl _
  handle_messages-permd (x ∷ xs) m log =
      let t = handle_message take_down x m log in
      Permᴰ.trans (handle_messages-permd xs t.0 t.1) (
        Permᴰ.trans (Permᴰ.append_left (all_found xs) (handle_message-permd x m log))
          (exchange (found_in x) (all_found xs) (m.half_requests ++ log)))

module _ {A B W : Type 0} (handle : Request A → B → W → W × Bool) where
  abbrev Between : (low : ℕ) → UnFinished A B → Type 0
  Between low u = (low ≤ u.retry_count) × (u.retry_count < max_retry_count)

  retry-Between :
      (low : ℕ) (us : List (UnFinished A B)) (w : W)
      → All (λ (u : UnFinished A B). low ≤ u.retry_count) us
      → All (Between (suc low)) (retry handle us w).0
  unfolding retry
  retry-Between low [] w h = tt
  retry-Between low (u ∷ us) w h =
      let rest = retry-Between low us (handle u.request u.response w).0 h.1 in
      elim (Bool-cases (handle u.request u.response w).1) [
        | inl well ↦ rw well rest
        | inr ill ↦ elim (Bool-cases (ltb (suc u.retry_count) max_retry_count)) [
          | inl again ↦ rw (ill, again) ((ground arith, ground arith), rest)
          | inr over ↦ rw (ill, over) rest
        ]
      ]

  low_All :
      (low : ℕ) (us : List (UnFinished A B))
      → All (Between low) us
      → All (λ (u : UnFinished A B). low ≤ u.retry_count) us
  low_All low [] h = tt
  low_All low (u ∷ us) h = (h.0.0, low_All low us h.1)

  none_All : (us : List (UnFinished A B)) → All (Between max_retry_count) us → us ≡ []
  none_All [] h = refl
  none_All (u ∷ us) h = let (l, b) = h.0 in absurd (omega arith)

  zero_All : (us : List (UnFinished A B)) → All (λ (u : UnFinished A B). 0 ≤ u.retry_count) us
  zero_All [] = tt
  zero_All (u ∷ us) = (omega arith, zero_All us)

  -- The rounds of handleUnFinishedEvents.
  unfoldable pub rounds : ℕ → Metrics A B → W → Metrics A B × W
  unfolding handle_un_finished_events
  rounds zero m w = (m, w)
  rounds (suc n) m w = let (m', w') = handle_un_finished_events handle m w in rounds n m' w'

  -- Whatever the analyzer answers, and in whatever world, three rounds of handleUnFinishedEvents
  -- leave none of the pairs, unless new ones come in.
  pub rounds-empty :
      (m : Metrics A B) (w : W) → (rounds max_retry_count m w).0.analyze_un_finished ≡ []
  unfolding rounds handle_un_finished_events
  rounds-empty m w =
      let r1 = retry handle m.analyze_un_finished w in
      let h1 = retry-Between 0 m.analyze_un_finished w (zero_All m.analyze_un_finished) in
      let r2 = retry handle r1.0 r1.1 in
      let h2 = retry-Between 1 r1.0 r1.1 (low_All 1 r1.0 h1) in
      let h3 = retry-Between 2 r2.0 r2.1 (low_All 2 r2.0 h2) in
      none_All (retry handle r2.0 r2.1).0 h3
