-- ===== src/Http1.antt =====
-- pkg/accesslog/collector/protocols/http1.go: the requests of a connection that wait for a response,
-- and the pairs that wait for their details. What the reader finds in the buffer is an argument, and
-- so is the analyzer: `handle` takes a pair, works on a world of its own, and says whether it went
-- well.
pub mod Laws
use skywalking_rover.Common.{
  ℕ, zero, suc, ◌+◌, ◌%◌, ◌^◌, Bool, true, false, ◌||◌, List, [], ◌∷◌, ◌++◌, Option, none, some,
  ltb, ◌==◌, if◌then◌else◌, last?,
}

-- What the matching reads of a request: the ids of its first and its last data.
pub record Request (A : Type 0) : Type 0 where
  pub min_data_id : ℕ
  pub max_data_id : ℕ
  pub content : A

pub record UnFinished (A B : Type 0) : Type 0 where
  pub request : Request A
  pub response : B
  pub retry_count : ℕ

-- The two lists of HTTP1Metrics.
pub record Metrics (A B : Type 0) : Type 0 where
  pub half_requests : List (Request A)
  pub analyze_un_finished : List (UnFinished A B)

-- What the reader returns; `skip` is a result other than success without an error.
pub data Reading (A : Type 0) : Type 0 where
  success : A → Reading A
  skip error : Reading A

pub data ParseResult : Type 0 where
  parse_success skip_package : ParseResult

abbrev pub max_retry_count : ℕ
max_retry_count = 3

module _ {A : Type 0} where
  -- The loop of appendRequestToList, and PushBack behind it.
  unfoldable pub insert_request : Request A → List (Request A) → List (Request A)
  insert_request r [] = r ∷ []
  insert_request r (q ∷ qs) =
      if ltb r.min_data_id q.min_data_id then r ∷ q ∷ qs else q ∷ insert_request r qs

  unfoldable pub append_request :
      Request A → List (Request A) → Option (Request A) → List (Request A)
  unfolding insert_request
  append_request r qs none = r ∷ qs
  append_request r qs (some back) =
      if ltb back.min_data_id r.min_data_id then qs ++ r ∷ [] else insert_request r qs

  unfoldable pub append_request_to_list : Request A → List (Request A) → List (Request A)
  unfolding append_request
  append_request_to_list r qs = append_request r qs (last? qs)

  unfoldable pub matches : (current_data_id prev_data_id : ℕ) → Request A → Bool
  matches current_data_id prev_data_id r =
      (r.max_data_id == prev_data_id) || ((r.max_data_id + 1) % 2 ^ 64 == current_data_id)

  abbrev pub keep_front :
      Request A → Option (Request A) × List (Request A) → Option (Request A) × List (Request A)
  keep_front q (found, qs) = (found, q ∷ qs)

  unfoldable pub find_matches_request :
      (current_data_id prev_data_id : ℕ) → List (Request A) → Option (Request A) × List (Request A)
  unfolding matches
  find_matches_request current_data_id prev_data_id [] = (none, [])
  find_matches_request current_data_id prev_data_id (q ∷ qs) =
      let rest = find_matches_request current_data_id prev_data_id qs in
      if matches current_data_id prev_data_id q then (some q, qs) else keep_front q rest

module _ {A B : Type 0} where
  unfoldable pub handle_request : Reading (Request A) → Metrics A B → Metrics A B × ParseResult
  unfolding append_request_to_list
  handle_request (success r) m =
      (record m { half_requests = append_request_to_list r m.half_requests }, parse_success)
  handle_request skip m = (m, skip_package)
  handle_request error m = (m, skip_package)

  unfoldable pub append_analyze_un_finished : Request A → B → Metrics A B → Metrics A B
  append_analyze_un_finished q r m = record m {
    analyze_un_finished =
        m.analyze_un_finished ++ record { request = q; response = r; retry_count = 0 } ∷ [];
  }

  abbrev pub put_front : Request A → Metrics A B → Metrics A B
  put_front q m = record m { half_requests = q ∷ m.half_requests }

module _ {A B W : Type 0} where
  -- handleResponse behind the reading of the response to a request that was taken out of the list.
  unfoldable pub finish_response :
      (Request A → B → W → W × Bool)
      → Request A
      → Reading B
      → Metrics A B
      → W
      → Metrics A B × W × ParseResult
  unfolding append_analyze_un_finished
  finish_response handle q (success r) m w =
      let (w', went_well) = handle q r w in
      (if went_well then m else append_analyze_un_finished q r m, w', parse_success)
  finish_response handle q skip m w = (put_front q m, w, skip_package)
  finish_response handle q error m w = (put_front q m, w, skip_package)

  abbrev pub respond :
      (Request A → B → W → W × Bool)
      → (Request A → Reading B)
      → Metrics A B
      → W
      → Option (Request A) × List (Request A)
      → Metrics A B × W × ParseResult
  respond handle read m w (none, qs) = (m, w, skip_package)
  respond handle read m w (some q, qs) =
      finish_response handle q (read q) (record m { half_requests = qs }) w

  unfoldable pub handle_response :
      (Request A → B → W → W × Bool)
      → (current_data_id prev_data_id : ℕ) → (Request A → Reading B)
      → Metrics A B
      → W
      → Metrics A B × W × ParseResult
  unfolding find_matches_request finish_response
  handle_response handle current_data_id prev_data_id read m w =
      respond handle read m w (find_matches_request current_data_id prev_data_id m.half_requests)

  -- The loop of handleUnFinishedEvents.
  unfoldable pub retry :
      (Request A → B → W → W × Bool) → List (UnFinished A B) → W → List (UnFinished A B) × W
  retry handle [] w = ([], w)
  retry handle (u ∷ us) w =
      let (w', went_well) = handle u.request u.response w in
      let (rest, w'') = retry handle us w' in
      if went_well
      then (rest, w'')
      else if ltb (suc u.retry_count) max_retry_count
      then (record u { retry_count = suc u.retry_count } ∷ rest, w'')
      else (rest, w'')

  unfoldable pub handle_un_finished_events :
      (Request A → B → W → W × Bool) → Metrics A B → W → Metrics A B × W
  unfolding retry
  handle_un_finished_events handle m w =
      let (us, w') = retry handle m.analyze_un_finished w in
      (record m { analyze_un_finished = us }, w')

-- A message as the loop of Analyze meets it.
pub data Message (A B : Type 0) : Type 0 where
  request : Reading (Request A) → Message A B
  response : (current_data_id prev_data_id : ℕ) → (Request A → Reading B) → Message A B

module _ {A B W : Type 0} (handle : Request A → B → W → W × Bool) where
  unfoldable pub handle_message : Message A B → Metrics A B → W → Metrics A B × W
  unfolding handle_request handle_response
  handle_message (request r) m w = ((handle_request r m).0, w)
  handle_message (response current_data_id prev_data_id read) m w =
      let r = handle_response handle current_data_id prev_data_id read m w in (r.0, r.1)

  unfoldable pub handle_messages : List (Message A B) → Metrics A B → W → Metrics A B × W
  unfolding handle_message
  handle_messages [] m w = (m, w)
  handle_messages (x ∷ xs) m w = let (m', w') = handle_message x m w in handle_messages xs m' w'
