-- ===== src/Metrics/TopN.antt =====
-- topn.go and counter.go. The list is the source's container/list from its front to its back; a
-- duration is a number of milliseconds.
pub mod Laws
use skywalking_rover.Common.{
  ℕ, zero, suc, ◌+◌, ◌/◌, Bool, false, ◌&&◌, List, [], ◌∷◌, ◌++◌, Option, none, some, ltb, leb,
  if◌then◌else◌, length, last?, drop_last,
}

pub record TopNRecord (A : Type 0) : Type 0 where
  pub duration : ℕ
  pub content : A

pub record TopN (A : Type 0) : Type 0 where
  pub max_length : ℕ
  pub records : List (TopNRecord A)

module _ {A : Type 0} where
  unfoldable pub new_top_n : ℕ → TopN A
  new_top_n n = record { max_length = n; records = [] }

  -- The loop from the back: the node goes before the first element, seen from the back, that is
  -- smaller. `none` means that there is none.
  unfoldable pub insert_before_smaller :
      TopNRecord A → List (TopNRecord A) → Option (List (TopNRecord A))
  insert_before_smaller node [] = none
  insert_before_smaller node (x ∷ xs) = elim (insert_before_smaller node xs) [
    | some inserted ↦ some (x ∷ inserted)
    | none ↦ if ltb x.duration node.duration then some (node ∷ (x ∷ xs)) else none
  ]

  unfoldable pub insert_record : TopNRecord A → List (TopNRecord A) → List (TopNRecord A)
  unfolding insert_before_smaller
  insert_record node xs = elim (insert_before_smaller node xs) [
    | some inserted ↦ inserted
    | none ↦ xs ++ node ∷ []
  ]

  -- Not to be added, since it is below the last one of a full list. With no room at all the source
  -- panics on the empty list; here it is added and removed.
  unfoldable pub is_below_last : TopN A → ℕ → Bool
  is_below_last t duration =
      leb t.max_length (length t.records)
      && elim (last? t.records) [ none ↦ false | some back ↦ ltb duration back.duration ]

  unfoldable pub add_record : TopN A → A → ℕ → TopN A
  unfolding is_below_last insert_record
  add_record t content duration =
      let node : TopNRecord A = record { duration = duration; content = content } in
      let inserted = insert_record node t.records in
      if is_below_last t duration then t else record t {
        records = if ltb t.max_length (length inserted) then drop_last inserted else inserted;
      }

  unfoldable pub add_records : TopN A → List (TopNRecord A) → TopN A
  add_records t [] = t
  add_records t (x ∷ xs) = add_records (add_record t x.content x.duration) xs

  unfoldable pub merge_and_clean : TopN A → TopN A → TopN A × TopN A
  unfolding add_records
  merge_and_clean t other = (add_records t other.records, record other { records = [] })
