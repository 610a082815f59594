-- ===== src/Buffer/Append/Order.antt =====
-- The order tests of AppendDataEvent and AppendDetailEvent of pkg/tools/buffer/buffer.go, and the
-- two appends as insertions into a sorted list.
use skywalking_rover.Common.{
  ◌≡◌, refl, sym, ◌∙◌, Bool, true, false, List, [], ◌∷◌, arith, ltb, last?, last?-none, Bool-cases,
  Option-cases, inl, inr,
}
use skywalking_rover.Buffer.Events.{SocketDataBuffer, SocketDataDetail, data_id}
use skywalking_rover.Buffer.Elements.{Element, values, values-append, last?-values}
use skywalking_rover.Buffer.State.{Buffer}
use skywalking_rover.Buffer.Append.{insert_before_first, comes_after, insert_data, insert_detail}
use skywalking_rover.Buffer.Append.Sorted
use skywalking_rover.Buffer.Append.Sorted.{insert, IsSorted, IsOrder}

pub comes_after-IsOrder : IsOrder comes_after
unfolding comes_after
comes_after-IsOrder = record {
  asym = λ x y h. ground arith;
  cotrans = λ x y z h k. ground arith;
  negtrans = λ x y z h k. ground arith;
}

abbrev pub later : SocketDataDetail → SocketDataDetail → Bool
later exist event = ltb event.data_id exist.data_id

pub later-IsOrder : IsOrder later
later-IsOrder = record {
  asym = λ x y h. ground arith;
  cotrans = λ x y z h k. ground arith;
  negtrans = λ x y z h k. ground arith;
}

values-insert :
    (x : Element SocketDataBuffer) (xs : List (Element SocketDataBuffer))
    → values (insert_before_first (λ y. comes_after y.value x.value) x xs)
      ≡ insert comes_after x.value (values xs)
unfolding insert_before_first
values-insert x [] = refl
values-insert x (y ∷ ys) = ground (arith, values-insert x ys)

-- The buffered events are in order: by data id, and by sequence within one data id.
abbrev pub IsOrdered : Buffer → Type 0
IsOrdered r = IsSorted comes_after (values r.data_events)

abbrev pub HasOrderedDetails : Buffer → Type 0
HasOrderedDetails r = IsSorted later r.detail_events

comes_after-back :
    (back event : SocketDataBuffer)
    → ltb (data_id back) (data_id event) ≡ true
    → comes_after back event ≡ false
unfolding comes_after
comes_after-back back event h = ground arith

-- On an ordered list the short cut and the loop of AppendDataEvent agree.
pub values-insert_data :
    (x : Element SocketDataBuffer) (xs : List (Element SocketDataBuffer))
    → IsSorted comes_after (values xs)
    → values (insert_data x xs) ≡ insert comes_after x.value (values xs)
unfolding insert_data insert_before_first
values-insert_data x [] s = refl
values-insert_data x (y ∷ ys) s = elim (Option-cases (last? (y ∷ ys))) [
  | inl e ↦ cc (last?-none (y ∷ ys) e)
  | inr (b, e) ↦ elim (Bool-cases (ltb (data_id b.value) (data_id x.value))) [
    | inl h ↦
        rw (e, h, insert_data)
          (values-append (y ∷ ys) (x ∷ [])
            ∙ sym (
                Sorted.insert-last comes_after comes_after-IsOrder x.value (values (y ∷ ys)) (
                  Sorted.IsSorted-last comes_after comes_after-IsOrder x.value b.value
                    (values (y ∷ ys)) s (last?-values (y ∷ ys) b e)
                    (comes_after-back b.value x.value h))))
    | inr h ↦ rw (e, h, insert_data) (values-insert x (y ∷ ys))
  ]
]

-- On an ordered list the short cut and the loop of AppendDetailEvent agree.
pub insert_detail-insert :
    (x : SocketDataDetail) (xs : List SocketDataDetail)
    → IsSorted later xs
    → insert_detail x xs ≡ insert later x xs
unfolding insert_detail insert_before_first
insert_detail-insert x [] s = refl
insert_detail-insert x (y ∷ ys) s = elim (Option-cases (last? (y ∷ ys))) [
  | inl e ↦ cc (last?-none (y ∷ ys) e)
  | inr (b, e) ↦ elim (Bool-cases (ltb b.data_id x.data_id)) [
    | inl h ↦
        rw (e, h, insert_detail)
          (sym (
            Sorted.insert-last later later-IsOrder x (y ∷ ys)
              (Sorted.IsSorted-last later later-IsOrder x b (y ∷ ys) s e (ground arith))))
    | inr h ↦ rw (e, h, insert_detail)
  ]
]
