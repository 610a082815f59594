-- ===== src/Buffer/Append/Arrival.antt =====
-- The kernel's queues deliver socket data and socket details in any order. The appends of
-- pkg/tools/buffer/buffer.go put both lists in order.
use mathlib.Core.List.{Permᴰ}
use skywalking_rover.Common.{◌≡◌, refl, sym, ◌∙◌, ap, List, [], ◌∷◌}
use skywalking_rover.Buffer.Events.{SocketDataBuffer, SocketDataDetail}
use skywalking_rover.Buffer.Elements.{values}
use skywalking_rover.Buffer.State.{Buffer}
use skywalking_rover.Buffer.Append.{
  comes_after, append_data_event, append_data_events, append_detail_event,
}
use skywalking_rover.Buffer.Append.Sorted
use skywalking_rover.Buffer.Append.Sorted.{insert, insert_all, Apart, IsSorted}
use skywalking_rover.Buffer.Append.Order.{
  IsOrdered, HasOrderedDetails, comes_after-IsOrder, later, later-IsOrder, values-insert_data,
  insert_detail-insert,
}

values-append_data_event :
    (r : Buffer) (event : SocketDataBuffer)
    → IsOrdered r
    → values (append_data_event r event).data_events
      ≡ insert comes_after event (values r.data_events)
unfolding append_data_event
values-append_data_event r event s =
    values-insert_data (record { ref = r.next_ref; value = event }) r.data_events s

-- On an ordered buffer, AppendDataEvent keeps the data events in order, and adds the new event and nothing else.
append_data_event-IsOrdered :
    (r : Buffer) (event : SocketDataBuffer)
    → IsOrdered r
    → IsOrdered (append_data_event r event)
      × Permᴰ (values (append_data_event r event).data_events) (event ∷ values r.data_events)
append_data_event-IsOrdered r event s = rw (values-append_data_event r event s) (
  Sorted.insert-IsSorted comes_after comes_after-IsOrder event (values r.data_events) s,
  Sorted.insert-permd comes_after comes_after-IsOrder event (values r.data_events),
)

-- On ordered details, AppendDetailEvent keeps the details in order, and adds the new detail and nothing else.
append_detail_event-HasOrderedDetails :
    (r : Buffer) (event : SocketDataDetail)
    → HasOrderedDetails r
    → HasOrderedDetails (append_detail_event r event)
      × Permᴰ (append_detail_event r event).detail_events (event ∷ r.detail_events)
unfolding append_detail_event
append_detail_event-HasOrderedDetails r event s =
    rw (insert_detail-insert event r.detail_events s) (
      Sorted.insert-IsSorted later later-IsOrder event r.detail_events s,
      Sorted.insert-permd later later-IsOrder event r.detail_events,
    )

values-append_data_events :
    (r : Buffer) (es : List SocketDataBuffer)
    → IsOrdered r
    → values (append_data_events r es).data_events
      ≡ insert_all comes_after (values r.data_events) es
unfolding append_data_events insert_all
values-append_data_events r [] s = refl
values-append_data_events r (e ∷ es) s =
    values-append_data_events (append_data_event r e) es (append_data_event-IsOrdered r e s).0
    ∙ ap (λ l. insert_all comes_after l es) (values-append_data_event r e s)

-- Events that differ in data id or sequence leave an ordered buffer with the same data events,
-- in whatever order they arrive.
pub append_data_events-arrival :
    (r : Buffer) (es es' : List SocketDataBuffer)
    → IsOrdered r
    → Apart comes_after es
    → Permᴰ es es'
    → values (append_data_events r es).data_events ≡ values (append_data_events r es').data_events
append_data_events-arrival r es es' s d p =
    values-append_data_events r es s
    ∙ Sorted.insert_all-permd comes_after comes_after-IsOrder (values r.data_events) p d
    ∙ sym (values-append_data_events r es' s)
