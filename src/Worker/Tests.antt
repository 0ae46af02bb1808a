-- ===== src/Worker/Tests.antt =====
-- Two ticks of the worker of groups over a table that grows, with one subscription.
use xmtp_node_go.Base.{List, [], arith, length, refl, some, ℕ, ◌++◌, ◌<◌, ◌∷◌, ◌≡◌}
use xmtp_node_go.CatchUp.{group_row}
use xmtp_node_go.Subscribe.Frames.{GroupMessage}
use xmtp_node_go.Subscriptions.{SubscriptionDispatcher, new_subscription_dispatcher, Envelope}
use xmtp_node_go.Subscriptions.Invariant.{Reach}
use xmtp_node_go.Worker.{latest_id, Made, made, get_all_with_cursor, poll, numrows}
use xmtp_node_go.Worker.Cursor.{after}
use xmtp_node_go.Worker.Polls.{
  Marshals, Run, ticks-exact, poll_total, envelopes, dispatch_all, Trace,
}
use xmtp_node_go.ReadStore.{last_id}

abbrev row_at : ℕ → ℕ → GroupMessage
row_at id group = record { id = id; group_id = group ∷ []; body = [] }

abbrev make_test : GroupMessage → Made
make_test m = made (record { content_topic = m.group_id; timestamp_ns = m.id; message = m.body })

make_test-Marshals : Marshals make_test
make_test-Marshals m h = absurd (cc h)

abbrev seen_first : List GroupMessage
seen_first = row_at 3 5 ∷ []

abbrev added_later : List GroupMessage
added_later = row_at 4 6 ∷ row_at 7 5 ∷ []

abbrev seen_later : List GroupMessage
seen_later = seen_first ++ added_later

before_tick :
    Run group_row make_test 3 new_subscription_dispatcher seen_later [] 3
      new_subscription_dispatcher
unfolding latest_id last_id
before_tick =
    Run.grows (Run.starts {table = seen_first} refl (omega arith, tt) (omega arith, tt) Reach.start)
      added_later (omega arith, (omega arith, tt)) (omega arith, (omega arith, tt))

poll_total_example :
    (d' : SubscriptionDispatcher) × (poll group_row make_test seen_later 3
        new_subscription_dispatcher
      ≡ some (last_id group_row (get_all_with_cursor group_row seen_later 3) 3, d'))
    × (dispatch_all
          (envelopes make_test (get_all_with_cursor group_row seen_later 3))
          new_subscription_dispatcher
        ≡ some d')
    × (length (get_all_with_cursor group_row seen_later 3) < numrows
        → after group_row seen_later
            (last_id group_row (get_all_with_cursor group_row seen_later 3) 3)
          ≡ [])
poll_total_example = poll_total group_row make_test make_test-Marshals before_tick

after_tick :
    Run group_row make_test 3 new_subscription_dispatcher seen_later []
      (last_id group_row (get_all_with_cursor group_row seen_later 3) 3)
      (poll_total group_row make_test make_test-Marshals before_tick).0
after_tick = Run.ticks before_tick (poll_total group_row make_test make_test-Marshals before_tick).1

ticks-exact_example :
    (sent : List Envelope) × Trace new_subscription_dispatcher [] sent
      (poll_total group_row make_test make_test-Marshals before_tick).0
    × (sent
          ++ envelopes make_test (
              after group_row seen_later
                (last_id group_row (get_all_with_cursor group_row seen_later 3) 3))
        ≡ envelopes make_test (after group_row seen_later 3))
ticks-exact_example = ticks-exact group_row make_test make_test-Marshals after_tick
