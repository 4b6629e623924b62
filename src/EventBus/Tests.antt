-- ===== src/EventBus/Tests.antt =====
-- A bus of one topic with one subscriber: the second call of Publish is in the wait group when Close begins.
use watchkeepers.Prelude.{
  ℕ, ◌≡◌, refl, true, false, some, List, [], ◌∷◌, ◌++◌, pos, get_elem?, total,
}
use watchkeepers.EventBus.{
  Envelope, TopicState, ended, take_send, new_bus, finished, BusOp, start_op, publish_op,
  subscribe_op, work_op, close_op, close_channel_op, bus_ops,
}
use watchkeepers.EventBus.Orderly.{IsOrderly, has_begun, busy_of}
use watchkeepers.EventBus.Closing.{bus-IsOrderly}
use watchkeepers.EventBus.Drained.{IsDrained, finished-IsDrained}
use watchkeepers.EventBus.Inevitable.{IsInevitable, close-IsInevitable}

abbrev envelope : ℕ → Envelope
envelope n = record { ctx = 0; event = n }

abbrev sends : ℕ → List BusOp
sends p = publish_op p take_send ∷ publish_op p take_send ∷ []

abbrev before_close : List BusOp
before_close =
    subscribe_op "t" ∷ start_op "t" (envelope 1) ∷ sends 0
    ++ publish_op 0 take_send ∷ work_op 0 ∷ start_op "t" (envelope 2) ∷ sends 1

abbrev traffic : List BusOp
traffic =
    before_close
    ++ close_op
      ∷ publish_op 1 take_send
      ∷ work_op 0
      ∷ work_op 0
      ∷ work_op 0
      ∷ work_op 0
      ∷ work_op 0
      ∷ close_op
      ∷ close_op
      ∷ close_channel_op 0
      ∷ close_op
      ∷ work_op 0
      ∷ close_op
      ∷ []

bus-IsOrderly_example : IsOrderly (bus_ops traffic (new_bus (pos 1)))
bus-IsOrderly_example = bus-IsOrderly (pos 1) traffic

returned : (bus_ops traffic (new_bus (pos 1))).phase ≡ finished
unfolding bus_ops new_bus
returned = refl

-- The topic at the end: both envelopes went to the one handler.
abbrev topic : TopicState
topic = record {
  name = "t";
  sent = envelope 1 ∷ envelope 2 ∷ [];
  received = 2;
  ch_closed = true;
  to_close = false;
  subs = 1 ∷ [];
  worker = ended;
  calls = (1, envelope 1) ∷ (1, envelope 2) ∷ [];
  rounds = (envelope 1, 1 ∷ []) ∷ (envelope 2, 1 ∷ []) ∷ [];
}

at_end : get_elem? (bus_ops traffic (new_bus (pos 1))).topics 0 ≡ some topic
unfolding bus_ops new_bus
at_end = refl

finished-IsDrained_example :
    (total busy_of (bus_ops traffic (new_bus (pos 1))).publishes ≡ 0)
    × IsDrained (bus_ops traffic (new_bus (pos 1))) 0 topic
finished-IsDrained_example = finished-IsDrained (pos 1) traffic 0 topic returned at_end

begun : has_begun (bus_ops (before_close ++ close_op ∷ []) (new_bus (pos 1))).phase ≡ true
unfolding bus_ops new_bus
begun = refl

close-IsInevitable_example :
    IsInevitable (bus_ops (before_close ++ close_op ∷ []) (new_bus (pos 1)))
close-IsInevitable_example = close-IsInevitable (pos 1) (before_close ++ close_op ∷ []) begun
