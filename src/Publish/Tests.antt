-- ===== src/Publish/Tests.antt =====
-- The theorems of the registry at a subscriber with a buffer of two.
use watchkeepers.Prelude.{
  ℕ, suc, ◌+◌, ◌<◌, ◌^◌, ◌≡◌, refl, false, none, List, [], ◌∷◌, length, arith,
}
use watchkeepers.Publish.{
  Event, Registry, Op, publish_op, receive_op, subscribe_op, new_registry, subscribe, ops,
}
use watchkeepers.Publish.Sound.{IsSound, registry-IsSound}
use watchkeepers.Publish.Feed.{Live}
use watchkeepers.Publish.Stream.{Streamed, matching, subscriber_stream, Meets}

abbrev event : ℕ → Event
event n = record {
  id = n;
  scope = "org";
  aggregate_type = "watchkeeper";
  aggregate_id = 1;
  event_type = "watchkeeper.spawned";
  payload = [];
  created_at = n;
}

-- The third publish finds the buffer full.
abbrev traffic : List Op
traffic =
    publish_op none (event 1) (0 ∷ [])
    ∷ subscribe_op "org"
    ∷ publish_op none (event 2) (1 ∷ 0 ∷ [])
    ∷ publish_op none (event 3) (0 ∷ 1 ∷ [])
    ∷ receive_op 0
    ∷ []

registry-IsSound_example : IsSound (ops traffic (new_registry 2))
registry-IsSound_example = registry-IsSound 2 traffic

open_registry : (new_registry 2).closed ≡ false
unfolding new_registry
open_registry = refl

small : (new_registry 2).next_id + suc (length traffic) < 2 ^ 64
unfolding new_registry
small = omega arith

met : Meets (new_registry 2).next_id traffic
unfolding new_registry
met = (refl, (refl, (refl, tt)))

subscriber_stream_example :
    Streamed
      (new_registry 2).next_id
      "org"
      []
      (matching "org" traffic)
      (ops traffic (subscribe "org" (new_registry 2)).1)
subscriber_stream_example = subscriber_stream "org" traffic (new_registry 2) open_registry small met

abbrev joined : Registry
joined = (subscribe "org" (new_registry 2)).1

still_open : joined.closed ≡ false
unfolding subscribe new_registry
still_open = refl

joined-Live : Live 0 "org" [] joined
unfolding subscribe new_registry
joined-Live = record {
  sub = record { scope = "org"; done = false };
  ch = record { sent = []; received = 0; closed = false };
  subscribed = refl;
  has_scope = refl;
  not_done = refl;
  has_channel = refl;
  is_open = refl;
  was_sent = refl;
}
