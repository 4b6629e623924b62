-- ===== src/Publish.antt =====
-- core/internal/keep/publish/registry.go: the fan-out hub of the keep server. A channel is the list
-- of what was ever sent on it, the number of those that its reader has taken, and whether it is
-- closed; the reader and the registry share it under the subscription's id. Publish/Feed and
-- Publish/Fanout follow one subscription through a publish, Publish/Reader through the other
-- operations and Publish/Stream through all of them.
pub mod Sound
pub mod Feed
pub mod Fanout
pub mod Kept
pub mod Reader
pub mod Stream
pub mod Worker
mod Tests
use watchkeepers.Prelude.{
  ℕ, ◌+◌, ◌%◌, ◌^◌, String, Bytes, Bool, true, false, not, Option, none, some, List, [], ◌∷◌, ◌++◌,
  Map, empty_map, put, delete, length, ltb, if◌then◌else◌, ◌==◌, string_eq, number_eq,
}
use watchkeepers.Go.Errors.{Error}
use watchkeepers.Go.Uuid.{Uuid}

pub record Event : Type 0 where
  pub id : Uuid
  pub scope : String
  pub aggregate_type : String
  pub aggregate_id : Uuid
  pub event_type : String
  pub payload : Bytes
  pub created_at : ℕ

pub record Channel : Type 0 where
  pub sent : List Event
  pub received : ℕ
  pub closed : Bool

-- The part of `auth.Claim` that the registry reads is its scope.
pub record Subscription : Type 0 where
  pub scope : String
  pub done : Bool

-- `panicked` records a close of a closed channel or a send on one.
pub record Registry : Type 0 where
  pub buf_size : ℕ
  pub next_id : ℕ
  pub subs : Map ℕ Subscription
  pub channels : Map ℕ Channel
  pub closed : Bool
  pub panicked : Bool

default_buffer_size : ℕ
default_buffer_size = 64

-- A size that is not positive, which is 0 here, is replaced by the default.
unfoldable pub new_registry : ℕ → Registry
unfolding default_buffer_size
new_registry buf_size = record {
  buf_size = if buf_size == 0 then default_buffer_size else buf_size;
  next_id = 0;
  subs = empty_map;
  channels = empty_map;
  closed = false;
  panicked = false;
}

-- `Subscribe` gives the subscription's id, or none for a channel that is closed already.
unfoldable pub subscribe : String → Registry → Option ℕ × Registry
subscribe scope r = if r.closed then (none, r) else (
  some r.next_id,
  record r {
    next_id = (r.next_id + 1) % 2 ^ 64;
    subs = put r.next_id (record { scope = scope; done = false }) r.subs;
    channels = put r.next_id (record { sent = []; received = 0; closed = false }) r.channels;
  },
)

-- Go's `close` of a channel.
close_channel : ℕ → Option Channel → Registry → Registry
close_channel id none r = record r { panicked = true }
close_channel id (some ch) r =
    if ch.closed
    then record r { panicked = true }
    else record r { channels = put id (record ch { closed = true }) r.channels }

unfoldable pub close_locked : ℕ → Registry → Registry
unfolding close_channel
close_locked id r = elim (r.subs id) [
  | none ↦ r
  | some sub ↦
      let r' = (if sub.done then r else close_channel id (r.channels id) r) in
      record r' { subs = delete id r'.subs }
]

-- A send that does not block: on a full buffer the id is one to drop.
send : Event → ℕ → Option Channel → Registry → List ℕ → Registry × List ℕ
send ev id none r drop = (record r { panicked = true }, drop)
send ev id (some ch) r drop =
    if ch.closed
    then (record r { panicked = true }, drop)
    else if ltb (length ch.sent) (ch.received + r.buf_size)
    then (record r { channels = put id (record ch { sent = ch.sent ++ ev ∷ [] }) r.channels }, drop)
    else (r, drop ++ id ∷ [])

pub offer : Event → ℕ → Registry → List ℕ → Registry × List ℕ
unfolding send
offer ev id r drop = elim (r.subs id) [
  | none ↦ (r, drop)
  | some sub ↦ if sub.scope == ev.scope then send ev id (r.channels id) r drop else (r, drop)
]

-- The loop of `Publish` in the order in which Go's map iteration meets the keys.
pub offers : Event → List ℕ → Registry → List ℕ → Registry × List ℕ
unfolding offer
offers ev [] r drop = (r, drop)
offers ev (id ∷ ids) r drop = let (r', drop') = offer ev id r drop in offers ev ids r' drop'

pub close_each : List ℕ → Registry → Registry
close_each [] r = r
close_each (id ∷ ids) r = close_each ids (close_locked id r)

unfoldable pub publish : Option Error → Event → List ℕ → Registry → Option Error × Registry
unfolding offers close_each
publish (some e) ev order r = (some e, r)
publish none ev order r =
    if r.closed
    then (none, r)
    else let (r', drop) = offers ev order r [] in (none, close_each drop r')

unfoldable pub close : List ℕ → Registry → Registry
unfolding close_each
close order r = if r.closed then r else close_each order (record r { closed = true })

-- The reader takes what is oldest in the buffer.
unfoldable pub take_one : ℕ → Registry → Registry
take_one id r = elim (r.channels id) [
  | none ↦ r
  | some ch ↦
      if ltb ch.received (length ch.sent)
      then record r { channels = put id (record ch { received = ch.received + 1 }) r.channels }
      else r
]

pub data Op : Type 0 where
  subscribe_op : String → Op
  publish_op : Option Error → Event → List ℕ → Op
  unsubscribe_op : ℕ → Op
  close_op : List ℕ → Op
  receive_op : ℕ → Op

unfoldable pub op : Op → Registry → Registry
unfolding subscribe publish close close_locked take_one
op (subscribe_op scope) r = (subscribe scope r).1
op (publish_op ctx_err ev order) r = (publish ctx_err ev order r).1
op (unsubscribe_op id) r = close_locked id r
op (close_op order) r = close order r
op (receive_op id) r = take_one id r

unfoldable pub ops : List Op → Registry → Registry
ops [] r = r
ops (o ∷ os) r = ops os (op o r)
