-- ===== src/Outbox/Dedup.antt =====
-- core/pkg/outbox/consumer.go, lruDedup: the ids that were published last.
pub mod Cache
pub mod Window
use watchkeepers.Prelude.{
  ℕ, String, Bytes, Bool, true, false, Option, none, some, List, [], ◌∷◌, ◌++◌, Map, empty_map, put,
  delete, if◌then◌else◌, ◌==◌, string_eq, number_eq, length,
}

-- `set` has a key for each id of `order`, oldest first.
pub record LruDedup : Type 0 where
  pub size : ℕ
  pub order : List String
  pub set : Map String (Unit {0})

unfoldable pub new_lru_dedup : ℕ → LruDedup
new_lru_dedup size = record { size = size; order = []; set = empty_map }

abbrev pub has_key : Option (Unit {0}) → Bool
has_key none = false
has_key (some _) = true

unfoldable pub seen : String → LruDedup → Bool
seen id l = if id == "" then false else has_key (l.set id)

-- The oldest entry goes if the cache is full. On an empty order Go would panic: a cache has a
-- positive size.
pub evict : List String → LruDedup → LruDedup
evict [] l = l
evict (oldest ∷ rest) l = record l { order = rest; set = delete oldest l.set }

pub make_room : LruDedup → LruDedup
unfolding evict
make_room l = if length l.order == l.size then evict l.order l else l

pub append_id : String → LruDedup → LruDedup
append_id id l = record l { order = l.order ++ id ∷ []; set = put id tt l.set }

unfoldable pub remember : String → LruDedup → LruDedup
unfolding make_room append_id
remember id l = if id == "" then l else if has_key (l.set id) then l else append_id id (make_room l)
