-- ===== src/Outbox/Dedup/Window.antt =====
-- An id stays in the cache for as long as fewer than `size` other ids have come in.
use watchkeepers.Prelude.{
  ℕ, suc, ◌+◌, ◌<◌, ◌≤◌, String, ◌≡◌, ◌≢◌, refl, true, false, List, [], ◌∷◌, ◌++◌, ◌==◌, ==_ne,
  string_eq, number_eq, length, length-append, arith, sym, ap, eq_iff, Bool-cases, inl, inr,
  append_assoc,
}
use mathlib.Core.Path.{subst}
use watchkeepers.Outbox.Dedup.{LruDedup, has_key, seen, evict, make_room, append_id, remember}
use watchkeepers.Outbox.Dedup.Cache.{
  holds, IsCache, remember_old, remember_new, remember_empty, remember-IsCache,
}

-- `id` came in with at most `n` ids after it.
pub record IsRecent (id : String) (n : ℕ) (l : LruDedup) : Type 0 where
  pub before : List String
  pub after : List String
  pub split : l.order ≡ before ++ id ∷ after
  pub few : length after ≤ n

holds-middle : (u : String) (xs ys : List String) → holds u (xs ++ u ∷ ys) ≡ true
holds-middle u [] ys = ground (arith, eq_iff u u)
holds-middle u (x ∷ xs) ys = ground (arith, holds-middle u xs ys)

-- What came in recently is seen.
pub seen_of_recent :
    (id : String) (n : ℕ) (l : LruDedup) → id ≢ "" → IsCache l → IsRecent id n l → seen id l ≡ true
unfolding seen
seen_of_recent id n l ne h r =
    rw (==_ne id "" ne, h.agree id, r.split) (holds-middle id r.before r.after)

append_id-IsRecent : (id : String) (l : LruDedup) → IsRecent id 0 (append_id id l)
unfolding append_id
append_id-IsRecent id l = record { before = l.order; after = []; split = refl; few = omega arith }

evict-IsRecent :
    (id : String) (n : ℕ) (l : LruDedup) (before after : List String)
    → l.order ≡ before ++ id ∷ after
    → length after ≤ n
    → suc n < length l.order
    → IsRecent id n (evict l.order l)
evict-IsRecent id n l [] after e few small =
    absurd (omega (arith, ap (λ (xs : List String). length xs) e))
evict-IsRecent id n l (x ∷ before) after e few small =
    subst (λ xs. IsRecent id n (evict xs l)) (sym e)
      (unfold evict in record { before = before; after = after; split = refl; few = few })

make_room-IsRecent :
    (id : String) (n : ℕ) (l : LruDedup)
    → suc n < l.size
    → IsRecent id n l
    → IsRecent id n (make_room l)
make_room-IsRecent id n l small r = elim (Bool-cases (length l.order == l.size)) [
  | inl full ↦
      unfold make_room in
      rw full (evict-IsRecent id n l r.before r.after r.split r.few (ground arith))
  | inr free ↦ unfold make_room in rw free r
]

append_id-IsRecent_other :
    (id j : String) (n : ℕ) (l : LruDedup) → IsRecent id n l → IsRecent id (suc n) (append_id j l)
unfolding append_id
append_id-IsRecent_other id j n l r = record {
  before = r.before;
  after = r.after ++ j ∷ [];
  split = rw (r.split, append_assoc);
  few = omega (arith, length-append r.after (j ∷ []), r.few);
}

weaken : (id : String) (n : ℕ) (l : LruDedup) → IsRecent id n l → IsRecent id (suc n) l
weaken id n l r = record {
  before = r.before;
  after = r.after;
  split = r.split;
  few = omega (arith, r.few);
}

-- Another id moves `id` one place further back, and not out of the cache.
pub remember-IsRecent :
    (id j : String) (n : ℕ) (l : LruDedup)
    → suc n < l.size
    → IsRecent id n l
    → IsRecent id (suc n) (remember j l)
remember-IsRecent id j n l small r = elim (Bool-cases (j == "")) [
  | inl e ↦ rw ((eq_iff j "").0 e, remember_empty) (weaken id n l r)
  | inr ne ↦ elim (Bool-cases (has_key (l.set j))) [
    | inl old ↦ rw (remember_old j l old) (weaken id n l r)
    | inr new ↦
        rw (remember_new j l (λ q. cc (ne, (eq_iff j "").1 q)) new)
          (append_id-IsRecent_other id j n (make_room l) (make_room-IsRecent id n l small r))
  ]
]

size-evict : (xs : List String) (l : LruDedup) → (evict xs l).size ≡ l.size
unfolding evict
size-evict [] l = refl
size-evict (x ∷ xs) l = refl

size-make_room : (l : LruDedup) → (make_room l).size ≡ l.size
unfolding make_room
size-make_room l = ground (arith, size-evict l.order l)

pub size-remember : (id : String) (l : LruDedup) → (remember id l).size ≡ l.size
unfolding remember append_id
size-remember id l = ground (arith, size-make_room l)

pub remember_all : List String → LruDedup → LruDedup
remember_all [] l = l
remember_all (j ∷ js) l = remember_all js (remember j l)

remember_all-seen :
    (id : String) (js : List String) (n : ℕ) (l : LruDedup)
    → id ≢ ""
    → IsCache l
    → n + length js < l.size
    → IsRecent id n l
    → seen id (remember_all js l) ≡ true
unfolding remember_all
remember_all-seen id [] n l ne h room r = seen_of_recent id n l ne h r
remember_all-seen id (j ∷ js) n l ne h room r =
    remember_all-seen id js (suc n) (remember j l) ne (remember-IsCache j l h)
      (omega (arith, size-remember j l)) (remember-IsRecent id j n l (omega arith) r)

-- The id that was remembered last, and not seen before, is the most recent.
pub remember-IsRecent_self :
    (id : String) (l : LruDedup)
    → id ≢ ""
    → IsCache l
    → seen id l ≡ false
    → IsRecent id 0 (remember id l)
unfolding seen
remember-IsRecent_self id l ne h new =
    let fresh : has_key (l.set id) ≡ false = rw (==_ne id "" ne) at new in
    rw (remember_new id l ne fresh) (append_id-IsRecent id (make_room l))

-- A cache that remembers an id it has not seen reports it as seen for as long as fewer than `size`
-- further ids are remembered.
pub window_lem :
    (id : String) (js : List String) (l : LruDedup)
    → id ≢ ""
    → IsCache l
    → seen id l ≡ false
    → length js < l.size
    → seen id (remember_all js (remember id l)) ≡ true
window_lem id js l ne h new room =
    remember_all-seen id js 0 (remember id l) ne (remember-IsCache id l h)
      (omega (arith, size-remember id l)) (remember-IsRecent_self id l ne h new)
