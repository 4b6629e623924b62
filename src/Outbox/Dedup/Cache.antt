-- ===== src/Outbox/Dedup/Cache.antt =====
-- The order and the set of the cache agree, and it keeps its capacity.
use watchkeepers.Prelude.{
  ℕ, suc, ◌<◌, ◌≤◌, String, ◌≡◌, ◌≢◌, refl, ◌∙◌, Bool, true, false, ◌||◌, List, [], ◌∷◌, ◌++◌, ◌==◌,
  ==_ne, string_eq, number_eq, length, length-append, arith, sym, eq_iff, Bool-cases, inl, inr, ◌⊎◌,
}
use mathlib.Core.Path.{subst}
use watchkeepers.Outbox.Dedup.{
  LruDedup, new_lru_dedup, has_key, evict, make_room, append_id, remember,
}

abbrev pub holds : String → List String → Bool
holds u [] = false
holds u (x ∷ xs) = x == u || holds u xs

abbrev pub Distinct : List String → Type 0
Distinct [] = Unit
Distinct (x ∷ xs) = (holds x xs ≡ false) × Distinct xs

-- The order and the set agree, and the capacity is kept.
pub record IsCache (l : LruDedup) : Type 0 where
  pub agree : (u : String) → has_key (l.set u) ≡ holds u l.order
  pub distinct : Distinct l.order
  pub bounded : length l.order ≤ l.size
  pub roomy : 0 < l.size
  pub named : holds "" l.order ≡ false

List-cases {ℓ} : {A : Type ℓ} (l : List A) → (l ≡ []) ⊎ ((a : A) × (rest : List A) × (l ≡ a ∷ rest))
List-cases [] = inl refl
List-cases (a ∷ rest) = inr (a, rest, refl)

pub new-IsCache : (size : ℕ) → 0 < size → IsCache (new_lru_dedup size)
unfolding new_lru_dedup
new-IsCache size h = record {
  agree = λ u. refl;
  distinct = tt;
  bounded = omega arith;
  roomy = h;
  named = refl;
}

holds-append : (u y : String) (xs : List String) → holds u (xs ++ y ∷ []) ≡ (holds u xs || y == u)
holds-append u y [] = ground arith
holds-append u y (x ∷ xs) = ground (arith, holds-append u y xs)

Distinct-append :
    (y : String) (xs : List String) → holds y xs ≡ false → Distinct xs → Distinct (xs ++ y ∷ [])
Distinct-append y [] h d = (refl, tt)
Distinct-append y (x ∷ xs) h d = (
  ground (arith, holds-append x y xs, eq_iff x y, eq_iff y x),
  Distinct-append y xs (ground arith) d.1,
)

-- A cache with a free place, that holds no id that `l` does not hold.
record HasRoom (l m : LruDedup) : Type 0 where
  cache : IsCache m
  free : length m.order < m.size
  fewer : (u : String) → holds u l.order ≡ false → holds u m.order ≡ false

evict-HasRoom :
    (oldest : String) (rest : List String) (l : LruDedup)
    → l.order ≡ oldest ∷ rest
    → IsCache l
    → HasRoom l (evict (oldest ∷ rest) l)
unfolding evict
evict-HasRoom oldest rest l e h =
    let d : Distinct (oldest ∷ rest) = rw e at h.distinct in
    let b : suc (length rest) ≤ l.size = rw e at h.bounded in
    record {
      cache = record {
        agree = λ u. ground (arith, h.agree u, eq_iff oldest u, d.0);
        distinct = d.1;
        bounded = omega arith;
        roomy = h.roomy;
        named = ground (arith, h.named);
      };
      free = b;
      fewer = λ u. ground arith;
    }

make_room-HasRoom : (l : LruDedup) → IsCache l → HasRoom l (make_room l)
make_room-HasRoom l h = elim (Bool-cases (length l.order == l.size)) [
  | inl full ↦ elim (List-cases l.order) [
    | inl e ↦ absurd (ground (arith, h.roomy))
    | inr (oldest, rest, e) ↦
        unfold make_room in
        rw full (subst (λ x. HasRoom l (evict x l)) (sym e) (evict-HasRoom oldest rest l e h))
  ]
  | inr free ↦
      unfold make_room in
      rw free (record { cache = h; free = ground (arith, h.bounded); fewer = λ u e. e })
]

append_id-IsCache :
    (id : String) (l : LruDedup)
    → IsCache l
    → length l.order < l.size
    → id ≢ ""
    → holds id l.order ≡ false
    → IsCache (append_id id l)
unfolding append_id
append_id-IsCache id l h room ne new = record {
  agree = λ u. ground (arith, h.agree u, holds-append u id l.order);
  distinct = Distinct-append id l.order new h.distinct;
  bounded = omega (arith, length-append l.order (id ∷ []));
  roomy = h.roomy;
  named = ground (arith, h.named, holds-append "" id l.order, eq_iff id "");
}

-- The three branches of `remember`.
pub remember_old : (id : String) (l : LruDedup) → has_key (l.set id) ≡ true → remember id l ≡ l
unfolding remember
remember_old id l h = ground arith

pub remember_new :
    (id : String) (l : LruDedup)
    → id ≢ ""
    → has_key (l.set id) ≡ false
    → remember id l ≡ append_id id (make_room l)
unfolding remember
remember_new id l n h = rw (==_ne id "" n, h)

pub remember_empty : (l : LruDedup) → remember "" l ≡ l
unfolding remember
remember_empty l = refl

-- `remember` keeps the cache sound.
pub remember-IsCache : (id : String) (l : LruDedup) → IsCache l → IsCache (remember id l)
remember-IsCache id l h = elim (Bool-cases (id == "")) [
  | inl e ↦ rw ((eq_iff id "").0 e, remember_empty) h
  | inr n ↦
      let ne : id ≢ "" = λ q. cc (n, (eq_iff id "").1 q) in
      elim (Bool-cases (has_key (l.set id))) [
        | inl old ↦ rw (remember_old id l old) h
        | inr new ↦
            let room = make_room-HasRoom l h in
            rw (remember_new id l ne new) (
              append_id-IsCache id (make_room l) room.cache room.free ne
                (room.fewer id (sym (h.agree id) ∙ new)))
      ]
]
