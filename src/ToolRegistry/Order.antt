-- ===== src/ToolRegistry/Order.antt =====
-- Go's `<` on strings and the sorting by it. On valid UTF-8 the order of the bytes is that of the code
-- points.
use Prim.Native.Char.{code}
use watchkeepers.Prelude.{
  String, ◌≡◌, refl, Bool, true, false, Option, none, some, List, [], ◌∷◌, if◌then◌else◌, ltb, ◌==◌,
  number_eq, string_eq, arith, Bool-cases, inl, inr, eq_iff, length, suc, ◌∙◌, ap,
}

unfoldable pub less : String → String → Bool
less String.[] String.[] = false
less String.[] (String.◌∷◌ d t) = true
less (String.◌∷◌ c s) String.[] = false
less (String.◌∷◌ c s) (String.◌∷◌ d t) =
    let rest = less s t in
    if ltb (code c) (code d) then true else if code c == code d then rest else false

pub less_irrefl : (s : String) → less s s ≡ false
unfolding less
less_irrefl String.[] = refl
less_irrefl (String.◌∷◌ c s) = ground (arith, less_irrefl s)

pub less_asym : (s t : String) → less s t ≡ true → less t s ≡ false
unfolding less
less_asym String.[] String.[] h = refl
less_asym String.[] (String.◌∷◌ d t) h = refl
less_asym (String.◌∷◌ c s) String.[] h = cc
less_asym (String.◌∷◌ c s) (String.◌∷◌ d t) h = ground (arith, less_asym s t)

module _ {ℓ} {A : Type ℓ} (key : A → String) where
  insert_sorted : A → List A → List A
  insert_sorted x [] = x ∷ []
  insert_sorted x (y ∷ ys) =
      let rest = insert_sorted x ys in if less (key y) (key x) then y ∷ rest else x ∷ y ∷ ys

  -- `sort.SliceStable`, and `sort.Slice` where the keys are distinct, which leaves one result.
  unfoldable pub sort_by : List A → List A
  unfolding insert_sorted
  sort_by [] = []
  sort_by (x ∷ xs) = insert_sorted x (sort_by xs)

  -- No item is before the one to its left.
  abbrev pub IsSorted : List A → Type 0
  IsSorted [] = Unit
  IsSorted (x ∷ []) = Unit
  IsSorted (x ∷ y ∷ ys) = (less (key y) (key x) ≡ false) × IsSorted (y ∷ ys)

  -- The first item with a key.
  abbrev pub find_key : String → List A → Option A
  find_key k [] = none
  find_key k (x ∷ xs) = let rest = find_key k xs in if key x == k then some x else rest

  abbrev pub has_key : String → List A → Bool
  has_key k [] = false
  has_key k (x ∷ xs) = let rest = has_key k xs in if key x == k then true else rest

  abbrev pub DistinctKeys : List A → Type 0
  DistinctKeys [] = Unit
  DistinctKeys (x ∷ xs) = (has_key (key x) xs ≡ false) × DistinctKeys xs

  insert_sorted-IsSorted : (x : A) (ys : List A) → IsSorted ys → IsSorted (insert_sorted x ys)
  unfolding insert_sorted
  insert_sorted-IsSorted x [] h = tt
  insert_sorted-IsSorted x (y ∷ []) h = elim (Bool-cases (less (key y) (key x))) [
    | inl b ↦ rw b (less_asym (key y) (key x) b, tt)
    | inr b ↦ rw b (b, tt)
  ]
  insert_sorted-IsSorted x (y ∷ z ∷ zs) h = elim (Bool-cases (less (key y) (key x))) [
    | inr b ↦ rw b (b, h)
    | inl b ↦
        let ih : IsSorted (insert_sorted x (z ∷ zs)) = insert_sorted-IsSorted x (z ∷ zs) h.1 in
        elim (Bool-cases (less (key z) (key x))) [
          | inl c ↦ rw b (rw c (h.0, rw c at ih))
          | inr c ↦ rw b (rw c (less_asym (key y) (key x) b, rw c at ih))
        ]
  ]

  pub sort_by-IsSorted : (xs : List A) → IsSorted (sort_by xs)
  unfolding sort_by
  sort_by-IsSorted [] = tt
  sort_by-IsSorted (x ∷ xs) = insert_sorted-IsSorted x (sort_by xs) (sort_by-IsSorted xs)

  -- Sorting keeps the first item of each key.
  find_key-insert_sorted :
      (k : String) (x : A) (ys : List A)
      → find_key k (insert_sorted x ys) ≡ (if key x == k then some x else find_key k ys)
  unfolding insert_sorted
  find_key-insert_sorted k x [] = refl
  find_key-insert_sorted k x (y ∷ ys) = elim (Bool-cases (less (key y) (key x))) [
    | inr b ↦ rw b refl
    | inl b ↦ elim (Bool-cases (key x == k)) [
      | inr e ↦ rw b (rw (find_key-insert_sorted k x ys) (rw e refl))
      | inl e ↦ elim (Bool-cases (key y == k)) [
        | inr n ↦ rw b (rw (find_key-insert_sorted k x ys) (rw (e, n) refl))
        | inl n ↦
            let same : key y ≡ key x = cc ((eq_iff (key y) k).0 n, (eq_iff (key x) k).0 e) in
            let bad : less (key x) (key x) ≡ true = rw same at b in cc (bad, less_irrefl (key x))
      ]
    ]
  ]

  pub find_key-sort_by : (k : String) (xs : List A) → find_key k (sort_by xs) ≡ find_key k xs
  unfolding sort_by
  find_key-sort_by k [] = refl
  find_key-sort_by k (x ∷ xs) =
      find_key-insert_sorted k x (sort_by xs) ∙ rw (find_key-sort_by k xs) refl

  has_key-insert_sorted :
      (k : String) (x : A) (ys : List A)
      → has_key k (insert_sorted x ys) ≡ (if key x == k then true else has_key k ys)
  unfolding insert_sorted
  has_key-insert_sorted k x [] = refl
  has_key-insert_sorted k x (y ∷ ys) = ground (arith, has_key-insert_sorted k x ys)

  pub has_key-sort_by : (k : String) (xs : List A) → has_key k (sort_by xs) ≡ has_key k xs
  unfolding sort_by
  has_key-sort_by k [] = refl
  has_key-sort_by k (x ∷ xs) =
      has_key-insert_sorted k x (sort_by xs) ∙ rw (has_key-sort_by k xs) refl

  insert_sorted-DistinctKeys :
      (x : A) (ys : List A)
      → has_key (key x) ys ≡ false
      → DistinctKeys ys
      → DistinctKeys (insert_sorted x ys)
  unfolding insert_sorted
  insert_sorted-DistinctKeys x [] n d = (refl, tt)
  insert_sorted-DistinctKeys x (y ∷ ys) n d = elim (Bool-cases (less (key y) (key x))) [
    | inr b ↦ rw b (n, d)
    | inl b ↦ rw b (
      has_key-insert_sorted (key y) x ys
          ∙ ground (arith, d.0, n, eq_iff (key x) (key y), eq_iff (key y) (key x)),
      insert_sorted-DistinctKeys x ys (ground (arith, n)) d.1,
    )
  ]

  pub sort_by-DistinctKeys : (xs : List A) → DistinctKeys xs → DistinctKeys (sort_by xs)
  unfolding sort_by
  sort_by-DistinctKeys [] d = tt
  sort_by-DistinctKeys (x ∷ xs) d =
      insert_sorted-DistinctKeys x (sort_by xs) (has_key-sort_by (key x) xs ∙ d.0)
        (sort_by-DistinctKeys xs d.1)

  length-insert : (x : A) (ys : List A) → length (insert_sorted x ys) ≡ suc (length ys)
  unfolding insert_sorted
  length-insert x [] = refl
  length-insert x (y ∷ ys) = ground (arith, length-insert x ys)

  pub length-sort_by : (xs : List A) → length (sort_by xs) ≡ length xs
  unfolding sort_by
  length-sort_by [] = refl
  length-sort_by (x ∷ xs) = length-insert x (sort_by xs) ∙ ap suc (length-sort_by xs)
