-- ===== src/ToolRegistry/Keyed.antt =====
-- Lists searched by a name: what an append does to the search, and index maps into them.
use watchkeepers.Prelude.{
  ℕ, String, ◌≡◌, refl, sym, ◌∙◌, ap, false, Option, none, some, List, [], ◌∷◌, ◌++◌, ◌==◌,
  string_eq, Bool-cases, Option-cases, inl, inr, arith, Map, empty_map, put, length, get_elem?,
  zero, suc, eq_iff, Every, append_assoc, ==_refl,
}
use watchkeepers.ToolRegistry.Order.{find_key, has_key, DistinctKeys}

abbrev pub or_else {ℓ} : {A : Type ℓ} → Option A → Option A → Option A
or_else none b = b
or_else (some a) b = some a

pub or_else-none {ℓ} : {A : Type ℓ} (a : Option A) → or_else a none ≡ a
or_else-none none = refl
or_else-none (some a) = refl

pub or_else_assoc {ℓ} :
    {A : Type ℓ} (a b c : Option A) → or_else (or_else a b) c ≡ or_else a (or_else b c)
or_else_assoc none b c = refl
or_else_assoc (some a) b c = refl

pub get_elem-append {ℓ} :
    {A : Type ℓ} (xs ys : List A) (i : ℕ) (a : A)
    → get_elem? xs i ≡ some a
    → get_elem? (xs ++ ys) i ≡ some a
get_elem-append [] ys i a h = cc
get_elem-append (x ∷ xs) ys zero a h = h
get_elem-append (x ∷ xs) ys (suc i) a h = get_elem-append xs ys i a h

pub get_elem-length {ℓ} :
    {A : Type ℓ} (xs ys : List A) (a : A) → get_elem? (xs ++ a ∷ ys) (length xs) ≡ some a
get_elem-length [] ys a = refl
get_elem-length (x ∷ xs) ys a = get_elem-length xs ys a

module _ {ℓ} {A : Type ℓ} (key : A → String) where
  pub find_key-append :
      (k : String) (xs ys : List A)
      → find_key key k (xs ++ ys) ≡ or_else (find_key key k xs) (find_key key k ys)
  find_key-append k [] ys = refl
  find_key-append k (x ∷ xs) ys = elim (Bool-cases (key x == k)) [
    | inl e ↦ rw e refl
    | inr n ↦ rw n (find_key-append k xs ys)
  ]

  -- An item whose key is there already adds nothing to the search.
  pub find_key-again :
      (xs : List A) (y old : A)
      → find_key key (key y) xs ≡ some old
      → (k : String) → find_key key k xs ≡ find_key key k (xs ++ y ∷ [])
  find_key-again xs y old h k = elim (Bool-cases (key y == k)) [
    | inl e ↦
        let same : key y ≡ k = (eq_iff (key y) k).0 e in
        let there : find_key key k xs ≡ some old = ap (λ j. find_key key j xs) (sym same) ∙ h in
        there ∙ sym (find_key-append k xs (y ∷ []) ∙ rw there refl)
    | inr e ↦ sym (find_key-append k xs (y ∷ []) ∙ rw e (or_else-none (find_key key k xs)))
  ]

  pub find_none-has_key :
      (k : String) (xs : List A) → find_key key k xs ≡ none → has_key key k xs ≡ false
  find_none-has_key k [] h = refl
  find_none-has_key k (x ∷ xs) h = elim (Bool-cases (key x == k)) [
    | inl e ↦ absurd (cc ((rw e at h)))
    | inr n ↦ rw n (find_none-has_key k xs (rw n at h))
  ]

  pub has_key-find_none :
      (k : String) (xs : List A) → has_key key k xs ≡ false → find_key key k xs ≡ none
  has_key-find_none k [] h = refl
  has_key-find_none k (x ∷ xs) h = elim (Bool-cases (key x == k)) [
    | inl e ↦ absurd (cc ((rw e at h)))
    | inr n ↦ rw n (has_key-find_none k xs (rw n at h))
  ]

  has_key-append :
      (k : String) (xs ys : List A)
      → has_key key k xs ≡ false
      → has_key key k ys ≡ false
      → has_key key k (xs ++ ys) ≡ false
  has_key-append k [] ys h g = g
  has_key-append k (x ∷ xs) ys h g = elim (Bool-cases (key x == k)) [
    | inl e ↦ absurd (cc ((rw e at h)))
    | inr n ↦ rw n (has_key-append k xs ys (rw n at h) g)
  ]

  other_key :
      (x y : A) (xs : List A) → has_key key (key y) (x ∷ xs) ≡ false → (key y == key x) ≡ false
  other_key x y xs h = ground (arith, eq_iff (key x) (key y), eq_iff (key y) (key x))

  pub DistinctKeys-snoc :
      (xs : List A) (y : A)
      → DistinctKeys key xs
      → has_key key (key y) xs ≡ false
      → DistinctKeys key (xs ++ y ∷ [])
  DistinctKeys-snoc [] y d h = (refl, tt)
  DistinctKeys-snoc (x ∷ xs) y d h = (
    has_key-append (key x) xs (y ∷ []) d.0 (rw (other_key x y xs h) refl),
    DistinctKeys-snoc xs y d.1 (ground (arith, h)),
  )

  has_key-parts :
      (k : String) (xs ys : List A)
      → has_key key k (xs ++ ys) ≡ false
      → (has_key key k xs ≡ false) × (has_key key k ys ≡ false)
  has_key-parts k [] ys h = (refl, h)
  has_key-parts k (x ∷ xs) ys h = elim (Bool-cases (key x == k)) [
    | inl e ↦ absurd (cc ((rw e at h)))
    | inr n ↦ rw n (has_key-parts k xs ys (rw n at h))
  ]

  -- In a list of distinct keys the key of an item is not before it.
  pub DistinctKeys-before :
      (xs : List A) (y : A) (ys : List A)
      → DistinctKeys key (xs ++ y ∷ ys)
      → find_key key (key y) xs ≡ none
  DistinctKeys-before [] y ys d = refl
  DistinctKeys-before (x ∷ xs) y ys d =
      let apart : has_key key (key x) (y ∷ ys) ≡ false =
        (has_key-parts (key x) xs (y ∷ ys) d.0).1 in
      let differ : (key x == key y) ≡ false = other_key y x ys apart in
      rw differ (DistinctKeys-before xs y ys d.1)

  -- In a list of distinct keys every item is what the search for its key gives.
  pub distinct-found :
      (g : String → Option A) (done xs : List A)
      → DistinctKeys key (done ++ xs)
      → ((k : String) → find_key key k (done ++ xs) ≡ g k)
      → Every (λ x. g (key x) ≡ some x) xs
  distinct-found g done [] d h = tt
  distinct-found g done (x ∷ xs) d h =
      let before : find_key key (key x) done ≡ none = DistinctKeys-before done x xs d in
      let shift : done ++ x ∷ xs ≡ (done ++ x ∷ []) ++ xs = sym (append_assoc done (x ∷ []) xs) in
      (
        distinct-found g (done ++ x ∷ []) xs (rw shift at d) (rw shift at h),
        sym (h (key x))
            ∙ (find_key-append (key x) done (x ∷ xs) ∙ rw (before, ==_refl (key x)) refl),
      )

  -- What every item has, the item that a search finds has, and its key is the one searched for.
  pub find_key-Every {κ} :
      (Q : A → Type κ) (k : String) (xs : List A) (x : A)
      → Every Q xs
      → find_key key k xs ≡ some x
      → Q x × (key x ≡ k)
  find_key-Every Q k [] x h e = absurd (cc e)
  find_key-Every Q k (y ∷ ys) x (rest, q) e = elim (Bool-cases (key y == k)) [
    | inl s ↦ let same : y ≡ x = cc (rw s at e) in rw (← same) (q, (eq_iff (key y) k).0 s)
    | inr s ↦ find_key-Every Q k ys x rest (rw s at e)
  ]

  -- An index map leads every name to the place where the search ends.
  pub record Indexes (m : Map String ℕ) (ts : List A) : Type ℓ where
    pub absent : (k : String) → m k ≡ none → find_key key k ts ≡ none
    pub present :
        (k : String) (i : ℕ)
        → m k ≡ some i
        → (t : A) × (get_elem? ts i ≡ some t) × (find_key key k ts ≡ some t)

  pub empty-Indexes : Indexes empty_map []
  empty-Indexes = record { absent = λ k h. refl; present = λ k i h. absurd (cc (h)) }

  pub put-Indexes :
      (m : Map String ℕ) (ts : List A) (t : A)
      → Indexes m ts
      → find_key key (key t) ts ≡ none
      → Indexes (put (key t) (length ts) m) (ts ++ t ∷ [])
  put-Indexes m ts t h fresh = record {
    absent = λ k g. elim (Bool-cases (key t == k)) [
      | inl e ↦ absurd (cc ((rw e at g)))
      | inr n ↦ find_key-append k ts (t ∷ []) ∙ rw (h.absent k (rw n at g), n) refl
    ];
    present = λ k i g. elim (Bool-cases (key t == k)) [
      | inl e ↦
          let here : some (length ts) ≡ some i = rw e at g in
          let same : key t ≡ k = (eq_iff (key t) k).0 e in
          let at_end : i ≡ length ts = cc here in
          (
            t,
            rw at_end (get_elem-length ts [] t),
            find_key-append k ts (t ∷ []) ∙ rw (sym same, fresh, ==_refl (key t)) refl,
          )
      | inr n ↦
          let (t', at_i, found) = h.present k i (rw n at g) in
          (t', get_elem-append ts (t ∷ []) i t' at_i, find_key-append k ts (t ∷ []) ∙ rw found refl)
    ];
  }

  pub lookup-Indexes :
      (m : Map String ℕ) (ts : List A)
      → Indexes m ts
      → (k : String)
      → (elim (m k) [ none ↦ none | some idx ↦ get_elem? ts idx ]) ≡ find_key key k ts
  lookup-Indexes m ts h k = elim (Option-cases (m k)) [
    | inl e ↦ rw e (sym (h.absent k e))
    | inr (i, e) ↦ let (t, at_i, found) = h.present k i e in rw e (at_i ∙ sym found)
  ]
