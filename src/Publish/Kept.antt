-- ===== src/Publish/Kept.antt =====
-- What the operations keep: the flag, the counter, and what has gone.
use watchkeepers.Prelude.{
  ℕ, suc, ◌+◌, ◌^◌, ◌<◌, ◌≡◌, refl, sym, ap, ◌∙◌, true, none, some, List, [], ◌∷◌, number_eq,
  string_eq, ◌==◌, Bool-cases, inl, inr, arith, String,
}
use mathlib.Core.Path.{subst}
use watchkeepers.Publish.{
  Event, Registry, Op, subscribe_op, publish_op, unsubscribe_op, close_op, receive_op, subscribe,
  close_channel, close_locked, send, offer, offers, close_each, publish, close, take_one, op,
}
use watchkeepers.Publish.Feed.{Gone, Same, Same-Gone, close_each-Gone}
use watchkeepers.Publish.Fanout.{offer-other, publish_open}

pub closed-close_locked :
    (id : ℕ) (r : Registry)
    → ((close_locked id r).closed ≡ r.closed) × ((close_locked id r).next_id ≡ r.next_id)
unfolding close_locked close_channel
closed-close_locked id r = (ground arith, ground arith)

closed-close_each :
    (ids : List ℕ) (r : Registry)
    → ((close_each ids r).closed ≡ r.closed) × ((close_each ids r).next_id ≡ r.next_id)
unfolding close_each
closed-close_each [] r = (refl, refl)
closed-close_each (id ∷ ids) r =
    let (a, b) = closed-close_each ids (close_locked id r) in
    let (c, d) = closed-close_locked id r in (a ∙ c, b ∙ d)

closed-offer :
    (ev : Event) (id : ℕ) (r : Registry) (drop : List ℕ)
    → ((offer ev id r drop).0.closed ≡ r.closed) × ((offer ev id r drop).0.next_id ≡ r.next_id)
unfolding offer send
closed-offer ev id r drop = (ground arith, ground arith)

closed-offers :
    (ev : Event) (ids : List ℕ) (r : Registry) (drop : List ℕ)
    → ((offers ev ids r drop).0.closed ≡ r.closed) × ((offers ev ids r drop).0.next_id ≡ r.next_id)
unfolding offers
closed-offers ev [] r drop = (refl, refl)
closed-offers ev (id ∷ ids) r drop =
    let (a, b) = closed-offers ev ids (offer ev id r drop).0 (offer ev id r drop).1 in
    let (c, d) = closed-offer ev id r drop in (a ∙ c, b ∙ d)

pub closed-publish :
    (ev : Event) (order : List ℕ) (r : Registry)
    → ((publish none ev order r).1.closed ≡ r.closed)
      × ((publish none ev order r).1.next_id ≡ r.next_id)
closed-publish ev order r = elim (Bool-cases r.closed) [
  | inl c ↦ (unfold publish in (ground (arith, c)), unfold publish in (ground (arith, c)))
  | inr c ↦
      let (x, y) = closed-offers ev order r [] in
      let (u, v) = closed-close_each (offers ev order r []).1 (offers ev order r []).0 in
      let e = ap (λ p. p.1) (publish_open ev order r c) in
      (ap (λ s. s.closed) e ∙ u ∙ x, ap (λ s. s.next_id) e ∙ v ∙ y)
]

-- The subscriber's ids stay below the counter, which does not wrap in `n` further operations.
abbrev pub InRange : ℕ → ℕ → Registry → Type 0
InRange i n r = (i < r.next_id) × (r.next_id + n < 2 ^ 64)

range_of : (i n : ℕ) (r s : Registry) → s.next_id ≡ r.next_id → InRange i (suc n) r → InRange i n s
range_of i n r s e (a, b) = (omega arith, omega arith)

pub closed-take_one :
    (id : ℕ) (r : Registry)
    → ((take_one id r).closed ≡ r.closed) × ((take_one id r).next_id ≡ r.next_id)
unfolding take_one
closed-take_one id r = (ground arith, ground arith)

next_id-close : (order : List ℕ) (r : Registry) → (close order r).next_id ≡ r.next_id
unfolding close
next_id-close order r = ground (arith, (closed-close_each order (record r { closed = true })).1)

subscribe-InRange :
    (i n : ℕ) (scope : String) (r : Registry)
    → InRange i (suc n) r
    → InRange i n (subscribe scope r).1
unfolding subscribe
subscribe-InRange i n scope r (a, b) = (ground arith, ground arith)

pub op-InRange : (i n : ℕ) (o : Op) (r : Registry) → InRange i (suc n) r → InRange i n (op o r)
unfolding op
op-InRange i n (subscribe_op scope) r h = subscribe-InRange i n scope r h
op-InRange i n (publish_op (some e) ev order) r h = unfold publish in range_of i n r r refl h
op-InRange i n (publish_op none ev order) r h =
    range_of i n r (publish none ev order r).1 (closed-publish ev order r).1 h
op-InRange i n (unsubscribe_op id) r h =
    range_of i n r (close_locked id r) (closed-close_locked id r).1 h
op-InRange i n (close_op order) r h = range_of i n r (close order r) (next_id-close order r) h
op-InRange i n (receive_op id) r h = range_of i n r (take_one id r) (closed-take_one id r).1 h

-- A new subscription has another id.
pub subscribe-Same :
    (i : ℕ) (scope : String) (r : Registry) → i < r.next_id → Same i r (subscribe scope r).1
unfolding subscribe
subscribe-Same i scope r h = record {
  subs = ground arith;
  channels = ground arith;
  closed = ground arith;
}

-- What has gone stays gone.
offer-Gone :
    (ev : Event) (i id : ℕ) (log : List Event) (r : Registry) (drop : List ℕ)
    → Gone i log r
    → Gone i log (offer ev id r drop).0
offer-Gone ev i id log r drop h = elim (Bool-cases (id == i)) [
  | inl e ↦
      subst (λ j. Gone i log (offer ev j r drop).0) (sym ((number_eq.same_iff id i).0 e))
        (unfold offer in rw (h.unsubscribed, offer) h)
  | inr e ↦
      let (s, _) = offer-other ev i id r drop (λ w. cc (e, (number_eq.same_iff id i).1 w)) in
      Same-Gone i log r (offer ev id r drop).0 s.subs s.channels h
]

offers-Gone :
    (ev : Event) (i : ℕ) (ids : List ℕ) (log : List Event) (r : Registry) (drop : List ℕ)
    → Gone i log r
    → Gone i log (offers ev ids r drop).0
unfolding offers
offers-Gone ev i [] log r drop h = h
offers-Gone ev i (id ∷ ids) log r drop h =
    offers-Gone ev i ids log (offer ev id r drop).0 (offer ev id r drop).1
      (offer-Gone ev i id log r drop h)

pub publish-Gone :
    (ev : Event) (i : ℕ) (order : List ℕ) (log : List Event) (r : Registry)
    → Gone i log r
    → Gone i log (publish none ev order r).1
publish-Gone ev i order log r h = elim (Bool-cases r.closed) [
  | inl c ↦ unfold publish in simp c h
  | inr c ↦ subst (Gone i log) (sym (ap (λ p. p.1) (publish_open ev order r c))) (
      close_each-Gone i (offers ev order r []).1 log (offers ev order r []).0
        (offers-Gone ev i order log r [] h))
]

pub close-Gone :
    (i : ℕ) (order : List ℕ) (log : List Event) (r : Registry)
    → Gone i log r
    → Gone i log (close order r)
unfolding close
close-Gone i order log r h = elim (Bool-cases r.closed) [
  | inl c ↦ simp c h
  | inr c ↦ simp c (
      close_each-Gone i order log (record r { closed = true })
        (Same-Gone i log r (record r { closed = true }) refl refl h))
]
