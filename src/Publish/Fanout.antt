-- ===== src/Publish/Fanout.antt =====
-- What a publish does to one subscription.
use watchkeepers.Prelude.{
  ℕ, suc, ◌+◌, ◌≡◌, ◌≢◌, refl, sym, ap, ◌∙◌, true, false, ◌||◌, none, List, [], ◌∷◌, ◌++◌, put_self,
  ==_refl, number_eq, string_eq, ◌==◌, ltb, length, Bool-cases, inl, inr, arith, String,
}
use mathlib.Core.Path.{subst}
use watchkeepers.Publish.{Event, Registry, send, offer, offers, close_each, publish}
use watchkeepers.Publish.Feed.{
  count, member, Live, Gone, Same, Same-Live, close_each-member, close_each-other,
}

-- The subscription after an offer, with whether its id is to be dropped.
pub data Offered (i : ℕ) (scope : String) (log : List Event) (ev : Event) (r : Registry)
    (drop : List ℕ) : Type 0 where
  passed_by :
      (scope == ev.scope) ≡ false
      → Live i scope log r
      → member i drop ≡ false
      → Offered i scope log ev r drop
  sent_on :
      (scope == ev.scope) ≡ true
      → Live i scope (log ++ ev ∷ []) r
      → member i drop ≡ false
      → Offered i scope log ev r drop
  was_full :
      (scope == ev.scope) ≡ true
      → Live i scope log r
      → member i drop ≡ true
      → Offered i scope log ev r drop

member-append : (i id : ℕ) (drop : List ℕ) → member i (drop ++ id ∷ []) ≡ (member i drop || id == i)
member-append i id [] = ground arith
member-append i id (x ∷ xs) = ground (arith, member-append i id xs)

pub offer-other :
    (ev : Event) (i id : ℕ) (r : Registry) (drop : List ℕ)
    → id ≢ i
    → Same i r (offer ev id r drop).0 × (member i (offer ev id r drop).1 ≡ member i drop)
unfolding offer send
offer-other ev i id r drop ne = (
  record { subs = ground (arith); channels = ground (arith); closed = ground (arith) },
  ground (arith, member-append i id drop),
)

offer_self :
    (ev : Event) (i : ℕ) (scope : String) (log : List Event) (r : Registry) (drop : List ℕ)
    → Live i scope log r
    → member i drop ≡ false
    → Offered i scope log ev (offer ev i r drop).0 (offer ev i r drop).1
unfolding offer send
offer_self ev i scope log r drop h m = elim (Bool-cases (scope == ev.scope)) [
  | inr n ↦
      let n' : (h.sub.scope == ev.scope) ≡ false = ap (λ x. x == ev.scope) h.has_scope ∙ n in
      rw (h.subscribed, offer) (rw (n', offer) (passed_by n h m))
  | inl y ↦
      let y' : (h.sub.scope == ev.scope) ≡ true = ap (λ x. x == ev.scope) h.has_scope ∙ y in
      elim (Bool-cases (ltb (length h.ch.sent) (h.ch.received + r.buf_size))) [
        | inl room ↦
            rw (h.subscribed, offer)
              (rw (y', offer)
                (rw (h.has_channel, offer)
                  (rw (h.is_open, offer)
                    (rw (room, offer)
                      (sent_on y
                        (record {
                          sub = h.sub;
                          ch = record h.ch { sent = h.ch.sent ++ ev ∷ []; closed = false };
                          subscribed = h.subscribed;
                          has_scope = h.has_scope;
                          not_done = h.not_done;
                          has_channel = put_self i _ r.channels;
                          is_open = refl;
                          was_sent = ap (λ l. l ++ ev ∷ []) h.was_sent;
                        })
                        m)))))
        | inr full ↦
            rw (h.subscribed, offer)
              (rw (y', offer)
                (rw (h.has_channel, offer)
                  (rw (h.is_open, offer)
                    (rw (full, offer)
                      (was_full y h (member-append i i drop ∙ rw (m, ==_refl i) refl))))))
      ]
]

offers-other :
    (ev : Event) (i : ℕ) (ids : List ℕ) (r : Registry) (drop : List ℕ)
    → count i ids ≡ 0
    → Same i r (offers ev ids r drop).0 × (member i (offers ev ids r drop).1 ≡ member i drop)
unfolding offers
offers-other ev i [] r drop c = (record { subs = refl; channels = refl; closed = refl }, refl)
offers-other ev i (id ∷ ids) r drop c = elim (Bool-cases (id == i)) [
  | inl e ↦ let bad : suc (count i ids) ≡ 0 = rw e at c in absurd (omega arith)
  | inr e ↦
      let (s, m) = offer-other ev i id r drop (λ w. cc (e, (number_eq.same_iff id i).1 w)) in
      let (t, n) =
        offers-other ev i ids (offer ev id r drop).0 (offer ev id r drop).1 (rw e at c) in
      (
        record {
          subs = t.subs ∙ s.subs;
          channels = t.channels ∙ s.channels;
          closed = t.closed ∙ s.closed;
        },
        n ∙ m,
      )
]

Same-Offered :
    (i : ℕ) (scope : String) (log : List Event) (ev : Event) (r s : Registry) (drop drop' : List ℕ)
    → Same i r s
    → member i drop' ≡ member i drop
    → Offered i scope log ev r drop
    → Offered i scope log ev s drop'
Same-Offered i scope log ev r s drop drop' e m (passed_by n h d) =
    passed_by n (Same-Live i scope log r s e h) (m ∙ d)
Same-Offered i scope log ev r s drop drop' e m (sent_on y h d) =
    sent_on y (Same-Live i scope (log ++ ev ∷ []) r s e h) (m ∙ d)
Same-Offered i scope log ev r s drop drop' e m (was_full y h d) =
    was_full y (Same-Live i scope log r s e h) (m ∙ d)

offers-once :
    (ev : Event) (i : ℕ) (ids : List ℕ) (scope : String) (log : List Event) (r : Registry)
    (drop : List ℕ)
    → count i ids ≡ 1
    → Live i scope log r
    → member i drop ≡ false
    → Offered i scope log ev (offers ev ids r drop).0 (offers ev ids r drop).1
unfolding offers
offers-once ev i [] scope log r drop c h m = absurd (omega arith)
offers-once ev i (id ∷ ids) scope log r drop c h m = elim (Bool-cases (id == i)) [
  | inl e ↦
      let more : suc (count i ids) ≡ 1 = rw e at c in
      let same = (number_eq.same_iff id i).0 e in
      let first : Offered i scope log ev (offer ev id r drop).0 (offer ev id r drop).1 =
        subst (λ j. Offered i scope log ev (offer ev j r drop).0 (offer ev j r drop).1) (sym same)
          (offer_self ev i scope log r drop h m) in
      let (t, n) =
        offers-other ev i ids (offer ev id r drop).0 (offer ev id r drop).1 (omega arith) in
      Same-Offered i scope log ev _ _ _ _ t n first
  | inr e ↦
      let (s, n) = offer-other ev i id r drop (λ w. cc (e, (number_eq.same_iff id i).1 w)) in
      offers-once ev i ids scope log (offer ev id r drop).0 (offer ev id r drop).1 (rw e at c)
        (Same-Live i scope log r (offer ev id r drop).0 s h) (n ∙ m)
]

-- The subscription after a publish.
pub data After (i : ℕ) (scope : String) (log : List Event) (ev : Event) (r : Registry)
    : Type 0 where
  untouched : (scope == ev.scope) ≡ false → Live i scope log r → After i scope log ev r
  delivered : (scope == ev.scope) ≡ true → Live i scope (log ++ ev ∷ []) r → After i scope log ev r
  dropped : (scope == ev.scope) ≡ true → Gone i log r → After i scope log ev r

settle_drops :
    (i : ℕ) (scope : String) (log : List Event) (ev : Event) (r : Registry) (drop : List ℕ)
    → Offered i scope log ev r drop
    → After i scope log ev (close_each drop r)
settle_drops i scope log ev r drop (passed_by n h d) =
    untouched n (close_each-other i drop scope log r d h)
settle_drops i scope log ev r drop (sent_on y h d) =
    delivered y (close_each-other i drop scope (log ++ ev ∷ []) r d h)
settle_drops i scope log ev r drop (was_full y h d) =
    dropped y (close_each-member i drop scope log r d h)

pub publish_open :
    (ev : Event) (order : List ℕ) (r : Registry)
    → r.closed ≡ false
    → publish none ev order r ≡ (none, close_each (offers ev order r []).1 (offers ev order r []).0)
unfolding publish
publish_open ev order r e = simp e

-- A publish on an open registry whose iteration meets the subscription's id once sends it the event if the scope is
-- equal and the buffer has room, and drops it, the channel closed, if the buffer is full; a
-- subscription of another scope is left as it was.
pub publish-After :
    (ev : Event) (i : ℕ) (order : List ℕ) (scope : String) (log : List Event) (r : Registry)
    → r.closed ≡ false
    → count i order ≡ 1
    → Live i scope log r
    → After i scope log ev (publish none ev order r).1
publish-After ev i order scope log r running c h =
    subst (After i scope log ev) (sym (ap (λ p. p.1) (publish_open ev order r running)))
      (settle_drops i scope log ev _ _ (offers-once ev i order scope log r [] c h refl))
