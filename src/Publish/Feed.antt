-- ===== src/Publish/Feed.antt =====
-- What one subscriber is sent.
use watchkeepers.Prelude.{
  ℕ, suc, ◌≡◌, ◌≢◌, refl, sym, ◌∙◌, Bool, true, false, ◌||◌, none, some, List, [], ◌∷◌, put_self,
  ==_refl, number_eq, string_eq, ◌==◌, if◌then◌else◌, Bool-cases, Option-cases, inl, inr, arith,
  String,
}
use mathlib.Core.Path.{subst}
use watchkeepers.Publish.{
  Event, Channel, Subscription, Registry, close_channel, close_locked, close_each,
}

-- How often an iteration meets an id; Go's meets every key of the map once.
abbrev pub count : ℕ → List ℕ → ℕ
count i [] = 0
count i (x ∷ xs) = if x == i then suc (count i xs) else count i xs

abbrev pub member : ℕ → List ℕ → Bool
member i [] = false
member i (x ∷ xs) = x == i || member i xs

-- The subscription is live and was sent exactly `log`, or it has gone and was sent exactly `log`.
pub record Live (i : ℕ) (scope : String) (log : List Event) (r : Registry) : Type 0 where
  pub sub : Subscription
  pub ch : Channel
  pub subscribed : r.subs i ≡ some sub
  pub has_scope : sub.scope ≡ scope
  pub not_done : sub.done ≡ false
  pub has_channel : r.channels i ≡ some ch
  pub is_open : ch.closed ≡ false
  pub was_sent : ch.sent ≡ log

pub record Gone (i : ℕ) (log : List Event) (r : Registry) : Type 0 where
  pub ch : Channel
  pub unsubscribed : r.subs i ≡ none
  pub has_channel : r.channels i ≡ some ch
  pub is_closed : ch.closed ≡ true
  pub was_sent : ch.sent ≡ log

-- What an operation on other ids leaves alone.
pub record Same (i : ℕ) (r s : Registry) : Type 0 where
  pub subs : s.subs i ≡ r.subs i
  pub channels : s.channels i ≡ r.channels i
  pub closed : s.closed ≡ r.closed

pub Same-Live :
    (i : ℕ) (scope : String) (log : List Event) (r s : Registry)
    → Same i r s
    → Live i scope log r
    → Live i scope log s
Same-Live i scope log r s e h = record {
  sub = h.sub;
  ch = h.ch;
  subscribed = e.subs ∙ h.subscribed;
  has_scope = h.has_scope;
  not_done = h.not_done;
  has_channel = e.channels ∙ h.has_channel;
  is_open = h.is_open;
  was_sent = h.was_sent;
}

pub Same-Gone :
    (i : ℕ) (log : List Event) (r s : Registry)
    → s.subs i ≡ r.subs i
    → s.channels i ≡ r.channels i
    → Gone i log r
    → Gone i log s
Same-Gone i log r s e c h = record {
  ch = h.ch;
  unsubscribed = e ∙ h.unsubscribed;
  has_channel = c ∙ h.has_channel;
  is_closed = h.is_closed;
  was_sent = h.was_sent;
}

-- Closing.
pub close_locked-other : (i id : ℕ) (r : Registry) → id ≢ i → Same i r (close_locked id r)
unfolding close_locked close_channel
close_locked-other i id r ne = elim (Option-cases (r.subs id)) [
  | inl e ↦ rw (e, close_locked) (record { subs = refl; channels = refl; closed = refl })
  | inr (sub, e) ↦ record {
    subs = ground (arith, e);
    channels = ground (arith, e);
    closed = ground (arith, e);
  }
]

pub close_locked_self :
    (i : ℕ) (scope : String) (log : List Event) (r : Registry)
    → Live i scope log r
    → Gone i log (close_locked i r)
unfolding close_locked close_channel
close_locked_self i scope log r h =
    rw (h.subscribed, close_locked)
      (rw (h.not_done, close_locked)
        (rw (h.has_channel, close_locked)
          (rw (h.is_open, close_locked)
            (record {
              ch = record h.ch { closed = true };
              unsubscribed = rw (==_refl i) refl;
              has_channel = put_self i (record h.ch { closed = true }) r.channels;
              is_closed = refl;
              was_sent = h.was_sent;
            }))))

close_locked_left : (i : ℕ) (log : List Event) (r : Registry) → Gone i log r → close_locked i r ≡ r
unfolding close_locked
close_locked_left i log r h = rw (h.unsubscribed, close_locked) refl

pub close_locked-Gone :
    (i id : ℕ) (log : List Event) (r : Registry) → Gone i log r → Gone i log (close_locked id r)
close_locked-Gone i id log r h = elim (Bool-cases (id == i)) [
  | inl e ↦
      subst (λ j. Gone i log (close_locked j r)) (sym ((number_eq.same_iff id i).0 e))
        (subst (Gone i log) (sym (close_locked_left i log r h)) h)
  | inr e ↦
      let s = close_locked-other i id r (λ w. cc (e, (number_eq.same_iff id i).1 w)) in
      Same-Gone i log r (close_locked id r) s.subs s.channels h
]

pub close_each-Gone :
    (i : ℕ) (ids : List ℕ) (log : List Event) (r : Registry)
    → Gone i log r
    → Gone i log (close_each ids r)
unfolding close_each
close_each-Gone i [] log r h = h
close_each-Gone i (id ∷ ids) log r h =
    close_each-Gone i ids log (close_locked id r) (close_locked-Gone i id log r h)

pub close_each-member :
    (i : ℕ) (ids : List ℕ) (scope : String) (log : List Event) (r : Registry)
    → member i ids ≡ true
    → Live i scope log r
    → Gone i log (close_each ids r)
unfolding close_each
close_each-member i [] scope log r m h = cc
close_each-member i (id ∷ ids) scope log r m h = elim (Bool-cases (id == i)) [
  | inl e ↦ close_each-Gone i ids log (close_locked id r) (
      subst (λ j. Gone i log (close_locked j r)) (sym ((number_eq.same_iff id i).0 e))
        (close_locked_self i scope log r h))
  | inr e ↦ close_each-member i ids scope log (close_locked id r) (rw e at m) (
      Same-Live i scope log r (close_locked id r)
        (close_locked-other i id r (λ w. cc (e, (number_eq.same_iff id i).1 w))) h)
]

pub close_each-other :
    (i : ℕ) (ids : List ℕ) (scope : String) (log : List Event) (r : Registry)
    → member i ids ≡ false
    → Live i scope log r
    → Live i scope log (close_each ids r)
unfolding close_each
close_each-other i [] scope log r m h = h
close_each-other i (id ∷ ids) scope log r m h = elim (Bool-cases (id == i)) [
  | inl e ↦ let bad : true ≡ false = rw e at m in cc
  | inr e ↦ close_each-other i ids scope log (close_locked id r) (rw e at m) (
      Same-Live i scope log r (close_locked id r)
        (close_locked-other i id r (λ w. cc (e, (number_eq.same_iff id i).1 w))) h)
]
