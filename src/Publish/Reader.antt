-- ===== src/Publish/Reader.antt =====
-- What a reader takes, and what has gone, through any operations.
use watchkeepers.Prelude.{
  ℕ, suc, ◌+◌, ◌≡◌, refl, sym, ap, ◌∙◌, none, some, List, [], ◌∷◌, number_eq, string_eq, ◌==◌, ltb,
  length, Bool-cases, Option-cases, inl, inr, arith, String,
}
use watchkeepers.Publish.{
  Event, Registry, Op, subscribe_op, publish_op, unsubscribe_op, close_op, receive_op, subscribe,
  publish, take_one, op, ops,
}
use watchkeepers.Publish.Feed.{Live, Gone, Same-Gone, close_locked-Gone}
use watchkeepers.Publish.Kept.{InRange, op-InRange, subscribe-Same, publish-Gone, close-Gone}

pub take_one-Live :
    (i id : ℕ) (scope : String) (log : List Event) (r : Registry)
    → Live i scope log r
    → Live i scope log (take_one id r)
unfolding take_one
take_one-Live i id scope log r h = elim (Option-cases (r.channels id)) [
  | inl e ↦ rw (e, take_one) h
  | inr (ch, e) ↦ elim (Bool-cases (ltb ch.received (length ch.sent))) [
    | inr n ↦ rw (e, take_one) (rw (n, take_one) h)
    | inl y ↦
        rw (e, take_one)
          (rw (y, take_one)
            (elim (Bool-cases (id == i)) [
              | inl q ↦
                  let same : ch ≡ h.ch = ground (
                    arith,
                    sym e ∙ ap r.channels ((number_eq.same_iff id i).0 q) ∙ h.has_channel,
                  ) in
                  record {
                    sub = h.sub;
                    ch = record ch { received = ch.received + 1 };
                    subscribed = h.subscribed;
                    has_scope = h.has_scope;
                    not_done = h.not_done;
                    has_channel = rw q refl;
                    is_open = ap (λ c. c.closed) same ∙ h.is_open;
                    was_sent = ap (λ c. c.sent) same ∙ h.was_sent;
                  }
              | inr q ↦ record {
                sub = h.sub;
                ch = h.ch;
                subscribed = h.subscribed;
                has_scope = h.has_scope;
                not_done = h.not_done;
                has_channel = rw q h.has_channel;
                is_open = h.is_open;
                was_sent = h.was_sent;
              }
            ]))
  ]
]

take_one-Gone :
    (i id : ℕ) (log : List Event) (r : Registry) → Gone i log r → Gone i log (take_one id r)
unfolding take_one
take_one-Gone i id log r h = elim (Option-cases (r.channels id)) [
  | inl e ↦ rw (e, take_one) h
  | inr (ch, e) ↦ elim (Bool-cases (ltb ch.received (length ch.sent))) [
    | inr n ↦ rw (e, take_one) (rw (n, take_one) h)
    | inl y ↦
        rw (e, take_one)
          (rw (y, take_one)
            (elim (Bool-cases (id == i)) [
              | inl q ↦
                  let same : ch ≡ h.ch = ground (
                    arith,
                    sym e ∙ ap r.channels ((number_eq.same_iff id i).0 q) ∙ h.has_channel,
                  ) in
                  record {
                    ch = record ch { received = ch.received + 1 };
                    unsubscribed = h.unsubscribed;
                    has_channel = rw q refl;
                    is_closed = ap (λ c. c.closed) same ∙ h.is_closed;
                    was_sent = ap (λ c. c.sent) same ∙ h.was_sent;
                  }
              | inr q ↦ record {
                ch = h.ch;
                unsubscribed = h.unsubscribed;
                has_channel = rw q h.has_channel;
                is_closed = h.is_closed;
                was_sent = h.was_sent;
              }
            ]))
  ]
]

op-Gone :
    (i n : ℕ) (o : Op) (log : List Event) (r : Registry)
    → InRange i n r
    → Gone i log r
    → Gone i log (op o r)
unfolding op
op-Gone i n (subscribe_op scope) log r b h =
    let s = subscribe-Same i scope r b.0 in
    Same-Gone i log r (subscribe scope r).1 s.subs s.channels h
op-Gone i n (publish_op (some e) ev order) log r b h = unfold publish in h
op-Gone i n (publish_op none ev order) log r b h = publish-Gone ev i order log r h
op-Gone i n (unsubscribe_op id) log r b h = close_locked-Gone i id log r h
op-Gone i n (close_op order) log r b h = close-Gone i order log r h
op-Gone i n (receive_op id) log r b h = take_one-Gone i id log r h

pub ops-Gone :
    (i : ℕ) (os : List Op) (log : List Event) (r : Registry)
    → InRange i (length os) r
    → Gone i log r
    → Gone i log (ops os r)
unfolding ops
ops-Gone i [] log r b h = h
ops-Gone i (o ∷ os) log r b h =
    ops-Gone i os log (op o r) (op-InRange i (length os) o r b)
      (op-Gone i (suc (length os)) o log r b h)
