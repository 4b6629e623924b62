-- ===== src/Publish/Sound.antt =====
-- No channel is closed twice or sent on once it is closed.
use watchkeepers.Prelude.{
  String, ℕ, ◌+◌, ◌≡◌, refl, ◌∙◌, true, false, Option, none, some, List, [], ◌∷◌, ◌++◌, put, delete,
  number_eq, string_eq, ◌==◌, ltb, length, Bool-cases, Option-cases, inl, inr,
}
use mathlib.Core.Path.{subst}
use watchkeepers.Go.Errors.{Error}
use watchkeepers.Publish.{
  Event, Channel, Subscription, Registry, Op, subscribe_op, publish_op, unsubscribe_op, close_op,
  receive_op, new_registry, subscribe, close_channel, close_locked, send, offer, offers, close_each,
  publish, close, take_one, op, ops,
}

-- What the registry holds of an id: a live subscription has an open channel.
abbrev pub Slot : Option Subscription → Option Channel → Type 0
Slot none none = Unit
Slot none (some ch) = ch.closed ≡ true
Slot (some sub) none = ⊥
Slot (some sub) (some ch) = (sub.done ≡ false) × (ch.closed ≡ false)

pub record IsSound (r : Registry) : Type 0 where
  pub slot : (i : ℕ) → Slot (r.subs i) (r.channels i)
  pub quiet : r.panicked ≡ false

-- One id's slot is replaced by a good one.
put_both :
    (id : ℕ) (sub : Subscription) (ch : Channel) (r : Registry)
    → sub.done ≡ false
    → ch.closed ≡ false
    → ((i : ℕ) → Slot (r.subs i) (r.channels i))
    → (i : ℕ) → Slot (put id sub r.subs i) (put id ch r.channels i)
put_both id sub ch r d c h i = elim (Bool-cases (id == i)) [
  | inl e ↦ rw e (d, c)
  | inr e ↦ rw e (h i)
]

put_channel :
    (id : ℕ) (sub : Subscription) (ch : Channel) (r : Registry)
    → r.subs id ≡ some sub
    → sub.done ≡ false
    → ch.closed ≡ false
    → ((i : ℕ) → Slot (r.subs i) (r.channels i))
    → (i : ℕ) → Slot (r.subs i) (put id ch r.channels i)
put_channel id sub ch r e d c h i = elim (Bool-cases (id == i)) [
  | inl q ↦ rw (q, subst (λ j. r.subs j ≡ some sub) ((number_eq.same_iff id i).0 q) e) (d, c)
  | inr q ↦ rw q (h i)
]

closed-Slot :
    (id : ℕ) (ch : Channel) (r : Registry)
    → ch.closed ≡ true
    → ((i : ℕ) → Slot (r.subs i) (r.channels i))
    → (i : ℕ) → Slot (delete id r.subs i) (put id ch r.channels i)
closed-Slot id ch r c h i = elim (Bool-cases (id == i)) [ inl q ↦ rw q c | inr q ↦ rw q (h i) ]

-- The channel of a live subscription.
pub channel_of :
    (id : ℕ) (sub : Subscription) (r : Registry)
    → IsSound r
    → r.subs id ≡ some sub
    → (ch : Channel) × (r.channels id ≡ some ch) × (sub.done ≡ false) × (ch.closed ≡ false)
channel_of id sub r h e = elim (Option-cases (r.channels id)) [
  | inl n ↦ absurd (rw (e, n) at (h.slot id))
  | inr (ch, c) ↦
      let good : (sub.done ≡ false) × (ch.closed ≡ false) = rw (e, c) at (h.slot id) in
      (ch, c, good.0, good.1)
]

close_locked-IsSound : (id : ℕ) (r : Registry) → IsSound r → IsSound (close_locked id r)
unfolding close_locked close_channel
close_locked-IsSound id r h = elim (Option-cases (r.subs id)) [
  | inl e ↦ rw (e, close_locked) h
  | inr (sub, e) ↦
      let (ch, c, d, o) = channel_of id sub r h e in
      rw (e, close_locked)
        (rw (d, close_locked)
          (rw (c, close_locked)
            (rw (o, close_locked)
              (record {
                slot = closed-Slot id (record ch { closed = true }) r refl h.slot;
                quiet = h.quiet;
              }))))
]

offer-IsSound :
    (ev : Event) (id : ℕ) (r : Registry) (drop : List ℕ)
    → IsSound r
    → IsSound (offer ev id r drop).0
unfolding offer send
offer-IsSound ev id r drop h = elim (Option-cases (r.subs id)) [
  | inl e ↦ rw (e, offer) h
  | inr (sub, e) ↦ elim (Bool-cases (sub.scope == ev.scope)) [
    | inr n ↦ rw (e, offer) (rw (n, offer) h)
    | inl y ↦
        let (ch, c, d, o) = channel_of id sub r h e in
        elim (Bool-cases (ltb (length ch.sent) (ch.received + r.buf_size))) [
          | inl room ↦
              rw (e, offer)
                (rw (y, offer)
                  (rw (c, offer)
                    (rw (o, offer)
                      (rw (room, offer)
                        (record {
                          slot =
                              put_channel id sub
                                (record ch { sent = ch.sent ++ ev ∷ []; closed = false }) r e d refl
                                h.slot;
                          quiet = h.quiet;
                        })))))
          | inr full ↦
              rw (e, offer) (rw (y, offer) (rw (c, offer) (rw (o, offer) (rw (full, offer) h))))
        ]
  ]
]

offers-IsSound :
    (ev : Event) (ids : List ℕ) (r : Registry) (drop : List ℕ)
    → IsSound r
    → IsSound (offers ev ids r drop).0
unfolding offers
offers-IsSound ev [] r drop h = h
offers-IsSound ev (id ∷ ids) r drop h =
    offers-IsSound ev ids (offer ev id r drop).0 (offer ev id r drop).1
      (offer-IsSound ev id r drop h)

close_each-IsSound : (ids : List ℕ) (r : Registry) → IsSound r → IsSound (close_each ids r)
unfolding close_each
close_each-IsSound [] r h = h
close_each-IsSound (id ∷ ids) r h =
    close_each-IsSound ids (close_locked id r) (close_locked-IsSound id r h)

publish-IsSound :
    (ctx_err : Option Error) (ev : Event) (order : List ℕ) (r : Registry)
    → IsSound r
    → IsSound (publish ctx_err ev order r).1
unfolding publish
publish-IsSound (some e) ev order r h = h
publish-IsSound none ev order r h = elim (Bool-cases r.closed) [
  | inl c ↦ simp c h
  | inr c ↦ simp c (
      close_each-IsSound (offers ev order r []).1 (offers ev order r []).0
        (offers-IsSound ev order r [] h))
]

close-IsSound : (order : List ℕ) (r : Registry) → IsSound r → IsSound (close order r)
unfolding close
close-IsSound order r h = elim (Bool-cases r.closed) [
  | inl c ↦ simp c h
  | inr c ↦ simp c (
      close_each-IsSound order (record r { closed = true })
        (record { slot = h.slot; quiet = h.quiet }))
]

subscribe-IsSound : (scope : String) (r : Registry) → IsSound r → IsSound (subscribe scope r).1
unfolding subscribe
subscribe-IsSound scope r h = elim (Bool-cases r.closed) [
  | inl c ↦ simp c h
  | inr c ↦ simp c (record {
    slot =
        put_both r.next_id (record { scope = scope; done = false })
          (record { sent = []; received = 0; closed = false }) r refl refl h.slot;
    quiet = h.quiet;
  })
]

same-Slot :
    (sub : Option Subscription) (ch ch' : Channel)
    → ch'.closed ≡ ch.closed
    → Slot sub (some ch)
    → Slot sub (some ch')
same-Slot none ch ch' c h = c ∙ h
same-Slot (some sub) ch ch' c h = (h.0, c ∙ h.1)

-- A change of what was received keeps the slot.
received-Slot :
    (id : ℕ) (ch ch' : Channel) (r : Registry)
    → r.channels id ≡ some ch
    → ch'.closed ≡ ch.closed
    → ((i : ℕ) → Slot (r.subs i) (r.channels i))
    → (i : ℕ) → Slot (r.subs i) (put id ch' r.channels i)
received-Slot id ch ch' r e c h i = elim (Bool-cases (id == i)) [
  | inl q ↦
      let here : r.channels i ≡ some ch =
        subst (λ j. r.channels j ≡ some ch) ((number_eq.same_iff id i).0 q) e in
      rw q (same-Slot (r.subs i) ch ch' c (rw here at (h i)))
  | inr q ↦ rw q (h i)
]

take_one-IsSound : (id : ℕ) (r : Registry) → IsSound r → IsSound (take_one id r)
unfolding take_one
take_one-IsSound id r h = elim (Option-cases (r.channels id)) [
  | inl e ↦ rw (e, take_one) h
  | inr (ch, e) ↦ elim (Bool-cases (ltb ch.received (length ch.sent))) [
    | inl y ↦
        rw (e, take_one)
          (rw (y, take_one)
            (record {
              slot = received-Slot id ch (record ch { received = ch.received + 1 }) r e refl h.slot;
              quiet = h.quiet;
            }))
    | inr n ↦ rw (e, take_one) (rw (n, take_one) h)
  ]
]

-- Every operation keeps the registry sound.
pub op-IsSound : (o : Op) (r : Registry) → IsSound r → IsSound (op o r)
unfolding op
op-IsSound (subscribe_op scope) r h = subscribe-IsSound scope r h
op-IsSound (publish_op ctx_err ev order) r h = publish-IsSound ctx_err ev order r h
op-IsSound (unsubscribe_op id) r h = close_locked-IsSound id r h
op-IsSound (close_op order) r h = close-IsSound order r h
op-IsSound (receive_op id) r h = take_one-IsSound id r h

ops-IsSound : (os : List Op) (r : Registry) → IsSound r → IsSound (ops os r)
unfolding ops
ops-IsSound [] r h = h
ops-IsSound (o ∷ os) r h = ops-IsSound os (op o r) (op-IsSound o r h)

-- After any operations on a new registry nothing has panicked, the channel of every subscription is
-- open, and every channel that has left the registry is closed.
pub registry-IsSound : (buf_size : ℕ) (os : List Op) → IsSound (ops os (new_registry buf_size))
registry-IsSound buf_size os =
    ops-IsSound os (new_registry buf_size)
      (unfold new_registry in (record { slot = λ i. tt; quiet = refl }))
