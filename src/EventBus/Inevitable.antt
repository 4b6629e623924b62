-- ===== src/EventBus/Inevitable.antt =====
-- Close returns whatever the scheduler does: its return cannot be put off for ever.
use mathlib.Core.WellFounded.{Acc}
use watchkeepers.Prelude.{
  ◌≤◌, ◌≡◌, ◌≢◌, ◌⊎◌, refl, sym, ap, ◌∙◌, true, List, [], ◌∷◌, inl, inr, arith, ℤ,
}
use watchkeepers.EventBus.{
  Phase, opened, marked, signalled, closing, waiting, finished, Bus, new_bus, BusOp, bus_op,
  bus_ops,
}
use watchkeepers.EventBus.Orderly.{has_begun, IsOrderly}
use watchkeepers.EventBus.Closing.{bus-IsOrderly, op-IsOrderly}
use watchkeepers.EventBus.Progress.{is_own, Own}
use watchkeepers.EventBus.Returns.{from-phase}
use watchkeepers.EventBus.Moves.{Less, Less-Acc, Less-changes, own-Moves, rank}

-- Close has returned; or some goroutine that is there has a step that changes something, and after every
-- such step, whichever goroutine takes it, the return is inevitable.
pub data IsInevitable : Bus → Type 0 where
  returned : (b : Bus) → b.phase ≡ finished → IsInevitable b
  goes_on :
      (b : Bus) (o : BusOp)
      → is_own o ≡ true
      → bus_op o b ≢ b
      → ((o' : BusOp) → is_own o' ≡ true → bus_op o' b ≢ b → IsInevitable (bus_op o' b))
      → IsInevitable b

-- On the way to the return there is a first step that changes something.
changes :
    (os : List BusOp) (b : Bus)
    → Own os
    → IsOrderly b
    → has_begun b.phase ≡ true
    → (bus_ops os b).phase ≡ finished
    → (b.phase ≡ finished) ⊎ (o : BusOp) × (is_own o ≡ true) × (bus_op o b ≢ b)
unfolding bus_ops
changes [] b own h begun at = inl at
changes (o ∷ os) b (own, mine) h begun at = elim (own-Moves o b mine h begun) [
  | inl same ↦ changes os b own h begun (ap (λ z. (bus_ops os z).phase) (sym same) ∙ at)
  | inr less ↦ inr (o, mine, Less-changes (bus_op o b) b less)
]

begun-rank : (ph : Phase) → has_begun ph ≡ true → rank ph ≤ 4
begun-rank opened h = absurd cc
begun-rank marked h = omega arith
begun-rank signalled h = omega arith
begun-rank closing h = omega arith
begun-rank waiting h = omega arith
begun-rank finished h = omega arith

rank-begun : (ph : Phase) → rank ph ≤ 4 → has_begun ph ≡ true
rank-begun opened h = absurd (omega (arith, h))
rank-begun marked h = refl
rank-begun signalled h = refl
rank-begun closing h = refl
rank-begun waiting h = refl
rank-begun finished h = refl

Less-begun : (c b : Bus) → Less c b → has_begun b.phase ≡ true → has_begun c.phase ≡ true
Less-begun c b (inl l) h = rank-begun c.phase (omega (arith, l, begun-rank b.phase h))
Less-begun c b (inr (le, _)) h = rank-begun c.phase (omega (arith, le, begun-rank b.phase h))

inevitable_from : (b : Bus) → Acc Less b → IsOrderly b → has_begun b.phase ≡ true → IsInevitable b
inevitable_from b (Acc.intro _ smaller) h begun =
    let way = from-phase b.phase b h refl begun in
    elim (changes way.steps b way.own h begun way.reached) [
      | inl at ↦ returned b at
      | inr (o, mine, change) ↦ goes_on b o mine change λ o' mine' change'.
          elim (own-Moves o' b mine' h begun) [
            | inl same ↦ absurd (change' same)
            | inr less ↦
                inevitable_from (bus_op o' b) (smaller (bus_op o' b) less) (op-IsOrderly o' b h)
                  (Less-begun (bus_op o' b) b less begun)
          ]
    ]

-- In every state that any steps on a new bus lead to after Close has begun, its return is inevitable, as
-- long as nobody calls Publish, Subscribe or an unsubscribe anew: until it has returned, some goroutine that is
-- there has a step that changes something, and whichever of them take such steps, in whatever order, they
-- are finitely many and end in the return. A handler that is called returns in the model: its call is one
-- step.
pub close-IsInevitable :
    (n : ℤ) (os : List BusOp)
    → has_begun (bus_ops os (new_bus n)).phase ≡ true
    → IsInevitable (bus_ops os (new_bus n))
close-IsInevitable n os begun =
    inevitable_from (bus_ops os (new_bus n)) (Less-Acc (bus_ops os (new_bus n)))
      (bus-IsOrderly n os) begun
