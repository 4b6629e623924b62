-- ===== src/EventBus/Drained.antt =====
-- What has happened when Close has returned.
use watchkeepers.Prelude.{
  ℕ, ◌≡◌, refl, sym, ◌∙◌, ap, true, some, List, [], ◌∷◌, ◌++◌, length, take, get_elem?, Every-get,
  total, append-nil, ℤ,
}
use watchkeepers.EventBus.{
  Worker, idle, in_round, ended, TopicState, worker_ended, finished, Bus, new_bus, BusOp, bus_ops,
}
use watchkeepers.EventBus.Topics.{IsQueue, pending, all_calls, taken_out}
use watchkeepers.EventBus.Orderly.{Fits, is_past_wait, busy_of, taken_from}
use watchkeepers.EventBus.Closing.{bus-IsOrderly}

-- Every envelope of the topic was taken out, in its order, and every handler called that was found then.
pub record IsDrained (b : Bus) (i : ℕ) (t : TopicState) : Type 0 where
  pub all_taken : taken_out t.rounds ≡ t.sent
  pub all_called : t.calls ≡ all_calls t.rounds
  pub all_accepted : length t.sent ≡ total (taken_from i) b.publishes
  pub shut : t.ch_closed ≡ true

take-length : {A : Type 0} (xs : List A) → take (length xs) xs ≡ xs
take-length [] = refl
take-length (x ∷ xs) = ap (λ l. x ∷ l) (take-length xs)

ended-pending : (w : Worker) → worker_ended w ≡ true → pending w ≡ []
unfolding worker_ended
ended-pending idle h = absurd (cc h)
ended-pending (in_round env hs) h = absurd (cc h)
ended-pending ended h = refl

-- When Close has returned, on a new bus and after any steps, no call of Publish is in the wait group, and
-- every topic's channel is closed and all its envelopes, one for each call of Publish that returned nil
-- with it, were taken out in their order, and for each of them all the handlers were called that were
-- found then.
pub finished-IsDrained :
    (n : ℤ) (os : List BusOp) (i : ℕ) (t : TopicState)
    → (bus_ops os (new_bus n)).phase ≡ finished
    → get_elem? (bus_ops os (new_bus n)).topics i ≡ some t
    → (total busy_of (bus_ops os (new_bus n)).publishes ≡ 0)
      × IsDrained (bus_ops os (new_bus n)) i t
finished-IsDrained n os i t at there =
    let b = bus_ops os (new_bus n) in
    let h = bus-IsOrderly n os in
    let fit : Fits b.phase t = Every-get (Fits b.phase) b.topics i t h.fits there in
    let here : Fits finished t = rw at at fit in
    let q : IsQueue t = Every-get IsQueue b.topics i t h.queues there in
    let (c, all) = q.emptied here.2 in
    (
      sym h.counted ∙ h.gone (ap is_past_wait at),
      record {
        all_taken = q.fifo ∙ (ap (λ k. take k t.sent) all ∙ take-length t.sent);
        all_called =
            sym (append-nil t.calls)
            ∙ (ap (λ l. t.calls ++ l) (sym (ended-pending t.worker here.2)) ∙ q.called);
        all_accepted = h.accounted i t there;
        shut = c;
      },
    )
