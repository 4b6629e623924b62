-- ===== src/Outbox/Consumer/Once.antt =====
-- An event that was published is not published again while its id is in the cache's window.
use watchkeepers.Prelude.{
  ℕ, suc, ◌+◌, ◌<◌, String, ◌≡◌, ◌≢◌, refl, ◌∙◌, true, false, Option, none, some, List, [], ◌∷◌,
  Bool-cases, inl, inr, arith, length, if◌then◌else◌, ==_ne, string_eq, ap,
}
use native.Mathlib.Nat.{add-zero, add-suc, suc-add}
use watchkeepers.Go.Errors.{Error}
use watchkeepers.Outbox.Dedup.{LruDedup, seen, remember}
use watchkeepers.Outbox.Dedup.Cache.{IsCache, remember-IsCache}
use watchkeepers.Outbox.Dedup.Window.{
  IsRecent, remember-IsRecent, remember-IsRecent_self, size-remember, seen_of_recent,
}
use watchkeepers.Outbox.Consumer.{
  Event, Config, Surroundings, State, publish_with_retry, deliver, settle, handle_event,
  handle_events, seen_in, remember_in,
}
use watchkeepers.Outbox.Consumer.Rounds.{handle_event_lem, publish_round}

-- The cache is sound, has the capacity `size`, and `id` came in with at most `n` ids after it.
record Holds (id : String) (n size : ℕ) (cache : Option LruDedup) : Type 0 where
  lru : LruDedup
  there : cache ≡ some lru
  sound : IsCache lru
  capacity : lru.size ≡ size
  recent : IsRecent id n lru

weaken :
    (id : String) (n size : ℕ) (c : Option LruDedup) → Holds id n size c → Holds id (suc n) size c
weaken id n size c h = record {
  lru = h.lru;
  there = h.there;
  sound = h.sound;
  capacity = h.capacity;
  recent = record {
    before = h.recent.before;
    after = h.recent.after;
    split = h.recent.split;
    few = omega (arith, h.recent.few);
  };
}

remember_in-Holds :
    (id j : String) (n size : ℕ) (c : Option LruDedup)
    → suc n < size
    → Holds id n size c
    → Holds id (suc n) size (remember_in c j)
remember_in-Holds id j n size c room h = record {
  lru = remember j h.lru;
  there = ap (λ c'. remember_in c' j) h.there;
  sound = remember-IsCache j h.lru h.sound;
  capacity = size-remember j h.lru ∙ h.capacity;
  recent = remember-IsRecent id j n h.lru (rw h.capacity room) h.recent;
}

module _ {W : Type 0} (cfg : Config) (around : Surroundings W) where
  handle_event-Holds :
      (id : String) (n size : ℕ) (ev : Event) (s : State W)
      → suc n < size
      → Holds id n size s.dedup
      → Holds id (suc n) size (handle_event cfg around ev s).dedup
  handle_event-Holds id n size ev s room h =
      let r = handle_event_lem cfg around ev s in
      elim (Bool-cases r.done) [
        | inl e ↦
            rw (r.cache ∙ ap (λ b. if b then remember_in s.dedup ev.id else s.dedup) e)
              (remember_in-Holds id ev.id n size s.dedup room h)
        | inr e ↦
            rw (r.cache ∙ ap (λ b. if b then remember_in s.dedup ev.id else s.dedup) e)
              (weaken id n size s.dedup h)
      ]

  handle_events-Holds :
      (id : String) (n size : ℕ) (evs : List Event) (s : State W)
      → n + length evs < size
      → Holds id n size s.dedup
      → Holds id (n + length evs) size (handle_events cfg around evs s).dedup
  unfolding handle_events
  handle_events-Holds id n size [] s room h = rw add-zero h
  handle_events-Holds id n size (ev ∷ evs) s room h =
      let step = handle_event-Holds id n size ev s (omega arith) h in
      rw (add-suc, ← suc-add)
        (handle_events-Holds id (suc n) size evs (handle_event cfg around ev s) (omega arith) step)

  settle_success :
      (ev : Event) (r : Option Error × State W)
      → r.0 ≡ none
      → (settle cfg around ev r).dedup ≡ remember_in r.1.dedup ev.id
  unfolding settle
  settle_success ev (none, t) h = refl
  settle_success ev (some e, t) h = cc

  handle_fresh :
      (ev : Event) (s : State W)
      → ev.event_type ≢ ""
      → seen_in s.dedup ev.id ≡ false
      → handle_event cfg around ev s
        ≡ settle cfg around ev (publish_with_retry cfg around (deliver ev) s)
  unfolding handle_event
  handle_fresh ev s typed new = rw (==_ne ev.event_type "" typed, new)

  -- The event's publish succeeded, so its id is the latest in the cache.
  first-Holds :
      (ev : Event) (s : State W) (l : LruDedup)
      → s.dedup ≡ some l
      → IsCache l
      → ev.id ≢ ""
      → ev.event_type ≢ ""
      → seen ev.id l ≡ false
      → (publish_with_retry cfg around (deliver ev) s).0 ≡ none
      → Holds ev.id 0 l.size (handle_event cfg around ev s).dedup
  first-Holds ev s l there sound named typed new published =
      let r = publish_with_retry cfg around (deliver ev) s in
      let round = publish_round cfg around (deliver ev) s in
      let kept : r.1.dedup ≡ some l = round.same_cache ∙ there in
      record {
        lru = remember ev.id l;
        there =
            ap (λ t. t.dedup) (handle_fresh ev s typed (ap (λ c. seen_in c ev.id) there ∙ new))
            ∙ settle_success ev r published
            ∙ ap (λ c. remember_in c ev.id) kept;
        sound = remember-IsCache ev.id l sound;
        capacity = size-remember ev.id l;
        recent = remember-IsRecent_self ev.id l named sound new;
      }

  skip_seen :
      (again : Event) (t : State W)
      → seen_in t.dedup again.id ≡ true
      → (handle_event cfg around again t).calls ≡ t.calls
  unfolding handle_event
  skip_seen again t h = ground arith

  -- Once an event with a non-empty id, new to the cache, has been published, a later event with the
  -- same id makes no call of the bus, if fewer events than the cache's capacity were handled in
  -- between, whatever became of them.
  pub published_once :
      (ev : Event) (s : State W) (l : LruDedup) (evs : List Event) (again : Event)
      → s.dedup ≡ some l
      → IsCache l
      → ev.id ≢ ""
      → ev.event_type ≢ ""
      → seen ev.id l ≡ false
      → (publish_with_retry cfg around (deliver ev) s).0 ≡ none
      → length evs < l.size
      → again.id ≡ ev.id
      → let t = handle_events cfg around evs (handle_event cfg around ev s) in
        (handle_event cfg around again t).calls ≡ t.calls
  published_once ev s l evs again there sound named typed new published room same =
      let t = handle_events cfg around evs (handle_event cfg around ev s) in
      let first = first-Holds ev s l there sound named typed new published in
      let h =
        handle_events-Holds ev.id 0 l.size evs (handle_event cfg around ev s) (omega arith) first in
      skip_seen again t (
        ap (λ i. seen_in t.dedup i) same
        ∙ ap (λ c. seen_in c ev.id) h.there
        ∙ seen_of_recent ev.id _ h.lru named h.sound h.recent)
