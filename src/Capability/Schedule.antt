-- ===== src/Capability/Schedule.antt =====
-- What goroutines do to a broker, as the critical sections of its methods in some order.
use watchkeepers.Prelude.{
  ℕ, ◌<◌, ◌≡◌, ◌≢◌, Bytes, false, none, some, List, [], ◌∷◌, Every, if◌then◌else◌, arith,
  same_bytes_iff, bytes_eq, ◌⊎◌,
}
use watchkeepers.Capability.{
  Entry, Broker, store_token, drop_expired, prune_one, prune_expired, remove_token, set_closed,
  wipe,
}

-- `Issue` stores only if the broker is still open under the lock, and `Close` wipes the map only
-- after it has set the flag.
pub data Action : Type 0 where
  store_action : Bytes → Entry → Action
  drop_action : Bytes → ℕ → Action
  prune_action : List Bytes → ℕ → Action
  remove_action : Bytes → Action
  closed_action wipe_action : Action

unfoldable pub act : Action → Broker → Broker
unfolding store_token drop_expired remove_token set_closed wipe
act (store_action token e) b = if b.closed then b else store_token token e b
act (drop_action token now) b = drop_expired token now b
act (prune_action order now) b = prune_expired order now b
act (remove_action token) b = remove_token token b
act closed_action b = set_closed b
act wipe_action b = if b.closed then wipe b else b

unfoldable pub interleave : List Action → Broker → Broker
interleave [] b = b
interleave (a ∷ as') b = interleave as' (act a b)

-- The action does not store the token anew.
abbrev pub IsForeign : Bytes → Action → Type 0
IsForeign token (store_action t e) = t ≢ token
IsForeign token _ = Unit

-- The action leaves the token's entry in place while its clock is before the expiry.
abbrev pub Spares : Bytes → Entry → Action → Type 0
Spares token e (store_action t f) = t ≢ token
Spares token e (drop_action t now) = now < e.expiry
Spares token e (prune_action order now) = now < e.expiry
Spares token e (remove_action t) = t ≢ token
Spares token e closed_action = ⊥
Spares token e wipe_action = ⊥

module _ (token : Bytes) (e : Entry) where
  -- A token's entry is gone or as it was.
  abbrev pub Fades : Broker → Type 0
  Fades b = (b.tokens token ≡ none) ⊎ (b.tokens token ≡ some e)

  prune_one-Fades : (t : Bytes) (now : ℕ) (b : Broker) → Fades b → Fades (prune_one t now b)
  unfolding prune_one
  prune_one-Fades t now b h = ground (arith, same_bytes_iff t token)

  prune-Fades :
      (order : List Bytes) (now : ℕ) (b : Broker) → Fades b → Fades (prune_expired order now b)
  unfolding prune_expired
  prune-Fades [] now b h = h
  prune-Fades (t ∷ order) now b h = prune-Fades order now _ (prune_one-Fades t now b h)

  act-Fades : (a : Action) (b : Broker) → IsForeign token a → Fades b → Fades (act a b)
  unfolding act
  act-Fades (store_action t f) b d h = ground (arith, same_bytes_iff t token)
  act-Fades (drop_action t now) b d h = ground (arith, same_bytes_iff t token)
  act-Fades (prune_action order now) b d h = prune-Fades order now b h
  act-Fades (remove_action t) b d h = ground (arith, same_bytes_iff t token)
  act-Fades closed_action b d h = h
  act-Fades wipe_action b d h = ground arith

  pub interleave-Fades :
      (as' : List Action) (b : Broker)
      → Every (IsForeign token) as'
      → Fades b
      → Fades (interleave as' b)
  unfolding interleave
  interleave-Fades [] b d h = h
  interleave-Fades (a ∷ as') b d h = interleave-Fades as' (act a b) d.0 (act-Fades a b d.1 h)

  -- The token's entry is there and the broker is open.
  pub record IsLive (b : Broker) : Type 0 where
    pub open_still : b.closed ≡ false
    pub entry_there : b.tokens token ≡ some e

  prune_one-IsLive :
      (t : Bytes) (now : ℕ) (b : Broker) → now < e.expiry → IsLive b → IsLive (prune_one t now b)
  unfolding prune_one
  prune_one-IsLive t now b early h = ground (arith, same_bytes_iff t token)

  prune-IsLive :
      (order : List Bytes) (now : ℕ) (b : Broker)
      → now < e.expiry
      → IsLive b
      → IsLive (prune_expired order now b)
  unfolding prune_expired
  prune-IsLive [] now b early h = h
  prune-IsLive (t ∷ order) now b early h =
      prune-IsLive order now _ early (prune_one-IsLive t now b early h)

  act-IsLive : (a : Action) (b : Broker) → Spares token e a → IsLive b → IsLive (act a b)
  unfolding act
  act-IsLive (store_action t f) b d h = ground (arith, same_bytes_iff t token)
  act-IsLive (drop_action t now) b d h = ground (arith, same_bytes_iff t token)
  act-IsLive (prune_action order now) b d h = prune-IsLive order now b d h
  act-IsLive (remove_action t) b d h = ground (arith, same_bytes_iff t token)
  act-IsLive closed_action b d h = absurd d
  act-IsLive wipe_action b d h = absurd d

  pub interleave-IsLive :
      (as' : List Action) (b : Broker)
      → Every (Spares token e) as'
      → IsLive b
      → IsLive (interleave as' b)
  unfolding interleave
  interleave-IsLive [] b d h = h
  interleave-IsLive (a ∷ as') b d h = interleave-IsLive as' (act a b) d.0 (act-IsLive a b d.1 h)
