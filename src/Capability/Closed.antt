-- ===== src/Capability/Closed.antt =====
-- A broker whose `Close` has returned admits and mints nothing more.
use watchkeepers.Prelude.{
  ℕ, ◌≡◌, ◌≢◌, refl, String, Bytes, true, false, Option, none, some, List, [], ◌∷◌, arith, ℤ,
}
use watchkeepers.Go.Errors.{Error, Result}
use watchkeepers.Capability.{
  Broker, broker_closed, minted, issue, issue_for_org, validate, validate_for_org, revoke, close,
  prune_one, prune_expired,
}
use watchkeepers.Capability.Schedule.{
  Action, store_action, drop_action, prune_action, remove_action, closed_action, wipe_action, act,
  interleave,
}

-- Once `Close` is done the flag is set and the map is empty.
pub record IsSealed (b : Broker) : Type 0 where
  pub flagged : b.closed ≡ true
  pub emptied : (token : Bytes) → b.tokens token ≡ none

prune_one-IsSealed : (t : Bytes) (now : ℕ) (b : Broker) → IsSealed b → IsSealed (prune_one t now b)
unfolding prune_one
prune_one-IsSealed t now b h = record {
  flagged = ground (arith, h.emptied t);
  emptied = λ u. ground (arith, h.emptied t, h.emptied u);
}

prune-IsSealed :
    (order : List Bytes) (now : ℕ) (b : Broker) → IsSealed b → IsSealed (prune_expired order now b)
unfolding prune_expired
prune-IsSealed [] now b h = h
prune-IsSealed (t ∷ order) now b h = prune-IsSealed order now _ (prune_one-IsSealed t now b h)

act-IsSealed : (a : Action) (b : Broker) → IsSealed b → IsSealed (act a b)
unfolding act
act-IsSealed (store_action t e) b h = record {
  flagged = ground arith;
  emptied = λ u. ground (arith, h.emptied u);
}
act-IsSealed (drop_action t now) b h = record {
  flagged = ground (arith, h.emptied t);
  emptied = λ u. ground (arith, h.emptied t, h.emptied u);
}
act-IsSealed (prune_action order now) b h = prune-IsSealed order now b h
act-IsSealed (remove_action t) b h = record {
  flagged = h.flagged;
  emptied = λ u. ground (arith, h.emptied u);
}
act-IsSealed closed_action b h = record { flagged = refl; emptied = h.emptied }
act-IsSealed wipe_action b h = record {
  flagged = ground arith;
  emptied = λ u. ground (arith, h.emptied u);
}

interleave-IsSealed : (as' : List Action) (b : Broker) → IsSealed b → IsSealed (interleave as' b)
unfolding interleave
interleave-IsSealed [] b h = h
interleave-IsSealed (a ∷ as') b h = interleave-IsSealed as' (act a b) (act-IsSealed a b h)

prune_closed :
    (order : List Bytes) (now : ℕ) (b : Broker)
    → b.closed ≡ true
    → (prune_expired order now b).closed ≡ true
unfolding prune_expired prune_one
prune_closed [] now b h = h
prune_closed (t ∷ order) now b h = prune_closed order now (prune_one t now b) (ground arith)

-- No action clears the flag.
act-closed : (a : Action) (b : Broker) → b.closed ≡ true → (act a b).closed ≡ true
unfolding act
act-closed (prune_action order now) b h = prune_closed order now b h
act-closed (store_action t e) b h = ground arith
act-closed (drop_action t now) b h = ground arith
act-closed (remove_action t) b h = h
act-closed closed_action b h = refl
act-closed wipe_action b h = ground arith

interleave-closed :
    (as' : List Action) (b : Broker) → b.closed ≡ true → (interleave as' b).closed ≡ true
unfolding interleave
interleave-closed [] b h = h
interleave-closed (a ∷ as') b h = interleave-closed as' (act a b) (act-closed a b h)

close-IsSealed :
    (during : List Action) (b : Broker)
    → b.close_done ≡ false
    → IsSealed (close (interleave during) b)
unfolding close
close-IsSealed during b once =
    let flag = interleave-closed during (record b { closed = true }) refl in
    record { flagged = ground (arith, flag); emptied = λ u. ground arith }

-- After the first `Close`, whatever other goroutines did while it ran and do after it, the map is
-- empty, `Issue` and `IssueForOrg` mint nothing, `Validate` and `ValidateForOrg` admit nothing, and
-- `Revoke` reports that the broker is closed.
pub close_final :
    (during after : List Action) (b : Broker)
    → b.close_done ≡ false
    → let c = interleave after (close (interleave during) b) in
      ((token : Bytes) → c.tokens token ≡ none)
      × ((scope : String) (ttl : ℤ) (fresh : Result Bytes) (now : ℕ) (others : List Action)
            (token : Bytes)
          → (issue scope ttl fresh now (interleave others) c).0 ≢ minted token)
      × ((scope org : String) (ttl : ℤ) (fresh : Result Bytes) (now : ℕ) (others : List Action)
            (token : Bytes)
          → (issue_for_org scope org ttl fresh now (interleave others) c).0 ≢ minted token)
      × ((ctx_err : Option Error) (token : Bytes) (scope : String) (now now' : ℕ)
            (others : List Action)
          → (validate ctx_err token scope now now' (interleave others) c).0 ≢ none)
      × ((ctx_err : Option Error) (token : Bytes) (scope org : String) (now now' : ℕ)
            (others : List Action)
          → (validate_for_org ctx_err token scope org now now' (interleave others) c).0 ≢ none)
      × ((token : Bytes) → revoke token c ≡ (some broker_closed, c))
unfolding issue issue_for_org validate validate_for_org revoke
close_final during after b once =
    let s = interleave-IsSealed after _ (close-IsSealed during b once) in
    let flag = s.flagged in
    (
      s.emptied,
      λ scope ttl fresh now others token. ground arith,
      λ scope org ttl fresh now others token. ground arith,
      λ ctx_err token scope now now' others. ground arith,
      λ ctx_err token scope org now now' others. ground arith,
      λ token. ground arith,
    )
