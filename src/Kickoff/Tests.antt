-- ===== src/Kickoff/Tests.antt =====
-- A spawn that is approved twice, the second time under other ids, and the theorems at it.

use watchkeepers.Prelude.{
  ℕ, suc, String, ◌≡◌, ◌≢◌, ◌⊎◌, refl, Option, none, some, List, [], ◌∷◌, ◌++◌, arith, ◌+◌, true,
}
use watchkeepers.Go.Context.{Context}
use watchkeepers.Go.Errors.{Error, text, ok}
use watchkeepers.Go.Text.{is_blank}
use watchkeepers.Saga.{Uuid, Saga, completed, failed}
use watchkeepers.Saga.Store.{
  MemorySpawnSagaDao, memory_dao, new_memory_dao, insert_if_absent, fresh_row, get,
}
use watchkeepers.Saga.Runner.{Step, World, returned}
use watchkeepers.Kickoff.Rows.{spawn_kind, approval_token_prefix}
use watchkeepers.Kickoff.{Value, Order, kickoff, about}
use watchkeepers.Kickoff.Once.{kickoff_once}

abbrev Trace : Type 0
Trace = List String

abbrev text_of : Uuid → String
text_of id = "00000000-0000-0000-0000-000000000007"

abbrev one_more : Value String → ℕ → ℕ
one_more v n = suc n

abbrev create_app : Step Trace
create_app = record {
  name = "slack_app_create";
  execute = λ c w. (none, "create" ∷ w);
  compensate = some (λ c w. (returned none, "delete" ∷ w));
}

abbrev launch_runtime : Step Trace
launch_runtime = record {
  name = "runtime_launch";
  execute = λ c w. (some (text "no host"), w);
  compensate = none;
}

abbrev two_steps : List (Step Trace)
two_steps = create_app ∷ launch_runtime ∷ []

abbrev accepts : ℕ → Option Error
accepts n = none

abbrev request : Context
request = record { values = 1; deadline = some 50; linked = true }

abbrev order : Order String
order = record { ctx = request; saga_id = 7; manifest = 3; keeper = 5; claim = "org" }

abbrev other_order : Order String
other_order = record order { saga_id = 8; keeper = 6 }

abbrev start : World MemorySpawnSagaDao Trace
unfolding new_memory_dao
start = record { dao = new_memory_dao (λ n. 100 + n); log = []; env = [] }

abbrev row : Saga
unfolding fresh_row
row = fresh_row 7 3 5 "token-1234" 100

abbrev kick :
    Order String
    → String
    → World MemorySpawnSagaDao Trace
    → Option Error × World MemorySpawnSagaDao Trace
unfolding spawn_kind
kick = kickoff text_of memory_dao (spawn_kind text_of) one_more "agent" two_steps accepts

token_prefix_of_row : approval_token_prefix "token-1234" ≡ "tok-token-"
unfolding approval_token_prefix
token_prefix_of_row = refl

kickoff_once_example :
    let (failure, left) = kick order "token-1234" start in
    (last : Saga) × (get 7 left.dao ≡ ok last)
    × ((last.status ≡ completed) × (failure ≡ none) ⊎ (last.status ≡ failed) × (failure ≢ none))
    × (last.id ≡ 7)
    × (last.manifest_version_id ≡ 3)
    × (last.watchkeeper_id ≡ 5)
    × (kick other_order "token-1234" left ≡ (
      none,
      record left {
        log =
            left.log
            ++ (spawn_kind text_of).replayed
                (about text_of memory_dao
                  (spawn_kind text_of)
                  one_more
                  "agent"
                  two_steps
                  accepts
                  last
                  "token-1234")
                last.status
              ∷ [];
      },
    ))
unfolding insert_if_absent fresh_row spawn_kind is_blank start
kickoff_once_example =
    kickoff_once text_of (spawn_kind text_of) one_more "agent" two_steps accepts order "token-1234"
      start row refl refl other_order (omega arith) (omega arith) (omega arith)
