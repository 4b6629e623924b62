-- ===== src/Go/Context.antt =====
-- The part of `context.Context` that the code relies on: `WithoutCancel`, and `Err` as an
-- argument of the calls that read it.
use watchkeepers.Prelude.{ℕ, Bool, false, Option, none, String}

-- `values` names the value chain; `deadline` is an instant; `linked` says whether the parent's
-- cancellation reaches this context.
pub record Context : Type 0 where
  pub values : ℕ
  pub deadline : Option ℕ
  pub linked : Bool

-- The derived context keeps the values, has no deadline and is never cancelled.
unfoldable pub without_cancel : Context → Context
without_cancel c = record { values = c.values; deadline = none; linked = false }

-- The two sentinels of the package.
abbrev pub canceled : String
canceled = "context.Canceled"

abbrev pub deadline_exceeded : String
deadline_exceeded = "context.DeadlineExceeded"
