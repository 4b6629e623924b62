-- ===== src/Go/Uuid.antt =====
-- A `uuid.UUID` as the number that its sixteen bytes write; `uuid.Nil` is 0.
use watchkeepers.Prelude.{ℕ}

abbrev pub Uuid : Type 0
Uuid = ℕ

abbrev pub nil_uuid : Uuid
nil_uuid = 0
