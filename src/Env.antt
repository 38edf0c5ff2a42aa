-- ===== src/Env.antt =====
-- What an operation draws from its surroundings: the readings of `Utc::now()` and the values of
-- `Uuid::now_v7()` and `OsRng`, each numbered in the order in which the operation asks for it.
-- Nothing is assumed of the clock between two readings.
use zerolease.Prelude.{ℕ, ◌≡◌, Text, length}
use zerolease.Types.Identity.{Uuid}
use zerolease.Types.Time.{DateTime}

pub record Env : Type 0 where
  pub now : ℕ → DateTime
  pub uuid : ℕ → Uuid
  -- the draw of that number, of so many bytes
  pub random_bytes : ℕ → ℕ → Text

-- `OsRng.fill_bytes` fills the buffer that it is given.
abbrev pub FillsBuffer : Env → Type 0
FillsBuffer env = (i n : ℕ) → length (env.random_bytes i n) ≡ n
