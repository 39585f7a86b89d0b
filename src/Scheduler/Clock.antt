-- ===== src/Scheduler/Clock.antt =====
-- Times as the code writes and reads them: `datetime.now(timezone.utc)`, `isoformat` and
-- `fromisoformat` of Python. A time is a count of microseconds
-- before the end of the year 9999, which Python cannot pass.
use codearts_bridge.Prelude.{ℕ, ◌*◌, String, ◌≡◌, Option, some}

pub record Clock : Type 0 where
  pub isoformat : ℕ → String
  -- `none` is the ValueError.
  pub fromisoformat : String → Option ℕ
  pub fromisoformat-isoformat : (t : ℕ) → fromisoformat (isoformat t) ≡ some t

-- `timedelta(minutes=n)`
abbrev pub minutes : ℕ → ℕ
minutes n = n * 60000000
