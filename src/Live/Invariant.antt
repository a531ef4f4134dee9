-- ===== src/Live/Invariant.antt =====
-- What the timer, the extra times and the announcements keep in every run.
use archon_vibe.Prelude.{◌≡◌, ◌≤◌, string_eq, length, is_none, All}
use archon_vibe.Prelude.Dict.{Dict}
use archon_vibe.Models.Tournaments.{Tournament}
use archon_vibe.Live.Timer.{max_extra_time}
use archon_vibe.Live.Announcements.{max_announcements}

-- The timer has a start exactly while it runs, no table has more than thirty minutes of extra time,
-- and no more than twenty announcements stand.
pub record IsLive (t : Tournament) : Type 0 where
  pub timer : t.timer.paused ≡ is_none t.timer.started_at
  pub extra : All (λ e. e.1 ≤ max_extra_time) t.table_extra_time
  pub board : length t.announcements ≤ max_announcements
