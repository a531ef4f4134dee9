-- ===== src/Live/Extra.antt =====
-- Which requests for extra time are accepted, and what they change.
use archon_vibe.Prelude.{String, ◌≡◌, ◌≤◌, ◌+◌, some, arith, ◌==◌, string_eq, ==-iff, if◌then◌else◌}
use archon_vibe.Prelude.Int.{pos, pos_part, ◌≤ℤ◌}
use archon_vibe.Prelude.Dict.{insert, lookup-insert}
use archon_vibe.Prelude.Outcome.{returned}
use archon_vibe.Models.TournamentKinds.{TournamentState, tournament_state_eq}
use archon_vibe.Models.Users.{Instant, User}
use archon_vibe.Models.Tournaments.{Tournament}
use archon_vibe.Live.Timer.{
  validate_timer_tournament, timer_add_time, AddTimeRequest, extra_time, max_extra_time, save_timer,
}
use archon_vibe.Live.Clock.{IsPlayable}

-- Extra time that is granted raises the named table by exactly the positive number of seconds asked
-- for, to thirty minutes at most, and leaves every other table as it was.
pub timer_add_time_lem :
    (u : User) (t t' : Tournament) (request : AddTimeRequest) (saved : Instant) (table : String)
    → timer_add_time (some u) (some t) request saved ≡ returned t'
    → (pos 1 ≤ℤ request.seconds)
      × (extra_time request.table t'.table_extra_time ≤ max_extra_time)
      × (extra_time table t'.table_extra_time ≡ (
          if request.table == table
          then extra_time table t.table_extra_time + pos_part request.seconds
          else extra_time table t.table_extra_time))
unfolding timer_add_time validate_timer_tournament
timer_add_time_lem u t t' request saved table h = ground (
  arith,
  h,
  ==-iff request.table table,
  ==-iff request.table request.table,
  lookup-insert table request.table
      (extra_time request.table t.table_extra_time + pos_part request.seconds) t.table_extra_time,
  lookup-insert request.table request.table
      (extra_time request.table t.table_extra_time + pos_part request.seconds) t.table_extra_time,
)

-- An organizer of a tournament that is being played and is not offline is refused no positive
-- extra time that keeps the table within thirty minutes.
pub timer_add_time-granted :
    (u : User) (t : Tournament) (request : AddTimeRequest) (saved : Instant)
    → IsPlayable u t
    → pos 1 ≤ℤ request.seconds
    → extra_time request.table t.table_extra_time + pos_part request.seconds ≤ max_extra_time
    → (t' : Tournament) × (timer_add_time (some u) (some t) request saved ≡ returned t')
unfolding timer_add_time validate_timer_tournament
timer_add_time-granted u t request saved p h k = (
  save_timer saved (record t {
    table_extra_time =
        insert request.table
          (extra_time request.table t.table_extra_time + pos_part request.seconds)
          t.table_extra_time;
  }),
  ground (arith, p.organizer, p.online, p.playing, h, k, ==-iff t.state TournamentState.playing),
)
