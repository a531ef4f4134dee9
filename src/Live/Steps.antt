-- ===== src/Live/Steps.antt =====
-- The accepted requests on the timer and the announcements of one tournament, as a step relation, and what a run of them is.
use archon_vibe.Prelude.{String, ◌≡◌, true, false, some, string_eq, arith}
use archon_vibe.Prelude.Outcome.{returned}
use archon_vibe.Models.TournamentKinds.{tournament_state_eq}
use archon_vibe.Models.Users.{Instant, User}
use archon_vibe.Models.Tournaments.{Tournament}
use archon_vibe.Permissions.Checks.{is_organizer}
use archon_vibe.Live.Timer.{
  validate_timer_tournament, Floats, timer_start, timer_pause, timer_reset, timer_add_time,
  AddTimeRequest,
}
use archon_vibe.Live.Announcements.{
  validate_announce_tournament, post_announcement, delete_announcement,
}

-- One accepted request of a signed-in user on the timer or on the announcements.
pub data Step (floats : Floats) (u : User) : Tournament → Tournament → Type 0 where
  starts :
      {t t' : Tournament} (now saved : Instant)
      → timer_start (some u) (some t) now saved ≡ returned t'
      → Step floats u t t'
  pauses :
      {t t' : Tournament} (now saved : Instant)
      → timer_pause floats (some u) (some t) now saved ≡ returned t'
      → Step floats u t t'
  resets :
      {t t' : Tournament} (saved : Instant)
      → timer_reset (some u) (some t) saved ≡ returned t'
      → Step floats u t t'
  adds_time :
      {t t' : Tournament} (request : AddTimeRequest) (saved : Instant)
      → timer_add_time (some u) (some t) request saved ≡ returned t'
      → Step floats u t t'
  posts :
      {t t' : Tournament} (body fresh_id : String) (now saved : Instant)
      → post_announcement (some u) (some t) body fresh_id now saved ≡ returned t'
      → Step floats u t t'
  deletes :
      {t t' : Tournament} (announcement_id : String) (saved : Instant)
      → delete_announcement (some u) (some t) announcement_id saved ≡ returned t'
      → Step floats u t t'

-- A run of accepted requests, of any users, one after the other as the row lock orders them.
pub data Run (floats : Floats) : Tournament → Tournament → Type 0 where
  stop : {t : Tournament} → Run floats t t
  next :
      {t t' t'' : Tournament} (u : User) → Step floats u t t' → Run floats t' t'' → Run floats t t''

-- The part of a tournament that no such request may touch.
abbrev pub IsSamePlay : Tournament → Tournament → Type 0
IsSamePlay t t' =
    (t'.state ≡ t.state)
    × (t'.players ≡ t.players)
    × (t'.rounds ≡ t.rounds)
    × (t'.finals ≡ t.finals)
    × (t'.standings ≡ t.standings)
    × (t'.winner ≡ t.winner)
    × (t'.organizers_uids ≡ t.organizers_uids)
    × (t'.country ≡ t.country)
    × (t'.offline_mode ≡ t.offline_mode)

-- An accepted request on the timer (start, pause, reset, extra time) or on the announcements (post,
-- delete) is an organizer's, on a tournament that is not offline, and leaves the play itself alone:
-- state, players, rounds, finals, standings, winner, organizers, country and the offline flag.
pub Step-IsSamePlay :
    {floats : Floats} {u : User} {t t' : Tournament}
    → Step floats u t t'
    → (is_organizer u t ≡ true) × (t.offline_mode ≡ false) × IsSamePlay t t'
unfolding timer_start timer_pause timer_reset timer_add_time post_announcement delete_announcement
    validate_timer_tournament validate_announce_tournament
Step-IsSamePlay {floats} {u} {t} {t'} (starts now saved h) = ground (arith, h)
Step-IsSamePlay {floats} {u} {t} {t'} (pauses now saved h) = ground (arith, h)
Step-IsSamePlay {floats} {u} {t} {t'} (resets saved h) = ground (arith, h)
Step-IsSamePlay {floats} {u} {t} {t'} (adds_time request saved h) = ground (arith, h)
Step-IsSamePlay {floats} {u} {t} {t'} (posts body fresh_id now saved h) = ground (arith, h)
Step-IsSamePlay {floats} {u} {t} {t'} (deletes announcement_id saved h) = ground (arith, h)
