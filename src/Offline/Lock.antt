-- ===== src/Offline/Lock.antt =====
-- The lock that `go_offline`, `go_online`, `force_takeover`, `sync_offline` and `force_unlock` of
-- backend/src/routes/tournaments.py keep on a tournament that the server knows. Of `go_online` and
-- `sync_offline` these are the checks under the row lock and what becomes of the lock; the tournament
-- that the device sends, converted, is an argument.
use archon_vibe.Prelude.{
  String, Bool, true, false, not, ◌&&◌, Option, none, some, List, [], ◌∷◌, ◌==◌, string_eq,
  given_text, nonempty_text,
}
use archon_vibe.Prelude.Outcome.{Outcome, returned, raise_if, given, ◌>>=◌, ◌>>◌}
use archon_vibe.Models.Users.{Instant, User}
use archon_vibe.Models.Tournaments.{Tournament}
use archon_vibe.Permissions.Checks.{
  can_take_tournament_offline, can_force_unlock_tournament, is_organizer,
}

-- A tournament with the fields of its lock.
pub record Lockable : Type 0 where
  pub event : Tournament
  pub offline_device_id : String
  pub offline_user_uid : String
  pub offline_since : Option Instant

-- The requests that check the lock or change it.
pub data LockRequest : Type 0 where
  take : (device_id : String) → LockRequest
  bring_back : (device_id : String) (force : Bool) (copy : Tournament) → LockRequest
  take_over : (device_id : String) → LockRequest
  back_up : (device_id : String) (copy : Lockable) → LockRequest
  unlock : (oauth_client_id : Option String) → LockRequest

abbrev pub locked : User → String → Instant → Lockable → Lockable
locked user device_id now t = record {
  event = record t.event { offline_mode = true; modified = now };
  offline_device_id = device_id;
  offline_user_uid = user.uid;
  offline_since = some now;
}

abbrev pub released : Tournament → Instant → Lockable
released event now = record {
  event = record event { offline_mode = false; modified = now };
  offline_device_id = "";
  offline_user_uid = "";
  offline_since = none;
}

unfoldable pub go_offline : Option User → Option Lockable → String → Instant → Outcome Lockable
go_offline user tournament device_id now = do
  u ← given user 401 "Authentication required"
  t ← given tournament 404 "Tournament not found"
  raise_if (not (can_take_tournament_offline u t.event)) 403
      "You don't have permission to take this tournament offline"
  raise_if t.event.offline_mode 409 "Tournament is already in offline mode"
  returned (locked u device_id now t)

-- The checks of `go_online` on a tournament that the server knows.
unfoldable pub check_return : User → String → Bool → Lockable → Outcome (Unit {0})
check_return u device_id force t = do
  raise_if (not (is_organizer u t.event)) 403 "Only organizers can bring a tournament online"
  raise_if (not t.event.offline_mode) 410 "This tournament is no longer in offline mode"
  raise_if (not (t.offline_device_id == device_id) && not force) 409
      "Tournament owned by another device. Use force to override."

unfoldable pub go_online :
    Option User → Lockable → String → Bool → Tournament → Instant → Outcome Lockable
go_online user t device_id force copy now = do
  u ← given user 401 "Authentication required"
  check_return u device_id force t
  returned (released copy now)

abbrev pub taken_over : User → String → Instant → Lockable → Lockable
taken_over user device_id now t = record t {
  event = record t.event { modified = now };
  offline_device_id = device_id;
  offline_user_uid = user.uid;
}

unfoldable pub force_takeover : Option User → Option Lockable → String → Instant → Outcome Lockable
force_takeover user tournament device_id now = do
  u ← given user 401 "Authentication required"
  t ← given tournament 404 "Tournament not found"
  raise_if (not (can_take_tournament_offline u t.event)) 403
      "You don't have permission to force-takeover this tournament"
  raise_if (not t.event.offline_mode) 400 "Tournament is not in offline mode"
  returned (taken_over u device_id now t)

-- `if tournament.offline_since`
abbrev since_or : Option Instant → Option Instant → Option Instant
since_or (some at) sent = some at
since_or none sent = sent

-- What is stored of a backup: the device's copy, under the uid and the lock that the server has.
abbrev pub backed_up : Lockable → Instant → Lockable → Lockable
backed_up copy now t = record {
  event = record copy.event { uid = t.event.uid; offline_mode = true; modified = now };
  offline_device_id = t.offline_device_id;
  offline_user_uid = t.offline_user_uid;
  offline_since = since_or t.offline_since copy.offline_since;
}

unfoldable pub sync_offline :
    Option User → Lockable → String → Lockable → Instant → Outcome Lockable
sync_offline user t device_id copy now = do
  u ← given user 401 "Authentication required"
  raise_if (not t.event.offline_mode) 400 "Tournament is not in offline mode"
  raise_if (not (is_organizer u t.event)) 403 "Only organizers can sync an offline tournament"
  raise_if (not (t.offline_device_id == device_id)) 409 "Device does not hold the offline lock"
  raise_if (nonempty_text copy.event.uid && not (copy.event.uid == t.event.uid)) 400
      "Tournament UID mismatch"
  returned (backed_up copy now t)

unfoldable pub force_unlock :
    Option User → Option String → Option Lockable → Instant → Outcome Lockable
force_unlock user oauth_client_id tournament now = do
  u ← given user 401 "Authentication required"
  raise_if (given_text oauth_client_id) 403 "OAuth tokens cannot force-unlock tournaments"
  raise_if (not (can_force_unlock_tournament u)) 403 "Only IC can force-unlock tournaments"
  t ← given tournament 404 "Tournament not found"
  raise_if (not t.event.offline_mode) 400 "Tournament is not in offline mode"
  returned (released t.event now)

-- One request on a tournament that the server knows.
unfoldable pub handle : Option User → LockRequest → Lockable → Instant → Outcome Lockable
handle user (take device_id) t now = go_offline user (some t) device_id now
handle user (bring_back device_id force copy) t now = go_online user t device_id force copy now
handle user (take_over device_id) t now = force_takeover user (some t) device_id now
handle user (back_up device_id copy) t now = sync_offline user t device_id copy now
handle user (unlock client) t now = force_unlock user client (some t) now

abbrev pub Sent : Type 0
Sent = Option User × LockRequest × Instant

-- Requests handled one after the other, until one is refused.
unfoldable pub run : List Sent → Lockable → Outcome Lockable
run [] t = returned t
run ((user, request, now) ∷ rest) t = handle user request t now >>= λ after. run rest after
