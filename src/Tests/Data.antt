-- ===== src/Tests/Data.antt =====
-- The members, tournaments and documents that the tests share.
use archon_vibe.Prelude.{String, ◌≡◌, refl, true, false, none, some, List, [], ◌∷◌, nonempty_text}
use archon_vibe.Json.{Json, Items, nil, cons, Fields, end, field}
use archon_vibe.Models.Roles.{Role, ObjectType}
use archon_vibe.Models.TournamentKinds.{TournamentState, PlayerState, TableState, TournamentFormat}
use archon_vibe.Models.SanctionKinds.{SanctionLevel, SanctionCategory}
use archon_vibe.Models.Users.{User}
use archon_vibe.Models.Tournaments.{
  Tournament, Player, PaymentStatus, Seat, Table, Score, Sanction, fresh_timer,
}
use archon_vibe.Broadcast.Data.{BroadcastData}

abbrev pub member_of_france : String → List Role → User
member_of_france uid roles = record {
  uid = uid;
  modified = 0;
  deleted_at = none;
  anonymized_at = none;
  name = uid;
  country = some "FR";
  vekn_id = some "1000001";
  roles = roles;
  contact_email = none;
  contact_phone = none;
  discord_id = none;
  promo_stock = [];
  wins = [];
}

-- An organizer, a player, the Inner Circle and a national coordinator.
abbrev pub alice : User
alice = member_of_france "alice" (Role.prince ∷ [])

abbrev pub bob : User
bob = member_of_france "bob" []

abbrev pub carol : User
carol = member_of_france "carol" (Role.ic ∷ [])

abbrev pub dan : User
dan = member_of_france "dan" (Role.nc ∷ [])

abbrev no_score : Score
no_score = record { gw = 0; vp = 0; tp = 0 }

abbrev pub seat : String → Seat
seat uid = record { player_uid = uid; result = no_score; judge_uid = "" }

abbrev pub first_table : Table
first_table = record {
  seating = seat "bob" ∷ seat "eve" ∷ seat "fay" ∷ seat "gil" ∷ [];
  state = TableState.in_progress;
  override = none;
  organized_by = none;
}

abbrev bob_plays : Player
bob_plays = record {
  user_uid = some "bob";
  state = PlayerState.playing;
  payment_status = PaymentStatus.paid;
  toss = 0;
  result = no_score;
  finalist = false;
  display_name = none;
  non_competing = false;
  missing_decklist = false;
  waitlisted = false;
}

abbrev pub cup : Tournament
cup = record {
  uid = "cup";
  modified = 0;
  state = TournamentState.playing;
  format = TournamentFormat.standard;
  online = false;
  country = some "FR";
  organizers_uids = "alice" ∷ [];
  players = bob_plays ∷ [];
  rounds = (first_table ∷ []) ∷ [];
  finals = none;
  winner = "";
  standings = [];
  timer = fresh_timer;
  table_extra_time = ("0", 600) ∷ [];
  announcements = [];
  offline_mode = false;
  vekn_pushed_at = none;
  vekn_results_stale = false;
}

abbrev pub bans : Sanction
bans = record {
  uid = "s1";
  modified = 0;
  deleted_at = none;
  user_uid = "bob";
  issued_by_uid = "alice";
  tournament_uid = some "cup";
  level = SanctionLevel.disqualification;
  category = SanctionCategory.unsportsmanlike_conduct;
  subcategory = none;
  round_number = some 1;
  description = "";
  issued_at = 0;
  expires_at = none;
  lifted_at = none;
  lifted_by_uid = none;
}

abbrev pub texts_of : List String → Items
texts_of [] = nil
texts_of (s ∷ ss) = cons (Json.str s) (texts_of ss)

abbrev pub user_doc : String → Fields
user_doc role = field "uid" (Json.str "dan") (
    field "name" (Json.str "Dan") (
      field "roles" (Json.arr (texts_of (role ∷ []))) (
        field "contact_email" (Json.str "a@b.fr") (
          field "calendar_token" (Json.str "secret")
            (field "community_links" (Json.arr (texts_of ("https://x" ∷ []))) end)))))

abbrev pub player_doc : Fields
player_doc =
    field "user_uid" (Json.str "bob")
      (field "display_name" (Json.str "Bob") (field "payment_status" (Json.str "Paid") end))

abbrev pub cup_doc : Fields
cup_doc = field "uid" (Json.str "cup") (
    field "checkin_code" (Json.str "1234") (
      field "online" (Json.bool false)
        (field "players" (Json.arr (cons (Json.obj player_doc) nil)) end)))

abbrev pub deck_doc : Fields
deck_doc = field "user_uid" (Json.str "bob") (
    field "public" (Json.bool true) (
      field "private" (Json.bool false) (
        field "views" (Json.num 3) (
          field "attribution"
            (Json.obj (field "kind" (Json.str "Anonymous") (field "name" (Json.str "B") end)))
            end))))

-- A stand-in for the JSON encoder, which tells only the empty document from the others.
abbrev pub encode : Fields → String
encode end = "{}"
encode (field k v f) = "{...}"

pub encode-nonempty : (d : Fields) → nonempty_text (encode d) ≡ true
encode-nonempty end = refl
encode-nonempty (field k v f) = refl

abbrev pub sent : BroadcastData
sent = record {
  obj_type = ObjectType.user;
  uid = "dan";
  pub_json = some "{p}";
  mem_json = some "{m}";
  full_json = "{f}";
  country = some "FR";
  org_uids = none;
  obj_user_uid = none;
  tournament_uid = none;
  modified_at = some "now";
  retracted_public = false;
  retracted_member = false;
}
