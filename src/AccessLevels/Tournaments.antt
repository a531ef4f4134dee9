-- ===== src/AccessLevels/Tournaments.antt =====
-- The projections of a tournament.
use archon_vibe.Prelude.{String, Option, none, some, List, [], ◌∷◌, ◌++◌, if◌then◌else◌}
use archon_vibe.Json.{Json, Items, nil, cons, Fields, get, put, pick, without, has}

abbrev pub api_sync_fields : List String
api_sync_fields = "modified" ∷ "deleted_at" ∷ []

abbrev pub tournament_public_fields : List String
tournament_public_fields =
    "uid" ∷ "modified" ∷ "deleted_at" ∷ "name" ∷ "format" ∷ "rank" ∷ "online" ∷ "start" ∷ "finish"
    ∷ "timezone" ∷ "country" ∷ "city" ∷ "city_geoname_id" ∷ "league_uid" ∷ "state" ∷ "banner_path"
    ∷ "venue" ∷ "venue_url" ∷ "address" ∷ "map_url" ∷ "registration_url" ∷ "description"
    ∷ "external_ids" ∷ "event_code" ∷ "proxies" ∷ "multideck" ∷ "decklist_required" ∷ "max_rounds"
    ∷ "max_players" ∷ "open_rounds" ∷ "self_organized_rounds" ∷ []

abbrev pub tournament_member_exclude : List String
tournament_member_exclude =
    "checkin_code" ∷ "vekn_pushed_at" ∷ "vekn_results_stale" ∷ "vekn_event_absent_at"
    ∷ "twda_status" ∷ []

abbrev pub tournament_api_exclude : List String
tournament_api_exclude =
    tournament_member_exclude
    ++ api_sync_fields
    ++ ("announcements" ∷ "raffles" ∷ "promos_distributed" ∷ "promo_stock_source_uid"
        ∷ "offline_device_id" ∷ [])

abbrev pub player_api_exclude : List String
player_api_exclude = "display_name" ∷ "missing_decklist" ∷ "payment_status" ∷ "waitlisted" ∷ []

unfoldable pub compute_tournament_public : Fields → Fields
unfolding get pick without
compute_tournament_public d =
    let proj = pick tournament_public_fields d in
    if has "online" d then without ("venue_url" ∷ []) proj else proj

unfoldable pub compute_tournament_member : Fields → Fields
unfolding without
compute_tournament_member d = without tournament_member_exclude d

unfoldable pub cons_player : Fields → Option Items → Option Items
cons_player player none = none
cons_player player (some ps) = some (cons (Json.obj player) ps)

-- `[{...} for player in d["players"]]`; `none` where an entry is no object.
unfoldable pub api_players : Items → Option Items
unfolding without cons_player
api_players nil = some nil
api_players (cons (Json.obj player) rest) =
    cons_player (without player_api_exclude player) (api_players rest)
api_players (cons _ rest) = none

unfoldable pub players_of : Option Json → Option Items
unfolding api_players
players_of (some (Json.arr ps)) = api_players ps
players_of none = none
players_of _ = none

unfoldable pub with_players : Option Items → Fields → Option Fields
unfolding without put
with_players none d = none
with_players (some ps) d = some (put "players" (Json.arr ps) (without tournament_api_exclude d))

-- `none` where the source raises: there is no list of player objects.
unfoldable pub compute_tournament_api : Fields → Option Fields
unfolding get players_of with_players
compute_tournament_api d = with_players (players_of (get "players" d)) d

abbrev pub compute_tournament_full : Fields → Fields
compute_tournament_full d = d
