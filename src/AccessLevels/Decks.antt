-- ===== src/AccessLevels/Decks.antt =====
-- The projections of decks, leagues and promos.
use archon_vibe.Prelude.{
  String, Bool, false, not, ◌&&◌, Option, none, some, List, [], ◌∷◌, ◌++◌, ◌==◌, string_eq,
  if◌then◌else◌,
}
use archon_vibe.Json.{Json, Fields, get, put, without, has}
use archon_vibe.AccessLevels.Tournaments.{api_sync_fields}

abbrev pub deck_api_exclude : List String
deck_api_exclude = api_sync_fields ++ ("public" ∷ "private" ∷ "views" ∷ [])

-- `d["attribution"]["kind"] == AttributionKind.ANONYMOUS`; `none` where an item is missing, on which
-- the source raises.
unfoldable pub is_anonymous : Fields → Option Bool
unfolding get
is_anonymous d = elim (get "attribution" d) [
  | some (Json.obj a) ↦ elim (get "kind" a) [
    | none ↦ none
    | some (Json.str s) ↦ some (s == "Anonymous")
    | some _ ↦ some false
  ]
  | _ ↦ none
]

unfoldable pub withheld_of : Bool → List String
withheld_of hides =
    if hides then "private" ∷ "views" ∷ "user_uid" ∷ [] else "private" ∷ "views" ∷ []

unfoldable pub publish : Option Bool → Fields → Option Fields
unfolding withheld_of without get
publish none d = none
publish (some anonymous) d = some (without (withheld_of (anonymous && not (has "winner" d))) d)

-- `_published_deck`
unfoldable pub published_deck : Fields → Option Fields
unfolding is_anonymous publish
published_deck d = publish (is_anonymous d) d

abbrev pub shown_or_raise : Option Fields → Option (Option Fields)
shown_or_raise none = none
shown_or_raise (some p) = some (some p)

-- `some none` is the answer `None`: the deck is not shown. `none` is a raise.
unfoldable pub compute_deck_member : Fields → Option (Option Fields)
unfolding published_deck get
compute_deck_member d = if has "public" d then shown_or_raise (published_deck d) else some none

unfoldable pub api_with : Option Json → Fields → Option (Option Fields)
unfolding put without
api_with (some (Json.obj a)) p =
    some
      (some (put "attribution" (Json.obj (without ("name" ∷ []) a)) (without deck_api_exclude p)))
api_with none p = none
api_with _ p = none

unfoldable pub api_deck : Option Fields → Option (Option Fields)
unfolding get api_with
api_deck none = none
api_deck (some p) = api_with (get "attribution" (without deck_api_exclude p)) p

unfoldable pub compute_deck_api : Fields → Option (Option Fields)
unfolding published_deck api_deck get
compute_deck_api d = if not (has "public" d) then some none else api_deck (published_deck d)

abbrev pub compute_deck_full : Fields → Fields
compute_deck_full d = d

unfoldable pub compute_league_public : Fields → Fields
unfolding without
compute_league_public d = without ("organizers_uids" ∷ []) d

unfoldable pub compute_promo_public : Fields → Fields
unfolding without
compute_promo_public d = without ("holdings" ∷ []) d

unfoldable pub compute_league_api : Fields → Fields
unfolding without
compute_league_api d = without api_sync_fields d
