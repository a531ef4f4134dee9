-- ===== src/Tests/Access.antt =====
-- A coordinator's contacts, a tournament's roster and an anonymous deck, at each level.
use archon_vibe.Prelude.{if◌then◌else◌, ◌≡◌, refl, true, false, none, some, [], ◌∷◌, ◌++◌, is_some}
use archon_vibe.Json.{
  Json, nil, cons, Fields, get, has, texts, texts_at, pick, put, without, filter_keys,
}
use archon_vibe.Prelude.Text.{utf8, b64encode}
use archon_vibe.Models.Enums.{of_value}
use archon_vibe.Permissions.Checks.{publishes_contact, parse_roles}
use archon_vibe.AccessLevels.Users.{
  obfuscate, compute_user_public, compute_user_member, user_public_fields, user_contact_fields,
  user_community_links, user_links_only_fields, public_by, obfuscate_public_contacts, member_by,
  cloak,
}
use archon_vibe.AccessLevels.Tournaments.{
  compute_tournament_public, compute_tournament_member, compute_tournament_api,
  tournament_api_exclude, player_api_exclude, with_players, players_of, api_players, cons_player,
}
use archon_vibe.AccessLevels.Decks.{
  is_anonymous, publish, withheld_of, published_deck, compute_deck_member,
}
use archon_vibe.AccessLevels.Secrecy.{public_hides_contact, public_contact-IsCloakOf, IsCloakOf}
use archon_vibe.AccessLevels.Events.{tournament_hides_bookkeeping}
use archon_vibe.AccessLevels.DeckAnonymity.{compute_deck_member_lem, named_player}
use archon_vibe.Tests.Data.{user_doc, player_doc, cup_doc, deck_doc}

abbrev coordinator_public : Fields
coordinator_public =
    obfuscate_public_contacts
      (pick (user_public_fields ++ user_contact_fields ++ user_community_links) (user_doc "NC"))

coordinator_is_public : compute_user_public (user_doc "NC") ≡ some coordinator_public
unfolding compute_user_public public_by get texts publishes_contact parse_roles of_value
coordinator_is_public = refl

cloaked_email : get "contact_email" coordinator_public ≡ some (Json.str "#b64#YUBiLmZy")
unfolding obfuscate_public_contacts cloak obfuscate utf8 b64encode get put pick filter_keys
cloaked_email = refl

coordinator_shows_email : is_some (get "contact_email" coordinator_public) ≡ true
coordinator_shows_email = rw cloaked_email refl

members_see_email : is_some (get "contact_email" (compute_user_member (user_doc "NC"))) ≡ true
unfolding compute_user_member member_by get texts publishes_contact parse_roles of_value pick
    filter_keys
members_see_email = refl

public_contact-IsCloakOf_example :
    (j : Json) × (get "contact_email" (user_doc "NC") ≡ some j)
    × IsCloakOf j (Json.str "#b64#YUBiLmZy")
public_contact-IsCloakOf_example =
    public_contact-IsCloakOf (user_doc "NC") coordinator_public "contact_email"
      (Json.str "#b64#YUBiLmZy") refl coordinator_is_public cloaked_email

ethics_is_quiet : publishes_contact (texts_at "roles" (user_doc "Ethics")) ≡ false
unfolding get texts publishes_contact parse_roles of_value
ethics_is_quiet = refl

ethics_is_public :
    compute_user_public (user_doc "Ethics") ≡ some (pick user_links_only_fields (user_doc "Ethics"))
unfolding compute_user_public public_by get texts publishes_contact parse_roles of_value
ethics_is_public = refl

public_hides_contact_example :
    get "contact_email" (pick user_links_only_fields (user_doc "Ethics")) ≡ none
public_hides_contact_example =
    public_hides_contact (user_doc "Ethics") (pick user_links_only_fields (user_doc "Ethics"))
      "contact_email" ethics_is_quiet refl ethics_is_public

tournament_hides_bookkeeping_example :
    (get "checkin_code" (compute_tournament_member cup_doc) ≡ none)
    × (get "checkin_code" (compute_tournament_public cup_doc) ≡ none)
    × ((if has "online" cup_doc then get "venue_url" (compute_tournament_public cup_doc) else none)
        ≡ none)
tournament_hides_bookkeeping_example = tournament_hides_bookkeeping cup_doc "checkin_code"

abbrev cup_api : Fields
cup_api =
    put "players" (Json.arr (cons (Json.obj (without player_api_exclude player_doc)) nil))
      (without tournament_api_exclude cup_doc)

cup_is_published : compute_tournament_api cup_doc ≡ some cup_api
unfolding compute_tournament_api with_players players_of api_players cons_player get
cup_is_published = refl

deck_is_anonymous : is_anonymous deck_doc ≡ some true
unfolding is_anonymous get
deck_is_anonymous = refl

abbrev shown_deck : Fields
shown_deck = without ("private" ∷ "views" ∷ "user_uid" ∷ []) deck_doc

deck_is_shown : compute_deck_member deck_doc ≡ some (some shown_deck)
unfolding compute_deck_member published_deck publish withheld_of is_anonymous get
deck_is_shown = refl

compute_deck_member_lem_example :
    (has "public" deck_doc ≡ true)
    × (get "user_uid" shown_deck ≡ named_player true deck_doc)
    × (get "private" shown_deck ≡ none)
    × (get "views" shown_deck ≡ none)
compute_deck_member_lem_example =
    compute_deck_member_lem deck_doc shown_deck true deck_is_anonymous deck_is_shown

-- It does not name its player.
deck_names_nobody : named_player true deck_doc ≡ none
unfolding get
deck_names_nobody = refl
