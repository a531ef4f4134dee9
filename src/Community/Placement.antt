-- ===== src/Community/Placement.antt =====
-- `moderation_for` and `placement` of backend/src/community_links.py: who may moderate a link how, and
-- the country and moderation it is saved with.
use archon_vibe.Prelude.{
  String, Bool, not, ◌&&◌, ◌||◌, Option, none, some, ◌==◌, string_eq, opt_beq, is_some, ◌<>◌,
  if◌then◌else◌,
}
use archon_vibe.Prelude.Outcome.{Outcome, returned, raise, raise_if, ◌>>=◌, ◌>>◌}
use archon_vibe.Models.Enums.{of_value, value_of}
use archon_vibe.Models.LinkKinds.{
  CommunityLinkType, LinkModeration, link_moderation_eq, link_moderation_values,
}
use archon_vibe.Models.Users.{User}
use archon_vibe.Permissions.Checks.{
  can_moderate_link, can_promote_link_national, can_promote_link_global,
}
use archon_vibe.Community.Rules.{CommunityLink, is_content, text_or, shown, validated_country}

-- Whether the actor may set the state, or that there is no such state.
abbrev pub allowed : User → String → Option String → Outcome Bool
allowed actor state country =
    if state == "global"
    then returned (can_promote_link_global actor)
    else if state == "national"
    then returned (can_promote_link_national actor country)
    else if state == "none" || state == "hidden"
    then returned (can_moderate_link actor country)
    else raise 422 ("Invalid moderation: " <> state)

abbrev pub state_of : Option LinkModeration → String
state_of none = "none"
state_of (some m) = value_of link_moderation_values m

unfoldable pub moderation_for :
    User → String → Option String → Option LinkModeration → Outcome (Option LinkModeration)
moderation_for actor state country current = do
  may ← allowed actor state country
  raise_if (not may) 403
      ("You don't have the authority to set a link " <> state <> " in " <> shown country)
  returned (
      if state == state_of current
      then current
      else if state == "none"
      then none
      else of_value link_moderation_values state)

abbrev pub moderation_of : Option CommunityLink → Option LinkModeration
moderation_of none = none
moderation_of (some prior) = prior.moderation

abbrev pub country_of : Option CommunityLink → Option String
country_of none = none
country_of (some prior) = prior.country

abbrev pub Placed : Type 0
Placed = Option String × Option LinkModeration

abbrev pub place_channel : User → Option String → Option LinkModeration → String → Outcome Placed
place_channel actor none current country = returned (some country, current)
place_channel actor (some state) current country = do
  moderated ← moderation_for actor state (some country) current
  returned (some country, moderated)

abbrev pub is_national : Option LinkModeration → Bool
is_national m = opt_beq m (some LinkModeration.national)

-- The country that a content link lands in.
unfoldable pub lands_in :
    (String → String)
    → User
    → String
    → Option LinkModeration
    → Option String
    → Option String
    → Outcome (Option String)
lands_in upper actor state current pinned_in sits_in =
    if state == "national" && not (is_national current)
    then (do
      raise_if (is_some current && not (can_moderate_link actor sits_in)) 403
          ("Only a moderator in " <> shown sits_in <> " can pin a " <> state_of current <> " link")
      country ← validated_country upper actor.country none
      returned (some country))
    else if state == "national" && not (can_promote_link_national actor pinned_in)
    then raise 403 ("This link is already pinned in " <> shown pinned_in)
    else returned sits_in

abbrev pub place_content :
    (String → String)
    → User
    → Option String
    → Option LinkModeration
    → Option String
    → Option String
    → Outcome Placed
place_content upper actor none current pinned_in owner_country = returned (pinned_in, current)
place_content upper actor (some state) current pinned_in owner_country = do
  country ← lands_in upper actor state current pinned_in (text_or pinned_in owner_country)
  moderated ← moderation_for actor state country current
  returned (if is_national moderated then country else none, moderated)

unfoldable pub placement :
    (String → String)
    → User
    → CommunityLinkType
    → Option String
    → Option String
    → Option CommunityLink
    → User
    → Outcome Placed
placement upper actor kind raw_country state prior owner =
    if is_content kind
    then place_content upper actor state (moderation_of prior)
        (if is_national (moderation_of prior)
          then text_or (country_of prior) owner.country
          else none)
        owner.country
    else validated_country upper raw_country (text_or (country_of prior) owner.country)
      >>= λ country. place_channel actor state (moderation_of prior) country
