-- ===== src/Tests/Community.antt =====
-- A prince pins a blog of another country's member.
use archon_vibe.Prelude.{String, ◌≡◌, refl, true, none, some, [], ◌∷◌}
use archon_vibe.Prelude.Outcome.{returned}
use archon_vibe.Models.LinkKinds.{CommunityLinkType, LinkModeration}
use archon_vibe.Models.Roles.{Role}
use archon_vibe.Models.Users.{User}
use archon_vibe.Permissions.Checks.{can_promote_link_national, check, user_to_context}
use archon_vibe.Permissions.Engine
use archon_vibe.Community.Rules.{
  CommunityLink, is_content, validated_languages, validated_country, is_language_code,
  is_country_code,
}
use archon_vibe.Community.Placement.{placement, lands_in, moderation_for}
use archon_vibe.Community.Saving.{LinkEditRequest, edit_link, accept_edit, same_content, same_texts}
use archon_vibe.Community.Pins.{edit_link-pins}
use archon_vibe.Tests.Data.{bob, dan}

abbrev coordinator : User
coordinator = record dan { roles = Role.nc ∷ []; country = some "FR" }

abbrev italian : User
italian = record bob { country = some "IT" }

abbrev blog : CommunityLink
blog = record {
  kind = CommunityLinkType.blog;
  url = "https://blog";
  label = "Blog";
  languages = "it" ∷ [];
  country = none;
  moderation = none;
}

abbrev pin : LinkEditRequest
pin = record {
  url = "https://blog";
  kind = none;
  label = none;
  languages = none;
  country = none;
  state = some "national";
}

abbrev pinned_blog : CommunityLink
pinned_blog = record blog { country = some "FR"; moderation = some LinkModeration.national }

abbrev same : String → String
same s = s

pin_works : edit_link same coordinator italian pin blog ≡ returned pinned_blog
unfolding edit_link check Engine.check user_to_context validated_languages is_language_code
    placement lands_in validated_country is_country_code moderation_for accept_edit same_texts
pin_works = refl

edit_link-pins_example :
    (blog.moderation ≡ none)
    × (is_content blog.kind ≡ true)
    × (pinned_blog.moderation ≡ some LinkModeration.national)
    × (can_promote_link_national coordinator pinned_blog.country ≡ true)
    × (same_content pinned_blog blog ≡ true)
unfolding check Engine.check user_to_context
edit_link-pins_example = edit_link-pins same coordinator italian pin blog pinned_blog refl pin_works
