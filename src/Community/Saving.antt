-- ===== src/Community/Saving.antt =====
-- `edit_community_link` of backend/src/routes/users.py, and the links of `update_profile` in
-- backend/src/routes/auth/profile.py.
use Prim.Native.String.{String}
use archon_vibe.Prelude.{
  Bool, true, false, not, ◌&&◌, Option, none, some, List, [], ◌∷◌, ◌==◌, string_eq, opt_beq,
  given_text, is_none, if◌then◌else◌,
}
use archon_vibe.Prelude.Rows.{find, update}
use archon_vibe.Prelude.Outcome.{Outcome, returned, raise_if, given, ◌>>=◌, ◌>>◌}
use archon_vibe.Models.LinkKinds.{CommunityLinkType, community_link_type_eq}
use archon_vibe.Models.Users.{User}
use archon_vibe.Permissions.Checks.{can_moderate_link}
use archon_vibe.Community.Rules.{
  CommunityLink, is_content, text_or, validated_type, validated_languages,
}
use archon_vibe.Community.Placement.{placement, Placed}

pub record LinkEditRequest : Type 0 where
  pub url : String
  pub kind : Option String
  pub label : Option String
  pub languages : Option (List String)
  pub country : Option String
  pub state : Option String

-- `validated_type(request.type) if request.type else prior.type`
abbrev pub kind_of : Option String → CommunityLinkType → Outcome CommunityLinkType
kind_of none prior = returned prior
kind_of (some raw) prior = if given_text (some raw) then validated_type raw else returned prior

abbrev pub or_else : {A : Type 0} → Option A → A → A
or_else none a = a
or_else (some b) a = b

-- `xs == ys` on texts
unfoldable pub same_texts : List String → List String → Bool
same_texts [] [] = true
same_texts [] (y ∷ ys) = false
same_texts (x ∷ xs) [] = false
same_texts (x ∷ xs) (y ∷ ys) = x == y && same_texts xs ys

-- The two links differ at most in country and moderation.
abbrev pub same_content : CommunityLink → CommunityLink → Bool
same_content a b =
    a.kind == b.kind
    && (a.url == b.url && (a.label == b.label && same_texts a.languages b.languages))

abbrev pub curates : User → CommunityLink → User → Bool
curates actor prior target = can_moderate_link actor (text_or prior.country target.country)

abbrev pub pins_content : CommunityLink → Option String → Bool
pins_content prior state =
    is_content prior.kind && (is_none prior.moderation && opt_beq state (some "national"))

-- The link as edited, before the last checks.
abbrev pub edited_link :
    LinkEditRequest → CommunityLink → CommunityLinkType → List String → Placed → CommunityLink
edited_link request prior kind languages (country, moderation) = record prior {
  kind = kind;
  label = or_else request.label prior.label;
  languages = languages;
  country = country;
  moderation = moderation;
}

-- The last checks on an edit.
unfoldable pub accept_edit :
    User
    → User
    → LinkEditRequest
    → CommunityLink
    → CommunityLinkType
    → List String
    → Placed
    → Outcome CommunityLink
accept_edit actor target request prior kind languages placed = do
  raise_if
      (given_text placed.0
        && (not (opt_beq placed.0 prior.country) && not (can_moderate_link actor placed.0)))
      403 "Can only move a link into your own country"
  raise_if
      (not (curates actor prior target)
        && not (same_content (edited_link request prior kind languages placed) prior))
      403 "You can only pin this link into your country"
  returned (edited_link request prior kind languages placed)

unfoldable pub edit_link :
    (String → String) → User → User → LinkEditRequest → CommunityLink → Outcome CommunityLink
edit_link upper actor target request prior = do
  raise_if (not (curates actor prior target) && not (pins_content prior request.state)) 403
      "Can only moderate links in your country"
  kind ← kind_of request.kind prior.kind
  languages ← validated_languages (or_else request.languages prior.languages) kind (some prior)
  placed ← placement upper actor kind request.country request.state (some prior) target
  accept_edit actor target request prior kind languages placed

-- The target's links after the edit.
unfoldable pub edit_community_link :
    (String → String)
    → User
    → Option User
    → List CommunityLink
    → LinkEditRequest
    → Outcome (List CommunityLink)
edit_community_link upper actor target links request = do
  owner ← given target 404 "User not found"
  prior ← given (find (λ l. l.url == request.url) links) 404 "Link not found on target user"
  edited ← edit_link upper actor owner request prior
  returned (update (λ l. l.url == request.url) (λ l. edited) links)
