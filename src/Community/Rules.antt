-- ===== src/Community/Rules.antt =====
-- The checks of backend/src/community_links.py, and its record and link types in
-- backend/src/models.py. Upper-casing a text is a parameter.
use Prim.Native.String.{String}
use Prim.Native.Char.{code}
use archon_vibe.Prelude.{
  ℕ, Bool, true, false, not, ◌&&◌, ◌||◌, Option, none, some, List, [], ◌∷◌, ◌==◌, nat_eq, leb, ltb,
  length, member, given_text, nonempty_text, ◌<>◌, if◌then◌else◌,
}
use archon_vibe.Prelude.Text.{text_length}
use archon_vibe.Prelude.Outcome.{Outcome, returned, raise, raise_if, ◌>>◌}
use archon_vibe.Models.Enums.{of_value, value_of}
use archon_vibe.Models.LinkKinds.{
  CommunityLinkType, community_link_type_eq, community_link_type_values, LinkModeration,
}

pub record CommunityLink : Type 0 where
  pub kind : CommunityLinkType
  pub url : String
  pub label : String
  pub languages : List String
  pub country : Option String
  pub moderation : Option LinkModeration

-- The types that the engine places as content.
abbrev pub content_link_types : List CommunityLinkType
content_link_types =
    CommunityLinkType.website ∷ CommunityLinkType.blog ∷ CommunityLinkType.youtube
    ∷ CommunityLinkType.twitch ∷ CommunityLinkType.spotify ∷ CommunityLinkType.instagram
    ∷ CommunityLinkType.x ∷ CommunityLinkType.bluesky ∷ CommunityLinkType.facebook
    ∷ CommunityLinkType.reddit ∷ CommunityLinkType.other ∷ []

abbrev pub is_content : CommunityLinkType → Bool
is_content t = member t content_link_types

abbrev pub max_languages : ℕ
max_languages = 5

-- `a or b` on optional texts
abbrev pub text_or : Option String → Option String → Option String
text_or a b = if given_text a then a else b

abbrev pub text_of : Option String → String
text_of none = ""
text_of (some s) = s

-- An optional text in a message
abbrev pub shown : Option String → String
shown none = "None"
shown (some s) = s

abbrev type_or_raise : String → Option CommunityLinkType → Outcome CommunityLinkType
type_or_raise raw none = raise 422 ("Invalid link type: " <> raw)
type_or_raise raw (some t) = returned t

unfoldable pub validated_type : String → Outcome CommunityLinkType
validated_type raw = type_or_raise raw (of_value community_link_type_values raw)

abbrev is_upper : ℕ → Bool
is_upper c = leb 65 c && leb c 90

abbrev is_lower : ℕ → Bool
is_lower c = leb 97 c && leb c 122

-- `s.isascii()`, and on such texts whether a letter is upper case, or lower case, or all are letters
unfoldable pub is_ascii : String → Bool
is_ascii String.[] = true
is_ascii (String.◌∷◌ c s) = ltb (code c) 128 && is_ascii s

unfoldable has_upper : String → Bool
has_upper String.[] = false
has_upper (String.◌∷◌ c s) = is_upper (code c) || has_upper s

unfoldable has_lower : String → Bool
has_lower String.[] = false
has_lower (String.◌∷◌ c s) = is_lower (code c) || has_lower s

unfoldable pub only_letters : String → Bool
only_letters String.[] = true
only_letters (String.◌∷◌ c s) = (is_upper (code c) || is_lower (code c)) && only_letters s

unfoldable pub is_language_code : String → Bool
unfolding text_length is_ascii has_upper has_lower
is_language_code s = text_length s == 2 && (is_ascii s && (has_lower s && not (has_upper s)))

unfoldable check_codes : List String → Outcome (Unit {0})
check_codes [] = returned tt
check_codes (l ∷ ls) =
    let rest = check_codes ls in
    if is_language_code l then rest else raise 422 ("Invalid language code: " <> l)

abbrev grandfathered : Option CommunityLink → CommunityLinkType → Bool
grandfathered none t = false
grandfathered (some prior) t = prior.kind == t

abbrev no_languages : List String → Bool
no_languages [] = true
no_languages (l ∷ ls) = false

unfoldable pub validated_languages :
    List String → CommunityLinkType → Option CommunityLink → Outcome (List String)
unfolding check_codes
validated_languages languages kind prior = do
  raise_if (ltb max_languages (length languages)) 422 "Maximum 5 languages per link"
  check_codes languages
  raise_if (is_content kind && (no_languages languages && not (grandfathered prior kind))) 422
      ("A " <> value_of community_link_type_values kind <> " link must declare a language")
  returned languages

unfoldable pub is_country_code : String → Bool
unfolding text_length is_ascii only_letters
is_country_code s = text_length s == 2 && (is_ascii s && only_letters s)

unfoldable pub validated_country :
    (String → String) → Option String → Option String → Outcome String
validated_country upper raw fallback = do
  let country = upper (text_of (text_or raw fallback))
  raise_if (not (nonempty_text country)) 422 "A community link needs a country"
  raise_if (not (is_country_code country)) 422 ("Invalid country: " <> shown raw)
  returned country
