-- ===== src/AccessLevels/Users.antt =====
-- The projections of a member, with the cloak over published contact details.
use Prim.Native.String.{String}
use text.Mathlib.Text.{starts_with}
use archon_vibe.Prelude.{
  Bool, not, Option, none, some, List, [], ◌∷◌, ◌++◌, any, member, string_eq, nonempty_text,
  if◌then◌else◌, ◌<>◌,
}
use archon_vibe.Prelude.Text.{utf8, b64encode}
use archon_vibe.Json.{Json, Fields, get, put, pick, without, has, texts, texts_at}
use archon_vibe.Permissions.Checks.{publishes_contact}

abbrev pub obfuscated_prefix : String
obfuscated_prefix = "#b64#"

unfoldable pub obfuscate : String → String
unfolding utf8 b64encode
obfuscate value =
    if starts_with value obfuscated_prefix
    then value
    else obfuscated_prefix <> b64encode (utf8 value)

-- One round of the loop over `_PUBLIC_OBFUSCATED_FIELDS`, on `proj.get(f)`.
unfoldable pub cloak : Option Json → String → Fields → Fields
unfolding obfuscate
cloak (some (Json.str value)) f proj =
    if nonempty_text value then put f (Json.str (obfuscate value)) proj else proj
cloak _ f proj = proj

abbrev pub obfuscate_field : String → Fields → Fields
obfuscate_field f proj = cloak (get f proj) f proj

unfoldable pub obfuscate_public_contacts : Fields → Fields
unfolding cloak
obfuscate_public_contacts proj =
    obfuscate_field "contact_phone" (obfuscate_field "contact_email" proj)

abbrev pub user_public_fields : List String
user_public_fields =
    "uid" ∷ "modified" ∷ "deleted_at" ∷ "name" ∷ "country" ∷ "roles" ∷ "vekn_prefix" ∷ []

abbrev pub user_contact_fields : List String
user_contact_fields =
    "contact_email" ∷ "contact_discord" ∷ "discord_id" ∷ "contact_phone" ∷ "phone_is_whatsapp" ∷ []

abbrev pub user_community_links : List String
user_community_links = "community_links" ∷ []

abbrev pub user_links_only_fields : List String
user_links_only_fields =
    "uid" ∷ "modified" ∷ "deleted_at" ∷ "country" ∷ "roles" ∷ "community_links" ∷ []

abbrev rating_fields : List String
rating_fields =
    "constructed_online" ∷ "constructed_offline" ∷ "limited_online" ∷ "limited_offline" ∷ "wins"
    ∷ []

abbrev pub user_member_fields : List String
user_member_fields =
    user_public_fields
    ++ ("vekn_id" ∷ "city" ∷ "city_geoname_id" ∷ "state" ∷ "nickname" ∷ "avatar_path" ∷ [])
    ++ ("deceased_at" ∷ "anonymized_at" ∷ [])
    ++ ("discord_id" ∷ [])
    ++ rating_fields

abbrev pub user_api_city_fields : List String
user_api_city_fields = "city" ∷ "city_geoname_id" ∷ []

abbrev pub user_api_fields : List String
user_api_fields =
    ("uid" ∷ "vekn_id" ∷ "country" ∷ "roles" ∷ "community_links" ∷ [])
    ++ rating_fields
    ++ user_api_city_fields

-- `USER_API_FIELDS - _USER_API_CITY_FIELDS`
abbrev pub user_api_cityless_fields : List String
user_api_cityless_fields =
    ("uid" ∷ "vekn_id" ∷ "country" ∷ "roles" ∷ "community_links" ∷ []) ++ rating_fields

abbrev pub user_api_city_roles : List String
user_api_city_roles = "IC" ∷ "NC" ∷ "Prince" ∷ "Rulemonger" ∷ "Judge" ∷ "Sheriff" ∷ []

-- The ladder of `compute_user_public`, over its three tests.
unfoldable pub public_by : Bool → Bool → Bool → Fields → Option Fields
unfolding obfuscate_public_contacts pick
public_by publishes ic links d =
    if publishes
    then some (
        obfuscate_public_contacts
          (pick (user_public_fields ++ user_contact_fields ++ user_community_links) d))
    else if ic
    then some (pick (user_public_fields ++ user_community_links) d)
    else if links
    then some (pick user_links_only_fields d)
    else none

unfoldable pub compute_user_public : Fields → Option Fields
unfolding public_by publishes_contact get texts
compute_user_public d =
    let roles = texts_at "roles" d in
    public_by (publishes_contact roles) (member "IC" roles) (has "community_links" d) d

-- The ladder of `compute_user_member`, over the same tests.
unfoldable pub member_by : Bool → Bool → Bool → Fields → Fields
unfolding pick
member_by publishes ic links d =
    if publishes
    then pick (user_member_fields ++ user_contact_fields ++ user_community_links) d
    else if ic
    then pick (user_member_fields ++ user_community_links) d
    else if links
    then pick (user_member_fields ++ user_community_links) d
    else pick user_member_fields d

unfoldable pub compute_user_member : Fields → Fields
unfolding member_by publishes_contact get texts
compute_user_member d =
    let roles = texts_at "roles" d in
    member_by (publishes_contact roles) (member "IC" roles) (has "community_links" d) d

unfoldable pub compute_user_api : Fields → Option Fields
unfolding get texts pick
compute_user_api d =
    if not (has "vekn_id" d)
    then none
    else if not (any (λ r. member r (texts_at "roles" d)) user_api_city_roles)
    then some (pick user_api_cityless_fields d)
    else some (pick user_api_fields d)

abbrev pub user_owner_only_fields : List String
user_owner_only_fields = "calendar_token" ∷ "agenda_hidden" ∷ "agenda_added" ∷ []

unfoldable pub compute_user_full : Fields → Fields
unfolding without
compute_user_full d = without user_owner_only_fields d
