-- ===== src/Db/AccessVersion.antt =====
-- The inputs of the entitlement fingerprint: `base_data_level`, `access_inputs` and the query's
-- guard in `compute_access_version` of backend/src/db.py. The hash over them is a library's.
use archon_vibe.Prelude.{
  String, Option, none, some, List, [], ◌∷◌, map, string_eq, member as is_in, filter, given_text,
  if◌then◌else◌,
}
use archon_vibe.Models.Enums.{value_of}
use archon_vibe.Models.Roles.{Role, role_eq, role_values, ic, nc}
use archon_vibe.Models.Users.{User}
use archon_vibe.Broadcast.Data.{DataLevel}

abbrev pub overlay_roles : List Role
overlay_roles = ic ∷ nc ∷ []

unfoldable pub base_data_level : Option User → DataLevel
base_data_level none = DataLevel.public
base_data_level (some viewer) =
    if is_in ic viewer.roles
    then DataLevel.full
    else if given_text viewer.vekn_id
    then DataLevel.member
    else DataLevel.public

pub record AccessInputs : Type 0 where
  pub level : DataLevel
  pub roles : List String
  pub country : Option String

-- The values of the two roles are in order as `_OVERLAY_ROLES` lists them: `sorted` moves neither.
unfoldable pub access_inputs : Option User → AccessInputs
unfolding base_data_level value_of
access_inputs none = record { level = base_data_level none; roles = []; country = none }
access_inputs (some viewer) = record {
  level = base_data_level (some viewer);
  roles = map (value_of role_values) (filter (λ r. is_in r viewer.roles) overlay_roles);
  country = if is_in nc viewer.roles then viewer.country else none;
}
