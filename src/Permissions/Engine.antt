-- ===== src/Permissions/Engine.antt =====
-- The evaluator of engine/src/permissions.rs and its resolvers.
pub mod Sanctions
use archon_vibe.Prelude.{
  String, Bool, true, false, not, ◌&&◌, ◌||◌, Option, none, some, List, [], ◌∷◌, map, any, filter,
  member, Eq, ◌==◌, string_eq, opt_beq, is_some, is_none, given_text, ◌<>◌, if◌then◌else◌,
}
use archon_vibe.Models.Roles.{Role, role_eq, role_values, ic, nc, prince, pt}
use archon_vibe.Models.Enums.{value_of}
use archon_vibe.Permissions.Capability.{
  Capability, capability_eq, organize_tournament, sponsor_member, edit_league,
}
use archon_vibe.Permissions.Matrix.{
  Rule, capabilities, Appointment, role_appointments, official_roles,
}

pub record UserContext : Type 0 where
  pub roles : List Role
  pub country : Option String
  pub vekn_id : Option String
  pub has_nda : Bool

abbrev pub has_role : UserContext → Role → Bool
has_role u r = member r u.roles

abbrev pub has_any : UserContext → List Role → Bool
has_any u rs = any (has_role u) rs

pub record PermissionResult : Type 0 where
  pub allowed : Bool
  pub reason : Option String

abbrev pub allow : PermissionResult
allow = record { allowed = true; reason = none }

abbrev pub deny : String → PermissionResult
deny why = record { allowed = false; reason = some why }

pub record OwnedResource : Type 0 where
  pub country : Option String
  pub organizers_uids : List String
  pub open_to_country_princes : Bool

abbrev pub has_organizer : OwnedResource → String → Bool
has_organizer r uid = member uid r.organizers_uids

pub record Request : Type 0 where
  pub actor : UserContext
  pub actor_uid : String
  pub target_uid : Option String
  pub target_country : Option String
  pub resource : Option OwnedResource

-- `Request::new`
abbrev pub request : UserContext → String → Request
request actor uid = record {
  actor = actor;
  actor_uid = uid;
  target_uid = none;
  target_country = none;
  resource = none;
}

abbrev pub same_known_country : Option String → Option String → Bool
same_known_country a b = is_some a && opt_beq a b

abbrev pub in_own_country : Request → Bool
in_own_country r = same_known_country r.actor.country r.target_country

-- The row of a capability; `capabilities` has one for each, so that the rest is not reached.
unfoldable pub find_rule : Capability → List Rule → Option Rule
find_rule c [] = none
find_rule c (r ∷ rs) = if r.capability == c then some r else find_rule c rs

-- `Capability::from_str`
unfoldable pub capability_named : String → List Rule → Option Capability
capability_named s [] = none
capability_named s (r ∷ rs) = if r.name == s then some r.capability else capability_named s rs

abbrev pub organizes : Option OwnedResource → String → Bool
organizes none uid = false
organizes (some r) uid = has_organizer r uid

-- `check`, at the row of the capability.
unfoldable pub check_rule : Rule → Request → PermissionResult
check_rule rule req =
    if rule.self_service && opt_beq req.target_uid (some req.actor_uid)
    then allow
    else if has_any req.actor rule.global
    then allow
    else if has_any req.actor rule.same_country
        && (in_own_country req || (rule.countryless_target && is_none req.target_country))
    then allow
    else if has_any req.actor rule.same_country && is_some rule.deny_scope
    then record { allowed = false; reason = rule.deny_scope }
    else if rule.organizer && organizes req.resource req.actor_uid
    then allow
    else deny rule.deny

-- `rule_for` panics on a capability with no row; every capability has one.
unfoldable pub check_found : Option Rule → Request → PermissionResult
check_found none req = deny "every Capability has a CAPABILITIES row (asserted by test)"
check_found (some rule) req = check_rule rule req

unfoldable pub check : Capability → Request → PermissionResult
unfolding check_found find_rule check_rule
check c req = check_found (find_rule c capabilities) req

abbrev pub allows : Capability → Request → Bool
allows c req = (check c req).allowed

unfoldable pub unconditional_capabilities : UserContext → List String
unconditional_capabilities actor =
    map (λ (r : Rule). r.name) (filter (λ r. has_any actor r.global) capabilities)

unfoldable pub find_appointment : Role → List Appointment → Option Appointment
find_appointment r [] = none
find_appointment r (a ∷ rest) = if a.role == r then some a else find_appointment r rest

-- `Role::as_str`
role_text : Role → String
unfolding value_of
role_text = value_of role_values

change_role_by : Option Appointment → Role → UserContext → UserContext → PermissionResult
change_role_by none role actor target =
    deny "every Role has a ROLE_APPOINTMENTS row (asserted by test)"
change_role_by (some a) role actor target =
    if has_any actor a.global
    then allow
    else if has_any actor a.same_country && same_known_country actor.country target.country
    then allow
    else if has_any actor a.same_country
    then deny ("You can only change the " <> (role_text role <> " role in your own country"))
    else deny ("You don't have permission to change the " <> (role_text role <> " role"))

unfoldable pub can_change_role : UserContext → UserContext → Role → PermissionResult
unfolding find_appointment change_role_by role_text
can_change_role actor target role =
    if is_none target.vekn_id
    then deny "User must have a VEKN ID to be assigned roles"
    else if role == pt && not (has_role target pt) && not target.has_nda
    then deny "A signed NDA must be on record to grant the PT role"
    else change_role_by (find_appointment role role_appointments) role actor target

-- `OFFICIAL_ROLES_BY_AUTHORITY`, highest first.
highest_official : UserContext → Option Role
highest_official u =
    if has_role u ic
    then some ic
    else if has_role u nc
    then some nc
    else if has_role u prince
    then some prince
    else none

unfoldable pub can_change_country : UserContext → UserContext → PermissionResult
unfolding highest_official can_change_role
can_change_country actor target = elim (highest_official target) [
  | none ↦ allow
  | some highest ↦ can_change_role actor target highest
]

abbrev pub is_official : UserContext → Bool
is_official u = has_any u official_roles

abbrev pub over : OwnedResource → UserContext → String → Request
over r actor uid = record (request actor uid) { target_country = r.country; resource = some r }

unfoldable pub can_take_tournament_offline : UserContext → String → OwnedResource → PermissionResult
can_take_tournament_offline actor uid tournament =
    let organizes = check organize_tournament (over tournament actor uid) in
    if organizes.allowed then check sponsor_member (request actor uid) else organizes

unfoldable pub can_link_tournament_to_league :
    UserContext → String → OwnedResource → PermissionResult
can_link_tournament_to_league actor uid league =
    if allows edit_league (over league actor uid)
    then allow
    else if league.open_to_country_princes
        && (has_role actor prince && same_known_country actor.country league.country)
    then allow
    else deny "You don't have permission to attach tournaments to this league"

-- Contact publishing.
abbrev pub contact_publishing_roles : List Role
contact_publishing_roles = nc ∷ prince ∷ []

pub record ContactContext : Type 0 where
  pub context : UserContext
  pub contact_email : Option String
  pub contact_phone : Option String
  pub discord_id : Option String

-- Whether `contact_channels` lists anything.
abbrev pub has_channel : ContactContext → Bool
has_channel c = given_text c.contact_email || given_text c.contact_phone || given_text c.discord_id

unfoldable pub breaks_contact_floor : ContactContext → ContactContext → Bool
breaks_contact_floor before after =
    has_any after.context contact_publishing_roles
    && (has_channel before && not (has_channel after))
