-- ===== src/Models/Roles.antt =====
-- `ObjectType` and `Role` of backend/src/models.py.
use archon_vibe.Prelude.{ℕ, String, ◌≡◌, refl, sym, ap, ◌∙◌, List, [], ◌∷◌, Eq}
use archon_vibe.Models.Enums.{eq_by, member_at}

pub data ObjectType : Type 0 where
  user sanction tournament deck league promo : ObjectType

abbrev pub object_type_values : List (ObjectType × String)
object_type_values =
    (ObjectType.user, "user")
    ∷ (ObjectType.sanction, "sanction")
    ∷ (ObjectType.tournament, "tournament")
    ∷ (ObjectType.deck, "deck")
    ∷ (ObjectType.league, "league")
    ∷ (ObjectType.promo, "promo")
    ∷ []

abbrev pub object_type_index : ObjectType → ℕ
object_type_index ObjectType.user = 0
object_type_index ObjectType.sanction = 1
object_type_index ObjectType.tournament = 2
object_type_index ObjectType.deck = 3
object_type_index ObjectType.league = 4
object_type_index ObjectType.promo = 5

object_type_at-index :
    (a : ObjectType) → member_at ObjectType.user object_type_values (object_type_index a) ≡ a
object_type_at-index ObjectType.user = refl
object_type_at-index ObjectType.sanction = refl
object_type_at-index ObjectType.tournament = refl
object_type_at-index ObjectType.deck = refl
object_type_at-index ObjectType.league = refl
object_type_at-index ObjectType.promo = refl

pub object_type_index-injective :
    (a b : ObjectType) → object_type_index a ≡ object_type_index b → a ≡ b
object_type_index-injective a b e =
    sym (object_type_at-index a)
    ∙ ap (member_at ObjectType.user object_type_values) e
    ∙ object_type_at-index b

instance abbrev pub object_type_eq : Eq ObjectType
object_type_eq = eq_by object_type_index object_type_index-injective

pub data Role : Type 0 where
  ic nc prince ethics ptc pt rulemonger judge sheriff dev : Role

abbrev pub role_values : List (Role × String)
role_values =
    (Role.ic, "IC")
    ∷ (Role.nc, "NC")
    ∷ (Role.prince, "Prince")
    ∷ (Role.ethics, "Ethics")
    ∷ (Role.ptc, "PTC")
    ∷ (Role.pt, "PT")
    ∷ (Role.rulemonger, "Rulemonger")
    ∷ (Role.judge, "Judge")
    ∷ (Role.sheriff, "Sheriff")
    ∷ (Role.dev, "DEV")
    ∷ []

abbrev pub role_index : Role → ℕ
role_index Role.ic = 0
role_index Role.nc = 1
role_index Role.prince = 2
role_index Role.ethics = 3
role_index Role.ptc = 4
role_index Role.pt = 5
role_index Role.rulemonger = 6
role_index Role.judge = 7
role_index Role.sheriff = 8
role_index Role.dev = 9

role_at-index : (a : Role) → member_at Role.ic role_values (role_index a) ≡ a
role_at-index Role.ic = refl
role_at-index Role.nc = refl
role_at-index Role.prince = refl
role_at-index Role.ethics = refl
role_at-index Role.ptc = refl
role_at-index Role.pt = refl
role_at-index Role.rulemonger = refl
role_at-index Role.judge = refl
role_at-index Role.sheriff = refl
role_at-index Role.dev = refl

pub role_index-injective : (a b : Role) → role_index a ≡ role_index b → a ≡ b
role_index-injective a b e =
    sym (role_at-index a) ∙ ap (member_at Role.ic role_values) e ∙ role_at-index b

instance abbrev pub role_eq : Eq Role
role_eq = eq_by role_index role_index-injective
