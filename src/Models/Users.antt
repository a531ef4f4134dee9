-- ===== src/Models/Users.antt =====
-- Members, tournaments and leagues as backend/src/models.py declares them, with the fields that the
-- modelled code reads. An instant is a number of microseconds.
use archon_vibe.Prelude.{ℕ, String, Bool, Option, List}
use archon_vibe.Prelude.Int.{ℤ}
use archon_vibe.Prelude.Dict.{Dict}
use archon_vibe.Models.Roles.{Role}

abbrev pub Instant : Type 0
Instant = ℕ

-- Victory points are counted in halves.
pub record TournamentRatingEntry : Type 0 where
  pub tournament_uid : String
  pub tournament_name : String
  pub date : String
  pub player_count : ℕ
  pub rank : String
  pub vp : ℕ
  pub gw : ℕ
  pub finalist_position : ℕ
  pub points : ℕ
  pub position : ℕ

pub record CategoryRating : Type 0 where
  pub total : ℕ
  pub tournaments : List TournamentRatingEntry

pub record User : Type 0 where
  pub uid : String
  pub modified : Instant
  pub deleted_at : Option Instant
  pub anonymized_at : Option Instant
  pub name : String
  pub country : Option String
  pub vekn_id : Option String
  pub roles : List Role
  pub contact_email : Option String
  pub contact_phone : Option String
  pub discord_id : Option String
  pub promo_stock : Dict String ℤ
  pub wins : List String

pub record League : Type 0 where
  pub country : Option String
  pub organizers_uids : List String
  pub open_to_country_princes : Bool
