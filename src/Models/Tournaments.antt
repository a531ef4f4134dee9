-- ===== src/Models/Tournaments.antt =====
-- The tournament records of backend/src/models.py, with the fields that the modelled code reads.
-- Victory points are counted in halves (the program gives half points only).
use archon_vibe.Prelude.{ℕ, String, Bool, true, Option, none, List}
use archon_vibe.Prelude.Dict.{Dict}
use archon_vibe.Models.TournamentKinds.{TournamentState, PlayerState, TableState, TournamentFormat}
use archon_vibe.Models.SanctionKinds.{SanctionLevel, SanctionCategory, SanctionSubcategory}
use archon_vibe.Models.Users.{Instant}

-- A float, as the number whose binary form is that of the IEEE 754 double: 0 is 0.0.
abbrev pub Float : Type 0
Float = ℕ

pub record TimerState : Type 0 where
  pub started_at : Option Instant
  pub elapsed_before_pause : Float
  pub paused : Bool

-- `TimerState()`
abbrev pub fresh_timer : TimerState
fresh_timer = record { started_at = none; elapsed_before_pause = 0; paused = true }

pub record Announcement : Type 0 where
  pub id : String
  pub body : String
  pub created_at : Instant
  pub author_uid : String
  pub author_name : String

pub record Score : Type 0 where
  pub gw : ℕ
  pub vp : ℕ
  pub tp : ℕ

pub data PaymentStatus : Type 0 where
  pending paid refunded cancelled : PaymentStatus

pub record Player : Type 0 where
  pub user_uid : Option String
  pub state : PlayerState
  pub payment_status : PaymentStatus
  pub toss : ℕ
  pub result : Score
  pub finalist : Bool
  pub display_name : Option String
  pub non_competing : Bool
  pub missing_decklist : Bool
  pub waitlisted : Bool

pub record Seat : Type 0 where
  pub player_uid : String
  pub result : Score
  pub judge_uid : String

pub record ScoreOverride : Type 0 where
  pub judge_uid : String
  pub comment : String

pub record Table : Type 0 where
  pub seating : List Seat
  pub state : TableState
  pub override : Option ScoreOverride
  pub organized_by : Option String

pub record Standing : Type 0 where
  pub user_uid : String
  pub gw : ℕ
  pub vp : ℕ
  pub tp : ℕ
  pub toss : ℕ
  pub finalist : Bool
  pub disqualified : Bool
  pub non_competing : Bool
  pub withdrawn : Bool

pub record Tournament : Type 0 where
  pub uid : String
  pub modified : Instant
  pub state : TournamentState
  pub format : TournamentFormat
  pub online : Bool
  pub country : Option String
  pub organizers_uids : List String
  pub players : List Player
  pub rounds : List (List Table)
  pub finals : Option Table
  pub winner : String
  pub standings : List Standing
  pub timer : TimerState
  pub table_extra_time : Dict String ℕ
  pub announcements : List Announcement
  pub offline_mode : Bool
  pub vekn_pushed_at : Option Instant
  pub vekn_results_stale : Bool

pub record Sanction : Type 0 where
  pub uid : String
  pub modified : Instant
  pub deleted_at : Option Instant
  pub user_uid : String
  pub issued_by_uid : String
  pub tournament_uid : Option String
  pub level : SanctionLevel
  pub category : SanctionCategory
  pub subcategory : Option SanctionSubcategory
  pub round_number : Option ℕ
  pub description : String
  pub issued_at : Instant
  pub expires_at : Option Instant
  pub lifted_at : Option Instant
  pub lifted_by_uid : Option String
