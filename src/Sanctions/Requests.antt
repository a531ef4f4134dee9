-- ===== src/Sanctions/Requests.antt =====
-- The requests that create and change a sanction, and the checks the two share:
-- backend/src/routes/sanctions.py. The reading of an ISO date is a parameter.
use archon_vibe.Prelude.{
  ℕ, String, Bool, false, not, ◌&&◌, ◌||◌, Option, none, some, List, [], ◌∷◌, ◌==◌, nat_eq,
  string_eq, ltb, is_none, length, member, given_text, ◌<>◌, if◌then◌else◌,
}
use archon_vibe.Prelude.Outcome.{Outcome, returned, raise_if, given, ◌>>=◌, ◌>>◌}
use archon_vibe.Models.Enums.{of_value}
use archon_vibe.Models.SanctionKinds.{
  SanctionLevel, sanction_level_eq, sanction_level_values, SanctionCategory,
  sanction_category_values, SanctionSubcategory, sanction_subcategory_eq,
  sanction_subcategory_values,
}
use archon_vibe.Models.TournamentKinds.{PlayerState}
use archon_vibe.Models.Users.{Instant}
use archon_vibe.Models.Tournaments.{Tournament}

pub record CreateSanctionRequest : Type 0 where
  pub user_uid : String
  pub level : String
  pub category : String
  pub subcategory : Option String
  pub round_number : Option ℕ
  pub description : String
  pub expires_at : Option String
  pub tournament_uid : Option String

pub record UpdateSanctionRequest : Type 0 where
  pub level : Option String
  pub category : Option String
  pub subcategory : Option String
  pub round_number : Option ℕ
  pub description : Option String
  pub expires_at : Option String
  pub lifted : Option Bool

-- What a request reflects into the tournament: nothing, its standings, or a player's state with them.
pub data Reflection : Type 0 where
  untouched : Reflection
  standings : Reflection
  player : String → PlayerState → Reflection

abbrev pub level_of : String → Outcome SanctionLevel
level_of text = given (of_value sanction_level_values text) 400 ("Invalid level: " <> text)

abbrev pub category_of : String → Outcome SanctionCategory
category_of text = given (of_value sanction_category_values text) 400 ("Invalid category: " <> text)

-- `SUBCATEGORIES_BY_CATEGORY`, as the engine's reference lists them
abbrev pub subcategories_by_category : SanctionCategory → List SanctionSubcategory
subcategories_by_category SanctionCategory.procedural_error =
    SanctionSubcategory.missed_mandatory_effect ∷ SanctionSubcategory.card_access_error
    ∷ SanctionSubcategory.game_rule_violation ∷ SanctionSubcategory.failure_to_maintain_game_state
    ∷ []
subcategories_by_category SanctionCategory.tournament_error =
    SanctionSubcategory.illegal_decklist ∷ SanctionSubcategory.illegal_main_deck_legal_decklist
    ∷ SanctionSubcategory.illegal_main_deck_no_decklist ∷ SanctionSubcategory.outside_assistance
    ∷ SanctionSubcategory.slow_play ∷ SanctionSubcategory.limited_procedure_violation
    ∷ SanctionSubcategory.public_info_miscommunication ∷ SanctionSubcategory.obscuring_game_state
    ∷ SanctionSubcategory.marked_cards ∷ SanctionSubcategory.insufficient_shuffling ∷ []
subcategories_by_category SanctionCategory.unsportsmanlike_conduct =
    SanctionSubcategory.minor ∷ SanctionSubcategory.major ∷ SanctionSubcategory.aggressive_behaviour
    ∷ SanctionSubcategory.bribery_and_wagering ∷ SanctionSubcategory.theft_of_tournament_material
    ∷ SanctionSubcategory.stalling ∷ SanctionSubcategory.cheating ∷ SanctionSubcategory.fraud
    ∷ SanctionSubcategory.collusion ∷ SanctionSubcategory.health_and_safety_disruption
    ∷ SanctionSubcategory.rage_quitting ∷ SanctionSubcategory.failure_to_play_to_win ∷ []

-- A subcategory is one of its category's.
unfoldable pub subcategory_of : SanctionCategory → String → Outcome SanctionSubcategory
subcategory_of category text = do
  s ← given (of_value sanction_subcategory_values text) 400 ("Invalid subcategory: " <> text)
  raise_if (not (member s (subcategories_by_category category))) 400
      ("Subcategory '" <> text <> "' not valid for its category")
  returned s

-- The number of rounds stands for the finals, once there are finals.
abbrev pub beyond_rounds : ℕ → Option Tournament → Bool
beyond_rounds n none = false
beyond_rounds n (some t) = ltb (length t.rounds) n || (n == length t.rounds && is_none t.finals)

abbrev pub round_beyond : Option ℕ → Option Tournament → Bool
round_beyond none t = false
round_beyond (some n) t = beyond_rounds n t

abbrev pub tournament_at : (String → Option Tournament) → Option String → Option Tournament
tournament_at tournaments none = none
tournament_at tournaments (some uid) = if given_text (some uid) then tournaments uid else none

-- `if data.expires_at`
abbrev pub expiry_of : (String → Option Instant) → Option String → Outcome (Option Instant)
expiry_of parse_date none = returned none
expiry_of parse_date (some text) =
    if given_text (some text)
    then (do
      d ← given (parse_date text) 400 "Invalid expires_at format (expected YYYY-MM-DD)"
      returned (some d))
    else returned none
