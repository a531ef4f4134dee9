-- ===== src/Models/SanctionKinds.antt =====
-- The sanction enumerations of backend/src/models.py.
use archon_vibe.Prelude.{ℕ, String, ◌≡◌, refl, sym, ap, ◌∙◌, List, [], ◌∷◌, Eq}
use archon_vibe.Models.Enums.{eq_by, member_at}

pub data SanctionLevel : Type 0 where
  caution warning standings_adjustment disqualification suspension : SanctionLevel
  probation : SanctionLevel

abbrev pub sanction_level_values : List (SanctionLevel × String)
sanction_level_values =
    (SanctionLevel.caution, "caution")
    ∷ (SanctionLevel.warning, "warning")
    ∷ (SanctionLevel.standings_adjustment, "standings_adjustment")
    ∷ (SanctionLevel.disqualification, "disqualification")
    ∷ (SanctionLevel.suspension, "suspension")
    ∷ (SanctionLevel.probation, "probation")
    ∷ []

abbrev pub sanction_level_index : SanctionLevel → ℕ
sanction_level_index SanctionLevel.caution = 0
sanction_level_index SanctionLevel.warning = 1
sanction_level_index SanctionLevel.standings_adjustment = 2
sanction_level_index SanctionLevel.disqualification = 3
sanction_level_index SanctionLevel.suspension = 4
sanction_level_index SanctionLevel.probation = 5

sanction_level_at-index :
    (a : SanctionLevel)
    → member_at SanctionLevel.caution sanction_level_values (sanction_level_index a) ≡ a
sanction_level_at-index SanctionLevel.caution = refl
sanction_level_at-index SanctionLevel.warning = refl
sanction_level_at-index SanctionLevel.standings_adjustment = refl
sanction_level_at-index SanctionLevel.disqualification = refl
sanction_level_at-index SanctionLevel.suspension = refl
sanction_level_at-index SanctionLevel.probation = refl

pub sanction_level_index-injective :
    (a b : SanctionLevel) → sanction_level_index a ≡ sanction_level_index b → a ≡ b
sanction_level_index-injective a b e =
    sym (sanction_level_at-index a)
    ∙ ap (member_at SanctionLevel.caution sanction_level_values) e
    ∙ sanction_level_at-index b

instance abbrev pub sanction_level_eq : Eq SanctionLevel
sanction_level_eq = eq_by sanction_level_index sanction_level_index-injective

pub data SanctionCategory : Type 0 where
  procedural_error tournament_error unsportsmanlike_conduct : SanctionCategory

abbrev pub sanction_category_values : List (SanctionCategory × String)
sanction_category_values =
    (SanctionCategory.procedural_error, "procedural_error")
    ∷ (SanctionCategory.tournament_error, "tournament_error")
    ∷ (SanctionCategory.unsportsmanlike_conduct, "unsportsmanlike_conduct")
    ∷ []

abbrev pub sanction_category_index : SanctionCategory → ℕ
sanction_category_index SanctionCategory.procedural_error = 0
sanction_category_index SanctionCategory.tournament_error = 1
sanction_category_index SanctionCategory.unsportsmanlike_conduct = 2

sanction_category_at-index :
    (a : SanctionCategory)
    → member_at SanctionCategory.procedural_error sanction_category_values
        (sanction_category_index a)
      ≡ a
sanction_category_at-index SanctionCategory.procedural_error = refl
sanction_category_at-index SanctionCategory.tournament_error = refl
sanction_category_at-index SanctionCategory.unsportsmanlike_conduct = refl

pub sanction_category_index-injective :
    (a b : SanctionCategory) → sanction_category_index a ≡ sanction_category_index b → a ≡ b
sanction_category_index-injective a b e =
    sym (sanction_category_at-index a)
    ∙ ap (member_at SanctionCategory.procedural_error sanction_category_values) e
    ∙ sanction_category_at-index b

instance abbrev pub sanction_category_eq : Eq SanctionCategory
sanction_category_eq = eq_by sanction_category_index sanction_category_index-injective

pub data SanctionSubcategory : Type 0 where
  missed_mandatory_effect card_access_error game_rule_violation : SanctionSubcategory
  failure_to_maintain_game_state illegal_decklist : SanctionSubcategory
  illegal_main_deck_legal_decklist illegal_main_deck_no_decklist : SanctionSubcategory
  outside_assistance slow_play limited_procedure_violation : SanctionSubcategory
  public_info_miscommunication obscuring_game_state marked_cards : SanctionSubcategory
  insufficient_shuffling minor major aggressive_behaviour : SanctionSubcategory
  bribery_and_wagering theft_of_tournament_material stalling cheating : SanctionSubcategory
  fraud collusion health_and_safety_disruption rage_quitting : SanctionSubcategory
  failure_to_play_to_win : SanctionSubcategory

abbrev pub sanction_subcategory_values : List (SanctionSubcategory × String)
sanction_subcategory_values =
    (SanctionSubcategory.missed_mandatory_effect, "missed_mandatory_effect")
    ∷ (SanctionSubcategory.card_access_error, "card_access_error")
    ∷ (SanctionSubcategory.game_rule_violation, "game_rule_violation")
    ∷ (SanctionSubcategory.failure_to_maintain_game_state, "failure_to_maintain_game_state")
    ∷ (SanctionSubcategory.illegal_decklist, "illegal_decklist")
    ∷ (SanctionSubcategory.illegal_main_deck_legal_decklist, "illegal_main_deck_legal_decklist")
    ∷ (SanctionSubcategory.illegal_main_deck_no_decklist, "illegal_main_deck_no_decklist")
    ∷ (SanctionSubcategory.outside_assistance, "outside_assistance")
    ∷ (SanctionSubcategory.slow_play, "slow_play")
    ∷ (SanctionSubcategory.limited_procedure_violation, "limited_procedure_violation")
    ∷ (SanctionSubcategory.public_info_miscommunication, "public_info_miscommunication")
    ∷ (SanctionSubcategory.obscuring_game_state, "obscuring_game_state")
    ∷ (SanctionSubcategory.marked_cards, "marked_cards")
    ∷ (SanctionSubcategory.insufficient_shuffling, "insufficient_shuffling")
    ∷ (SanctionSubcategory.minor, "minor")
    ∷ (SanctionSubcategory.major, "major")
    ∷ (SanctionSubcategory.aggressive_behaviour, "aggressive_behaviour")
    ∷ (SanctionSubcategory.bribery_and_wagering, "bribery_and_wagering")
    ∷ (SanctionSubcategory.theft_of_tournament_material, "theft_of_tournament_material")
    ∷ (SanctionSubcategory.stalling, "stalling")
    ∷ (SanctionSubcategory.cheating, "cheating")
    ∷ (SanctionSubcategory.fraud, "fraud")
    ∷ (SanctionSubcategory.collusion, "collusion")
    ∷ (SanctionSubcategory.health_and_safety_disruption, "health_and_safety_disruption")
    ∷ (SanctionSubcategory.rage_quitting, "rage_quitting")
    ∷ (SanctionSubcategory.failure_to_play_to_win, "failure_to_play_to_win")
    ∷ []

abbrev pub sanction_subcategory_index : SanctionSubcategory → ℕ
sanction_subcategory_index SanctionSubcategory.missed_mandatory_effect = 0
sanction_subcategory_index SanctionSubcategory.card_access_error = 1
sanction_subcategory_index SanctionSubcategory.game_rule_violation = 2
sanction_subcategory_index SanctionSubcategory.failure_to_maintain_game_state = 3
sanction_subcategory_index SanctionSubcategory.illegal_decklist = 4
sanction_subcategory_index SanctionSubcategory.illegal_main_deck_legal_decklist = 5
sanction_subcategory_index SanctionSubcategory.illegal_main_deck_no_decklist = 6
sanction_subcategory_index SanctionSubcategory.outside_assistance = 7
sanction_subcategory_index SanctionSubcategory.slow_play = 8
sanction_subcategory_index SanctionSubcategory.limited_procedure_violation = 9
sanction_subcategory_index SanctionSubcategory.public_info_miscommunication = 10
sanction_subcategory_index SanctionSubcategory.obscuring_game_state = 11
sanction_subcategory_index SanctionSubcategory.marked_cards = 12
sanction_subcategory_index SanctionSubcategory.insufficient_shuffling = 13
sanction_subcategory_index SanctionSubcategory.minor = 14
sanction_subcategory_index SanctionSubcategory.major = 15
sanction_subcategory_index SanctionSubcategory.aggressive_behaviour = 16
sanction_subcategory_index SanctionSubcategory.bribery_and_wagering = 17
sanction_subcategory_index SanctionSubcategory.theft_of_tournament_material = 18
sanction_subcategory_index SanctionSubcategory.stalling = 19
sanction_subcategory_index SanctionSubcategory.cheating = 20
sanction_subcategory_index SanctionSubcategory.fraud = 21
sanction_subcategory_index SanctionSubcategory.collusion = 22
sanction_subcategory_index SanctionSubcategory.health_and_safety_disruption = 23
sanction_subcategory_index SanctionSubcategory.rage_quitting = 24
sanction_subcategory_index SanctionSubcategory.failure_to_play_to_win = 25

sanction_subcategory_at-index :
    (a : SanctionSubcategory)
    → member_at SanctionSubcategory.missed_mandatory_effect sanction_subcategory_values
        (sanction_subcategory_index a)
      ≡ a
sanction_subcategory_at-index SanctionSubcategory.missed_mandatory_effect = refl
sanction_subcategory_at-index SanctionSubcategory.card_access_error = refl
sanction_subcategory_at-index SanctionSubcategory.game_rule_violation = refl
sanction_subcategory_at-index SanctionSubcategory.failure_to_maintain_game_state = refl
sanction_subcategory_at-index SanctionSubcategory.illegal_decklist = refl
sanction_subcategory_at-index SanctionSubcategory.illegal_main_deck_legal_decklist = refl
sanction_subcategory_at-index SanctionSubcategory.illegal_main_deck_no_decklist = refl
sanction_subcategory_at-index SanctionSubcategory.outside_assistance = refl
sanction_subcategory_at-index SanctionSubcategory.slow_play = refl
sanction_subcategory_at-index SanctionSubcategory.limited_procedure_violation = refl
sanction_subcategory_at-index SanctionSubcategory.public_info_miscommunication = refl
sanction_subcategory_at-index SanctionSubcategory.obscuring_game_state = refl
sanction_subcategory_at-index SanctionSubcategory.marked_cards = refl
sanction_subcategory_at-index SanctionSubcategory.insufficient_shuffling = refl
sanction_subcategory_at-index SanctionSubcategory.minor = refl
sanction_subcategory_at-index SanctionSubcategory.major = refl
sanction_subcategory_at-index SanctionSubcategory.aggressive_behaviour = refl
sanction_subcategory_at-index SanctionSubcategory.bribery_and_wagering = refl
sanction_subcategory_at-index SanctionSubcategory.theft_of_tournament_material = refl
sanction_subcategory_at-index SanctionSubcategory.stalling = refl
sanction_subcategory_at-index SanctionSubcategory.cheating = refl
sanction_subcategory_at-index SanctionSubcategory.fraud = refl
sanction_subcategory_at-index SanctionSubcategory.collusion = refl
sanction_subcategory_at-index SanctionSubcategory.health_and_safety_disruption = refl
sanction_subcategory_at-index SanctionSubcategory.rage_quitting = refl
sanction_subcategory_at-index SanctionSubcategory.failure_to_play_to_win = refl

pub sanction_subcategory_index-injective :
    (a b : SanctionSubcategory)
    → sanction_subcategory_index a ≡ sanction_subcategory_index b
    → a ≡ b
sanction_subcategory_index-injective a b e =
    sym (sanction_subcategory_at-index a)
    ∙ ap (member_at SanctionSubcategory.missed_mandatory_effect sanction_subcategory_values) e
    ∙ sanction_subcategory_at-index b

instance abbrev pub sanction_subcategory_eq : Eq SanctionSubcategory
sanction_subcategory_eq = eq_by sanction_subcategory_index sanction_subcategory_index-injective
