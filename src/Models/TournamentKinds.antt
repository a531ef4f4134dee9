-- ===== src/Models/TournamentKinds.antt =====
-- The tournament and rating enumerations of backend/src/models.py.
use archon_vibe.Prelude.{ℕ, String, ◌≡◌, refl, sym, ap, ◌∙◌, List, [], ◌∷◌, Eq}
use archon_vibe.Models.Enums.{eq_by, member_at}

pub data TournamentState : Type 0 where
  planned registration waiting playing finished : TournamentState

abbrev pub tournament_state_values : List (TournamentState × String)
tournament_state_values =
    (TournamentState.planned, "Planned")
    ∷ (TournamentState.registration, "Registration")
    ∷ (TournamentState.waiting, "Waiting")
    ∷ (TournamentState.playing, "Playing")
    ∷ (TournamentState.finished, "Finished")
    ∷ []

abbrev pub tournament_state_index : TournamentState → ℕ
tournament_state_index TournamentState.planned = 0
tournament_state_index TournamentState.registration = 1
tournament_state_index TournamentState.waiting = 2
tournament_state_index TournamentState.playing = 3
tournament_state_index TournamentState.finished = 4

tournament_state_at-index :
    (a : TournamentState)
    → member_at TournamentState.planned tournament_state_values (tournament_state_index a) ≡ a
tournament_state_at-index TournamentState.planned = refl
tournament_state_at-index TournamentState.registration = refl
tournament_state_at-index TournamentState.waiting = refl
tournament_state_at-index TournamentState.playing = refl
tournament_state_at-index TournamentState.finished = refl

pub tournament_state_index-injective :
    (a b : TournamentState) → tournament_state_index a ≡ tournament_state_index b → a ≡ b
tournament_state_index-injective a b e =
    sym (tournament_state_at-index a)
    ∙ ap (member_at TournamentState.planned tournament_state_values) e
    ∙ tournament_state_at-index b

instance abbrev pub tournament_state_eq : Eq TournamentState
tournament_state_eq = eq_by tournament_state_index tournament_state_index-injective

pub data PlayerState : Type 0 where
  registered checked_in playing completed finished disqualified : PlayerState

abbrev pub player_state_values : List (PlayerState × String)
player_state_values =
    (PlayerState.registered, "Registered")
    ∷ (PlayerState.checked_in, "Checked-in")
    ∷ (PlayerState.playing, "Playing")
    ∷ (PlayerState.completed, "Completed")
    ∷ (PlayerState.finished, "Finished")
    ∷ (PlayerState.disqualified, "Disqualified")
    ∷ []

abbrev pub player_state_index : PlayerState → ℕ
player_state_index PlayerState.registered = 0
player_state_index PlayerState.checked_in = 1
player_state_index PlayerState.playing = 2
player_state_index PlayerState.completed = 3
player_state_index PlayerState.finished = 4
player_state_index PlayerState.disqualified = 5

player_state_at-index :
    (a : PlayerState)
    → member_at PlayerState.registered player_state_values (player_state_index a) ≡ a
player_state_at-index PlayerState.registered = refl
player_state_at-index PlayerState.checked_in = refl
player_state_at-index PlayerState.playing = refl
player_state_at-index PlayerState.completed = refl
player_state_at-index PlayerState.finished = refl
player_state_at-index PlayerState.disqualified = refl

pub player_state_index-injective :
    (a b : PlayerState) → player_state_index a ≡ player_state_index b → a ≡ b
player_state_index-injective a b e =
    sym (player_state_at-index a)
    ∙ ap (member_at PlayerState.registered player_state_values) e
    ∙ player_state_at-index b

instance abbrev pub player_state_eq : Eq PlayerState
player_state_eq = eq_by player_state_index player_state_index-injective

pub data TableState : Type 0 where
  finished in_progress invalid cancelled : TableState

abbrev pub table_state_values : List (TableState × String)
table_state_values =
    (TableState.finished, "Finished")
    ∷ (TableState.in_progress, "In Progress")
    ∷ (TableState.invalid, "Invalid")
    ∷ (TableState.cancelled, "Cancelled")
    ∷ []

abbrev pub table_state_index : TableState → ℕ
table_state_index TableState.finished = 0
table_state_index TableState.in_progress = 1
table_state_index TableState.invalid = 2
table_state_index TableState.cancelled = 3

table_state_at-index :
    (a : TableState) → member_at TableState.finished table_state_values (table_state_index a) ≡ a
table_state_at-index TableState.finished = refl
table_state_at-index TableState.in_progress = refl
table_state_at-index TableState.invalid = refl
table_state_at-index TableState.cancelled = refl

pub table_state_index-injective :
    (a b : TableState) → table_state_index a ≡ table_state_index b → a ≡ b
table_state_index-injective a b e =
    sym (table_state_at-index a)
    ∙ ap (member_at TableState.finished table_state_values) e
    ∙ table_state_at-index b

instance abbrev pub table_state_eq : Eq TableState
table_state_eq = eq_by table_state_index table_state_index-injective

pub data TournamentFormat : Type 0 where
  standard v5 limited storyline : TournamentFormat

abbrev pub tournament_format_values : List (TournamentFormat × String)
tournament_format_values =
    (TournamentFormat.standard, "Standard")
    ∷ (TournamentFormat.v5, "V5")
    ∷ (TournamentFormat.limited, "Limited")
    ∷ (TournamentFormat.storyline, "Storyline")
    ∷ []

abbrev pub tournament_format_index : TournamentFormat → ℕ
tournament_format_index TournamentFormat.standard = 0
tournament_format_index TournamentFormat.v5 = 1
tournament_format_index TournamentFormat.limited = 2
tournament_format_index TournamentFormat.storyline = 3

tournament_format_at-index :
    (a : TournamentFormat)
    → member_at TournamentFormat.standard tournament_format_values (tournament_format_index a) ≡ a
tournament_format_at-index TournamentFormat.standard = refl
tournament_format_at-index TournamentFormat.v5 = refl
tournament_format_at-index TournamentFormat.limited = refl
tournament_format_at-index TournamentFormat.storyline = refl

pub tournament_format_index-injective :
    (a b : TournamentFormat) → tournament_format_index a ≡ tournament_format_index b → a ≡ b
tournament_format_index-injective a b e =
    sym (tournament_format_at-index a)
    ∙ ap (member_at TournamentFormat.standard tournament_format_values) e
    ∙ tournament_format_at-index b

instance abbrev pub tournament_format_eq : Eq TournamentFormat
tournament_format_eq = eq_by tournament_format_index tournament_format_index-injective

pub data RatingCategory : Type 0 where
  constructed_online constructed_offline limited_online limited_offline : RatingCategory

abbrev pub rating_category_values : List (RatingCategory × String)
rating_category_values =
    (RatingCategory.constructed_online, "constructed_online")
    ∷ (RatingCategory.constructed_offline, "constructed_offline")
    ∷ (RatingCategory.limited_online, "limited_online")
    ∷ (RatingCategory.limited_offline, "limited_offline")
    ∷ []

abbrev pub rating_category_index : RatingCategory → ℕ
rating_category_index RatingCategory.constructed_online = 0
rating_category_index RatingCategory.constructed_offline = 1
rating_category_index RatingCategory.limited_online = 2
rating_category_index RatingCategory.limited_offline = 3

rating_category_at-index :
    (a : RatingCategory)
    → member_at RatingCategory.constructed_online rating_category_values (rating_category_index a)
      ≡ a
rating_category_at-index RatingCategory.constructed_online = refl
rating_category_at-index RatingCategory.constructed_offline = refl
rating_category_at-index RatingCategory.limited_online = refl
rating_category_at-index RatingCategory.limited_offline = refl

pub rating_category_index-injective :
    (a b : RatingCategory) → rating_category_index a ≡ rating_category_index b → a ≡ b
rating_category_index-injective a b e =
    sym (rating_category_at-index a)
    ∙ ap (member_at RatingCategory.constructed_online rating_category_values) e
    ∙ rating_category_at-index b

instance abbrev pub rating_category_eq : Eq RatingCategory
rating_category_eq = eq_by rating_category_index rating_category_index-injective
