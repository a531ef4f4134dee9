-- ===== src/Sanctions/Validation.antt =====
-- `_validate_binding` and `_validate_expiry` of backend/src/routes/sanctions.py.
use archon_vibe.Prelude.{
  ℕ, String, ◌+◌, ◌*◌, Bool, false, not, ◌&&◌, Option, none, some, List, [], ◌∷◌, ◌==◌, member, ltb,
  is_none, given_text, ◌<>◌,
}
use archon_vibe.Prelude.Outcome.{Outcome, raise_if, ◌>>◌}
use archon_vibe.Models.Enums.{value_of}
use archon_vibe.Models.SanctionKinds.{SanctionLevel, sanction_level_eq, sanction_level_values}
use archon_vibe.Models.Users.{Instant}

abbrev pub tournament_levels : List SanctionLevel
tournament_levels =
    SanctionLevel.caution ∷ SanctionLevel.warning ∷ SanctionLevel.standings_adjustment
    ∷ SanctionLevel.disqualification ∷ []

abbrev pub max_expiry_months : ℕ
max_expiry_months = 18

-- `timedelta(days=1)` in microseconds
abbrev pub day : ℕ
day = 86400000000

unfoldable pub validate_binding : SanctionLevel → Option String → Outcome (Unit {0})
unfolding value_of
validate_binding level tournament_uid = do
  raise_if (member level tournament_levels && not (given_text tournament_uid)) 400
      ("A " <> value_of sanction_level_values level <> " must be issued against a tournament")
  raise_if (not (member level tournament_levels) && given_text tournament_uid) 400 (
      "A "
      <> value_of sanction_level_values level
      <> " is membership-level and takes no tournament")

abbrev pub max_expiry : Instant → Instant
max_expiry issued_at = issued_at + max_expiry_months * 30 * day

-- `expires_at is not None and expires_at > max_expiry`
abbrev pub too_late : Option Instant → Instant → Bool
too_late none issued_at = false
too_late (some e) issued_at = ltb (max_expiry issued_at) e

unfoldable pub validate_expiry : SanctionLevel → Option Instant → Instant → Outcome (Unit {0})
validate_expiry level expires_at issued_at = do
  raise_if (level == SanctionLevel.probation && is_none expires_at) 400
      "PROBATION requires an expiry date (expires_at)"
  raise_if (level == SanctionLevel.probation && too_late expires_at issued_at) 400
      "PROBATION expires_at must be within 18 months"
  raise_if (level == SanctionLevel.suspension && too_late expires_at issued_at) 400
      "SUSPENSION expires_at must be within 18 months"
