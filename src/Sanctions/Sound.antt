-- ===== src/Sanctions/Sound.antt =====
-- What the checks on a sanction's tournament and expiry let through.
use archon_vibe.Prelude.{
  String, ◌≡◌, ◌↔◌, Bool, true, false, Option, none, some, arith, leb, member, given_text,
}
use archon_vibe.Prelude.Outcome.{returned}
use archon_vibe.Models.SanctionKinds.{SanctionLevel, sanction_level_eq, suspension, probation}
use archon_vibe.Models.Users.{Instant}
use archon_vibe.Sanctions.Validation.{
  validate_binding, validate_expiry, tournament_levels, max_expiry,
}

-- The levels given inside a tournament name one, and the membership levels name none; every other
-- pair is refused.
pub validate_binding_lem :
    (level : SanctionLevel) (tournament_uid : Option String)
    → (validate_binding level tournament_uid ≡ returned tt)
      ↔ (member level tournament_levels ≡ given_text tournament_uid)
unfolding validate_binding
validate_binding_lem level tournament_uid = ground arith

-- The expiries that each level admits.
abbrev pub is_admitted : SanctionLevel → Option Instant → Instant → Bool
is_admitted probation none issued_at = false
is_admitted probation (some e) issued_at = leb e (max_expiry issued_at)
is_admitted suspension (some e) issued_at = leb e (max_expiry issued_at)
is_admitted _ _ issued_at = true

-- A probation has an expiry within eighteen months of thirty days, a suspension may have one within
-- the same time, and the other levels have any or none; every other expiry is refused.
pub validate_expiry_lem :
    (level : SanctionLevel) (expires_at : Option Instant) (issued_at : Instant)
    → (validate_expiry level expires_at issued_at ≡ returned tt)
      ↔ (is_admitted level expires_at issued_at ≡ true)
unfolding validate_expiry
validate_expiry_lem probation none i = ground arith
validate_expiry_lem probation (some e) i = ground arith
validate_expiry_lem suspension none i = ground arith
validate_expiry_lem suspension (some e) i = ground arith
validate_expiry_lem _ none i = ground arith
validate_expiry_lem _ (some e) i = ground arith
