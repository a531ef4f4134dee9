-- ===== src/Models/OauthKinds.antt =====
-- `OAuthScope` of backend/src/models.py.
use archon_vibe.Prelude.{ℕ, String, ◌≡◌, refl, sym, ap, ◌∙◌, List, [], ◌∷◌, Eq}
use archon_vibe.Models.Enums.{eq_by, member_at}

pub data OauthScope : Type 0 where
  profile_read profile_email event_run api_read : OauthScope

abbrev pub oauth_scope_values : List (OauthScope × String)
oauth_scope_values =
    (OauthScope.profile_read, "profile:read")
    ∷ (OauthScope.profile_email, "profile:email")
    ∷ (OauthScope.event_run, "event:run")
    ∷ (OauthScope.api_read, "api:read")
    ∷ []

abbrev pub oauth_scope_index : OauthScope → ℕ
oauth_scope_index OauthScope.profile_read = 0
oauth_scope_index OauthScope.profile_email = 1
oauth_scope_index OauthScope.event_run = 2
oauth_scope_index OauthScope.api_read = 3

oauth_scope_at-index :
    (a : OauthScope)
    → member_at OauthScope.profile_read oauth_scope_values (oauth_scope_index a) ≡ a
oauth_scope_at-index OauthScope.profile_read = refl
oauth_scope_at-index OauthScope.profile_email = refl
oauth_scope_at-index OauthScope.event_run = refl
oauth_scope_at-index OauthScope.api_read = refl

pub oauth_scope_index-injective :
    (a b : OauthScope) → oauth_scope_index a ≡ oauth_scope_index b → a ≡ b
oauth_scope_index-injective a b e =
    sym (oauth_scope_at-index a)
    ∙ ap (member_at OauthScope.profile_read oauth_scope_values) e
    ∙ oauth_scope_at-index b

instance abbrev pub oauth_scope_eq : Eq OauthScope
oauth_scope_eq = eq_by oauth_scope_index oauth_scope_index-injective
