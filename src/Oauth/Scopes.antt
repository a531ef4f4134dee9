-- ===== src/Oauth/Scopes.antt =====
-- The scope text of a token, written and read again.
use archon_vibe.Prelude.{none, false, given_text, if◌then◌else◌, ◌≡◌}
use archon_vibe.Models.Oauth.{OauthClient, OauthToken}
use archon_vibe.Oauth.Tokens.{Grant}

-- A live token of the client for the user, the scopes and the event of a grant.
abbrev pub IsFor : Grant → OauthClient → OauthToken → Type 0
IsFor g client t =
    (t.user_uid ≡ g.user_uid)
    × (t.client_id ≡ client.client_id)
    × (t.scopes ≡ g.scopes)
    × (t.tournament_uid ≡ (if given_text g.tournament_uid then g.tournament_uid else none))
    × (t.revoked ≡ false)
