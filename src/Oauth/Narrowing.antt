-- ===== src/Oauth/Narrowing.antt =====
-- What an edit of a client leaves of the tokens that were issued with its old scopes.
use archon_vibe.Prelude.{
  String, ◌≡◌, refl, ap, ◌∙◌, subst, Bool, true, false, not, ◌&&◌, ◌||◌, some, List, [], ◌∷◌, arith,
  ◌==◌, string_eq, ==-iff, Bool-cases, inl, inr, member,
}
use archon_vibe.Prelude.Rows.{update, every}
use archon_vibe.Prelude.Outcome.{returned}
use archon_vibe.Models.OauthKinds.{OauthScope, oauth_scope_eq}
use archon_vibe.Models.Users.{Instant, User}
use archon_vibe.Models.Oauth.{OauthClient, OauthToken}
use archon_vibe.Oauth.Store.{
  OauthStore, get_oauth_client_by_client_id, update_oauth_client, has_scope, revoke,
}
use archon_vibe.Oauth.Grant.{is_subset}
use archon_vibe.Oauth.Clients.{ClientRules, removed_scopes, drop_scopes, edited, edit_client}

-- Every live token of the client carries no scope outside a list.
abbrev pub is_within : String → List OauthScope → List OauthToken → Bool
is_within client_id scopes rows =
    every (λ t. not (t.client_id == client_id && not t.revoked) || is_subset t.scopes scopes) rows

member-removed :
    (s : OauthScope) (old new : List OauthScope)
    → member s old ≡ true
    → member s (removed_scopes old new) ≡ false
    → member s new ≡ true
member-removed s [] new h k = ground (arith, h)
member-removed s (o ∷ os) new h k = ground (arith, h, k, ==-iff s o, member-removed s os new)

kept-is_subset :
    (scopes old new : List OauthScope)
    → is_subset scopes old ≡ true
    → has_scope (removed_scopes old new) scopes ≡ false
    → is_subset scopes new ≡ true
unfolding every
kept-is_subset [] old new h k = refl
kept-is_subset (s ∷ ss) old new h k =
    ground (arith, h, k, member-removed s old new, kept-is_subset ss old new)

revoke-is_within :
    (client_id : String) (old new : List OauthScope) (rows : List OauthToken)
    → is_within client_id old rows ≡ true
    → is_within client_id new (
        update
          (λ t.
            t.client_id == client_id
            && (not t.revoked && has_scope (removed_scopes old new) t.scopes))
          revoke
          rows)
      ≡ true
unfolding every update
revoke-is_within client_id old new [] h = refl
revoke-is_within client_id old new (t ∷ ts) h =
    let hit = has_scope (removed_scopes old new) t.scopes in
    elim (Bool-cases (t.client_id == client_id && (not t.revoked && hit))) [
      | inl e ↦ ground (arith, e, h, revoke-is_within client_id old new ts)
      | inr e ↦
          ground
            (arith, e, h, revoke-is_within client_id old new ts, kept-is_subset t.scopes old new)
    ]

has_scope-[] : (scopes : List OauthScope) → has_scope [] scopes ≡ false
has_scope-[] [] = refl
has_scope-[] (s ∷ ss) = has_scope-[] ss

widened :
    (client_id : String) (old new : List OauthScope) (rows : List OauthToken)
    → removed_scopes old new ≡ []
    → is_within client_id old rows ≡ true
    → is_within client_id new rows ≡ true
unfolding every
widened client_id old new [] e h = refl
widened client_id old new (t ∷ ts) e h =
    let none_hit = ap (λ r. has_scope r t.scopes) e ∙ has_scope-[] t.scopes in
    ground (arith, h, widened client_id old new ts e, kept-is_subset t.scopes old new, none_hit)

drop_scopes-is_within :
    (client_id : String) (old new removed : List OauthScope) (st : OauthStore)
    → removed_scopes old new ≡ removed
    → is_within client_id old st.tokens ≡ true
    → is_within client_id new (drop_scopes client_id removed st).tokens ≡ true
drop_scopes-is_within client_id old new [] st e h = widened client_id old new st.tokens e h
drop_scopes-is_within client_id old new (r ∷ rs) st e h =
    subst
      (λ x.
        is_within client_id new (
          update (λ t. t.client_id == client_id && (not t.revoked && has_scope x t.scopes)) revoke
            st.tokens)
        ≡ true)
      e (revoke-is_within client_id old new st.tokens h)

-- An edit narrows what is out: when no live token of a client carries a scope that the client has
-- not, none does after an edit of the client either, whichever scopes the edit takes away or adds.
pub edit_client-is_within :
    (user : User) (first_party : Bool) (client_id : String) (uris scope_texts : List String)
    (purpose : String) (now : Instant) (st st' : OauthStore) (client : OauthClient)
    (rules : ClientRules)
    → get_oauth_client_by_client_id client_id st ≡ some client
    → is_within client_id client.scopes st.tokens ≡ true
    → edit_client user first_party client_id uris scope_texts purpose now st ≡ (st', returned rules)
    → is_within client_id rules.scopes st'.tokens ≡ true
unfolding edit_client
edit_client-is_within user first_party client_id uris scope_texts purpose now st st' client rules f
      w h =
    let st1 = update_oauth_client (edited client now uris rules) st in
    let after : st'.tokens
        ≡ (drop_scopes client_id (removed_scopes client.scopes rules.scopes) st1).tokens =
      ground (arith, f, h) in
    ap (is_within client_id rules.scopes) after
    ∙ drop_scopes-is_within client_id client.scopes rules.scopes _ st1 refl w
