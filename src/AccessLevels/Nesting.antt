-- ===== src/AccessLevels/Nesting.antt =====
-- Each level shows no more than the level above it: public within member within full.
use archon_vibe.Prelude.{
  String, ◌≡◌, refl, sym, subst, ◌∙◌, Bool, true, false, Option, none, some, ◌++◌, arith, member,
  string_eq, ==-iff, is_some, some-injective,
}
use archon_vibe.Json.{Json, Fields, get, pick, has, texts_at}
use archon_vibe.Json.Laws.{get-put, all_in, none_in, Within, pick-Within, pick-Within-without}
use archon_vibe.Permissions.Checks.{publishes_contact}
use archon_vibe.AccessLevels.Users.{
  obfuscate, obfuscate_field, cloak, obfuscate_public_contacts, public_by, member_by,
  compute_user_public, compute_user_member, compute_user_full, user_public_fields,
  user_contact_fields, user_community_links, user_links_only_fields, user_member_fields,
  user_owner_only_fields,
}

-- The cloak changes texts and no field.
cloak-keys :
    (o : Option Json) (f k : String) (d : Fields)
    → get f d ≡ o
    → is_some (get k (cloak o f d)) ≡ is_some (get k d)
unfolding cloak
cloak-keys (some (Json.str v)) f k d e =
    ground (arith, get-put k f (Json.str (obfuscate v)) d, ==-iff f k)
cloak-keys none f k d e = refl
cloak-keys _ f k d e = refl

obfuscate_public_contacts-keys :
    (k : String) (d : Fields) → is_some (get k (obfuscate_public_contacts d)) ≡ is_some (get k d)
unfolding obfuscate_public_contacts
obfuscate_public_contacts-keys k d =
    let once = obfuscate_field "contact_email" d in
    cloak-keys (get "contact_phone" once) "contact_phone" k once refl
    ∙ cloak-keys (get "contact_email" d) "contact_email" k d refl

public_by-Within :
    (publishes ic links : Bool) (d p : Fields)
    → public_by publishes ic links d ≡ some p
    → Within p (member_by publishes ic links d)
unfolding public_by member_by all_in
public_by-Within true ic links d p h =
    let raw = pick (user_public_fields ++ user_contact_fields ++ user_community_links) d in
    subst (λ q. Within q (member_by true ic links d)) (some-injective h)
      (λ k e.
        pick-Within (user_public_fields ++ user_contact_fields ++ user_community_links)
          (user_member_fields ++ user_contact_fields ++ user_community_links) d refl k
          (sym (obfuscate_public_contacts-keys k raw) ∙ e))
public_by-Within false true links d p h =
    subst (λ q. Within q (member_by false true links d)) (some-injective h)
      (pick-Within (user_public_fields ++ user_community_links)
        (user_member_fields ++ user_community_links) d refl)
public_by-Within false false true d p h =
    subst (λ q. Within q (member_by false false true d)) (some-injective h)
      (pick-Within user_links_only_fields (user_member_fields ++ user_community_links) d refl)
public_by-Within false false false d p h = cc

-- Whatever the public level shows of a member, the member level shows too: every field of the public
-- projection is a field of the member projection.
pub public-Within-member :
    (d p : Fields) (k : String)
    → compute_user_public d ≡ some p
    → is_some (get k p) ≡ true
    → is_some (get k (compute_user_member d)) ≡ true
unfolding compute_user_public compute_user_member
public-Within-member d p k h =
    let roles = texts_at "roles" d in
    public_by-Within (publishes_contact roles) (member "IC" roles) (has "community_links" d) d p h k

member_by-Within :
    (publishes ic links : Bool) (d : Fields)
    → Within (member_by publishes ic links d) (compute_user_full d)
unfolding member_by compute_user_full none_in
member_by-Within true ic links d =
    pick-Within-without (user_member_fields ++ user_contact_fields ++ user_community_links)
      user_owner_only_fields d refl
member_by-Within false true links d =
    pick-Within-without (user_member_fields ++ user_community_links) user_owner_only_fields d refl
member_by-Within false false true d =
    pick-Within-without (user_member_fields ++ user_community_links) user_owner_only_fields d refl
member_by-Within false false false d =
    pick-Within-without user_member_fields user_owner_only_fields d refl

-- Whatever the member level shows of a member, the full level shows too.
pub member-Within-full :
    (d : Fields) (k : String)
    → is_some (get k (compute_user_member d)) ≡ true
    → is_some (get k (compute_user_full d)) ≡ true
unfolding compute_user_member
member-Within-full d k =
    let roles = texts_at "roles" d in
    member_by-Within (publishes_contact roles) (member "IC" roles) (has "community_links" d) d k
