-- ===== src/AccessLevels/Secrecy.antt =====
-- What no projection gives away.
use Prim.Native.String.{String}
use text.Mathlib.Text.{starts_with}
use text.Mathlib.TextPositions.{starts_with-append}
use archon_vibe.Prelude.{
  ◌≡◌, refl, sym, subst, ◌∙◌, Bool, true, false, not, ◌&&◌, Option, none, some, List, [], ◌∷◌, ◌++◌,
  arith, member, ◌==◌, string_eq, ==-refl, ==-iff, some-injective, Bool-cases, inl, inr,
  nonempty_text, ap, ◌<>◌,
}
use archon_vibe.Prelude.Text.{utf8, b64encode}
use archon_vibe.Prelude.Base64.{b64decode, b64decode-b64encode, utf8-bytes}
use archon_vibe.Json.{Json, Fields, get, pick, has, texts_at}
use archon_vibe.Json.Laws.{get-put, get-pick, none_in, none_in-member}
use archon_vibe.Permissions.Checks.{publishes_contact}
use archon_vibe.AccessLevels.Users.{
  obfuscate, obfuscated_prefix, cloak, obfuscate_public_contacts, public_by, compute_user_public,
  user_contact_fields, user_public_fields, user_community_links, user_links_only_fields,
}

is_cloaked-obfuscate : (t : String) → starts_with (obfuscate t) obfuscated_prefix ≡ true
unfolding obfuscate
is_cloaked-obfuscate t = elim (Bool-cases (starts_with t obfuscated_prefix)) [
  | inl old ↦ rw old old
  | inr new ↦ rw new (starts_with-append obfuscated_prefix (b64encode (utf8 t)))
]

obfuscate_cloaked : (t : String) → starts_with t obfuscated_prefix ≡ true → obfuscate t ≡ t
unfolding obfuscate
obfuscate_cloaked t h = rw h

-- A published contact detail is cloaked, and cloaking twice is cloaking once.
pub obfuscate_lem :
    (s : String)
    → (starts_with (obfuscate s) obfuscated_prefix ≡ true) × (obfuscate (obfuscate s) ≡ obfuscate s)
obfuscate_lem s = (is_cloaked-obfuscate s, obfuscate_cloaked (obfuscate s) (is_cloaked-obfuscate s))

-- The cloak of a text: the prefix and the base64 of its bytes, where there is something to hide; an
-- empty text and one that is cloaked already stay.
abbrev pub IsCloakOfText : Bool → String → String → Type 0
IsCloakOfText true w v = (body : String) × (v ≡ "#b64#" <> body) × (b64decode body ≡ utf8 w)
IsCloakOfText false w v = v ≡ w

-- What is shown of a value of the document: a text is cloaked, any other value stays.
abbrev pub IsCloakOf : Json → Json → Type 0
IsCloakOf (Json.str w) (Json.str v) =
    IsCloakOfText (nonempty_text w && not (starts_with w "#b64#")) w v
IsCloakOf (Json.str w) _ = ⊥
IsCloakOf j v = v ≡ j

obfuscate-IsCloakOf :
    (w : String) → nonempty_text w ≡ true → IsCloakOf (Json.str w) (Json.str (obfuscate w))
unfolding obfuscate
obfuscate-IsCloakOf w given = elim (Bool-cases (starts_with w obfuscated_prefix)) [
  | inl old ↦ rw given (rw old refl)
  | inr new ↦
      rw given (rw new (b64encode (utf8 w), refl, b64decode-b64encode (utf8 w) (utf8-bytes w)))
]

-- A value that stands for one of the document.
abbrev Stands : Option Json → Json → Type 0
Stands o v = (j : Json) × (o ≡ some j) × IsCloakOf j v

cloak-Stands :
    (o : Option Json) (f : String) (d : Fields) (v : Json)
    → get f d ≡ o
    → get f (cloak o f d) ≡ some v
    → Stands o v
unfolding cloak
cloak-Stands (some (Json.str w)) f d v e h = elim (Bool-cases (nonempty_text w)) [
  | inl given ↦
      let found : some (Json.str (obfuscate w)) ≡ some v =
        ground (arith, get-put f f (Json.str (obfuscate w)) d, ==-refl f) in
      (
        Json.str w,
        refl,
        subst (IsCloakOf (Json.str w)) (some-injective found) (obfuscate-IsCloakOf w given),
      )
  | inr blank ↦
      let found : some (Json.str w) ≡ some v = ground arith in
      (Json.str w, refl, subst (IsCloakOf (Json.str w)) (some-injective found) (rw blank refl))
]
cloak-Stands none f d v e h = cc
cloak-Stands (some Json.null) f d v e h = (Json.null, refl, some-injective (sym h ∙ e))
cloak-Stands (some (Json.bool b)) f d v e h = (Json.bool b, refl, some-injective (sym h ∙ e))
cloak-Stands (some (Json.num n)) f d v e h = (Json.num n, refl, some-injective (sym h ∙ e))
cloak-Stands (some (Json.arr b)) f d v e h = (Json.arr b, refl, some-injective (sym h ∙ e))
cloak-Stands (some (Json.obj b)) f d v e h = (Json.obj b, refl, some-injective (sym h ∙ e))

cloak-ne :
    (o : Option Json) (f k : String) (d : Fields) → (f == k) ≡ false → get k (cloak o f d) ≡ get k d
unfolding cloak
cloak-ne (some (Json.str w)) f k d ne = ground (arith, get-put k f (Json.str (obfuscate w)) d)
cloak-ne none f k d ne = refl
cloak-ne _ f k d ne = refl

abbrev once : Fields → Fields
once d = cloak (get "contact_email" d) "contact_email" d

obfuscate_public_contacts-Stands :
    (d : Fields) (v : Json)
    → (get "contact_email" (obfuscate_public_contacts d) ≡ some v
        → Stands (get "contact_email" d) v)
      × (get "contact_phone" (obfuscate_public_contacts d) ≡ some v
          → Stands (get "contact_phone" d) v)
unfolding obfuscate_public_contacts
obfuscate_public_contacts-Stands d v = (
  λ h. cloak-Stands (get "contact_email" d) "contact_email" d v refl (
      sym (cloak-ne (get "contact_phone" (once d)) "contact_phone" "contact_email" (once d) refl)
      ∙ h),
  λ h.
      subst (λ o. Stands o v)
        (cloak-ne (get "contact_email" d) "contact_email" "contact_phone" d refl)
        (cloak-Stands (get "contact_phone" (once d)) "contact_phone" (once d) v refl h),
)

-- No contact field stands among these names.
abbrev HidesContact : List String → Type 0
HidesContact ks = none_in user_contact_fields ks ≡ true

pick-HidesContact :
    (ks : List String) (d : Fields) (k : String)
    → HidesContact ks
    → member k user_contact_fields ≡ true
    → get k (pick ks d) ≡ none
pick-HidesContact ks d k h m =
    ground (arith, get-pick k ks d, none_in-member k user_contact_fields ks h m)

public_by-hides :
    (ic links : Bool) (d p : Fields) (k : String)
    → public_by false ic links d ≡ some p
    → member k user_contact_fields ≡ true
    → get k p ≡ none
unfolding public_by none_in
public_by-hides true links d p k h m =
    subst (λ q. get k q ≡ none) (some-injective h)
      (pick-HidesContact (user_public_fields ++ user_community_links) d k refl m)
public_by-hides false true d p k h m =
    subst (λ q. get k q ≡ none) (some-injective h)
      (pick-HidesContact user_links_only_fields d k refl m)
public_by-hides false false d p k h m = cc

-- A member whose roles publish no contact has no contact field in the public projection.
pub public_hides_contact :
    (d p : Fields) (k : String)
    → publishes_contact (texts_at "roles" d) ≡ false
    → member k user_contact_fields ≡ true
    → compute_user_public d ≡ some p
    → get k p ≡ none
unfolding compute_user_public
public_hides_contact d p k quiet m h =
    public_by-hides (member "IC" (texts_at "roles" d)) (has "community_links" d) d p k
      (rw quiet at h) m

abbrev shown_fields : List String
shown_fields = user_public_fields ++ user_contact_fields ++ user_community_links

email_phone_public :
    (publishes ic links : Bool) (d p : Fields) (v : Json)
    → public_by publishes ic links d ≡ some p
    → (get "contact_email" p ≡ some v → Stands (get "contact_email" d) v)
      × (get "contact_phone" p ≡ some v → Stands (get "contact_phone" d) v)
unfolding public_by
email_phone_public true ic links d p v h =
    let (email, phone) = obfuscate_public_contacts-Stands (pick shown_fields d) v in
    (
      λ e.
          subst (λ o. Stands o v) (get-pick "contact_email" shown_fields d)
            (email (ap (get "contact_email") (some-injective h) ∙ e)),
      λ e.
          subst (λ o. Stands o v) (get-pick "contact_phone" shown_fields d)
            (phone (ap (get "contact_phone") (some-injective h) ∙ e)),
    )
email_phone_public false ic links d p v h = (
  λ e. absurd (cc (e, public_by-hides ic links d p "contact_email" h refl)),
  λ e. absurd (cc (e, public_by-hides ic links d p "contact_phone" h refl)),
)

abbrev pub cloaked_fields : List String
cloaked_fields = "contact_email" ∷ "contact_phone" ∷ []

-- An email address or a phone number that the public level shows, whoever's it is, stands for the
-- value of the document: a text is shown as the prefix and a base64 text that decodes to its bytes,
-- except that an empty one and one that has the prefix already are shown as they are, as is a value
-- that is no text.
pub public_contact-IsCloakOf :
    (d p : Fields) (k : String) (v : Json)
    → member k cloaked_fields ≡ true
    → compute_user_public d ≡ some p
    → get k p ≡ some v
    → (j : Json) × (get k d ≡ some j) × IsCloakOf j v
unfolding compute_user_public
public_contact-IsCloakOf d p k v m h e =
    let roles = texts_at "roles" d in
    let both =
      email_phone_public (publishes_contact roles) (member "IC" roles) (has "community_links" d) d p
        v h in
    elim (Bool-cases (k == "contact_email")) [
      | inl q ↦
          subst (λ i. Stands (get i d) v) (sym ((==-iff k "contact_email").0 q))
            (both.0 (subst (λ j. get j p ≡ some v) ((==-iff k "contact_email").0 q) e))
      | inr q ↦
          (let same = (==-iff k "contact_phone").0 (ground (arith, q, m)) in
            subst (λ i. Stands (get i d) v) (sym same)
              (both.1 (subst (λ j. get j p ≡ some v) same e)))
    ]
