-- ===== src/Community/Authority.antt =====
-- Who may change what of a link.
use archon_vibe.Prelude.{
  String, ◌≡◌, refl, sym, subst, Bool, true, false, Option, none, some, arith, ◌==◌, string_eq,
  ==-iff, is_none, Bool-cases, inl, inr, if◌then◌else◌,
}
use archon_vibe.Prelude.Outcome.{returned, Outcome-cases}
use archon_vibe.Models.LinkKinds.{
  CommunityLinkType, community_link_type_eq, LinkModeration, link_moderation_eq,
}
use archon_vibe.Models.Enums.{of_value, value_of}
use archon_vibe.Models.Users.{User}
use archon_vibe.Permissions.Checks.{
  can_moderate_link, can_promote_link_national, can_promote_link_global,
}
use archon_vibe.Community.Rules.{CommunityLink, is_content, text_or}
use archon_vibe.Community.Placement.{
  moderation_for, moderation_of, country_of, placement, lands_in, is_national,
}

-- The authority that a moderation wants, in a country.
abbrev pub may_set : User → Option LinkModeration → Option String → Bool
may_set actor none country = can_moderate_link actor country
may_set actor (some LinkModeration.hidden) country = can_moderate_link actor country
may_set actor (some LinkModeration.national) country = can_promote_link_national actor country
may_set actor (some LinkModeration.global) country = can_promote_link_global actor

abbrev Sets : User → Option String → String → Type 0
Sets actor country state =
    (current result : Option LinkModeration)
    → moderation_for actor state country current ≡ returned result
    → may_set actor result country ≡ true

sets_global : (actor : User) (country : Option String) → Sets actor country "global"
unfolding moderation_for of_value value_of
sets_global actor country none result h = ground (arith, h)
sets_global actor country (some LinkModeration.hidden) result h = ground (arith, h)
sets_global actor country (some LinkModeration.national) result h = ground (arith, h)
sets_global actor country (some LinkModeration.global) result h = ground (arith, h)

sets_national : (actor : User) (country : Option String) → Sets actor country "national"
unfolding moderation_for of_value value_of
sets_national actor country none result h = ground (arith, h)
sets_national actor country (some LinkModeration.hidden) result h = ground (arith, h)
sets_national actor country (some LinkModeration.national) result h = ground (arith, h)
sets_national actor country (some LinkModeration.global) result h = ground (arith, h)

sets_hidden : (actor : User) (country : Option String) → Sets actor country "hidden"
unfolding moderation_for of_value value_of
sets_hidden actor country none result h = ground (arith, h)
sets_hidden actor country (some LinkModeration.hidden) result h = ground (arith, h)
sets_hidden actor country (some LinkModeration.national) result h = ground (arith, h)
sets_hidden actor country (some LinkModeration.global) result h = ground (arith, h)

sets_none : (actor : User) (country : Option String) → Sets actor country "none"
unfolding moderation_for of_value value_of
sets_none actor country none result h = ground (arith, h)
sets_none actor country (some LinkModeration.hidden) result h = ground (arith, h)
sets_none actor country (some LinkModeration.national) result h = ground (arith, h)
sets_none actor country (some LinkModeration.global) result h = ground (arith, h)

other_state :
    (actor : User) (state : String) (country : Option String)
    (current result : Option LinkModeration)
    → (state == "global") ≡ false
    → (state == "national") ≡ false
    → (state == "hidden") ≡ false
    → (state == "none") ≡ false
    → moderation_for actor state country current ≡ returned result
    → may_set actor result country ≡ true
unfolding moderation_for
other_state actor state country current result g n h z k = ground (arith, g, n, h, z, k)

named :
    (actor : User) (state name : String) (country : Option String)
    → (state == name) ≡ true
    → Sets actor country name
    → Sets actor country state
named actor state name country e k = subst (Sets actor country) (sym ((==-iff state name).0 e)) k

-- A moderation is set, or kept on request, only by an actor with the authority that it wants.
pub moderation_for_lem :
    (actor : User) (state : String) (country : Option String)
    (current result : Option LinkModeration)
    → moderation_for actor state country current ≡ returned result
    → may_set actor result country ≡ true
moderation_for_lem actor state country current result k = elim (Bool-cases (state == "global")) [
  | inl g ↦ named actor state "global" country g (sets_global actor country) current result k
  | inr g ↦ elim (Bool-cases (state == "national")) [
    | inl n ↦ named actor state "national" country n (sets_national actor country) current result k
    | inr n ↦ elim (Bool-cases (state == "hidden")) [
      | inl h ↦ named actor state "hidden" country h (sets_hidden actor country) current result k
      | inr h ↦ elim (Bool-cases (state == "none")) [
        | inl z ↦ named actor state "none" country z (sets_none actor country) current result k
        | inr z ↦ other_state actor state country current result g n h z k
      ]
    ]
  ]
]

-- The authority behind the place of a content link, as a test.
abbrev pub is_warranted : User → Option String → Option LinkModeration → Bool
is_warranted actor country moderation =
    if is_national moderation then can_promote_link_national actor country else is_none country

warranted :
    (actor : User) (landed : Option String) (moderation : Option LinkModeration)
    → may_set actor moderation landed ≡ true
    → is_warranted actor (if is_national moderation then landed else none) moderation ≡ true
warranted actor landed none h = refl
warranted actor landed (some LinkModeration.hidden) h = refl
warranted actor landed (some LinkModeration.national) h = h
warranted actor landed (some LinkModeration.global) h = refl

-- A content link is saved with a country only when it is pinned there, and an actor who sets its state
-- so that it is pinned has the authority to pin links in that country.
pub placement-is_warranted :
    (upper : String → String) (actor : User) (kind : CommunityLinkType)
    (raw_country : Option String) (state : String) (prior : Option CommunityLink) (owner : User)
    (country : Option String) (moderation : Option LinkModeration)
    → is_content kind ≡ true
    → placement upper actor kind raw_country (some state) prior owner
      ≡ returned (country, moderation)
    → is_warranted actor country moderation ≡ true
unfolding placement
placement-is_warranted upper actor kind raw_country state prior owner country moderation c h =
    let current = moderation_of prior in
    let pinned_in =
      if is_national current then text_or (country_of prior) owner.country else none in
    elim (Outcome-cases
      (lands_in upper actor state current pinned_in (text_or pinned_in owner.country))) [
        | inr bad ↦ ground (arith, c, h, bad)
        | inl (landed, e) ↦ elim (Outcome-cases (moderation_for actor state landed current)) [
          | inr bad ↦ ground (arith, c, h, e, bad)
          | inl (m, f) ↦ ground (
            arith,
            c,
            h,
            e,
            f,
            warranted actor landed m (moderation_for_lem actor state landed current m f),
          )
        ]
      ]

-- What a pin of an unmoderated content link settles.
