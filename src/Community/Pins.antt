-- ===== src/Community/Pins.antt =====
-- What an actor who does not moderate a link can do to it.
use archon_vibe.Prelude.{
  String, ◌≡◌, sym, ap, ◌∙◌, Bool, true, false, ◌&&◌, Option, none, some, List, arith, ◌==◌,
  string_eq, ==-iff, opt_beq, opt_beq-holds, is_none, Bool-cases, inl, inr, if◌then◌else◌,
}
use archon_vibe.Prelude.Outcome.{returned, Outcome-cases, ◌>>=◌}
use archon_vibe.Models.LinkKinds.{
  CommunityLinkType, community_link_type_eq, LinkModeration, link_moderation_eq,
}
use archon_vibe.Models.Enums.{of_value, value_of}
use archon_vibe.Models.Users.{User}
use archon_vibe.Permissions.Checks.{can_promote_link_national}
use archon_vibe.Community.Rules.{CommunityLink, is_content, text_or}
use archon_vibe.Community.Rules.{validated_languages, validated_country}
use archon_vibe.Community.Saving.{
  LinkEditRequest, kind_of, or_else, same_content, curates, pins_content, edited_link, accept_edit,
  edit_link,
}
use archon_vibe.Community.Placement.{
  Placed, moderation_for, placement, place_content, place_channel, lands_in, is_national,
}
use archon_vibe.Community.Authority.{placement-is_warranted}

pinned_moderation :
    (actor : User) (country : Option String) (result : Option LinkModeration)
    → moderation_for actor "national" country none ≡ returned result
    → result ≡ some LinkModeration.national
unfolding moderation_for of_value value_of
pinned_moderation actor country result h = ground (arith, h)

pinned_content :
    (upper : String → String) (actor : User) (pinned_in owner_country country : Option String)
    (moderation : Option LinkModeration)
    → place_content upper actor (some "national") none pinned_in owner_country
      ≡ returned (country, moderation)
    → moderation ≡ some LinkModeration.national
pinned_content upper actor pinned_in owner_country country moderation h =
    elim (Outcome-cases
      (lands_in upper actor "national" none pinned_in (text_or pinned_in owner_country))) [
        | inr bad ↦ ground (arith, h, bad)
        | inl (landed, e) ↦ elim (Outcome-cases (moderation_for actor "national" landed none)) [
          | inr bad ↦ ground (arith, h, e, bad)
          | inl (m, f) ↦ ground (arith, h, e, f, pinned_moderation actor landed m f)
        ]
      ]

pinned :
    (upper : String → String) (actor : User) (kind : CommunityLinkType)
    (raw_country : Option String) (prior : CommunityLink) (owner : User) (country : Option String)
    (moderation : Option LinkModeration)
    → is_content kind ≡ true
    → prior.moderation ≡ none
    → placement upper actor kind raw_country (some "national") (some prior) owner
      ≡ returned (country, moderation)
    → moderation ≡ some LinkModeration.national
unfolding placement
pinned upper actor kind raw_country prior owner country moderation c n h =
    let pinned_in = λ (m : Option LinkModeration).
      if is_national m then text_or prior.country owner.country else none in
    let branch : placement upper actor kind raw_country (some "national") (some prior) owner
        ≡ place_content upper actor (some "national") prior.moderation (pinned_in prior.moderation)
            owner.country =
      λ i.
        if c i
        then place_content upper actor (some "national") prior.moderation
            (pinned_in prior.moderation) owner.country
        else (validated_country upper raw_country (text_or prior.country owner.country)
            >>= λ country. place_channel actor (some "national") prior.moderation country) in
    pinned_content upper actor none owner.country country moderation (
      sym (ap (λ m. place_content upper actor (some "national") m (pinned_in m) owner.country) n)
      ∙ sym branch
      ∙ h)

abbrev Made :
    (String → String) → User → User → LinkEditRequest → CommunityLink → CommunityLink → Type 0
Made upper actor target request prior edited =
    (kind : CommunityLinkType) × (languages : List String) × (placed : Placed) × (placement upper
        actor kind request.country request.state (some prior) target
      ≡ returned placed)
    × (edited ≡ edited_link request prior kind languages placed)

edit_link-gate :
    (upper : String → String) (actor target : User) (request : LinkEditRequest)
    (prior edited : CommunityLink)
    → curates actor prior target ≡ false
    → edit_link upper actor target request prior ≡ returned edited
    → pins_content prior request.state ≡ true
unfolding edit_link
edit_link-gate upper actor target request prior edited c h = ground (arith, c, h)

accept_edit-inv :
    (actor target : User) (request : LinkEditRequest) (prior edited : CommunityLink)
    (kind : CommunityLinkType) (languages : List String) (placed : Placed)
    → curates actor prior target ≡ false
    → accept_edit actor target request prior kind languages placed ≡ returned edited
    → (edited ≡ edited_link request prior kind languages placed)
      × (same_content edited prior ≡ true)
unfolding accept_edit
accept_edit-inv actor target request prior edited kind languages placed c h =
    let made = edited_link request prior kind languages placed in
    elim (Bool-cases (same_content made prior)) [
      | inl e ↦
          (let whole : edited ≡ made = ground (arith, c, h, e) in
            (whole, ap (λ x. same_content x prior) whole ∙ e))
      | inr e ↦ absurd (ground (arith, c, h, e))
    ]

edit_link-Made :
    (upper : String → String) (actor target : User) (request : LinkEditRequest)
    (prior edited : CommunityLink)
    → curates actor prior target ≡ false
    → edit_link upper actor target request prior ≡ returned edited
    → Made upper actor target request prior edited × (same_content edited prior ≡ true)
unfolding edit_link
edit_link-Made upper actor target request prior edited c h =
    elim (Outcome-cases (kind_of request.kind prior.kind)) [
      | inr bad ↦ absurd (ground (arith, c, h, bad))
      | inl (kind, k) ↦
          elim (Outcome-cases
            (validated_languages (or_else request.languages prior.languages) kind (some prior))) [
              | inr bad ↦ absurd (ground (arith, c, h, k, bad))
              | inl (languages, l) ↦
                  elim (Outcome-cases (
                    placement upper actor kind request.country request.state (some prior) target)) [
                      | inr bad ↦ absurd (ground (arith, c, h, k, l, bad))
                      | inl (placed, p) ↦
                          (let (whole, same) =
                              accept_edit-inv actor target request prior edited kind languages
                                placed c (ground (arith, c, h, k, l, p)) in
                            ((kind, languages, placed, p, whole), same))
                    ]
            ]
    ]

and_left : (a b : Bool) → (a && b) ≡ true → a ≡ true
and_left a b h = ground (arith, h)

gate_parts :
    (prior : CommunityLink) (state : Option String)
    → pins_content prior state ≡ true
    → (is_content prior.kind ≡ true) × (prior.moderation ≡ none) × (state ≡ some "national")
gate_parts prior state h = (
  and_left (is_content prior.kind) (is_none prior.moderation && opt_beq state (some "national")) h,
  ground (arith, h),
  opt_beq-holds state (some "national") (ground (arith, h)),
)

pins_of :
    (upper : String → String) (actor target : User) (request : LinkEditRequest)
    (prior edited : CommunityLink)
    → pins_content prior request.state ≡ true
    → Made upper actor target request prior edited
    → same_content edited prior ≡ true
    → (prior.moderation ≡ none)
      × (is_content prior.kind ≡ true)
      × (edited.moderation ≡ some LinkModeration.national)
      × (can_promote_link_national actor edited.country ≡ true)
      × (same_content edited prior ≡ true)
pins_of upper actor target request prior edited gate
      (kind, languages, (country, moderation), p, whole) same =
    let (content, bare, state) = gate_parts prior request.state gate in
    let kinds : kind ≡ prior.kind =
      sym (ap (λ e. e.kind) whole)
      ∙ (==-iff edited.kind prior.kind).0 (and_left (edited.kind == prior.kind) _ same) in
    let content2 : is_content kind ≡ true = ap is_content kinds ∙ content in
    let p2 : placement upper actor kind request.country (some "national") (some prior) target
        ≡ returned (country, moderation) =
      ap (λ s. placement upper actor kind request.country s (some prior) target) (sym state) ∙ p in
    let m =
      pinned upper actor kind request.country prior target country moderation content2 bare p2 in
    let w =
      placement-is_warranted upper actor kind request.country "national" (some prior) target country
        moderation content2 p2 in
    (
      bare,
      content,
      ap (λ e. e.moderation) whole ∙ m,
      ap (λ e. can_promote_link_national actor e.country) whole
          ∙ sym (
              ap
                (λ x.
                  if is_national x
                  then can_promote_link_national actor country
                  else is_none country)
                m)
          ∙ w,
      same,
    )

-- An actor who does not moderate a link can at most pin it: an edit that succeeds was asked to pin a
-- content link that no moderator had acted on, it pins the link in a country where the actor has the
-- authority to pin links, and it leaves its type, address, label and languages as they were.
pub edit_link-pins :
    (upper : String → String) (actor target : User) (request : LinkEditRequest)
    (prior edited : CommunityLink)
    → curates actor prior target ≡ false
    → edit_link upper actor target request prior ≡ returned edited
    → (prior.moderation ≡ none)
      × (is_content prior.kind ≡ true)
      × (edited.moderation ≡ some LinkModeration.national)
      × (can_promote_link_national actor edited.country ≡ true)
      × (same_content edited prior ≡ true)
edit_link-pins upper actor target request prior edited c h =
    let gate = edit_link-gate upper actor target request prior edited c h in
    let (made, same) = edit_link-Made upper actor target request prior edited c h in
    pins_of upper actor target request prior edited gate made same
