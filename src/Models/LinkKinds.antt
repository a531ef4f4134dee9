-- ===== src/Models/LinkKinds.antt =====
-- The community-link enumerations of backend/src/models.py.
use archon_vibe.Prelude.{ℕ, String, ◌≡◌, refl, sym, ap, ◌∙◌, List, [], ◌∷◌, Eq}
use archon_vibe.Models.Enums.{eq_by, member_at}

pub data CommunityLinkType : Type 0 where
  discord telegram whatsapp forum facebook website twitch youtube reddit : CommunityLinkType
  instagram blog spotify x bluesky other : CommunityLinkType

abbrev pub community_link_type_values : List (CommunityLinkType × String)
community_link_type_values =
    (CommunityLinkType.discord, "discord")
    ∷ (CommunityLinkType.telegram, "telegram")
    ∷ (CommunityLinkType.whatsapp, "whatsapp")
    ∷ (CommunityLinkType.forum, "forum")
    ∷ (CommunityLinkType.facebook, "facebook")
    ∷ (CommunityLinkType.website, "website")
    ∷ (CommunityLinkType.twitch, "twitch")
    ∷ (CommunityLinkType.youtube, "youtube")
    ∷ (CommunityLinkType.reddit, "reddit")
    ∷ (CommunityLinkType.instagram, "instagram")
    ∷ (CommunityLinkType.blog, "blog")
    ∷ (CommunityLinkType.spotify, "spotify")
    ∷ (CommunityLinkType.x, "x")
    ∷ (CommunityLinkType.bluesky, "bluesky")
    ∷ (CommunityLinkType.other, "other")
    ∷ []

abbrev pub community_link_type_index : CommunityLinkType → ℕ
community_link_type_index CommunityLinkType.discord = 0
community_link_type_index CommunityLinkType.telegram = 1
community_link_type_index CommunityLinkType.whatsapp = 2
community_link_type_index CommunityLinkType.forum = 3
community_link_type_index CommunityLinkType.facebook = 4
community_link_type_index CommunityLinkType.website = 5
community_link_type_index CommunityLinkType.twitch = 6
community_link_type_index CommunityLinkType.youtube = 7
community_link_type_index CommunityLinkType.reddit = 8
community_link_type_index CommunityLinkType.instagram = 9
community_link_type_index CommunityLinkType.blog = 10
community_link_type_index CommunityLinkType.spotify = 11
community_link_type_index CommunityLinkType.x = 12
community_link_type_index CommunityLinkType.bluesky = 13
community_link_type_index CommunityLinkType.other = 14

community_link_type_at-index :
    (a : CommunityLinkType)
    → member_at CommunityLinkType.discord community_link_type_values (community_link_type_index a)
      ≡ a
community_link_type_at-index CommunityLinkType.discord = refl
community_link_type_at-index CommunityLinkType.telegram = refl
community_link_type_at-index CommunityLinkType.whatsapp = refl
community_link_type_at-index CommunityLinkType.forum = refl
community_link_type_at-index CommunityLinkType.facebook = refl
community_link_type_at-index CommunityLinkType.website = refl
community_link_type_at-index CommunityLinkType.twitch = refl
community_link_type_at-index CommunityLinkType.youtube = refl
community_link_type_at-index CommunityLinkType.reddit = refl
community_link_type_at-index CommunityLinkType.instagram = refl
community_link_type_at-index CommunityLinkType.blog = refl
community_link_type_at-index CommunityLinkType.spotify = refl
community_link_type_at-index CommunityLinkType.x = refl
community_link_type_at-index CommunityLinkType.bluesky = refl
community_link_type_at-index CommunityLinkType.other = refl

pub community_link_type_index-injective :
    (a b : CommunityLinkType) → community_link_type_index a ≡ community_link_type_index b → a ≡ b
community_link_type_index-injective a b e =
    sym (community_link_type_at-index a)
    ∙ ap (member_at CommunityLinkType.discord community_link_type_values) e
    ∙ community_link_type_at-index b

instance abbrev pub community_link_type_eq : Eq CommunityLinkType
community_link_type_eq = eq_by community_link_type_index community_link_type_index-injective

pub data LinkModeration : Type 0 where
  hidden national global : LinkModeration

abbrev pub link_moderation_values : List (LinkModeration × String)
link_moderation_values =
    (LinkModeration.hidden, "hidden")
    ∷ (LinkModeration.national, "national")
    ∷ (LinkModeration.global, "global")
    ∷ []

abbrev pub link_moderation_index : LinkModeration → ℕ
link_moderation_index LinkModeration.hidden = 0
link_moderation_index LinkModeration.national = 1
link_moderation_index LinkModeration.global = 2

link_moderation_at-index :
    (a : LinkModeration)
    → member_at LinkModeration.hidden link_moderation_values (link_moderation_index a) ≡ a
link_moderation_at-index LinkModeration.hidden = refl
link_moderation_at-index LinkModeration.national = refl
link_moderation_at-index LinkModeration.global = refl

pub link_moderation_index-injective :
    (a b : LinkModeration) → link_moderation_index a ≡ link_moderation_index b → a ≡ b
link_moderation_index-injective a b e =
    sym (link_moderation_at-index a)
    ∙ ap (member_at LinkModeration.hidden link_moderation_values) e
    ∙ link_moderation_at-index b

instance abbrev pub link_moderation_eq : Eq LinkModeration
link_moderation_eq = eq_by link_moderation_index link_moderation_index-injective
