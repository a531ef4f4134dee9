-- ===== src/AccessLevels/DeckAnonymity.antt =====
-- Who sees a deck, and when its player is named.
use archon_vibe.Prelude.{
  ◌≡◌, refl, sym, subst, ap, ◌∙◌, Bool, true, false, not, ◌&&◌, Option, none, some, string_eq,
  if◌then◌else◌, some-injective,
}
use archon_vibe.Json.{Json, Fields, get, without, has}
use archon_vibe.Json.Laws.{get-without}
use archon_vibe.AccessLevels.Decks.{
  is_anonymous, withheld_of, publish, published_deck, shown_or_raise, compute_deck_member,
}

-- The name of the player, as a published deck shows it.
abbrev pub named_player : Bool → Fields → Option Json
named_player anonymous d = if anonymous && not (has "winner" d) then none else get "user_uid" d

-- A published deck names its player unless the attribution is anonymous and the deck did not win; it
-- never shows the private flag or who looked at it.
record IsPublished (anonymous : Bool) (d p : Fields) : Type 0 where
  player : get "user_uid" p ≡ named_player anonymous d
  no_private : get "private" p ≡ none
  no_views : get "views" p ≡ none

withheld-IsPublished :
    (anonymous : Bool) (d : Fields) (hides : Bool)
    → (anonymous && not (has "winner" d)) ≡ hides
    → IsPublished anonymous d (without (withheld_of hides) d)
unfolding withheld_of
withheld-IsPublished anonymous d true e = record {
  player = get-without "user_uid" _ d ∙ rw e;
  no_private = get-without "private" _ d;
  no_views = get-without "views" _ d;
}
withheld-IsPublished anonymous d false e = record {
  player = get-without "user_uid" _ d ∙ rw e;
  no_private = get-without "private" _ d;
  no_views = get-without "views" _ d;
}

member_of :
    (public : Bool) (o : Option Fields) (p : Fields)
    → (if public then shown_or_raise o else some none) ≡ some (some p)
    → (public ≡ true) × (o ≡ some p)
member_of false o p h = absurd (cc)
member_of true none p h = absurd (cc)
member_of true (some q) p h = (refl, some-injective h)

published_deck_lem :
    (d : Fields) (anonymous : Bool)
    → is_anonymous d ≡ some anonymous
    → published_deck d ≡ some (without (withheld_of (anonymous && not (has "winner" d))) d)
unfolding published_deck publish
published_deck_lem d anonymous e = ap (λ o. publish o d) e

-- A deck that members see is public, and names its player unless it is anonymous and did not win.
pub compute_deck_member_lem :
    (d p : Fields) (anonymous : Bool)
    → is_anonymous d ≡ some anonymous
    → compute_deck_member d ≡ some (some p)
    → (has "public" d ≡ true)
      × (get "user_uid" p ≡ named_player anonymous d)
      × (get "private" p ≡ none)
      × (get "views" p ≡ none)
unfolding compute_deck_member
compute_deck_member_lem d p anonymous e h =
    let (public, found) = member_of (has "public" d) (published_deck d) p h in
    let same = some-injective (sym (published_deck_lem d anonymous e) ∙ found) in
    let shape =
      subst (IsPublished anonymous d) same
        (withheld-IsPublished anonymous d (anonymous && not (has "winner" d)) refl) in
    (public, shape.player, shape.no_private, shape.no_views)
