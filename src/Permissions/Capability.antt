-- ===== src/Permissions/Capability.antt =====
-- `Capability` of engine/src/permissions.rs, one for each thing that the stack gates on.
use archon_vibe.Prelude.{ℕ, String, ◌≡◌, refl, sym, ap, ◌∙◌, List, [], ◌∷◌, Eq}
use archon_vibe.Models.Enums.{eq_by, member_at}

pub data Capability : Type 0 where
  sponsor_member edit_member_profile delete_member anonymize_member mark_deceased : Capability
  manage_vekn list_non_member export_members merge_accounts create_tournament : Capability
  organize_tournament force_unlock_tournament manage_leagues edit_league : Capability
  moderate_link promote_link_national promote_link_global : Capability
  issue_restricted_sanction issue_tournament_sanction lift_restricted_sanction : Capability
  lift_tournament_sanction modify_sanction delete_any_sanction : Capability
  delete_organizer_sanction view_sanction_reason manage_promos record_promo_intake : Capability
  view_full_promo_ledger manage_oauth_clients run_admin_sync set_archival_results : Capability
  manage_nda : Capability

abbrev pub capability_index : Capability → ℕ
capability_index sponsor_member = 0
capability_index edit_member_profile = 1
capability_index delete_member = 2
capability_index anonymize_member = 3
capability_index mark_deceased = 4
capability_index manage_vekn = 5
capability_index list_non_member = 6
capability_index export_members = 7
capability_index merge_accounts = 8
capability_index create_tournament = 9
capability_index organize_tournament = 10
capability_index force_unlock_tournament = 11
capability_index manage_leagues = 12
capability_index edit_league = 13
capability_index moderate_link = 14
capability_index promote_link_national = 15
capability_index promote_link_global = 16
capability_index issue_restricted_sanction = 17
capability_index issue_tournament_sanction = 18
capability_index lift_restricted_sanction = 19
capability_index lift_tournament_sanction = 20
capability_index modify_sanction = 21
capability_index delete_any_sanction = 22
capability_index delete_organizer_sanction = 23
capability_index view_sanction_reason = 24
capability_index manage_promos = 25
capability_index record_promo_intake = 26
capability_index view_full_promo_ledger = 27
capability_index manage_oauth_clients = 28
capability_index run_admin_sync = 29
capability_index set_archival_results = 30
capability_index manage_nda = 31

abbrev all_capabilities : List (Capability × String)
all_capabilities =
    (sponsor_member, "")
    ∷ (edit_member_profile, "")
    ∷ (delete_member, "")
    ∷ (anonymize_member, "")
    ∷ (mark_deceased, "")
    ∷ (manage_vekn, "")
    ∷ (list_non_member, "")
    ∷ (export_members, "")
    ∷ (merge_accounts, "")
    ∷ (create_tournament, "")
    ∷ (organize_tournament, "")
    ∷ (force_unlock_tournament, "")
    ∷ (manage_leagues, "")
    ∷ (edit_league, "")
    ∷ (moderate_link, "")
    ∷ (promote_link_national, "")
    ∷ (promote_link_global, "")
    ∷ (issue_restricted_sanction, "")
    ∷ (issue_tournament_sanction, "")
    ∷ (lift_restricted_sanction, "")
    ∷ (lift_tournament_sanction, "")
    ∷ (modify_sanction, "")
    ∷ (delete_any_sanction, "")
    ∷ (delete_organizer_sanction, "")
    ∷ (view_sanction_reason, "")
    ∷ (manage_promos, "")
    ∷ (record_promo_intake, "")
    ∷ (view_full_promo_ledger, "")
    ∷ (manage_oauth_clients, "")
    ∷ (run_admin_sync, "")
    ∷ (set_archival_results, "")
    ∷ (manage_nda, "")
    ∷ []

capability_at-index :
    (a : Capability) → member_at sponsor_member all_capabilities (capability_index a) ≡ a
capability_at-index sponsor_member = refl
capability_at-index edit_member_profile = refl
capability_at-index delete_member = refl
capability_at-index anonymize_member = refl
capability_at-index mark_deceased = refl
capability_at-index manage_vekn = refl
capability_at-index list_non_member = refl
capability_at-index export_members = refl
capability_at-index merge_accounts = refl
capability_at-index create_tournament = refl
capability_at-index organize_tournament = refl
capability_at-index force_unlock_tournament = refl
capability_at-index manage_leagues = refl
capability_at-index edit_league = refl
capability_at-index moderate_link = refl
capability_at-index promote_link_national = refl
capability_at-index promote_link_global = refl
capability_at-index issue_restricted_sanction = refl
capability_at-index issue_tournament_sanction = refl
capability_at-index lift_restricted_sanction = refl
capability_at-index lift_tournament_sanction = refl
capability_at-index modify_sanction = refl
capability_at-index delete_any_sanction = refl
capability_at-index delete_organizer_sanction = refl
capability_at-index view_sanction_reason = refl
capability_at-index manage_promos = refl
capability_at-index record_promo_intake = refl
capability_at-index view_full_promo_ledger = refl
capability_at-index manage_oauth_clients = refl
capability_at-index run_admin_sync = refl
capability_at-index set_archival_results = refl
capability_at-index manage_nda = refl

pub capability_index-injective :
    (a b : Capability) → capability_index a ≡ capability_index b → a ≡ b
capability_index-injective a b e =
    sym (capability_at-index a)
    ∙ ap (member_at sponsor_member all_capabilities) e
    ∙ capability_at-index b

instance abbrev pub capability_eq : Eq Capability
capability_eq = eq_by capability_index capability_index-injective
