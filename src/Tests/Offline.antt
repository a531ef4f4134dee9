-- ===== src/Tests/Offline.antt =====
-- A tournament taken offline, unlocked, taken by another device, backed up by it,
-- taken over by a third and brought back by that.
use archon_vibe.Prelude.{◌≡◌, refl, true, false, none, some, List, [], ◌∷◌}
use archon_vibe.Prelude.Outcome.{returned}
use archon_vibe.Offline.Lock.{
  Lockable, take, bring_back, take_over, back_up, unlock, released, Sent, run, handle, go_offline,
  go_online, check_return, force_takeover, sync_offline, force_unlock,
}
use archon_vibe.Offline.Exclusion.{holder_of, lets_pass, last_holder, run-lets_pass}
use archon_vibe.Tests.Data.{alice, carol, cup}

abbrev at_home : Lockable
at_home = released cup 0

abbrev requests : List Sent
requests =
    (some alice, take "phone", 1)
    ∷ (some carol, unlock none, 2)
    ∷ (some alice, take "laptop", 3)
    ∷ (some alice, back_up "laptop" at_home, 4)
    ∷ (some alice, take_over "tablet", 5)
    ∷ (some alice, bring_back "tablet" false cup, 6)
    ∷ []

back_home : run requests at_home ≡ returned (released cup 6)
unfolding run handle go_offline go_online check_return force_takeover sync_offline force_unlock
    archon_vibe.Permissions.Engine.can_take_tournament_offline archon_vibe.Permissions.Engine.check
    archon_vibe.Permissions.Checks.user_to_context archon_vibe.Permissions.Checks.check
back_home = refl

run-lets_pass_example :
    (lets_pass (holder_of at_home) requests ≡ true)
    × (holder_of (released cup 6) ≡ last_holder (holder_of at_home) requests)
run-lets_pass_example = run-lets_pass requests at_home (released cup 6) back_home
