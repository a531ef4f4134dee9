-- ===== src/Offline/Exclusion.antt =====
-- Between two requests on the lock, one device holds a tournament or none does.
use archon_vibe.Prelude.{
  String, ◌≡◌, refl, sym, ap, subst, ◌∙◌, List, [], ◌∷◌, arith, Bool, true, false, ◌&&◌, ◌||◌,
  Option, none, some, ◌==◌, string_eq, ==-iff, if◌then◌else◌, inl, inr,
}
use archon_vibe.Prelude.Outcome.{returned, Outcome-cases, returned-injective}
use archon_vibe.Models.Users.{Instant, User}
use archon_vibe.Offline.Lock.{
  Lockable, LockRequest, take, bring_back, take_over, back_up, unlock, go_offline, check_return,
  go_online, force_takeover, sync_offline, force_unlock, handle, Sent, run,
}

-- Whether the request may be accepted while `holder` has the tournament: a backup and a return are
-- the holder's, except that a return may be forced; a takeover and an unlock override the holder.
abbrev pub is_entitled : String → LockRequest → Bool
is_entitled holder (take device_id) = false
is_entitled holder (bring_back device_id force copy) = holder == device_id || force
is_entitled holder (take_over device_id) = true
is_entitled holder (back_up device_id copy) = holder == device_id
is_entitled holder (unlock client) = true

-- The state of the lock: the device that holds it, if any.
abbrev pub holder_of : Lockable → Option String
holder_of t = if t.event.offline_mode then some t.offline_device_id else none

abbrev pub next_holder : LockRequest → Option String
next_holder (take device_id) = some device_id
next_holder (bring_back device_id force copy) = none
next_holder (take_over device_id) = some device_id
next_holder (back_up device_id copy) = some device_id
next_holder (unlock client) = none

-- Whether a request may be accepted, with the tournament held by a device or by none.
abbrev pub may_pass : Option String → LockRequest → Bool
may_pass none (take device_id) = true
may_pass none (bring_back device_id force copy) = false
may_pass none (take_over device_id) = false
may_pass none (back_up device_id copy) = false
may_pass none (unlock client) = false
may_pass (some holder) request = is_entitled holder request

-- While a device holds a tournament nobody takes it offline; accepted are only a backup from that
-- device, which leaves it the holder, a takeover, which makes the named device the holder, and a
-- return from that device, a forced return or an emergency unlock, which free the tournament. While
-- none holds it, nothing but taking it offline is accepted, and the device that took it holds it.
pub handle-may_pass :
    (user : Option User) (request : LockRequest) (t after : Lockable) (now : Instant)
    → handle user request t now ≡ returned after
    → (may_pass (holder_of t) request ≡ true) × (holder_of after ≡ next_holder request)
unfolding handle go_offline go_online force_takeover sync_offline force_unlock check_return
handle-may_pass none (take d) t after now h = absurd (ground (arith, h))
handle-may_pass none (bring_back d force copy) t after now h = absurd (ground (arith, h))
handle-may_pass none (take_over d) t after now h = absurd (ground (arith, h))
handle-may_pass none (back_up d copy) t after now h = absurd (ground (arith, h))
handle-may_pass none (unlock c) t after now h = absurd (ground (arith, h))
handle-may_pass (some u) (take d) t after now h = ground (arith, h)
handle-may_pass (some u) (bring_back d force copy) t after now h = ground (arith, h)
handle-may_pass (some u) (take_over d) t after now h = ground (arith, h)
handle-may_pass (some u) (back_up d copy) t after now h =
    ground (arith, h, ==-iff t.offline_device_id d)
handle-may_pass (some u) (unlock c) t after now h = ground (arith, h)

-- The abstract lock: which sequences of requests it lets pass, and who holds it after them.
unfoldable pub lets_pass : Option String → List Sent → Bool
lets_pass holder [] = true
lets_pass holder ((user, request, now) ∷ rest) =
    may_pass holder request && lets_pass (next_holder request) rest

unfoldable pub last_holder : Option String → List Sent → Option String
last_holder holder [] = holder
last_holder holder ((user, request, now) ∷ rest) = last_holder (next_holder request) rest

-- The handlers implement a lock that one device holds or none: whatever sequence of requests to take
-- the tournament offline, take it over, back it up, bring it back and unlock it they accept, by
-- whichever users and at whichever times, the abstract lock lets pass, and the device that then holds
-- the tournament is the one that the abstract lock says.
pub run-lets_pass :
    (sent : List Sent) (t after : Lockable)
    → run sent t ≡ returned after
    → (lets_pass (holder_of t) sent ≡ true) × (holder_of after ≡ last_holder (holder_of t) sent)
unfolding run lets_pass last_holder
run-lets_pass [] t after h = (refl, ap holder_of (sym (returned-injective h)))
run-lets_pass ((user, request, now) ∷ rest) t after h =
    elim (Outcome-cases (handle user request t now)) [
      | inr bad ↦ absurd (ground (arith, h, bad))
      | inl (mid, e) ↦
          (let (passes, next) = handle-may_pass user request t mid now e in
            let (tail, last) = run-lets_pass rest mid after (ground (arith, h, e)) in
            (
              ground (arith, passes, subst (λ x. lets_pass x rest ≡ true) next tail),
              last ∙ ap (λ x. last_holder x rest) next,
            ))
    ]
