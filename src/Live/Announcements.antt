-- ===== src/Live/Announcements.antt =====
-- The announcement routes of backend/src/routes/tournaments.py, up to the write of the row.
use archon_vibe.Prelude.{
  ℕ, String, ◌-◌, not, Option, List, [], ◌∷◌, ◌++◌, ◌==◌, string_eq, nat_eq, ltb, nonempty_text,
  length, drop, filter,
}
use archon_vibe.Prelude.Text.{strip, text_length}
use archon_vibe.Prelude.Outcome.{Outcome, returned, raise_if, given, ◌>>=◌, ◌>>◌}
use archon_vibe.Models.Users.{Instant, User}
use archon_vibe.Models.Tournaments.{Tournament, Announcement}
use archon_vibe.Permissions.Checks.{is_organizer}

abbrev pub max_announcements : ℕ
max_announcements = 20

abbrev pub max_announcement_len : ℕ
max_announcement_len = 280

unfoldable pub validate_announce_tournament : User → Option Tournament → Outcome Tournament
validate_announce_tournament user tournament = do
  t ← given tournament 404 "Tournament not found"
  raise_if (not (is_organizer user t)) 403 "Organizer access required"
  raise_if t.offline_mode 423 "Tournament is in offline mode"
  returned t

-- `xs[-n:]` for a positive n
abbrev pub last {ℓ} : {A : Type ℓ} → ℕ → List A → List A
last n xs = drop (length xs - n) xs

abbrev pub posted : User → String → String → Instant → Announcement
posted user fresh_id body now = record {
  id = fresh_id;
  body = body;
  created_at = now;
  author_uid = user.uid;
  author_name = user.name;
}

-- The handler takes the body of the request, the identifier that is drawn and two readings of the
-- clock.
unfoldable pub post_announcement :
    Option User → Option Tournament → String → String → Instant → Instant → Outcome Tournament
unfolding validate_announce_tournament strip text_length
post_announcement user tournament body fresh_id now saved = do
  u ← given user 401 "Authentication required"
  raise_if (not (nonempty_text (strip body))) 400 "Announcement is empty"
  raise_if (ltb max_announcement_len (text_length (strip body))) 400 "Max 280 characters"
  t ← validate_announce_tournament u tournament
  returned (record t {
    announcements =
        last max_announcements (t.announcements ++ posted u fresh_id (strip body) now ∷ []);
    modified = saved;
  })

unfoldable pub delete_announcement :
    Option User → Option Tournament → String → Instant → Outcome Tournament
unfolding validate_announce_tournament
delete_announcement user tournament announcement_id saved = do
  u ← given user 401 "Authentication required"
  t ← validate_announce_tournament u tournament
  let kept = filter (λ a. not (a.id == announcement_id)) t.announcements
  raise_if (length kept == length t.announcements) 404 "Announcement not found"
  returned (record t { announcements = kept; modified = saved })
