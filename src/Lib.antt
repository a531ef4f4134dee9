-- ===== src/Lib.antt =====
-- The server of Archon, the tournament and member registry of the VEKN. Its backend
-- (backend/src, Python) keeps members, tournaments, sanctions, decks, leagues and promos as JSON
-- documents; its engine (engine/src, Rust) decides who may do what. A request passes a permission
-- gate, changes a document, and `save_object` writes it with one projection for each access level;
-- `broadcast_precomputed` then sends every open connection the projection that its viewer may see.
--
-- Which file models what:
--   Prelude: library names, Boolean tests, lists, integers, texts, base64, Python dicts, and `Outcome`, what
--     a handler returns or raises; Action is a handler over a store whose statements commit one by
--     one, Rows the tables as lists.
--   Models: the enumerations and records of backend/src/models.py, with the fields that the modelled
--     code reads. An enumeration's wire values stand in a list, with which texts are read and written.
--     Instants are numbers of microseconds.
--   Json: documents as Python dicts, with the dict comprehensions of the projections.
--   Permissions: Capability, Matrix, Engine and Engine/Sanctions are engine/src/permissions.rs;
--     Checks is backend/src/permissions.py. The JSON texts between the two are their common records.
--     Authority, SanctionAuthority and Monotone are proofs.
--   AccessLevels: backend/src/access_levels.py, in Users, Tournaments, Decks and Dispatch; Nesting,
--     Secrecy, Events and DeckAnonymity are proofs. Where the source raises (a missing item, a player
--     that is no object) the model returns `none`.
--   Broadcast: backend/src/broadcast.py. Queue is `CoalescingQueue`, Data the access rule
--     `entitled_level`, Fanout the broadcasts over the set of connections, Personal the pushes to one
--     user; the other files are proofs, Entitlement and PersonalView with what a viewer may see, written
--     apart from the code.
--     A blocked `get` is a round that returns nothing and clears the event.
--   Db: `save_object` of backend/src/db.py (Save), on the table of objects as a dict, and the inputs
--     of the entitlement fingerprint (AccessVersion); Consistency and Lockstep are proofs. The JSON encoder and the
--     database's clock are parameters; the proofs ask of the encoder only that no text is empty.
--   Promo: `_recompute` of backend/src/promo_stock.py: Promo is the aggregation, which raises on a row
--     of a promo that is not recomputed (`none`), Promo/Members the stock that a member record carries;
--     Tally, Balance and Conservation are proofs. The queries of the rows ask for the recomputed promos
--     only.
--   Live: the timer, announcement and judge-call routes of backend/src/routes/tournaments.py. A handler
--     takes the signed-in user, the locked row and its readings of the clock, and ends with the
--     tournament that it saves. Steps makes a step relation of the timer and announcement routes;
--     Invariant, Clock, Called and Extra are proofs. Sums of floats and the seconds of a duration are the record
--     `Floats`.
--   Offline: the offline lock of backend/src/routes/tournaments.py, on a tournament that the server knows.
--     Lock is `go_offline`, `force_takeover`, `force_unlock` and, of `go_online` and `sync_offline`, the
--     checks under the row lock and what becomes of the lock; Exclusion is a proof. The tournament that a
--     device sends is an argument, read already.
--   Sanctions: backend/src/routes/sanctions.py. Validation and Requests are the checks, Create, Update and
--     Delete the three handlers over the sanctions as a dict, Disqualification the state of a player
--     under disqualification; Sound, Restored, Active and Sole are proofs. `tournament_levels` and
--     `subcategories_by_category` are what the engine's reference (engine/src/sanctions.rs) lists. A
--     handler ends with the rows that it saves and what it reflects into the tournament. Round numbers
--     are not negative; the reading of an ISO date is a parameter.
--   Oauth: backend/src/routes/oauth.py over backend/src/db_oauth.py. Store is the four tables, Grant what
--     the handlers share, Authorize the consent screen, Tokens the token endpoint's exchange, rotation
--     and revocation, Endpoint its dispatch and the clients' own tokens, Consents the withdrawal of a
--     consent, Clients the management of clients; the other files are proofs. What is drawn at random and
--     the clock's readings are arguments; hashing and the signed tokens are the record `Crypto`,
--     with no hash for a code verifier that is not ASCII.
--   JudgeDirectory: backend/src/judge_directory.py. Sync is the computation of the wanted roles and of the
--     changed members; Listed and Settled are proofs. The entries, the candidates and the date are arguments.
--   Ratings: backend/src/ratings.py. Window is the start of the rating window, Results the entries of
--     each player, Total the rating; Rolled, Earned and Best are proofs. What the engine computes of a
--     tournament is the record `RatingEngine`.
--   Community: backend/src/community_links.py (Rules, Placement) and the moderator's edit of a link in
--     backend/src/routes/users.py (Saving); Authority and Pins are proofs. Upper-casing is a parameter.
--   Tests: concrete data, runs, and the theorems applied to them.
--
-- Every loop of the modelled code goes once over a list, but for the one that brings a month into its
-- year (`roll_years`), which runs on fuel: each turn adds twelve months, so the number of months below
-- one, and one turn more, is enough.
--
-- Not modelled: the rest of the engine (seating, scoring), SQL and connections, the HTTP layer, mail,
-- push, login and the VEKN services, the frontend and the Discord bot. Of the routes only those above;
-- what follows a commit (push messages) is left out, as are the reading and saving loops around the
-- promo aggregates and the hash over the fingerprint's inputs.
pub mod Prelude
pub mod Models
pub mod Json
pub mod Permissions
pub mod AccessLevels
pub mod Broadcast
pub mod Db
pub mod Promo
pub mod Live
pub mod Offline
pub mod Sanctions
pub mod Oauth
pub mod JudgeDirectory
pub mod Ratings
pub mod Community
mod Tests
