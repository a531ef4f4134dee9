-- ===== src/Db/Consistency.antt =====
-- A write and its broadcast keep every viewer's copy of the object equal to the stored projection of
-- the viewer's level.
use archon_vibe.Prelude.{
  String, ◌≡◌, refl, sym, subst, ap, ◌∙◌, true, ◌&&◌, Option, none, some, is_some, is_none,
  string_eq, some-injective, nonempty_text, if◌then◌else◌, ==-refl,
}
use archon_vibe.Prelude.Dict.{lookup, lookup-insert}
use archon_vibe.Json.{Fields}
use archon_vibe.Models.Roles.{ObjectType}
use archon_vibe.Broadcast.Data.{DataLevel, BroadcastData}
use archon_vibe.Broadcast.Fanout.{Payload, document, tombstone, payload_for, document_of}
use archon_vibe.Db.Save.{
  Row, Objects, Projections, encoded, new_row, broadcast_data, write, projections, save_object,
}

-- What a level holds of an object.
abbrev pub column : DataLevel → Option Row → Option String
column level none = none
column DataLevel.public (some r) = r.public
column DataLevel.member (some r) = r.member
column DataLevel.full (some r) = some r.full

abbrev pub stored : DataLevel → String → Objects → Option String
stored level uid table = column level (lookup uid table)

-- A viewer's copy after a frame, or after none: a tombstone evicts it.
abbrev pub view_after : Option Payload → Option String → Option String
view_after none copy = copy
view_after (some (document json)) copy = some json
view_after (some tombstone) copy = none

document_of-encode :
    (encode : Fields → String) (d : Fields)
    → nonempty_text (encode d) ≡ true
    → document_of (some (encode d)) ≡ some (document (encode d))
document_of-encode encode d h = rw h

-- One level: what it held before, whether it was retracted, and what it holds now.
view_level :
    (encode : Fields → String) (before : Option String) (after : Option Fields)
    → ((d : Fields) → nonempty_text (encode d) ≡ true)
    → view_after
        (if is_some before && is_none (encoded encode after)
          then some tombstone
          else document_of (encoded encode after))
        before
      ≡ encoded encode after
view_level encode none none h = refl
view_level encode (some j) none h = refl
view_level encode none (some d) h = rw (h d)
view_level encode (some j) (some d) h = rw (h d)

view-row :
    (encode : Fields → String) (now : String) (t : ObjectType) (uid : String) (d : Fields)
    (deleted_at : Option String) (ps : Projections) (old : Option Row) (level : DataLevel)
    → ((d : Fields) → nonempty_text (encode d) ≡ true)
    → view_after (payload_for (broadcast_data encode now t uid d ps old) level) (column level old)
      ≡ column level (some (new_row encode now t d deleted_at ps old))
unfolding payload_for broadcast_data new_row
view-row encode now t uid d del ps none DataLevel.public h = view_level encode none ps.public h
view-row encode now t uid d del ps (some r) DataLevel.public h =
    view_level encode r.public ps.public h
view-row encode now t uid d del ps none DataLevel.member h = view_level encode none ps.member h
view-row encode now t uid d del ps (some r) DataLevel.member h =
    view_level encode r.member ps.member h
view-row encode now t uid d del ps old DataLevel.full h = rw (h ps.full)

write-view :
    (encode : Fields → String) (now : String) (t : ObjectType) (uid : String) (d : Fields)
    (deleted_at : Option String) (table : Objects) (found : Option Projections) (bd : BroadcastData)
    (table' : Objects) (level : DataLevel)
    → ((d : Fields) → nonempty_text (encode d) ≡ true)
    → write encode now t uid d deleted_at table found ≡ some (bd, table')
    → view_after (payload_for bd level) (stored level uid table) ≡ stored level uid table'
unfolding write
write-view encode now t uid d del table none bd table' level h w = absurd (cc)
write-view encode now t uid d del table (some ps) bd table' level h w =
    let old = lookup uid table in
    let r = new_row encode now t d del ps old in
    let found = some-injective w in
    subst
      (λ (p : BroadcastData × Objects).
        view_after (payload_for p.0 level) (stored level uid table) ≡ stored level uid p.1)
      found
      (view-row encode now t uid d del ps old level h
        ∙ sym (ap (column level) {y = some r} (lookup-insert uid uid r table ∙ rw (==-refl uid))))

-- After a write, a viewer whose copy was the stored projection of its level, and who applies the
-- frame that this level is sent, again has the stored projection: a shown object arrives, an object
-- that left the level is evicted, and one that was never there stays absent.
pub save_object-view :
    (encode : Fields → String) (now : String) (t : ObjectType) (uid : String) (d : Fields)
    (deleted_at : Option String) (table : Objects) (bd : BroadcastData) (table' : Objects)
    (level : DataLevel)
    → ((d : Fields) → nonempty_text (encode d) ≡ true)
    → save_object encode now t uid d deleted_at table ≡ some (bd, table')
    → view_after (payload_for bd level) (stored level uid table) ≡ stored level uid table'
unfolding save_object
save_object-view encode now t uid d del table =
    write-view encode now t uid d del table (projections t d)
