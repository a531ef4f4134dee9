-- ===== src/JudgeDirectory/Listed.antt =====
-- Which role the directory wants for a VEKN id.
use archon_vibe.Prelude.{
  String, ◌≡◌, ap, ◌∙◌, Bool, true, false, not, ◌&&◌, ◌||◌, Option, none, some, List, [], ◌∷◌,
  arith, ◌==◌, string_eq, ==-iff, opt_beq, any, if◌then◌else◌,
}
use archon_vibe.Prelude.Dict.{Dict, lookup, lookup-insert}
use archon_vibe.Models.Roles.{Role, role_eq}
use archon_vibe.JudgeDirectory.Sync.{
  JudgeEntry, directory_role, role_or, flat, note_entry, wanted_roles,
}

-- The entry is in force, for this id, and of a rank with this role.
abbrev pub grants : Role → String → String → JudgeEntry → Bool
grants r today vekn e = e.vekn == vekn && opt_beq (directory_role e today) (some r)

-- The better of the roles that the entries in force for an id give.
abbrev pub listed_role : String → String → List JudgeEntry → Option Role → Option Role
listed_role today vekn entries otherwise =
    if any (grants Role.judge today vekn) entries
    then some Role.judge
    else if any (grants Role.sheriff today vekn) entries
    then some Role.sheriff
    else otherwise

abbrev wants_judge : Option Role → Bool
wants_judge r = opt_beq r (some Role.judge)

note_entry_lem :
    (today vekn : String) (e : JudgeEntry) (wanted : Dict String (Option Role))
    → flat (lookup vekn (note_entry today e wanted)) ≡ (
        if e.vekn == vekn && not (wants_judge (flat (lookup vekn wanted)))
        then role_or (directory_role e today) (flat (lookup vekn wanted))
        else flat (lookup vekn wanted))
unfolding note_entry
note_entry_lem today vekn e wanted = ground (
  arith,
  ==-iff e.vekn vekn,
  lookup-insert vekn e.vekn (role_or (directory_role e today) (flat (lookup e.vekn wanted))) wanted,
)

directory_role-cases :
    (e : JudgeEntry) (today : String)
    → (opt_beq (directory_role e today) none
        || opt_beq (directory_role e today) (some Role.judge)
        || opt_beq (directory_role e today) (some Role.sheriff))
      ≡ true
unfolding directory_role lookup
directory_role-cases e today = ground arith

one_entry :
    (hit judged sheriffed : Bool) (a d : Option Role)
    → (opt_beq d none || opt_beq d (some Role.judge) || opt_beq d (some Role.sheriff)) ≡ true
    → (let b = if hit && not (wants_judge a) then role_or d a else a in
        if wants_judge b
        then some Role.judge
        else if judged
        then some Role.judge
        else if sheriffed
        then some Role.sheriff
        else b)
      ≡ (if wants_judge a
          then some Role.judge
          else if hit && opt_beq d (some Role.judge) || judged
          then some Role.judge
          else if hit && opt_beq d (some Role.sheriff) || sheriffed
          then some Role.sheriff
          else a)
one_entry true judged sheriffed a none h = ground arith
one_entry true judged sheriffed a (some Role.judge) h = ground arith
one_entry true judged sheriffed a (some Role.sheriff) h = ground arith
one_entry true judged sheriffed a (some r) h = ground (arith, h)
one_entry false judged sheriffed a d h = ground (arith)

wanted_roles_lem :
    (today vekn : String) (es : List JudgeEntry) (wanted : Dict String (Option Role))
    → flat (lookup vekn (wanted_roles today es wanted)) ≡ (
        if wants_judge (flat (lookup vekn wanted))
        then some Role.judge
        else listed_role today vekn es (flat (lookup vekn wanted)))
unfolding wanted_roles
wanted_roles_lem today vekn [] wanted = ground arith
wanted_roles_lem today vekn (e ∷ es) wanted =
    wanted_roles_lem today vekn es (note_entry today e wanted)
    ∙ ap (λ a. if wants_judge a then some Role.judge else listed_role today vekn es a)
        (note_entry_lem today vekn e wanted)
    ∙ one_entry (e.vekn == vekn) (any (grants Role.judge today vekn) es)
        (any (grants Role.sheriff today vekn) es) (flat (lookup vekn wanted))
        (directory_role e today) (directory_role-cases e today)

-- The role wanted for a VEKN id is the best that an entry in force gives it, in whichever order and
-- however often the directory lists it.
pub wanted_roles-listed :
    (today vekn : String) (es : List JudgeEntry)
    → flat (lookup vekn (wanted_roles today es [])) ≡ listed_role today vekn es none
unfolding lookup
wanted_roles-listed today vekn es = wanted_roles_lem today vekn es []

pub listed_role-cases :
    (today vekn : String) (es : List JudgeEntry)
    → (opt_beq (listed_role today vekn es none) none
        || opt_beq (listed_role today vekn es none) (some Role.judge)
        || opt_beq (listed_role today vekn es none) (some Role.sheriff))
      ≡ true
listed_role-cases today vekn es = ground arith
