-- ===== src/Json/Laws.antt =====
-- Reading a document behind each operation on it.
use archon_vibe.Prelude.{
  String, ◌≡◌, refl, Bool, true, false, not, none, some, List, [], ◌∷◌, ◌&&◌, arith, ◌==◌,
  string_eq, ==-iff, member, is_some, Bool-cases, inl, inr, sym, ap, ◌∙◌, if◌then◌else◌,
}
use mathlib.Core.Bool.{false≢true}
use archon_vibe.Json.{Json, Fields, end, field, get, filter_keys, put, pick, without}

pub get-filter_keys :
    (k : String) (p : String → Bool) (d : Fields)
    → get k (filter_keys p d) ≡ (if p k then get k d else none)
unfolding get filter_keys
get-filter_keys k p end = ground arith
get-filter_keys k p (field j v d) = ground (arith, ==-iff j k, get-filter_keys k p d)

pub get-put :
    (j k : String) (v : Json) (d : Fields)
    → get j (put k v d) ≡ (if k == j then some v else get j d)
unfolding get put
get-put j k v end = refl
get-put j k v (field i w d) = ground (arith, ==-iff i k, ==-iff k j, ==-iff i j, get-put j k v d)

pub get-pick :
    (k : String) (ks : List String) (d : Fields)
    → get k (pick ks d) ≡ (if member k ks then get k d else none)
unfolding pick
get-pick k ks d = get-filter_keys k (λ j. member j ks) d

pub get-without :
    (k : String) (ks : List String) (d : Fields)
    → get k (without ks d) ≡ (if member k ks then none else get k d)
unfolding without
get-without k ks d = ground (arith, get-filter_keys k (λ j. not (member j ks)) d)

-- Sets of field names, compared by evaluation.
unfoldable pub all_in : List String → List String → Bool
all_in [] ys = true
all_in (x ∷ xs) ys = member x ys && all_in xs ys

pub all_in-member :
    (k : String) (xs ys : List String)
    → all_in xs ys ≡ true
    → member k xs ≡ true
    → member k ys ≡ true
unfolding all_in
all_in-member k [] ys h m = absurd (cc)
all_in-member k (x ∷ xs) ys h m = ground (arith, ==-iff k x, all_in-member k xs ys)

-- Every field of the first document is a field of the second.
abbrev pub Within : Fields → Fields → Type 0
Within p q = (k : String) → is_some (get k p) ≡ true → is_some (get k q) ≡ true

pub pick-Within :
    (xs ys : List String) (d : Fields) → all_in xs ys ≡ true → Within (pick xs d) (pick ys d)
pick-Within xs ys d h k = ground (arith, get-pick k xs d, get-pick k ys d, all_in-member k xs ys h)

-- No name of the first list stands in the second.
unfoldable pub none_in : List String → List String → Bool
none_in [] ys = true
none_in (x ∷ xs) ys = not (member x ys) && none_in xs ys

pub none_in-member :
    (k : String) (xs ys : List String)
    → none_in xs ys ≡ true
    → member k xs ≡ true
    → member k ys ≡ false
unfolding none_in
none_in-member k [] ys h m = absurd (cc)
none_in-member k (x ∷ xs) ys h m = ground (arith, ==-iff k x, none_in-member k xs ys)

pub pick-Within-without :
    (xs ys : List String) (d : Fields) → none_in xs ys ≡ true → Within (pick xs d) (without ys d)
pick-Within-without xs ys d h k =
    ground (arith, get-pick k xs d, get-without k ys d, none_in-member k xs ys h)

-- A name of the list is no name outside it.
pub eq_false_of_member :
    (j k : String) (ks : List String) → member j ks ≡ false → member k ks ≡ true → (j == k) ≡ false
eq_false_of_member j k ks outside inside = elim (Bool-cases (j == k)) [
  | inl same ↦
      absurd (false≢true (sym outside ∙ ap (λ i. member i ks) ((==-iff j k).0 same) ∙ inside))
  | inr other ↦ other
]
