-- ===== src/Json.antt =====
-- JSON documents as Python dicts and lists. Numbers stand for whatever number a field holds: the
-- modelled code reads no number out of a document but to see whether it is zero.
pub mod Laws
use archon_vibe.Prelude.{
  ℕ, String, Bool, true, false, not, Option, none, some, List, [], ◌∷◌, ◌==◌, nat_eq, string_eq,
  if◌then◌else◌, member, nonempty_text,
}

mutual
  pub data Json : Type 0 where
    null : Json
    bool : Bool → Json
    num : ℕ → Json
    str : String → Json
    arr : Items → Json
    obj : Fields → Json

  pub data Items : Type 0 where
    nil : Items
    cons : Json → Items → Items

  -- The entries of an object, in insertion order.
  pub data Fields : Type 0 where
    end : Fields
    field : String → Json → Fields → Fields

-- `d.get(k)`
unfoldable pub get : String → Fields → Option Json
get k end = none
get k (field j v f) = if j == k then some v else get k f

-- `{k: v for k, v in d.items() if p(k)}`
unfoldable pub filter_keys : (String → Bool) → Fields → Fields
filter_keys p end = end
filter_keys p (field j v f) = let rest = filter_keys p f in if p j then field j v rest else rest

-- `{k: v for k, v in d.items() if k in ks}`
unfoldable pub pick : List String → Fields → Fields
unfolding filter_keys
pick ks = filter_keys (λ k. member k ks)

-- `{k: v for k, v in d.items() if k not in ks}`
unfoldable pub without : List String → Fields → Fields
unfolding filter_keys
without ks = filter_keys (λ k. not (member k ks))

-- `d[k] = v`
unfoldable pub put : String → Json → Fields → Fields
put k v end = field k v end
put k v (field j w f) = if j == k then field j v f else field j w (put k v f)

-- `bool(v)`
abbrev pub truthy : Json → Bool
truthy Json.null = false
truthy (Json.bool b) = b
truthy (Json.num n) = not (n == 0)
truthy (Json.str s) = nonempty_text s
truthy (Json.arr Items.nil) = false
truthy (Json.arr (Items.cons v vs)) = true
truthy (Json.obj Fields.end) = false
truthy (Json.obj (Fields.field k v f)) = true

-- `bool(d.get(k))`
abbrev pub has : String → Fields → Bool
has k d = elim (get k d) [ none ↦ false | some v ↦ truthy v ]

-- The texts of a list.
unfoldable pub texts : Items → List String
texts nil = []
texts (cons (Json.str s) vs) = s ∷ texts vs
texts (cons _ vs) = texts vs

-- `d.get(k, [])` of a list of texts.
abbrev pub texts_at : String → Fields → List String
texts_at k d = elim (get k d) [ some (Json.arr vs) ↦ texts vs | _ ↦ [] ]
