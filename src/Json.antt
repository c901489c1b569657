-- ===== src/Json.antt =====
-- Values of JSON, which the program's `dict`, `list` and `Any` arguments hold (facts, definitions,
-- payloads, consents), with the operations of `dict` that the code uses. A `dict` keeps the order
-- of insertion; an integer is its sign and its size; a float is its IEEE 754 bit pattern.
pub mod Laws
pub mod Merge
mod Tests
use nudging_tool.Prelude.{
  ℕ, ◌^◌, String, Bool, true, false, not, ◌||◌, ◌&&◌, Option, none, some, List, [], ◌∷◌, ◌==◌, eqb,
  if◌then◌else◌, is_empty,
}

mutual
  pub data Json : Type 0 where
    null : Json
    bool : Bool → Json
    int : (negative : Bool) → (size : ℕ) → Json
    float : (bits : ℕ) → Json
    str : String → Json
    arr : Items → Json
    obj : Dict → Json

  pub data Items : Type 0 where
    nil : Items
    cons : Json → Items → Items

  pub data Dict : Type 0 where
    end : Dict
    field : String → Json → Dict → Dict

-- Python's truth value.
abbrev pub truthy : Json → Bool
truthy null = false
truthy (bool b) = b
truthy (int negative size) = not (eqb size 0)
truthy (float bits) = not (eqb bits 0 || eqb bits (2 ^ 63))
truthy (str s) = not (is_empty s)
truthy (arr nil) = false
truthy (arr (cons x xs)) = true
truthy (obj end) = false
truthy (obj (field k v d)) = true

-- `a or b`
abbrev pub or_else : Json → Json → Json
or_else a b = if truthy a then a else b

abbrev pub is_str : Json → Bool
is_str (str s) = true
is_str _ = false

-- `str(v)`, where `repr` stands for the texts of values that are no texts.
abbrev pub text_of : (Json → String) → Json → String
text_of repr (str s) = s
text_of repr v = repr v

unfoldable pub lookup : String → Dict → Option Json
lookup k end = none
lookup k (field j v d) = if j == k then some v else lookup k d

abbrev pub or_null : Option Json → Json
or_null none = null
or_null (some v) = v

-- `d.get(k)`: `None` for a missing key.
unfoldable pub get : String → Dict → Json
unfolding lookup
get k d = or_null (lookup k d)

-- `k in d`
unfoldable pub has : String → Dict → Bool
has k end = false
has k (field j v d) = j == k || has k d

-- `d[k] = v`: in place if the key is there, at the end otherwise.
unfoldable pub put : String → Json → Dict → Dict
put k v end = field k v end
put k v (field j w d) = if j == k then field j v d else field j w (put k v d)

-- `{**d, **e}`
unfoldable pub update : Dict → Dict → Dict
unfolding put
update d end = d
update d (field k v e) = update (put k v d) e

-- The texts of a list: `[s for s in xs if isinstance(s, str)]`.
abbrev pub texts : Items → List String
texts nil = []
texts (cons (str s) xs) = s ∷ texts xs
texts (cons x xs) = texts xs

-- `[s for s in v if isinstance(s, str)]` if `v` is a list, and nothing otherwise.
abbrev pub texts_of : Json → List String
texts_of (arr xs) = texts xs
texts_of _ = []

abbrev pub of_texts : List String → Items
of_texts [] = nil
of_texts (s ∷ ss) = cons (str s) (of_texts ss)
