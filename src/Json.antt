-- ===== src/Json.antt =====
-- The values that `json.loads` returns, and how the bridge reads them: `dict.get`, `in`,
-- `isinstance`, and the helpers `_object`, `_count` of
-- openai_compatible_bridge/core/provider_adapter.py. A float is kept by its text, since no code that
-- is modelled computes with it; the keys of an object are distinct, as in a Python dict.
use openai_compatible_bridge.Prelude.{
  ℕ, zero, Bool, true, false, not, ◌||◌, Option, none, some, String, List, [], ◌∷◌, if◌then◌else◌,
  str_eq,
}
use openai_compatible_bridge.Prelude.Int.{ℤ, pos}

mutual
  pub data Value : Type 0 where
    null : Value
    bool : Bool → Value
    int : ℤ → Value
    float : String → Value
    str : String → Value
    list : Values → Value
    dict : Fields → Value

  pub data Values : Type 0 where
    nil : Values
    cons : Value → Values → Values

  pub data Fields : Type 0 where
    end : Fields
    field : String → Value → Fields → Fields

-- `d.get(key)`, with None for a missing key.
unfoldable pub get : String → Fields → Value
get k end = null
get k (field j v d) = if str_eq j k then v else get k d

-- `key in d`
unfoldable pub has : String → Fields → Bool
has k end = false
has k (field j v d) = str_eq j k || has k d

-- `value is None`
abbrev pub is_null : Value → Bool
is_null null = true
is_null _ = false

-- `isinstance(value, dict)`
abbrev pub is_dict : Value → Bool
is_dict (dict d) = true
is_dict _ = false

-- `_object`: the dict, or an empty one.
abbrev pub object : Value → Fields
object (dict d) = d
object _ = end

-- `_count`: a non-negative int that is no bool.
abbrev pub count_of : Value → Option ℕ
count_of (int (pos n)) = some n
count_of _ = none

-- The text of a str.
abbrev pub text_of : Value → Option String
text_of (str s) = some s
text_of _ = none

-- `value in (t₁, t₂, …)` for texts.
unfoldable pub one_of : Value → List String → Bool
one_of v [] = false
one_of (str s) (t ∷ ts) = str_eq s t || one_of (str s) ts
one_of _ (t ∷ ts) = false

-- `value == t` for a text.
abbrev pub is_text : String → Value → Bool
is_text t (str s) = str_eq s t
is_text t _ = false

-- `bool(value)`
unfoldable pub truthy : Value → Bool
truthy null = false
truthy (bool b) = b
truthy (int (pos zero)) = false
truthy (int n) = true
truthy (float t) = not (str_eq t "0.0" || str_eq t "-0.0")
truthy (str s) = not (str_eq s "")
truthy (list nil) = false
truthy (list (cons v vs)) = true
truthy (dict end) = false
truthy (dict (field k v d)) = true
