-- ===== src/Json.antt =====
-- The values that the SDK hands to encoding/json (`map[string]any` and what it holds), and the
-- decoded `meta` objects that it reads. A map is an association list. `marshaler` is a value with a
-- MarshalJSON of its own: the text that this returned, or none for an error.
use tamga_go.Base.{ℤ, Bool, Option, none, some, List, [], ◌∷◌, if◌then◌else◌}
use tamga_go.Text.{Bytes, ◌==◌}

mutual
  pub data Json : Type 0 where
    null : Json
    bool : Bool → Json
    int : ℤ → Json
    str : Bytes → Json
    arr : Items → Json
    obj : Fields → Json
    marshaler : Option Bytes → Json

  pub data Items : Type 0 where
    end : Items
    item : Json → Items → Items

  pub data Fields : Type 0 where
    done : Fields
    field : Bytes → Json → Fields → Fields

abbrev pub Object : Type 0
Object = List (Bytes × Json)

abbrev pub fields : Object → Fields
fields [] = done
fields ((k, v) ∷ o) = field k v (fields o)

abbrev pub object : Object → Json
object o = obj (fields o)

abbrev pub texts : List Bytes → Items
texts [] = end
texts (s ∷ l) = item (str s) (texts l)

-- A pointer that is nil is encoded as null.
abbrev pub str_or_null : Option Bytes → Json
str_or_null none = null
str_or_null (some s) = str s

abbrev pub int_or_null : Option ℤ → Json
int_or_null none = null
int_or_null (some n) = int n

-- `m[key]`, with `none` for a missing key.
unfoldable pub lookup {ℓ} : {V : Type ℓ} → Bytes → List (Bytes × V) → Option V
lookup key [] = none
lookup key ((k, v) ∷ o) = if k == key then some v else lookup key o

abbrev as_text : Option Json → Option Bytes
as_text (some (str [])) = none
as_text (some (str (c ∷ s))) = some (c ∷ s)
as_text _ = none

-- `v, ok := m[key].(string)`, refused when empty.
unfoldable pub text_at : Bytes → Object → Option Bytes
unfolding lookup
text_at key o = as_text (lookup key o)
