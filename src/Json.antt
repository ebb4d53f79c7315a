-- ===== src/Json.antt =====
-- JSON values as the source handles them: `unknown` and `Record<string, unknown>`. Numbers are the
-- natural ones that the code writes (times, counts). An object is the list of its entries.
use dataspace_ica_ts.Common.{
  ℕ, String, Bool, Option, none, some, List, [], ◌∷◌, ◌==◌, is_empty, if◌then◌else◌,
}
use dataspace_ica_ts.Text.{trim}

mutual
  pub data Json : Type 0 where
    null : Json
    bool : Bool → Json
    num : ℕ → Json
    str : String → Json
    arr : Items → Json
    obj : Entries → Json

  pub data Items : Type 0 where
    nil : Items
    cons : Json → Items → Items

  pub data Entries : Type 0 where
    end : Entries
    entry : String → Json → Entries → Entries

abbrev pub items : Items → List Json
items nil = []
items (cons v vs) = v ∷ items vs

abbrev pub entries : Entries → List (String × Json)
entries end = []
entries (entry k v es) = (k, v) ∷ entries es

abbrev pub of_items : List Json → Items
of_items [] = nil
of_items (v ∷ vs) = cons v (of_items vs)

abbrev pub of_entries : List (String × Json) → Entries
of_entries [] = end
of_entries ((k, v) ∷ es) = entry k v (of_entries es)

-- An array and an object by their parts.
abbrev pub array : List Json → Json
array vs = arr (of_items vs)

abbrev pub object : List (String × Json) → Json
object es = obj (of_entries es)

-- `o[k]`; a key that is absent reads as `undefined`.
unfoldable pub field : String → Entries → Option Json
field k end = none
field k (entry j v es) = if j == k then some v else field k es

-- `value && typeof value === 'object' && !Array.isArray(value) ? value : undefined`
unfoldable pub as_object : Option Json → Option Entries
as_object (some (obj es)) = some es
as_object _ = none

-- `asObject(value)?.k`
unfoldable pub object_field : String → Option Entries → Option Json
object_field k none = none
object_field k (some es) = field k es

-- `typeof value === 'string' ? value.trim() : ''`
unfoldable pub as_string : Option Json → String
as_string (some (str s)) = trim s
as_string _ = ""

-- `Array.isArray(value) ? value : []`
unfoldable pub as_items : Option Json → List Json
as_items (some (arr vs)) = items vs
as_items _ = []

-- An entry that is written only if its text is not empty.
abbrev pub if_text : String → String → List (String × Json)
if_text k s = if is_empty s then [] else (k, str s) ∷ []
