-- ===== src/Ledger/Canonical.antt =====
-- `canonicalize` and `sha3_384`: a JSON value with the keys of its objects in order, and its digest.
-- Keys are compared by code points, which is the order of the platform within the basic plane.
-- Keys that look like array indices, which an object of the platform lists first, are ordered like
-- the others.
use Prim.Native.String
use Prim.Native.Nat.{Ordering}
use dataspace_ica_ts.Common.{String}
use dataspace_ica_ts.Json.{Json, Items, Entries, arr, obj, nil, cons, end, entry}
use dataspace_ica_ts.Ledger.{Platform}

-- An entry put into its place.
unfoldable pub insert_entry : String → Json → Entries → Entries
insert_entry k v end = entry k v end
insert_entry k v (entry j w es) =
    let later = entry j w (insert_entry k v es) in
    elim (String.compare k j) [ Ordering.gt ↦ later | _ ↦ entry k v (entry j w es) ]

unfoldable mutual
  pub canonicalize : Json → Json
  canonicalize (arr vs) = arr (canonicalize_items vs)
  canonicalize (obj es) = obj (canonicalize_entries es)
  canonicalize v = v

  pub canonicalize_items : Items → Items
  canonicalize_items nil = nil
  canonicalize_items (cons v vs) = cons (canonicalize v) (canonicalize_items vs)

  pub canonicalize_entries : Entries → Entries
  canonicalize_entries end = end
  canonicalize_entries (entry k v es) = insert_entry k (canonicalize v) (canonicalize_entries es)

-- `sha3_384` of a JSON value that is not a text.
unfoldable pub hash_json : Platform → Json → String
hash_json p v = p.digest (p.stringify (canonicalize v))
