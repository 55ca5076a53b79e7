-- ===== src/Json/Order.antt =====
-- The canonical bytes do not depend on the order in which the fields of a dict were set.
use pact_passport.Base.{
  ◌≡◌, refl, ap, ◌∙◌, ◌≢◌, true, String, arith, codes, codes_injective, lex_le_trans,
  lex_le_antisymm, lex_le_total, text_le,
}
use pact_passport.Json.{Value, Items, Dict, arr, obj, nil, cons, end, field}
use pact_passport.Json.Canonical.{
  insert_field, sort_keys, sort_items, sort_value, print, canonical_json,
}

text_le_antisymm : (s t : String) → text_le s t ≡ true → text_le t s ≡ true → s ≡ t
text_le_antisymm s t h k = codes_injective s t (lex_le_antisymm (codes s) (codes t) h k)

insert_field_comm :
    (k j : String) (v w : Value) (d : Dict)
    → k ≢ j
    → insert_field k v (insert_field j w d) ≡ insert_field j w (insert_field k v d)
unfolding insert_field
insert_field_comm k j v w end h =
    ground (arith, text_le_antisymm k j, lex_le_total (codes k) (codes j))
insert_field_comm k j v w (field i u d) h = ground (
  arith,
  text_le_antisymm k j,
  lex_le_total (codes k) (codes j),
  lex_le_total (codes k) (codes i),
  lex_le_total (codes j) (codes i),
  lex_le_trans (codes k) (codes j) (codes i),
  lex_le_trans (codes j) (codes k) (codes i),
  lex_le_trans (codes k) (codes i) (codes j),
  lex_le_trans (codes j) (codes i) (codes k),
  insert_field_comm k j v w d h,
)

-- Values that differ only in the order in which the fields of dicts were set, at any depth: a dict under a
-- field or in a list is one of the values in it.
pub data Reordered : Value → Value → Type 0 where
  same : (v : Value) → Reordered v v
  swap :
      (k j : String) (v w : Value) (d : Dict)
      → k ≢ j
      → Reordered (obj (field k v (field j w d))) (obj (field j w (field k v d)))
  later :
      (k : String) (v : Value) {d e : Dict}
      → Reordered (obj d) (obj e)
      → Reordered (obj (field k v d)) (obj (field k v e))
  under :
      (k : String) {v w : Value} (d : Dict)
      → Reordered v w
      → Reordered (obj (field k v d)) (obj (field k w d))
  items :
      (v : Value) {vs ws : Items}
      → Reordered (arr vs) (arr ws)
      → Reordered (arr (cons v vs)) (arr (cons v ws))
  item : {v w : Value} (vs : Items) → Reordered v w → Reordered (arr (cons v vs)) (arr (cons w vs))
  twice : {u v w : Value} → Reordered u v → Reordered v w → Reordered u w

keys_of : Value → Dict
keys_of (obj d) = d
keys_of v = end

items_of : Value → Items
items_of (arr vs) = vs
items_of v = nil

sort_value-Reordered : {v w : Value} → Reordered v w → sort_value v ≡ sort_value w
unfolding sort_value keys_of items_of
sort_value-Reordered (same v) = refl
sort_value-Reordered (swap k j v w d h) =
    ap obj (insert_field_comm k j (sort_value v) (sort_value w) (sort_keys d) h)
sort_value-Reordered (later k v r) =
    ap (λ x. obj (insert_field k (sort_value v) (keys_of x))) (sort_value-Reordered r)
sort_value-Reordered (under k d r) =
    ap (λ x. obj (insert_field k x (sort_keys d))) (sort_value-Reordered r)
sort_value-Reordered (items v r) =
    ap (λ x. arr (cons (sort_value v) (items_of x))) (sort_value-Reordered r)
sort_value-Reordered (item vs r) = ap (λ x. arr (cons x (sort_items vs))) (sort_value-Reordered r)
sort_value-Reordered (twice r q) = sort_value-Reordered r ∙ sort_value-Reordered q

-- Dicts that differ only in the order of their fields, or of those of the dicts within them, under a field
-- or in a list at any depth, have the same canonical bytes.
pub canonical_json-Reordered :
    (d e : Dict) → Reordered (obj d) (obj e) → canonical_json d ≡ canonical_json e
unfolding canonical_json sort_value
canonical_json-Reordered d e r = ap print (sort_value-Reordered r)
