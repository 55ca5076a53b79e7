-- ===== src/Json/Members.antt =====
-- The text members of a printed dict can be read off its bytes.
use pact_passport.Base.{◌≡◌, sym, ◌∙◌, ℕ, String, List, [], ◌∷◌, ◌++◌, tail_eq}
use pact_passport.Json.{Value, Dict, str, field, obj}
use pact_passport.Json.Canonical.{quote, print, print_fields}
use pact_passport.Json.Quote.{quote_injective}
use mathlib.Core.List.{append_assoc}

member_bytes :
    (k v : String) (d : Dict) (t : List ℕ)
    → print_fields (field k (str v) d) ++ t
      ≡ 44 ∷ (quote k ++ (58 ∷ (quote v ++ (print_fields d ++ t))))
unfolding print_fields
member_bytes k v d t = simp (append_assoc)

first_bytes :
    (k v : String) (d : Dict)
    → print (obj (field k (str v) d))
      ≡ 123 ∷ (quote k ++ (58 ∷ (quote v ++ (print_fields d ++ (125 ∷ [])))))
unfolding print
first_bytes k v d = simp (append_assoc)

both_members :
    (j k v w : String) (r q : List ℕ)
    → quote j ++ (58 ∷ (quote v ++ r)) ≡ quote k ++ (58 ∷ (quote w ++ q))
    → (j ≡ k) × (v ≡ w) × (r ≡ q)
both_members j k v w r q h =
    let (same, rest) = quote_injective j k (58 ∷ (quote v ++ r)) (58 ∷ (quote w ++ q)) h in
    let (values, others) = quote_injective v w r q (tail_eq rest) in (same, values, others)

pub members_injective :
    (j k v w : String) (c d : Dict) (r q : List ℕ)
    → print_fields (field j (str v) c) ++ r ≡ print_fields (field k (str w) d) ++ q
    → (j ≡ k) × (v ≡ w) × (print_fields c ++ r ≡ print_fields d ++ q)
members_injective j k v w c d r q h =
    both_members j k v w _ _ (tail_eq (sym (member_bytes j v c r) ∙ h ∙ member_bytes k w d q))

pub first_members_injective :
    (j k v w : String) (c d : Dict)
    → print (obj (field j (str v) c)) ≡ print (obj (field k (str w) d))
    → (j ≡ k) × (v ≡ w) × (print_fields c ++ (125 ∷ []) ≡ print_fields d ++ (125 ∷ []))
first_members_injective j k v w c d h =
    both_members j k v w _ _ (tail_eq (sym (first_bytes j v c) ∙ h ∙ first_bytes k w d))

append_left_cancel : (xs ys zs : List ℕ) → xs ++ ys ≡ xs ++ zs → ys ≡ zs
append_left_cancel [] ys zs h = h
append_left_cancel (x ∷ xs) ys zs h = append_left_cancel xs ys zs (tail_eq h)

-- A member that two printed dicts share can be taken off.
pub shared_member :
    (k : String) (v : Value) (c d : Dict) (r q : List ℕ)
    → print_fields (field k v c) ++ r ≡ print_fields (field k v d) ++ q
    → print_fields c ++ r ≡ print_fields d ++ q
unfolding print_fields
shared_member k v c d r q h = append_left_cancel (44 ∷ (quote k ++ (58 ∷ print v))) _ _ (
    sym (append_assoc (44 ∷ (quote k ++ (58 ∷ print v))) (print_fields c) r)
    ∙ h
    ∙ append_assoc (44 ∷ (quote k ++ (58 ∷ print v))) (print_fields d) q)
