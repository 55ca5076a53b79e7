-- ===== src/Json/Canonical.antt =====
-- canonical_json of _canonical.py: json.dumps(obj, sort_keys=True, separators=(",", ":"),
-- ensure_ascii=True).encode("utf-8"). The bytes are ASCII codes.
use pact_passport.Base.{
  ℕ, zero, suc, ◌+◌, ◌-◌, ◌/◌, ◌%◌, ℤ, pos, negsuc, true, false, ◌&&◌, String, List, [], ◌∷◌, ◌++◌,
  codes, text_le, ltb, leb, ◌==◌, nat_eq, if◌then◌else◌,
}
use pact_passport.Json.{Value, Items, Dict, null, bool, int, str, arr, obj, nil, cons, end, field}

-- A digit of "\u{0:04x}".
abbrev pub hex : ℕ → ℕ
hex d = if ltb d 10 then 48 + d else 87 + d

unfoldable pub escape_unit : ℕ → List ℕ
escape_unit n =
    b'\\' ∷ b'u' ∷ hex (n / 4096) ∷ hex (n / 256 % 16) ∷ hex (n / 16 % 16) ∷ hex (n % 16) ∷ []

-- The characters that json escapes by a letter.
unfoldable pub escape_letter : ℕ → ℕ
escape_letter c =
    if c == 34
    then 34
    else if c == 92
    then 92
    else if c == 8
    then 98
    else if c == 12
    then 102
    else if c == 10
    then 110
    else if c == 13
    then 114
    else if c == 9
    then 116
    else 0

unfoldable pub escape : ℕ → List ℕ
escape c =
    if ltb 0 (escape_letter c)
    then 92 ∷ escape_letter c ∷ []
    else if leb 32 c && leb c 126
    then c ∷ []
    else if ltb c 65536
    then escape_unit c
    else escape_unit (55296 + (c - 65536) / 1024 % 1024) ++ escape_unit (56320 + (c - 65536) % 1024)

unfoldable pub escape_all : List ℕ → List ℕ
unfolding escape escape_unit escape_letter
escape_all [] = []
escape_all (c ∷ cs) = escape c ++ escape_all cs

unfoldable pub quote : String → List ℕ
unfolding escape_all
quote s = 34 ∷ escape_all (codes s) ++ (34 ∷ [])

-- int.__repr__, with a number of rounds that is enough.
decimal_rounds : ℕ → ℕ → List ℕ
decimal_rounds zero n = []
decimal_rounds (suc f) n =
    let rest = decimal_rounds f (n / 10) ++ ((48 + n % 10) ∷ []) in
    if ltb n 10 then (48 + n) ∷ [] else rest

unfoldable pub decimal : ℤ → List ℕ
unfolding decimal_rounds
decimal (pos n) = decimal_rounds (suc n) n
decimal (negsuc n) = 45 ∷ decimal_rounds (suc (suc n)) (suc n)

unfoldable mutual
  unfolding quote decimal

  pub print : Value → List ℕ
  print null = codes "null"
  print (bool true) = codes "true"
  print (bool false) = codes "false"
  print (int n) = decimal n
  print (str s) = quote s
  print (arr nil) = codes "[]"
  print (arr (cons x xs)) = 91 ∷ print x ++ print_items xs ++ (93 ∷ [])
  print (obj end) = codes "{}"
  print (obj (field k v d)) = 123 ∷ quote k ++ (58 ∷ print v) ++ print_fields d ++ (125 ∷ [])

  -- What follows the first item or field.
  pub print_items : Items → List ℕ
  print_items nil = []
  print_items (cons x xs) = 44 ∷ print x ++ print_items xs

  pub print_fields : Dict → List ℕ
  print_fields end = []
  print_fields (field k v d) = 44 ∷ quote k ++ (58 ∷ print v) ++ print_fields d

-- A field into its place, by key.
unfoldable pub insert_field : String → Value → Dict → Dict
insert_field k v end = field k v end
insert_field k v (field j w d) =
    if text_le k j then field k v (field j w d) else field j w (insert_field k v d)

-- `sort_keys=True` sorts the dicts within too.
unfoldable mutual
  unfolding insert_field

  pub sort_value : Value → Value
  sort_value null = null
  sort_value (bool b) = bool b
  sort_value (int n) = int n
  sort_value (str s) = str s
  sort_value (arr xs) = arr (sort_items xs)
  sort_value (obj d) = obj (sort_keys d)

  pub sort_items : Items → Items
  sort_items nil = nil
  sort_items (cons x xs) = cons (sort_value x) (sort_items xs)

  pub sort_keys : Dict → Dict
  sort_keys end = end
  sort_keys (field k v d) = insert_field k (sort_value v) (sort_keys d)

unfoldable pub canonical_json : Dict → List ℕ
unfolding sort_value print
canonical_json d = print (obj (sort_keys d))
