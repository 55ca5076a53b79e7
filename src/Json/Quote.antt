-- ===== src/Json/Quote.antt =====
-- The quoted form of a text can be read back, so that two texts in one place of the bytes are equal
-- when the bytes are.
use Prim.Native.Char.{Char, code}
use mathlib.Core.List.{append_assoc}
use pact_passport.Base.{
  ℕ, ◌+◌, ◌-◌, ◌*◌, ◌/◌, ◌%◌, ◌<◌, ◌≡◌, refl, sym, ap, ◌∙◌, ◌⊎◌, ◌&&◌, String, Option, none, some,
  List, [], ◌∷◌, ◌++◌, arith, codes, codes_injective, code_scalar, tail_eq, ◌≢◌, ltb, leb, ◌==◌,
  nat_eq, if◌then◌else◌,
}
use pact_passport.Json.Canonical.{hex, escape_unit, escape_letter, escape, escape_all, quote}

unhex : ℕ → ℕ
unhex x = if ltb x 58 then x - 48 else x - 87

unhex-hex : (d : ℕ) → d < 16 → unhex (hex d) ≡ d
unfolding unhex
unhex-hex d h = ground arith

-- Four hex digits.
read_unit : List ℕ → Option (ℕ × List ℕ)
unfolding unhex
read_unit (a ∷ b ∷ c ∷ d ∷ r) = some (4096 * unhex a + 256 * unhex b + 16 * unhex c + unhex d, r)
read_unit _ = none

abbrev join_units : ℕ → Option (ℕ × List ℕ) → Option (ℕ × List ℕ)
join_units n none = none
join_units n (some (m, r)) = some (65536 + (n - 55296) * 1024 + (m - 56320), r)

abbrev drop_two : List ℕ → List ℕ
drop_two (a ∷ b ∷ r) = r
drop_two r = r

-- A unit that opens a surrogate pair takes the unit after it.
pair_unit : ℕ → List ℕ → Option (ℕ × List ℕ)
unfolding read_unit
pair_unit n r =
    if leb 55296 n && leb n 56319 then join_units n (read_unit (drop_two r)) else some (n, r)

unescape_letter : ℕ → ℕ
unescape_letter e =
    if e == 98
    then 8
    else if e == 102
    then 12
    else if e == 110
    then 10
    else if e == 114
    then 13
    else if e == 116
    then 9
    else e

abbrev after_unit : Option (ℕ × List ℕ) → Option (ℕ × List ℕ)
unfolding pair_unit
after_unit none = none
after_unit (some (n, r)) = pair_unit n r

after_backslash : List ℕ → Option (ℕ × List ℕ)
unfolding unescape_letter read_unit pair_unit
after_backslash [] = none
after_backslash (e ∷ r) = if e == 117 then after_unit (read_unit r) else some (unescape_letter e, r)

-- One character; `none` at the closing quote.
read_one : List ℕ → Option (ℕ × List ℕ)
unfolding after_backslash
read_one [] = none
read_one (x ∷ r) = if x == 34 then none else if x == 92 then after_backslash r else some (x, r)

read_unit-escape_unit :
    (n : ℕ) (r : List ℕ) → n < 65536 → read_unit (drop_two (escape_unit n ++ r)) ≡ some (n, r)
unfolding read_unit escape_unit
read_unit-escape_unit n r h = ground (
  arith,
  unhex-hex (n / 4096),
  unhex-hex (n / 256 % 16),
  unhex-hex (n / 16 % 16),
  unhex-hex (n % 16),
)

read_one-escape_unit :
    (n : ℕ) (r : List ℕ) → n < 65536 → read_one (escape_unit n ++ r) ≡ pair_unit n r
unfolding read_one escape_unit after_backslash
read_one-escape_unit n r h = ground (
  arith,
  unhex-hex (n / 4096),
  unhex-hex (n / 256 % 16),
  unhex-hex (n / 16 % 16),
  unhex-hex (n % 16),
)

read_one-letter :
    (c : ℕ) (r : List ℕ) → 0 < escape_letter c → read_one (92 ∷ escape_letter c ∷ r) ≡ some (c, r)
unfolding read_one escape_letter after_backslash unescape_letter
read_one-letter c r h = ground arith

read_one-plain : (c : ℕ) (r : List ℕ) → escape_letter c ≡ 0 → read_one (c ∷ r) ≡ some (c, r)
unfolding read_one escape_letter
read_one-plain c r h = ground arith

pair_unit_plain : (n : ℕ) (r : List ℕ) → (n < 55296) ⊎ (57343 < n) → pair_unit n r ≡ some (n, r)
unfolding pair_unit
pair_unit_plain n r h = ground arith

pair_unit_pair :
    (c : ℕ) (r : List ℕ)
    → 65535 < c
    → c < 1114112
    → pair_unit (55296 + (c - 65536) / 1024 % 1024) (escape_unit (56320 + (c - 65536) % 1024) ++ r)
      ≡ some (c, r)
unfolding pair_unit
pair_unit_pair c r h k = ground (arith, read_unit-escape_unit (56320 + (c - 65536) % 1024) r)

read_one-escape :
    (c : ℕ) (r : List ℕ)
    → (c < 55296) ⊎ (57343 < c)
    → c < 1114112
    → read_one (escape c ++ r) ≡ some (c, r)
unfolding escape
read_one-escape c r h k = ground (
  arith,
  append_assoc (escape_unit (55296 + (c - 65536) / 1024 % 1024))
      (escape_unit (56320 + (c - 65536) % 1024)) r,
  read_one-letter c r,
  read_one-plain c r,
  read_one-escape_unit c r,
  pair_unit_plain c r h,
  read_one-escape_unit (55296 + (c - 65536) / 1024 % 1024)
      (escape_unit (56320 + (c - 65536) % 1024) ++ r),
  pair_unit_pair c r,
)

read_one-char : (c : Char) (r : List ℕ) → read_one (escape (code c) ++ r) ≡ some (code c, r)
read_one-char c r = read_one-escape (code c) r (code_scalar c).0 (code_scalar c).1

-- Equal bytes from two characters on are equal characters and equal rests.
escape_injective :
    (c d : Char) (r s : List ℕ)
    → escape (code c) ++ r ≡ escape (code d) ++ s
    → (code c ≡ code d) × (r ≡ s)
escape_injective c d r s h = ground (arith, read_one-char c r, read_one-char d s, ap read_one h)

escape-not-quote : (c : Char) (r s : List ℕ) → escape (code c) ++ r ≢ 34 ∷ s
unfolding read_one
escape-not-quote c r s h = ground (arith, read_one-char c r, ap read_one h)

escape_all_injective :
    (s t : String) (r q : List ℕ)
    → escape_all (codes s) ++ (34 ∷ r) ≡ escape_all (codes t) ++ (34 ∷ q)
    → (codes s ≡ codes t) × (r ≡ q)
unfolding escape_all
escape_all_injective String.[] String.[] r q h = (refl, tail_eq h)
escape_all_injective String.[] (String.◌∷◌ d t) r q h = absurd (
    escape-not-quote d (escape_all (codes t) ++ (34 ∷ q)) r
      (sym (h ∙ append_assoc (escape (code d)) (escape_all (codes t)) (34 ∷ q))))
escape_all_injective (String.◌∷◌ c s) String.[] r q h = absurd (
    escape-not-quote c (escape_all (codes s) ++ (34 ∷ r)) q
      (sym (append_assoc (escape (code c)) (escape_all (codes s)) (34 ∷ r)) ∙ h))
escape_all_injective (String.◌∷◌ c s) (String.◌∷◌ d t) r q h = ground (
  arith,
  escape_injective c d (escape_all (codes s) ++ (34 ∷ r)) (escape_all (codes t) ++ (34 ∷ q)) (
      sym (append_assoc (escape (code c)) (escape_all (codes s)) (34 ∷ r))
      ∙ h
      ∙ append_assoc (escape (code d)) (escape_all (codes t)) (34 ∷ q)),
  escape_all_injective s t r q,
)

-- A quoted text and what follows it are determined by the bytes.
pub quote_injective :
    (s t : String) (r q : List ℕ) → quote s ++ r ≡ quote t ++ q → (s ≡ t) × (r ≡ q)
unfolding quote
quote_injective s t r q h =
    let both = escape_all_injective s t r q (
      sym (append_assoc (escape_all (codes s)) (34 ∷ []) r)
      ∙ tail_eq h
      ∙ append_assoc (escape_all (codes t)) (34 ∷ []) q) in
    (codes_injective s t both.0, both.1)
