-- ===== src/Base/Texts.antt =====
-- Python's `str`: its code points, and the order of two texts.
use Prim.Native.Nat.{ℕ, ◌+◌, ◌/◌, ◌%◌, ◌<◌, compare, Ordering}
use Prim.Native.Char.{Char, char, code, IsLt}
use Prim.Native.String.{String}
use mathlib.Core.Path.{◌≡◌, refl, ap₂}
use mathlib.Core.Logic.{◌⊎◌, inl, inr}
use mathlib.Core.Bool.{◌||◌, ◌&&◌, Bool, true, false}
use mathlib.Core.List.{List, [], ◌∷◌, ◌++◌}
use native.Mathlib.Omega.{arith}
use text.Mathlib.TextEquality.{Char-path}
use pact_passport.Base.Tests.{nat_beq, leb, if◌then◌else◌, ltb}

abbrev pub codes : String → List ℕ
codes String.[] = []
codes (String.◌∷◌ c s) = code c ∷ codes s

pub head_eq : {a b : ℕ} {xs ys : List ℕ} → ◌≡◌ {A = List ℕ} (a ∷ xs) (b ∷ ys) → a ≡ b
head_eq h = ground arith

pub tail_eq : {a b : ℕ} {xs ys : List ℕ} → ◌≡◌ {A = List ℕ} (a ∷ xs) (b ∷ ys) → xs ≡ ys
tail_eq h = ground arith

pub codes_injective : (s t : String) → codes s ≡ codes t → s ≡ t
codes_injective String.[] String.[] h = refl
codes_injective String.[] (String.◌∷◌ d t) h = cc
codes_injective (String.◌∷◌ c s) String.[] h = cc
codes_injective (String.◌∷◌ c s) (String.◌∷◌ d t) h =
    ap₂ String.◌∷◌ (Char-path c d (head_eq h)) (codes_injective s t (tail_eq h))

-- `IsScalar n` computes to this, which has names for its two parts.
abbrev Both : Ordering → Ordering → Type 0
Both Ordering.lt o = IsLt o
Both Ordering.eq o = ⊥
Both Ordering.gt o = ⊥

abbrev Scalar : Ordering → Ordering → Ordering → Type 0
Scalar Ordering.lt o p = Unit
Scalar Ordering.eq o p = Both o p
Scalar Ordering.gt o p = Both o p

IsLt-eq : (o : Ordering) → IsLt o → o ≡ Ordering.lt
IsLt-eq Ordering.lt h = refl
IsLt-eq Ordering.eq h = absurd h
IsLt-eq Ordering.gt h = absurd h

Both-eq : (o p : Ordering) → Both o p → (o ≡ Ordering.lt) × (p ≡ Ordering.lt)
Both-eq Ordering.lt p h = (refl, IsLt-eq p h)
Both-eq Ordering.eq p h = absurd h
Both-eq Ordering.gt p h = absurd h

Scalar-cases :
    (o p q : Ordering) → Scalar o p q → (o ≡ Ordering.lt) ⊎ ((p ≡ Ordering.lt) × (q ≡ Ordering.lt))
Scalar-cases Ordering.lt p q h = inl refl
Scalar-cases Ordering.eq p q h = inr (Both-eq p q h)
Scalar-cases Ordering.gt p q h = inr (Both-eq p q h)

-- The code of a character is no surrogate.
pub code_scalar : (c : Char) → ((code c < 55296) ⊎ (57343 < code c)) × (code c < 1114112)
code_scalar (char n p) =
    ground (arith, Scalar-cases (compare n 55296) (compare 57343 n) (compare n 1114112) p)

-- The order of texts is that of their code points, the first difference deciding.
unfoldable pub lex_le : List ℕ → List ℕ → Bool
lex_le [] ys = true
lex_le (x ∷ xs) [] = false
lex_le (x ∷ xs) (y ∷ ys) = if ltb x y then true else if ltb y x then false else lex_le xs ys

pub lex_le_trans :
    (xs ys zs : List ℕ) → lex_le xs ys ≡ true → lex_le ys zs ≡ true → lex_le xs zs ≡ true
unfolding lex_le
lex_le_trans [] ys zs h k = refl
lex_le_trans (x ∷ xs) [] zs h k = ground arith
lex_le_trans (x ∷ xs) (y ∷ ys) [] h k = ground arith
lex_le_trans (x ∷ xs) (y ∷ ys) (z ∷ zs) h k = ground (arith, lex_le_trans xs ys zs)

pub lex_le_antisymm : (xs ys : List ℕ) → lex_le xs ys ≡ true → lex_le ys xs ≡ true → xs ≡ ys
unfolding lex_le
lex_le_antisymm [] [] h k = refl
lex_le_antisymm [] (y ∷ ys) h k = ground arith
lex_le_antisymm (x ∷ xs) [] h k = ground arith
lex_le_antisymm (x ∷ xs) (y ∷ ys) h k = ground (arith, lex_le_antisymm xs ys)

pub lex_le_total : (xs ys : List ℕ) → lex_le xs ys ≡ false → lex_le ys xs ≡ true
unfolding lex_le
lex_le_total [] [] h = ground arith
lex_le_total [] (y ∷ ys) h = ground arith
lex_le_total (x ∷ xs) [] h = refl
lex_le_total (x ∷ xs) (y ∷ ys) h = ground (arith, lex_le_total xs ys)

-- `s <= t`
abbrev pub text_le : String → String → Bool
text_le s t = lex_le (codes s) (codes t)

-- UTF-8 of one code point.
unfoldable pub utf8 : ℕ → List ℕ
utf8 c =
    if ltb c 128
    then c ∷ []
    else if ltb c 2048
    then (192 + c / 64) ∷ (128 + c % 64) ∷ []
    else if ltb c 65536
    then (224 + c / 4096) ∷ (128 + c / 64 % 64) ∷ (128 + c % 64) ∷ []
    else (240 + c / 262144) ∷ (128 + c / 4096 % 64) ∷ (128 + c / 64 % 64) ∷ (128 + c % 64) ∷ []

-- `s.encode()`
unfoldable pub encode : String → List ℕ
unfolding utf8
encode String.[] = []
encode (String.◌∷◌ c s) = utf8 (code c) ++ encode s

-- The characters that str.strip() takes away.
abbrev is_space : ℕ → Bool
is_space c =
    (leb 9 c && leb c 13)
    || ((leb 28 c && leb c 32)
        || (nat_beq c 133
            || (nat_beq c 160
                || (nat_beq c 5760
                    || ((leb 8192 c && leb c 8202)
                        || (nat_beq c 8232
                            || (nat_beq c 8233
                                || (nat_beq c 8239 || (nat_beq c 8287 || nat_beq c 12288)))))))))

unfoldable all_space : List ℕ → Bool
all_space [] = true
all_space (c ∷ cs) = let rest = all_space cs in is_space c && rest

-- `not s.strip()`
unfoldable pub is_blank : String → Bool
unfolding all_space
is_blank s = all_space (codes s)
