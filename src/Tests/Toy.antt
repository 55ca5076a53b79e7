-- ===== src/Tests/Toy.antt =====
-- A platform of concrete functions: a signature is the key and the message, and a text holds numbers in
-- unary. It is lawful, and a signature binds its message.
use pact_passport.Base.{
  codes, ℕ, zero, suc, ◌+◌, ◌≡◌, ◌≢◌, refl, sym, ap, ◌∙◌, Bool, true, false, ◌&&◌, String, Option,
  none, some, [], ◌∷◌, ◌++◌, arith, ◌==◌, nat_eq, nat_beq, is_blank, if◌then◌else◌, tail_eq,
}
use pact_passport.Platform.{Platform, Bytes, Datetime, aware, naive, IsLawful, IsBinding}
use Prim.Native.Char.{code}

unfoldable pub same_bytes : Bytes → Bytes → Bool
same_bytes [] [] = true
same_bytes [] (y ∷ ys) = false
same_bytes (x ∷ xs) [] = false
same_bytes (x ∷ xs) (y ∷ ys) = let rest = same_bytes xs ys in nat_beq x y && rest

same_bytes_refl : (xs : Bytes) → same_bytes xs xs ≡ true
unfolding same_bytes
same_bytes_refl [] = refl
same_bytes_refl (x ∷ xs) = ground (arith, same_bytes_refl xs)

same_bytes-eq : (xs ys : Bytes) → same_bytes xs ys ≡ true → xs ≡ ys
unfolding same_bytes
same_bytes-eq [] [] h = refl
same_bytes-eq [] (y ∷ ys) h = ground arith
same_bytes-eq (x ∷ xs) [] h = ground arith
same_bytes-eq (x ∷ xs) (y ∷ ys) h = ground (arith, same_bytes-eq xs ys)

abbrev pub marks : ℕ → String → String
marks zero s = s
marks (suc n) s = String.◌∷◌ "a" (marks n s)

unfoldable pub write : Bytes → String
write [] = ""
write (n ∷ ns) = marks n (String.◌∷◌ "b" (write ns))

unfoldable pub read : ℕ → String → Option Bytes
read n String.[] = elim n [ zero ↦ some [] | suc m ↦ none ]
read n (String.◌∷◌ c s) =
    let more = read (suc n) s in
    let next = read 0 s in
    if code c == 97
    then more
    else if code c == 98
    then elim next [ none ↦ none | some ns ↦ some (n ∷ ns) ]
    else none

read-marks : (m n : ℕ) (s : String) → read n (marks m s) ≡ read (m + n) s
unfolding read
read-marks zero n s = ap (λ k. read k s) (ground arith)
read-marks (suc m) n s = read-marks m (suc n) s ∙ ap (λ k. read k s) (ground arith)

read-write : (b : Bytes) → read 0 (write b) ≡ some b
unfolding read write
read-write [] = refl
read-write (n ∷ ns) =
    read-marks n 0 (String.◌∷◌ "b" (write ns))
    ∙ simp (read-write ns) (ap (λ k. some (k ∷ ns)) (ground arith))

unfoldable pub moment : ℕ → String → Option Datetime
moment n String.[] = none
moment n (String.◌∷◌ c s) =
    let more = moment (suc n) s in
    if code c == 97
    then more
    else if code c == 122
    then some (aware n)
    else if code c == 110
    then some (naive n)
    else none

moment-marks : (m n : ℕ) → moment n (marks m "z") ≡ some (aware (m + n))
unfolding moment
moment-marks zero n = ap (λ k. some (aware k)) (ground arith)
moment-marks (suc m) n = moment-marks m (suc n) ∙ ap (λ k. some (aware k)) (ground arith)

moment-blank : (n : ℕ) (s : String) → is_blank s ≡ true → moment n s ≡ none
unfolding moment is_blank
moment-blank n String.[] h = refl
moment-blank n (String.◌∷◌ c s) h = ground (arith, h)

abbrev pub toy : Platform
toy = record {
  sign = λ m k. 0 ∷ (k ++ m);
  public_key = λ k. k;
  verify = λ m s k. same_bytes s (0 ∷ (k ++ m));
  sha256_digest = write;
  b64encode = write;
  b64decode = read 0;
  fromisoformat = moment 0;
  isoformat = λ t. marks t "z";
}

write_not_empty : (n : ℕ) (ns : Bytes) → write (n ∷ ns) ≢ ""
unfolding write
write_not_empty zero ns h = ground (arith, ap codes h)
write_not_empty (suc n) ns h = ground (arith, ap codes h)

pub toy-IsLawful : IsLawful toy
toy-IsLawful = record {
  verify-sign = λ m k. same_bytes_refl (0 ∷ (k ++ m));
  b64decode-b64encode = read-write;
  b64encode-sign = λ m k. write_not_empty 0 (k ++ m);
  fromisoformat-blank = moment-blank 0;
  fromisoformat-isoformat = λ t. moment-marks t 0 ∙ ap (λ k. some (aware k)) (ground arith);
}

cancel : (xs ys zs : Bytes) → xs ++ ys ≡ xs ++ zs → ys ≡ zs
cancel [] ys zs h = h
cancel (x ∷ xs) ys zs h = cancel xs ys zs (tail_eq h)

pub toy-IsBinding : IsBinding toy
toy-IsBinding = record {
  binds = λ m n k h. cancel k m n (sym (tail_eq (same_bytes-eq (0 ∷ (k ++ n)) (0 ∷ (k ++ m)) h)));
}
