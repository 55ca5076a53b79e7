-- ===== src/Platform.antt =====
-- What the program takes from PyNaCl (crypto.py wraps it) and from Python's base64, hashlib and
-- datetime, as one record of functions, and what the program relies on of them.
use pact_passport.Base.{
  refl, inr, inl, Bool-cases, false, ℕ, ◌≡◌, ◌≢◌, true, Bool, String, Option, none, some, is_blank,
  List,
}

-- A moment in microseconds since datetime.min, the start of the year 1. A naive datetime carries no offset,
-- and Python refuses to compare one with an aware datetime.
pub data Datetime : Type 0 where
  aware : ℕ → Datetime
  naive : ℕ → Datetime

abbrev pub Bytes : Type 0
Bytes = List ℕ

pub record Platform : Type 0 where
  -- crypto.sign(message, private_key), the public key of a private one, and
  -- crypto.verify(message, signature, public_key)
  pub sign : Bytes → Bytes → Bytes
  pub public_key : Bytes → Bytes
  pub verify : Bytes → Bytes → Bytes → Bool
  -- crypto.sha256_digest
  pub sha256_digest : Bytes → String
  -- base64.b64encode(b).decode("ascii"), and base64.b64decode: `none` is binascii.Error
  pub b64encode : Bytes → String
  pub b64decode : String → Option Bytes
  -- datetime.fromisoformat: `none` is ValueError; isoformat of a datetime in UTC
  pub fromisoformat : String → Option Datetime
  pub isoformat : ℕ → String

-- A signature verifies under its own key, base64 can be read back and is not empty for a signature,
-- a blank text is no moment, and a printed moment can be read back.
pub record IsLawful (p : Platform) : Type 0 where
  pub verify-sign : (m k : Bytes) → p.verify m (p.sign m k) (p.public_key k) ≡ true
  pub b64decode-b64encode : (b : Bytes) → p.b64decode (p.b64encode b) ≡ some b
  pub b64encode-sign : (m k : Bytes) → p.b64encode (p.sign m k) ≢ ""
  pub fromisoformat-blank : (s : String) → is_blank s ≡ true → p.fromisoformat s ≡ none
  pub fromisoformat-isoformat : (t : ℕ) → p.fromisoformat (p.isoformat t) ≡ some (aware t)

-- The ideal of a signature scheme: a signature verifies, under the signer's key, for the message that
-- was signed and for no other.
pub record IsBinding (p : Platform) : Type 0 where
  pub binds : (m n k : Bytes) → p.verify m (p.sign n k) (p.public_key k) ≡ true → m ≡ n

pub isoformat-not_blank : (p : Platform) → IsLawful p → (t : ℕ) → is_blank (p.isoformat t) ≡ false
isoformat-not_blank p law t = elim (Bool-cases (is_blank (p.isoformat t))) [
  | inl e ↦ cc (law.fromisoformat-isoformat t, law.fromisoformat-blank (p.isoformat t) e)
  | inr e ↦ e
]

blank : is_blank "" ≡ true
unfolding is_blank
blank = refl

pub isoformat-not_empty : (p : Platform) → IsLawful p → (t : ℕ) → p.isoformat t ≢ ""
isoformat-not_empty p law t h = cc (h, isoformat-not_blank p law t, blank)
