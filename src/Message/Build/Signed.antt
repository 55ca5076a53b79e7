-- ===== src/Message/Build/Signed.antt =====
-- What a signed message and its holder proof promise: they are accepted under the keys they were made with.
use pact_passport.Base.{
  ◌≡◌, ◌≢◌, refl, Bool, true, Option, none, some, [], ◌∷◌, arith, eq_iff, string_eq,
}
use pact_passport.Json.{without}
use pact_passport.Platform.{Platform, Bytes, IsLawful}
use pact_passport.Message.{holder_proof_payload, PactMessage}
use pact_passport.Message.Dicts.{message_signable_dict, message_to_dict}
use pact_passport.Message.Build.{sign_message, make_proof}
use pact_passport.Message.Check.{verify_message, verify_holder_proof}

-- The signature is no part of what is signed.
signable_dict-sign_message :
    (p : Platform) (key : Bytes) (m : PactMessage)
    → message_signable_dict (sign_message p key m) ≡ message_signable_dict m
unfolding message_signable_dict sign_message message_to_dict without
signable_dict-sign_message p key m = refl

module _ (p : Platform) (law : IsLawful p) where
  pub verify_message-sign_message :
      (key : Bytes) (m : PactMessage)
      → verify_message p (sign_message p key m) (p.public_key key) ≡ true
  unfolding verify_message sign_message
  verify_message-sign_message key m =
      simp (law.b64decode-b64encode)
        (rw (signable_dict-sign_message p key m) (law.verify-sign _ key))

  verify_holder_proof-make_proof :
      (m : PactMessage) (k : Bytes) (legacy : Bool)
      → k ≢ []
      → m.holder_proof ≡ make_proof p (some k) m.id m.cap_id m.to_agent
      → verify_holder_proof p m (p.public_key k) legacy ≡ true
  unfolding verify_holder_proof make_proof
  verify_holder_proof-make_proof m [] legacy not_empty carried = absurd (not_empty refl)
  verify_holder_proof-make_proof m (b ∷ bs) legacy not_empty carried =
      let payload = holder_proof_payload m.id m.cap_id m.to_agent in
      let sig = p.sign payload (b ∷ bs) in
      ground (
        arith,
        carried,
        law.b64decode-b64encode sig,
        eq_iff (p.b64encode sig) "",
        law.b64encode-sign payload (b ∷ bs),
        law.verify-sign payload (b ∷ bs),
      )

-- The message has a proof that is accepted under the holder's key, if there is one that is not
-- empty, and no proof otherwise.
abbrev pub HolderShown : Platform → PactMessage → Option Bytes → Type 0
HolderShown p m none = m.holder_proof ≡ none
HolderShown p m (some []) = m.holder_proof ≡ none
HolderShown p m (some (b ∷ bs)) =
    (allow_legacy_v07 : Bool)
    → verify_holder_proof p m (p.public_key (b ∷ bs)) allow_legacy_v07 ≡ true

pub make_proof-HolderShown :
    (p : Platform)
    → IsLawful p
    → (k : Option Bytes) (m : PactMessage)
    → m.holder_proof ≡ make_proof p k m.id m.cap_id m.to_agent
    → HolderShown p m k
unfolding make_proof
make_proof-HolderShown p law none m h = h
make_proof-HolderShown p law (some []) m h = h
make_proof-HolderShown p law (some (b ∷ bs)) m h =
    λ legacy. verify_holder_proof-make_proof p law m (b ∷ bs) legacy (λ e. ground (arith, e)) h
