-- ===== src/Message/Dicts/RoundTrip.antt =====
-- from_dict undoes to_dict.
use pact_passport.Base.{◌≡◌, refl, ℤ, Bool, String, Option, none, some, List, [], ◌∷◌, string_eq}
use pact_passport.Json.{Dict, end, field}
use pact_passport.Errors.{ok}
use pact_passport.Wire.{over, field_laws}
use pact_passport.Message.{PactMessage}
use pact_passport.Message.Dicts.{
  text_items, texts_of, dict_value, bool_value, int_value, payload_value, maybe_dict, maybe_bool,
  maybe_int, dict_or_end, message_to_dict, message_from_dict,
}

texts_round_trip : (ss : List String) → texts_of (text_items ss) ≡ ok ss
unfolding texts_of text_items
texts_round_trip [] = refl
texts_round_trip (s ∷ ss) = simp (texts_round_trip ss)

maybe_dict-dict_value : (o : Option Dict) → maybe_dict (over (dict_value o) none) ≡ ok o
maybe_dict-dict_value none = refl
maybe_dict-dict_value (some d) = refl

maybe_bool-bool_value : (o : Option Bool) → maybe_bool (over (bool_value o) none) ≡ ok o
maybe_bool-bool_value none = refl
maybe_bool-bool_value (some b) = refl

maybe_int-int_value : (o : Option ℤ) → maybe_int (over (int_value o) none) ≡ ok o
maybe_int-int_value none = refl
maybe_int-int_value (some n) = refl

dict_or_end-payload_value : (d : Dict) → dict_or_end (over (payload_value d) none) ≡ ok d
dict_or_end-payload_value end = refl
dict_or_end-payload_value (field k v d) = refl

-- What to_dict writes of a message, from_dict reads back as the same message, whichever of the
-- optional fields it has.
pub message_round_trip : (m : PactMessage) → message_from_dict (message_to_dict m) ≡ ok m
unfolding message_from_dict message_to_dict
message_round_trip m = simp (
  field_laws, texts_round_trip, maybe_dict-dict_value, maybe_bool-bool_value, maybe_int-int_value,
  dict_or_end-payload_value,
)
