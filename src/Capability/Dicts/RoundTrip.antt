-- ===== src/Capability/Dicts/RoundTrip.antt =====
-- from_dict undoes to_dict.
use pact_passport.Base.{◌≡◌, ◌≢◌, refl, Option, none, some, List, [], ◌∷◌, string_eq}
use pact_passport.Errors.{ok}
use pact_passport.Wire.{over, truthy-eq, field_laws}
use pact_passport.Capability.{Caveat, DelegationLink, CapabilityToken}
use pact_passport.Capability.Dicts.{
  caveat_to_dict, caveat_from_dict, caveat_items, caveats_of, link_to_dict, link_from_dict,
  link_items, links_of, step_caveats_of, step_caveats_value, chain_value, items_or_nil,
  token_to_dict, token_from_dict,
}

caveat_round_trip : (c : Caveat) → caveat_from_dict (caveat_to_dict c) ≡ ok c
unfolding caveat_from_dict caveat_to_dict
caveat_round_trip c = simp field_laws

caveats_round_trip : (cs : List Caveat) → caveats_of (caveat_items cs) ≡ ok cs
unfolding caveats_of caveat_items
caveats_round_trip [] = refl
caveats_round_trip (c ∷ cs) = simp (caveat_round_trip, caveats_round_trip cs)

step_caveats_lem :
    (o : Option (List Caveat)) → step_caveats_of (over (step_caveats_value o) none) ≡ ok o
step_caveats_lem none = refl
step_caveats_lem (some cs) = simp caveats_round_trip

link_round_trip : (l : DelegationLink) → link_from_dict (link_to_dict l) ≡ ok l
unfolding link_from_dict link_to_dict
link_round_trip l = simp (field_laws, step_caveats_lem)

links_round_trip : (ls : List DelegationLink) → links_of (link_items ls) ≡ ok ls
unfolding links_of link_items
links_round_trip [] = refl
links_round_trip (l ∷ ls) = simp (link_round_trip, links_round_trip ls)

chain_value_lem :
    (ls : List DelegationLink) → items_or_nil (over (chain_value ls) none) ≡ ok (link_items ls)
unfolding link_items
chain_value_lem [] = refl
chain_value_lem (l ∷ ls) = refl

-- What to_dict writes of a token, from_dict reads back as the same token, with its caveats and its
-- chain, unless its parent is the empty text, which to_dict leaves out.
pub token_round_trip :
    (t : CapabilityToken) → t.parent ≢ some "" → token_from_dict (token_to_dict t) ≡ ok t
unfolding token_from_dict token_to_dict
token_round_trip t h =
    simp (field_laws, truthy-eq t.parent h, caveats_round_trip, chain_value_lem, links_round_trip)
