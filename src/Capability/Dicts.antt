-- ===== src/Capability/Dicts.antt =====
-- to_dict, from_dict and signable_dict of the dataclasses of capability.py.
pub mod RoundTrip
use pact_passport.Base.{◌==◌, string_eq, String, Option, none, some, List, [], ◌∷◌}
use pact_passport.Json.{
  Value, Items, Dict, str, arr, obj, nil, cons, end, field, get, without, opt_field,
}
use pact_passport.Errors.{Result, ok, ◌>>=◌}
use pact_passport.Wire.{
  truthy, text_value, flag_value, as_list, as_dict, need, need_text, maybe_text, text_or,
  flag_or_false,
}
use pact_passport.Capability.{Caveat, DelegationLink, CapabilityToken, alg_name}

unfoldable pub caveat_to_dict : Caveat → Dict
caveat_to_dict c =
    field "restrict" (str c.restrict)
      (field "value" c.value (opt_field "terminal" (flag_value c.terminal) end))

unfoldable pub caveat_from_dict : Dict → Result Caveat
caveat_from_dict d = do
  restrict ← need_text (get d "restrict")
  value ← need (get d "value")
  terminal ← flag_or_false (get d "terminal")
  ok (record { restrict = restrict; value = value; terminal = terminal })

-- [c.to_dict() for c in caveats]
unfoldable pub caveat_items : List Caveat → Items
caveat_items [] = nil
caveat_items (c ∷ cs) = cons (obj (caveat_to_dict c)) (caveat_items cs)

-- [Caveat.from_dict(c) for c in items]
unfoldable pub caveats_of : Items → Result (List Caveat)
caveats_of nil = ok []
caveats_of (cons v xs) =
    let rest = caveats_of xs in do d ← as_dict v; c ← caveat_from_dict d; cs ← rest; ok (c ∷ cs)

abbrev pub step_caveats_value : Option (List Caveat) → Option Value
step_caveats_value none = none
step_caveats_value (some cs) = some (arr (caveat_items cs))

-- `if "caveats_at_step" in d`
abbrev pub step_caveats_of : Option Value → Result (Option (List Caveat))
step_caveats_of none = ok none
step_caveats_of (some v) = do xs ← as_list v; cs ← caveats_of xs; ok (some cs)

unfoldable pub link_to_dict : DelegationLink → Dict
link_to_dict l = field "from" (str l.from_agent) (
    field "sig" (str l.sig) (
      opt_field "parent_cap_id" (text_value l.parent_cap_id) (
        opt_field "action_at_step" (text_value l.action_at_step)
          (opt_field "caveats_at_step" (step_caveats_value l.caveats_at_step) end))))

unfoldable pub link_from_dict : Dict → Result DelegationLink
link_from_dict d = do
  caveats ← step_caveats_of (get d "caveats_at_step")
  from_agent ← need_text (get d "from")
  sig ← need_text (get d "sig")
  parent_cap_id ← maybe_text (get d "parent_cap_id")
  action_at_step ← maybe_text (get d "action_at_step")
  ok (record {
    from_agent = from_agent;
    sig = sig;
    parent_cap_id = parent_cap_id;
    action_at_step = action_at_step;
    caveats_at_step = caveats;
  })

unfoldable pub link_items : List DelegationLink → Items
link_items [] = nil
link_items (l ∷ ls) = cons (obj (link_to_dict l)) (link_items ls)

unfoldable pub links_of : Items → Result (List DelegationLink)
links_of nil = ok []
links_of (cons v xs) =
    let rest = links_of xs in do d ← as_dict v; l ← link_from_dict d; ls ← rest; ok (l ∷ ls)

-- `if self.delegation_chain`
abbrev pub chain_value : List DelegationLink → Option Value
chain_value [] = none
chain_value (l ∷ ls) = some (arr (link_items (l ∷ ls)))

-- d.get(k, [])
abbrev pub items_or_nil : Option Value → Result Items
items_or_nil none = ok nil
items_or_nil (some v) = as_list v

unfoldable pub token_to_dict : CapabilityToken → Dict
token_to_dict t = field "cap_id" (str t.cap_id) (
    field "issuer" (str t.issuer) (
      field "holder" (str t.holder) (
        field "action" (str t.action) (
          field "caveats" (arr (caveat_items t.caveats)) (
            field "alg" (str t.alg) (
              field "signature" (str t.signature) (
                opt_field "parent" (text_value (truthy t.parent)) (
                  opt_field "delegation_chain" (chain_value t.delegation_chain) (
                    opt_field "revoked" (flag_value t.revoked) (
                      opt_field "visa" (flag_value t.visa) (
                        opt_field "nonce" (text_value t.nonce) (
                          opt_field "ephemeral_key_fingerprint"
                            (text_value t.ephemeral_key_fingerprint) end))))))))))))

-- from_dict checks no types; here a field of another type than declared raises TypeError, and the tokens of
-- this development are the ones whose fields have the declared types.
unfoldable pub token_from_dict : Dict → Result CapabilityToken
token_from_dict d = do
  cap_id ← need_text (get d "cap_id")
  issuer ← need_text (get d "issuer")
  holder ← need_text (get d "holder")
  action ← need_text (get d "action")
  caveat_dicts ← items_or_nil (get d "caveats")
  caveats ← caveats_of caveat_dicts
  parent ← maybe_text (get d "parent")
  link_dicts ← items_or_nil (get d "delegation_chain")
  chain ← links_of link_dicts
  revoked ← flag_or_false (get d "revoked")
  visa ← flag_or_false (get d "visa")
  nonce ← maybe_text (get d "nonce")
  fingerprint ← maybe_text (get d "ephemeral_key_fingerprint")
  alg ← text_or alg_name (get d "alg")
  signature ← text_or "" (get d "signature")
  ok (record {
    cap_id = cap_id;
    issuer = issuer;
    holder = holder;
    action = action;
    caveats = caveats;
    parent = parent;
    delegation_chain = chain;
    revoked = revoked;
    visa = visa;
    nonce = nonce;
    ephemeral_key_fingerprint = fingerprint;
    alg = alg;
    signature = signature;
  })

unfoldable pub signable_dict : CapabilityToken → Dict
signable_dict t = without (token_to_dict t) "signature"
