-- ===== src/Visa/Rate.antt =====
-- The rate ceiling of the default policy, over every sequence of requests.
use pact_passport.Base.{
  eq_iff, inr, inl, subst, ◌==◌, eq_refl, Bool-cases, ℕ, suc, ltb, ◌+◌, ◌≤◌, ◌<◌, ◌≡◌, refl, sym,
  ap, ◌∙◌, Bool, true, false, String, Option, none, some, List, [], ◌∷◌, ◌++◌, string_eq,
  if◌then◌else◌, length, arith,
}
use pact_passport.Platform.{Platform}
use pact_passport.Capability.{Caveat, CapabilityToken}
use pact_passport.Visa.{
  visa_refuse, decided, recent_count, record_issuance, Tracker, tracker_start, put, drop_expired,
  HandlerCost, VisaContext, VisaDecision, visa_grant, RefuseReason, default_visa_policy,
  default_visa_rate_window, default_visa_rate_limit, request_visa, unless,
}

-- How many of the times are in the window before `now`.
unfoldable pub within : ℕ → ℕ → List ℕ → ℕ
within window now [] = 0
within window now (t ∷ ts) =
    let rest = within window now ts in if ltb (t + window) now then rest else suc rest

within-drop_expired :
    (window clock now : ℕ) (ts : List ℕ)
    → clock ≤ now
    → within window now (drop_expired window clock ts) ≡ within window now ts
unfolding within drop_expired
within-drop_expired window clock now [] h = refl
within-drop_expired window clock now (t ∷ ts) h =
    ground (arith, within-drop_expired window clock now ts h)

within-append :
    (window now : ℕ) (ts us : List ℕ)
    → within window now (ts ++ us) ≡ within window now ts + within window now us
unfolding within
within-append window now [] us = ground arith
within-append window now (t ∷ ts) us = ground (arith, within-append window now ts us)

within-le-length : (window now : ℕ) (ts : List ℕ) → within window now ts ≤ length ts
unfolding within length
within-le-length window now [] = ground arith
within-le-length window now (t ∷ ts) = ground (arith, within-le-length window now ts)

length-append_one : (ts : List ℕ) (t : ℕ) → length (ts ++ (t ∷ [])) ≡ suc (length ts)
unfolding length
length-append_one [] t = refl
length-append_one (u ∷ ts) t = ap suc (length-append_one ts t)

length-drop_expired :
    (window clock : ℕ) (ts : List ℕ) → length (drop_expired window clock ts) ≤ length ts
unfolding length drop_expired
length-drop_expired window clock [] = ground arith
length-drop_expired window clock (t ∷ ts) = ground (arith, length-drop_expired window clock ts)

unless-grant :
    (test : Bool) (reason : RefuseReason) (rest : VisaDecision) (cs : List Caveat)
    → unless test reason rest ≡ visa_grant cs
    → (test ≡ true) × (rest ≡ visa_grant cs)
unless-grant true reason rest cs h = (refl, h)
unless-grant false reason rest cs h = ground (arith, h)

-- All the times that a network was granted a visa at, whatever the tracker remembers of them.
abbrev pub noted : Option CapabilityToken → ℕ → String → Tracker → Tracker
noted none clock peer h = h
noted (some t) clock peer h = put h peer (h peer ++ (clock ∷ []))

module _ (p : Platform) (eligible : List String) (costs : List (String × HandlerCost)) where
  -- The default policy grants only below the ceiling.
  pub default_visa_policy-below :
      (now : ℕ) (c : VisaContext) (cs : List Caveat)
      → default_visa_policy p eligible costs now c ≡ visa_grant cs
      → c.recent_visa_count_window < default_visa_rate_limit
  unfolding default_visa_policy
  default_visa_policy-below now c cs h = ground (arith, h)

  abbrev pub Issue : Type 0
  Issue = List Caveat → CapabilityToken

  abbrev pub step :
      ℕ → Issue → String → String → ℕ → String → Tracker → Option CapabilityToken × Tracker
  step now issue action payload_hash clock peer tr =
      request_visa false (default_visa_policy p eligible costs now) issue action payload_hash clock
        peer tr

  -- The trackers that requests lead to, with the whole history and the clock of the last request.
  pub data Reached : Tracker → Tracker → ℕ → Type 0 where
    start : Reached tracker_start tracker_start 0
    asked :
        {tr h : Tracker} {last : ℕ} (now : ℕ) (issue : Issue) (action payload_hash : String)
        (clock : ℕ) (peer : String)
        → Reached tr h last
        → last ≤ clock
        → Reached
            (step now issue action payload_hash clock peer tr).1
            (noted (step now issue action payload_hash clock peer tr).0 clock peer h)
            clock

  -- Where the windows agree from now on, and the tracker is small.
  abbrev Agrees : List ℕ → List ℕ → ℕ → Type 0
  Agrees ts hs last =
      ((now : ℕ)
        → last ≤ now
        → within default_visa_rate_window now ts ≡ within default_visa_rate_window now hs)
      × (length ts ≤ default_visa_rate_limit)

  Agrees-later :
      (ts hs : List ℕ) (last clock : ℕ) → last ≤ clock → Agrees ts hs last → Agrees ts hs clock
  Agrees-later ts hs last clock h a = (λ now k. a.0 now (ground arith), a.1)

  Agrees-drop :
      (ts hs : List ℕ) (last clock : ℕ)
      → last ≤ clock
      → Agrees ts hs last
      → Agrees (drop_expired default_visa_rate_window clock ts) hs clock
  Agrees-drop ts hs last clock h a = (
    λ now k. within-drop_expired default_visa_rate_window clock now ts k ∙ a.0 now (ground arith),
    ground (arith, a.1, length-drop_expired default_visa_rate_window clock ts),
  )

  Agrees-more :
      (ts hs : List ℕ) (clock : ℕ)
      → length ts < default_visa_rate_limit
      → Agrees ts hs clock
      → Agrees (ts ++ (clock ∷ [])) (hs ++ (clock ∷ [])) clock
  Agrees-more ts hs clock below a = (
    λ now k.
        within-append default_visa_rate_window now ts (clock ∷ [])
        ∙ ap (λ n. n + within default_visa_rate_window now (clock ∷ [])) (a.0 now k)
        ∙ sym (within-append default_visa_rate_window now hs (clock ∷ [])),
    ground (arith, below, length-append_one ts clock),
  )

  put_here : (tr : Tracker) (peer : String) (ts : List ℕ) → put tr peer ts peer ≡ ts
  put_here tr peer ts = simp (eq_refl peer)

  put_there :
      (tr : Tracker) (peer other : String) (ts : List ℕ)
      → (other == peer) ≡ false
      → put tr peer ts other ≡ tr other
  put_there tr peer other ts e = rw e refl

  abbrev All : Tracker → Tracker → ℕ → Type 0
  All tr h last = (peer : String) → Agrees (tr peer) (h peer) last

  All-put :
      (tr h : Tracker) (clock : ℕ) (peer : String) (ts hs : List ℕ)
      → All tr h clock
      → Agrees ts hs clock
      → All (put tr peer ts) (put h peer hs) clock
  All-put tr h clock peer ts hs all here other = elim (Bool-cases (other == peer)) [
    | inl e ↦ rw e here
    | inr e ↦ rw e (all other)
  ]

  All-counted :
      (tr h : Tracker) (clock : ℕ) (peer : String) (ts : List ℕ)
      → All tr h clock
      → Agrees ts (h peer) clock
      → All (put tr peer ts) h clock
  All-counted tr h clock peer ts all here other = elim (Bool-cases (other == peer)) [
    | inl e ↦
        let same : h peer ≡ h other = ap h (sym ((eq_iff other peer).0 e)) in
        rw e (subst (λ hs. Agrees ts hs clock) same here)
    | inr e ↦ rw e (all other)
  ]

  decided-All :
      (d : VisaDecision) (issue : Issue) (clock : ℕ) (peer : String) (tr h : Tracker)
      → ((cs : List Caveat) → d ≡ visa_grant cs → length (tr peer) < default_visa_rate_limit)
      → All tr h clock
      → All
          (decided d issue clock peer tr).1
          (noted (decided d issue clock peer tr).0 clock peer h)
          clock
  unfolding record_issuance
  decided-All (visa_refuse reason) issue clock peer tr h below all = all
  decided-All (visa_grant cs) issue clock peer tr h below all =
      All-put tr h clock peer (tr peer ++ (clock ∷ [])) (h peer ++ (clock ∷ [])) all
        (Agrees-more (tr peer) (h peer) clock (below cs refl) (all peer))

  step-All :
      (tr h : Tracker) (last now : ℕ) (issue : Issue) (action payload_hash : String) (clock : ℕ)
      (peer : String)
      → last ≤ clock
      → All tr h last
      → All
          (step now issue action payload_hash clock peer tr).1
          (noted (step now issue action payload_hash clock peer tr).0 clock peer h)
          clock
  unfolding request_visa recent_count
  step-All tr h last now issue action payload_hash clock peer forward all =
      let ts = drop_expired default_visa_rate_window clock (tr peer) in
      let later : All tr h clock =
        λ other. Agrees-later (tr other) (h other) last clock forward (all other) in
      decided-All _ issue clock peer (put tr peer ts) h
        (λ cs granted.
          subst (λ us. length us < default_visa_rate_limit) (sym (put_here tr peer ts))
            (default_visa_policy-below now _ cs granted))
        (All-counted tr h clock peer ts later
          (Agrees-drop (tr peer) (h peer) last clock forward (all peer)))

  Reached-All : {tr h : Tracker} {last : ℕ} → Reached tr h last → All tr h last
  unfolding length
  Reached-All start = λ peer. ((λ now k. refl), ground arith)
  Reached-All (asked {tr} {h} {last} now issue action payload_hash clock peer r forward) =
      step-All tr h last now issue action payload_hash clock peer forward (Reached-All r)

  -- Under the default policy, whatever is asked and by whom, as long as the clock does not go back: at
  -- every moment from the last request on, at most five of all the visas ever granted to a network
  -- were granted within the window of sixty seconds before that moment.
  pub rate_ceiling :
      (tr h : Tracker) (last now : ℕ) (peer : String)
      → Reached tr h last
      → last ≤ now
      → within default_visa_rate_window now (h peer) ≤ default_visa_rate_limit
  rate_ceiling tr h last now peer r later =
      let (same, small) = Reached-All r peer in
      ground (arith, same now later, small, within-le-length default_visa_rate_window now (tr peer))
