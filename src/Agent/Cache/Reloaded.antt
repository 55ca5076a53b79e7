-- ===== src/Agent/Cache/Reloaded.antt =====
-- The idempotency cache of agent.py after a restart: what the file holds is read back, while it lasts.
use pact_passport.Base.{
  ◌≡◌, ◌∙◌, refl, sym, ap, ℕ, ltb, Bool, true, false, Bool-cases, inl, inr, String, none, some, [],
  ◌∷◌, ◌==◌, string_eq, eq_iff, if◌then◌else◌, find, put, find-put, arith,
}
use pact_passport.Json.{Value}
use pact_passport.Platform.{Platform, IsLawful}
use pact_passport.Agent.State.{Cache}
use pact_passport.Agent.Cache.{serializable, keep, load_entries}

-- No key stands twice, as in a dict.
abbrev pub IsDict : Cache → Type 0
IsDict [] = Unit {0}
IsDict ((k, e) ∷ c) = (find c k ≡ none) × IsDict c

put_other :
    (acc : Cache) (j k : String) (e : Value × ℕ) (b : Bool)
    → (j == k) ≡ false
    → find (if b then put acc j e else acc) k ≡ find acc k
put_other acc j k e true h = find-put acc j e k ∙ simp h refl
put_other acc j k e false h = refl

put_same :
    (acc : Cache) (j k : String) (e e' : Value × ℕ) (now : ℕ)
    → (j == k) ≡ true
    → e ≡ e'
    → ltb now e'.1 ≡ true
    → find (if ltb now e.1 then put acc j e else acc) k ≡ some e'
put_same acc j k e e' now h same live =
    let live' : ltb now e.1 ≡ true = ap (λ (y : Value × ℕ). ltb now y.1) same ∙ live in
    simp live' (find-put acc j e k ∙ simp h (ap some same))

module _ (p : Platform) (law : IsLawful p) (now : ℕ) where
  load_entry-serializable :
      (j : String) (w : Value) (x : ℕ) (acc : Cache)
      → keep p now j w (p.fromisoformat (p.isoformat x)) acc
        ≡ (if ltb now x then put acc j (w, x) else acc)
  load_entry-serializable j w x acc = rw (law.fromisoformat-isoformat x) refl

  -- A key that the file does not hold.
  find-load_entries-absent :
      (c acc : Cache) (k : String)
      → find c k ≡ none
      → find (load_entries p now (serializable p c) acc) k ≡ find acc k
  unfolding find load_entries serializable
  find-load_entries-absent [] acc k h = refl
  find-load_entries-absent ((j, (w, x)) ∷ c) acc k h =
      find-load_entries-absent c (keep p now j w (p.fromisoformat (p.isoformat x)) acc) k
        (ground (arith, h))
      ∙ ap (λ m. find m k) (load_entry-serializable j w x acc)
      ∙ put_other acc j k (w, x) (ltb now x) (ground (arith, h))

  -- An entry that has not expired is read back.
  pub find-load_entries :
      (c acc : Cache) (k : String) (v : Value) (exp : ℕ)
      → IsDict c
      → find c k ≡ some (v, exp)
      → ltb now exp ≡ true
      → find (load_entries p now (serializable p c) acc) k ≡ some (v, exp)
  unfolding find load_entries serializable
  find-load_entries [] acc k v exp d h live = cc
  find-load_entries ((j, (w, x)) ∷ c) acc k v exp d h live = elim (Bool-cases (j == k)) [
    | inl same ↦
        find-load_entries-absent c (keep p now j w (p.fromisoformat (p.isoformat x)) acc) k
          (ap (find c) (sym ((eq_iff j k).0 same)) ∙ d.0)
        ∙ ap (λ m. find m k) (load_entry-serializable j w x acc)
        ∙ put_same acc j k (w, x) (v, exp) now same (ground (arith, same, h)) live
    | inr other ↦
        find-load_entries c (keep p now j w (p.fromisoformat (p.isoformat x)) acc) k v exp d.1
          (ground (arith, other, h)) live
  ]
