-- ===== src/Agent/Cache/Bound.antt =====
-- The cache stays within its bound, and holds no entry that has expired.
use pact_passport.Base.{
  leb, ◌+◌, some, find, put, find-put, ℕ, zero, suc, ◌-◌, ◌≤◌, ◌<◌, Bool, true, false, String, [],
  ◌∷◌, ◌≡◌, ◌∙◌, sym, eq_refl, refl, if◌then◌else◌, remove, length, ◌==◌, string_eq, arith, eq_iff,
}
use pact_passport.Json.{Value}
use pact_passport.Agent.State.{Cache}
use pact_passport.Agent.Cache.{
  cached, evict_expired, insert_by_expiry, sort_by_expiry, drop_first, enforce_lru_cap,
}

-- The number of entries whose key passes a test.
count : (String → Bool) → Cache → ℕ
count q [] = 0
count q (e ∷ c) = if q e.0 then suc (count q c) else count q c

count-insert_by_expiry :
    (q : String → Bool) (e : String × (Value × ℕ)) (c : Cache)
    → count q (insert_by_expiry e c) ≡ count q (e ∷ c)
unfolding count insert_by_expiry
count-insert_by_expiry q e [] = refl
count-insert_by_expiry q e (f ∷ c) = ground (arith, count-insert_by_expiry q e c)

count-le-length : (q : String → Bool) (c : Cache) → count q c ≤ length c
unfolding count length
count-le-length q [] = omega arith
count-le-length q (e ∷ c) = ground (arith, count-le-length q c)

count-sort_by_expiry : (q : String → Bool) (c : Cache) → count q (sort_by_expiry c) ≡ count q c
unfolding count sort_by_expiry
count-sort_by_expiry q [] = refl
count-sort_by_expiry q (e ∷ c) =
    ground (arith, count-insert_by_expiry q e (sort_by_expiry c), count-sort_by_expiry q c)

count_all : (c : Cache) → count (λ k. true) c ≡ length c
unfolding count length
count_all [] = refl
count_all (e ∷ c) = ground (arith, count_all c)

-- Taking a key away leaves what passes and is another key.
other : (String → Bool) → String → String → Bool
other q k j = if k == j then false else q j

count-remove :
    (q : String → Bool) (k : String) (c : Cache) → count q (remove c k) ≡ count (other q k) c
unfolding count remove other
count-remove q k [] = refl
count-remove q k ((j, e) ∷ c) = ground (arith, count-remove q k c, eq_iff j k, eq_iff k j)

-- Taking away the keys of the first n entries of a list leaves at most the rest of that list.
excluded : ℕ → Cache → (String → Bool) → String → Bool
unfolding other
excluded zero ordered q = q
excluded (suc n) [] q = q
excluded (suc n) (e ∷ ordered) q = other (excluded n ordered q) e.0

count-drop_first :
    (q : String → Bool) (n : ℕ) (ordered c : Cache)
    → count q (drop_first n ordered c) ≡ count (excluded n ordered q) c
unfolding drop_first excluded
count-drop_first q zero ordered c = refl
count-drop_first q (suc n) [] c = refl
count-drop_first q (suc n) (e ∷ ordered) c =
    count-drop_first q n ordered (remove c e.0) ∙ count-remove (excluded n ordered q) e.0 c

count-other-le : (q : String → Bool) (k : String) (c : Cache) → count (other q k) c ≤ count q c
unfolding count other
count-other-le q k [] = omega arith
count-other-le q k (e ∷ c) = ground (arith, count-other-le q k c)

count-excluded-le :
    (q : String → Bool) (n : ℕ) (ordered : Cache)
    → count (excluded n ordered q) ordered ≤ length ordered - n
unfolding count excluded other length
count-excluded-le q zero ordered = omega (arith, count-le-length q ordered)
count-excluded-le q (suc n) [] = omega arith
count-excluded-le q (suc n) (e ∷ ordered) = ground (
  arith,
  eq_refl e.0,
  count-other-le (excluded n ordered q) e.0 ordered,
  count-excluded-le q n ordered,
)

length-sort_by_expiry : (c : Cache) → length (sort_by_expiry c) ≡ length c
length-sort_by_expiry c =
    sym (count_all (sort_by_expiry c)) ∙ count-sort_by_expiry (λ k. true) c ∙ count_all c

pub length-enforce_lru_cap :
    (cache_max : ℕ) (c : Cache) → length (enforce_lru_cap cache_max c) ≤ cache_max
unfolding enforce_lru_cap
length-enforce_lru_cap cache_max c =
    let n = length c - cache_max in
    let ordered = sort_by_expiry c in
    ground (
      arith,
      count_all (drop_first n ordered c),
      count-drop_first (λ k. true) n ordered c,
      count-sort_by_expiry (excluded n ordered (λ k. true)) c,
      count-excluded-le (λ k. true) n ordered,
      length-sort_by_expiry c,
    )

-- Every entry expires after `now`.
abbrev pub Live : ℕ → Cache → Type 0
Live now [] = Unit {0}
Live now (e ∷ c) = (now < e.1.1) × Live now c

pub evict_expired-Live : (now : ℕ) (c : Cache) → Live now (evict_expired now c)
unfolding evict_expired
evict_expired-Live now [] = tt
evict_expired-Live now ((k, (v, exp)) ∷ c) = ground (arith, evict_expired-Live now c)

remove-Live : (now : ℕ) (k : String) (c : Cache) → Live now c → Live now (remove c k)
unfolding remove
remove-Live now k [] h = tt
remove-Live now k ((j, (v, exp)) ∷ c) h = ground (arith, remove-Live now k c h.1)

drop_first-Live : (now n : ℕ) (ordered c : Cache) → Live now c → Live now (drop_first n ordered c)
unfolding drop_first
drop_first-Live now zero ordered c h = h
drop_first-Live now (suc n) [] c h = h
drop_first-Live now (suc n) (e ∷ ordered) c h =
    drop_first-Live now n ordered (remove c e.0) (remove-Live now e.0 c h)

pub enforce_lru_cap-Live :
    (now cache_max : ℕ) (c : Cache) → Live now c → Live now (enforce_lru_cap cache_max c)
unfolding enforce_lru_cap
enforce_lru_cap-Live now cache_max c h =
    ground (arith, drop_first-Live now (length c - cache_max) (sort_by_expiry c) c h)

-- What is put under a key and lives is found there, in a cache that is not full.
find-evict_expired :
    (now : ℕ) (k : String) (v : Value) (exp : ℕ) (c : Cache)
    → find c k ≡ some (v, exp)
    → now < exp
    → find (evict_expired now c) k ≡ some (v, exp)
unfolding evict_expired find
find-evict_expired now k v exp [] h live = cc
find-evict_expired now k v exp ((j, (w, t)) ∷ c) h live =
    ground (arith, find-evict_expired now k v exp c, eq_iff j k)

length-put : (c : Cache) (k : String) (x : Value × ℕ) → length (put c k x) ≤ length c + 1
unfolding put length
length-put [] k x = omega arith
length-put (e ∷ c) k x = ground (arith, length-put c k x)

length-evict_expired : (now : ℕ) (c : Cache) → length (evict_expired now c) ≤ length c
unfolding evict_expired length
length-evict_expired now [] = omega arith
length-evict_expired now ((k, (v, exp)) ∷ c) = ground (arith, length-evict_expired now c)

pub find-cached :
    (cache_max now : ℕ) (k : String) (v : Value) (exp : ℕ) (c : Cache)
    → length c < cache_max
    → now < exp
    → find (cached cache_max now k v exp c) k ≡ some (v, exp)
unfolding enforce_lru_cap
find-cached cache_max now k v exp c room live =
    let fits : leb (length (evict_expired now (put c k (v, exp)))) cache_max ≡ true =
      ground (arith, length-put c k (v, exp), length-evict_expired now (put c k (v, exp))) in
    simp fits (
      find-evict_expired now k v exp (put c k (v, exp))
        (find-put c k (v, exp) k ∙ (simp (eq_refl k) refl)) live)
