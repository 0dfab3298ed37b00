-- ===== src/Platform/Cache/Bounded.antt =====
-- The size of the LRU cache and what a stored value reads as (cache_manager.py).
use ai_soc.Prelude.{
  ℕ, suc, ◌+◌, ◌≤◌, ◌<◌, String, ◌≡◌, refl, true, false, none, some, [], ◌∷◌, ◌++◌, arith, ltb, leb,
  if◌then◌else◌, length, length-append, str_eq, eq_refl, Bool-cases, inl, inr, Option-cases,
}
use ai_soc.Prelude.Assoc.{Assoc, lookup, insert, remove, lookup-remove, length-remove-le}
use ai_soc.Platform.Cache.{move_to_end, LruCache, evict, expiry_of, set, get}

module _ {V : Type 0} where
  length-insert-le : (k : String) (v : V) (m : Assoc V) → length (insert k v m) ≤ suc (length m)
  unfolding insert
  length-insert-le k v [] = omega arith
  length-insert-le k v ((j, w) ∷ m) = ground (arith, length-insert-le k v m)

  length-remove-lt :
      (k : String) (v : V) (m : Assoc V) → lookup k m ≡ some v → length (remove k m) < length m
  unfolding lookup remove
  length-remove-lt k v [] h = cc
  length-remove-lt k v ((j, w) ∷ m) h = elim (Bool-cases (str_eq j k)) [
    | inl here ↦ rw here (omega (arith, length-remove-le k m))
    | inr there ↦
        let rest : lookup k m ≡ some v = rw there at h in
        rw there (omega (arith, length-remove-lt k v m rest))
  ]

  length-move_to_end-le : (k : String) (m : Assoc V) → length (move_to_end k m) ≤ length m
  unfolding move_to_end
  length-move_to_end-le k m = elim (Option-cases (lookup k m)) [
    | inl absent ↦ rw (move_to_end, absent) (omega arith)
    | inr (v, found) ↦
        rw (move_to_end, found)
          (omega (arith, length-remove-lt k v m found, length-append (remove k m) ((k, v) ∷ [])))
  ]

  remove-absent : (k : String) (m : Assoc V) → lookup k m ≡ none → remove k m ≡ m
  unfolding lookup remove
  remove-absent k [] h = refl
  remove-absent k ((j, w) ∷ m) h = elim (Bool-cases (str_eq j k)) [
    | inl here ↦ cc (rw here at h)
    | inr there ↦
        let rest : lookup k m ≡ none = rw there at h in rw (there, remove-absent k m rest) refl
  ]

  insert-absent :
      (k : String) (v : V) (m : Assoc V) → lookup k m ≡ none → insert k v m ≡ m ++ (k, v) ∷ []
  unfolding lookup insert
  insert-absent k v [] h = refl
  insert-absent k v ((j, w) ∷ m) h = elim (Bool-cases (str_eq j k)) [
    | inl here ↦ cc (rw here at h)
    | inr there ↦
        let rest : lookup k m ≡ none = rw there at h in rw (there, insert-absent k v m rest) refl
  ]

  insert-last :
      (k : String) (v w : V) (m : Assoc V)
      → lookup k m ≡ none
      → insert k v (m ++ (k, w) ∷ []) ≡ m ++ (k, v) ∷ []
  unfolding lookup insert
  insert-last k v w [] h = rw (eq_refl k) refl
  insert-last k v w ((j, x) ∷ m) h = elim (Bool-cases (str_eq j k)) [
    | inl here ↦ cc (rw here at h)
    | inr there ↦
        let rest : lookup k m ≡ none = rw there at h in rw (there, insert-last k v w m rest) refl
  ]

  -- Storing under a key puts its entry last, whether or not the key was there.
  insert-move_to_end :
      (k : String) (v : V) (m : Assoc V) → insert k v (move_to_end k m) ≡ remove k m ++ (k, v) ∷ []
  unfolding move_to_end
  insert-move_to_end k v m = elim (Option-cases (lookup k m)) [
    | inl absent ↦
        rw (move_to_end, absent, remove-absent k m absent, insert-absent k v m absent) refl
    | inr (w, found) ↦
        rw (move_to_end, found)
          (insert-last k v w (remove k m) (rw (lookup-remove k k m, eq_refl k) refl))
  ]

  lookup-last :
      (k : String) (v : V) (m : Assoc V) → lookup k m ≡ none → lookup k (m ++ (k, v) ∷ []) ≡ some v
  unfolding lookup
  lookup-last k v [] h = rw (eq_refl k) refl
  lookup-last k v ((j, w) ∷ m) h = elim (Bool-cases (str_eq j k)) [
    | inl here ↦ cc (rw here at h)
    | inr there ↦
        let rest : lookup k m ≡ none = rw there at h in rw (there, lookup-last k v m rest) refl
  ]

module _ {V : Type 0} where
  -- The last entry of a list that is too long survives the eviction of the first one.
  lookup-evict :
      (size : ℕ) (k : String) (v : V × ℕ) (m : Assoc (V × ℕ))
      → 0 < size
      → lookup k m ≡ none
      → lookup k (evict size (m ++ (k, v) ∷ [])) ≡ some v
  unfolding lookup
  lookup-evict size k v [] positive h =
      let short : ltb size 1 ≡ false = ground (arith, positive) in rw (short, eq_refl k) refl
  lookup-evict size k v ((j, w) ∷ m) positive h = elim (Bool-cases (str_eq j k)) [
    | inl here ↦ cc (rw here at h)
    | inr there ↦
        let rest : lookup k m ≡ none = rw there at h in
        elim (Bool-cases (ltb size (suc (length (m ++ (k, v) ∷ []))))) [
          | inl full ↦ rw full (lookup-last k v m rest)
          | inr fits ↦ rw (fits, there) (lookup-last k v m rest)
        ]
  ]

  length-evict-le :
      (size : ℕ) (m : Assoc (V × ℕ)) → length m ≤ suc size → length (evict size m) ≤ size
  length-evict-le size [] h = ground arith
  length-evict-le size (e ∷ m) h = ground arith

  length-get-le :
      (now : ℕ) (c : LruCache V) (k : String)
      → length c.entries ≤ c.max_size
      → length (get now c k).1.entries ≤ c.max_size
  unfolding get
  length-get-le now c k h = elim (Option-cases (lookup k c.entries)) [
    | inl absent ↦ rw (get, absent) h
    | inr ((v, expiry), found) ↦ elim (Bool-cases (leb expiry now)) [
      | inl expired ↦ rw (get, found, expired) (omega (arith, length-remove-le k c.entries, h))
      | inr fresh ↦ rw (get, found, fresh) (omega (arith, length-move_to_end-le k c.entries, h))
    ]
  ]

  -- A cache never holds more than its maximum: neither storing nor reading lets it grow past it.
  pub set-get-Bounded :
      (now ttl : ℕ) (c : LruCache V) (k : String) (v : V)
      → length c.entries ≤ c.max_size
      → (length (set now c k v ttl).entries ≤ c.max_size)
        × (length (get now c k).1.entries ≤ c.max_size)
  unfolding set get
  set-get-Bounded now ttl c k v h = (
    length-evict-le c.max_size (insert k (v, expiry_of now ttl) (move_to_end k c.entries)) (
        omega (
          arith,
          length-insert-le k (v, expiry_of now ttl) (move_to_end k c.entries),
          length-move_to_end-le k c.entries,
          h,
        )),
    length-get-le now c k h,
  )

  get-found :
      (now : ℕ) (c : LruCache V) (k : String) (v : V) (expiry : ℕ)
      → lookup k c.entries ≡ some (v, expiry)
      → (get now c k).0 ≡ (if ltb now expiry then some v else none)
  unfolding get
  get-found now c k v expiry found = elim (Bool-cases (ltb now expiry)) [
    | inl early ↦
        let fresh : leb expiry now ≡ false = ground (arith, early) in
        rw (get, found, fresh, early) refl
    | inr late ↦
        let expired : leb expiry now ≡ true = ground (arith, late) in
        rw (get, found, expired, late) refl
  ]

  lookup-set :
      (now ttl : ℕ) (c : LruCache V) (k : String) (v : V)
      → 0 < c.max_size
      → 0 < ttl
      → lookup k (set now c k v ttl).entries ≡ some (v, now + ttl)
  unfolding set
  lookup-set now ttl c k v room h =
      let gone : lookup k (remove k c.entries) ≡ none =
        rw (lookup-remove k k c.entries, eq_refl k) refl in
      let timed : ltb 0 ttl ≡ true = ground (arith, h) in
      rw (timed, insert-move_to_end k (v, now + ttl) c.entries)
        (lookup-evict c.max_size k (v, now + ttl) (remove k c.entries) room gone)

  -- A value stored for a positive time in a cache with room for one entry is read back by any
  -- read before it expires, and by no read from then on.
  pub get-set :
      (now later ttl : ℕ) (c : LruCache V) (k : String) (v : V)
      → 0 < c.max_size
      → 0 < ttl
      → (get later (set now c k v ttl) k).0 ≡ (if ltb later (now + ttl) then some v else none)
  get-set now later ttl c k v room h =
      get-found later (set now c k v ttl) k v (now + ttl) (lookup-set now ttl c k v room h)
