-- ===== src/Platform/Cache.antt =====
-- backend/app/cache/cache_manager.py: the LRU cache with expiry, and the manager that counts hits.
-- Times are in seconds; a time-to-live that is not positive is 0 here. Values are never `None`.
pub mod Bounded
use ai_soc.Prelude.{
  ℕ, zero, suc, ◌+◌, ◌≤◌, ◌<◌, String, ◌≡◌, refl, Bool, true, false, Option, none, some, List, [],
  ◌∷◌, ◌++◌, arith, ltb, leb, if◌then◌else◌, length,
}
use ai_soc.Prelude.Assoc.{Assoc, lookup, insert, remove}

module _ {V : Type 0} where
  -- `OrderedDict.move_to_end` of a present key
  unfoldable pub move_to_end : String → Assoc V → Assoc V
  unfolding lookup remove
  move_to_end k m = elim (lookup k m) [ none ↦ m | some v ↦ remove k m ++ (k, v) ∷ [] ]

  -- `popitem(last=False)`
  abbrev pub pop_first : Assoc V → Assoc V
  pop_first [] = []
  pop_first (e ∷ m) = m

pub record LruCache (V : Type 0) : Type 0 where
  pub max_size : ℕ
  pub entries : Assoc (V × ℕ)

abbrev expiry_of : ℕ → ℕ → ℕ
expiry_of now ttl = if ltb 0 ttl then now + ttl else 0

module _ {V : Type 0} where
  abbrev evict : ℕ → Assoc (V × ℕ) → Assoc (V × ℕ)
  evict max_size m = if ltb max_size (length m) then pop_first m else m

  pub set : ℕ → LruCache V → String → V → ℕ → LruCache V
  unfolding insert move_to_end
  set now c k v ttl = record c {
    entries = evict c.max_size (insert k (v, expiry_of now ttl) (move_to_end k c.entries));
  }

  pub get : ℕ → LruCache V → String → Option V × LruCache V
  unfolding lookup remove move_to_end
  get now c k = elim (lookup k c.entries) [
    | none ↦ (none, c)
    | some (v, expiry) ↦
        if leb expiry now
        then (none, record c { entries = remove k c.entries })
        else (some v, record c { entries = move_to_end k c.entries })
  ]

pub record CacheManager (V : Type 0) : Type 0 where
  pub l1 : LruCache V
  pub hits : ℕ
  pub misses : ℕ

module _ {V : Type 0} where
  pub cached : ℕ → CacheManager V → String → Option V × CacheManager V
  unfolding get
  cached now m k =
      let (found, l1) = get now m.l1 k in
      elim found [
        | some v ↦ (some v, record m { l1 = l1; hits = suc m.hits })
        | none ↦ (none, record m { l1 = l1; misses = suc m.misses })
      ]
