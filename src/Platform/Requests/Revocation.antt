-- ===== src/Platform/Requests/Revocation.antt =====
-- What the end of an API key means for the requests that come with it (api_keys.py, behind
-- auth_middleware.py and deps.py).
use ai_soc.Prelude.{
  String, ℕ, ◌≡◌, refl, ◌∙◌, inl, inr, true, false, not, Option, none, some, List, [], ◌∷◌, ◌++◌,
  ◌==◌, ==_refl, str_eq, keep, Bool-cases, HoldsSome, arith,
}
use ai_soc.Python.{Python}
use ai_soc.Platform.Requests.{
  ApiKey, Settings, Request, Context, unauthorized, is_live, key_with_hash, from_key, from_header,
  from_token, signed_in, dispatch, get_current_user_dual, and_then, require_roles_dual,
}
use ai_soc.Platform.Requests.Keys.{
  Issue, is_key, find_key, new_key, retire, retire_key, revoked, revoke_api_key, rotated,
  rotate_api_key,
}

abbrev pub of_others : ℕ → List ApiKey → List ApiKey
of_others tenant_id = keep (λ k. not (k.tenant_id == tenant_id))

-- A key with this hash, if there is one, opens nothing at any time.
abbrev pub OpensNothing : String → List ApiKey → Type 0
OpensNothing h keys = (at : ℕ) → HoldsSome (λ k. is_live at k ≡ false) (key_with_hash h keys)

-- The hash belongs to this key alone.
abbrev pub OnlyOf : ℕ → ℕ → String → List ApiKey → Type 0
OnlyOf tenant_id id h [] = Unit
OnlyOf tenant_id id h (k ∷ ks) =
    (str_eq (k.key_hash) h ≡ true → is_key tenant_id id k ≡ true) × OnlyOf tenant_id id h ks

retire_key-others :
    (now tenant_id id : ℕ) (keys : List ApiKey)
    → of_others tenant_id (retire_key now tenant_id id keys) ≡ of_others tenant_id keys
unfolding retire_key retire
retire_key-others now tenant_id id [] = refl
retire_key-others now tenant_id id (k ∷ ks) = ground (arith, retire_key-others now tenant_id id ks)

retire_key-OpensNothing :
    (now tenant_id id : ℕ) (h : String) (keys : List ApiKey)
    → OnlyOf tenant_id id h keys
    → OpensNothing h (retire_key now tenant_id id keys)
unfolding retire_key retire
retire_key-OpensNothing now tenant_id id h [] only at = tt
retire_key-OpensNothing now tenant_id id h (k ∷ ks) only at =
    elim (Bool-cases (is_key tenant_id id k)) [
      | inl this ↦ elim (Bool-cases (str_eq (k.key_hash) h)) [
        | inl same ↦ rw (this, same) refl
        | inr other ↦ rw (this, other) (retire_key-OpensNothing now tenant_id id h ks only.1 at)
      ]
      | inr another ↦
          let other : str_eq (k.key_hash) h ≡ false = ground (arith, another, only.0) in
          rw (another, other) (retire_key-OpensNothing now tenant_id id h ks only.1 at)
    ]

append-OpensNothing :
    (h : String) (keys : List ApiKey) (k : ApiKey)
    → str_eq (k.key_hash) h ≡ false
    → OpensNothing h keys
    → OpensNothing h (keys ++ k ∷ [])
append-OpensNothing h [] k other dead at = rw other tt
append-OpensNothing h (x ∷ keys) k other dead at = elim (Bool-cases (str_eq (x.key_hash) h)) [
  | inl here ↦ rw here (now_dead here)
  | inr elsewhere ↦ rw elsewhere (append-OpensNothing h keys k other (λ u. later elsewhere u) at)
]
  where
    now_dead : str_eq (x.key_hash) h ≡ true → is_live at x ≡ false
    now_dead e = rw e at (dead at)

    later :
        str_eq (x.key_hash) h ≡ false
        → (u : ℕ) → HoldsSome (λ k. is_live u k ≡ false) (key_with_hash h keys)
    later e u = rw e at (dead u)

of_others-append :
    (tenant_id : ℕ) (keys : List ApiKey) (k : ApiKey)
    → (k.tenant_id == tenant_id) ≡ true
    → of_others tenant_id (keys ++ k ∷ []) ≡ of_others tenant_id keys
of_others-append tenant_id [] k own = ground (arith, own)
of_others-append tenant_id (x ∷ keys) k own = ground (arith, of_others-append tenant_id keys k own)

module _ (py : Python) (s : Settings) where
  key_signs_none :
      (k : Option ApiKey)
      → HoldsSome (λ k. is_live (s.now) k ≡ false) k
      → signed_in ((from_key py s k (from_token py s none)).user_id) ≡ false
  key_signs_none none e = refl
  key_signs_none (some k) e = rw e refl

  header_signs_none :
      (keys : List ApiKey) (secret : String)
      → OpensNothing (s.sha256 secret) keys
      → signed_in ((from_header py s keys (some secret) (from_token py s none)).user_id) ≡ false
  header_signs_none keys secret dead = elim (Bool-cases (str_eq secret "")) [
    | inl empty ↦ rw empty refl
    | inr filled ↦ rw filled (key_signs_none (key_with_hash (s.sha256 secret) keys) (dead (s.now)))
  ]

  unsigned_refused :
      (allowed wanted : List String) (req : Request) (c : Context)
      → signed_in (c.user_id) ≡ false
      → require_roles_dual py s allowed wanted req c ≡ unauthorized
  unfolding require_roles_dual get_current_user_dual and_then
  unsigned_refused allowed wanted req c off = rw off refl

  -- Nobody gets in with a dead key alone.
  dead_refused :
      (allowed wanted : List String) (keys : List ApiKey) (req : Request) (secret : String)
      → req.authorization ≡ none
      → req.api_key ≡ some secret
      → OpensNothing (s.sha256 secret) keys
      → require_roles_dual py s allowed wanted req (dispatch py s keys req) ≡ unauthorized
  unfolding dispatch
  dead_refused allowed wanted keys req secret none_sent sent dead =
      unsigned_refused allowed wanted req (dispatch py s keys req)
        (rw (none_sent, sent) (header_signs_none keys secret dead))

  -- Once a key has been revoked or rotated, every route answers 401 to a request that comes with
  -- its secret and without a token, if no other key has the hash; and neither operation touches a
  -- key of another tenant.
  pub retired_key_refused :
      (issue : Issue) (now tenant_id user_id id : ℕ) (keys : List ApiKey) (old : ApiKey)
      (allowed wanted : List String) (req : Request) (secret : String)
      → find_key tenant_id id keys ≡ some old
      → OnlyOf tenant_id id (s.sha256 secret) keys
      → str_eq (issue.key_hash) (s.sha256 secret) ≡ false
      → req.authorization ≡ none
      → req.api_key ≡ some secret
      → (require_roles_dual py s allowed wanted req
            (dispatch py s (revoke_api_key now tenant_id id keys).1 req)
          ≡ unauthorized)
        × (require_roles_dual py s allowed wanted req
              (dispatch py s (rotate_api_key issue now tenant_id user_id id keys).1 req)
            ≡ unauthorized)
        × (of_others tenant_id (revoke_api_key now tenant_id id keys).1 ≡ of_others tenant_id keys)
        × (of_others tenant_id (rotate_api_key issue now tenant_id user_id id keys).1
            ≡ of_others tenant_id keys)
  unfolding revoke_api_key rotate_api_key revoked rotated new_key
  retired_key_refused issue now tenant_id user_id id keys old allowed wanted req secret known only
        fresh none_sent sent =
      let left = retire_key now tenant_id id keys in
      let dead = retire_key-OpensNothing now tenant_id id (s.sha256 secret) keys only in
      rw known (
        dead_refused allowed wanted left req secret none_sent sent dead,
        dead_refused allowed wanted _ req secret none_sent sent
            (append-OpensNothing (s.sha256 secret) left _ fresh dead),
        retire_key-others now tenant_id id keys,
        of_others-append tenant_id left _ (==_refl tenant_id)
            ∙ retire_key-others now tenant_id id keys,
      )
