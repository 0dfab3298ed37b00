-- ===== src/Platform/Requests/Keys.antt =====
-- backend/app/api/v1/api_keys.py: the lifecycle of API keys. The new secret, its hash and the id of
-- the row are inputs, and the tenant is the one of the context; a request without a tenant fails in
-- the database and is left out.
use ai_soc.Prelude.{
  String, ℕ, Bool, true, false, ◌&&◌, Option, none, some, List, [], ◌∷◌, ◌++◌, ◌==◌, if◌then◌else◌,
  keep,
}
use ai_soc.Platform.Requests.{ApiKey}

pub record ApiKeyCreate : Type 0 where
  pub name : String
  pub scopes : List String
  pub expires_at : Option ℕ

-- what `generate_api_key` and the database give to a new row
pub record Issue : Type 0 where
  pub id : ℕ
  pub key_hash : String

-- The answer: status 404, or the row.
pub data Answer : Type 0 where
  not_found : Answer
  found : ApiKey → Answer

abbrev pub is_key : ℕ → ℕ → ApiKey → Bool
is_key tenant_id id k = (k.id == id) && (k.tenant_id == tenant_id)

abbrev pub find_key : ℕ → ℕ → List ApiKey → Option ApiKey
find_key tenant_id id [] = none
find_key tenant_id id (k ∷ ks) = if is_key tenant_id id k then some k else find_key tenant_id id ks

unfoldable pub new_key : Issue → ℕ → ℕ → ApiKeyCreate → ApiKey
new_key issue tenant_id user_id key_in = record {
  id = issue.id;
  tenant_id = tenant_id;
  created_by = user_id;
  name = key_in.name;
  key_hash = issue.key_hash;
  scopes = key_in.scopes;
  expires_at = key_in.expires_at;
  revoked_at = none;
  is_active = true;
}

unfoldable pub create_api_key : Issue → ℕ → ℕ → ApiKeyCreate → List ApiKey → Answer × List ApiKey
unfolding new_key
create_api_key issue tenant_id user_id key_in keys =
    let key = new_key issue tenant_id user_id key_in in (found key, keys ++ key ∷ [])

unfoldable pub list_api_keys : ℕ → List ApiKey → List ApiKey
list_api_keys tenant_id keys = keep (λ k. k.tenant_id == tenant_id) keys

abbrev pub answer_of : Option ApiKey → Answer
answer_of none = not_found
answer_of (some k) = found k

unfoldable pub get_api_key : ℕ → ℕ → List ApiKey → Answer
get_api_key tenant_id id keys = answer_of (find_key tenant_id id keys)

unfoldable pub retire : ℕ → ApiKey → ApiKey
retire now k = record k { is_active = false; revoked_at = some now }

-- the row with an id, of which there is one, is retired
unfoldable pub retire_key : ℕ → ℕ → ℕ → List ApiKey → List ApiKey
unfolding retire
retire_key now tenant_id id [] = []
retire_key now tenant_id id (k ∷ ks) =
    let rest = retire_key now tenant_id id ks in
    if is_key tenant_id id k then retire now k ∷ rest else k ∷ rest

unfoldable pub revoked : ℕ → ℕ → ℕ → Option ApiKey → List ApiKey → Answer × List ApiKey
unfolding retire_key retire
revoked now tenant_id id none keys = (not_found, keys)
revoked now tenant_id id (some k) keys = (found (retire now k), retire_key now tenant_id id keys)

unfoldable pub revoke_api_key : ℕ → ℕ → ℕ → List ApiKey → Answer × List ApiKey
unfolding revoked
revoke_api_key now tenant_id id keys = revoked now tenant_id id (find_key tenant_id id keys) keys

unfoldable pub rotated : Issue → ℕ → ℕ → ℕ → ℕ → Option ApiKey → List ApiKey → Answer × List ApiKey
unfolding retire_key new_key
rotated issue now tenant_id user_id id none keys = (not_found, keys)
rotated issue now tenant_id user_id id (some old) keys =
    let key =
      new_key issue tenant_id user_id
        (record { name = old.name; scopes = old.scopes; expires_at = old.expires_at }) in
    (found key, retire_key now tenant_id id keys ++ key ∷ [])

unfoldable pub rotate_api_key : Issue → ℕ → ℕ → ℕ → ℕ → List ApiKey → Answer × List ApiKey
unfolding rotated
rotate_api_key issue now tenant_id user_id id keys =
    rotated issue now tenant_id user_id id (find_key tenant_id id keys) keys
