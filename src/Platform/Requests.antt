-- ===== src/Platform/Requests.antt =====
-- backend/app/api/middleware/auth_middleware.py and backend/app/api/deps.py: who a request is from, by
-- a token or an API key, and whether it may call a route. The decoding of tokens and the hash of a
-- key are inputs; the context variables are a record that the dependencies read.
pub mod Keys
pub mod Sound
pub mod Revocation
use Prim.Native.Char.{code}
use Prim.Native.String
use ai_soc.Prelude.{
  String, ℕ, zero, suc, Bool, true, false, not, ◌&&◌, ◌||◌, Option, none, some, List, [], ◌∷◌, ◌==◌,
  str_eq, if◌then◌else◌, any_of, all_of, mem_str, starts_with, ltb,
}
use ai_soc.Json.{ℤ, pos, negsuc, Value, truthy}
use ai_soc.Python.{Python}

pub record ApiKey : Type 0 where
  pub id : ℕ
  pub tenant_id : ℕ
  pub created_by : ℕ
  pub name : String
  pub key_hash : String
  pub scopes : List String
  pub expires_at : Option ℕ
  pub revoked_at : Option ℕ
  pub is_active : Bool

pub record Claims : Type 0 where
  pub sub : Value
  pub role : Option String
  pub tenant_id : Option ℕ

pub record Request : Type 0 where
  pub method : String
  -- the path of the route, with its placeholders
  pub path : String
  pub authorization : Option String
  pub api_key : Option String

-- What the request is checked with: `jwt.decode` with the secret, where `none` stands for a
-- `JWTError`, SHA-256 in hexadecimal, the prefix of the API and the time.
pub record Settings : Type 0 where
  pub decode : String → Option Claims
  pub sha256 : String → String
  pub api_prefix : String
  pub now : ℕ

-- the context variables, and the scopes of the key that the request came with
pub record Context : Type 0 where
  pub tenant_id : Option ℕ
  pub user_id : Option ℤ
  pub scopes : Option (List String)

pub record TokenData : Type 0 where
  pub user_id : ℤ
  pub role : String
  pub tenant_id : Option ℕ

pub data Access : Type 0 where
  unauthorized forbidden : Access
  granted : Option TokenData → Access

abbrev pub roles : List String
roles = "GLOBAL_ADMIN" ∷ "TENANT_ADMIN" ∷ "TENANT_ANALYST" ∷ "TENANT_VIEWER" ∷ []

abbrev pub sensor_routes : List (String × String)
sensor_routes =
    ("POST", "/agents/register")
    ∷ ("POST", "/agents/{device_id}/heartbeat")
    ∷ ("POST", "/events/ingest")
    ∷ ("GET", "/agents/{device_id}/commands")
    ∷ ("POST", "/agents/commands/{cmd_id}/ack")
    ∷ []

-- `s[n:]`
abbrev pub drop_chars : ℕ → String → String
drop_chars zero s = s
drop_chars (suc n) String.[] = ""
drop_chars (suc n) (String.◌∷◌ c s) = drop_chars n s

-- the text before the first space
abbrev pub until_space : String → String
until_space String.[] = ""
until_space (String.◌∷◌ c s) =
    let rest = until_space s in if code c == 32 then "" else String.◌∷◌ c rest

-- `s` without the prefix, which it has
abbrev pub without : String → String → String
without String.[] s = s
without (String.◌∷◌ d p) String.[] = ""
without (String.◌∷◌ d p) (String.◌∷◌ c s) = without p s

-- `bool(user_id)`
abbrev pub signed_in : Option ℤ → Bool
signed_in none = false
signed_in (some (pos zero)) = false
signed_in (some _) = true

-- `auth_header.split(" ")[1]` of a header that begins with `Bearer `
abbrev pub bearer_of : Option String → Option String
bearer_of none = none
bearer_of (some h) = if starts_with h "Bearer " then some (until_space (drop_chars 7 h)) else none

abbrev pub is_live : ℕ → ApiKey → Bool
is_live now k = k.is_active && elim (k.expires_at) [ none ↦ true | some at ↦ ltb now at ]

-- `.scalars().first()` of the keys with a hash
abbrev pub key_with_hash : String → List ApiKey → Option ApiKey
key_with_hash h [] = none
key_with_hash h (k ∷ ks) = if str_eq (k.key_hash) h then some k else key_with_hash h ks

module _ (py : Python) (s : Settings) where
  abbrev pub user_of : Option ℤ → Option ℕ → Context
  user_of none tenant_id = record { tenant_id = none; user_id = none; scopes = none }
  user_of (some i) tenant_id = record { tenant_id = tenant_id; user_id = some i; scopes = none }

  -- the user and the tenant of a token
  abbrev pub from_claims : Option Claims → Context
  from_claims none = record { tenant_id = none; user_id = none; scopes = none }
  from_claims (some c) =
      if truthy (c.sub)
      then user_of (py.int_of (c.sub)) (c.tenant_id)
      else record { tenant_id = c.tenant_id; user_id = none; scopes = none }

  abbrev pub from_token : Option String → Context
  from_token none = record { tenant_id = none; user_id = none; scopes = none }
  from_token (some token) = from_claims (s.decode token)

  abbrev pub from_key : Option ApiKey → Context → Context
  from_key none c = c
  from_key (some k) c =
      if is_live (s.now) k
      then record {
        tenant_id = some (k.tenant_id);
        user_id = some (pos (k.created_by));
        scopes = some (k.scopes);
      }
      else c

  -- an empty header is no header
  abbrev pub from_header : List ApiKey → Option String → Context → Context
  from_header keys none c = c
  from_header keys (some header) c =
      if str_eq header "" then c else from_key (key_with_hash (s.sha256 header) keys) c

  -- the token first, then the key
  unfoldable pub dispatch : List ApiKey → Request → Context
  dispatch keys req =
      let token = from_token (bearer_of (req.authorization)) in
      if signed_in (token.user_id) then token else from_header keys (req.api_key) token

  abbrev pub route_path : Request → String
  route_path req =
      if not (str_eq (s.api_prefix) "") && starts_with (req.path) (s.api_prefix)
      then without (s.api_prefix) (req.path)
      else req.path

  abbrev pub on_surface : Request → Bool
  on_surface req =
      any_of (λ r. str_eq r.0 (req.method) && str_eq r.1 (route_path req)) sensor_routes

  abbrev pub key_allows : List String → Request → Option (List String) → Access
  key_allows wanted req none = granted none
  key_allows wanted req (some scopes) =
      if not (all_of (λ w. mem_str w scopes) wanted)
      then forbidden
      else if on_surface req
      then granted none
      else forbidden

  unfoldable pub get_current_user_dual : List String → Request → Context → Access
  get_current_user_dual wanted req c =
      if signed_in (c.user_id) then key_allows wanted req (c.scopes) else unauthorized

  abbrev pub token_data : Option ℤ → Option String → Option ℕ → Option TokenData
  token_data (some i) (some role) tenant_id =
      if mem_str role roles
      then some (record { user_id = i; role = role; tenant_id = tenant_id })
      else none
  token_data _ _ _ = none

  -- `none` where the source answers 403
  unfoldable pub get_current_user : Option Claims → Option TokenData
  get_current_user none = none
  get_current_user (some c) = token_data (py.int_of (c.sub)) (c.role) (c.tenant_id)

  abbrev pub may : List String → String → Bool
  may allowed role = mem_str role allowed || str_eq role "GLOBAL_ADMIN"

  abbrev pub check_role : List String → Option TokenData → Access
  check_role allowed none = forbidden
  check_role allowed (some t) = if may allowed (t.role) then granted (some t) else forbidden

  -- `auth.lower().startswith("bearer ") and len(auth) > 7`
  abbrev pub has_bearer : String → Bool
  has_bearer auth = starts_with (py.lower auth) "bearer " && not (str_eq (drop_chars 7 auth) "")

  unfoldable pub check_header : List String → String → Access
  unfolding get_current_user
  check_header allowed auth =
      if has_bearer auth
      then check_role allowed (get_current_user (s.decode (py.strip (drop_chars 7 auth))))
      else granted none

  unfoldable pub with_header : List String → Option String → Access
  unfolding check_header
  with_header allowed none = granted none
  with_header allowed (some auth) = check_header allowed auth

  unfoldable pub and_then : List String → Option String → Access → Access
  unfolding with_header
  and_then allowed auth (granted t) = with_header allowed auth
  and_then allowed auth refused = refused

  unfoldable pub require_roles_dual : List String → List String → Request → Context → Access
  unfolding and_then get_current_user_dual
  require_roles_dual allowed wanted req c =
      and_then allowed (req.authorization) (get_current_user_dual wanted req c)
