-- ===== src/Tests/Requests.antt =====
-- Requests with an API key and with a token, and a key that is revoked.
use ai_soc.Prelude.{
  String, ◌≡◌, refl, none, some, [], ◌∷◌, true, if◌then◌else◌, str_eq, starts_with,
}
use ai_soc.Json.{text}
use ai_soc.Platform.Requests.{ApiKey, Request, Settings, unauthorized, dispatch, require_roles_dual}
use ai_soc.Platform.Requests.Keys.{revoke_api_key, rotate_api_key}
use ai_soc.Platform.Requests.Sound.{Entitled, require_roles_dual-Entitled}
use ai_soc.Platform.Requests.Revocation.{of_others, retired_key_refused}
use ai_soc.Tests.Data.{plain}

abbrev sensor_key : ApiKey
sensor_key = record {
  id = 1;
  tenant_id = 1;
  created_by = 7;
  name = "laptop";
  key_hash = "h:secret";
  scopes = "ingest" ∷ [];
  expires_at = none;
  revoked_at = none;
  is_active = true;
}

abbrev other_key : ApiKey
other_key = record sensor_key { id = 2; tenant_id = 2; key_hash = "h:other" }

abbrev settings : Settings
settings = record {
  decode = λ token.
      if str_eq token ""
      then none
      else some (record { sub = text "7"; role = some "TENANT_VIEWER"; tenant_id = some 1 });
  sha256 = λ s. if str_eq s "secret" then "h:secret" else "h:unknown";
  api_prefix = "/api/v1";
  now = 100;
}

abbrev ingest : Request
ingest = record {
  method = "POST";
  path = "/api/v1/events/ingest";
  authorization = none;
  api_key = some "secret";
}

-- capitals do not matter to a Python that leaves every letter as it is
abbrev lower : String → String
lower s = if starts_with s "Bearer " then "bearer x" else s

bearer_lower :
    (h : String) → starts_with h "Bearer " ≡ true → starts_with (lower h) "bearer " ≡ true
bearer_lower h e = rw e refl

require_roles_dual-Entitled_example :
    Entitled
      (record plain { lower = lower })
      settings
      ("TENANT_ADMIN" ∷ [])
      ("ingest" ∷ [])
      (sensor_key ∷ other_key ∷ [])
      ingest
      (require_roles_dual
        (record plain { lower = lower })
        settings
        ("TENANT_ADMIN" ∷ [])
        ("ingest" ∷ [])
        ingest
        (dispatch (record plain { lower = lower }) settings (sensor_key ∷ other_key ∷ []) ingest))
require_roles_dual-Entitled_example =
    require_roles_dual-Entitled (record plain { lower = lower }) settings bearer_lower refl
      ("TENANT_ADMIN" ∷ []) ("ingest" ∷ []) (sensor_key ∷ other_key ∷ []) ingest

retired_key_refused_example :
    (require_roles_dual plain settings
        ("TENANT_ADMIN" ∷ [])
        ("ingest" ∷ [])
        ingest
        (dispatch plain settings (revoke_api_key 90 1 1 (sensor_key ∷ other_key ∷ [])).1 ingest)
      ≡ unauthorized)
    × (require_roles_dual plain settings ("TENANT_ADMIN" ∷ []) ("ingest" ∷ []) ingest (
          dispatch plain settings
            (rotate_api_key
              (record { id = 3; key_hash = "h:new" })
              90
              1
              7
              1
              (sensor_key ∷ other_key ∷ [])).1
            ingest)
        ≡ unauthorized)
    × (of_others 1 (revoke_api_key 90 1 1 (sensor_key ∷ other_key ∷ [])).1
        ≡ of_others 1 (sensor_key ∷ other_key ∷ []))
    × (of_others 1
          (rotate_api_key
            (record { id = 3; key_hash = "h:new" })
            90
            1
            7
            1
            (sensor_key ∷ other_key ∷ [])).1
        ≡ of_others 1 (sensor_key ∷ other_key ∷ []))
retired_key_refused_example =
    retired_key_refused plain settings (record { id = 3; key_hash = "h:new" }) 90 1 7 1
      (sensor_key ∷ other_key ∷ []) sensor_key ("TENANT_ADMIN" ∷ []) ("ingest" ∷ []) ingest "secret"
      refl ((λ h. refl), ((λ h. h), tt)) refl refl refl
