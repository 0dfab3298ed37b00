-- ===== src/Platform/Requests/Sound.antt =====
-- Whom the role check lets through (backend/app/api/deps.py, require_roles_dual, behind
-- auth_middleware.py).
use ai_soc.Prelude.{
  String, ◌≡◌, refl, sym, ap, ◌∙◌, inl, inr, true, false, Option, none, some, List, str_eq, eq_iff,
  all_of, mem_str, starts_with, Bool-cases, arith,
}
use ai_soc.Json.{ℤ}
use ai_soc.Python.{Python}
use ai_soc.Platform.Requests.{
  ApiKey, Claims, Request, Settings, Context, TokenData, Access, unauthorized, forbidden, granted,
  roles, drop_chars, signed_in, bearer_of, is_live, key_with_hash, from_claims, from_token,
  from_key, from_header, dispatch, on_surface, key_allows, get_current_user_dual, get_current_user,
  may, check_role, token_data, has_bearer, check_header, with_header, and_then, require_roles_dual,
}

module _ (py : Python) (s : Settings) where
  -- by a token that the secret signed, of a user with a role that the route allows
  pub record ByToken (allowed : List String) (req : Request) (t : TokenData) : Type 0 where
    pub header : String
    pub sent : req.authorization ≡ some header
    pub claims : Claims
    pub signed : s.decode (py.strip (drop_chars 7 header)) ≡ some claims
    pub user : py.int_of (claims.sub) ≡ some (t.user_id)
    pub role : claims.role ≡ some (t.role)
    pub permitted : may py s allowed (t.role) ≡ true

  -- by a stored key that is active and not expired, has the scopes, and calls a route of the sensor
  pub record ByKey (wanted : List String) (keys : List ApiKey) (req : Request) : Type 0 where
    pub secret : String
    pub sent : req.api_key ≡ some secret
    pub key : ApiKey
    pub stored : key_with_hash (s.sha256 secret) keys ≡ some key
    pub live : is_live (s.now) key ≡ true
    pub scoped : all_of (λ w. mem_str w (key.scopes)) wanted ≡ true
    pub surface : on_surface py s req ≡ true
    pub tenant : (dispatch py s keys req).tenant_id ≡ some (key.tenant_id)

  abbrev pub Entitled : List String → List String → List ApiKey → Request → Access → Type 0
  Entitled allowed wanted keys req (granted (some t)) = ByToken allowed req t
  Entitled allowed wanted keys req (granted none) = ByKey wanted keys req
  Entitled allowed wanted keys req refused = Unit

  no_token :
      (claims : Option Claims)
      → claims ≡ none
      → signed_in ((from_claims py s claims).user_id) ≡ false
  no_token claims e = rw e refl

  -- A header without a bearer token signs nobody in.
  no_bearer :
      ((h : String) → starts_with h "Bearer " ≡ true → starts_with (py.lower h) "bearer " ≡ true)
      → s.decode "" ≡ none
      → (h : String) → has_bearer py s h ≡ false
      → signed_in ((from_token py s (bearer_of (some h))).user_id) ≡ false
  no_bearer law empty h e = elim (Bool-cases (starts_with h "Bearer ")) [
    | inr other ↦ rw other refl
    | inl bearer ↦
        let blank : drop_chars 7 h ≡ "" =
          ground (arith, e, law h bearer, eq_iff (drop_chars 7 h) "") in
        rw (bearer, blank, empty) refl
  ]

  unsigned :
      (wanted : List String) (req : Request) (c : Context) (t : Option TokenData)
      → signed_in (c.user_id) ≡ false
      → get_current_user_dual py s wanted req c ≡ granted t
      → ⊥
  unfolding get_current_user_dual
  unsigned wanted req c t e h = ground (arith, e, h)

  allowed_key :
      (wanted : List String) (req : Request) (scopes : List String) (t : Option TokenData)
      → key_allows py s wanted req (some scopes) ≡ granted t
      → (all_of (λ w. mem_str w scopes) wanted ≡ true) × (on_surface py s req ≡ true)
  allowed_key wanted req scopes t h = elim (Bool-cases (all_of (λ w. mem_str w scopes) wanted)) [
    | inr missing ↦ elim (refused_scope missing) [ ]
    | inl scoped ↦ elim (Bool-cases (on_surface py s req)) [
      | inl surface ↦ (scoped, surface)
      | inr off ↦ elim (refused_route scoped off) [ ]
    ]
  ]
    where
      refused_scope : all_of (λ w. mem_str w scopes) wanted ≡ false → ⊥
      refused_scope e = ground (arith, e, h)

      refused_route : all_of (λ w. mem_str w scopes) wanted ≡ true → on_surface py s req ≡ false → ⊥
      refused_route e f = ground (arith, e, f, h)

  signed_granted :
      (wanted : List String) (req : Request) (c : Context) (t : Option TokenData)
      → get_current_user_dual py s wanted req c ≡ granted t
      → signed_in (c.user_id) ≡ true
  unfolding get_current_user_dual
  signed_granted wanted req c t h = ground (arith, h)

  module _ (wanted : List String) (keys : List ApiKey) (req : Request) (token : Context)
      (t : Option TokenData) where
    -- The context of a key, if one got the request through.
    record Through (sent : Option String) (c : Context) : Type 0 where
      secret : String
      given : sent ≡ some secret
      key : ApiKey
      stored : key_with_hash (s.sha256 secret) keys ≡ some key
      live : is_live (s.now) key ≡ true
      tenant : c.tenant_id ≡ some (key.tenant_id)
      scopes : c.scopes ≡ some (key.scopes)

    found :
        (secret : String) (k : Option ApiKey)
        → key_with_hash (s.sha256 secret) keys ≡ k
        → signed_in (token.user_id) ≡ false
        → get_current_user_dual py s wanted req (from_key py s k token) ≡ granted t
        → Through (some secret) (from_key py s k token)
    found secret none e off = λ h. elim (unsigned wanted req token t off h) [ ]
    found secret (some k) e off = elim (Bool-cases (is_live (s.now) k)) [
      | inr dead ↦ rw dead (λ h. elim (unsigned wanted req token t off h) [ ])
      | inl live ↦ rw live (λ h. record {
        secret = secret;
        given = refl;
        key = k;
        stored = e;
        live = live;
        tenant = refl;
        scopes = refl;
      })
    ]

    through :
        (sent : Option String)
        → signed_in (token.user_id) ≡ false
        → get_current_user_dual py s wanted req (from_header py s keys sent token) ≡ granted t
        → Through sent (from_header py s keys sent token)
    through none off = λ h. elim (unsigned wanted req token t off h) [ ]
    through (some secret) off = elim (Bool-cases (str_eq secret "")) [
      | inl empty ↦ rw empty (λ h. elim (unsigned wanted req token t off h) [ ])
      | inr filled ↦ rw filled (found secret _ refl off)
    ]

  dual_key :
      (wanted : List String) (req : Request) (c : Context) (scopes : List String)
      → signed_in (c.user_id) ≡ true
      → c.scopes ≡ some scopes
      → get_current_user_dual py s wanted req c ≡ key_allows py s wanted req (some scopes)
  unfolding get_current_user_dual
  dual_key wanted req c scopes on e = rw (on, e) refl

  with_key :
      (wanted : List String) (keys : List ApiKey) (req : Request) (t : Option TokenData)
      → signed_in ((from_token py s (bearer_of (req.authorization))).user_id) ≡ false
      → get_current_user_dual py s wanted req (dispatch py s keys req) ≡ granted t
      → ByKey wanted keys req
  unfolding dispatch get_current_user_dual
  with_key wanted keys req t off h =
      let token = from_token py s (bearer_of (req.authorization)) in
      let by_header : dispatch py s keys req ≡ from_header py s keys (req.api_key) token =
        rw off refl in
      let x =
        through wanted keys req token t (req.api_key) off
          (ap (get_current_user_dual py s wanted req) (sym by_header) ∙ h) in
      let on : signed_in ((dispatch py s keys req).user_id) ≡ true =
        signed_granted wanted req (dispatch py s keys req) t h in
      let checks = allowed_key wanted req (x.key.scopes) t (
        sym (
          dual_key wanted req (dispatch py s keys req) (x.key.scopes) on
            (ap (λ c. c.scopes) by_header ∙ x.scopes))
        ∙ h) in
      record {
        secret = x.secret;
        sent = x.given;
        key = x.key;
        stored = x.stored;
        live = x.live;
        scoped = checks.0;
        surface = checks.1;
        tenant = ap (λ c. c.tenant_id) by_header ∙ x.tenant;
      }

  by_token :
      (allowed : List String) (req : Request) (header : String) (claims : Option Claims)
      → req.authorization ≡ some header
      → s.decode (py.strip (drop_chars 7 header)) ≡ claims
      → (wanted : List String) (keys : List ApiKey)
      → Entitled allowed wanted keys req (check_role py s allowed (get_current_user py s claims))
  unfolding get_current_user
  by_token allowed req header none sent e wanted keys = tt
  by_token allowed req header (some c) sent e wanted keys =
      checked (py.int_of (c.sub)) (c.role) refl refl
    where
      checked :
          (user : Option ℤ) (role : Option String)
          → py.int_of (c.sub) ≡ user
          → c.role ≡ role
          → Entitled allowed wanted keys req
              (check_role py s allowed (token_data py s user role (c.tenant_id)))
      checked none role u g = tt
      checked (some i) none u g = tt
      checked (some i) (some role) u g = elim (Bool-cases (mem_str role roles)) [
        | inr other ↦ rw other tt
        | inl known ↦ elim (Bool-cases (may py s allowed role)) [
          | inr refused ↦ rw (known, refused) tt
          | inl permitted ↦
              rw (known, permitted)
                (record {
                  header = header;
                  sent = sent;
                  claims = c;
                  signed = e;
                  user = u;
                  role = g;
                  permitted = permitted;
                })
        ]
      ]

  module _
      (law : (h : String)
        → starts_with h "Bearer " ≡ true
        → starts_with (py.lower h) "bearer " ≡ true)
      (empty : s.decode "" ≡ none) where
    header_checked :
        (allowed wanted : List String) (keys : List ApiKey) (req : Request) (t : Option TokenData)
        (auth : Option String)
        → req.authorization ≡ auth
        → get_current_user_dual py s wanted req (dispatch py s keys req) ≡ granted t
        → Entitled allowed wanted keys req (with_header py s allowed auth)
    unfolding with_header check_header
    header_checked allowed wanted keys req t none e h = with_key wanted keys req t (rw e refl) h
    header_checked allowed wanted keys req t (some header) e h =
        elim (Bool-cases (has_bearer py s header)) [
          | inl bearer ↦ rw bearer (by_token allowed req header _ e refl wanted keys)
          | inr blank ↦
              rw blank (with_key wanted keys req t (rw e (no_bearer law empty header blank)) h)
        ]

    after_dual :
        (allowed wanted : List String) (keys : List ApiKey) (req : Request) (a : Access)
        → get_current_user_dual py s wanted req (dispatch py s keys req) ≡ a
        → Entitled allowed wanted keys req (and_then py s allowed (req.authorization) a)
    unfolding and_then
    after_dual allowed wanted keys req (granted t) e =
        header_checked allowed wanted keys req t _ refl e
    after_dual allowed wanted keys req unauthorized e = tt
    after_dual allowed wanted keys req forbidden e = tt

    -- Nobody gets past the role check but a user whose token is signed and has a role that the route
    -- allows, or GLOBAL_ADMIN, and a holder of a stored API key that is active, not expired and has
    -- the scopes, and that only on the routes of the sensor and as the tenant of the key. A header
    -- that begins with Bearer must do so in small letters too, and the empty token must be refused.
    pub require_roles_dual-Entitled :
        (allowed wanted : List String) (keys : List ApiKey) (req : Request)
        → Entitled allowed wanted keys req
            (require_roles_dual py s allowed wanted req (dispatch py s keys req))
    unfolding require_roles_dual
    require_roles_dual-Entitled allowed wanted keys req = after_dual allowed wanted keys req _ refl
