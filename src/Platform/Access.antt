-- ===== src/Platform/Access.antt =====
-- backend/app/auth/rbac.py: the permissions of the roles, and the zones of the users.
pub mod Privilege
use ai_soc.Prelude.{
  String, ◌≡◌, Bool, true, false, not, ◌||◌, ◌&&◌, Option, none, some, List, [], ◌∷◌, if◌then◌else◌,
  str_eq, mem_str, or_else, arith, eq_iff, Bool-cases, inl, inr, refl,
}
use ai_soc.Prelude.Assoc.{Assoc, lookup, insert}
use ai_soc.Python.{Python}

abbrev analyst_permissions : List String
analyst_permissions = "read_alerts" ∷ "create_incident" ∷ "execute_containment" ∷ []

abbrev manager_permissions : List String
manager_permissions =
    "read_alerts" ∷ "create_incident" ∷ "approve_critical_action" ∷ "execute_containment"
    ∷ "view_audit_logs" ∷ []

-- the values of the enumeration `Permission`
abbrev pub permissions : List String
permissions =
    "read_alerts" ∷ "create_incident" ∷ "approve_critical_action" ∷ "manage_users" ∷ "manage_system"
    ∷ "execute_containment" ∷ "view_audit_logs" ∷ []

abbrev pub role_permissions : Assoc (List String)
role_permissions =
    ("soc_analyst", analyst_permissions)
    ∷ ("analyst", analyst_permissions)
    ∷ ("soc_manager", manager_permissions)
    ∷ ("manager", manager_permissions)
    ∷ ("admin", permissions)
    ∷ []

module _ (py : Python) where
  pub get_permissions_for_role : String → List String
  unfolding lookup
  get_permissions_for_role role = or_else (lookup (py.lower role) role_permissions) []

  unfoldable pub has_permission : String → String → Bool
  unfolding get_permissions_for_role
  has_permission role permission =
      if str_eq (py.lower role) "admin"
      then true
      else mem_str permission (get_permissions_for_role role)

pub data Decision : Type 0 where
  allowed rbac_denied zone_denied : Decision

-- the zones of the restricted users
abbrev pub Zones : Type 0
Zones = Assoc (List String)

pub set_zone_restrictions : Zones → String → List String → Zones
unfolding insert
set_zone_restrictions z user_id zones = insert user_id zones z

abbrev zone_check : List String → Option String → Decision
zone_check zones none = allowed
zone_check zones (some zone) =
    if not (str_eq zone "") && not (mem_str zone zones) then zone_denied else allowed

module _ (py : Python) where
  -- a user and a role that the caller's context lacks are read as the empty text
  unfoldable pub can_access_resource : Zones → String → String → Option String → String → Decision
  unfolding has_permission lookup
  can_access_resource z user_id role zone permission =
      if not (has_permission py role permission)
      then rbac_denied
      else elim (lookup user_id z) [ none ↦ allowed | some zones ↦ zone_check zones zone ]
