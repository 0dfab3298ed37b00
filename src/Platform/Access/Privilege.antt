-- ===== src/Platform/Access/Privilege.antt =====
-- What a role can do (rbac.py): who may administer, how roles nest, and when access is granted.
use ai_soc.Prelude.{
  String, ◌≡◌, ◌≢◌, refl, Bool, true, false, Option, none, some, List, [], if◌then◌else◌, str_eq,
  mem_str, or_else, arith, eq_iff, Bool-cases, inl, inr, ◌⊎◌,
}
use ai_soc.Prelude.Assoc.{lookup}
use ai_soc.Python.{Python}
use ai_soc.Platform.Access.{
  analyst_permissions, manager_permissions, get_permissions_for_role, has_permission, Zones,
  allowed, can_access_resource,
}

-- Neither list of permissions that the lower roles choose from holds `p`.
table-avoids :
    (p : String) (b c d e : Bool)
    → mem_str p analyst_permissions ≡ false
    → mem_str p manager_permissions ≡ false
    → mem_str p (
        or_else
          (if b
            then some analyst_permissions
            else if c
            then some analyst_permissions
            else if d
            then some manager_permissions
            else if e
            then some manager_permissions
            else none)
          [])
      ≡ false
table-avoids p true c d e x y = x
table-avoids p false true d e x y = x
table-avoids p false false true e x y = y
table-avoids p false false false true x y = y
table-avoids p false false false false x y = refl

module _ (py : Python) where
  no_administration :
      (role permission : String)
      → (permission ≡ "manage_users") ⊎ (permission ≡ "manage_system")
      → str_eq (py.lower role) "admin" ≡ false
      → str_eq "admin" (py.lower role) ≡ false
      → has_permission py role permission ≡ false
  unfolding has_permission get_permissions_for_role lookup
  no_administration role permission (inl e) other foreign =
      rw (e, other, foreign)
        (table-avoids "manage_users" (str_eq "soc_analyst" (py.lower role))
          (str_eq "analyst" (py.lower role)) (str_eq "soc_manager" (py.lower role))
          (str_eq "manager" (py.lower role)) refl refl)
  no_administration role permission (inr e) other foreign =
      rw (e, other, foreign)
        (table-avoids "manage_system" (str_eq "soc_analyst" (py.lower role))
          (str_eq "analyst" (py.lower role)) (str_eq "soc_manager" (py.lower role))
          (str_eq "manager" (py.lower role)) refl refl)

  -- Only the administrator may manage users or the system, whatever else is in the table.
  pub has_permission-admin :
      (role permission : String)
      → (permission ≡ "manage_users") ⊎ (permission ≡ "manage_system")
      → has_permission py role permission ≡ true
      → py.lower role ≡ "admin"
  unfolding has_permission get_permissions_for_role lookup
  has_permission-admin role permission e h = elim (Bool-cases (str_eq (py.lower role) "admin")) [
    | inl admin ↦ (eq_iff (py.lower role) "admin").0 admin
    | inr other ↦
        let foreign : str_eq "admin" (py.lower role) ≡ false =
          ground (arith, other, eq_iff "admin" (py.lower role), eq_iff (py.lower role) "admin") in
        cc (no_administration role permission e other foreign, h)
  ]

  -- Access is granted only to a role with the permission, and, to a user with zone restrictions,
  -- only for a resource that names no zone or one of the user's zones.
  pub can_access_resource_sound :
      (z : Zones) (user_id role : String) (place : Option String) (permission : String)
      → can_access_resource py z user_id role place permission ≡ allowed
      → (has_permission py role permission ≡ true)
        × ((zones : List String) (name : String)
            → lookup user_id z ≡ some zones
            → place ≡ some name
            → name ≢ ""
            → mem_str name zones ≡ true)
  unfolding can_access_resource
  can_access_resource_sound z user_id role place permission h =
      elim (Bool-cases (has_permission py role permission)) [
        | inr denied ↦ cc (rw denied at h)
        | inl granted ↦ (
          granted,
          λ zones name restricted named filled. elim (Bool-cases (mem_str name zones)) [
            | inl listed ↦ listed
            | inr foreign ↦
                let unnamed : str_eq name "" ≡ false = ground (arith, eq_iff name "", filled) in
                cc (rw (granted, restricted, named, unnamed, foreign) at h)
          ],
        )
      ]
