-- ===== src/Detection/Correlate/Counting.antt =====
-- What correlation reports about its work (correlate.py).
use ai_soc.Prelude.{
  ℕ, suc, ◌+◌, ◌-◌, String, ◌≡◌, refl, ◌∙◌, ap, subst, List, [], ◌∷◌, ◌++◌, str_eq, length,
  length-append, or_else, arith, Bool-cases, Option-cases, inl, inr, map,
}
use ai_soc.Prelude.Assoc.{Assoc, lookup, insert}
use ai_soc.Python.{Python}
use ai_soc.Store.{Alert, Db}
use ai_soc.Detection.Correlate.{
  device_key, group_by_device, open_incident_for_device, Counts, correlate_group, correlate_groups,
  correlate_new_alerts, correlation_window,
}
use ai_soc.Detection.Correlate.Grouping.{has_id}
use ai_soc.Detection.Correlate.Linking.{Correlated, correlate_new_alerts-Correlated}

abbrev members : Assoc (List Alert) → ℕ
members [] = 0
members ((d, g) ∷ rest) = length g + members rest

members-insert :
    (k : String) (g : List Alert) (m : Assoc (List Alert))
    → members (insert k g m) + length (or_else (lookup k m) []) ≡ members m + length g
unfolding insert lookup
members-insert k g [] = omega arith
members-insert k g ((j, h) ∷ m) = elim (Bool-cases (str_eq j k)) [
  | inl same ↦ rw same (omega arith)
  | inr other ↦ rw other (omega (arith, members-insert k g m))
]

members-group_by_device :
    (groups : Assoc (List Alert)) (alerts : List Alert)
    → members (group_by_device groups alerts) ≡ members groups + length alerts
unfolding group_by_device
members-group_by_device groups [] = omega arith
members-group_by_device groups (a ∷ rest) = omega (
  arith,
  members-insert (device_key a) (or_else (lookup (device_key a) groups) [] ++ a ∷ []) groups,
  length-append (or_else (lookup (device_key a) groups) []) (a ∷ []),
  members-group_by_device
      (insert (device_key a) (or_else (lookup (device_key a) groups) [] ++ a ∷ []) groups) rest,
)

-- The counts of a run of correlation against its effect on the tables.
pub record Accounts (before after : Db) (c₀ c : Counts) (members : ℕ) : Type 0 where
  pub attached : c.incidents_attached ≡ c₀.incidents_attached + members
  pub created :
      c.incidents_created + length before.incidents ≡ c₀.incidents_created + length after.incidents
  pub alerts_kept : length after.alerts ≡ length before.alerts

length-map : {A B : Type 0} (f : A → B) (xs : List A) → length (map f xs) ≡ length xs
length-map f [] = refl
length-map f (x ∷ xs) = ap suc (length-map f xs)

module _ (py : Python) (t : ℕ) where
  correlate_group-Accounts :
      (db : Db) (c : Counts) (device : String) (group : List Alert)
      → let out = correlate_group py t db c device group in Accounts db out.1 c out.0 (length group)
  unfolding correlate_group
  correlate_group-Accounts db c device group =
      elim (Option-cases (open_incident_for_device db t device (db.now - correlation_window))) [
        | inl fresh ↦
            rw (correlate_group, fresh)
              (record {
                attached = refl;
                created = omega (arith, length-append db.incidents (_ ∷ []));
                alerts_kept = length-map (λ a. _) db.alerts;
              })
        | inr (i, joined) ↦
            rw (correlate_group, joined)
              (record {
                attached = refl;
                created = omega arith;
                alerts_kept = length-map (λ a. _) db.alerts;
              })
      ]

  correlate_groups-Accounts :
      (db : Db) (c : Counts) (groups : Assoc (List Alert))
      → let out = correlate_groups py t db c groups in Accounts db out.1 c out.0 (members groups)
  unfolding correlate_groups
  correlate_groups-Accounts db c [] = record {
    attached = omega arith;
    created = refl;
    alerts_kept = refl;
  }
  correlate_groups-Accounts db c ((device, group) ∷ rest) =
      let (c₁, db₁) = correlate_group py t db c device group in
      let one = correlate_group-Accounts db c device group in
      let more = correlate_groups-Accounts db₁ c₁ rest in
      record {
        attached = omega (arith, one.attached, more.attached);
        created = omega (arith, one.created, more.created);
        alerts_kept = more.alerts_kept ∙ one.alerts_kept;
      }

  -- After correlation every alert row whose id is among the given alerts is in an incident of the
  -- tenant that is in the table, and nothing else of the row has changed; every other alert row is as
  -- it was, in the same order. The incidents that were there stay as they were, before the new ones.
  -- And the counts are true: as many alerts are counted as attached as were given, as many incidents
  -- are counted as created as were added, and no alert row is added or lost.
  pub correlate-Accounts :
      (db : Db) (alerts : List Alert)
      → let out = correlate_new_alerts py t db alerts in
        Correlated t (has_id alerts) db out.1
        × Accounts db out.1
            (record { incidents_created = 0; incidents_attached = 0 })
            out.0
            (length alerts)
  unfolding correlate_new_alerts
  correlate-Accounts db alerts =
      let groups = group_by_device [] alerts in
      let all : members groups ≡ length alerts = members-group_by_device [] alerts ∙ omega arith in
      let none_yet : Counts = record { incidents_created = 0; incidents_attached = 0 } in
      let out = correlate_groups py t db none_yet groups in
      (
        correlate_new_alerts-Correlated t py db alerts,
        subst (Accounts db out.1 none_yet out.0) all (correlate_groups-Accounts db none_yet groups),
      )
