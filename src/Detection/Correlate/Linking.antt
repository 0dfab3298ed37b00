-- ===== src/Detection/Correlate/Linking.antt =====
-- Which incident an alert ends in (correlate.py).
use ai_soc.Prelude.{
  ℕ, ◌-◌, String, ◌≡◌, refl, sym, ◌∙◌, ap, subst, inl, inr, Bool, true, false, ◌||◌, Option, none,
  some, List, [], ◌∷◌, ◌++◌, ==_iff, keep, arith, Bool-cases, Option-cases, HoldsSome, All, ltb,
}
use mathlib.Core.List.{append_assoc, append-nil}
use ai_soc.Prelude.Assoc.{Assoc}
use ai_soc.Python.{Python}
use ai_soc.Store.{Alert, Incident, Db}
use ai_soc.Detection.Correlate.{
  group_by_device, open_incident_for_device, Counts, correlate_group, correlate_groups,
  correlate_new_alerts, is_candidate, newest, link, correlation_window,
}
use ai_soc.Detection.Correlate.Grouping.{
  has_id, in_groups, in_groups-group_by_device, IsRow, append-IsRow, last-IsRow, RowByRow,
  RowByRow-map, RowByRow-trans,
}

module _ (t : ℕ) where
  -- The alert is in an incident of the tenant that is in the table.
  pub record Linked (incidents : List Incident) (a : Alert) : Type 0 where
    pub incident : Incident
    pub joined : a.incident_id ≡ some incident.id
    pub tenant : incident.tenant_id ≡ t
    pub stored : IsRow incident incidents

  -- What correlation does to a row, where the test says which ids are given to it.
  pub record Placed (given : ℕ → Bool) (incidents : List Incident) (a a' : Alert) : Type 0 where
    pub same : a' ≡ record a { incident_id = a'.incident_id }
    pub linked : given a.id ≡ true → Linked incidents a'
    pub other : given a.id ≡ false → a' ≡ a

  link-Placed :
      (group : List Alert) (i : Incident) (incidents : List Incident)
      → i.tenant_id ≡ t
      → IsRow i incidents
      → (a : Alert) → Placed (has_id group) incidents a (link group i.id a)
  link-Placed group i incidents mine there a = elim (Bool-cases (has_id group a.id)) [
    | inl given ↦ rw given (record {
      same = refl;
      linked = λ h. record { incident = i; joined = refl; tenant = mine; stored = there };
      other = λ h. cc (h, given);
    })
    | inr absent ↦
        rw absent (record { same = refl; linked = λ h. cc (h, absent); other = λ h. refl })
  ]

  Linked-append : (xs ys : List Incident) (a : Alert) → Linked xs a → Linked (xs ++ ys) a
  Linked-append xs ys a l = record {
    incident = l.incident;
    joined = l.joined;
    tenant = l.tenant;
    stored = append-IsRow l.incident xs ys l.stored;
  }

  both-Placed :
      (g h : ℕ → Bool) (xs ys : List Incident) (a b c : Alert)
      → Placed g xs a b
      → Placed h (xs ++ ys) b c
      → Placed (λ k. g k || h k) (xs ++ ys) a c
  both-Placed g h xs ys a b c p q =
      let id : b.id ≡ a.id = ap (λ x. x.id) p.same in
      record {
        same = q.same ∙ ap (λ (x : Alert). record x { incident_id = c.incident_id }) p.same;
        linked = λ given. elim (Bool-cases (h b.id)) [
          | inl later ↦ q.linked later
          | inr kept ↦
              let first : g a.id ≡ true = ground (arith, given, kept, id) in
              subst (Linked (xs ++ ys)) (sym (q.other kept))
                (Linked-append xs ys b (p.linked first))
        ];
        other = λ absent. q.other (ground (arith, absent, id)) ∙ p.other (ground (arith, absent));
      }

  -- the row is of the tenant and in the table
  abbrev Mine : List Incident → Incident → Type 0
  Mine incidents i = (i.tenant_id ≡ t) × IsRow i incidents

  newest-Mine :
      (incidents : List Incident) (best : Option Incident) (rows : List Incident)
      → HoldsSome (Mine incidents) best
      → All (Mine incidents) rows
      → HoldsSome (Mine incidents) (newest best rows)
  newest-Mine incidents none [] h all = tt
  newest-Mine incidents (some b) [] h all = h
  newest-Mine incidents none (i ∷ rest) h all = newest-Mine incidents (some i) rest all.0 all.1
  newest-Mine incidents (some b) (i ∷ rest) h all =
      elim (Bool-cases (ltb b.created_at i.created_at)) [
        | inl newer ↦ rw newer (newest-Mine incidents (some i) rest all.0 all.1)
        | inr older ↦ rw older (newest-Mine incidents (some b) rest h all.1)
      ]

  candidates-Mine :
      (db : Db) (device : String) (since : ℕ) (rows : List Incident)
      → ((i : Incident) → IsRow i rows → IsRow i db.incidents)
      → All (Mine db.incidents) (keep (is_candidate db t device since) rows)
  candidates-Mine db device since [] h = tt
  candidates-Mine db device since (i ∷ rows) h =
      let rest = candidates-Mine db device since rows (λ j there. h j (inr there)) in
      elim (Bool-cases (is_candidate db t device since i)) [
        | inr other ↦ rw other rest
        | inl picked ↦ rw picked ((tenant_is i picked, h i (inl refl)), rest)
      ]
    where
      tenant_is : (j : Incident) → is_candidate db t device since j ≡ true → j.tenant_id ≡ t
      tenant_is j picked = (==_iff j.tenant_id t).0 (ground (arith, picked))

  open_incident-Mine :
      (db : Db) (device : String) (since : ℕ) (i : Incident)
      → open_incident_for_device db t device since ≡ some i
      → Mine db.incidents i
  unfolding open_incident_for_device
  open_incident-Mine db device since i e = subst (HoldsSome (Mine db.incidents)) e (
      newest-Mine db.incidents none (keep (is_candidate db t device since) db.incidents) tt
        (candidates-Mine db device since db.incidents (λ j there. there)))

  -- What correlation leaves, where the test says which ids are given to it.
  pub record Correlated (given : ℕ → Bool) (before after : Db) : Type 0 where
    pub fresh : List Incident
    pub incidents : after.incidents ≡ before.incidents ++ fresh
    pub alerts : RowByRow (Placed given after.incidents) before.alerts after.alerts

  module _ (py : Python) where
    pub correlate_group-Correlated :
        (db : Db) (c : Counts) (device : String) (group : List Alert)
        → Correlated (has_id group) db (correlate_group py t db c device group).1
    unfolding correlate_group
    correlate_group-Correlated db c device group =
        elim (Option-cases (open_incident_for_device db t device (db.now - correlation_window))) [
          | inl fresh ↦
              rw (correlate_group, fresh)
                (record {
                  fresh = _;
                  incidents = refl;
                  alerts =
                      RowByRow-map _ _ (link-Placed group _ _ refl (last-IsRow _ db.incidents))
                        db.alerts;
                })
          | inr (i, joined) ↦
              let mine = open_incident-Mine db device _ i joined in
              rw (correlate_group, joined)
                (record {
                  fresh = [];
                  incidents = sym (append-nil db.incidents);
                  alerts =
                      RowByRow-map _ _ (link-Placed group i db.incidents mine.0 mine.1) db.alerts;
                })
        ]

    untouched :
        (alerts : List Alert) (incidents : List Incident)
        → RowByRow (Placed (λ k. false) incidents) alerts alerts
    untouched [] incidents = tt
    untouched (a ∷ alerts) incidents =
        (record { same = refl; linked = λ h. cc; other = λ h. refl }, untouched alerts incidents)

    correlate_groups-Correlated :
        (db : Db) (c : Counts) (groups : Assoc (List Alert))
        → Correlated (in_groups groups) db (correlate_groups py t db c groups).1
    unfolding correlate_groups
    correlate_groups-Correlated db c [] = record {
      fresh = [];
      incidents = sym (append-nil db.incidents);
      alerts = untouched db.alerts db.incidents;
    }
    correlate_groups-Correlated db c ((device, group) ∷ rest) =
        let first = correlate_group py t db c device group in
        let one = correlate_group-Correlated db c device group in
        let more = correlate_groups-Correlated first.1 first.0 rest in
        let last = (correlate_groups py t first.1 first.0 rest).1 in
        record {
          fresh = one.fresh ++ more.fresh;
          incidents =
              more.incidents
              ∙ ap (λ xs. xs ++ more.fresh) one.incidents
              ∙ append_assoc db.incidents one.fresh more.fresh;
          alerts =
              subst
                (λ xs.
                  RowByRow (Placed (in_groups ((device, group) ∷ rest)) xs) db.alerts last.alerts)
                (sym more.incidents)
                (RowByRow-trans _ _ _
                  (both-Placed (has_id group) (in_groups rest) first.1.incidents more.fresh)
                  db.alerts first.1.alerts last.alerts one.alerts
                  (subst (λ xs. RowByRow (Placed (in_groups rest) xs) first.1.alerts last.alerts)
                    more.incidents more.alerts));
        }

    pub correlate_new_alerts-Correlated :
        (db : Db) (alerts : List Alert)
        → Correlated (has_id alerts) db (correlate_new_alerts py t db alerts).1
    unfolding correlate_new_alerts
    correlate_new_alerts-Correlated db alerts =
        subst (λ given. Correlated given db (correlate_new_alerts py t db alerts).1)
          (λ i k. in_groups-group_by_device [] alerts k i)
          (correlate_groups-Correlated db (record { incidents_created = 0; incidents_attached = 0 })
            (group_by_device [] alerts))
