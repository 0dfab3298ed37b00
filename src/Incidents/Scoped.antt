-- ===== src/Incidents/Scoped.antt =====
-- What a change of an incident can touch (backend/app/api/v1/incidents.py, update_incident and
-- set_verdict).
use Prim.Native.Nat.{◌≤◌}
use ai_soc.Prelude.{
  String, ℕ, ◌≡◌, refl, inl, inr, true, not, ◌&&◌, Option, none, some, List, [], ◌∷◌, ◌==◌, keep,
  map, mem_str, Bool-cases, HoldsSome, arith,
}
use ai_soc.Json.{Fields, get}
use ai_soc.Python.{Python}
use ai_soc.Store.{Incident, IncidentStatus, Severity, low, medium, high, critical, Db}
use ai_soc.Incidents.{
  Answer, success, tenant_or_first, is_visible, find_visible, write_incident, status_of, is_over,
  labels, updated, feedback_of, write_update, update_found, update_incident, with_verdict,
  verdict_found, set_verdict, risk_score,
}

-- all but one incident of a tenant
abbrev pub others_than : ℕ → ℕ → List Incident → List Incident
others_than tenant_id id = keep (λ i. not ((i.id == id) && (i.tenant_id == tenant_id)))

-- what an analyst may not change
abbrev pub fixed_part : Incident → ℕ × ℕ × Severity × ℕ
fixed_part i = (i.id, i.tenant_id, i.severity, i.created_at)

module _ (tenant_id id : ℕ) (f : Incident → Incident)
    (fixes : (i : Incident) → fixed_part (f i) ≡ fixed_part i)
    (stays : (i : Incident) → is_visible tenant_id id (f i) ≡ is_visible tenant_id id i) where
  write_incident-others :
      (incidents : List Incident)
      → others_than tenant_id id (write_incident tenant_id id f incidents)
        ≡ others_than tenant_id id incidents
  unfolding write_incident
  write_incident-others [] = refl
  write_incident-others (i ∷ rest) = ground (arith, stays i, write_incident-others rest)

  write_incident-fixed :
      (incidents : List Incident)
      → map fixed_part (write_incident tenant_id id f incidents) ≡ map fixed_part incidents
  unfolding write_incident
  write_incident-fixed [] = refl
  write_incident-fixed (i ∷ rest) = elim (Bool-cases (is_visible tenant_id id i)) [
    | inl this ↦ rw (this, fixes i, write_incident-fixed rest) refl
    | inr other ↦ rw (other, write_incident-fixed rest) refl
  ]

-- The tables after a change of one incident of a tenant.
pub record Scoped (tenant_id id : ℕ) (db db' : Db) : Type 0 where
  pub others : others_than tenant_id id db'.incidents ≡ others_than tenant_id id db.incidents
  pub fixed : map fixed_part db'.incidents ≡ map fixed_part db.incidents
  pub alerts : db'.alerts ≡ db.alerts

-- What an answer says of the tables: an error leaves them, and so does a tenant without the row.
abbrev pub Told : ℕ → ℕ → Db → Answer → Db → Type 0
Told tenant_id id db (success i) db' = Scoped tenant_id id db db'
Told tenant_id id db refused db' = db' ≡ db

-- A label is recorded only for an incident that is over, and only one of the two.
abbrev pub Labelled : Answer → Option String → Type 0
Labelled (success i) l =
    HoldsSome (λ label. (is_over (i.status) ≡ true) × (mem_str label labels ≡ true)) l
Labelled refused l = l ≡ none

module _ (py : Python) where
  feedback_of-Labelled :
      (i : Incident)
      → HoldsSome
          (λ label. (is_over (i.status) ≡ true) × (mem_str label labels ≡ true))
          (feedback_of py i)
  unfolding feedback_of
  feedback_of-Labelled i =
      elim (Bool-cases (is_over (i.status) && mem_str (py.upper (i.verdict)) labels)) [
        | inl both ↦ rw both (ground (arith, both), ground (arith, both))
        | inr other ↦ rw other tt
      ]

  update_found-Told :
      (tenant_id id : ℕ) (body : Fields) (found : Option Incident) (db : Db)
      → Told tenant_id id db
          (update_found py tenant_id id body found db).0
          (update_found py tenant_id id body found db).2
        × Labelled
            (update_found py tenant_id id body found db).0
            (update_found py tenant_id id body found db).1
  unfolding update_found updated
  update_found-Told tenant_id id body none db = (refl, refl)
  update_found-Told tenant_id id body (some i) db =
      written (status_of py (get "status" body) (i.status))
    where
      written :
          (s : Option IncidentStatus)
          → Told tenant_id id db
              (write_update py tenant_id id body i s db).0
              (write_update py tenant_id id body i s db).2
            × Labelled
                (write_update py tenant_id id body i s db).0
                (write_update py tenant_id id body i s db).1
      written none = (refl, refl)
      written (some status) = (
        record {
          others =
              write_incident-others tenant_id id (updated py body status) (λ j. refl) (λ j. refl)
                db.incidents;
          fixed =
              write_incident-fixed tenant_id id (updated py body status) (λ j. refl) (λ j. refl)
                db.incidents;
          alerts = refl;
        },
        feedback_of-Labelled (updated py body status i),
      )

  verdict_found-Told :
      (tenant_id id : ℕ) (body : Fields) (found : Option Incident) (db : Db)
      → Told tenant_id id db
          (verdict_found py tenant_id id body found db).0
          (verdict_found py tenant_id id body found db).1
  unfolding verdict_found with_verdict
  verdict_found-Told tenant_id id body none db = refl
  verdict_found-Told tenant_id id body (some i) db = record {
    others =
        write_incident-others tenant_id id (with_verdict py body) (λ j. refl) (λ j. refl)
          db.incidents;
    fixed =
        write_incident-fixed tenant_id id (with_verdict py body) (λ j. refl) (λ j. refl)
          db.incidents;
    alerts = refl;
  }

  -- A change or a verdict of an analyst touches at most the one incident of the analyst's tenant
  -- with the id: the other rows, the alerts, and of the row itself its id, tenant, severity and
  -- creation time stay, and an error leaves all tables. A change records a label only of a success
  -- whose incident is then resolved or closed, and only TRUE_POSITIVE or FALSE_POSITIVE.
  pub update_incident-Scoped :
      (tenant : Option ℕ) (id : ℕ) (body : Fields) (db : Db)
      → Told
          (tenant_or_first tenant)
          id
          db
          (update_incident py tenant id body db).0
          (update_incident py tenant id body db).2
        × Labelled (update_incident py tenant id body db).0 (update_incident py tenant id body db).1
        × Told
            (tenant_or_first tenant)
            id
            db
            (set_verdict py tenant id body db).0
            (set_verdict py tenant id body db).1
  unfolding update_incident set_verdict
  update_incident-Scoped tenant id body db =
      let k = tenant_or_first tenant in
      let found = find_visible k id db.incidents in
      let (told, labelled) = update_found-Told k id body found db in
      (told, labelled, verdict_found-Told k id body found db)

-- The risk score never falls with more alerts and stays between 30 and 99.
pub risk_score_grows :
    (severity : Severity) (m n : ℕ)
    → m ≤ n
    → (risk_score severity m ≤ risk_score severity n)
      × (30 ≤ risk_score severity m)
      × (risk_score severity n ≤ 99)
unfolding risk_score
risk_score_grows low m n h = ground (arith, h)
risk_score_grows medium m n h = ground (arith, h)
risk_score_grows high m n h = ground (arith, h)
risk_score_grows critical m n h = ground (arith, h)
