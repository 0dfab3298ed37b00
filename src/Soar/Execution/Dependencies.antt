-- ===== src/Soar/Execution/Dependencies.antt =====
-- What the tasks know of their dependencies (dag_executor.py, run_node).
use ai_soc.Prelude.{
  String, ◌≡◌, refl, sym, ◌∙◌, ap, subst, Bool, true, false, Option, none, some, List, [], ◌∷◌,
  ◌++◌, arith, str_eq, eq_iff, Bool-cases, inl, inr, ◌⊎◌, All, All-append, All-mono,
}
use mathlib.Core.List.{append_assoc, append-nil}
use ai_soc.Soar.Workflow.{Graph}
use ai_soc.Soar.Execution.{
  Task, waiting, running, success, failed, Tasks, dependencies, initial, awaited, run_node,
  set_task, resume, run_schedule,
}

abbrev pub Succeeded : Tasks → String → Type 0
Succeeded s d = s d ≡ success

-- What a task has seen by the time that it stands where it stands.
abbrev pub Fits : (String → Bool) → Tasks → List String → String → Task → Type 0
Fits outcome s deps n (waiting rest) =
    (before : List String) × (deps ≡ before ++ rest) × All (Succeeded s) before
Fits outcome s deps n running = All (Succeeded s) deps
Fits outcome s deps n success = (outcome n ≡ true) × All (Succeeded s) deps
Fits outcome s deps n failed =
    ((outcome n ≡ false) × All (Succeeded s) deps)
    ⊎ ((before rest : List String) × (d : String) × (deps ≡ before ++ d ∷ rest) × (s d ≡ failed))

unfoldable pub AllFit : (String → Bool) → Graph → Tasks → Type 0
unfolding dependencies
AllFit outcome g s = (n : String) → Fits outcome s (dependencies g.edges n) n (s n)

abbrev pub FitsNext : (String → Bool) → Tasks → List String → String → Option Task → Type 0
FitsNext outcome s deps n none = Unit
FitsNext outcome s deps n (some t) = Fits outcome s deps n t

abbrev pub is_done : Task → Bool
is_done success = true
is_done failed = true
is_done _ = false

module _ (outcome : String → Bool) where
  run_node-done :
      (s : Tasks) (n : String) (t : Task) → is_done t ≡ true → run_node outcome s n t ≡ none
  run_node-done s n success h = refl
  run_node-done s n failed h = refl
  run_node-done s n (waiting ds) h = ground (arith, h)
  run_node-done s n running h = ground (arith, h)

  set_task_other :
      (o : Option Task) (n : String) (s : Tasks) (m : String)
      → str_eq n m ≡ false
      → set_task o n s m ≡ s m
  set_task_other none n s m h = refl
  set_task_other (some t) n s m h = rw h

  -- a task that has set its event stays as it is
  pub resume-done : (s : Tasks) (n m : String) → is_done (s m) ≡ true → resume outcome s n m ≡ s m
  resume-done s n m h = elim (Bool-cases (str_eq n m)) [
    | inr other ↦ set_task_other _ n s m other
    | inl same ↦
        let e = ap s ((eq_iff n m).0 same) in
        let stuck = run_node-done s n (s n) (ap is_done e ∙ h) in ap (λ o. set_task o n s m) stuck
  ]

  resume-success : (s : Tasks) (n m : String) → s m ≡ success → resume outcome s n m ≡ success
  resume-success s n m h = resume-done s n m (ap is_done h) ∙ h

  resume-failed : (s : Tasks) (n m : String) → s m ≡ failed → resume outcome s n m ≡ failed
  resume-failed s n m h = resume-done s n m (ap is_done h) ∙ h

  Fits-resume :
      (s : Tasks) (n : String) (deps : List String) (m : String) (t : Task)
      → Fits outcome s deps m t
      → Fits outcome (resume outcome s n) deps m t
  Fits-resume s n deps m (waiting rest) (before, e, h) =
      (before, e, All-mono (Succeeded s) _ (λ d. resume-success s n d) before h)
  Fits-resume s n deps m running h = All-mono (Succeeded s) _ (λ d. resume-success s n d) deps h
  Fits-resume s n deps m success (r, h) =
      (r, All-mono (Succeeded s) _ (λ d. resume-success s n d) deps h)
  Fits-resume s n deps m failed (inl (r, h)) =
      inl (r, All-mono (Succeeded s) _ (λ d. resume-success s n d) deps h)
  Fits-resume s n deps m failed (inr (before, rest, d, e, h)) =
      inr (before, rest, d, e, resume-failed s n d h)

  awaited-Fits :
      (s : Tasks) (n : String) (before rest : List String) (d : String) (t : Task)
      → s d ≡ t
      → All (Succeeded s) before
      → FitsNext outcome s (before ++ d ∷ rest) n (awaited t rest)
  awaited-Fits s n before rest d success e h = (
    before ++ d ∷ [],
    sym (append_assoc before (d ∷ []) rest),
    All-append (Succeeded s) before (d ∷ []) h (e, tt),
  )
  awaited-Fits s n before rest d failed e h = inr (before, rest, d, refl, e)
  awaited-Fits s n before rest d _ e h = tt

  run_node-Fits :
      (s : Tasks) (deps : List String) (n : String) (t : Task)
      → Fits outcome s deps n t
      → FitsNext outcome s deps n (run_node outcome s n t)
  run_node-Fits s deps n (waiting []) (before, e, h) =
      subst (All (Succeeded s)) (sym (e ∙ append-nil before)) h
  run_node-Fits s deps n (waiting (d ∷ rest)) (before, e, h) =
      subst (λ (ds : List String). FitsNext outcome s ds n (awaited (s d) rest)) (sym e)
        (awaited-Fits s n before rest d (s d) refl h)
  run_node-Fits s deps n running h = elim (Bool-cases (outcome n)) [
    | inl returns ↦ rw returns (returns, h)
    | inr raises ↦ rw raises (inl (raises, h))
  ]
  run_node-Fits s deps n success h = tt
  run_node-Fits s deps n failed h = tt

  module _ (g : Graph) where
    placed :
        (s : Tasks) (n : String) (o : Option Task)
        → AllFit outcome g s
        → FitsNext outcome s (dependencies g.edges n) n o
        → (m : String) → Fits outcome s (dependencies g.edges m) m (set_task o n s m)
    unfolding AllFit
    placed s n none fits h m = fits m
    placed s n (some t) fits h m = elim (Bool-cases (str_eq n m)) [
      | inl same ↦
          rw same (subst (λ z. Fits outcome s (dependencies g.edges z) z t) ((eq_iff n m).0 same) h)
      | inr other ↦ rw other (fits m)
    ]

    resume-AllFit :
        (s : Tasks) (n : String) → AllFit outcome g s → AllFit outcome g (resume outcome s n)
    unfolding AllFit
    resume-AllFit s n fits m = Fits-resume s n (dependencies g.edges m) m (resume outcome s n m) (
        placed s n (run_node outcome s n (s n)) fits
          (run_node-Fits s (dependencies g.edges n) n (s n) (fits n)) m)

    pub run_schedule-AllFit :
        (schedule : List String) (s : Tasks)
        → AllFit outcome g s
        → AllFit outcome g (run_schedule outcome schedule s)
    unfolding run_schedule
    run_schedule-AllFit [] s fits = fits
    run_schedule-AllFit (n ∷ schedule) s fits =
        run_schedule-AllFit schedule (resume outcome s n) (resume-AllFit s n fits)

    pub initial-AllFit : AllFit outcome g (initial g)
    unfolding AllFit initial
    initial-AllFit n = ([], refl, tt)

-- After any schedule each task has seen what its status says: one that runs, or that succeeded, has
-- every dependency in SUCCESS, one that succeeded has an action that returned, and one that failed
-- has an action that raised or a dependency that failed.
pub run_schedule-Fits :
    (outcome : String → Bool) (g : Graph) (schedule : List String) (n : String)
    → Fits outcome
        (run_schedule outcome schedule (initial g))
        (dependencies g.edges n)
        n
        (run_schedule outcome schedule (initial g) n)
unfolding AllFit
run_schedule-Fits outcome g schedule n =
    run_schedule-AllFit outcome g schedule (initial g) (initial-AllFit outcome g) n
