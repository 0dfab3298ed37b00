-- ===== src/Soar/Execution/Interleaving.antt =====
-- How the schedules of a workflow compare (dag_executor.py, execute).
use Prim.Native.Nat.{◌<◌}
use ai_soc.Prelude.{
  ℕ, zero, suc, String, ◌≡◌, refl, sym, ◌∙◌, ap, subst, Bool, true, false, List, arith, inl, inr,
  All,
}
use ai_soc.Soar.Workflow.{Graph}
use ai_soc.Soar.Workflow.Acyclic.{Ranked}
use ai_soc.Soar.Execution.{
  Task, waiting, running, success, failed, Tasks, dependencies, initial, run_schedule,
}
use ai_soc.Soar.Execution.Dependencies.{
  Fits, AllFit, Succeeded, is_done, run_schedule-AllFit, initial-AllFit,
}
use ai_soc.Soar.Execution.Progress.{dependencies-All, All_middle}

no_failure : success ≡ failed → ⊥
no_failure h = ground (arith, h)

clash : (b : Bool) → b ≡ true → b ≡ false → ⊥
clash b h k = ground (arith, h, k)

module _ (outcome : String → Bool) (g : Graph) (ranked : Ranked g) where
  abbrev Before : String → String → Type 0
  Before d n = ranked.0 d < ranked.0 n

  -- Statuses agree below a rank.
  abbrev AgreeBelow : Tasks → Tasks → String → Type 0
  AgreeBelow s s' m =
      (d : String) → Before d m → is_done (s d) ≡ true → is_done (s' d) ≡ true → s d ≡ s' d

  -- One run cannot have a node succeed where the other has it fail.
  no_clash :
      (s s' : Tasks) (m : String)
      → AgreeBelow s s' m
      → Fits outcome s (dependencies g.edges m) m success
      → Fits outcome s' (dependencies g.edges m) m failed
      → ⊥
  no_clash s s' m below (returned, all) (inl (raised, _)) = clash (outcome m) returned raised
  no_clash s s' m below (returned, all) (inr (before, rest, d, split, fails)) =
      let first =
        All_middle (λ x. Before x m) before d rest
          (subst (All (λ x. Before x m)) split (dependencies-All Before g.edges m ranked.1)) in
      let won = All_middle (Succeeded s) before d rest (subst (All (Succeeded s)) split all) in
      no_failure (sym won ∙ below d first (ap is_done won) (ap is_done fails) ∙ fails)

  same_status :
      (s s' : Tasks) (m : String) (t t' : Task)
      → AgreeBelow s s' m
      → AgreeBelow s' s m
      → Fits outcome s (dependencies g.edges m) m t
      → Fits outcome s' (dependencies g.edges m) m t'
      → is_done t ≡ true
      → is_done t' ≡ true
      → t ≡ t'
  same_status s s' m success success below above f f' d d' = refl
  same_status s s' m failed failed below above f f' d d' = refl
  same_status s s' m success failed below above f f' d d' = elim (no_clash s s' m below f f') [ ]
  same_status s s' m failed success below above f f' d d' = elim (no_clash s' s m above f' f) [ ]
  same_status s s' m (waiting ds) t' below above f f' d d' = ground (arith, d)
  same_status s s' m running t' below above f f' d d' = ground (arith, d)
  same_status s s' m t (waiting ds) below above f f' d d' = ground (arith, d')
  same_status s s' m t running below above f f' d d' = ground (arith, d')

  not_below : (n : ℕ) → n < 0 → ⊥
  not_below n h = omega (arith, h)

  agree :
      (bound : ℕ) (s s' : Tasks) (m : String)
      → AllFit outcome g s
      → AllFit outcome g s'
      → ranked.0 m < bound
      → is_done (s m) ≡ true
      → is_done (s' m) ≡ true
      → s m ≡ s' m
  unfolding AllFit
  agree zero s s' m fits fits' h d d' = elim (not_below _ h) [ ]
  agree (suc bound) s s' m fits fits' h d d' =
      same_status s s' m (s m) (s' m)
        (λ x first. agree bound s s' x fits fits' (omega (arith, first, h)))
        (λ x first. agree bound s' s x fits' fits (omega (arith, first, h))) (fits m) (fits' m) d d'

  -- On a graph without a cycle, and where it does not depend on the order whether an action raises,
  -- a node that is finished after each of two schedules, however they interleave the tasks, has the
  -- same status after both.
  pub run_schedule_agrees :
      (a b : List String) (m : String)
      → is_done (run_schedule outcome a (initial g) m) ≡ true
      → is_done (run_schedule outcome b (initial g) m) ≡ true
      → run_schedule outcome a (initial g) m ≡ run_schedule outcome b (initial g) m
  run_schedule_agrees a b m =
      let start = initial-AllFit outcome g in
      agree (suc (ranked.0 m)) _ _ m (run_schedule-AllFit outcome g a (initial g) start)
        (run_schedule-AllFit outcome g b (initial g) start) (omega arith)
