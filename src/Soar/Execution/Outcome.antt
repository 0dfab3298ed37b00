-- ===== src/Soar/Execution/Outcome.antt =====
-- The overall status of a workflow (dag_executor.py, execute).
use Prim.Native.Nat.{◌≤◌, ◌<◌}
use ai_soc.Prelude.{
  ℕ, zero, suc, String, ◌≡◌, refl, sym, ◌∙◌, subst, Bool, true, false, List, [], ◌∷◌, arith,
  if◌then◌else◌, Bool-cases, inl, inr, All, All-mono, all_of,
}
use ai_soc.Soar.Workflow.{Graph}
use ai_soc.Soar.Workflow.Counting.{count, All_at_count, Within-All}
use ai_soc.Soar.Workflow.Invariant.{Valid}
use ai_soc.Soar.Workflow.Acyclic.{Ranked}
use ai_soc.Soar.Execution.{
  Task, waiting, running, success, failed, Tasks, dependencies, initial, run_schedule, run_rounds,
  is_success, all_succeeded, overall_status, work,
}
use ai_soc.Soar.Execution.Dependencies.{Fits, AllFit, is_done, run_schedule-AllFit, initial-AllFit}
use ai_soc.Soar.Execution.Work.{Done}
use ai_soc.Soar.Execution.Progress.{All_middle, Later, dependencies-Later, run_rounds-Done}

not_both : (b : Bool) → b ≡ true → b ≡ false → ⊥
not_both b h k = ground (arith, h, k)

successful : (t : Task) → is_success t ≡ true → t ≡ success
successful success h = refl
successful (waiting ds) h = ground (arith, h)
successful running h = ground (arith, h)
successful failed h = ground (arith, h)

successes : (ns : List String) (s : Tasks) → All (λ m. s m ≡ success) ns → all_succeeded ns s ≡ true
successes [] s h = refl
successes (n ∷ ns) s h = rw (h.0, successes ns s h.1)

all_of-All : (f : String → Bool) (ns : List String) → all_of f ns ≡ true → All (λ m. f m ≡ true) ns
all_of-All f [] h = tt
all_of-All f (n ∷ ns) h = (ground (arith, h), all_of-All f ns (ground (arith, h)))

module _ (outcome : String → Bool) (g : Graph) where
  returned :
      (s : Tasks) (n : String) (t : Task)
      → Fits outcome s (dependencies g.edges n) n t
      → is_success t ≡ true
      → outcome n ≡ true
  returned s n success f h = f.0
  returned s n (waiting ds) f h = ground (arith, h)
  returned s n running f h = ground (arith, h)
  returned s n failed f h = ground (arith, h)

  all_returned :
      (ns : List String) (s : Tasks)
      → AllFit outcome g s
      → all_succeeded ns s ≡ true
      → all_of outcome ns ≡ true
  unfolding AllFit
  all_returned [] s fits h = refl
  all_returned (n ∷ ns) s fits h =
      let first = returned s n (s n) (fits n) (ground (arith, h)) in
      let rest = all_returned ns s fits (ground (arith, h)) in rw (first, rest)

  run_rounds-AllFit :
      (k : ℕ) (s : Tasks) → AllFit outcome g s → AllFit outcome g (run_rounds outcome g k s)
  unfolding run_rounds
  run_rounds-AllFit zero s fits = fits
  run_rounds-AllFit (suc k) s fits =
      run_rounds-AllFit k (run_schedule outcome g.nodes s)
        (run_schedule-AllFit outcome g g.nodes s fits)

  module _ (valid : Valid g) (ranked : Ranked g) where
    succeeds_when :
        (s : Tasks) (m : String) (t : Task)
        → Fits outcome s (dependencies g.edges m) m t
        → outcome m ≡ true
        → is_done t ≡ true
        → ((d : String) → Later outcome g valid ranked d m → s d ≡ success)
        → t ≡ success
    succeeds_when s m success f r d earlier = refl
    succeeds_when s m (waiting ds) f r d earlier = ground (arith, d)
    succeeds_when s m running f r d earlier = ground (arith, d)
    succeeds_when s m failed (inl (raised, _)) r d earlier =
        elim (not_both (outcome m) r raised) [ ]
    succeeds_when s m failed (inr (before, rest, x, split, fails)) r d earlier =
        let later =
          All_middle (λ y. Later outcome g valid ranked y m) before x rest
            (subst (All (λ y. Later outcome g valid ranked y m)) split
              (dependencies-Later outcome g valid ranked m)) in
        sym fails ∙ earlier x later

    not_below : (n : ℕ) → n < 0 → ⊥
    not_below n h = omega (arith, h)

    all_succeed :
        (s : Tasks)
        → AllFit outcome g s
        → Done outcome g.nodes s
        → All (λ m. outcome m ≡ true) g.nodes
        → (bound : ℕ) (m : String) → ranked.0 m < bound
        → 1 ≤ count m g.nodes
        → s m ≡ success
    unfolding AllFit
    all_succeed s fits done returns zero m h k = elim (not_below _ h) [ ]
    all_succeed s fits done returns (suc bound) m h k =
        succeeds_when s m (s m) (fits m) (All_at_count _ g.nodes m returns k) (done m k)
          (λ d later. all_succeed s fits done returns bound d (omega (arith, later.0, h)) later.1)

    all_succeeded-outcome :
        (s : Tasks)
        → AllFit outcome g s
        → Done outcome g.nodes s
        → all_succeeded g.nodes s ≡ all_of outcome g.nodes
    all_succeeded-outcome s fits done = elim (Bool-cases (all_of outcome g.nodes)) [
      | inl all ↦
          let returns = all_of-All outcome g.nodes all in
          let each =
            All-mono _ _
              (λ m c. all_succeed s fits done returns (suc (ranked.0 m)) m (omega arith) c) g.nodes
              (Within-All g.nodes g.nodes (λ m. omega arith)) in
          successes g.nodes s each ∙ sym all
      | inr some_raise ↦ elim (Bool-cases (all_succeeded g.nodes s)) [
        | inr short ↦ short ∙ sym some_raise
        | inl full ↦ elim (not_both _ (all_returned g.nodes s fits full) some_raise) [ ]
      ]
    ]

    -- On a valid graph without a cycle, and where it does not depend on the order whether an action
    -- raises, the overall status, after as many rounds as there is work at the start, is SUCCESS if
    -- the action of every node returns and FAILED if that of one raises.
    pub overall_status-outcome :
        (k : ℕ)
        → work g.nodes (initial g) ≤ k
        → overall_status g (run_rounds outcome g k (initial g))
          ≡ (if all_of outcome g.nodes then "SUCCESS" else "FAILED")
    overall_status-outcome k h =
        let s = run_rounds outcome g k (initial g) in
        let fits = run_rounds-AllFit k (initial g) (initial-AllFit outcome g) in
        let done = run_rounds-Done outcome g valid ranked k h in
        rw (all_succeeded-outcome s fits done)
