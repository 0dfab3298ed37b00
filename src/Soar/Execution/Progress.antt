-- ===== src/Soar/Execution/Progress.antt =====
-- How far the tasks of a workflow get (dag_executor.py, execute).
use Prim.Native.Nat.{◌≤◌, ◌<◌}
use ai_soc.Prelude.{
  ℕ, zero, suc, String, ◌≡◌, refl, subst, Bool, true, none, List, [], ◌∷◌, ◌++◌, arith, str_eq,
  eq_iff, Bool-cases, inl, inr, ◌⊎◌, All, All-mono,
}
use ai_soc.Soar.Workflow.{Edge, Graph}
use ai_soc.Soar.Workflow.Counting.{count, All_at_count, Within-All}
use ai_soc.Soar.Workflow.Invariant.{Valid}
use ai_soc.Soar.Workflow.Acyclic.{Ranked}
use ai_soc.Soar.Execution.{
  Task, waiting, running, success, failed, Tasks, dependencies, initial, run_node, run_schedule,
  run_rounds, work,
}
use ai_soc.Soar.Execution.Dependencies.{Fits, AllFit, is_done, run_schedule-AllFit, initial-AllFit}
use ai_soc.Soar.Execution.Work.{Stuck, run_schedule-Stuck, workless, done_work, Done, awaited_open}

pub dependencies-All :
    (P : String → String → Type 0) (es : List Edge) (n : String)
    → All (λ (e : Edge). P e.source e.target) es
    → All (λ d. P d n) (dependencies es n)
unfolding dependencies
dependencies-All P [] n h = tt
dependencies-All P (e ∷ es) n h = elim (Bool-cases (str_eq e.target n)) [
  | inl same ↦
      rw same
        (subst (λ z. P e.source z) ((eq_iff e.target n).0 same) h.0, dependencies-All P es n h.1)
  | inr other ↦ rw other (dependencies-All P es n h.1)
]

All_zip : (P Q : Edge → Type 0) (es : List Edge) → All P es → All Q es → All (λ e. P e × Q e) es
All_zip P Q [] h k = tt
All_zip P Q (e ∷ es) h k = ((h.0, k.0), All_zip P Q es h.1 k.1)

eq_or_less : {m n : ℕ} → m ≤ n → (m ≡ n) ⊎ (m < n)
eq_or_less h = omega (arith, h)

-- an element in the middle of a list
pub All_middle :
    (P : String → Type 0) (before : List String) (d : String) (rest : List String)
    → All P (before ++ d ∷ rest)
    → P d
All_middle P [] d rest h = h.0
All_middle P (x ∷ before) d rest h = All_middle P before d rest h.1

module _ (outcome : String → Bool) (g : Graph) (valid : Valid g) (ranked : Ranked g) where
  abbrev pub Later : String → String → Type 0
  Later d n = (ranked.0 d < ranked.0 n) × (1 ≤ count d g.nodes)

  pub dependencies-Later : (n : String) → All (λ d. Later d n) (dependencies g.edges n)
  dependencies-Later n =
      dependencies-All Later g.edges n
        (All_zip _ _ g.edges ranked.1 (All-mono _ _ (λ (e : Edge) h. h.0) g.edges valid.joined))

  done_when :
      (s : Tasks) (m : String) (t : Task)
      → Fits outcome s (dependencies g.edges m) m t
      → run_node outcome s m t ≡ none
      → ((d : String) → Later d m → is_done (s d) ≡ true)
      → is_done t ≡ true
  done_when s m success f e earlier = refl
  done_when s m failed f e earlier = refl
  done_when s m running f e earlier = ground (arith, e)
  done_when s m (waiting []) f e earlier = ground (arith, e)
  done_when s m (waiting (d ∷ rest)) (before, split, _) e earlier =
      let later =
        All_middle (λ x. Later x m) before d rest
          (subst (All (λ x. Later x m)) split (dependencies-Later m)) in
      elim (awaited_open outcome (s d) rest (earlier d later) e) [ ]

  not_below : (n : ℕ) → n < 0 → ⊥
  not_below n h = omega (arith, h)

  -- Where every task is stuck, all have set their events.
  Stuck-Done :
      (s : Tasks)
      → AllFit outcome g s
      → ((m : String) → 1 ≤ count m g.nodes → Stuck outcome s m)
      → (bound : ℕ) (m : String) → ranked.0 m < bound
      → 1 ≤ count m g.nodes
      → is_done (s m) ≡ true
  unfolding AllFit
  Stuck-Done s fits stuck zero m h k = elim (not_below _ h) [ ]
  Stuck-Done s fits stuck (suc bound) m h k =
      done_when s m (s m) (fits m) (stuck m k)
        (λ d later. Stuck-Done s fits stuck bound d (omega (arith, later.0, h)) later.1)

  round-work :
      (k : ℕ) (s : Tasks)
      → AllFit outcome g s
      → work g.nodes s ≤ suc k
      → work g.nodes (run_schedule outcome g.nodes s) ≤ k
  round-work k s fits h =
      let nodes = Within-All g.nodes g.nodes (λ m. omega arith) in
      let round = run_schedule-Stuck outcome g.nodes g.nodes s nodes in
      elim (eq_or_less round.0) [
        | inr less ↦ omega (arith, less, h)
        | inl same ↦
            let stuck = round.1 same in
            let done =
              Stuck-Done s fits (λ m c. All_at_count (Stuck outcome s) g.nodes m stuck c) in
            let none_left =
              done_work outcome g.nodes s
                (All-mono _ _ (λ m c. done (suc (ranked.0 m)) m (omega arith) c) g.nodes nodes) in
            omega (arith, none_left, same)
      ]

  rounds-Done :
      (k : ℕ) (s : Tasks)
      → AllFit outcome g s
      → work g.nodes s ≤ k
      → Done outcome g.nodes (run_rounds outcome g k s)
  unfolding run_rounds
  rounds-Done zero s fits h = workless outcome g.nodes s (omega (arith, h))
  rounds-Done (suc k) s fits h =
      rounds-Done k (run_schedule outcome g.nodes s) (run_schedule-AllFit outcome g g.nodes s fits)
        (round-work k s fits h)

  -- On a valid graph without a cycle, whichever actions raise, the rounds that resume every task
  -- once each bring every node to SUCCESS or FAILED, after as many rounds as there is work at the
  -- start: no task waits for ever.
  pub run_rounds-Done :
      (k : ℕ)
      → work g.nodes (initial g) ≤ k
      → Done outcome g.nodes (run_rounds outcome g k (initial g))
  run_rounds-Done k h = rounds-Done k (initial g) (initial-AllFit outcome g) h
