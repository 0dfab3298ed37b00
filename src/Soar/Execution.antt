-- ===== src/Soar/Execution.antt =====
-- intelligence_engine/soar/core/dag_executor.py: one task per node, which waits for its
-- dependencies in turn and then runs its action. A schedule is the order in which the tasks resume.
pub mod Dependencies
pub mod Work
pub mod Progress
pub mod Interleaving
pub mod Outcome
use ai_soc.Prelude.{
  ℕ, zero, suc, ◌+◌, String, Bool, true, false, ◌&&◌, Option, none, some, List, [], ◌∷◌, length,
  if◌then◌else◌, str_eq,
}
use ai_soc.Soar.Workflow.{Edge, Graph}

-- The task of a node: it waits for the listed dependencies, runs its action, or has set its event.
-- The first is the status PENDING, the others are RUNNING, SUCCESS and FAILED.
pub data Task : Type 0 where
  waiting : List String → Task
  running success failed : Task

abbrev pub Tasks : Type 0
Tasks = String → Task

unfoldable pub dependencies : List Edge → String → List String
dependencies [] n = []
dependencies (e ∷ es) n =
    let rest = dependencies es n in if str_eq e.target n then e.source ∷ rest else rest

unfoldable pub initial : Graph → Tasks
unfolding dependencies
initial g = λ n. waiting (dependencies g.edges n)

-- after `completion_events[dep].wait()`, once the event is set
abbrev pub awaited : Task → List String → Option Task
awaited success rest = some (waiting rest)
awaited failed rest = some failed
awaited _ rest = none

-- What the task of a node does next, where it can go on. The outcome says whether an action, its
-- inputs included, returns or raises.
abbrev pub run_node : (String → Bool) → Tasks → String → Task → Option Task
run_node outcome s n (waiting []) = some running
run_node outcome s n (waiting (dep ∷ rest)) = awaited (s dep) rest
run_node outcome s n running = some (if outcome n then success else failed)
run_node outcome s n _ = none

abbrev pub set_task : Option Task → String → Tasks → Tasks
set_task none n s = s
set_task (some t) n s = λ m. if str_eq n m then t else s m

abbrev pub resume : (String → Bool) → Tasks → String → Tasks
resume outcome s n = set_task (run_node outcome s n (s n)) n s

unfoldable pub run_schedule : (String → Bool) → List String → Tasks → Tasks
run_schedule outcome [] s = s
run_schedule outcome (n ∷ schedule) s = run_schedule outcome schedule (resume outcome s n)

-- every task resumed once per round
unfoldable pub run_rounds : (String → Bool) → Graph → ℕ → Tasks → Tasks
unfolding run_schedule
run_rounds outcome g zero s = s
run_rounds outcome g (suc n) s = run_rounds outcome g n (run_schedule outcome g.nodes s)

abbrev pub is_success : Task → Bool
is_success success = true
is_success _ = false

-- `all(s == "SUCCESS" for s in self.node_status.values())`
abbrev pub all_succeeded : List String → Tasks → Bool
all_succeeded [] s = true
all_succeeded (n ∷ ns) s = is_success (s n) && all_succeeded ns s

abbrev pub overall_status : Graph → Tasks → String
overall_status g s = if all_succeeded g.nodes s then "SUCCESS" else "FAILED"

abbrev pub weight : Task → ℕ
weight (waiting deps) = suc (suc (length deps))
weight running = 1
weight _ = 0

-- how often the tasks can still go on
abbrev pub work : List String → Tasks → ℕ
work [] s = 0
work (n ∷ ns) s = weight (s n) + work ns s
