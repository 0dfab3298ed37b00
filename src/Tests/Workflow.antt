-- ===== src/Tests/Workflow.antt =====
-- A workflow of two nodes, parsed and run.
use Prim.Native.Nat.{◌≤◌, ◌<◌}
use ai_soc.Prelude.{
  String, ◌≡◌, refl, subst, inl, inr, Bool-cases, ◌⊎◌, Bool, true, false, none, some, List, [], ◌∷◌,
  arith, str_eq, eq_iff, if◌then◌else◌, All, all_of,
}
use ai_soc.Json.{Value, text, obj, arr, nil, cons, end, field}
use ai_soc.Soar.Workflow.{Graph, validate_structure, parse}
use ai_soc.Soar.Workflow.Counting.{count}
use ai_soc.Soar.Workflow.Invariant.{Valid}
use ai_soc.Soar.Workflow.Acyclic.{Ranked}
use ai_soc.Soar.Workflow.Structure.{Joins, parse-Ranked}
use ai_soc.Soar.Execution.{initial, dependencies, run_schedule, run_rounds, overall_status, work}
use ai_soc.Soar.Execution.Dependencies.{Fits, is_done, run_schedule-Fits}
use ai_soc.Soar.Execution.Work.{Done}
use ai_soc.Soar.Execution.Progress.{run_rounds-Done}
use ai_soc.Soar.Execution.Interleaving.{run_schedule_agrees}
use ai_soc.Soar.Execution.Outcome.{overall_status-outcome}

abbrev arrow : String → String → Value
arrow a b = obj (field "from" (text a) (field "to" (text b) end))

abbrev document : Value
document = obj (
    field "nodes" (obj (field "enrich" (obj end) (field "isolate" (obj end) end)))
      (field "edges" (arr (cons (arrow "enrich" "isolate") nil)) end))

abbrev graph : Graph
graph = record {
  nodes = "enrich" ∷ "isolate" ∷ [];
  edges = record { source = "enrich"; target = "isolate" } ∷ [];
}

document-graph : validate_structure document ≡ some graph
unfolding validate_structure
document-graph = refl

names_distinct : (m : String) → count m graph.nodes ≤ 1
unfolding count
names_distinct m = elim (Bool-cases (str_eq "enrich" m)) [
  | inl same ↦
      let other = subst (λ z. str_eq "isolate" z ≡ false) ((eq_iff "enrich" m).0 same) refl in
      rw (same, other) (omega arith)
  | inr other ↦ elim (Bool-cases (str_eq "isolate" m)) [
    | inl same ↦ rw (other, same) (omega arith)
    | inr neither ↦ rw (other, neither) (omega arith)
  ]
]

parse-Ranked_example :
    All (Joins graph.nodes) graph.edges
    × (((parse document ≡ some graph) × Ranked graph) ⊎ ((parse document ≡ none) × ¬ Ranked graph))
parse-Ranked_example = parse-Ranked document graph document-graph names_distinct

graph-Valid : Valid graph
unfolding count
graph-Valid = record { distinct = names_distinct; joined = ((omega arith, omega arith), tt) }

abbrev graph_ranked : Ranked graph
graph_ranked = (λ m. if str_eq m "isolate" then 1 else 0, (first_lower, tt))
  where
    first_lower : 0 < 1
    first_lower = omega arith

abbrev all_return : String → Bool
all_return n = true

abbrev schedule : List String
schedule = "isolate" ∷ "enrich" ∷ "enrich" ∷ "isolate" ∷ []

run_schedule-Fits_example :
    Fits all_return
      (run_schedule all_return schedule (initial graph))
      (dependencies graph.edges "isolate")
      "isolate"
      (run_schedule all_return schedule (initial graph) "isolate")
run_schedule-Fits_example = run_schedule-Fits all_return graph schedule "isolate"

work-initial : work graph.nodes (initial graph) ≤ 5
unfolding initial dependencies
work-initial = omega arith

run_rounds-Done_example :
    Done all_return graph.nodes (run_rounds all_return graph 5 (initial graph))
run_rounds-Done_example = run_rounds-Done all_return graph graph-Valid graph_ranked 5 work-initial

abbrev other_schedule : List String
other_schedule = "enrich" ∷ "enrich" ∷ "isolate" ∷ []

enrich_done : is_done (run_schedule all_return schedule (initial graph) "enrich") ≡ true
unfolding run_schedule initial dependencies
enrich_done = refl

enrich_done_too : is_done (run_schedule all_return other_schedule (initial graph) "enrich") ≡ true
unfolding run_schedule initial dependencies
enrich_done_too = refl

run_schedule_agrees_example :
    run_schedule all_return schedule (initial graph) "enrich"
    ≡ run_schedule all_return other_schedule (initial graph) "enrich"
run_schedule_agrees_example =
    run_schedule_agrees all_return graph graph_ranked schedule other_schedule "enrich" enrich_done
      enrich_done_too

overall_status-outcome_example :
    overall_status graph (run_rounds all_return graph 5 (initial graph))
    ≡ (if all_of all_return graph.nodes then "SUCCESS" else "FAILED")
overall_status-outcome_example =
    overall_status-outcome all_return graph graph-Valid graph_ranked 5 work-initial
