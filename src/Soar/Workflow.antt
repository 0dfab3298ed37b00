-- ===== src/Soar/Workflow.antt =====
-- intelligence_engine/soar/core/playbook_parser.py: the checks that a playbook passes before it
-- runs. A decoded document is a value; `none` stands for an exception.
pub mod Counting
pub mod Invariant
pub mod Acyclic
pub mod Structure
use ai_soc.Prelude.{
  ℕ, zero, suc, ◌-◌, String, Bool, true, false, not, ◌&&◌, Option, none, some, List, [], ◌∷◌, ◌++◌,
  ◌==◌, length, keep, if◌then◌else◌, str_eq,
}
use ai_soc.Json.{Value, text, arr, obj, nil, Fields, end, field, get, has, items_of}

pub record Edge : Type 0 where
  pub source : String
  pub target : String

pub record Graph : Type 0 where
  pub nodes : List String
  pub edges : List Edge

abbrev pub keys_of : Fields → List String
keys_of end = []
keys_of (field k v fs) = k ∷ keys_of fs

-- `edge["from"] in nodes`; nothing but a text can be a key
abbrev pub node_of : Fields → Value → Option String
node_of nodes (text s) = if has s nodes then some s else none
node_of nodes _ = none

abbrev pub edge_of : Option String → Option String → Option Edge
edge_of (some a) (some b) = some (record { source = a; target = b })
edge_of _ _ = none

abbrev pub validate_edge : Fields → Value → Option Edge
validate_edge nodes (obj e) =
    if has "from" e && has "to" e
    then edge_of (node_of nodes (get "from" e)) (node_of nodes (get "to" e))
    else none
validate_edge nodes _ = none

abbrev pub add_edge : Option Edge → Option (List Edge) → Option (List Edge)
add_edge (some e) (some es) = some (e ∷ es)
add_edge _ _ = none

abbrev pub validate_edges : Fields → List Value → Option (List Edge)
validate_edges nodes [] = some []
validate_edges nodes (v ∷ vs) = add_edge (validate_edge nodes v) (validate_edges nodes vs)

abbrev pub graph_of : Fields → Option (List Edge) → Option Graph
graph_of nodes none = none
graph_of nodes (some es) = some (record { nodes = keys_of nodes; edges = es })

abbrev pub validate_lists : Value → Value → Option Graph
validate_lists (obj nodes) (arr edges) = graph_of nodes (validate_edges nodes (items_of edges))
validate_lists _ _ = none

unfoldable pub validate_structure : Value → Option Graph
validate_structure (obj playbook) =
    if not (has "nodes" playbook)
    then none
    else validate_lists (get "nodes" playbook)
        (if has "edges" playbook then get "edges" playbook else arr nil)
validate_structure _ = none

-- `adj[node]` and `in_degree[node]` after the loop over the edges
unfoldable pub adj : List Edge → String → List String
adj [] n = []
adj (e ∷ es) n = let rest = adj es n in if str_eq e.source n then e.target ∷ rest else rest

unfoldable pub in_degree : List Edge → String → ℕ
in_degree [] n = 0
in_degree (e ∷ es) n = let d = in_degree es n in if str_eq e.target n then suc d else d

abbrev pub Degrees : Type 0
Degrees = String → ℕ

abbrev pub decrement : Degrees → String → Degrees
decrement deg n = λ m. if str_eq n m then deg m - 1 else deg m

-- The loop over the neighbours. A degree is tested before it is decremented: where the source's
-- goes below 0, it is never 0 again, and neither is ours ever 1 again.
unfoldable pub release : List String → Degrees → List String → Degrees × List String
release [] deg queue = (deg, queue)
release (n ∷ ns) deg queue =
    release ns (decrement deg n) (if deg n == 1 then queue ++ n ∷ [] else queue)

-- `while queue`: at most `fuel` rounds, and `none` if that is too few
unfoldable pub visit_all : List Edge → ℕ → Degrees → List String → ℕ → Option ℕ
visit_all es fuel deg [] visited = some visited
visit_all es zero deg (c ∷ queue) visited = none
visit_all es (suc fuel) deg (c ∷ queue) visited =
    let (deg', queue') = release (adj es c) deg queue in visit_all es fuel deg' queue' (suc visited)

abbrev pub roots : Graph → List String
unfolding in_degree
roots g = keep (λ n. in_degree g.edges n == 0) g.nodes

abbrev pub visits : ℕ → Option ℕ → Option Bool
visits n none = none
visits n (some visited) = some (visited == n)

-- whether the graph passes, with as many rounds as it has nodes
unfoldable pub detect_cycles : Graph → Option Bool
unfolding visit_all
detect_cycles g =
    visits (length g.nodes) (visit_all g.edges (length g.nodes) (in_degree g.edges) (roots g) 0)

abbrev pub when_passed : Graph → Option Bool → Option Graph
when_passed g (some true) = some g
when_passed g _ = none

unfoldable pub check_graph : Option Graph → Option Graph
unfolding detect_cycles
check_graph none = none
check_graph (some g) = when_passed g (detect_cycles g)

-- `parse`, after the document is decoded
unfoldable pub parse : Value → Option Graph
unfolding validate_structure check_graph
parse v = check_graph (validate_structure v)
