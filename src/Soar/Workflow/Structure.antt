-- ===== src/Soar/Workflow/Structure.antt =====
-- Which documents parse (playbook_parser.py, _validate_structure and parse).
use Prim.Native.Nat.{◌≤◌}
use ai_soc.Prelude.{
  HoldsSome, String, ◌≡◌, subst, true, not, ◌&&◌, Option, none, some, List, [], ◌∷◌, arith,
  Bool-cases, inl, inr, ◌⊎◌, All,
}
use ai_soc.Json.{Value, text, arr, obj, Fields, end, field, get, has, items_of}
use ai_soc.Soar.Workflow.{
  Edge, Graph, keys_of, node_of, edge_of, validate_edge, add_edge, validate_edges, graph_of,
  validate_lists, validate_structure, check_graph, parse,
}
use ai_soc.Soar.Workflow.Counting.{count}
use ai_soc.Soar.Workflow.Invariant.{Valid}
use ai_soc.Soar.Workflow.Acyclic.{Ranked, detect_cycles-Ranked}

abbrev pub Joins : List String → Edge → Type 0
Joins nodes e = (1 ≤ count e.source nodes) × (1 ≤ count e.target nodes)

key_counted : (s : String) (fs : Fields) → has s fs ≡ true → 1 ≤ count s (keys_of fs)
unfolding count
key_counted s end h = ground (arith, h)
key_counted s (field k v fs) h = ground (arith, h, key_counted s fs)

node_counted :
    (nodes : Fields) (v : Value) → HoldsSome (λ s. 1 ≤ count s (keys_of nodes)) (node_of nodes v)
node_counted nodes (text s) = elim (Bool-cases (has s nodes)) [
  | inl known ↦ rw known (key_counted s nodes known)
  | inr unknown ↦ rw unknown tt
]
node_counted nodes _ = tt

edge-Joins :
    (nodes : List String) (a b : Option String)
    → HoldsSome (λ s. 1 ≤ count s nodes) a
    → HoldsSome (λ s. 1 ≤ count s nodes) b
    → HoldsSome (Joins nodes) (edge_of a b)
edge-Joins nodes none b ha hb = tt
edge-Joins nodes (some a) none ha hb = tt
edge-Joins nodes (some a) (some b) ha hb = (ha, hb)

validate_edge-Joins :
    (nodes : Fields) (v : Value) → HoldsSome (Joins (keys_of nodes)) (validate_edge nodes v)
validate_edge-Joins nodes (obj e) = elim (Bool-cases (has "from" e && has "to" e)) [
  | inl given ↦ rw given (
      edge-Joins (keys_of nodes) (node_of nodes (get "from" e)) (node_of nodes (get "to" e))
        (node_counted nodes _) (node_counted nodes _))
  | inr missing ↦ rw missing tt
]
validate_edge-Joins nodes _ = tt

add_edge-Joins :
    (nodes : List String) (o : Option Edge) (os : Option (List Edge))
    → HoldsSome (Joins nodes) o
    → HoldsSome (All (Joins nodes)) os
    → HoldsSome (All (Joins nodes)) (add_edge o os)
add_edge-Joins nodes none os h hs = tt
add_edge-Joins nodes (some e) none h hs = tt
add_edge-Joins nodes (some e) (some es) h hs = (h, hs)

validate_edges-Joins :
    (nodes : Fields) (vs : List Value)
    → HoldsSome (All (Joins (keys_of nodes))) (validate_edges nodes vs)
validate_edges-Joins nodes [] = tt
validate_edges-Joins nodes (v ∷ vs) =
    add_edge-Joins (keys_of nodes) _ _ (validate_edge-Joins nodes v) (validate_edges-Joins nodes vs)

abbrev Joined : Graph → Type 0
Joined g = All (Joins g.nodes) g.edges

graph_of-Joined :
    (nodes : Fields) (o : Option (List Edge))
    → HoldsSome (All (Joins (keys_of nodes))) o
    → HoldsSome Joined (graph_of nodes o)
graph_of-Joined nodes none h = tt
graph_of-Joined nodes (some es) h = h

validate_lists-Joined : (v w : Value) → HoldsSome Joined (validate_lists v w)
validate_lists-Joined (obj nodes) (arr edges) =
    graph_of-Joined nodes (validate_edges nodes (items_of edges))
      (validate_edges-Joins nodes (items_of edges))
validate_lists-Joined _ _ = tt

validate_structure-Joined : (v : Value) → HoldsSome Joined (validate_structure v)
unfolding validate_structure
validate_structure-Joined (obj p) = elim (Bool-cases (not (has "nodes" p))) [
  | inl missing ↦ rw missing tt
  | inr there ↦ rw there (validate_lists-Joined (get "nodes" p) _)
]
validate_structure-Joined _ = tt

check-Ranked :
    (g : Graph) (valid : Valid g)
    → ((check_graph (some g) ≡ some g) × Ranked g) ⊎ ((check_graph (some g) ≡ none) × ¬ Ranked g)
unfolding check_graph
check-Ranked g valid = elim (detect_cycles-Ranked g valid) [
  | inl (passes, ranked) ↦ inl (rw passes, ranked)
  | inr (fails, cyclic) ↦ inr (rw fails, cyclic)
]

-- A document whose structure is sound, with nodes of distinct names, parses exactly if its nodes can
-- be numbered so that each edge leads to a greater number; otherwise parsing raises. Its edges join
-- nodes that it lists.
pub parse-Ranked :
    (v : Value) (g : Graph)
    → validate_structure v ≡ some g
    → ((m : String) → count m g.nodes ≤ 1)
    → All (Joins g.nodes) g.edges
      × (((parse v ≡ some g) × Ranked g) ⊎ ((parse v ≡ none) × ¬ Ranked g))
unfolding parse
parse-Ranked v g structure distinct =
    let joined : Joined g = subst (HoldsSome Joined) structure (validate_structure-Joined v) in
    (joined, rw structure (check-Ranked g (record { distinct = distinct; joined = joined })))
