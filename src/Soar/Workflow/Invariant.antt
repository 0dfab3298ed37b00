-- ===== src/Soar/Workflow/Invariant.antt =====
-- The invariant of the visits (playbook_parser.py, _detect_cycles): `visited` holds the nodes taken
-- from the queue so far, the last one first.
use Prim.Native.Nat.{◌≤◌, ◌<◌}
use ai_soc.Prelude.{
  ℕ, suc, ◌+◌, ◌-◌, String, ◌≡◌, refl, subst, true, false, List, [], ◌∷◌, ◌++◌, length, arith,
  if◌then◌else◌, str_eq, eq_iff, eq_refl, Bool-cases, inl, inr, ap, sym, ◌∙◌, ◌==◌, ltb, leb, All,
  ◌&&◌,
}
use mathlib.Core.Logic.{◌⊎◌}
use ai_soc.Soar.Workflow.{Edge, Graph, adj, in_degree, Degrees, decrement, release, roots}
use ai_soc.Soar.Workflow.Counting.{count, count-append, count-keep}

-- the edges into a node whose source is not visited yet
unfoldable pub remaining : List Edge → List String → String → ℕ
remaining [] p m = 0
remaining (e ∷ es) p m =
    let n = remaining es p m in
    if str_eq e.target m then (if count e.source p == 0 then suc n else n) else n

-- the edges from `c` into a node
unfoldable pub hits : List Edge → String → String → ℕ
hits [] c m = 0
hits (e ∷ es) c m =
    let n = hits es c m in if str_eq e.source c then (if str_eq e.target m then suc n else n) else n

remaining_nil : (es : List Edge) (m : String) → remaining es [] m ≡ in_degree es m
unfolding remaining in_degree count
remaining_nil [] m = refl
remaining_nil (e ∷ es) m = ground (arith, remaining_nil es m)

remaining_visit :
    (es : List Edge) (c : String) (p : List String) (m : String)
    → count c p ≡ 0
    → remaining es (c ∷ p) m + hits es c m ≡ remaining es p m
unfolding remaining hits count
remaining_visit [] c p m h = refl
remaining_visit (e ∷ es) c p m h = elim (Bool-cases (str_eq e.source c)) [
  | inl same ↦
      let fresh : count e.source p ≡ 0 =
        subst (λ z. count z p ≡ 0) (sym ((eq_iff e.source c).0 same)) h in
      let back : str_eq c e.source ≡ true =
        (eq_iff c e.source).1 (sym ((eq_iff e.source c).0 same)) in
      ground (arith, remaining_visit es c p m h, same, fresh, back)
  | inr other ↦
      let back : str_eq c e.source ≡ false =
        ground (arith, other, eq_iff c e.source, eq_iff e.source c) in
      ground (arith, remaining_visit es c p m h, other, back)
]

-- 1 where `h` decrements take a degree to 0
abbrev pub crossing : ℕ → ℕ → ℕ
crossing d h = if ltb 0 d && leb d h then 1 else 0

release-degree :
    (es : List Edge) (c : String) (deg : Degrees) (queue : List String) (m : String)
    → (release (adj es c) deg queue).0 m ≡ deg m - hits es c m
unfolding release adj hits
release-degree [] c deg queue m = omega arith
release-degree (e ∷ es) c deg queue m = elim (Bool-cases (str_eq e.source c)) [
  | inr other ↦ let ih = release-degree es c deg queue m in rw other ih
  | inl same ↦
      let ih =
        release-degree es c (decrement deg e.target)
          (if deg e.target == 1 then queue ++ e.target ∷ [] else queue) m in
      rw same (ih ∙ ground arith)
]

count_enqueue :
    (deg : Degrees) (n : String) (queue : List String) (m : String)
    → count m (if deg n == 1 then queue ++ n ∷ [] else queue)
      ≡ count m queue + (if str_eq n m then (if deg m == 1 then 1 else 0) else 0)
unfolding count
count_enqueue deg n queue m = elim (Bool-cases (str_eq n m)) [
  | inr other ↦ ground (arith, other, count-append m queue (n ∷ []))
  | inl same ↦
      let e = ap deg ((eq_iff n m).0 same) in ground (arith, same, e, count-append m queue (n ∷ []))
]

release-count :
    (es : List Edge) (c : String) (deg : Degrees) (queue : List String) (m : String)
    → count m (release (adj es c) deg queue).1 ≡ count m queue + crossing (deg m) (hits es c m)
unfolding release adj hits
release-count [] c deg queue m = ground arith
release-count (e ∷ es) c deg queue m = elim (Bool-cases (str_eq e.source c)) [
  | inr other ↦ let ih = release-count es c deg queue m in rw other ih
  | inl same ↦
      let ih =
        release-count es c (decrement deg e.target)
          (if deg e.target == 1 then queue ++ e.target ∷ [] else queue) m in
      let enqueued = count_enqueue deg e.target queue m in rw same (ih ∙ ground (arith, enqueued))
]

not_suc_le : 1 ≤ 0 → ⊥
not_suc_le h = omega (arith, h)

first_visited :
    (x : Edge) (es : List Edge) (p : List String)
    → remaining (x ∷ es) p x.target ≡ 0
    → 1 ≤ count x.source p
unfolding remaining
first_visited x es p h = ground (arith, h, eq_refl x.target)

abbrev pub In : Edge → List Edge → Type 0
In e [] = ⊥
In e (x ∷ es) = (x ≡ e) ⊎ In e es

-- the source of an edge into a node that waits for no edge
remaining-visited :
    (es : List Edge) (p : List String) (e : Edge)
    → In e es
    → remaining es p e.target ≡ 0
    → 1 ≤ count e.source p
unfolding remaining
remaining-visited [] p e i h = elim i [ ]
remaining-visited (x ∷ es) p e (inl here) h =
    subst (λ (y : Edge). 1 ≤ count y.source p) here
      (first_visited x es p (subst (λ (y : Edge). remaining (x ∷ es) p y.target ≡ 0) (sym here) h))
remaining-visited (x ∷ es) p e (inr there) h = remaining-visited es p e there (ground (arith, h))

-- Nodes have distinct names and edges join nodes.
pub record Valid (g : Graph) : Type 0 where
  pub distinct : (m : String) → count m g.nodes ≤ 1
  pub joined :
      All (λ (e : Edge). (1 ≤ count e.source g.nodes) × (1 ≤ count e.target g.nodes)) g.edges

-- the place of a node in the order of the visits
unfoldable pub place : List String → String → ℕ
place [] m = 0
place (x ∷ p) m = let n = place p m in if str_eq x m then suc (length p) else n

place_le : (p : List String) (m : String) → place p m ≤ length p
unfolding place
place_le [] m = omega arith
place_le (x ∷ p) m = ground (arith, place_le p m)

pub record Holds (g : Graph) (visited : List String) (deg : Degrees) (queue : List String)
    : Type 0 where
  pub degree : (m : String) → deg m ≡ remaining g.edges visited m
  pub seen :
      (m : String) → count m queue + count m visited ≡ (if deg m == 0 then count m g.nodes else 0)
  pub ordered :
      (e : Edge)
      → In e g.edges
      → 1 ≤ count e.target visited
      → (1 ≤ count e.source visited) × (place visited e.source < place visited e.target)

hits-node :
    (es : List Edge) (nodes : List String) (c m : String)
    → All (λ (e : Edge). (1 ≤ count e.source nodes) × (1 ≤ count e.target nodes)) es
    → 1 ≤ hits es c m
    → 1 ≤ count m nodes
unfolding hits
hits-node [] nodes c m h k = omega (arith, k)
hits-node (e ∷ es) nodes c m h k = elim (Bool-cases (str_eq e.target m)) [
  | inl same ↦ subst (λ z. 1 ≤ count z nodes) ((eq_iff e.target m).0 same) h.0.1
  | inr other ↦ hits-node es nodes c m h.1 (ground (arith, k, other))
]

module _ (g : Graph) (valid : Valid g) where
  pub roots-Holds : Holds g [] (in_degree g.edges) (roots g)
  unfolding roots count
  roots-Holds = record {
    degree = λ m. sym (remaining_nil g.edges m);
    seen = λ m. let e = count-keep m (λ n. in_degree g.edges n == 0) g.nodes in ground (arith, e);
    ordered = λ e i h. elim (not_suc_le h) [ ];
  }

  module _ (p : List String) (deg : Degrees) (c : String) (queue : List String)
      (holds : Holds g p deg (c ∷ queue)) where
    unvisited : count c p ≡ 0
    unfolding count
    unvisited = ground (arith, holds.seen c, valid.distinct c, eq_refl c)

    visit-seen :
        (m : String)
        → count m (release (adj g.edges c) deg queue).1 + count m (c ∷ p)
          ≡ (if (release (adj g.edges c) deg queue).0 m == 0 then count m g.nodes else 0)
    unfolding count
    visit-seen m = ground (
      arith,
      holds.seen m,
      valid.distinct m,
      release-count g.edges c deg queue m,
      release-degree g.edges c deg queue m,
      hits-node g.edges g.nodes c m valid.joined,
    )

    visit-degree :
        (m : String) → (release (adj g.edges c) deg queue).0 m ≡ remaining g.edges (c ∷ p) m
    visit-degree m = ground (
      arith,
      holds.degree m,
      release-degree g.edges c deg queue m,
      remaining_visit g.edges c p m unvisited,
    )

    visited_other : (m : String) → 1 ≤ count m p → str_eq c m ≡ false
    visited_other m h = elim (Bool-cases (str_eq c m)) [
      | inr other ↦ other
      | inl same ↦
          let e = ap (λ z. count z p) ((eq_iff c m).0 same) in
          elim (not_suc_le (omega (arith, h, e, unvisited))) [ ]
    ]

    now_free : deg c ≡ 0
    unfolding count
    now_free = ground (arith, holds.seen c, eq_refl c)

    visit-ordered :
        (e : Edge)
        → In e g.edges
        → 1 ≤ count e.target (c ∷ p)
        → (1 ≤ count e.source (c ∷ p)) × (place (c ∷ p) e.source < place (c ∷ p) e.target)
    unfolding count place
    visit-ordered e i h = elim (Bool-cases (str_eq c e.target)) [
      | inl now ↦
          let free : remaining g.edges p e.target ≡ 0 =
            subst (λ z. remaining g.edges p z ≡ 0) ((eq_iff c e.target).0 now)
              (sym (holds.degree c) ∙ now_free) in
          let before = remaining-visited g.edges p e i free in
          let other = visited_other e.source before in
          rw (now, other) (before, omega (arith, place_le p e.source))
      | inr earlier ↦
          let before = holds.ordered e i (ground (arith, h, earlier)) in
          let other = visited_other e.source before.0 in rw (earlier, other) before
    ]

    pub visit-Holds :
        Holds g (c ∷ p) (release (adj g.edges c) deg queue).0 (release (adj g.edges c) deg queue).1
    visit-Holds = record { degree = visit-degree; seen = visit-seen; ordered = visit-ordered }
