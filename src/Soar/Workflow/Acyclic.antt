-- ===== src/Soar/Workflow/Acyclic.antt =====
-- The graphs that pass (playbook_parser.py, _detect_cycles and parse).
use Prim.Native.Nat.{◌≤◌, ◌<◌}
use ai_soc.Prelude.{
  ℕ, zero, suc, ◌+◌, String, ◌≡◌, refl, subst, true, false, List, [], ◌∷◌, length, arith,
  if◌then◌else◌, str_eq, eq_iff, eq_refl, Bool-cases, inl, inr, ap, ◌==◌, All, some, ◌⊎◌,
}
use ai_soc.Soar.Workflow.{
  Edge, Graph, adj, in_degree, Degrees, release, visit_all, roots, detect_cycles,
}
use ai_soc.Soar.Workflow.Counting.{count, Within, length-Within, Within-full}
use ai_soc.Soar.Workflow.Invariant.{remaining, Valid, Holds, In, place, roots-Holds, visit-Holds}

-- Numbers that grow along each edge: the graph has no cycle.
abbrev pub Ranked : Graph → Type 0
Ranked g = (rank : String → ℕ) × All (λ (e : Edge). rank e.source < rank e.target) g.edges

All_at : (P : Edge → Type 0) (es : List Edge) (e : Edge) → All P es → In e es → P e
All_at P [] e h i = elim i [ ]
All_at P (x ∷ es) e h (inl here) = subst P here h.0
All_at P (x ∷ es) e h (inr there) = All_at P es e h.1 there

All_from : (P : Edge → Type 0) (es : List Edge) → ((e : Edge) → In e es → P e) → All P es
All_from P [] f = tt
All_from P (x ∷ es) f = (f x (inl refl), All_from P es (λ e i. f e (inr i)))

remaining_free :
    (es : List Edge) (p : List String) (m : String)
    → ((e : Edge) → In e es → e.target ≡ m → 1 ≤ count e.source p)
    → remaining es p m ≡ 0
unfolding remaining
remaining_free [] p m f = refl
remaining_free (e ∷ es) p m f =
    let ih = remaining_free es p m (λ x i. f x (inr i)) in
    elim (Bool-cases (str_eq e.target m)) [
      | inl same ↦
          let before = f e (inl refl) ((eq_iff e.target m).0 same) in ground (arith, ih, before)
      | inr other ↦ ground (arith, ih, other)
    ]

-- What the visits end with.
record Finished (g : Graph) (fuel : ℕ) (deg : Degrees) (queue p : List String) : Type 0 where
  order : List String
  degrees : Degrees
  result : visit_all g.edges fuel deg queue (length p) ≡ some (length order)
  holds : Holds g order degrees []

not_equal : (a b : ℕ) → a ≡ b → (a == b) ≡ false → ⊥
not_equal a b e h = ground (arith, e, h)

none_left :
    (c : String) (queue p nodes : List String) (deg : Degrees)
    → count c (c ∷ queue) + count c p ≡ (if deg c == 0 then count c nodes else 0)
    → count c p ≡ count c nodes
    → ⊥
unfolding count
none_left c queue p nodes deg seen same = ground (arith, seen, same, eq_refl c)

module _ (g : Graph) (valid : Valid g) where
  visited-Within :
      (p : List String) (deg : Degrees) (queue : List String)
      → Holds g p deg queue
      → Within p g.nodes
  visited-Within p deg queue holds m = ground (arith, holds.seen m)

  -- the number of nodes is fuel enough
  visit_all-Finished :
      (fuel : ℕ) (deg : Degrees) (queue p : List String)
      → Holds g p deg queue
      → fuel + length p ≡ length g.nodes
      → Finished g fuel deg queue p
  unfolding visit_all
  visit_all-Finished fuel deg [] p holds e = record {
    order = p;
    degrees = deg;
    result = refl;
    holds = holds;
  }
  visit_all-Finished zero deg (c ∷ queue) p holds e =
      let same =
        Within-full p g.nodes (visited-Within p deg (c ∷ queue) holds) (omega (arith, e)) c in
      elim (none_left c queue p g.nodes deg (holds.seen c) same) [ ]
  visit_all-Finished (suc fuel) deg (c ∷ queue) p holds e =
      let next = release (adj g.edges c) deg queue in
      let rest =
        visit_all-Finished fuel next.0 next.1 (c ∷ p) (visit-Holds g valid p deg c queue holds)
          (omega (arith, e)) in
      record {
        order = rest.order;
        degrees = rest.degrees;
        result = rest.result;
        holds = rest.holds;
      }

  all_visited :
      (q : List String) (deg : Degrees)
      → Holds g q deg []
      → (ranked : Ranked g) (n : ℕ) (m : String) → ranked.0 m < n
      → count m g.nodes ≤ count m q
  unfolding count
  all_visited q deg holds ranked zero m h = omega (arith, h)
  all_visited q deg holds ranked (suc n) m h =
      let free : remaining g.edges q m ≡ 0 = remaining_free g.edges q m (λ e i t.
        let lower =
          All_at (λ (x : Edge). ranked.0 x.source < ranked.0 x.target) g.edges e ranked.1 i in
        let joined =
          All_at (λ (x : Edge). (1 ≤ count x.source g.nodes) × (1 ≤ count x.target g.nodes)) g.edges
            e valid.joined i in
        let ih =
          all_visited q deg holds ranked n e.source (omega (arith, lower, h, ap ranked.0 t)) in
        omega (arith, ih, joined.0)) in
      ground (arith, free, holds.degree m, holds.seen m)

  finished : Finished g (length g.nodes) (in_degree g.edges) (roots g) []
  finished =
      visit_all-Finished (length g.nodes) (in_degree g.edges) (roots g) [] (roots-Holds g valid)
        (omega arith)

  answer : detect_cycles g ≡ some (length finished.order == length g.nodes)
  unfolding detect_cycles
  answer = rw finished.result

  full-Ranked : length finished.order ≡ length g.nodes → Ranked g
  full-Ranked e = (
    place finished.order,
    All_from _ g.edges (λ x i.
        let joined =
          All_at (λ (y : Edge). (1 ≤ count y.source g.nodes) × (1 ≤ count y.target g.nodes)) g.edges
            x valid.joined i in
        let within = visited-Within finished.order finished.degrees [] finished.holds in
        let same = Within-full finished.order g.nodes within e x.target in
        (finished.holds.ordered x i (omega (arith, joined.1, same))).1),
  )

  Ranked-full : Ranked g → length finished.order ≡ length g.nodes
  Ranked-full ranked =
      let within = visited-Within finished.order finished.degrees [] finished.holds in
      let all : Within g.nodes finished.order = λ m.
        all_visited finished.order finished.degrees finished.holds ranked (suc (ranked.0 m)) m
          (omega arith) in
      let le = length-Within finished.order g.nodes within in
      let ge = length-Within g.nodes finished.order all in omega (arith, le, ge)

  -- On a graph whose nodes have distinct names and whose edges join nodes, the check always answers
  -- within as many rounds as there are nodes: yes exactly if the nodes can be numbered so that each
  -- edge leads to a greater number, that is, if the graph has no cycle.
  pub detect_cycles-Ranked :
      ((detect_cycles g ≡ some true) × Ranked g) ⊎ ((detect_cycles g ≡ some false) × ¬ Ranked g)
  detect_cycles-Ranked = elim (Bool-cases (length finished.order == length g.nodes)) [
    | inl full ↦ inl (rw answer (ap some full), full-Ranked (ground (arith, full)))
    | inr short ↦ inr (
      rw answer (ap some short),
      λ ranked. let e = Ranked-full ranked in elim (not_equal _ _ e short) [ ],
    )
  ]
