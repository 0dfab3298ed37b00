-- ===== src/Soar/Execution/Work.antt =====
-- How much the tasks have left to do (dag_executor.py, run_node).
use Prim.Native.Nat.{◌≤◌, ◌<◌}
use ai_soc.Prelude.{
  ℕ, ◌+◌, String, ◌≡◌, refl, ap, subst, Bool, true, false, Option, none, some, List, [], ◌∷◌, arith,
  str_eq, eq_iff, Bool-cases, Option-cases, inl, inr, All,
}
use ai_soc.Soar.Workflow.Counting.{count}
use ai_soc.Soar.Execution.{
  Task, waiting, running, success, failed, Tasks, awaited, run_node, set_task, run_schedule, weight,
  work,
}
use ai_soc.Soar.Execution.Dependencies.{is_done}

module _ (outcome : String → Bool) where
  abbrev pub Stuck : Tasks → String → Type 0
  Stuck s n = run_node outcome s n (s n) ≡ none

  NextLess : Task → Option Task → Type 0
  NextLess t none = Unit
  NextLess t (some next) = weight next < weight t

  awaited-NextLess :
      (d : String) (rest : List String) (t : Task) → NextLess (waiting (d ∷ rest)) (awaited t rest)
  unfolding NextLess
  awaited-NextLess d rest success = omega arith
  awaited-NextLess d rest failed = omega arith
  awaited-NextLess d rest _ = tt

  run_node-NextLess : (s : Tasks) (n : String) (t : Task) → NextLess t (run_node outcome s n t)
  unfolding NextLess
  run_node-NextLess s n (waiting []) = omega arith
  run_node-NextLess s n (waiting (d ∷ rest)) = awaited-NextLess d rest (s d)
  run_node-NextLess s n running = ground arith
  run_node-NextLess s n _ = tt

  work-set_task :
      (ns : List String) (s : Tasks) (n : String) (t : Task)
      → weight t < weight (s n)
      → work ns (set_task (some t) n s) + count n ns ≤ work ns s
  unfolding count
  work-set_task [] s n t h = omega arith
  work-set_task (x ∷ ns) s n t h =
      let ih = work-set_task ns s n t h in
      elim (Bool-cases (str_eq n x)) [
        | inl same ↦
            let e = ap (λ z. weight (s z)) ((eq_iff n x).0 same) in ground (arith, ih, same, e, h)
        | inr other ↦
            let back : str_eq x n ≡ false = ground (arith, other, eq_iff n x, eq_iff x n) in
            rw (other, back) (omega (arith, ih))
      ]

  -- A run of the tasks never adds work, and adds none away only if they all are stuck.
  pub run_schedule-Stuck :
      (ns schedule : List String) (s : Tasks)
      → All (λ n. 1 ≤ count n ns) schedule
      → (work ns (run_schedule outcome schedule s) ≤ work ns s)
        × (work ns (run_schedule outcome schedule s) ≡ work ns s → All (Stuck s) schedule)
  unfolding run_schedule
  run_schedule-Stuck ns [] s h = (omega arith, λ e. tt)
  run_schedule-Stuck ns (n ∷ schedule) s h = elim (Option-cases (run_node outcome s n (s n))) [
    | inl stuck ↦
        let ih = run_schedule-Stuck ns schedule s h.1 in rw stuck (ih.0, λ e. (refl, ih.1 e))
    | inr (t, next) ↦
        let less : NextLess (s n) (some t) =
          subst (NextLess (s n)) next (run_node-NextLess s n (s n)) in
        let ih = run_schedule-Stuck ns schedule (set_task (some t) n s) h.1 in
        let drop = work-set_task ns s n t (unfold NextLess in less) in
        rw next (omega (arith, ih.0, drop), λ e. elim (no_drop _ _ _ _ ih.0 drop h.0 e) [ ])
  ]
    where
      no_drop : (a b c d : ℕ) → a ≤ b → b + c ≤ d → 1 ≤ c → a ≡ d → ⊥
      no_drop a b c d p q r e = omega (arith, p, q, r, e)

  pub awaited_open : (t : Task) (rest : List String) → is_done t ≡ true → awaited t rest ≡ none → ⊥
  awaited_open success rest d h = ground (arith, h)
  awaited_open failed rest d h = ground (arith, h)
  awaited_open (waiting ds) rest d h = ground (arith, d)
  awaited_open running rest d h = ground (arith, d)

  weightless : (t : Task) → weight t ≡ 0 → is_done t ≡ true
  weightless (waiting ds) h = ground (arith, h)
  weightless running h = ground (arith, h)
  weightless success h = refl
  weightless failed h = refl

  done_weight : (t : Task) → is_done t ≡ true → weight t ≡ 0
  done_weight (waiting ds) h = ground (arith, h)
  done_weight running h = ground (arith, h)
  done_weight success h = refl
  done_weight failed h = refl

  abbrev pub Done : List String → Tasks → Type 0
  Done ns s = (m : String) → 1 ≤ count m ns → is_done (s m) ≡ true

  pub workless : (ns : List String) (s : Tasks) → work ns s ≡ 0 → Done ns s
  unfolding count
  workless [] s h m k = elim (nothing k) [ ]
    where
      nothing : 1 ≤ 0 → ⊥
      nothing q = omega (arith, q)
  workless (x ∷ ns) s h m k = elim (Bool-cases (str_eq x m)) [
    | inl same ↦
        weightless (s m) (subst (λ z. weight (s z) ≡ 0) ((eq_iff x m).0 same) (omega (arith, h)))
    | inr other ↦ workless ns s (omega (arith, h)) m (ground (arith, k, other))
  ]

  pub done_work :
      (ns : List String) (s : Tasks) → All (λ m. is_done (s m) ≡ true) ns → work ns s ≡ 0
  done_work [] s h = refl
  done_work (x ∷ ns) s h =
      let a = done_weight (s x) h.0 in let b = done_work ns s h.1 in omega (arith, a, b)
