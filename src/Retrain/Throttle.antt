-- ===== src/Retrain/Throttle.antt =====
-- How often the models are trained at most (backend/app/ml/auto_retrain.py).
use Prim.Native.Nat.{◌≤◌, ◌*◌}
use native.Mathlib.Nat.{add-mul}
use ai_soc.Prelude.{
  String, ℕ, suc, ◌+◌, ◌-◌, ◌≡◌, refl, ◌∙◌, Option, none, some, List, [], ◌∷◌, ◌++◌, ltb, true, All,
  inl, inr, Bool-cases, arith,
}
use ai_soc.Retrain.{
  MlRetrainRun, Learning, Retrained, outcome, raised, Pass, Outcome, already_running, skipped,
  finished, failed, baseline_from, baseline, record_error, serve, finish, evaluate_and_run,
  maybe_auto_retrain, run_passes,
}

-- how many trainings there were
abbrev pub trainings : List Outcome → ℕ
trainings [] = 0
trainings (finished status ∷ os) = suc (trainings os)
trainings (failed ∷ os) = suc (trainings os)
trainings (_ ∷ os) = trainings os

-- A call in which both reads of the count succeed and the row of an error, if one is recorded, is
-- committed, while there are at most so many feedback rows and none is deleted between the reads.
pub record Steady (limit : ℕ) (p : Pass) : Type 0 where
  pub rows : ℕ
  pub read : p.total ≡ some rows
  pub rows_after : ℕ
  pub read_after : p.total_after ≡ some rows_after
  pub recorded : p.error_committed ≡ true
  pub growing : rows ≤ rows_after
  pub bounded : rows_after ≤ limit

baseline-append :
    (n : ℕ) (runs : List MlRetrainRun) (run : MlRetrainRun)
    → baseline_from n (runs ++ run ∷ []) ≡ run.feedback_rows_total
baseline-append n [] run = refl
baseline-append n (r ∷ runs) run = baseline-append (r.feedback_rows_total) runs run

abbrev trained : Outcome → ℕ
trained (finished status) = 1
trained failed = 1
trained _ = 0

trainings-cons : (o : Outcome) (os : List Outcome) → trainings (o ∷ os) ≡ trained o + trainings os
trainings-cons already_running os = omega arith
trainings-cons (skipped n t) os = omega arith
trainings-cons (finished status) os = omega arith
trainings-cons failed os = omega arith

baseline-serve :
    (status : String) (v : Option String) (l : Learning) → baseline (serve status v l) ≡ baseline l
baseline-serve status none l = refl
baseline-serve status (some v) l = ground arith

module _ (threshold limit : ℕ) where
  -- what a call adds to the baseline
  Paid : Outcome → Learning → Learning → Type 0
  Paid o l l' =
      (baseline l + trained o * threshold ≤ baseline l')
      × (baseline l ≤ limit → baseline l' ≤ limit)

  row-Paid :
      (o : Outcome) (l l' : Learning) (n m : ℕ)
      → trained o ≡ 1
      → baseline l' ≡ m
      → baseline l + threshold ≤ n
      → n ≤ m
      → m ≤ limit
      → Paid o l l'
  unfolding Paid
  row-Paid o l l' n m one e due grows bound =
      (rw (one, e) (omega (arith, due, grows)), λ h. omega (arith, e, bound))

  baseline-record_error :
      (p : Pass) (e : String) (l : Learning) (m : ℕ)
      → p.total_after ≡ some m
      → p.error_committed ≡ true
      → baseline (record_error p e l) ≡ m
  unfolding record_error
  baseline-record_error p e l m r kept = rw (r, kept) (baseline-append 0 (l.runs) _)

  read_rows : (p : Pass) (s : Steady limit p) (n : ℕ) → p.total ≡ some n → n ≡ s.rows
  read_rows p s n r = ground (arith, r, s.read)

  finish-Paid :
      (p : Pass) (l : Learning) (n new_rows : ℕ) (r : Retrained)
      → Steady limit p
      → p.total ≡ some n
      → baseline l + threshold ≤ n
      → Paid (finish threshold p n new_rows r l).0 l (finish threshold p n new_rows r l).1
  unfolding finish
  finish-Paid p l n new_rows (raised e) s read due =
      row-Paid failed l _ n (s.rows_after) refl
        (baseline-record_error p e l _ s.read_after s.recorded) due
        (omega (arith, s.growing, read_rows p s n read)) s.bounded
  finish-Paid p l n new_rows (outcome status version) s read due = elim (Bool-cases (p.committed)) [
    | inr lost ↦ rw lost (
        row-Paid failed l _ n (s.rows_after) refl
          (baseline-record_error p (p.exception) l _ s.read_after s.recorded) due
          (omega (arith, s.growing, read_rows p s n read)) s.bounded)
    | inl kept ↦ rw kept (
        row-Paid (finished status) l _ n n refl
          (baseline-serve status (p.reloaded) _ ∙ baseline-append 0 (l.runs) _) due (omega arith)
          (omega (arith, s.growing, s.bounded, read_rows p s n read)))
  ]

  free : (o : Outcome) (l : Learning) → trained o ≡ 0 → Paid o l l
  unfolding Paid
  free o l e = (rw e (omega arith), λ h. h)

  evaluate-Paid :
      (p : Pass) (l : Learning) (total : Option ℕ)
      → Steady limit p
      → p.total ≡ total
      → Paid (evaluate_and_run threshold p total l).0 l (evaluate_and_run threshold p total l).1
  unfolding evaluate_and_run finish
  evaluate-Paid p l none s read = elim (impossible read) [ ]
    where
      impossible : p.total ≡ none → ⊥
      impossible e = ground (arith, e, s.read)
  evaluate-Paid p l (some n) s read = elim (Bool-cases (ltb n (baseline l + threshold))) [
    | inl early ↦ rw early (free (skipped n threshold) l refl)
    | inr due ↦
        rw due (finish-Paid p l n (n - baseline l) (p.retrained) s read (ground (arith, due)))
  ]

  call-Paid :
      (p : Pass) (l : Learning)
      → Steady limit p
      → Paid (maybe_auto_retrain threshold p l).0 l (maybe_auto_retrain threshold p l).1
  unfolding maybe_auto_retrain
  call-Paid p l s = elim (Bool-cases (p.locked)) [
    | inl busy ↦ rw busy (free already_running l refl)
    | inr idle ↦ rw idle (evaluate-Paid p l (p.total) s refl)
  ]

  spend :
      (b b' x y : ℕ)
      → b + x * threshold ≤ b'
      → b' + y * threshold ≤ limit
      → b + (x + y) * threshold ≤ limit
  spend b b' x y h k = rw (add-mul x y threshold) (omega (arith, h, k))

  passes-Paid :
      (ps : List Pass) (l : Learning)
      → All (Steady limit) ps
      → baseline l ≤ limit
      → baseline l + trainings (run_passes threshold ps l).0 * threshold ≤ limit
  unfolding run_passes Paid
  passes-Paid [] l s h = omega (arith, h)
  passes-Paid (p ∷ ps) l s h =
      let (paid, within) = call-Paid p l s.0 in
      let rest = passes-Paid ps (maybe_auto_retrain threshold p l).1 s.1 (within h) in
      rw
        (trainings-cons (maybe_auto_retrain threshold p l).0
          (run_passes threshold ps (maybe_auto_retrain threshold p l).1).0)
        (spend (baseline l) _ (trained (maybe_auto_retrain threshold p l).0) _ paid rest)

  -- Over any calls in which the counts can be read, no feedback row is deleted and the row that
  -- records an error is committed, started with no run, the number of trainings times the threshold
  -- is at most the number of feedback rows: each training, also one that fails or whose own row
  -- cannot be committed, takes a threshold of fresh rows.
  pub run_passes-bounded :
      (ps : List Pass) (serving : String)
      → All (Steady limit) ps
      → trainings (run_passes threshold ps (record { runs = []; serving = serving })).0 * threshold
        ≤ limit
  run_passes-bounded ps serving s =
      omega (arith, passes-Paid ps (record { runs = []; serving = serving }) s (omega arith))
