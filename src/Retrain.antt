-- ===== src/Retrain.antt =====
-- backend/app/ml/auto_retrain.py: when the models are trained again, and what each attempt leaves in
-- the table of runs. The count of feedback rows, the gated training of retrain_service.py and the
-- reload of the inference are inputs; scores and times are left out.
pub mod Throttle
use ai_soc.Prelude.{
  String, ℕ, zero, suc, ◌+◌, ◌-◌, Bool, true, false, not, Option, none, some, List, [], ◌∷◌, ◌++◌,
  str_eq, if◌then◌else◌, ltb,
}
use ai_soc.Json.{ℤ, pos, negsuc}

pub record MlRetrainRun : Type 0 where
  pub trigger : String
  pub status : String
  pub feedback_rows_total : ℕ
  pub feedback_rows_new : ℕ
  pub model_version_after : Option String
  pub error : Option String

-- the runs, oldest first, and the version that the inference serves
pub record Learning : Type 0 where
  pub runs : List MlRetrainRun
  pub serving : String

-- What `run_retrain` comes to: its outcome, or an exception with its text.
pub data Retrained : Type 0 where
  outcome : (status : String) (model_version_after : Option String) → Retrained
  raised : String → Retrained

-- One call, as it goes: another one holds the lock, the count of the rows (or the exception of
-- reading it), the training, whether the row of the run is committed, the count when an error is
-- recorded (or nothing where that read fails too), whether the row of the error is committed, and the
-- version that a reload serves (if it succeeds). On a session of the caller a failed commit makes the
-- later count raise too, which is a call without that count.
pub record Pass : Type 0 where
  pub trigger : String
  pub locked : Bool
  pub total : Option ℕ
  pub retrained : Retrained
  pub committed : Bool
  pub total_after : Option ℕ
  pub error_committed : Bool
  pub reloaded : Option String
  -- the text of an exception of the database, cut to 2000 characters as every error is
  pub exception : String

pub data Outcome : Type 0 where
  already_running : Outcome
  skipped : (feedback_rows_total threshold : ℕ) → Outcome
  finished : (status : String) → Outcome
  failed : Outcome

abbrev pub default_min_new_rows : ℕ
default_min_new_rows = 25

-- `max(1, int(value))`, or the default for what is no number
unfoldable pub min_new_rows : Option ℤ → ℕ
min_new_rows none = default_min_new_rows
min_new_rows (some (pos zero)) = 1
min_new_rows (some (pos (suc n))) = suc n
min_new_rows (some (negsuc n)) = 1

-- the total of the latest run
abbrev pub baseline_from : ℕ → List MlRetrainRun → ℕ
baseline_from n [] = n
baseline_from n (run ∷ runs) = baseline_from (run.feedback_rows_total) runs

abbrev pub baseline : Learning → ℕ
baseline l = baseline_from 0 (l.runs)

abbrev pub add_run : MlRetrainRun → Learning → Learning
add_run run l = record l { runs = l.runs ++ run ∷ [] }

unfoldable pub record_error : Pass → String → Learning → Learning
record_error p e l = elim (p.total_after) [
  | none ↦ l
  | some total ↦
      if not (p.error_committed)
      then l
      else add_run
          (record {
            trigger = p.trigger;
            status = "error";
            feedback_rows_total = total;
            feedback_rows_new = 0;
            model_version_after = none;
            error = some e;
          })
          l
]

-- a reload that fails leaves the old model serving
abbrev pub serve : String → Option String → Learning → Learning
serve status none l = l
serve status (some version) l = if str_eq status "passed" then record l { serving = version } else l

module _ (threshold : ℕ) where
  abbrev pub finish : Pass → ℕ → ℕ → Retrained → Learning → Outcome × Learning
  unfolding record_error
  finish p total new_rows (raised e) l = (failed, record_error p e l)
  finish p total new_rows (outcome status version) l =
      if not (p.committed) then (failed, record_error p (p.exception) l) else (
        finished status,
        serve status (p.reloaded) (
            add_run
              (record {
                trigger = p.trigger;
                status = status;
                feedback_rows_total = total;
                feedback_rows_new = new_rows;
                model_version_after = version;
                error = none;
              })
              l),
      )

  unfoldable pub evaluate_and_run : Pass → Option ℕ → Learning → Outcome × Learning
  unfolding finish record_error
  evaluate_and_run p none l = (failed, record_error p (p.exception) l)
  evaluate_and_run p (some total) l =
      if ltb total (baseline l + threshold)
      then (skipped total threshold, l)
      else finish p total (total - baseline l) (p.retrained) l

  unfoldable pub maybe_auto_retrain : Pass → Learning → Outcome × Learning
  unfolding evaluate_and_run
  maybe_auto_retrain p l = if p.locked then (already_running, l) else evaluate_and_run p (p.total) l

  unfoldable pub run_passes : List Pass → Learning → List Outcome × Learning
  run_passes [] l = ([], l)
  run_passes (p ∷ ps) l =
      let (o, l') = maybe_auto_retrain p l in let (os, last) = run_passes ps l' in (o ∷ os, last)
