-- ===== src/Tests/Retrain.antt =====
-- Trainings under a threshold of ten rows.
use Prim.Native.Nat.{◌≤◌, ◌*◌}
use ai_soc.Prelude.{refl, true, false, some, [], ◌∷◌, arith}
use ai_soc.Retrain.{Pass, outcome, raised, run_passes}
use ai_soc.Retrain.Throttle.{trainings, run_passes-bounded}

abbrev first_pass : Pass
first_pass = record {
  trigger = "sparring_pass";
  locked = false;
  total = some 12;
  retrained = outcome "passed" (some "v2");
  committed = true;
  total_after = some 12;
  error_committed = true;
  reloaded = some "v2";
  exception = "";
}

abbrev broken_pass : Pass
broken_pass = record first_pass {
  total = some 25;
  retrained = raised "no baseline";
  total_after = some 26;
}

run_passes-bounded_example :
    trainings
        (run_passes 10
          (first_pass ∷ first_pass ∷ broken_pass ∷ [])
          (record { runs = []; serving = "v1" })).0
      * 10
    ≤ 30
run_passes-bounded_example =
    run_passes-bounded 10 30 (first_pass ∷ first_pass ∷ broken_pass ∷ []) "v1" (
      record {
        rows = 12;
        read = refl;
        rows_after = 12;
        read_after = refl;
        recorded = refl;
        growing = omega arith;
        bounded = omega arith;
      },
      (
        record {
          rows = 12;
          read = refl;
          rows_after = 12;
          read_after = refl;
          recorded = refl;
          growing = omega arith;
          bounded = omega arith;
        },
        (
          record {
            rows = 25;
            read = refl;
            rows_after = 26;
            read_after = refl;
            recorded = refl;
            growing = omega arith;
            bounded = omega arith;
          },
          tt,
        ),
      ),
    )
