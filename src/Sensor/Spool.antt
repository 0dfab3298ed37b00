-- ===== src/Sensor/Spool.antt =====
-- sensor/edysor_sensor.py: the spool of events that are not yet sent, and the flush of a cycle. The
-- spool is a file with one event per line; a disk call that fails is an input of the model.
pub mod Settled
pub mod Delivery
pub mod Oversized
use ai_soc.Prelude.{
  ℕ, String, ◌≡◌, Bool, true, false, not, ◌&&◌, ◌||◌, Option, none, some, List, [], ◌∷◌, ◌++◌, map,
  take, str_eq, any_of, suc, ◌==◌, if◌then◌else◌, ltb,
}
use ai_soc.Python.{Python}

-- `json.dumps(event)` and `json.loads(line)`, where `none` stands for a `JSONDecodeError`. The text
-- of an event has no line break, is not empty and has no space at its ends.
pub record Codec (py : Python) (Event : Type 0) : Type 0 where
  pub dumps : Event → String
  pub loads : String → Option Event
  pub strip-dumps : (e : Event) → py.strip (dumps e) ≡ dumps e
  pub dumps_filled : (e : Event) → str_eq (dumps e) "" ≡ false
  pub loads-dumps : (e : Event) → loads (dumps e) ≡ some e

-- The file: absent, or its lines.
abbrev pub Spool : Type 0
Spool = Option (List String)

-- How a write ends: well, or with an `OSError` after some of its lines.
pub data Written : Type 0 where
  written : Written
  cut_after : ℕ → Written

-- The answer of the backend to a batch, with the places of the events that it refuses.
pub data Answer : Type 0 where
  connection_failed : Answer
  answered : (status : ℕ) (rejected : List ℕ) → Answer

abbrev pub is_ok : Answer → Bool
is_ok connection_failed = false
is_ok (answered status rejected) = ltb status 400

abbrev pub rejected_of : Answer → List ℕ
rejected_of connection_failed = []
rejected_of (answered status rejected) = rejected

-- An event of a batch that was answered with success, and whether the backend took it. The sensor
-- logs the refused ones and does not send them again.
pub record Delivered (Event : Type 0) : Type 0 where
  pub event : Event
  pub accepted : Bool

unfoldable pub settle : {Event : Type 0} → ℕ → List ℕ → List Event → List (Delivered Event)
settle i rejected [] = []
settle i rejected (e ∷ es) =
    record { event = e; accepted = not (any_of (λ j. j == i) rejected) }
    ∷ settle (suc i) rejected es

-- One run of the main loop, as the sensor meets it.
pub record Cycle (Event : Type 0) : Type 0 where
  pub events : List Event
  pub registered : Bool
  pub answer : Answer
  -- the read goes through, the file could be removed, and how the write ends
  pub readable : Bool
  pub cleared : Bool
  pub write : Written

module _ {py : Python} {Event : Type 0} (codec : Codec py Event) where
  -- an empty line and a corrupt one are dropped
  abbrev pub read_line : Option Event → List Event → List Event
  read_line none rest = rest
  read_line (some e) rest = e ∷ rest

  unfoldable pub read_lines : List String → List Event
  read_lines [] = []
  read_lines (line ∷ lines) =
      let rest = read_lines lines in
      if str_eq (py.strip line) "" then rest else read_line (codec.loads (py.strip line)) rest

  unfoldable pub contents : Spool → List Event
  unfolding read_lines
  contents none = []
  contents (some lines) = read_lines lines

  abbrev pub lines_of : Spool → List String
  lines_of none = []
  lines_of (some lines) = lines

  -- opened for appending, so the lines that are there stay
  abbrev pub write_lines : Written → List String → Spool → Spool
  write_lines written lines spool = some (lines_of spool ++ lines)
  write_lines (cut_after n) lines spool = some (lines_of spool ++ take n lines)

  unfoldable pub write_spool : Written → List Event → Spool → Spool
  write_spool w [] spool = spool
  write_spool w (e ∷ es) spool = write_lines w (map codec.dumps (e ∷ es)) spool

abbrev pub clear_spool : Bool → Spool → Spool
clear_spool cleared spool = if cleared then none else spool

module _ {py : Python} {Event : Type 0} (codec : Codec py Event) where
  -- clear, then write the old and the new events
  abbrev pub keep_pending : Cycle Event → List Event → Spool → Spool
  unfolding write_spool
  keep_pending c pending spool = write_spool codec c.write pending (clear_spool c.cleared spool)

  abbrev pub read_spool : Cycle Event → Spool → List Event
  unfolding read_lines
  read_spool c spool = if c.readable then contents codec spool else []

  -- the events of a batch that was answered with success, and the spool afterwards
  abbrev pub flush : Cycle Event → List Event → Spool → List (Delivered Event) × Spool
  unfolding write_spool settle
  flush c [] spool = ([], spool)
  flush c (e ∷ es) spool =
      if not c.registered
      then ([], keep_pending c (e ∷ es) spool)
      else if is_ok c.answer
      then (settle 0 (rejected_of c.answer) (e ∷ es), clear_spool c.cleared spool)
      else ([], keep_pending c (e ∷ es) spool)

  unfoldable pub run_cycle : Cycle Event → Spool → List (Delivered Event) × Spool
  unfolding read_lines write_spool
  run_cycle c spool = flush c (read_spool c spool ++ c.events) spool

  -- the loop of `main`
  unfoldable pub run_cycles : List (Cycle Event) → Spool → List (Delivered Event) × Spool
  run_cycles [] spool = ([], spool)
  run_cycles (c ∷ cs) spool =
      let (sent, spool') = run_cycle c spool in
      let (more, last) = run_cycles cs spool' in (sent ++ more, last)
