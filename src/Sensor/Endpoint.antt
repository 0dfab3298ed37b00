-- ===== src/Sensor/Endpoint.antt =====
-- sensor/edysor_sensor.py: the endpoint as the handlers of commands meet it. Its operating system is
-- a parameter, and a handler gives its verdict with what it did.
use ai_soc.Prelude.{ℕ, String, Bool, Option, List, [], ◌∷◌, if◌then◌else◌, any_of, is_infix}

pub data Platform : Type 0 where
  win32 linux other_posix : Platform

-- `psutil.Process(pid).name()`
pub data Process : Type 0 where
  no_such_process access_denied : Process
  running : String → Process

pub data Effect : Type 0 where
  run : List String → Effect
  kill : ℕ → Effect
  make_dir : String → Effect
  move : String → String → Effect
  delete_value : String → String → String → Effect

-- The endpoint: its answers to each call.
pub record Host : Type 0 where
  pub platform : Platform
  pub process : ℕ → Process
  pub basename : String → String
  -- whether a command line exits with 0, a signal is delivered, a file is moved, a value is deleted
  pub succeeds : Effect → Bool
  -- `Path(s).resolve()`, where it does not raise, and `is_file()`
  pub resolve : String → Option String
  pub is_file : String → Bool
  pub system_root : String
  pub quarantine_dir : String
  pub quarantine_path : String → String
  pub has_winreg : Bool

pub data Verdict : Type 0 where
  refused failed done : Verdict

abbrev pub Handled : Type 0
Handled = Verdict × List Effect

abbrev pub pattern_chars : List String
pattern_chars = "*" ∷ "?" ∷ "[" ∷ "]" ∷ []

abbrev pub has_any : List String → String → Bool
has_any cs s = any_of (λ c. is_infix c s) cs

-- one call of the operating system
abbrev pub attempt : Host → Effect → Handled
attempt host e = (if host.succeeds e then done else failed, e ∷ [])

abbrev pub no_effect : Verdict → Handled
no_effect v = (v, [])
