-- ===== src/Sensor/Persistence.antt =====
-- sensor/edysor_sensor.py: the removal of a persistence mechanism, a scheduled task or a Run value.
pub mod Paths
use Prim.Native.Char.{Char, code}
use ai_soc.Prelude.{
  String, Bool, false, not, ◌&&◌, ◌||◌, List, [], ◌∷◌, ◌==◌, if◌then◌else◌, str_eq, is_infix,
  join_with, mem_str,
}
use ai_soc.Json.{Value, text, Fields, get}
use ai_soc.Python.{Python}
use ai_soc.Sensor.Endpoint.{
  Platform, win32, run, delete_value, Host, refused, failed, Handled, pattern_chars, has_any,
  attempt, no_effect,
}

-- `path.split("\\")`
abbrev pub add_to_head : Char → List String → List String
add_to_head c [] = String.◌∷◌ c "" ∷ []
add_to_head c (s ∷ parts) = String.◌∷◌ c s ∷ parts

unfoldable pub split_backslash : String → List String
split_backslash String.[] = "" ∷ []
split_backslash (String.◌∷◌ c s) =
    let parts = split_backslash s in if code c == 92 then "" ∷ parts else add_to_head c parts

-- `parts[0]`, `parts[1:-1]` and `parts[-1]` of at least three parts
abbrev pub last_of : String → List String → String
last_of s [] = s
last_of s (x ∷ xs) = last_of x xs

abbrev pub all_but_last : List String → List String
all_but_last [] = []
all_but_last (x ∷ []) = []
all_but_last (x ∷ y ∷ xs) = x ∷ all_but_last (y ∷ xs)

abbrev pub is_task_name : Value → Bool
is_task_name (text s) =
    not (str_eq s "") && not (has_any ("*" ∷ "?" ∷ "[" ∷ "]" ∷ "/" ∷ "\\" ∷ []) s)
is_task_name _ = false

abbrev pub text_of : Value → String
text_of (text s) = s
text_of _ = ""

module _ (py : Python) (host : Host) where
  unfoldable pub delete_run_value : String → String → List String → Handled
  unfolding join_with
  delete_run_value path root rest =
      let value = last_of "" rest in
      if not (mem_str root ("HKCU" ∷ "HKLM" ∷ []))
      then no_effect refused
      else if not (is_infix "currentversion\\run" (py.lower path))
      then no_effect refused
      else if str_eq value "" || has_any pattern_chars value
      then no_effect refused
      else attempt host (delete_value root (join_with "\\" (all_but_last rest)) value)

  unfoldable pub remove_run_value : String → List String → Handled
  unfolding join_with
  remove_run_value path (root ∷ key ∷ sub ∷ rest) = delete_run_value path root (key ∷ sub ∷ rest)
  remove_run_value path _ = no_effect refused

  unfoldable pub remove_path_value : Value → Handled
  unfolding split_backslash join_with
  remove_path_value (text path) =
      if str_eq path ""
      then no_effect refused
      else if not host.has_winreg
      then no_effect failed
      else remove_run_value path (split_backslash path)
  remove_path_value _ = no_effect refused

  unfoldable pub remove_on : Platform → Fields → Handled
  unfolding split_backslash join_with
  remove_on win32 params =
      if is_task_name (get "task_name" params)
      then attempt host
          (run ("schtasks" ∷ "/Delete" ∷ "/TN" ∷ text_of (get "task_name" params) ∷ "/F" ∷ []))
      else remove_path_value (get "path" params)
  remove_on _ params = no_effect failed

  unfoldable pub handle_remove_persistence : Fields → Handled
  unfolding remove_on
  handle_remove_persistence params = remove_on host.platform params
