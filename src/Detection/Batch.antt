-- ===== src/Detection/Batch.antt =====
-- backend/app/detection/rules.py: the rule over a batch of events, which counts failed logins.
pub mod Threshold
use Prim.Native.String.{compare}
use Prim.Native.Nat.{Ordering}
use ai_soc.Prelude.{
  ℕ, String, ◌≡◌, Bool, true, false, not, ◌&&◌, Option, none, some, List, [], ◌∷◌, ◌++◌, map,
  if◌then◌else◌, str_eq, mem_str, Attempt, value, ◌>>=◌, take, length, leb, ltb, or_else,
}
use ai_soc.Prelude.Assoc.{Assoc, lookup, insert}
use ai_soc.Json.{pos, Value, int, text, arr, Items, nil, cons, Fields, end, field, get, or_value}
use ai_soc.Python.{Python}
use ai_soc.Store.{SecurityEvent}
use ai_soc.Detection.Rules.{Finding, section, fingerprint}

abbrev pub brute_force_failed_threshold : ℕ
brute_force_failed_threshold = 20

abbrev is_failure_result : Value → Bool
is_failure_result (text s) = mem_str s ("failed" ∷ "failure" ∷ "denied" ∷ [])
is_failure_result _ = false

unfoldable pub is_failed_login : SecurityEvent → Bool
is_failed_login ev = str_eq ev.event_type "auth" && is_failure_result (get "result" (section ev))

-- `ev.get("device_id") or "unknown"`
abbrev pub device_key : SecurityEvent → String
device_key ev = if str_eq ev.device_id "" then "unknown" else ev.device_id

pub record Tally : Type 0 where
  pub failures : Assoc (List Fields)
  pub latest : Assoc ℕ

abbrev later : Option ℕ → ℕ → ℕ
later none ts = ts
later (some old) ts = if ltb old ts then ts else old

-- one round of the counting loop; the dictionaries keep the order in which devices appear
pub count_event : Tally → SecurityEvent → Tally
count_event t ev =
    let k = device_key ev in
    if is_failed_login ev
    then record {
      failures = insert k (or_else (lookup k t.failures) [] ++ section ev ∷ []) t.failures;
      latest = insert k (later (lookup k t.latest) ev.observed_at) t.latest;
    }
    else t

pub tally : Tally → List SecurityEvent → Tally
tally t [] = t
tally t (ev ∷ evs) = tally (count_event t ev) evs

abbrev pub empty_tally : Tally
empty_tally = record { failures = []; latest = [] }

abbrev text_lt : String → String → Bool
text_lt a b = elim (compare a b) [ Ordering.lt ↦ true | _ ↦ false ]

-- `sorted({…})`
abbrev insert_text : String → List String → List String
insert_text s [] = s ∷ []
insert_text s (x ∷ xs) =
    if str_eq x s then x ∷ xs else if text_lt s x then s ∷ x ∷ xs else x ∷ insert_text s xs

abbrev sorted_set : List String → List String
sorted_set [] = []
sorted_set (s ∷ ss) = insert_text s (sorted_set ss)

abbrev items_of_texts : List String → Items
items_of_texts [] = nil
items_of_texts (s ∷ ss) = cons (text s) (items_of_texts ss)

abbrev non_empty : List String → List String
non_empty [] = []
non_empty (s ∷ ss) = let rest = non_empty ss in if str_eq s "" then rest else s ∷ rest

module _ (py : Python) where
  user_of : Fields → String
  user_of a = py.str (or_value (or_value (get "username" a) (get "user" a)) (text "?"))

  source_of : Fields → String
  source_of a = py.strip (py.str (or_value (get "src_ip" a) (text "")))

  abbrev hour_of : Option ℕ → String
  hour_of none = "unknown"
  hour_of (some ts) = py.hour_key ts

  pub brute_force_finding : Assoc ℕ → String → List Fields → Attempt Finding
  unfolding user_of source_of
  brute_force_finding latest device attempts = do
    let hour = hour_of (lookup device latest)
    fp ← fingerprint py (text "brute-force-auth" ∷ text device ∷ text hour ∷ [])
    value (record {
      rule_id = "brute-force-auth";
      rule_name = "Brute-force authentication attempts";
      severity = "HIGH";
      confidence = 85;
      fingerprint = fp;
      evidence = field "failed_attempts" (int (pos (length attempts))) (
          field "usernames" (arr (items_of_texts (take 20 (sorted_set (map user_of attempts))))) (
            field "src_ips"
              (arr (items_of_texts (take 20 (sorted_set (non_empty (map source_of attempts))))))
              (field "hour" (text hour) end)));
      device_id = device;
    })

  unfoldable pub findings_of : Assoc ℕ → Assoc (List Fields) → Attempt (List Finding)
  findings_of latest [] = value []
  findings_of latest ((device, attempts) ∷ rest) = do
    found ← findings_of latest rest
    if ltb (length attempts) brute_force_failed_threshold
        then value found
        else do f ← brute_force_finding latest device attempts; value (f ∷ found)

  unfoldable pub match_batch_rules : List SecurityEvent → Attempt (List Finding)
  unfolding tally count_event
  match_batch_rules evs = let t = tally empty_tally evs in findings_of t.latest t.failures
