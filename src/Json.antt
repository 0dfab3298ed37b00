-- ===== src/Json.antt =====
-- JSON values as Python sees them after decoding (event payloads, alert evidence, command params):
-- `dict.get`, truthiness and `==`. Floating-point numbers are left out.
use ai_soc.Prelude.{
  ℕ, zero, suc, String, Bool, true, false, not, ◌&&◌, ◌||◌, List, [], ◌∷◌, ◌==◌, ltb, if◌then◌else◌,
  str_eq,
}

-- `negsuc n` is -(n + 1).
pub data ℤ : Type 0 where
  pos : ℕ → ℤ
  negsuc : ℕ → ℤ

mutual
  pub data Value : Type 0 where
    null : Value
    text : String → Value
    int : ℤ → Value
    bool : Bool → Value
    arr : Items → Value
    obj : Fields → Value

  pub data Fields : Type 0 where
    end : Fields
    field : String → Value → Fields → Fields

  pub data Items : Type 0 where
    nil : Items
    cons : Value → Items → Items

-- `d.get(k)`: a missing key reads as `None`.
abbrev pub get : String → Fields → Value
get k end = null
get k (field j v fs) = if str_eq j k then v else get k fs

abbrev pub has : String → Fields → Bool
has k end = false
has k (field j v fs) = str_eq j k || has k fs

-- `bool(v)`
abbrev pub truthy : Value → Bool
truthy null = false
truthy (bool b) = b
truthy (int (pos zero)) = false
truthy (int _) = true
truthy (text s) = not (str_eq s "")
truthy (arr nil) = false
truthy (arr (cons x xs)) = true
truthy (obj end) = false
truthy (obj (field k v fs)) = true

-- `v or d`
abbrev pub or_value : Value → Value → Value
or_value v d = if truthy v then v else d

-- `v or {}` read as a dictionary; `.get` on anything else would raise, and no caller passes it.
abbrev pub fields_of : Value → Fields
fields_of (obj fs) = fs
fields_of _ = end

abbrev pub items_of : Items → List Value
items_of nil = []
items_of (cons x xs) = x ∷ items_of xs

-- `v or []` read as a list
abbrev pub list_of : Value → List Value
list_of (arr xs) = items_of xs
list_of _ = []

-- `isinstance(v, int) and v > 0`: in Python a Boolean is an integer.
abbrev pub is_positive_int : Value → Bool
is_positive_int (bool b) = b
is_positive_int (int (pos n)) = ltb 0 n
is_positive_int _ = false

abbrev pub is_text : Value → Bool
is_text (text s) = true
is_text _ = false

abbrev pub int_eq : ℤ → ℤ → Bool
int_eq (pos m) (pos n) = m == n
int_eq (negsuc m) (negsuc n) = m == n
int_eq _ _ = false

abbrev pub bool_to_int : Bool → ℤ
bool_to_int true = pos 1
bool_to_int false = pos 0

abbrev pub size : Fields → ℕ
size end = 0
size (field k v fs) = suc (size fs)

-- `a == b`: dictionaries compare without their order, and `True == 1`.
unfoldable mutual
  pub same : Value → Value → Bool
  same null null = true
  same (bool a) (bool b) = int_eq (bool_to_int a) (bool_to_int b)
  same (bool a) (int b) = int_eq (bool_to_int a) b
  same (int a) (bool b) = int_eq a (bool_to_int b)
  same (int a) (int b) = int_eq a b
  same (text a) (text b) = str_eq a b
  same (arr xs) (arr ys) = same_items xs ys
  same (obj fs) (obj gs) = (size fs == size gs) && within fs gs
  same _ _ = false

  pub same_items : Items → Items → Bool
  same_items nil nil = true
  same_items (cons x xs) (cons y ys) = same x y && same_items xs ys
  same_items _ _ = false

  pub within : Fields → Fields → Bool
  within end gs = true
  within (field k v fs) gs = has k gs && same v (get k gs) && within fs gs
