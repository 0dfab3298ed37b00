-- ===== src/Python.antt =====
-- The parts of Python's standard library that the code calls and this repository does not hold:
-- text case and trimming, `str`, `int`, `strftime`, `re`, `ipaddress` and `hashlib`, as one parameter of the model.
use ai_soc.Prelude.{String, ℕ, Option, Bool, ◌≡◌}
use ai_soc.Json.{Value, text, ℤ}

pub record Python : Type 0 where
  pub upper : String → String
  pub lower : String → String
  pub strip : String → String
  -- `str(v)`, and what it does on a text
  pub str : Value → String
  pub str-text : (s : String) → str (text s) ≡ s
  -- the database's `payload ->> key` on a value that is neither a text nor null
  pub json_text : Value → String
  -- `int(v)`, where `none` stands for a `TypeError` or a `ValueError`
  pub int_of : Value → Option ℤ
  -- `t.strftime("%Y-%m-%dT%H")`
  pub hour_key : ℕ → String
  -- `re.search(pattern, s, re.I)`
  pub search : String → String → Bool
  -- `hashlib.sha256(s).hexdigest()[:16]`
  pub digest16 : String → String
  -- `ipaddress.ip_address(s)` does not raise, and the flags of the address
  pub is_address : String → Bool
  pub is_global : String → Bool
  pub is_loopback : String → Bool
  pub is_private : String → Bool
  pub is_multicast : String → Bool
  pub is_link_local : String → Bool
  pub is_reserved : String → Bool
