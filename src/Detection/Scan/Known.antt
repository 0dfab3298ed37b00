-- ===== src/Detection/Scan/Known.antt =====
-- The first-seen rule against the history that the scan compares with (engine.py, rules.py).
use ai_soc.Prelude.{
  ℕ, zero, suc, ◌≤◌, String, ◌≡◌, ◌≢◌, refl, inl, inr, true, false, ◌&&◌, some, List, [], ◌∷◌, ◌++◌,
  arith, leb, ◌==◌, str_eq, eq_refl, mem_str, Bool-cases, value,
}
use mathlib.Core.List.{Memᴰ}
use mathlib.Core.List.Memᴰ
use ai_soc.Json.{
  Value, null, bool, int, text, arr, obj, get, pos, negsuc, nil, cons, end, field, fields_of,
}
use ai_soc.Python.{Python}
use ai_soc.Store.{SecurityEvent}
use ai_soc.Detection.Rules.{Finding, section, fingerprint}
use ai_soc.Detection.Match.{rule_first_seen_binary}
use ai_soc.Detection.Scan.{known_hashes, hash_text}

mem_str-append_left :
    (s : String) (xs ys : List String) → mem_str s xs ≡ true → mem_str s (xs ++ ys) ≡ true
mem_str-append_left s [] ys h = cc
mem_str-append_left s (x ∷ xs) ys h = ground (arith, mem_str-append_left s xs ys)

mem_str-append_right :
    (s : String) (xs ys : List String) → mem_str s ys ≡ true → mem_str s (xs ++ ys) ≡ true
mem_str-append_right s [] ys h = h
mem_str-append_right s (x ∷ xs) ys h = ground (arith, mem_str-append_right s xs ys h)

module _ (py : Python) (t since : ℕ) where
  -- A hash that the history holds is a known one.
  known_hashes-mem :
      (e : SecurityEvent) (stored : List SecurityEvent) (s : String)
      → Memᴰ e stored
      → (e.tenant_id == t) && (str_eq e.event_type "process" && leb since e.observed_at) ≡ true
      → mem_str s (hash_text py (get "hash_sha256" (fields_of e.payload))) ≡ true
      → mem_str s (known_hashes py t since stored) ≡ true
  unfolding known_hashes
  known_hashes-mem e (x ∷ stored) s m h k = elim (Memᴰ.cases_cons m) [
    | inl here ↦
        rw (← here, h)
          (mem_str-append_left s (hash_text py (get "hash_sha256" (fields_of e.payload)))
            (known_hashes py t since stored) k)
    | inr there ↦
        let rest = known_hashes-mem e stored s there h k in
        elim (Bool-cases
          ((x.tenant_id == t) && (str_eq x.event_type "process" && leb since x.observed_at))) [
            | inl counted ↦ rw counted (
                mem_str-append_right s (hash_text py (get "hash_sha256" (fields_of x.payload)))
                  (known_hashes py t since stored) rest)
            | inr skipped ↦ rw skipped rest
          ]
  ]
  known_hashes-mem e [] s m h k = elim m [ ]

  not_hit :
      (h : Value) (known : List String) (e : SecurityEvent) (f : Finding)
      → get "hash_sha256" (section e) ≡ h
      → str_eq e.event_type "process" ≡ true
      → ((s : String) → h ≡ text s → str_eq s "" ≡ false → mem_str s known ≡ true)
      → rule_first_seen_binary py known e ≢ value (some f)
  unfolding rule_first_seen_binary fingerprint
  not_hit (text s) known e f q p listed hit = elim (Bool-cases (str_eq s "")) [
    | inl empty ↦ cc (rw (p, q, empty) at hit)
    | inr filled ↦ cc (rw (p, q, filled, listed s refl filled) at hit)
  ]
  not_hit (bool true) known e f q p listed hit = cc (rw (p, q) at hit)
  not_hit (bool false) known e f q p listed hit = cc (rw (p, q) at hit)
  not_hit (int (pos zero)) known e f q p listed hit = cc (rw (p, q) at hit)
  not_hit (int (pos (suc n))) known e f q p listed hit = cc (rw (p, q) at hit)
  not_hit (int (negsuc n)) known e f q p listed hit = cc (rw (p, q) at hit)
  not_hit null known e f q p listed hit = cc (rw (p, q) at hit)
  not_hit (arr nil) known e f q p listed hit = cc (rw (p, q) at hit)
  not_hit (arr (cons v vs)) known e f q p listed hit = cc (rw (p, q) at hit)
  not_hit (obj end) known e f q p listed hit = cc (rw (p, q) at hit)
  not_hit (obj (field k v fs)) known e f q p listed hit = cc (rw (p, q) at hit)

  -- The first-seen rule cannot fire in a scan: an event of the tenant that lies in the history
  -- window, with its section stored unwrapped as ingestion stores it, is itself part of the
  -- history, so its hash is always known.
  pub first_seen_never_fires :
      (e : SecurityEvent) (stored : List SecurityEvent) (f : Finding)
      → Memᴰ e stored
      → e.tenant_id ≡ t
      → since ≤ e.observed_at
      → section e ≡ fields_of e.payload
      → rule_first_seen_binary py (known_hashes py t since stored) e ≢ value (some f)
  first_seen_never_fires e stored f m mine recent flat =
      elim (Bool-cases (str_eq e.event_type "process")) [
        | inl process ↦
            not_hit (get "hash_sha256" (section e)) (known_hashes py t since stored) e f refl
              process
              (λ s q filled.
                known_hashes-mem e stored s m (ground (arith, process))
                  (rw (← flat, q) (rw filled (ground (arith, eq_refl s)))))
        | inr other ↦ λ hit. unfold rule_first_seen_binary in cc (rw other at hit)
      ]
