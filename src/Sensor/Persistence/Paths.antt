-- ===== src/Sensor/Persistence/Paths.antt =====
-- The parts of a registry path (edysor_sensor.py, _handle_remove_persistence).
use Prim.Native.Char.{Char, code}
use text.Mathlib.TextEquality.{Char-path}
use text.Mathlib.TextLemmas.{append_assoc, cons-append, nil-append}
use ai_soc.Prelude.{
  String, ◌≡◌, refl, sym, ◌∙◌, ap, inl, inr, false, List, [], ◌∷◌, ◌==◌, ==_iff, str_append,
  join_with, All, Bool-cases,
}
use ai_soc.Sensor.Persistence.{add_to_head, split_backslash, last_of, all_but_last}

-- The character 92 is the backslash.
abbrev pub HasNoBackslash : String → Type 0
HasNoBackslash String.[] = Unit
HasNoBackslash (String.◌∷◌ c s) = ((code c == 92) ≡ false) × HasNoBackslash s

-- The same text by its first part and the others.
join_head :
    (c : Char) (parts : List String)
    → join_with "\\" (add_to_head c parts) ≡ String.◌∷◌ c (join_with "\\" parts)
unfolding join_with
join_head c [] = refl
join_head c (s ∷ []) = refl
join_head c (s ∷ t ∷ parts) = cons-append c s _

abbrev IsFilled : List String → Type 0
IsFilled [] = ⊥
IsFilled (p ∷ parts) = Unit

split_backslash-IsFilled : (s : String) → IsFilled (split_backslash s)
unfolding split_backslash
split_backslash-IsFilled String.[] = tt
split_backslash-IsFilled (String.◌∷◌ c s) = elim (Bool-cases (code c == 92)) [
  | inl cut ↦ rw cut tt
  | inr other ↦ rw other (headed (split_backslash s))
]
  where
    headed : (parts : List String) → IsFilled (add_to_head c parts)
    headed [] = tt
    headed (p ∷ parts) = tt

join_cut :
    (parts : List String)
    → IsFilled parts
    → join_with "\\" ("" ∷ parts) ≡ String.◌∷◌ "\\" (join_with "\\" parts)
unfolding join_with
join_cut [] h = absurd h
join_cut (p ∷ parts) h =
    nil-append _
    ∙ cons-append "\\" "" (join_with "\\" (p ∷ parts))
    ∙ ap (λ t. String.◌∷◌ "\\" t) (nil-append (join_with "\\" (p ∷ parts)))

pub join_with-split_backslash : (s : String) → join_with "\\" (split_backslash s) ≡ s
unfolding split_backslash join_with
join_with-split_backslash String.[] = refl
join_with-split_backslash (String.◌∷◌ c s) = elim (Bool-cases (code c == 92)) [
  | inl cut ↦ rw cut (
      join_cut (split_backslash s) (split_backslash-IsFilled s)
      ∙ ap (λ t. String.◌∷◌ "\\" t) (join_with-split_backslash s)
      ∙ ap (λ b. String.◌∷◌ b s) (Char-path "\\" c (sym ((==_iff (code c) 92).0 cut))))
  | inr other ↦
      rw other
        (join_head c (split_backslash s) ∙ ap (λ t. String.◌∷◌ c t) (join_with-split_backslash s))
]

pub split_backslash-HasNoBackslash : (s : String) → All HasNoBackslash (split_backslash s)
unfolding split_backslash
split_backslash-HasNoBackslash String.[] = (tt, tt)
split_backslash-HasNoBackslash (String.◌∷◌ c s) = elim (Bool-cases (code c == 92)) [
  | inl cut ↦ rw cut (tt, split_backslash-HasNoBackslash s)
  | inr other ↦ rw other (headed other (split_backslash s) (split_backslash-HasNoBackslash s))
]
  where
    headed :
        (code c == 92) ≡ false
        → (parts : List String) → All HasNoBackslash parts
        → All HasNoBackslash (add_to_head c parts)
    headed other [] h = ((other, tt), tt)
    headed other (p ∷ parts) h = ((other, h.0), h.1)

pub last_of-HasNoBackslash :
    (s : String) (parts : List String)
    → HasNoBackslash s
    → All HasNoBackslash parts
    → HasNoBackslash (last_of s parts)
last_of-HasNoBackslash s [] h hs = h
last_of-HasNoBackslash s (x ∷ xs) h hs = last_of-HasNoBackslash x xs hs.0 hs.1

join_last :
    (key sub : String) (rest : List String)
    → join_with "\\" (key ∷ sub ∷ rest)
      ≡ str_append
          (join_with "\\" (all_but_last (key ∷ sub ∷ rest)))
          (str_append "\\" (last_of "" (key ∷ sub ∷ rest)))
unfolding join_with
join_last key sub [] = refl
join_last key sub (x ∷ rest) =
    ap (λ t. str_append key (str_append "\\" t)) (join_last sub x rest)
    ∙ ap (λ t. str_append key t) (sym (append_assoc "\\" _ _))
    ∙ sym (append_assoc key _ _)

-- A path whose parts are given is the root, the key and the value with backslashes between.
pub path_parts :
    (path root key sub : String) (rest : List String)
    → split_backslash path ≡ root ∷ key ∷ sub ∷ rest
    → path
      ≡ join_with "\\" (
          root
          ∷ join_with "\\" (all_but_last (key ∷ sub ∷ rest))
          ∷ last_of "" (key ∷ sub ∷ rest)
          ∷ [])
unfolding join_with
path_parts path root key sub rest e =
    sym (join_with-split_backslash path)
    ∙ ap (join_with "\\") e
    ∙ ap (λ t. str_append root (str_append "\\" t)) (join_last key sub rest)
