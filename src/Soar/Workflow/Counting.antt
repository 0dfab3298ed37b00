-- ===== src/Soar/Workflow/Counting.antt =====
-- How often a text occurs in a list, and lists that are within others.
use Prim.Native.Nat.{◌≤◌}
use ai_soc.Prelude.{
  ℕ, suc, ◌+◌, ◌-◌, String, ◌≡◌, refl, subst, All, Bool, List, [], ◌∷◌, ◌++◌, length, keep, arith,
  if◌then◌else◌, str_eq, eq_iff, eq_refl, Bool-cases, inl, inr, ap,
}

unfoldable pub count : String → List String → ℕ
count m [] = 0
count m (x ∷ xs) = let n = count m xs in if str_eq x m then suc n else n

pub count-append : (m : String) (xs ys : List String) → count m (xs ++ ys) ≡ count m xs + count m ys
unfolding count
count-append m [] ys = omega arith
count-append m (x ∷ xs) ys = ground (arith, count-append m xs ys)

pub count-keep :
    (m : String) (f : String → Bool) (xs : List String)
    → count m (keep f xs) ≡ (if f m then count m xs else 0)
unfolding count
count-keep m f [] = ground arith
count-keep m f (x ∷ xs) = elim (Bool-cases (str_eq x m)) [
  | inl same ↦
      let e = (eq_iff x m).0 same in let h = count-keep m f xs in ground (arith, h, same, ap f e)
  | inr other ↦ let h = count-keep m f xs in ground (arith, h, other)
]

-- without the first occurrence
abbrev erase : String → List String → List String
erase x [] = []
erase x (y ∷ ys) = let rest = erase x ys in if str_eq y x then ys else y ∷ rest

count-erase :
    (m x : String) (ys : List String)
    → count m (erase x ys) ≡ (if str_eq x m then count m ys - 1 else count m ys)
unfolding count
count-erase m x [] = ground arith
count-erase m x (y ∷ ys) = ground (arith, count-erase m x ys, eq_iff x m, eq_iff y x, eq_iff y m)

length-erase :
    (x : String) (ys : List String) → 1 ≤ count x ys → suc (length (erase x ys)) ≡ length ys
unfolding count
length-erase x [] h = omega (arith, h)
length-erase x (y ∷ ys) h = ground (arith, h, length-erase x ys)

abbrev pub Within : List String → List String → Type 0
Within xs ys = (m : String) → count m xs ≤ count m ys

Within-erase : (x : String) (xs ys : List String) → Within (x ∷ xs) ys → Within xs (erase x ys)
unfolding count
Within-erase x xs ys h m = ground (arith, h m, count-erase m x ys)

head_counted : (x : String) (xs ys : List String) → Within (x ∷ xs) ys → 1 ≤ count x ys
unfolding count
head_counted x xs ys h = ground (arith, h x, eq_refl x)

pub length-Within : (xs ys : List String) → Within xs ys → length xs ≤ length ys
length-Within [] ys h = omega arith
length-Within (x ∷ xs) ys h =
    let ih = length-Within xs (erase x ys) (Within-erase x xs ys h) in
    let e = length-erase x ys (head_counted x xs ys h) in omega (arith, ih, e)

-- A list within another of the same length has the same counts.
pub Within-full :
    (xs ys : List String)
    → Within xs ys
    → length xs ≡ length ys
    → (m : String) → count m xs ≡ count m ys
unfolding count
Within-full [] [] h e m = refl
Within-full [] (y ∷ ys) h e m = omega (arith, e)
Within-full (x ∷ xs) ys h e m =
    let hd = head_counted x xs ys h in
    let le = length-erase x ys hd in
    let shorter : length xs ≡ length (erase x ys) = omega (arith, le, e) in
    let ih = Within-full xs (erase x ys) (Within-erase x xs ys h) shorter m in
    let ce = count-erase m x ys in
    elim (Bool-cases (str_eq x m)) [
      | inl same ↦
          let p : 1 ≤ count m ys = subst (λ z. 1 ≤ count z ys) ((eq_iff x m).0 same) hd in
          ground (arith, ih, ce, same, p)
      | inr other ↦ ground (arith, ih, ce, other)
    ]

pub All_at_count {ℓ} :
    (P : String → Type ℓ) (xs : List String) (m : String) → All P xs → 1 ≤ count m xs → P m
unfolding count
All_at_count P [] m h k = elim (nothing k) [ ]
  where
    nothing : 1 ≤ 0 → ⊥
    nothing h = omega (arith, h)
All_at_count P (x ∷ xs) m h k = elim (Bool-cases (str_eq x m)) [
  | inl same ↦ subst P ((eq_iff x m).0 same) h.0
  | inr other ↦ All_at_count P xs m h.1 (ground (arith, k, other))
]

-- Each element of a list within another occurs in that one.
pub Within-All : (xs ys : List String) → Within xs ys → All (λ m. 1 ≤ count m ys) xs
unfolding count
Within-All [] ys h = tt
Within-All (x ∷ xs) ys h = (head_counted x xs ys h, Within-All xs ys (λ m. ground (arith, h m)))
