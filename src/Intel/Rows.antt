-- ===== src/Intel/Rows.antt =====
-- The rows of the feeds: tests on them, and changes of those that a test picks (backend/app/intel/refresh.py, refresh_source).
use ai_soc.Prelude.{
  ltb, leb, Bool-cases, inl, inr, String, ℕ, ◌+◌, ◌≡◌, refl, ap, Bool, true, false, not, ◌&&◌, ◌||◌,
  Option, none, some, List, [], ◌∷◌, ◌++◌, str_eq, eq_iff, if◌then◌else◌, any_of, keep, length,
  arith,
}
use ai_soc.Intel.{ThreatIntelIoc, same_ioc, earliest, change_where}

-- the first sighting that the rows know of what a test picks
abbrev pub sighted : (ThreatIntelIoc → Bool) → List ThreatIntelIoc → Option ℕ
sighted q [] = none
sighted q (row ∷ rows) = let rest = sighted q rows in if q row then row.first_seen else rest

-- the older of two sightings, of which each may be missing
abbrev pub oldest : Option ℕ → Option ℕ → Option ℕ
oldest none b = b
oldest (some t) none = some t
oldest (some t) (some u) = some (if leb t u then t else u)

pub earliest-oldest : (a b : Option ℕ) → earliest a b ≡ oldest a b
earliest-oldest none b = refl
earliest-oldest (some t) none = refl
earliest-oldest (some t) (some u) = elim (Bool-cases (ltb t u)) [
  | inl older ↦ rw older (ap some (ground (arith, older)))
  | inr newer ↦ rw newer (ap some (ground (arith, newer)))
]

abbrev pub from_others : String → List ThreatIntelIoc → List ThreatIntelIoc
from_others source = keep (λ row. not (str_eq (row.source) source))

pub any_of-append :
    (q : ThreatIntelIoc → Bool) (xs ys : List ThreatIntelIoc)
    → any_of q (xs ++ ys) ≡ (any_of q xs || any_of q ys)
any_of-append q [] ys = refl
any_of-append q (x ∷ xs) ys = ground (arith, any_of-append q xs ys)

pub sighted-append :
    (q : ThreatIntelIoc → Bool) (xs ys : List ThreatIntelIoc)
    → sighted q (xs ++ ys) ≡ (if any_of q xs then sighted q xs else sighted q ys)
sighted-append q [] ys = refl
sighted-append q (x ∷ xs) ys = ground (arith, sighted-append q xs ys)

pub keep-append :
    (q : ThreatIntelIoc → Bool) (xs ys : List ThreatIntelIoc)
    → keep q (xs ++ ys) ≡ keep q xs ++ keep q ys
keep-append q [] ys = refl
keep-append q (x ∷ xs) ys = ground (arith, keep-append q xs ys)

module _ (p q : ThreatIntelIoc → Bool) (f : ThreatIntelIoc → ThreatIntelIoc) where
  pub any_of-change_where :
      ((row : ThreatIntelIoc) → q (f row) ≡ q row)
      → (rows : List ThreatIntelIoc) → any_of q (change_where p f rows) ≡ any_of q rows
  unfolding change_where
  any_of-change_where h [] = refl
  any_of-change_where h (row ∷ rows) = ground (arith, h row, any_of-change_where h rows)

  pub sighted-change_where-other :
      ((row : ThreatIntelIoc) → q (f row) ≡ q row)
      → ((row : ThreatIntelIoc) → (p row && q row) ≡ false)
      → (rows : List ThreatIntelIoc) → sighted q (change_where p f rows) ≡ sighted q rows
  unfolding change_where
  sighted-change_where-other h d [] = refl
  sighted-change_where-other h d (row ∷ rows) =
      ground (arith, h row, d row, sighted-change_where-other h d rows)

  pub keep-change_where :
      ((row : ThreatIntelIoc) → p row ≡ true → q row ≡ false)
      → ((row : ThreatIntelIoc) → p row ≡ true → q (f row) ≡ false)
      → (rows : List ThreatIntelIoc) → keep q (change_where p f rows) ≡ keep q rows
  unfolding change_where
  keep-change_where h g [] = refl
  keep-change_where h g (row ∷ rows) = ground (arith, h row, g row, keep-change_where h g rows)

pub sighted-change_where :
    (q : ThreatIntelIoc → Bool) (f : ThreatIntelIoc → ThreatIntelIoc) (at : Option ℕ)
    → ((row : ThreatIntelIoc) → q (f row) ≡ q row)
    → ((row : ThreatIntelIoc) → (f row).first_seen ≡ earliest at (row.first_seen))
    → (rows : List ThreatIntelIoc)
    → sighted q (change_where q f rows)
      ≡ (if any_of q rows then earliest at (sighted q rows) else none)
unfolding change_where
sighted-change_where q f at h g [] = refl
sighted-change_where q f at h g (row ∷ rows) =
    ground (arith, h row, g row, sighted-change_where q f at h g rows)

pub change_where-unchanged :
    (p : ThreatIntelIoc → Bool) (f : ThreatIntelIoc → ThreatIntelIoc) (rows : List ThreatIntelIoc)
    → any_of p rows ≡ false
    → change_where p f rows ≡ rows
unfolding change_where
change_where-unchanged p f [] h = refl
change_where-unchanged p f (row ∷ rows) h = ground (arith, h, change_where-unchanged p f rows)

pub change_where-append :
    (p : ThreatIntelIoc → Bool) (f : ThreatIntelIoc → ThreatIntelIoc) (xs ys : List ThreatIntelIoc)
    → change_where p f (xs ++ ys) ≡ change_where p f xs ++ change_where p f ys
unfolding change_where
change_where-append p f [] ys = refl
change_where-append p f (x ∷ xs) ys = ground (arith, change_where-append p f xs ys)

pub length-keep-change_where :
    (p q : ThreatIntelIoc → Bool) (f : ThreatIntelIoc → ThreatIntelIoc)
    → ((row : ThreatIntelIoc) → q (f row) ≡ q row)
    → (rows : List ThreatIntelIoc) → length (keep q (change_where p f rows)) ≡ length (keep q rows)
unfolding change_where
length-keep-change_where p q f h [] = refl
length-keep-change_where p q f h (row ∷ rows) =
    ground (arith, h row, length-keep-change_where p q f h rows)

pub length-change_where :
    (p : ThreatIntelIoc → Bool) (f : ThreatIntelIoc → ThreatIntelIoc) (rows : List ThreatIntelIoc)
    → length (change_where p f rows) ≡ length rows
unfolding change_where
length-change_where p f [] = refl
length-change_where p f (row ∷ rows) = ground (arith, length-change_where p f rows)

pub length-keep-none :
    (q : ThreatIntelIoc → Bool) (rows : List ThreatIntelIoc)
    → any_of q rows ≡ false
    → length (keep q rows) ≡ 0
length-keep-none q [] h = refl
length-keep-none q (row ∷ rows) h = ground (arith, h, length-keep-none q rows)

-- no row has two keys
pub disjoint :
    (source t v t' v' : String)
    → (str_eq t t' && str_eq v v') ≡ false
    → (row : ThreatIntelIoc) → (same_ioc source t v row && same_ioc source t' v' row) ≡ false
disjoint source t v t' v' d row = ground (
  arith,
  d,
  eq_iff (row.ioc_type) t,
  eq_iff (row.ioc_type) t',
  eq_iff (row.value) v,
  eq_iff (row.value) v',
  eq_iff t t',
  eq_iff v v',
)

pub sighted-absent :
    (q : ThreatIntelIoc → Bool) (rows : List ThreatIntelIoc)
    → any_of q rows ≡ false
    → sighted q rows ≡ none
sighted-absent q [] h = refl
sighted-absent q (row ∷ rows) h = ground (arith, h, sighted-absent q rows)

pub append-nil : (rows : List ThreatIntelIoc) → rows ++ [] ≡ rows
append-nil [] = refl
append-nil (row ∷ rows) = ap (λ rest. row ∷ rest) (append-nil rows)

pub earliest-none : (at : Option ℕ) → earliest at none ≡ at
earliest-none none = refl
earliest-none (some t) = refl

pub length-keep-append :
    (q : ThreatIntelIoc → Bool) (rows : List ThreatIntelIoc) (row : ThreatIntelIoc)
    → length (keep q (rows ++ row ∷ [])) ≡ length (keep q rows) + (if q row then 1 else 0)
length-keep-append q [] row = ground arith
length-keep-append q (x ∷ rows) row = ground (arith, length-keep-append q rows row)

pub append_assoc : (xs ys zs : List ThreatIntelIoc) → (xs ++ ys) ++ zs ≡ xs ++ (ys ++ zs)
append_assoc [] ys zs = refl
append_assoc (x ∷ xs) ys zs = ap (λ rest. x ∷ rest) (append_assoc xs ys zs)
