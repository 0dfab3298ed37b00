-- ===== src/Intel/Merge.antt =====
-- What the merge of a feed does to the rows (backend/app/intel/refresh.py, refresh_source).
use Prim.Native.Nat.{◌≤◌}
use ai_soc.Prelude.{
  String, ℕ, ◌+◌, ◌≡◌, refl, ◌∙◌, ◌⊎◌, inl, inr, true, false, not, ◌&&◌, Option, List, [], ◌∷◌,
  ◌++◌, str_eq, eq_iff, any_of, keep, length, Bool-cases, arith,
}
use ai_soc.Intel.{ThreatIntelIoc, Counts, MergeState, same_ioc, earliest, change_where}
use ai_soc.Intel.Rows.{
  sighted, from_others, any_of-append, sighted-append, keep-append, any_of-change_where,
  sighted-change_where-other, keep-change_where, sighted-change_where, length-keep-change_where,
  length-keep-none, length-keep-append, disjoint, sighted-absent, append-nil, earliest-none,
}

abbrev pub rows_of : MergeState → List ThreatIntelIoc
rows_of m = m.table ++ m.pending_new

abbrev pub total : Counts → ℕ
total c = c.inserted + c.updated + c.deduped

module _ (source : String) where
  -- What taking in a value of a type does to the rows.
  pub record Taken (t v : String) (at : Option ℕ) (rows rows' : List ThreatIntelIoc) : Type 0 where
    pub present : any_of (same_ioc source t v) rows' ≡ true
    pub present_other :
        (t' v' : String)
        → (str_eq t t' && str_eq v v') ≡ false
        → any_of (same_ioc source t' v') rows' ≡ any_of (same_ioc source t' v') rows
    pub seen :
        sighted (same_ioc source t v) rows' ≡ earliest at (sighted (same_ioc source t v) rows)
    pub seen_other :
        (t' v' : String)
        → (str_eq t t' && str_eq v v') ≡ false
        → sighted (same_ioc source t' v') rows' ≡ sighted (same_ioc source t' v') rows
    pub others : from_others source rows' ≡ from_others source rows
    pub single :
        (t' v' : String)
        → length (keep (same_ioc source t' v') rows) ≤ 1
        → length (keep (same_ioc source t' v') rows') ≤ 1

  module _ (t v : String) (at : Option ℕ) (f : ThreatIntelIoc → ThreatIntelIoc)
      (keeps : (t' v' : String) (row : ThreatIntelIoc)
        → same_ioc source t' v' (f row) ≡ same_ioc source t' v' row)
      (moves : (row : ThreatIntelIoc) → (f row).first_seen ≡ earliest at (row.first_seen))
      (stays : (row : ThreatIntelIoc) → (f row).source ≡ row.source) where
    pub change-Taken :
        (rows : List ThreatIntelIoc)
        → any_of (same_ioc source t v) rows ≡ true
        → Taken t v at rows (change_where (same_ioc source t v) f rows)
    change-Taken rows h = record {
      present = any_of-change_where _ _ f (keeps t v) rows ∙ h;
      present_other = λ t' v' d. any_of-change_where _ _ f (keeps t' v') rows;
      seen = sighted-change_where _ f at (keeps t v) moves rows ∙ rw h refl;
      seen_other = λ t' v' d.
          sighted-change_where-other _ _ f (keeps t' v') (disjoint source t v t' v' d) rows;
      others =
          keep-change_where _ _ f (λ row e. ground (arith, e))
            (λ row e. ground (arith, e, stays row)) rows;
      single = λ t' v' one.
          omega (arith, one, length-keep-change_where (same_ioc source t v) _ f (keeps t' v') rows);
    }

  pub append-Taken :
      (t v : String) (row : ThreatIntelIoc) (rows : List ThreatIntelIoc)
      → same_ioc source t v row ≡ true
      → any_of (same_ioc source t v) rows ≡ false
      → Taken t v (row.first_seen) rows (rows ++ row ∷ [])
  append-Taken t v row rows h new =
      let own : not (str_eq (row.source) source) ≡ false = ground (arith, h) in
      record {
        present = ground (arith, h, any_of-append (same_ioc source t v) rows (row ∷ []));
        present_other = λ t' v' d. ground (
          arith,
          disjoint source t v t' v' d row,
          h,
          any_of-append (same_ioc source t' v') rows (row ∷ []),
        );
        seen =
            sighted-append (same_ioc source t v) rows (row ∷ [])
            ∙ rw
                (
                  new,
                  h,
                  sighted-absent (same_ioc source t v) rows new,
                  earliest-none (row.first_seen),
                )
                refl;
        seen_other = λ t' v' d.
            sighted-append (same_ioc source t' v') rows (row ∷ [])
            ∙ ground (
              arith,
              disjoint source t v t' v' d row,
              h,
              sighted-absent (same_ioc source t' v') rows,
            );
        others = keep-append _ rows (row ∷ []) ∙ rw own (append-nil _);
        single = λ t' v' one. elim (Bool-cases (str_eq t t' && str_eq v v')) [
          | inl same ↦
              appended_single t' v' (inl (ground (arith, same, new, eq_iff t t', eq_iff v v'))) one
          | inr d ↦
              appended_single t' v' (inr (ground (arith, disjoint source t v t' v' d row, h))) one
        ];
      }
    where
      appended_single :
          (t' v' : String)
          → (any_of (same_ioc source t' v') rows ≡ false) ⊎ (same_ioc source t' v' row ≡ false)
          → length (keep (same_ioc source t' v') rows) ≤ 1
          → length (keep (same_ioc source t' v') (rows ++ row ∷ [])) ≤ 1
      appended_single t' v' (inl absent) one = ground (
        arith,
        one,
        length-keep-append (same_ioc source t' v') rows row,
        length-keep-none (same_ioc source t' v') rows absent,
      )
      appended_single t' v' (inr other) one =
          ground (arith, one, other, length-keep-append (same_ioc source t' v') rows row)
