-- ===== src/Intel/Steps.antt =====
-- One entry of a feed (backend/app/intel/refresh.py, refresh_source).
use ai_soc.Prelude.{
  String, ℕ, suc, ◌+◌, ◌≡◌, refl, ◌∙◌, inl, inr, true, false, ◌&&◌, [], ◌∷◌, ◌++◌, str_eq, eq_iff,
  eq_refl, any_of, length, length-append, Bool-cases, arith, subst,
}
use ai_soc.Python.{Python}
use ai_soc.Intel.{
  Ioc, ThreatIntelIoc, MergeState, same_ioc, change_where, resight, merge_pending, new_row,
  value_of, add_pending, merge_valid,
}
use ai_soc.Intel.Rows.{
  any_of-append, any_of-change_where, change_where-unchanged, change_where-append,
  length-change_where, disjoint, append_assoc,
}
use ai_soc.Intel.Merge.{rows_of, total, Taken, change-Taken, append-Taken}

module _ (py : Python) (source : String) (now : ℕ) where
  -- No key is both in the table and pending.
  abbrev pub Apart : MergeState → Type 0
  Apart m =
      (t v : String)
      → (any_of (same_ioc source t v) (m.table) && any_of (same_ioc source t v) (m.pending_new))
        ≡ false

  pub record Stepped (ioc : Ioc) (m m' : MergeState) : Type 0 where
    pub taken :
        Taken source
          (ioc.ioc_type)
          (value_of py source now ioc)
          (ioc.first_seen)
          (rows_of m)
          (rows_of m')
    pub apart : Apart m'
    pub grown : length (rows_of m') + m.counts.inserted ≡ length (rows_of m) + m'.counts.inserted
    pub counted : total (m'.counts) ≡ suc (total (m.counts))

  in_table :
      (ioc : Ioc) (m : MergeState)
      → Apart m
      → any_of (same_ioc source (ioc.ioc_type) (value_of py source now ioc)) (m.table) ≡ true
      → Stepped ioc m (merge_valid py source now ioc m)
  unfolding merge_valid resight
  in_table ioc m apart known =
      let t = ioc.ioc_type in
      let v = value_of py source now ioc in
      let p = same_ioc source t v in
      let f = resight now ioc in
      let free : any_of p (m.pending_new) ≡ false = ground (arith, apart t v, known) in
      let whole : change_where p f (rows_of m) ≡ change_where p f (m.table) ++ m.pending_new =
        change_where-append p f (m.table) (m.pending_new)
        ∙ rw (change_where-unchanged p f (m.pending_new) free) refl in
      let any : any_of p (rows_of m) ≡ true =
        ground (arith, known, any_of-append p (m.table) (m.pending_new)) in
      rw known (record {
        taken = subst (Taken source t v (ioc.first_seen) (rows_of m)) whole (
            change-Taken source t v (ioc.first_seen) f (λ t' v' row. refl) (λ row. refl)
              (λ row. refl) (rows_of m) any);
        apart = λ t' v'. ground (
          arith,
          apart t' v',
          any_of-change_where p (same_ioc source t' v') f (λ row. refl) (m.table),
        );
        grown = ground (
          arith,
          length-change_where p f (m.table),
          length-append (m.table) (m.pending_new),
          length-append (change_where p f (m.table)) (m.pending_new),
        );
        counted = omega arith;
      })

  in_pending :
      (ioc : Ioc) (m : MergeState)
      → Apart m
      → any_of (same_ioc source (ioc.ioc_type) (value_of py source now ioc)) (m.table) ≡ false
      → any_of (same_ioc source (ioc.ioc_type) (value_of py source now ioc)) (m.pending_new) ≡ true
      → Stepped ioc m (merge_valid py source now ioc m)
  unfolding merge_valid add_pending merge_pending
  in_pending ioc m apart unknown waiting =
      let t = ioc.ioc_type in
      let v = value_of py source now ioc in
      let p = same_ioc source t v in
      let f = merge_pending ioc in
      let whole : change_where p f (rows_of m) ≡ m.table ++ change_where p f (m.pending_new) =
        change_where-append p f (m.table) (m.pending_new)
        ∙ rw (change_where-unchanged p f (m.table) unknown) refl in
      let any : any_of p (rows_of m) ≡ true =
        ground (arith, waiting, any_of-append p (m.table) (m.pending_new)) in
      rw (unknown, waiting)
        (record {
          taken = subst (Taken source t v (ioc.first_seen) (rows_of m)) whole (
              change-Taken source t v (ioc.first_seen) f (λ t' v' row. refl) (λ row. refl)
                (λ row. refl) (rows_of m) any);
          apart = λ t' v'. ground (
            arith,
            apart t' v',
            any_of-change_where p (same_ioc source t' v') f (λ row. refl) (m.pending_new),
          );
          grown = ground (
            arith,
            length-change_where p f (m.pending_new),
            length-append (m.table) (m.pending_new),
            length-append (m.table) (change_where p f (m.pending_new)),
          );
          counted = omega arith;
        })

  nowhere :
      (ioc : Ioc) (m : MergeState)
      → Apart m
      → any_of (same_ioc source (ioc.ioc_type) (value_of py source now ioc)) (m.table) ≡ false
      → any_of (same_ioc source (ioc.ioc_type) (value_of py source now ioc)) (m.pending_new) ≡ false
      → Stepped ioc m (merge_valid py source now ioc m)
  unfolding merge_valid add_pending new_row
  nowhere ioc m apart unknown new =
      let t = ioc.ioc_type in
      let v = value_of py source now ioc in
      let p = same_ioc source t v in
      let row = new_row source now v ioc in
      let own : p row ≡ true = rw (eq_refl source, eq_refl t, eq_refl v) refl in
      let whole : rows_of m ++ row ∷ [] ≡ m.table ++ (m.pending_new ++ row ∷ []) =
        append_assoc (m.table) (m.pending_new) (row ∷ []) in
      let none_of : any_of p (rows_of m) ≡ false =
        ground (arith, unknown, new, any_of-append p (m.table) (m.pending_new)) in
      rw (unknown, new)
        (record {
          taken =
              subst (Taken source t v (ioc.first_seen) (rows_of m)) whole
                (append-Taken source t v row (rows_of m) own none_of);
          apart = λ t' v'. still_apart t' v' row own unknown;
          grown = ground (
            arith,
            length-append (m.table) (m.pending_new),
            length-append (m.table) (m.pending_new ++ row ∷ []),
            length-append (m.pending_new) (row ∷ []),
          );
          counted = omega arith;
        })
    where
      still_apart :
          (t' v' : String) (row : ThreatIntelIoc)
          → same_ioc source (ioc.ioc_type) (value_of py source now ioc) row ≡ true
          → any_of (same_ioc source (ioc.ioc_type) (value_of py source now ioc)) (m.table) ≡ false
          → (any_of (same_ioc source t' v') (m.table)
              && any_of (same_ioc source t' v') (m.pending_new ++ row ∷ []))
            ≡ false
      still_apart t' v' row own unknown =
          elim (Bool-cases (str_eq (ioc.ioc_type) t' && str_eq (value_of py source now ioc) v')) [
            | inl same ↦ ground (
              arith,
              unknown,
              same,
              eq_iff (ioc.ioc_type) t',
              eq_iff (value_of py source now ioc) v',
            )
            | inr d ↦ ground (
              arith,
              own,
              apart t' v',
              disjoint source _ _ t' v' d row,
              any_of-append (same_ioc source t' v') (m.pending_new) (row ∷ []),
            )
          ]

  pub merge_valid-Stepped :
      (ioc : Ioc) (m : MergeState) → Apart m → Stepped ioc m (merge_valid py source now ioc m)
  merge_valid-Stepped ioc m apart =
      let p = same_ioc source (ioc.ioc_type) (value_of py source now ioc) in
      elim (Bool-cases (any_of p (m.table))) [
        | inl known ↦ in_table ioc m apart known
        | inr unknown ↦ elim (Bool-cases (any_of p (m.pending_new))) [
          | inl waiting ↦ in_pending ioc m apart unknown waiting
          | inr new ↦ nowhere ioc m apart unknown new
        ]
      ]
