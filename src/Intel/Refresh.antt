-- ===== src/Intel/Refresh.antt =====
-- The refresh of a source as a whole (backend/app/intel/refresh.py, refresh_source).
use Prim.Native.Nat.{◌≤◌}
use ai_soc.Prelude.{
  String, ℕ, ◌+◌, ◌≡◌, refl, sym, ap, ◌∙◌, inl, inr, Bool, true, false, ◌&&◌, ◌||◌, Option, List,
  [], ◌∷◌, str_eq, eq_iff, if◌then◌else◌, any_of, keep, length, Bool-cases, arith, subst,
}
use ai_soc.Python.{Python}
use ai_soc.Intel.{
  Ioc, ThreatIntelIoc, Counts, MergeState, same_ioc, earliest, value_of, is_valid, merge_valid,
  merge_ioc, merge_iocs, no_counts, refresh_source,
}
use ai_soc.Intel.Rows.{sighted, from_others, append-nil, oldest, earliest-oldest}
use ai_soc.Intel.Merge.{rows_of, total}
use ai_soc.Intel.Steps.{Apart, Stepped, merge_valid-Stepped}

module _ (py : Python) (source : String) (now : ℕ) where
  -- the entry says something of a value of a type
  abbrev pub names : String → String → Ioc → Bool
  names t v ioc =
      is_valid py source now ioc && str_eq (ioc.ioc_type) t && str_eq (value_of py source now ioc) v

  -- the sighting after a feed, from the one before
  abbrev pub after_feed : String → String → List Ioc → Option ℕ → Option ℕ
  after_feed t v [] before = before
  after_feed t v (ioc ∷ iocs) before =
      after_feed t v iocs (if names t v ioc then oldest (ioc.first_seen) before else before)

  -- What a feed does to the rows of its source.
  pub record Merged (iocs : List Ioc) (rows : List ThreatIntelIoc) (counts : Counts)
      (rows' : List ThreatIntelIoc) (counts' : Counts) : Type 0 where
    pub present :
        (t v : String)
        → any_of (same_ioc source t v) rows'
          ≡ (any_of (same_ioc source t v) rows || any_of (names t v) iocs)
    pub seen :
        (t v : String)
        → sighted (same_ioc source t v) rows'
          ≡ after_feed t v iocs (sighted (same_ioc source t v) rows)
    pub single :
        (t v : String)
        → length (keep (same_ioc source t v) rows) ≤ 1
        → length (keep (same_ioc source t v) rows') ≤ 1
    pub others : from_others source rows' ≡ from_others source rows
    pub grown : length rows' + counts.inserted ≡ length rows + counts'.inserted
    pub counted : total counts' ≡ total counts + length (keep (is_valid py source now) iocs)

  merge_ioc-skipped :
      (ioc : Ioc) (m : MergeState)
      → is_valid py source now ioc ≡ false
      → merge_ioc py source now ioc m ≡ m
  unfolding merge_ioc
  merge_ioc-skipped ioc m skipped = rw skipped refl

  merge_ioc-valid :
      (ioc : Ioc) (m : MergeState)
      → is_valid py source now ioc ≡ true
      → merge_ioc py source now ioc m ≡ merge_valid py source now ioc m
  unfolding merge_ioc
  merge_ioc-valid ioc m valid = rw valid refl

  merge_skipped :
      (ioc : Ioc) (iocs : List Ioc) (rows rows' : List ThreatIntelIoc) (counts counts' : Counts)
      → is_valid py source now ioc ≡ false
      → Merged iocs rows counts rows' counts'
      → Merged (ioc ∷ iocs) rows counts rows' counts'
  merge_skipped ioc iocs rows rows' counts counts' skipped rest = record {
    present = λ t v. ground (arith, rest.present t v, skipped);
    seen = λ t v. rw skipped (rest.seen t v);
    single = rest.single;
    others = rest.others;
    grown = rest.grown;
    counted = rw skipped (rest.counted);
  }

  merge_taken :
      (ioc : Ioc) (iocs : List Ioc) (m m' : MergeState) (rows' : List ThreatIntelIoc)
      (counts' : Counts)
      → is_valid py source now ioc ≡ true
      → Stepped py source now ioc m m'
      → Merged iocs (rows_of m') (m'.counts) rows' counts'
      → Merged (ioc ∷ iocs) (rows_of m) (m.counts) rows' counts'
  merge_taken ioc iocs m m' rows' counts' valid step rest = record {
    present = λ t v. present_at t v;
    seen = λ t v. rest.seen t v ∙ ap (after_feed t v iocs) (seen_at t v);
    single = λ t v h. rest.single t v (step.taken.single t v h);
    others = rest.others ∙ step.taken.others;
    grown = omega (arith, rest.grown, step.grown);
    counted = rw valid (omega (arith, rest.counted, step.counted));
  }
    where
      hit : String → String → Bool
      hit t v = str_eq (ioc.ioc_type) t && str_eq (value_of py source now ioc) v

      type_is : (t v : String) → hit t v ≡ true → ioc.ioc_type ≡ t
      type_is t v h = ground (arith, h, eq_iff (ioc.ioc_type) t)

      value_is : (t v : String) → hit t v ≡ true → value_of py source now ioc ≡ v
      value_is t v h = ground (arith, h, eq_iff (value_of py source now ioc) v)

      present_here :
          (t v : String)
          → ioc.ioc_type ≡ t
          → value_of py source now ioc ≡ v
          → any_of (same_ioc source t v) (rows_of m') ≡ true
      present_here t v e f =
          subst (λ u. any_of (same_ioc source u v) (rows_of m') ≡ true) e
            (subst (λ w. any_of (same_ioc source (ioc.ioc_type) w) (rows_of m') ≡ true) f
              (step.taken.present))

      seen_here :
          (t v : String)
          → ioc.ioc_type ≡ t
          → value_of py source now ioc ≡ v
          → sighted (same_ioc source t v) (rows_of m')
            ≡ earliest (ioc.first_seen) (sighted (same_ioc source t v) (rows_of m))
      seen_here t v e f =
          subst
            (λ u.
              sighted (same_ioc source u v) (rows_of m')
              ≡ earliest (ioc.first_seen) (sighted (same_ioc source u v) (rows_of m)))
            e
            (subst
              (λ w.
                sighted (same_ioc source (ioc.ioc_type) w) (rows_of m')
                ≡ earliest (ioc.first_seen)
                    (sighted (same_ioc source (ioc.ioc_type) w) (rows_of m)))
              f (step.taken.seen))

      present_at :
          (t v : String)
          → any_of (same_ioc source t v) rows' ≡ (
              any_of (same_ioc source t v) (rows_of m)
              || (names t v ioc || any_of (names t v) iocs))
      present_at t v = elim (Bool-cases (hit t v)) [
        | inl here ↦ ground (
          arith,
          rest.present t v,
          present_here t v (type_is t v here) (value_is t v here),
          valid,
          here,
        )
        | inr d ↦ ground (arith, rest.present t v, step.taken.present_other t v d, valid, d)
      ]

      seen_at :
          (t v : String)
          → sighted (same_ioc source t v) (rows_of m') ≡ (
              if names t v ioc
              then oldest (ioc.first_seen) (sighted (same_ioc source t v) (rows_of m))
              else sighted (same_ioc source t v) (rows_of m))
      seen_at t v = elim (Bool-cases (hit t v)) [
        | inl here ↦
            seen_here t v (type_is t v here) (value_is t v here)
            ∙ earliest-oldest (ioc.first_seen) _
            ∙ rw (valid, here) refl
        | inr d ↦ step.taken.seen_other t v d ∙ rw (valid, d) refl
      ]

  merge_iocs-Merged :
      (iocs : List Ioc) (m : MergeState)
      → Apart py source now m
      → Merged iocs
          (rows_of m)
          (m.counts)
          (rows_of (merge_iocs py source now iocs m))
          ((merge_iocs py source now iocs m).counts)
  unfolding merge_iocs merge_ioc
  merge_iocs-Merged [] m apart = record {
    present = λ t v. ground arith;
    seen = λ t v. refl;
    single = λ t v h. h;
    others = refl;
    grown = refl;
    counted = omega arith;
  }
  merge_iocs-Merged (ioc ∷ iocs) m apart = elim (Bool-cases (is_valid py source now ioc)) [
    | inr skipped ↦
        subst
          (λ n.
            Merged (ioc ∷ iocs) (rows_of m) (m.counts) (rows_of (merge_iocs py source now iocs n))
              ((merge_iocs py source now iocs n).counts))
          (sym (merge_ioc-skipped ioc m skipped))
          (merge_skipped ioc iocs _ _ _ _ skipped (merge_iocs-Merged iocs m apart))
    | inl valid ↦
        let step = merge_valid-Stepped py source now ioc m apart in
        subst
          (λ n.
            Merged (ioc ∷ iocs) (rows_of m) (m.counts) (rows_of (merge_iocs py source now iocs n))
              ((merge_iocs py source now iocs n).counts))
          (sym (merge_ioc-valid ioc m valid))
          (merge_taken ioc iocs m (merge_valid py source now ioc m) _ _ valid step
            (merge_iocs-Merged iocs _ step.apart))
  ]

  -- A refresh takes in every valid entry of the feed and nothing else: the rows of the source then
  -- have exactly the keys that they had and those of valid entries, each key has as first sighting
  -- the earliest of its old one and those in the feed, and no key has two rows if none had. The rows
  -- of the other sources stay as they are, as many rows are added as are counted as inserted, and
  -- every valid entry is counted once, as inserted, updated or deduped.
  pub refresh_source-Merged :
      (iocs : List Ioc) (table : List ThreatIntelIoc)
      → Merged iocs table no_counts
          (refresh_source py now source iocs table).1
          (refresh_source py now source iocs table).0
  unfolding refresh_source
  refresh_source-Merged iocs table =
      subst
        (λ rows.
          Merged iocs rows no_counts (refresh_source py now source iocs table).1
            (refresh_source py now source iocs table).0)
        (append-nil table)
        (merge_iocs-Merged iocs (record { table = table; pending_new = []; counts = no_counts })
          (λ t v. ground arith))
