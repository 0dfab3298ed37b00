-- ===== src/Intel/Isolation.antt =====
-- What one source does to the rows of another in a refresh of all (backend/app/intel/refresh.py,
-- refresh_all).
use ai_soc.Prelude.{
  String, ℕ, ◌≡◌, refl, sym, ap, ◌∙◌, subst, inl, inr, true, false, ◌||◌, List, [], ◌∷◌, str_eq,
  eq_iff, any_of, mem_str, keep, Bool-cases, arith,
}
use ai_soc.Python.{Python}
use ai_soc.Intel.{Ioc, ThreatIntelIoc, same_ioc, refresh_source}
use ai_soc.Intel.Rows.{sighted, from_others}
use ai_soc.Intel.Refresh.{names, after_feed, refresh_source-Merged}
use ai_soc.Intel.Feeds.{
  Fetched, feed, source_error, unexpected, Refresh, source_names, refresh_one, refresh_names,
  refresh_all,
}

-- the entries of a feed that answered
abbrev pub feed_of : Fetched → List Ioc
feed_of (feed iocs) = iocs
feed_of _ = []

any_of-from_others :
    (source name t v : String) (rows : List ThreatIntelIoc)
    → str_eq name source ≡ false
    → any_of (same_ioc source t v) (from_others name rows) ≡ any_of (same_ioc source t v) rows
any_of-from_others source name t v [] d = refl
any_of-from_others source name t v (row ∷ rows) d = ground (
  arith,
  any_of-from_others source name t v rows d,
  d,
  eq_iff (row.source) name,
  eq_iff (row.source) source,
  eq_iff name source,
)

sighted-from_others :
    (source name t v : String) (rows : List ThreatIntelIoc)
    → str_eq name source ≡ false
    → sighted (same_ioc source t v) (from_others name rows) ≡ sighted (same_ioc source t v) rows
sighted-from_others source name t v [] d = refl
sighted-from_others source name t v (row ∷ rows) d = ground (
  arith,
  sighted-from_others source name t v rows d,
  d,
  eq_iff (row.source) name,
  eq_iff (row.source) source,
  eq_iff name source,
)

-- the rows of a source
abbrev pub own : String → List ThreatIntelIoc → List ThreatIntelIoc
own source = keep (λ row. str_eq (row.source) source)

own-from_others :
    (source name : String) (rows : List ThreatIntelIoc)
    → str_eq name source ≡ false
    → own source (from_others name rows) ≡ own source rows
own-from_others source name [] d = refl
own-from_others source name (row ∷ rows) d = ground (
  arith,
  own-from_others source name rows d,
  d,
  eq_iff (row.source) name,
  eq_iff (row.source) source,
  eq_iff name source,
)

module _ (py : Python) (now : ℕ) (fetch : String → Fetched) (source : String) where
  -- the table after the refresh of the source alone, as it was where its feed failed
  abbrev pub alone : Fetched → List ThreatIntelIoc → List ThreatIntelIoc
  alone (feed iocs) rows = (refresh_source py now source iocs rows).1
  alone _ rows = rows

  -- The turn of the source in a refresh of all: `at` is the table at that turn, with its rows as they
  -- were before the refresh, and the turn is all that changes them.
  pub record Turn (fetched : Fetched) (rows rows' : List ThreatIntelIoc) : Type 0 where
    pub at : List ThreatIntelIoc
    pub before : own source at ≡ own source rows
    pub after : own source rows' ≡ own source (alone fetched at)

  own_other :
      (name : String) (fetched : Fetched) (s : Refresh)
      → str_eq name source ≡ false
      → own source ((refresh_one py now fetch name fetched s).1.table) ≡ own source (s.table)
  unfolding refresh_one
  own_other name (feed iocs) s d =
      let m = refresh_source-Merged py name now iocs (s.table) in
      sym (own-from_others source name _ d)
      ∙ ap (own source) (m.others)
      ∙ own-from_others source name (s.table) d
  own_other name (source_error e) s d = refl
  own_other name (unexpected e) s d = refl

  own_others :
      (ns : List String) (s : Refresh)
      → mem_str source ns ≡ false
      → own source ((refresh_names py now fetch ns s).1.table) ≡ own source (s.table)
  unfolding refresh_names
  own_others [] s h = refl
  own_others (name ∷ ns) s h =
      own_others ns _ (ground (arith, h)) ∙ own_other name (fetch name) s (ground (arith, h))

  own_turn :
      (fetched : Fetched) (s : Refresh)
      → own source ((refresh_one py now fetch source fetched s).1.table)
        ≡ own source (alone fetched (s.table))
  unfolding refresh_one
  own_turn (feed iocs) s = refl
  own_turn (source_error e) s = refl
  own_turn (unexpected e) s = refl

  -- What the rows of the source say of a key, after its own feed or after none.
  pub record Says (iocs : List Ioc) (rows rows' : List ThreatIntelIoc) : Type 0 where
    pub present :
        (t v : String)
        → any_of (same_ioc source t v) rows'
          ≡ (any_of (same_ioc source t v) rows || any_of (names py source now t v) iocs)
    pub seen :
        (t v : String)
        → sighted (same_ioc source t v) rows'
          ≡ after_feed py source now t v iocs (sighted (same_ioc source t v) rows)

  unchanged : (rows : List ThreatIntelIoc) → Says [] rows rows
  unchanged rows = record { present = λ t v. ground arith; seen = λ t v. refl }

  then_unchanged :
      (iocs : List Ioc) (xs ys zs : List ThreatIntelIoc)
      → Says iocs xs ys
      → Says [] ys zs
      → Says iocs xs zs
  then_unchanged iocs xs ys zs m n = record {
    present = λ t v. ground (arith, m.present t v, n.present t v);
    seen = λ t v. n.seen t v ∙ m.seen t v;
  }

  unchanged_then :
      (iocs : List Ioc) (xs ys zs : List ThreatIntelIoc)
      → Says [] xs ys
      → Says iocs ys zs
      → Says iocs xs zs
  unchanged_then iocs xs ys zs m n = record {
    present = λ t v. ground (arith, m.present t v, n.present t v);
    seen = λ t v. n.seen t v ∙ ap (after_feed py source now t v iocs) (m.seen t v);
  }

  own_round :
      (fetched : Fetched) (s : Refresh)
      → Says (feed_of fetched) (s.table) ((refresh_one py now fetch source fetched s).1.table)
  unfolding refresh_one
  own_round (feed iocs) s =
      let m = refresh_source-Merged py source now iocs (s.table) in
      record { present = m.present; seen = m.seen }
  own_round (source_error e) s = unchanged (s.table)
  own_round (unexpected e) s = unchanged (s.table)

  other_round :
      (name : String) (fetched : Fetched) (s : Refresh)
      → str_eq name source ≡ false
      → Says [] (s.table) ((refresh_one py now fetch name fetched s).1.table)
  unfolding refresh_one
  other_round name (feed iocs) s d =
      let m = refresh_source-Merged py name now iocs (s.table) in
      record {
        present = λ t v.
            sym (any_of-from_others source name t v _ d)
            ∙ ap (any_of (same_ioc source t v)) (m.others)
            ∙ any_of-from_others source name t v (s.table) d
            ∙ ground arith;
        seen = λ t v.
            sym (sighted-from_others source name t v _ d)
            ∙ ap (sighted (same_ioc source t v)) (m.others)
            ∙ sighted-from_others source name t v (s.table) d;
      }
  other_round name (source_error e) s d = unchanged (s.table)
  other_round name (unexpected e) s d = unchanged (s.table)

  other_rounds :
      (ns : List String) (s : Refresh)
      → mem_str source ns ≡ false
      → Says [] (s.table) ((refresh_names py now fetch ns s).1.table)
  unfolding refresh_names
  other_rounds [] s h = unchanged (s.table)
  other_rounds (name ∷ ns) s h =
      let first = other_round name (fetch name) s (ground (arith, h)) in
      then_unchanged [] _ _ _ first (other_rounds ns _ (ground (arith, h)))

  -- names that differ
  abbrev OnceEach : List String → Type 0
  OnceEach [] = Unit
  OnceEach (n ∷ ns) = (mem_str n ns ≡ false) × OnceEach ns

  its_round :
      (ns : List String) (s : Refresh)
      → OnceEach ns
      → mem_str source ns ≡ true
      → Says (feed_of (fetch source)) (s.table) ((refresh_names py now fetch ns s).1.table)
  unfolding refresh_names
  its_round [] s once h = ground (arith, h)
  its_round (name ∷ ns) s once h = elim (Bool-cases (str_eq name source)) [
    | inl here ↦
        let e : name ≡ source = (eq_iff name source).0 here in
        let own = own_round (fetch source) s in
        let absent : mem_str source ns ≡ false = subst (λ n. mem_str n ns ≡ false) e once.0 in
        subst
          (λ n.
            Says (feed_of (fetch source)) (s.table)
              ((refresh_names py now fetch ns (refresh_one py now fetch n (fetch n) s).1).1.table))
          (sym e) (then_unchanged _ _ _ _ own (other_rounds ns _ absent))
    | inr other ↦
        unchanged_then _ _ _ _ (other_round name (fetch name) s other)
          (its_round ns _ once.1 (ground (arith, h, other)))
  ]

  its-Turn :
      (ns : List String) (s : Refresh)
      → OnceEach ns
      → mem_str source ns ≡ true
      → Turn (fetch source) (s.table) ((refresh_names py now fetch ns s).1.table)
  unfolding refresh_names
  its-Turn [] s once h = ground (arith, h)
  its-Turn (name ∷ ns) s once h = elim (Bool-cases (str_eq name source)) [
    | inl here ↦
        let e : name ≡ source = (eq_iff name source).0 here in
        let absent : mem_str source ns ≡ false = subst (λ n. mem_str n ns ≡ false) e once.0 in
        subst
          (λ n.
            Turn (fetch source) (s.table)
              ((refresh_names py now fetch ns (refresh_one py now fetch n (fetch n) s).1).1.table))
          (sym e)
          (record {
            at = s.table;
            before = refl;
            after = own_others ns _ absent ∙ own_turn (fetch source) s;
          })
    | inr other ↦
        let rest = its-Turn ns _ once.1 (ground (arith, h, other)) in
        record {
          at = rest.at;
          before = rest.before ∙ own_other name (fetch name) s other;
          after = rest.after;
        }
  ]

  -- After a refresh of all sources, each source stands as its own feed says, whatever happens with
  -- the other two, and whichever of the calls of the feeds fail. The rows of a source whose feed
  -- failed are exactly those that were there. Those of a source whose feed answered are the ones
  -- that its refresh alone leaves on a table with the same rows of the source: they have exactly the
  -- keys that they had and those of the valid entries of the feed, with the earliest first sighting
  -- of each.
  pub refresh_all-isolates :
      (s : Refresh)
      → mem_str source source_names ≡ true
      → Turn (fetch source) (s.table) ((refresh_all py now fetch s).1.table)
        × Says (feed_of (fetch source)) (s.table) ((refresh_all py now fetch s).1.table)
  unfolding refresh_all
  refresh_all-isolates s h = (
    its-Turn source_names s (refl, (refl, (refl, tt))) h,
    its_round source_names s (refl, (refl, (refl, tt))) h,
  )
