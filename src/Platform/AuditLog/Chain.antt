-- ===== src/Platform/AuditLog/Chain.antt =====
-- The chain of hashes (audit_logger.py): what verification establishes, and what it cannot see.
use ai_soc.Prelude.{
  ℕ, suc, ◌+◌, String, ◌≡◌, refl, ◌∙◌, ap, true, List, [], ◌∷◌, ◌++◌, str_eq, arith, eq_iff, length,
  length-append, Bool-cases, inl, inr,
}
use ai_soc.Platform.AuditLog.{
  AuditRow, Hashing, genesis, latest_hash, payload, compute_hash, new_row, log_event, verify_from,
  verify_chain_integrity,
}

-- Every row names the hash of the row before it and carries the hash of its own fields.
abbrev pub Linked : Hashing → String → List AuditRow → Type 0
Linked hs expected [] = Unit {0}
Linked hs expected (r ∷ rows) =
    (r.prev_hash ≡ expected) × (compute_hash hs r ≡ r.record_hash) × Linked hs r.record_hash rows

module _ (hs : Hashing) where
  verify_from_complete :
      (expected : String) (n : ℕ) (rows : List AuditRow)
      → Linked hs expected rows
      → verify_from hs expected n rows ≡ (true, n + length rows)
  unfolding verify_from
  verify_from_complete expected n [] h = ap (λ k. (true, k)) (omega arith)
  verify_from_complete expected n (r ∷ rows) (prev, own, rest) =
      let linked : str_eq r.prev_hash expected ≡ true = (eq_iff r.prev_hash expected).1 prev in
      let sealed : str_eq (compute_hash hs r) r.record_hash ≡ true =
        (eq_iff (compute_hash hs r) r.record_hash).1 own in
      rw (linked, sealed, verify_from_complete r.record_hash (suc n) rows rest)
        (ap (λ k. (true, k)) (omega arith))

  verify_from_sound :
      (expected : String) (n : ℕ) (rows : List AuditRow)
      → (verify_from hs expected n rows).0 ≡ true
      → Linked hs expected rows
  unfolding verify_from
  verify_from_sound expected n [] h = tt
  verify_from_sound expected n (r ∷ rows) h = elim (Bool-cases (str_eq r.prev_hash expected)) [
    | inr broken ↦ cc (rw broken at h)
    | inl linked ↦ elim (Bool-cases (str_eq (compute_hash hs r) r.record_hash)) [
      | inr tampered ↦ cc (rw (linked, tampered) at h)
      | inl own ↦ (
        (eq_iff r.prev_hash expected).0 linked,
        (eq_iff (compute_hash hs r) r.record_hash).0 own,
        verify_from_sound r.record_hash (suc n) rows (rw (linked, own) at h),
      )
    ]
  ]

  verify_complete :
      (rows : List AuditRow)
      → Linked hs genesis rows
      → verify_chain_integrity hs rows ≡ (true, length rows)
  unfolding verify_chain_integrity
  verify_complete rows h = verify_from_complete genesis 0 rows h ∙ ap (λ k. (true, k)) (omega arith)

  -- Verification succeeds exactly on the tables whose rows are linked, and then counts all of them.
  pub verify-Linked :
      (rows : List AuditRow)
      → (Linked hs genesis rows → verify_chain_integrity hs rows ≡ (true, length rows))
        × ((verify_chain_integrity hs rows).0 ≡ true → Linked hs genesis rows)
  unfolding verify_chain_integrity
  verify-Linked rows = (verify_complete rows, verify_from_sound genesis 0 rows)

  Linked-snoc :
      (expected : String) (rows : List AuditRow) (r : AuditRow)
      → Linked hs expected rows
      → r.prev_hash ≡ latest_hash expected rows
      → compute_hash hs r ≡ r.record_hash
      → Linked hs expected (rows ++ r ∷ [])
  unfolding latest_hash
  Linked-snoc expected [] r h prev own = (prev, own, tt)
  Linked-snoc expected (x ∷ rows) r (p, o, rest) prev own =
      (p, o, Linked-snoc x.record_hash rows r rest prev own)

  -- Logging an event keeps a table that verifies verifying, with one row more.
  pub verify-log_event :
      (id : String) (ts : ℕ) (rows : List AuditRow)
      (event_type user_id resource_type resource_id action status : String)
      → (verify_chain_integrity hs rows).0 ≡ true
      → verify_chain_integrity hs
          (log_event hs id ts rows event_type user_id resource_type resource_id action status).1
        ≡ (true, suc (length rows))
  unfolding log_event new_row verify_chain_integrity payload
  verify-log_event id ts rows event_type user_id resource_type resource_id action status h =
      let row = new_row hs id ts rows event_type user_id resource_type resource_id action status in
      let out =
        log_event hs id ts rows event_type user_id resource_type resource_id action status in
      let linked = verify_from_sound genesis 0 rows h in
      verify_complete out.1 (Linked-snoc genesis rows row linked refl refl)
      ∙ ap (λ k. (true, k)) (length-append rows (row ∷ []) ∙ omega arith)

  Linked-prefix :
      (expected : String) (xs ys : List AuditRow)
      → Linked hs expected (xs ++ ys)
      → Linked hs expected xs
  Linked-prefix expected [] ys h = tt
  Linked-prefix expected (x ∷ xs) ys (p, o, rest) = (p, o, Linked-prefix x.record_hash xs ys rest)

  -- Deleting the newest rows is not detected: what is left of a table that verifies verifies.
  pub verify-truncated :
      (xs ys : List AuditRow)
      → (verify_chain_integrity hs (xs ++ ys)).0 ≡ true
      → verify_chain_integrity hs xs ≡ (true, length xs)
  unfolding verify_chain_integrity
  verify-truncated xs ys h =
      verify_complete xs (Linked-prefix genesis xs ys (verify_from_sound genesis 0 (xs ++ ys) h))
