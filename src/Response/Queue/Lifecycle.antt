-- ===== src/Response/Queue/Lifecycle.antt =====
-- What a poll hands out (response/api.py).
use ai_soc.Prelude.{
  ℕ, zero, suc, ◌≤◌, String, ◌≡◌, refl, sym, ap, ◌∙◌, inl, inr, Bool, true, List, [], ◌∷◌, map,
  ◌==◌, ==_refl, leb, arith, eq_iff, any_of, keep, take, All, length, length-take-le, Bool-cases,
}
use ai_soc.Store.{DeviceCommand, delivered, Db}
use ai_soc.Response.Queue.{
  ok, insert_by_age, sort_by_age, is_offered, poll_limit, offered, deliver, write_delivered,
  is_agent, poll_commands,
}

-- A command of this tenant and device that is marked as delivered.
pub record HandedOut (tenant_id : ℕ) (device_id : String) (c : DeviceCommand) : Type 0 where
  pub tenant : c.tenant_id ≡ tenant_id
  pub device : c.device_id ≡ device_id
  pub status : c.status ≡ delivered

module _ (t : ℕ) (d : String) where
  Offered : DeviceCommand → Type 0
  Offered c = is_offered t d c ≡ true

  keep-Offered : (cs : List DeviceCommand) → All Offered (keep (is_offered t d) cs)
  unfolding Offered
  keep-Offered [] = tt
  keep-Offered (c ∷ cs) = elim (Bool-cases (is_offered t d c)) [
    | inl y ↦ rw y (y, keep-Offered cs)
    | inr n ↦ rw n (keep-Offered cs)
  ]

  insert-Offered :
      (c : DeviceCommand) (cs : List DeviceCommand)
      → Offered c
      → All Offered cs
      → All Offered (insert_by_age c cs)
  insert-Offered c [] h hs = (h, tt)
  insert-Offered c (x ∷ cs) h hs = elim (Bool-cases (leb c.created_at x.created_at)) [
    | inl y ↦ rw y (h, hs)
    | inr n ↦ rw n (hs.0, insert-Offered c cs h hs.1)
  ]

  sort-Offered : (cs : List DeviceCommand) → All Offered cs → All Offered (sort_by_age cs)
  sort-Offered [] h = tt
  sort-Offered (c ∷ cs) h = insert-Offered c (sort_by_age cs) h.0 (sort-Offered cs h.1)

  take-Offered : (n : ℕ) (cs : List DeviceCommand) → All Offered cs → All Offered (take n cs)
  take-Offered zero cs h = tt
  take-Offered (suc n) [] h = tt
  take-Offered (suc n) (c ∷ cs) h = (h.0, take-Offered n cs h.1)

  deliver-HandedOut : (c : DeviceCommand) → Offered c → HandedOut t d (deliver c)
  unfolding Offered
  deliver-HandedOut c h = ground (arith, eq_iff c.device_id d)

  map-HandedOut : (cs : List DeviceCommand) → All Offered cs → All (HandedOut t d) (map deliver cs)
  map-HandedOut [] h = tt
  map-HandedOut (c ∷ cs) h = (deliver-HandedOut c h.0, map-HandedOut cs h.1)

  -- Rows that agree on what the query reads.
  AgeBlind : (DeviceCommand → DeviceCommand) → Type 0
  AgeBlind f =
      (c : DeviceCommand)
      → ((f c).created_at ≡ c.created_at) × (is_offered t d (f c) ≡ is_offered t d c)

  module _ (f : DeviceCommand → DeviceCommand) (blind : AgeBlind f) where
    keep-map :
        (cs : List DeviceCommand)
        → keep (is_offered t d) (map f cs) ≡ map f (keep (is_offered t d) cs)
    unfolding AgeBlind
    keep-map [] = refl
    keep-map (c ∷ cs) = elim (Bool-cases (is_offered t d c)) [
      | inl y ↦ rw ((blind c).1, y, keep-map cs)
      | inr n ↦ rw ((blind c).1, n, keep-map cs)
    ]

    insert-map :
        (c : DeviceCommand) (cs : List DeviceCommand)
        → insert_by_age (f c) (map f cs) ≡ map f (insert_by_age c cs)
    unfolding AgeBlind
    insert-map c [] = refl
    insert-map c (x ∷ cs) = ground (arith, blind c, blind x, insert-map c cs)

    sort-map : (cs : List DeviceCommand) → sort_by_age (map f cs) ≡ map f (sort_by_age cs)
    sort-map [] = refl
    sort-map (c ∷ cs) = rw (sort-map cs) (insert-map c (sort_by_age cs))

    take-map : (n : ℕ) (cs : List DeviceCommand) → take n (map f cs) ≡ map f (take n cs)
    take-map zero cs = refl
    take-map (suc n) [] = refl
    take-map (suc n) (c ∷ cs) = rw (take-map n cs)

    offered-map : (cs : List DeviceCommand) → offered t d (map f cs) ≡ map f (offered t d cs)
    unfolding offered
    offered-map cs =
        rw (keep-map cs, sort-map (keep (is_offered t d) cs))
          (take-map poll_limit (sort_by_age (keep (is_offered t d) cs)))

-- Membership of ids in a batch.
in_batch : List DeviceCommand → DeviceCommand → Bool
in_batch batch c = any_of (λ b. b.id == c.id) batch

module _ (t : ℕ) (d : String) (batch : List DeviceCommand) where
  write_delivered-AgeBlind : AgeBlind t d (write_delivered batch)
  unfolding AgeBlind
  write_delivered-AgeBlind c = ground arith

  map-write_delivered :
      (cs : List DeviceCommand)
      → All (λ c. in_batch batch c ≡ true) cs
      → map (write_delivered batch) cs ≡ map deliver cs
  unfolding in_batch
  map-write_delivered [] h = refl
  map-write_delivered (c ∷ cs) h = rw (h.0, map-write_delivered cs h.1)

in_batch-cons :
    (b : DeviceCommand) (batch cs : List DeviceCommand)
    → All (λ c. in_batch batch c ≡ true) cs
    → All (λ c. in_batch (b ∷ batch) c ≡ true) cs
unfolding in_batch
in_batch-cons b batch [] h = tt
in_batch-cons b batch (c ∷ cs) h = (ground arith, in_batch-cons b batch cs h.1)

in_batch_self : (batch : List DeviceCommand) → All (λ c. in_batch batch c ≡ true) batch
in_batch_self [] = tt
in_batch_self (b ∷ batch) =
    (unfold in_batch in rw (==_refl b.id), in_batch-cons b batch batch (in_batch_self batch))

length-map :
    (f : DeviceCommand → DeviceCommand) (cs : List DeviceCommand) → length (map f cs) ≡ length cs
length-map f [] = refl
length-map f (c ∷ cs) = ap suc (length-map f cs)

deliver_twice : (cs : List DeviceCommand) → map deliver (map deliver cs) ≡ map deliver cs
deliver_twice [] = refl
deliver_twice (c ∷ cs) = ground (arith, deliver_twice cs)

module _ (agents : List (ℕ × String)) (db db' : Db) (t : ℕ) (d : String) (r : List DeviceCommand)
    (polled : poll_commands agents db t d ≡ ok (r, db')) where
  abbrev pub batch_polled : List DeviceCommand
  batch_polled = offered t d db.commands

  pub poll_inversion :
      (is_agent t d agents ≡ true)
      × (r ≡ map deliver batch_polled)
      × (db'.commands ≡ map (write_delivered batch_polled) db.commands)
  unfolding poll_commands
  poll_inversion = ground arith

  -- A poll that answers hands out at most 50 commands, all of them for the tenant and the device
  -- that asked, and all marked as delivered.
  pub poll-HandedOut : All (HandedOut t d) r × (length r ≤ 50)
  unfolding offered
  poll-HandedOut =
      let live = keep (is_offered t d) db.commands in
      let sorted = sort_by_age live in
      rw (poll_inversion.1) (
        map-HandedOut t d (take poll_limit sorted) (
            take-Offered t d poll_limit sorted
              (sort-Offered t d live (keep-Offered t d db.commands))),
        omega
            (arith, length-map deliver (take poll_limit sorted), length-take-le poll_limit sorted),
      )

  poll_again : map deliver (offered t d db'.commands) ≡ r
  poll_again =
      let b = batch_polled in
      let answer = λ (cs : List DeviceCommand). map deliver (offered t d cs) in
      ap answer poll_inversion.2
      ∙ ap (map deliver) (
          offered-map t d (write_delivered b) (write_delivered-AgeBlind t d b) db.commands
          ∙ map-write_delivered t d b b (in_batch_self b))
      ∙ deliver_twice b
      ∙ sym poll_inversion.1

  -- A command that was handed out and not acknowledged is not lost: polling again at once answers
  -- with the same commands.
  pub poll_twice : (again : Db) × (poll_commands agents db' t d ≡ ok (r, again))
  unfolding poll_commands
  poll_twice =
      let again : Db = record db' {
        commands = map (write_delivered (offered t d db'.commands)) db'.commands;
      } in
      (again, rw (poll_inversion.0, poll_again))
