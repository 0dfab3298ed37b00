-- ===== src/Response/Queue/Progress.antt =====
-- How a command moves from pending to delivered to acknowledged or failed (response/api.py).
use ai_soc.Prelude.{
  some_inj, ℕ, String, ◌≡◌, refl, ◌≢◌, sym, subst, ◌∙◌, inl, inr, true, false, ◌&&◌, none, some,
  List, [], ◌∷◌, map, ◌==◌, ==_iff, arith, any_of, All, Bool-cases, Option-cases,
}
use ai_soc.Response.Queue.Lifecycle.{poll_inversion}
use ai_soc.Json.{Fields}
use ai_soc.Store.{DeviceCommand, CommandStatus, pending, Db, is_live}
use ai_soc.Response.Queue.{
  ok, err, offered, deliver, write_delivered, poll_commands, ack_status, find_command, write_ack,
  ack_row, ack_command, conflict,
}

-- One step in the life of a row: nothing but its status, time and result changes, an answered
-- command stays as it is, and no command becomes pending.
pub record Progress (c c' : DeviceCommand) : Type 0 where
  pub id : c'.id ≡ c.id
  pub tenant : c'.tenant_id ≡ c.tenant_id
  pub device : c'.device_id ≡ c.device_id
  pub action : c'.action ≡ c.action
  pub params : c'.params ≡ c.params
  pub created : c'.created_at ≡ c.created_at
  pub final : is_live c.status ≡ false → c' ≡ c
  pub no_return : c'.status ≡ pending → c.status ≡ pending

-- One row of a table on which the command `id` of the tenant `t` is acknowledged at `now`.
pub record Answered (t id now : ℕ) (text : String) (result : Fields) (c c' : DeviceCommand)
    : Type 0 where
  pub progress : Progress c c'
  pub elsewhere : c.id ≢ id → c' ≡ c
  pub tenant : c.id ≡ id → c.tenant_id ≡ t
  pub live : c.id ≡ id → is_live c.status ≡ true
  pub status : c.id ≡ id → ack_status text ≡ some c'.status
  pub time : c.id ≡ id → c'.acked_at ≡ some now
  pub outcome : c.id ≡ id → c'.result ≡ some result

-- Two tables row by row.
abbrev pub RowByRow :
    (DeviceCommand → DeviceCommand → Type 0) → List DeviceCommand → List DeviceCommand → Type 0
RowByRow R [] [] = Unit {0}
RowByRow R (c ∷ cs) (c' ∷ cs') = R c c' × RowByRow R cs cs'
RowByRow R _ _ = ⊥

Progress-refl : (c : DeviceCommand) → Progress c c
Progress-refl c = ground arith

deliver-Progress : (c : DeviceCommand) → Progress c (deliver c)
deliver-Progress c = ground arith

write_delivered-Progress :
    (batch cs : List DeviceCommand) → RowByRow Progress cs (map (write_delivered batch) cs)
write_delivered-Progress batch [] = tt
write_delivered-Progress batch (c ∷ cs) = elim (Bool-cases (any_of (λ b. b.id == c.id) batch)) [
  | inl y ↦ rw y (deliver-Progress c, write_delivered-Progress batch cs)
  | inr n ↦ rw n (Progress-refl c, write_delivered-Progress batch cs)
]

-- `id` is the primary key of the table.
abbrev pub HasKey : List DeviceCommand → Type 0
HasKey [] = Unit {0}
HasKey (c ∷ cs) = All (λ x. c.id ≢ x.id) cs × HasKey cs

module _ (id t now : ℕ) (s : CommandStatus) (text : String) (result : Fields)
    (good : ack_status text ≡ some s) (answered : is_live s ≡ false) where
  untouched : (c : DeviceCommand) → id ≢ c.id → Answered t id now text result c c
  untouched c other = record {
    progress = Progress-refl c;
    elsewhere = λ h. refl;
    tenant = λ h. absurd (other (sym h));
    live = λ h. absurd (other (sym h));
    status = λ h. absurd (other (sym h));
    time = λ h. absurd (other (sym h));
    outcome = λ h. absurd (other (sym h));
  }

  write_ack_other :
      (cs : List DeviceCommand)
      → All (λ x. id ≢ x.id) cs
      → RowByRow (Answered t id now text result) cs (map (write_ack id s now result) cs)
  write_ack_other [] h = tt
  write_ack_other (c ∷ cs) h = elim (Bool-cases (c.id == id)) [
    | inl hit ↦ absurd (h.0 (sym ((==_iff c.id id).0 hit)))
    | inr miss ↦ rw miss (untouched c h.0, write_ack_other cs h.1)
  ]

  answer-Progress :
      (c : DeviceCommand)
      → is_live c.status ≡ true
      → Progress c (record c { status = s; acked_at = some now; result = some result })
  answer-Progress c live = ground arith

  row-Answered :
      (c : DeviceCommand)
      → c.id ≡ id
      → c.tenant_id ≡ t
      → is_live c.status ≡ true
      → Answered t id now text result c
          (record c { status = s; acked_at = some now; result = some result })
  row-Answered c own mine live = record {
    progress = answer-Progress c live;
    elsewhere = λ h. absurd (h own);
    tenant = λ h. mine;
    live = λ h. live;
    status = λ h. good;
    time = λ h. refl;
    outcome = λ h. refl;
  }

  find_command-id :
      (cs : List DeviceCommand) (c : DeviceCommand)
      → find_command id t cs ≡ some c
      → (P : DeviceCommand → Type 0) → All P cs
      → (c.id ≡ id) × P c
  find_command-id [] c h P all = cc
  find_command-id (x ∷ cs) c h P all = elim (Bool-cases ((x.id == id) && (x.tenant_id == t))) [
    | inl hit ↦
        let e : x ≡ c = some_inj (rw (hit, find_command) at h) in
        subst (λ y. (y.id ≡ id) × P y) e ((==_iff x.id id).0 (ground arith), all.0)
    | inr miss ↦ find_command-id cs c (rw (miss, find_command) at h) P all.1
  ]

  write_ack-Answered :
      (cs : List DeviceCommand) (c : DeviceCommand)
      → HasKey cs
      → find_command id t cs ≡ some c
      → is_live c.status ≡ true
      → RowByRow (Answered t id now text result) cs (map (write_ack id s now result) cs)
  write_ack-Answered [] c key h live = tt
  write_ack-Answered (x ∷ cs) c key h live = elim (Bool-cases (x.id == id)) [
    | inl hit ↦
        let e = (==_iff x.id id).0 hit in
        elim (Bool-cases (x.tenant_id == t)) [
          | inl mine ↦
              let found : x ≡ c = some_inj (rw (hit, mine, find_command) at h) in
              rw hit (
                row-Answered x e ((==_iff x.tenant_id t).0 mine)
                    (subst (λ y. is_live y.status ≡ true) (sym found) live),
                write_ack_other cs (subst (λ n. All (λ y. n ≢ y.id) cs) e key.0),
              )
          | inr foreign ↦
              let other =
                find_command-id cs c (rw (hit, foreign, find_command) at h) (λ y. x.id ≢ y.id)
                  key.0 in
              absurd (other.1 (e ∙ sym other.0))
        ]
    | inr miss ↦ rw miss (
      untouched x (λ h. cc (miss, (==_iff x.id id).1 (sym h))),
      write_ack-Answered cs c key.1 (rw (miss, find_command) at h) live,
    )
  ]

-- A poll moves every row of the table forward or leaves it: nothing but the status, the time and the result of a row
-- changes, an answered command stays as it is, and no command becomes pending again.
pub poll-Progress :
    (agents : List (ℕ × String)) (db db' : Db) (t : ℕ) (d : String) (r : List DeviceCommand)
    → poll_commands agents db t d ≡ ok (r, db')
    → RowByRow Progress db.commands db'.commands
poll-Progress agents db db' t d r polled =
    subst (RowByRow Progress db.commands) (sym (poll_inversion agents db db' t d r polled).2)
      (write_delivered-Progress (offered t d db.commands) db.commands)

ack_status-answered :
    (text : String) (s : CommandStatus) → ack_status text ≡ some s → is_live s ≡ false
ack_status-answered text s h = ground arith

-- An acknowledgement that succeeds, on a table whose ids are distinct, leaves every row but that of
-- the command as it was. The row of the command is of the tenant and was not answered before; its
-- status becomes the one of the text, its time the present one and its result the one given, and
-- nothing else of it changes.
pub ack-Progress :
    (db db' : Db) (t id : ℕ) (text : String) (result : Fields)
    → HasKey db.commands
    → ack_command db t id text result ≡ ok db'
    → RowByRow (Answered t id db.now text result) db.commands db'.commands
unfolding ack_command
ack-Progress db db' t id text result key h = elim (Option-cases (ack_status text)) [
  | inl bad ↦ cc (rw (bad, ack_command) at h)
  | inr (s, good) ↦ elim (Option-cases (find_command id t db.commands)) [
    | inl missing ↦ cc (rw (good, missing, ack_command) at h)
    | inr (c, found) ↦ acked_row s good c found (rw (good, found, ack_command) at h)
  ]
]
  where
    acked_row :
        (s : CommandStatus)
        → ack_status text ≡ some s
        → (c : DeviceCommand) → find_command id t db.commands ≡ some c
        → ack_row db id s result c ≡ ok db'
        → RowByRow (Answered t id db.now text result) db.commands db'.commands
    acked_row s good c found q = elim (Bool-cases (is_live c.status)) [
      | inl live ↦
          subst (RowByRow (Answered t id db.now text result) db.commands) (ground (arith, live, q))
            (write_ack-Answered id t db.now s text result good (ack_status-answered text s good)
              db.commands c key found live)
      | inr dead ↦ cc (rw dead at q)
    ]

-- A command that was answered is never answered again.
pub ack_answered :
    (db : Db) (t id : ℕ) (text : String) (result : Fields) (c : DeviceCommand)
    → ack_status text ≢ none
    → find_command id t db.commands ≡ some c
    → is_live c.status ≡ false
    → ack_command db t id text result ≡ err conflict
unfolding ack_command
ack_answered db t id text result c good found dead = elim (Option-cases (ack_status text)) [
  | inl bad ↦ absurd (good bad)
  | inr (s, e) ↦ rw (e, found, ack_command) (rw dead)
]
