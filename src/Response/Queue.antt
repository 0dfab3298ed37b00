-- ===== src/Response/Queue.antt =====
-- backend/app/response/api.py: the sensors fetch their commands and acknowledge them.
pub mod Lifecycle
pub mod Progress
use ai_soc.Prelude.{
  ℕ, String, ◌≡◌, Bool, true, false, not, ◌&&◌, ◌||◌, Option, none, some, List, [], ◌∷◌, map, ◌==◌,
  ltb, leb, if◌then◌else◌, or_else, str_eq, any_of, keep, take,
}
use ai_soc.Json.{Fields}
use ai_soc.Store.{DeviceCommand, CommandStatus, pending, delivered, acked, failed, Db, is_live}

pub data ApiError : Type 0 where
  not_found bad_request conflict : ApiError

pub data Result {ℓ} (A : Type ℓ) : Type ℓ where
  ok : A → Result A
  err : ApiError → Result A

-- `ORDER BY created_at`; rows of one instant stay in the order of the table.
abbrev pub insert_by_age : DeviceCommand → List DeviceCommand → List DeviceCommand
insert_by_age c [] = c ∷ []
insert_by_age c (d ∷ ds) =
    if leb c.created_at d.created_at then c ∷ d ∷ ds else d ∷ insert_by_age c ds

abbrev pub sort_by_age : List DeviceCommand → List DeviceCommand
sort_by_age [] = []
sort_by_age (c ∷ cs) = insert_by_age c (sort_by_age cs)

abbrev pub is_offered : ℕ → String → DeviceCommand → Bool
is_offered tenant_id device_id c =
    (c.tenant_id == tenant_id) && (str_eq c.device_id device_id && is_live c.status)

abbrev pub poll_limit : ℕ
poll_limit = 50

unfoldable pub offered : ℕ → String → List DeviceCommand → List DeviceCommand
offered tenant_id device_id cs =
    take poll_limit (sort_by_age (keep (is_offered tenant_id device_id) cs))

abbrev deliver_status : CommandStatus → CommandStatus
deliver_status pending = delivered
deliver_status s = s

abbrev pub deliver : DeviceCommand → DeviceCommand
deliver c = record c { status = deliver_status c.status }

-- the rows of the batch are written back by their primary key
abbrev pub write_delivered : List DeviceCommand → DeviceCommand → DeviceCommand
write_delivered batch c = if any_of (λ b. b.id == c.id) batch then deliver c else c

-- the registered agents are pairs of a tenant and a device
abbrev pub is_agent : ℕ → String → List (ℕ × String) → Bool
is_agent tenant_id device_id = any_of (λ a. (a.0 == tenant_id) && str_eq a.1 device_id)

unfoldable pub poll_commands :
    List (ℕ × String) → Db → ℕ → String → Result (List DeviceCommand × Db)
poll_commands agents db tenant_id device_id =
    if not (is_agent tenant_id device_id agents)
    then err not_found
    else let batch = offered tenant_id device_id db.commands in
      ok (map deliver batch, record db { commands = map (write_delivered batch) db.commands })

-- `body.status not in ACK_STATUSES`
abbrev pub ack_status : String → Option CommandStatus
ack_status s =
    if str_eq s "acked" then some acked else if str_eq s "failed" then some failed else none

abbrev find_command : ℕ → ℕ → List DeviceCommand → Option DeviceCommand
find_command cmd_id tenant_id [] = none
find_command cmd_id tenant_id (c ∷ cs) =
    if (c.id == cmd_id) && (c.tenant_id == tenant_id)
    then some c
    else find_command cmd_id tenant_id cs

abbrev pub write_ack : ℕ → CommandStatus → ℕ → Fields → DeviceCommand → DeviceCommand
write_ack cmd_id status now result c =
    if c.id == cmd_id
    then record c { status = status; acked_at = some now; result = some result }
    else c

abbrev ack_row : Db → ℕ → CommandStatus → Fields → DeviceCommand → Result Db
ack_row db cmd_id status result c =
    if not (is_live c.status)
    then err conflict
    else ok (record db { commands = map (write_ack cmd_id status db.now result) db.commands })

unfoldable pub ack_command : Db → ℕ → ℕ → String → Fields → Result Db
ack_command db tenant_id cmd_id status result = elim (ack_status status) [
  | none ↦ err bad_request
  | some s ↦ elim (find_command cmd_id tenant_id db.commands) [
    | none ↦ err not_found
    | some c ↦ ack_row db cmd_id s result c
  ]
]
