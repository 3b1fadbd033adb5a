-- ===== src/Fleet/Commands.antt =====
-- services/api/src/commands/commands.module.ts: commands to a device, as rows and as a queue in
-- Redis. Types of commands and payloads are numbers; a text in the payload is kept by whether it
-- is blank.
pub mod Guards
use fleex.Access.Ownership.{is_foreign}
use fleex.Common.{
  ℕ, ◌+◌, Bool, true, false, not, ◌&&◌, ◌||◌, Option, none, some, List, [], ◌∷◌, ◌++◌, any, filter,
  find?, ◌==◌, is_id, if◌then◌else◌,
}
use fleex.Common.Results.{
  Result, ok, err, forbidden, bad_request, not_found, ◌>>=◌, ◌>>◌, throw_if, or_throw,
}
use fleex.Access.Roles.{Actor, is_super_admin}

pub data CommandType : Type 0 where
  engine_block engine_unblock request_info request_status reset : CommandType
  other : ℕ → CommandType

-- `SAFE_COMMAND_TYPES`
abbrev pub is_safe : CommandType → Bool
is_safe (other n) = false
is_safe _ = true

pub data CommandStatus : Type 0 where
  pending sent delivered failed : CommandStatus

abbrev pub is_pending : CommandStatus → Bool
is_pending pending = true
is_pending _ = false

pub record Device : Type 0 where
  pub id : ℕ
  pub company_id : ℕ

-- `raw_text` is whether the payload has a text that is not blank.
pub record CommandDto : Type 0 where
  pub type : CommandType
  pub payload : ℕ
  pub raw_text : Bool

pub record Command : Type 0 where
  pub id : ℕ
  pub device_id : ℕ
  pub issued_by : ℕ
  pub dto : CommandDto
  pub status : CommandStatus

-- The commands, the newest first, and the queue of all devices, the oldest first, by device and
-- command; `popped` is what the ingestor has taken from it.
pub record Store : Type 0 where
  pub devices : List Device
  pub commands : List Command
  pub queue : List (ℕ × ℕ)
  pub next_id : ℕ

abbrev pub find_device : ℕ → List Device → Option Device
find_device id = find? (λ d. d.id == id)

abbrev pub find_command : ℕ → List Command → Option Command
find_command id = find? (λ c. c.id == id)

abbrev pub new_command : Store → Actor → ℕ → CommandDto → Command
new_command db actor device dto = record {
  id = db.next_id;
  device_id = device;
  issued_by = actor.id;
  dto = dto;
  status = pending;
}

unfoldable pub issue : Store → ℕ → Actor → CommandDto → Result Store
issue db device actor dto = or_throw (find_device device db.devices) not_found >>= λ dev.
    throw_if (is_foreign actor dev.company_id) forbidden
    >> throw_if (not (is_super_admin actor.role) && dto.raw_text) forbidden
    >> throw_if (not (is_super_admin actor.role) && not (is_safe dto.type)) forbidden
    >> ok (record db {
      commands = new_command db actor device dto ∷ db.commands;
      queue = db.queue ++ ((device, db.next_id) ∷ []);
      next_id = db.next_id + 1;
    })

abbrev pub is_entry : ℕ → ℕ → ℕ × ℕ → Bool
is_entry device command e = e.0 == device && e.1 == command

-- `same_text` is whether the JSON that is built again is that of the queue, which LREM needs.
unfoldable pub cancel : Bool → Store → ℕ → ℕ → Actor → Result Store
cancel same_text db device command actor =
    or_throw (find_device device db.devices) not_found >>= λ dev.
    throw_if (is_foreign actor dev.company_id) forbidden
    >> (or_throw (find_command command db.commands) not_found >>= λ cmd.
        throw_if (not (cmd.device_id == device)) not_found
        >> throw_if (not (is_pending cmd.status)) bad_request
        >> ok (record db {
          commands = filter (λ c. not (c.id == command)) db.commands;
          queue =
              if same_text
              then filter (λ e. not (is_entry device command e)) db.queue
              else db.queue;
        }))
