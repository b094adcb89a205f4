-- ===== src/Actors/Explained.antt =====
-- Refusals and their reasons: the messages of server/src/node/actors/messages.rs.
use ypf_fleet_fuel_distribut.Prelude.{Bool, true, false, Option, none, some}
use ypf_fleet_fuel_distribut.Domain.{VerifyError}
use ypf_fleet_fuel_distribut.Actors.Messages.{Effect, to_router, reply_to_card, operation_completed}

-- A refusal has a reason.
abbrev pub HasReason : Bool → Option VerifyError → Type 0
HasReason true error = Unit
HasReason false none = ⊥
HasReason false (some e) = Unit

-- A refusal under way has a reason.
abbrev pub IsExplained : Effect → Type 0
IsExplained (to_router (operation_completed _ success error)) = HasReason success error
IsExplained (reply_to_card _ r) = HasReason r.success r.error
IsExplained _ = Unit
