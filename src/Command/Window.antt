-- ===== src/Command/Window.antt =====
-- writeWithWindow of internal/bridge/command.go: a write that is tried again while the appliance's
-- access window is closed. `left` is cmdRetries less the number of the attempt.
pub mod Retries
pub mod Settles
use go_homeconnect2mqtt.Base.{
  ℕ, zero, suc, Bool, true, false, Option, none, some, List, [], ◌∷◌, ◌++◌, get_elem?, Result, ok,
  err, if◌then◌else◌,
}
use go_homeconnect2mqtt.Base.Int.{ℤ, pos, int_beq}
use go_homeconnect2mqtt.Value.{Value, Host}
use go_homeconnect2mqtt.Message.{CodeResponseError}
use go_homeconnect2mqtt.Entity.{Entity, writable}
use go_homeconnect2mqtt.Appliance.{
  Appliance, Call, ApplianceError, unknown_uid, not_writable, no_start_command, unresolved,
  session_error, write_value,
}
use go_homeconnect2mqtt.Handshake.Exec.{SessionError, code_response}
use go_homeconnect2mqtt.Command
use go_homeconnect2mqtt.Command.{
  Attempt, Reason, unknown_feature, write_failed, Ending, succeeded, abandoned, rejected, Done,
  reject,
}

-- isWriteWindowError
abbrev pub is_window_error : ApplianceError SessionError → Bool
is_window_error (session_error (code_response e)) = int_beq e.code (pos 541)
is_window_error _ = false

module _ {F : Type 0} where
  -- The end of an attempt that may be repeated: `more` are the attempts behind the wait.
  abbrev pub retry : Attempt F → Option (Done F) → Reason → List (Call F) → Done F
  retry at none why calls = record { calls = calls; ending = rejected why }
  retry at (some more) why calls =
      if at.cancelled
      then record { calls = calls; ending = abandoned }
      else record { calls = calls ++ more.calls; ending = more.ending }

  abbrev pub wrote :
      Attempt F
      → Option (Done F)
      → Result (ApplianceError SessionError) (Unit {0}) × List (Call F) × Appliance F
      → Done F
  wrote at more (ok _, calls, _) = record { calls = calls; ending = succeeded }
  wrote at more (err x, calls, _) =
      if is_window_error x
      then retry at more write_failed calls
      else record { calls = calls; ending = rejected write_failed }

module _ (host : Host) where
  open host use {Float}

  module _ (i : ℕ) (v : Value Float) where
    -- one turn of the loop, on the entity at position `i`
    unfoldable pub turn : Attempt Float → Option (Done Float) → Done Float
    unfolding writable write_value
    turn at more = elim (get_elem? at.appliance.entities i) [
      | none ↦ reject unknown_feature
      | some e ↦
          if writable e
          then wrote at more (write_value host at.answer e.desc.uid v at.appliance)
          else retry at more Command.not_writable []
    ]

    -- writeWithWindow from the attempt `n` on
    unfoldable pub window : (ℕ → Attempt Float) → ℕ → ℕ → Done Float
    unfolding turn
    window seen zero n = turn (seen n) none
    window seen (suc left) n = let more = window seen left (suc n) in turn (seen n) (some more)
