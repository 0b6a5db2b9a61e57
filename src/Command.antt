-- ===== src/Command.antt =====
-- internal/bridge/command.go: what a `set` on an appliance's command topics makes the bridge ask of
-- the appliance. go-hamqtt's SetValue, encoding/json and the topic layout are parameters.
pub mod Programs
pub mod Requests
pub mod Window
pub mod Routing
pub mod Web
use go_homeconnect2mqtt.Base.{ℕ, String, Bool, true, false, Option, none, some, List, [], ◌∷◌}
use go_homeconnect2mqtt.Value.{Value}
use go_homeconnect2mqtt.Appliance.{Appliance, Call}
use go_homeconnect2mqtt.Handshake.Exec.{SessionError}

-- publisher.SetValue of go-hamqtt: the plain text, or the JSON of a structured body; and its
-- conversions Bool and Number (none is an error; no bound is an infinite one).
pub record SetValue (F : Type 0) : Type 0 where
  pub text : String
  pub params : Option String
  pub as_bool : Option Bool
  pub number : Option F → Option F → F → Option F

-- What the bridge is configured with: the label table and the language, json.Unmarshal, cmdRetries.
pub record Setup (F : Type 0) : Type 0 where
  pub table : List (String × String)
  pub language : String
  pub parse_json : String → Option (Value F)
  pub retries : ℕ

-- A device: its haId and the type in its description. The appliance changes while a command runs.
pub record Device : Type 0 where
  pub name : String
  pub ha_id : String
  pub kind : String

-- What one attempt of a command meets: the appliance, how its session answers a call, and whether
-- the context ends in the wait behind the attempt.
pub record Attempt (F : Type 0) : Type 0 where
  pub appliance : Appliance F
  pub answer : Call F → Option SessionError
  pub cancelled : Bool

-- A `set` as the router delivers it.
pub record Request (F : Type 0) : Type 0 where
  pub topic : String
  pub retained : Bool
  pub value : SetValue F

-- The messages of `reject`, and the ways a command ends: `ignored` is no command of this device.
pub data Reason : Type 0 where
  unknown_feature command_rejected write_failed not_writable : Reason
  no_selected_program no_program_selected unknown_program program_call_failed : Reason

pub data Ending : Type 0 where
  succeeded abandoned ignored : Ending
  rejected : Reason → Ending

-- The calls that were made of the session, oldest first, and the end.
pub record Done (F : Type 0) : Type 0 where
  pub calls : List (Call F)
  pub ending : Ending

abbrev pub reject : {F : Type 0} → Reason → Done F
reject r = record { calls = []; ending = rejected r }
