-- ===== src/Message.antt =====
-- internal/homeconnect/message.go: the protocol frame; codes.go: the response codes.
use go_homeconnect2mqtt.Base.{String, Option, none, some, List, [], ◌∷◌}
use go_homeconnect2mqtt.Base.Int.{ℤ, pos}
use go_homeconnect2mqtt.Base.Keys.{lookup, int_key}
use go_homeconnect2mqtt.Value.{Value}

-- A decoded frame may carry any text as its action.
pub data Action : Type 0 where
  get post response notify delete : Action
  unknown : String → Action

-- One item of a frame's data: map[string]any.
abbrev pub Item : Type 0 → Type 0
Item F = List (String × Value F)

-- initialValuesData of session.go: `number` is the device type of protocol version 1.
pub data DeviceType : Type 0 where
  application : DeviceType
  number : ℤ → DeviceType

pub record InitialValues : Type 0 where
  pub device_type : DeviceType
  pub device_name : String
  pub device_id : String

pub record Message (F : Type 0) : Type 0 where
  pub sid : ℤ
  pub msg_id : ℤ
  pub resource : String
  pub version : ℤ
  pub action : Action
  pub items : List (Item F)
  pub code : Option ℤ
  pub ordered : Option InitialValues

pub record CodeResponseError : Type 0 where
  pub code : ℤ
  pub resource : String

-- codeError: a frame with a code is a failure.
unfoldable pub code_error : {F : Type 0} → Message F → Option CodeResponseError
code_error m = elim m.code [
  | none ↦ none
  | some c ↦ some (record { code = c; resource = m.resource })
]

-- responseCodes
abbrev pub response_codes : List (ℤ × String)
response_codes =
    (pos 200, "OK")
    ∷ (pos 202, "Accepted")
    ∷ (pos 400, "BadRequest")
    ∷ (pos 403, "Forbidden")
    ∷ (pos 404, "NotFound")
    ∷ (pos 405, "MethodNotAllowed")
    ∷ (pos 413, "RequestEntityTooLong")
    ∷ (pos 414, "RequestUriTooLong")
    ∷ (pos 429, "TooManyRequests")
    ∷ (pos 500, "InternalServerError")
    ∷ (pos 501, "NotImplemented")
    ∷ (pos 502, "BadGateway")
    ∷ (pos 503, "ServiceUnavailable")
    ∷ (pos 504, "GatewayTimeout")
    ∷ (pos 507, "InsufficientMemory")
    ∷ (pos 512, "UnknownUID")
    ∷ (pos 513, "WriteRequestUnknownUID")
    ∷ (pos 514, "ReadRequestUnknownUID")
    ∷ (pos 515, "Busy")
    ∷ (pos 516, "WriteRequestBusy")
    ∷ (pos 517, "ReadRequestBusy")
    ∷ (pos 518, "NoAccess")
    ∷ (pos 519, "WriteRequestNoAccess")
    ∷ (pos 520, "ReadRequestNoAccess")
    ∷ (pos 521, "NoAccessByList")
    ∷ (pos 522, "WriteRequestNoAccessByList")
    ∷ (pos 523, "ReadRequestNoAccessByList")
    ∷ (pos 524, "NotAvailable")
    ∷ (pos 525, "WriteRequestNotAvailable")
    ∷ (pos 526, "ReadRequestNotAvailable")
    ∷ (pos 527, "NotAvailableByList")
    ∷ (pos 528, "WriteRequestNotAvailableByList")
    ∷ (pos 529, "ReadRequestNotAvailableByList")
    ∷ (pos 530, "NoExecution")
    ∷ (pos 531, "ValueOutOfRange")
    ∷ (pos 532, "InvalidUIDValue")
    ∷ (pos 533, "Incomplete")
    ∷ (pos 534, "Inconsistent")
    ∷ (pos 535, "CmdViolation")
    ∷ (pos 536, "InvalidFormat")
    ∷ (pos 537, "RemoteControlNotActive")
    ∷ (pos 538, "RemoteStartNotActive")
    ∷ (pos 539, "LockedByLocalControl")
    ∷ (pos 540, "DeviceStateNotCompliant")
    ∷ (pos 541, "ProcessStateNotCompliant")
    ∷ (pos 542, "BackendNotConnected")
    ∷ (pos 543, "EnergyManagementNotConnected")
    ∷ (pos 544, "NotInLocalWiFi")
    ∷ []

-- CodeName
unfoldable pub code_name : ℤ → String
unfolding lookup
code_name c = elim (lookup c response_codes) [ none ↦ "Unknown" | some n ↦ n ]
