-- ===== src/Handshake/Program.antt =====
-- handshake, appID and PostConnectInit of internal/homeconnect/session.go.
use go_homeconnect2mqtt.Base.{
  String, Bool, false, Option, none, some, from_option, is_some, [], ◌∷◌, Result, ok, err,
  if◌then◌else◌,
}
use go_homeconnect2mqtt.Base.Int.{ℤ, pos, int_beq, ltb_ℤ, leb_ℤ}
use go_homeconnect2mqtt.Base.Keys.{◌==◌, text_key}
use go_homeconnect2mqtt.Value.{Host, str}
use go_homeconnect2mqtt.Message.{
  Action, get, response, notify, DeviceType, application, number, Message,
}
use go_homeconnect2mqtt.Session.{Session, service_version, store_services, first_int}
use go_homeconnect2mqtt.Handshake.Exec.{
  SessionError, no_init, init_timeout, init_cancelled, no_nonce, code_response, Exec, pure, raise,
  gets, modify, ◌>>=◌, ◌>>◌, tolerate, when, send, send_sync,
}

-- What the first select of the handshake sees.
pub data FirstFrame (F : Type 0) : Type 0 where
  arrives : Message F → FirstFrame F
  receive_error first_timeout first_cancel : FirstFrame F

-- The configured identity, and the random values (none where rand.Read fails).
pub record Identity : Type 0 where
  pub app_name : String
  pub app_id : String
  pub random_id : Option String
  pub nonce : Option String

-- appID
unfoldable pub app_id : Identity → String
app_id i = if i.app_id == "" then from_option "0000000000000000" i.random_id else i.app_id

abbrev device_type : ℤ → DeviceType
device_type v = if int_beq v (pos 1) then number (pos 2) else application

module _ {F : Type 0} where
  -- A message with only these fields set.
  abbrev pub request : String → ℤ → Action → Message F
  request resource version action = record {
    sid = pos 0;
    msg_id = pos 0;
    resource = resource;
    version = version;
    action = action;
    items = [];
    code = none;
    ordered = none;
  }

  -- step 2: the response to the appliance's initialValues
  unfoldable pub init_response : Identity → Message F → Message F
  unfolding app_id
  init_response i m = record (request "/ei/initialValues" m.version response) {
    sid = m.sid;
    msg_id = m.msg_id;
    ordered = some (record {
      device_type = device_type m.version;
      device_name = i.app_name;
      device_id = app_id i;
    });
  }

  abbrev pub auth_request : ℤ → String → Message F
  auth_request v nonce = record (request "/ci/authentication" v get) {
    items = (("nonce", str nonce) ∷ []) ∷ [];
  }

  unfoldable pub take_nonce : Identity → Exec F String
  take_nonce i = elim i.nonce [ none ↦ raise no_nonce | some n ↦ pure n ]

  -- step 4
  unfoldable pub authenticate : Identity → ℤ → Exec F (Unit {0})
  unfolding take_nonce
  authenticate i ci = do
    nonce ← take_nonce i
    send_sync (auth_request ci nonce)
    tolerate (send_sync (request "/ci/info" (pos 0) get))

  -- steps 5 to 7, whose errors are tolerated
  unfoldable pub optional_steps : ℤ → Exec F (Unit {0})
  optional_steps ei = do
    iz ← gets (λ s. is_some (service_version "iz" s))
    when iz (tolerate (send_sync (request "/iz/info" (pos 0) get)))
    when (int_beq ei (pos 2)) (tolerate (send (request "/ei/deviceReady" ei notify)))
    ni ← gets (λ s. is_some (service_version "ni" s))
    when ni (tolerate (send_sync (request "/ni/info" (pos 0) get)))

module _ (host : Host) where
  open host use {Float}

  -- step 1: the session takes its id and its first message id from the appliance.
  unfoldable pub adopt : Message Float → Session → Session
  adopt m s = record s { sid = m.sid; last_msg_id = first_int host m.items "edMsgID" }

  -- steps 3 to 7
  unfoldable pub negotiate : Identity → ℤ → Exec Float (Unit {0})
  negotiate i ei = do
    services ← send_sync (request "/ci/services" (pos 1) get)
    modify (store_services host services)
    ci ← gets (λ s. from_option (pos 0) (service_version "ci" s))
    when (ltb_ℤ ci (pos 3)) (authenticate i ci)
    optional_steps ei

  -- steps 2 to 7
  unfoldable pub greet : Identity → Message Float → Exec Float (Unit {0})
  greet i m = do send (init_response i m); negotiate i m.version

  -- handshake
  unfoldable pub handshake : Identity → FirstFrame Float → Exec Float (Unit {0})
  handshake i (arrives m) = do modify (adopt m); greet i m
  handshake i receive_error = raise no_init
  handshake i first_timeout = raise init_timeout
  handshake i first_cancel = raise init_cancelled

-- tolerableInit
unfoldable pub tolerable_init : SessionError → Bool
tolerable_init (code_response e) = leb_ℤ (pos 500) e.code
tolerable_init _ = false

module _ {F : Type 0} where
  settle : Result SessionError (Message F) → Exec F (Option (Message F))
  settle (ok m) = pure (some m)
  settle (err e) = if tolerable_init e then pure none else raise e

  unfoldable pub bulk : String → Exec F (Option (Message F))
  unfolding settle
  bulk resource c = let (r, c') = send_sync (request resource (pos 0) get) c in settle r c'

  -- PostConnectInit
  unfoldable pub post_connect_init : Exec F (Option (Message F) × Option (Message F))
  post_connect_init = do
    changes ← bulk "/ro/allDescriptionChanges"
    mandatory ← bulk "/ro/allMandatoryValues"
    pure (changes, mandatory)
