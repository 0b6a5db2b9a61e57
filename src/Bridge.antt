-- ===== src/Bridge.antt =====
-- internal/bridge/bridge.go: New up to its devices (no log, no state store), republishDiscovery (Republish);
-- internal/bridge/publish.go: the value of a status item. internal/bridge/device.go: buildDevice.
pub mod Accepted
pub mod Republish
pub mod Status
use go_homeconnect2mqtt.Base.{
  ℕ, String, Bool, true, false, not, ◌||◌, ◌&&◌, Option, none, some, List, [], ◌∷◌, Result, ok, err,
  if◌then◌else◌,
}
use go_homeconnect2mqtt.Base.Keys.{◌==◌, text_key, lookup, insert}
use go_homeconnect2mqtt.Base.Int.{ℤ}
use go_homeconnect2mqtt.Value.{Value, null, str, Host}
use go_homeconnect2mqtt.Entity.{
  Entity, EntryKind, active_program, selected_program, is_nil, is_enum, value, has_enum_name,
}
use go_homeconnect2mqtt.Migration.{SweepDevice}
use go_homeconnect2mqtt.Devices.{DeviceConfig, HaIdSource, HaIdError, resolve_ha_id}
use go_homeconnect2mqtt.Crypto.{Primitives}
use go_homeconnect2mqtt.Socket.{Socket, SocketError, new_socket}

pub data BridgeError : Type 0 where
  missing_collaborator bad_name no_host bad_psk bad_iv no_devices : BridgeError
  bad_ha_id : HaIdError → BridgeError
  no_socket : SocketError → BridgeError
  shared_segment : String → String → String → BridgeError

-- DeviceSpec: `described` is the haId of the description, none where there is no description; `features`
-- are the entities that NewAppliance makes of it.
pub record DeviceSpec : Type 0 where
  pub config : DeviceConfig
  pub described : Option String
  pub features : List (String × ℤ)

-- Deps, as far as New tests it: which collaborators are there, and whether layout.New accepts the name.
pub record Deps : Type 0 where
  pub has_config : Bool
  pub has_mqtt : Bool
  pub has_plane : Bool
  pub accepts_name : Bool
  pub devices : List DeviceSpec

abbrev pub accept_first :
    SweepDevice → Result BridgeError (List SweepDevice) → Result BridgeError (List SweepDevice)
accept_first d (err e) = err e
accept_first d (ok ds) = ok (d ∷ ds)

abbrev pub not_empty : Result BridgeError (List SweepDevice) → Result BridgeError (List SweepDevice)
not_empty (err e) = err e
not_empty (ok ds) = if is_nil ds then err no_devices else ok ds

-- `stem` is the file name of a path less its extension, `trim` is strings.TrimSpace, `decode` is the
-- unpadded base64 of DecodeKey.
module _ (prim : Primitives) (stem trim : String → String) (decode : String → Option (List ℕ)) where
  abbrev pub decode_iv : String → Option (List ℕ)
  decode_iv text = if text == "" then some [] else decode text

  abbrev pub with_socket :
      DeviceSpec → String → Result SocketError (Socket prim) → Result BridgeError SweepDevice
  with_socket spec id (err e) = err (no_socket e)
  with_socket spec id (ok socket) =
      ok (record { device_name = spec.config.name; ha_id = id; features = spec.features })

  -- The keys and the socket of buildDevice
  unfoldable pub with_id :
      DeviceSpec → Result HaIdError (String × HaIdSource) → Result BridgeError SweepDevice
  unfolding new_socket
  with_id spec (err e) = err (bad_ha_id e)
  with_id spec (ok (id, source)) = elim (decode spec.config.psk64) [
    | none ↦ err bad_psk
    | some psk ↦ elim (decode_iv spec.config.iv64) [
      | none ↦ err bad_iv
      | some iv ↦
          with_socket spec id
            (new_socket prim trim spec.config.connection_type spec.config.host psk iv)
    ]
  ]

  -- buildDevice
  unfoldable pub build_device : DeviceSpec → Result BridgeError SweepDevice
  unfolding with_id resolve_ha_id
  build_device spec =
      if spec.config.host == ""
      then err no_host
      else with_id spec (resolve_ha_id stem spec.config spec.described)

  -- The loop of New; `by_ha_id` is the map of that name.
  unfoldable pub accept_devices :
      List (String × String) → List DeviceSpec → Result BridgeError (List SweepDevice)
  unfolding build_device
  accept_devices by_ha_id [] = ok []
  accept_devices by_ha_id (spec ∷ specs) = elim (build_device spec) [
    | err e ↦ err e
    | ok d ↦ elim (lookup d.ha_id by_ha_id) [
      | some first ↦ err (shared_segment first d.device_name d.ha_id)
      | none ↦ accept_first d (accept_devices (insert d.ha_id d.device_name by_ha_id) specs)
    ]
  ]

  -- New, to its devices
  unfoldable pub new_bridge : Deps → Result BridgeError (List SweepDevice)
  unfolding accept_devices
  new_bridge deps =
      if not (deps.has_config && deps.has_mqtt && deps.has_plane)
      then err missing_collaborator
      else if not deps.accepts_name
      then err bad_name
      else not_empty (accept_devices [] deps.devices)

-- isProgramKind
unfoldable pub is_choice : EntryKind → Bool
is_choice active_program = true
is_choice selected_program = true
is_choice _ = false

abbrev pub is_null : {F : Type 0} → Value F → Bool
is_null null = true
is_null _ = false

module _ (host : Host) where
  open host use {Float}

  -- The end of statusValue, for a program: a text stays where it is no enumeration or a name of it.
  unfoldable pub program_value : Entity Float → Value Float → Value Float
  unfolding has_enum_name
  program_value e (str s) =
      if is_enum e.desc && not (has_enum_name host s e) then str "None" else str s
  program_value e v = str "None"

  unfoldable pub choice_value : Entity Float → Value Float → Value Float
  unfolding is_choice program_value
  choice_value e v =
      if is_null v then null else if is_choice e.desc.kind then program_value e v else v

  -- statusValue
  unfoldable pub status_value : Entity Float → Value Float
  unfolding value choice_value
  status_value e = choice_value e (value host e)
