-- ===== src/Bridge/Accepted.antt =====
-- The devices that New of internal/bridge/bridge.go accepts, and what the legacy sweep of
-- internal/bridge/migrate.go does with them.
use Prim.Native.String.{String}
use mathlib.Core.Path.{subst}
use go_homeconnect2mqtt.Base.{
  ℕ, zero, suc, ◌≡◌, ◌≢◌, sym, ap, ◌∙◌, inl, inr, Bool, true, false, ◌&&◌, Bool-cases, Option, none,
  some, Option-cases, List, [], ◌∷◌, Result, ok, err, Result-cases, All, get_elem?, absurd_none,
  absurd_bool,
}
use go_homeconnect2mqtt.Base.Keys.{◌==◌, ==_iff, text_key, lookup, insert, lookup-insert}
use go_homeconnect2mqtt.Crypto.{Primitives}
use go_homeconnect2mqtt.Devices.{HaIdSource, HaIdError, valid_ha_id, resolve_ha_id}
use go_homeconnect2mqtt.Devices.Identifiers.{IsValid, resolved-IsValid}
use go_homeconnect2mqtt.Layout.{SmartHome}
use go_homeconnect2mqtt.Migration.{
  SweepDevice, trim_root, first_segment, has_topic, clears, current_items, legacy_sweep_plan,
}
use go_homeconnect2mqtt.Migration.Current.{clears-current_items}
use go_homeconnect2mqtt.Socket.{Socket, SocketError, new_socket}
use go_homeconnect2mqtt.Bridge.{
  BridgeError, DeviceSpec, Deps, accept_first, not_empty, decode_iv, with_id, with_socket,
  build_device, accept_devices, new_bridge,
}

-- The haIds are valid and pairwise distinct.
abbrev AreDistinct : List SweepDevice → Type 0
AreDistinct [] = Unit
AreDistinct (d ∷ ds) =
    (valid_ha_id d.ha_id ≡ true) × All (λ e. d.ha_id ≢ e.ha_id) ds × AreDistinct ds

some_inj : {A : Type 0} {x y : A} → some x ≡ some y → x ≡ y
some_inj e = cc

all_at :
    (P : SweepDevice → Type 0) (ds : List SweepDevice) (i : ℕ) (d : SweepDevice)
    → All P ds
    → get_elem? ds i ≡ some d
    → P d
all_at P [] i d all h = absurd_none h
all_at P (x ∷ ds) zero d (p, ps) h = subst P (some_inj h) p
all_at P (x ∷ ds) (suc i) d (p, ps) h = all_at P ds i d ps h

-- Only the device itself has its haId.
abbrev IsAlone : SweepDevice → SweepDevice → Type 0
IsAlone d e = (valid_ha_id e.ha_id ≡ true) × (e.ha_id ≡ d.ha_id → e ≡ d)

apart-IsAlone :
    (x d : SweepDevice) (ds : List SweepDevice)
    → x ≡ d
    → All (λ e. x.ha_id ≢ e.ha_id) ds
    → AreDistinct ds
    → All (IsAlone d) ds
apart-IsAlone x d [] same all distinct = tt
apart-IsAlone x d (e ∷ ds) same (ne, all) (valid, _, distinct) = (
  (valid, λ h. absurd (ne (ap (λ v. v.ha_id) same ∙ sym h))),
  apart-IsAlone x d ds same all distinct,
)

distinct-IsAlone :
    (ds : List SweepDevice) (i : ℕ) (d : SweepDevice)
    → AreDistinct ds
    → get_elem? ds i ≡ some d
    → All (IsAlone d) ds
distinct-IsAlone [] i d distinct h = tt
distinct-IsAlone (x ∷ ds) zero d (valid, apart, distinct) h =
    ((valid, λ _. some_inj h), apart-IsAlone x d ds (some_inj h) apart distinct)
distinct-IsAlone (x ∷ ds) (suc i) d (valid, apart, distinct) h = (
  (valid, λ same. absurd (all_at (λ e. x.ha_id ≢ e.ha_id) ds i d apart h same)),
  distinct-IsAlone ds i d distinct h,
)

abbrev IsNewcomer : List (String × String) → SweepDevice → Type 0
IsNewcomer by_ha_id d = lookup d.ha_id by_ha_id ≡ none

-- What stays new beside another haId was new before, and has another haId.
newcomers :
    (key name : String) (by_ha_id : List (String × String)) (ds : List SweepDevice)
    → All (IsNewcomer (insert key name by_ha_id)) ds
    → All (IsNewcomer by_ha_id) ds × All (λ e. key ≢ e.ha_id) ds
newcomers key name by_ha_id [] all = (tt, tt)
newcomers key name by_ha_id (d ∷ ds) (h, all) =
    let (old, apart) = newcomers key name by_ha_id ds all in
    elim (Bool-cases (key == d.ha_id)) [
      | inl e ↦ absurd_none (sym h ∙ rw e at (lookup-insert key d.ha_id name by_ha_id))
      | inr e ↦ (
        (sym (rw e at (lookup-insert key d.ha_id name by_ha_id)) ∙ h, old),
        (λ same. absurd_bool (sym ((==_iff key d.ha_id).1 same) ∙ e), apart),
      )
    ]

abbrev IsAccepted : List (String × String) → Result BridgeError (List SweepDevice) → Type 0
IsAccepted by_ha_id (ok ds) = All (IsNewcomer by_ha_id) ds × AreDistinct ds
IsAccepted by_ha_id (err _) = Unit

-- A device that buildDevice makes has a valid haId.
abbrev IsBuilt : Result BridgeError SweepDevice → Type 0
IsBuilt (ok d) = valid_ha_id d.ha_id ≡ true
IsBuilt (err _) = Unit

module _ (prim : Primitives) (stem trim : String → String) (decode : String → Option (List ℕ)) where
  with_socket-IsBuilt :
      (spec : DeviceSpec) (id : String) (r : Result SocketError (Socket prim))
      → valid_ha_id id ≡ true
      → IsBuilt (with_socket prim stem trim decode spec id r)
  with_socket-IsBuilt spec id (ok socket) h = h
  with_socket-IsBuilt spec id (err e) h = tt

  with_id-IsBuilt :
      (spec : DeviceSpec) (r : Result HaIdError (String × HaIdSource))
      → IsValid r
      → IsBuilt (with_id prim stem trim decode spec r)
  unfolding with_id
  with_id-IsBuilt spec (err e) h = tt
  with_id-IsBuilt spec (ok (id, source)) h = elim (Option-cases (decode spec.config.psk64)) [
    | inl e ↦ rw (IsBuilt, with_id, e) tt
    | inr (psk, e) ↦ elim (Option-cases (decode_iv prim stem trim decode spec.config.iv64)) [
      | inl f ↦ rw (IsBuilt, with_id, e, f) tt
      | inr (iv, f) ↦
          rw (IsBuilt, with_id, e, f)
            (with_socket-IsBuilt spec id
              (new_socket prim trim spec.config.connection_type spec.config.host psk iv) h)
    ]
  ]

  build_device-IsBuilt : (spec : DeviceSpec) → IsBuilt (build_device prim stem trim decode spec)
  unfolding build_device
  build_device-IsBuilt spec = elim (Bool-cases (spec.config.host == "")) [
    | inl e ↦ rw (IsBuilt, build_device, e) tt
    | inr e ↦
        rw (IsBuilt, build_device, e)
          (with_id-IsBuilt spec (resolve_ha_id stem spec.config spec.described)
            (resolved-IsValid stem spec.config spec.described))
  ]

  rest-IsAccepted :
      (by_ha_id : List (String × String)) (d : SweepDevice)
      (r : Result BridgeError (List SweepDevice))
      → valid_ha_id d.ha_id ≡ true
      → lookup d.ha_id by_ha_id ≡ none
      → IsAccepted (insert d.ha_id d.device_name by_ha_id) r
      → IsAccepted by_ha_id (accept_first d r)
  rest-IsAccepted by_ha_id d (err e) valid new all = tt
  rest-IsAccepted by_ha_id d (ok ds) valid new (all, distinct) =
      let (old, apart) = newcomers d.ha_id d.device_name by_ha_id ds all in
      ((new, old), (valid, apart, distinct))

  accept_devices-IsAccepted :
      (by_ha_id : List (String × String)) (specs : List DeviceSpec)
      → IsAccepted by_ha_id (accept_devices prim stem trim decode by_ha_id specs)
  unfolding accept_devices
  accept_devices-IsAccepted by_ha_id [] = (tt, tt)
  accept_devices-IsAccepted by_ha_id (spec ∷ specs) =
      elim (Result-cases (build_device prim stem trim decode spec)) [
        | inl (e, q) ↦ rw (IsAccepted, accept_devices, q) tt
        | inr (d, q) ↦ elim (Option-cases (lookup d.ha_id by_ha_id)) [
          | inr (first, f) ↦ rw (IsAccepted, accept_devices, q, f) tt
          | inl f ↦
              rw (IsAccepted, accept_devices, q, f)
                (rest-IsAccepted by_ha_id d
                  (accept_devices prim stem trim decode (insert d.ha_id d.device_name by_ha_id)
                    specs)
                  (rw q at (build_device-IsBuilt spec)) f
                  (accept_devices-IsAccepted (insert d.ha_id d.device_name by_ha_id) specs))
        ]
      ]

  not_empty-IsAccepted :
      (r : Result BridgeError (List SweepDevice)) → IsAccepted [] r → IsAccepted [] (not_empty r)
  not_empty-IsAccepted (err e) all = tt
  not_empty-IsAccepted (ok []) all = tt
  not_empty-IsAccepted (ok (d ∷ ds)) all = all

  new_bridge-IsAccepted : (deps : Deps) → IsAccepted [] (new_bridge prim stem trim decode deps)
  unfolding new_bridge
  new_bridge-IsAccepted deps =
      elim (Bool-cases (deps.has_config && deps.has_mqtt && deps.has_plane)) [
        | inr q ↦ rw (IsAccepted, new_bridge, q) tt
        | inl q ↦ elim (Bool-cases deps.accepts_name) [
          | inr r ↦ rw (IsAccepted, new_bridge, q, r) tt
          | inl r ↦
              rw (IsAccepted, new_bridge, q, r)
                (not_empty-IsAccepted (accept_devices prim stem trim decode [] deps.devices)
                  (accept_devices-IsAccepted [] deps.devices))
        ]
      ]

-- On distinct segments that `safe` keeps, only the device itself has its segment.
alone_by_segment :
    (safe : String → String) (d : SweepDevice) (ds : List SweepDevice)
    → ((s : String) → valid_ha_id s ≡ true → safe s ≡ s)
    → valid_ha_id d.ha_id ≡ true
    → All (IsAlone d) ds
    → All (λ e. safe e.ha_id ≡ safe d.ha_id → e ≡ d) ds
alone_by_segment safe d [] kept valid all = tt
alone_by_segment safe d (e ∷ ds) kept valid ((good, alone), all) = (
  λ same. alone (sym (kept e.ha_id good) ∙ same ∙ kept d.ha_id valid),
  alone_by_segment safe d ds kept valid all,
)

distinct_ids : (ds : List SweepDevice) → AreDistinct ds → All (λ e. valid_ha_id e.ha_id ≡ true) ds
distinct_ids [] distinct = tt
distinct_ids (d ∷ ds) (valid, _, distinct) = (valid, distinct_ids ds distinct)

module _ (sh : SmartHome) (is_function : String → Bool) (root : String) where
  open sh use {name, safe}

  -- Whatever the configuration: once New accepts the devices, the legacy sweep of that daemon clears no
  -- topic that one of them retains now, neither its online and connection state nor the state of any of
  -- its features, whatever the devices and the features are called. (An accepted haId is one level that
  -- the segment escape keeps, `status` is a function, and the root is the instance's name.)
  pub started_sweep_spares :
      (prim : Primitives) (stem trim : String → String) (decode : String → Option (List ℕ))
      (deps : Deps) (ds : List SweepDevice) (i : ℕ) (d : SweepDevice) (topic : String)
      → new_bridge prim stem trim decode deps ≡ ok ds
      → get_elem? ds i ≡ some d
      → trim_root root ≡ name
      → is_function "status" ≡ true
      → ((s : String) → first_segment (safe s) ≡ safe s)
      → ((s : String) → valid_ha_id s ≡ true → safe s ≡ s)
      → has_topic topic (current_items sh is_function d) ≡ true
      → clears (legacy_sweep_plan sh is_function root ds) topic ≡ false
  started_sweep_spares prim stem trim decode deps ds i d topic started at same known plain kept h =
      let (_, distinct) : IsAccepted [] (ok ds) =
        subst (IsAccepted []) started (new_bridge-IsAccepted prim stem trim decode deps) in
      let valid : valid_ha_id d.ha_id ≡ true =
        all_at (λ e. valid_ha_id e.ha_id ≡ true) ds i d (distinct_ids ds distinct) at in
      clears-current_items sh is_function root ds d topic same known plain
        (alone_by_segment safe d ds kept valid (distinct-IsAlone ds i d distinct at)) h
