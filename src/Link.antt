-- ===== src/Link.antt =====
-- internal/bridge/device.go: the items of an appliance's link, and the level of the fleet. onState
-- and reassertLink publish under the link's lock; `up` tells whether the broker takes the publish.
pub mod Restored
pub mod Fleet
use go_homeconnect2mqtt.Base.{
  ℕ, String, Bool, true, false, ◌||◌, Option, none, some, List, [], ◌∷◌, if◌then◌else◌,
}
use go_homeconnect2mqtt.Base.Keys.{◌==◌, text_key, insert}
use go_homeconnect2mqtt.Reconnect.{ConnectionState, connected}

-- deviceLink; no state before the first onState.
pub record DeviceLink : Type 0 where
  pub state : Option ConnectionState
  pub online : Bool
  pub online_known : Bool

-- What the broker holds retained under the items `connection_state` and `online`.
pub record Items : Type 0 where
  pub state_item : Option ConnectionState
  pub online_item : Option Bool

pub record LinkWorld : Type 0 where
  pub link : DeviceLink
  pub items : Items

-- The critical sections: the two of onState, for the state that it was called with, and reassertLink.
-- `forgets` is a broker that comes back without its retained messages.
pub data LinkOp : Type 0 where
  enters : ConnectionState → Bool → LinkOp
  settles : ConnectionState → Bool → LinkOp
  reasserts : Bool → LinkOp
  forgets : LinkOp

abbrev pub is_connected : ConnectionState → Bool
is_connected connected = true
is_connected _ = false

abbrev pub put_state : Bool → ConnectionState → Items → Items
put_state up s i = if up then record i { state_item = some s } else i

abbrev pub put_online : Bool → Bool → Items → Items
put_online up b i = if up then record i { online_item = some b } else i

-- reassertLink
unfoldable pub reassert_link : Bool → DeviceLink → Items → Items
reassert_link up l i =
    let j : Items = elim l.state [ none ↦ i | some s ↦ put_state up s i ] in
    if l.online_known then put_online up l.online j else j

unfoldable pub link_step : LinkWorld → LinkOp → LinkWorld
unfolding reassert_link
link_step w (enters s up) = record {
  link = record (w.link) { state = some s };
  items = put_state up s w.items;
}
link_step w (settles s up) = record {
  link = record (w.link) { online = is_connected s; online_known = true };
  items = put_online up (is_connected s) w.items;
}
link_step w (reasserts up) = record w { items = reassert_link up w.link w.items }
link_step w forgets = record w { items = record { state_item = none; online_item = none } }

unfoldable pub link_run : LinkWorld → List LinkOp → LinkWorld
unfolding link_step
link_run w [] = w
link_run w (op ∷ ops) = link_run (link_step w op) ops

abbrev pub no_link : LinkWorld
no_link = record {
  link = record { state = none; online = false; online_known = false };
  items = record { state_item = none; online_item = none };
}

-- setDeviceConnected: the map `linked` and the level that it publishes.
pub data Level : Type 0 where
  broker operational : Level

unfoldable pub any_up : List (String × Bool) → Bool
any_up [] = false
any_up ((_, up) ∷ rest) = up || any_up rest

unfoldable pub set_device_connected :
    String → Bool → List (String × Bool) → List (String × Bool) × Level
unfolding any_up
set_device_connected ha_id up linked =
    let after = insert ha_id up linked in (after, if any_up after then operational else broker)

-- the reports of the appliances, oldest first
unfoldable pub fleet_run : List (String × Bool) → List (String × Bool) → List (String × Bool)
unfolding set_device_connected
fleet_run linked [] = linked
fleet_run linked ((ha_id, up) ∷ rs) = fleet_run (set_device_connected ha_id up linked).0 rs
