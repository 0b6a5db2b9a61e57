-- ===== src/Tests/Commands.antt =====
-- Commands and the publish queue on a concrete appliance.
use go_homeconnect2mqtt.Base.{
  ℕ, zero, suc, String, ◌≡◌, ◌<◌, inl, refl, true, false, none, List, [], ◌∷◌, length, replicate,
  arith,
}
use go_homeconnect2mqtt.Base.Int.{ℤ, pos}
use go_homeconnect2mqtt.Base.Keys.{==_iff, text_key, int_key, lookup, insert}
use go_homeconnect2mqtt.Value.{str}
use go_homeconnect2mqtt.Entity.{Entry, program, writable, reversed, new_entity, resolve_write_value}
use go_homeconnect2mqtt.Appliance.{
  Appliance, entity, entity_at, new_appliance, add_entry, build, write_value, prepare_write,
}
use go_homeconnect2mqtt.Layout.{
  command, cut_prefix, split_dots, feature_item, feature_path, control_path,
}
use go_homeconnect2mqtt.Layout.RoundTrip.{dots_to_slashes, has_slash}
use go_homeconnect2mqtt.Publisher.{
  new_publisher, World, waiting, PubOp, works, enqueues, signals, start_publisher, pub_run,
}
use go_homeconnect2mqtt.Publisher.Wake.{is_stuck, no_lost_wakeup, reverse_onto, woken_worker_drains}
use go_homeconnect2mqtt.Publisher.Log.{
  QueueOp, offers, takes, empty_log, log_outputs, queue_outputs, queue_refines_log,
}
use go_homeconnect2mqtt.Command.{SetValue, Setup, Device, Attempt, Request}
use go_homeconnect2mqtt.Command.Window.{turn, window}
use go_homeconnect2mqtt.Command.Window.Settles.{is_busy, window_settles}
use go_homeconnect2mqtt.Command.Routing.{resolve_entity, apply_set, on_command}
use go_homeconnect2mqtt.Command.Routing.Reached.{set_reaches_feature}
use go_homeconnect2mqtt.Command.Web.{dispatch_kind}
use go_homeconnect2mqtt.Command.Web.Agreement.{Agree, mqtt_agrees_with_web}
use go_homeconnect2mqtt.Tests.Parameters.{whole_host, plain_layout}
use go_homeconnect2mqtt.Tests.Features.{power, oven}

abbrev traffic : List (QueueOp ℕ)
traffic = offers 1 ∷ offers 2 ∷ takes ∷ offers 3 ∷ takes ∷ takes ∷ takes ∷ []

queue_refines_log_example : queue_outputs new_publisher traffic ≡ log_outputs empty_log traffic
queue_refines_log_example = queue_refines_log traffic

abbrev updates : List (PubOp ℕ)
updates = enqueues 1 ∷ works false ∷ enqueues 2 ∷ signals ∷ []

no_lost_wakeup_example : is_stuck (pub_run start_publisher updates) ≡ false
no_lost_wakeup_example = no_lost_wakeup updates

abbrev woken : World ℕ
woken = record {
  publisher = record { queue = 1 ∷ 2 ∷ []; dropped = 0; wake = true; warned = [] };
  worker = waiting;
  signalling = 0;
  published = [];
}

woken_worker_drains_example :
    let w' = pub_run woken (replicate (suc (suc (length woken.publisher.queue))) (works false)) in
    (w'.worker ≡ waiting)
    × (w'.publisher.queue ≡ [])
    × (w'.published ≡ reverse_onto woken.publisher.queue woken.published)
woken_worker_drains_example = woken_worker_drains woken refl refl

abbrev setup : Setup ℤ
setup = record { table = []; language = "de"; parse_json = λ s. none; retries = 3 }

abbrev kitchen_oven : Device
kitchen_oven = record { name = "Oven"; ha_id = "0123"; kind = "Oven" }

abbrev with_oven : Appliance ℤ → Attempt ℤ
with_oven a = record { appliance = a; answer = λ c. none; cancelled = false }

abbrev steady : ℕ → Attempt ℤ
steady n = with_oven oven

-- The setting cannot be written at first.
abbrev locked : Appliance ℤ
locked = new_appliance whole_host true (record power { access = "read" } ∷ [])

abbrev unlocked_later : ℕ → Attempt ℤ
unlocked_later zero = with_oven locked
unlocked_later (suc n) = with_oven oven

locked_first :
    (j : ℕ)
    → j < 1
    → (is_busy whole_host 0 (str "on") (unlocked_later j) ≡ true)
      × ((unlocked_later j).cancelled ≡ false)
unfolding is_busy new_appliance build add_entry new_entity writable
locked_first zero less = (refl, refl)
locked_first (suc j) less = absurd (omega arith)

unlocked : is_busy whole_host 0 (str "on") (unlocked_later 1) ≡ false
unfolding is_busy new_appliance build add_entry new_entity writable write_value prepare_write entity
    entity_at lookup insert resolve_write_value reversed
unlocked = refl

window_settles_example :
    (window whole_host 0 (str "on") unlocked_later 3 0).ending
    ≡ (turn whole_host 0 (str "on") (unlocked_later 1) none).ending
window_settles_example =
    window_settles whole_host 0 (str "on") unlocked_later 1 3 (omega arith) locked_first
      (inl unlocked)

abbrev plain_text : String → SetValue ℤ
plain_text s = record { text = s; params = none; as_bool = none; number = λ lo hi step. none }

abbrev set_power : Request ℤ
set_power = record { topic = "home/set/0123/Power"; retained = false; value = plain_text "on" }

abbrev baking : Entry ℤ
baking = record power { uid = pos 8192; name = "Cooking.Oven.Program.Bake"; kind = program }

mqtt_agrees_with_web_example :
    Agree
      (apply_set plain_layout whole_host setup kitchen_oven steady 0
        (new_entity whole_host baking)
        (plain_text ""))
      (dispatch_kind whole_host setup kitchen_oven
        (steady 0)
        program
        (new_entity whole_host baking)
        (str "on"))
unfolding new_entity
mqtt_agrees_with_web_example =
    mqtt_agrees_with_web whole_host plain_layout setup kitchen_oven steady 0
      (new_entity whole_host baking) (plain_text "") (str "on") refl refl refl

-- The same setting under a uid that the layout of these tests can print.
abbrev first_power : Entry ℤ
first_power = record power { uid = pos 1 }

abbrev small_oven : ℕ → Attempt ℤ
small_oven n = with_oven (new_appliance whole_host true (first_power ∷ []))

set_reaches_feature_example :
    on_command plain_layout whole_host setup kitchen_oven small_oven set_power
    ≡ apply_set plain_layout whole_host setup kitchen_oven small_oven 0
        (new_entity whole_host first_power)
        (plain_text "on")
unfolding command feature_item feature_path split_dots dots_to_slashes has_slash cut_prefix
    control_path new_appliance build add_entry new_entity lookup insert resolve_entity
set_reaches_feature_example =
    set_reaches_feature plain_layout whole_host setup kitchen_oven small_oven set_power 0
      (new_entity whole_host first_power) refl refl
      (
        (refl, tt),
        refl,
        refl,
        refl,
        λ e. ground (arith, (==_iff {A = String} "Power" "").1 e),
        refl,
        refl,
      )
      refl refl
