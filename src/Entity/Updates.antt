-- ===== src/Entity/Updates.antt =====
-- update of internal/homeconnect/entities.go.
use go_homeconnect2mqtt.Base.{◌≡◌, arith}
use go_homeconnect2mqtt.Value.{Host}
use go_homeconnect2mqtt.Message.{Item}
use go_homeconnect2mqtt.Entity.{Entity, update}

module _ (host : Host) where
  open host use {Float}

  pub update-desc : (item : Item Float) (e : Entity Float) → (update host item e).desc ≡ e.desc
  unfolding update
  update-desc item e = ground arith

  pub update-rev_enum :
      (item : Item Float) (e : Entity Float) → (update host item e).rev_enum ≡ e.rev_enum
  unfolding update
  update-rev_enum item e = ground arith

  module _ (item : Item Float) (e : Entity Float) where
    abbrev once : Entity Float
    once = update host item e

    abbrev twice : Entity Float
    twice = update host item once

    has_value_idem : twice.has_value ≡ once.has_value
    unfolding update
    has_value_idem = ground arith

    value_raw_idem : twice.value_raw ≡ once.value_raw
    unfolding update
    value_raw_idem = ground arith

    value_shadow_idem : twice.value_shadow ≡ once.value_shadow
    unfolding update
    value_shadow_idem = ground arith

    access_idem : twice.access ≡ once.access
    unfolding update
    access_idem = ground arith

    available_idem : twice.available ≡ once.available
    unfolding update
    available_idem = ground arith

    min_idem : twice.min ≡ once.min
    unfolding update
    min_idem = ground arith

    max_idem : twice.max ≡ once.max
    unfolding update
    max_idem = ground arith

    step_size_idem : twice.step_size ≡ once.step_size
    unfolding update
    step_size_idem = ground arith

    execution_idem : twice.execution ≡ once.execution
    unfolding update
    execution_idem = ground arith

  -- A notification that is delivered twice has the effect of one: update is idempotent for every
  -- item, whatever keys it has and whatever they hold.
  pub update_idem :
      (item : Item Float) (e : Entity Float)
      → update host item (update host item e) ≡ update host item e
  update_idem item e = λ i. record {
    desc = update-desc item (update host item e) i;
    has_value = has_value_idem item e i;
    value_raw = value_raw_idem item e i;
    value_shadow = value_shadow_idem item e i;
    access = access_idem item e i;
    available = available_idem item e i;
    min = min_idem item e i;
    max = max_idem item e i;
    step_size = step_size_idem item e i;
    execution = execution_idem item e i;
    rev_enum = update-rev_enum item (update host item e) i;
  }
