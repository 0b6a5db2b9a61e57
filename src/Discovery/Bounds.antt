-- ===== src/Discovery/Bounds.antt =====
-- numberBounds of internal/hass/payload.go.
use go_homeconnect2mqtt.Base.{◌≡◌, inl, inr, true, false, Bool-cases, Option, none, some}
use go_homeconnect2mqtt.Entity.{Entity}
use go_homeconnect2mqtt.Discovery.{Floats, least, most, finite_only, step_only, number_bounds}

module _ {F : Type 0} (floats : Floats F) where
  abbrev pub IsFinite : Option F → Type 0
  IsFinite none = Unit
  IsFinite (some f) = floats.is_finite f ≡ true

  abbrev pub IsStep : Option F → Type 0
  IsStep none = Unit
  IsStep (some s) = (floats.is_finite s ≡ true) × (floats.at_least s floats.milli ≡ true)

  finite_only-IsFinite : (m : Option F) → IsFinite (finite_only floats m)
  unfolding finite_only
  finite_only-IsFinite none = tt
  finite_only-IsFinite (some f) = elim (Bool-cases (floats.is_finite f)) [
    | inl good ↦ rw good good
    | inr bad ↦ rw bad tt
  ]

  step_only-IsStep : (m : Option F) → IsFinite m → IsStep (step_only floats m)
  unfolding step_only
  step_only-IsStep none h = tt
  step_only-IsStep (some s) h = elim (Bool-cases (floats.at_least s floats.milli)) [
    | inl good ↦ rw good (h, good)
    | inr bad ↦ rw bad tt
  ]

  -- The bounds of a number are finite, and what Home Assistant makes of them, with 0 and 100 for a
  -- bound that is left out, is no empty range; a step is finite and not under its smallest one.
  -- The one fact on float64 that this uses is that 0 is not greater than 100.
  pub number_bounds_fit :
      floats.greater floats.naught floats.hundred ≡ false
      → (e : Entity F)
      → let r = number_bounds floats e in
        (floats.greater (least floats r.0) (most floats r.1) ≡ false)
        × IsFinite r.0
        × IsFinite r.1
        × IsStep r.2
  unfolding number_bounds
  number_bounds_fit order e =
      let lo = finite_only-IsFinite e.min in
      let hi = finite_only-IsFinite e.max in
      let step =
        step_only-IsStep (finite_only floats e.step_size) (finite_only-IsFinite e.step_size) in
      elim (Bool-cases (
        floats.greater (least floats (finite_only floats e.min))
          (most floats (finite_only floats e.max)))) [
            | inl crossed ↦ rw (number_bounds, crossed) (order, tt, tt, step)
            | inr fine ↦ rw (number_bounds, fine) (fine, lo, hi, step)
          ]
