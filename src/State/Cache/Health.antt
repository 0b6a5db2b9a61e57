-- ===== src/State/Cache/Health.antt =====
-- The status of Health and the counts of features in internal/state/store.go.
use go_homeconnect2mqtt.Base.{
  ℕ, String, ◌≡◌, ◌∙◌, ◌↔◌, refl, false, Bool-cases, inl, inr, List, [], ◌∷◌, All, length, arith,
}
use go_homeconnect2mqtt.Base.Keys.{◌==◌, ==_iff, text_key, lookup, insert}
use go_homeconnect2mqtt.State.Cache.{
  DeviceState, Cache, CacheOp, registers, connects, updates, device, register_device,
  set_connection_state, update_feature, cache_step, cache_run, is_stale, health_status,
}

not_ok : (let degraded : String = "degraded" in degraded ≡ "ok") → ⊥
not_ok e = ground (arith, (==_iff {A = String} "degraded" "ok").1 e)

module _ {V : Type 0} where
  abbrev pub IsFresh : ℕ → ℕ → String × DeviceState V → Type 0
  IsFresh threshold now e = is_stale threshold now e.1 ≡ false

  -- The status is ok where no device is stale, and only there.
  pub health_status_iff :
      (threshold now : ℕ) (m : Cache V)
      → (health_status threshold now m ≡ "ok") ↔ All (IsFresh threshold now) m
  unfolding health_status
  health_status_iff threshold now [] = (λ e. tt, λ h. refl)
  health_status_iff threshold now ((name, d) ∷ m) = elim (Bool-cases (is_stale threshold now d)) [
    | inl stale ↦ (
      λ e.
          let degraded : String = "degraded" in
          let no : degraded ≡ "ok" = rw stale at e in absurd (not_ok no),
      λ (fresh, rest). cc,
    )
    | inr fresh ↦
        let (to, back) = health_status_iff threshold now m in
        (λ e. (fresh, to (rw fresh at e)), λ (_, rest). rw fresh (back rest))
  ]

  -- each device stands under its name and counts its features
  abbrev pub Counts : String × DeviceState V → Type 0
  Counts e = (e.1.name ≡ e.0) × (e.1.feature_count ≡ length e.1.features)

  insert-Counts :
      (name : String) (d : DeviceState V) (m : Cache V)
      → Counts (name, d)
      → All Counts m
      → All Counts (insert name d m)
  unfolding insert
  insert-Counts name d [] c h = (c, tt)
  insert-Counts name d ((j, e) ∷ m) c (g, h) = elim (Bool-cases (j == name)) [
    | inl same ↦ rw same (c, h)
    | inr other ↦ rw other (g, insert-Counts name d m c h)
  ]

  device-Counts : (name : String) (m : Cache V) → All Counts m → Counts (name, device name m)
  unfolding device lookup
  device-Counts name [] h = (refl, refl)
  device-Counts name ((j, e) ∷ m) (g, h) = elim (Bool-cases (j == name)) [
    | inl same ↦ let path : j ≡ name = (==_iff j name).0 same in rw (device, same) (g.0 ∙ path, g.1)
    | inr other ↦ rw (device, other) (device-Counts name m h)
  ]

  step-Counts : (m : Cache V) (op : CacheOp V) → All Counts m → All Counts (cache_step m op)
  unfolding cache_step register_device set_connection_state update_feature
  step-Counts m (registers name ha_id brand kind vib info) h =
      insert-Counts name _ m (device-Counts name m h) h
  step-Counts m (connects name state up) h = insert-Counts name _ m (device-Counts name m h) h
  step-Counts m (updates name now uid feature v) h =
      insert-Counts name _ m ((device-Counts name m h).0, refl) h

  run-Counts : (m : Cache V) (ops : List (CacheOp V)) → All Counts m → All Counts (cache_run m ops)
  unfolding cache_run
  run-Counts m [] h = h
  run-Counts m (op ∷ ops) h = run-Counts (cache_step m op) ops (step-Counts m op h)

  -- Every device of the cache stands under its own name, and its feature count is the number of its
  -- features.
  pub cache_run-Counts : (ops : List (CacheOp V)) → All Counts (cache_run [] ops)
  cache_run-Counts ops = run-Counts [] ops tt
