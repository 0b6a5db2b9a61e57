-- ===== src/State/Cache/Reads.antt =====
-- What is read of the device cache of internal/state/store.go.
use go_homeconnect2mqtt.Base.{
  String, ◌≡◌, ◌∙◌, refl, ap, All, ◌&&◌, Bool-cases, inl, inr, Option, none, some, from_option,
  List, [], ◌∷◌, length, if◌then◌else◌,
}
use go_homeconnect2mqtt.Base.Int.{ℤ}
use go_homeconnect2mqtt.Base.Keys.{◌==◌, ==_iff, text_key, int_key, lookup, insert, lookup-insert}
use go_homeconnect2mqtt.State.Cache.{
  Feature, DeviceState, Cache, CacheOp, registers, connects, updates, fresh_device, device,
  register_device, set_connection_state, update_feature, cache_step, cache_run,
}

-- The cache as a client sees it: the newest update of each feature.
abbrev pub Newest : Type 0 → Type 0
Newest V = String → String → Option (Feature V)

module _ {V : Type 0} where
  features_of : Option (DeviceState V) → List (String × Feature V)
  features_of none = []
  features_of (some d) = d.features

  -- a feature of a device as the cache has it
  unfoldable pub read_feature : Cache V → String → String → Option (Feature V)
  unfolding features_of
  read_feature m name feature = lookup feature (features_of (lookup name m))

  abbrev pub nothing_yet : Newest V
  nothing_yet name feature = none

  abbrev pub newest_step : Newest V → CacheOp V → Newest V
  newest_step f (registers _ _ _ _ _ _) = f
  newest_step f (connects _ _ _) = f
  newest_step f (updates name now uid feature v) = λ n k.
      if name == n && feature == k
      then some (record { feature = feature; uid = uid; content = v; updated_at = now })
      else f n k

  unfoldable pub newest_run : Newest V → List (CacheOp V) → Newest V
  newest_run f [] = f
  newest_run f (op ∷ ops) = newest_run (newest_step f op) ops

  device-features :
      (m : Cache V) (name : String) → (device name m).features ≡ features_of (lookup name m)
  unfolding device features_of
  device-features m name = by_found (lookup name m)
    where
      by_found :
          (o : Option (DeviceState V))
          → (from_option (fresh_device name) o).features ≡ features_of o
      by_found none = refl
      by_found (some d) = refl

  -- a write of the device that keeps its features
  read-kept :
      (m : Cache V) (name : String) (d : DeviceState V) (n k : String)
      → d.features ≡ (device name m).features
      → read_feature (insert name d m) n k ≡ read_feature m n k
  unfolding read_feature features_of
  read-kept m name d n k same = elim (Bool-cases (name == n)) [
    | inl here ↦
        let path : name ≡ n = (==_iff name n).0 here in
        rw (read_feature, lookup-insert name n d m, here)
          (ap (lookup k) (same ∙ device-features m name ∙ ap (λ x. features_of (lookup x m)) path))
    | inr other ↦ rw (read_feature, lookup-insert name n d m, other) refl
  ]

  read-cache_step :
      (m : Cache V) (op : CacheOp V) (n k : String)
      → read_feature (cache_step m op) n k ≡ newest_step (read_feature m) op n k
  unfolding cache_step register_device set_connection_state update_feature read_feature features_of
  read-cache_step m (registers name ha_id brand kind vib info) n k =
      let d = device name m in
      read-kept m name
        (record d {
          ha_id = ha_id;
          brand = brand;
          kind = kind;
          vib = vib;
          info = from_option d.info info;
        })
        n k refl
  read-cache_step m (connects name state up) n k =
      read-kept m name (record (device name m) { connection_state = state; available = up }) n k
        refl
  read-cache_step m (updates name now uid feature v) n k =
      let d = device name m in
      let item : Feature V = record {
        feature = feature;
        uid = uid;
        content = v;
        updated_at = now;
      } in
      let after = insert feature item d.features in
      let d' : DeviceState V = record d {
        features = after;
        feature_count = length after;
        updated_at = some now;
      } in
      elim (Bool-cases (name == n)) [
        | inr other ↦ rw (read_feature, lookup-insert name n d' m, other) refl
        | inl here ↦
            let path : name ≡ n = (==_iff name n).0 here in
            let old : lookup k d.features ≡ lookup k (features_of (lookup n m)) =
              ap (lookup k) (device-features m name ∙ ap (λ x. features_of (lookup x m)) path) in
            rw
              (
                read_feature,
                lookup-insert name n d' m,
                here,
                lookup-insert feature k item d.features,
                old,
              )
              refl
      ]

  cache_run-newest :
      (m : Cache V) (f : Newest V) (ops : List (CacheOp V))
      → ((n k : String) → read_feature m n k ≡ f n k)
      → (n k : String) → read_feature (cache_run m ops) n k ≡ newest_run f ops n k
  unfolding cache_run newest_run
  cache_run-newest m f [] h n k = h n k
  cache_run-newest m f (op ∷ ops) h n k =
      cache_run-newest (cache_step m op) (newest_step f op) ops (step_newest op) n k
    where
      step_newest :
          (op : CacheOp V) (n k : String)
          → read_feature (cache_step m op) n k ≡ newest_step f op n k
      step_newest op n k = read-cache_step m op n k ∙ agrees op
        where
          agrees : (op : CacheOp V) → newest_step (read_feature m) op n k ≡ newest_step f op n k
          agrees (registers _ _ _ _ _ _) = h n k
          agrees (connects _ _ _) = h n k
          agrees (updates name now uid feature v) = rw (h n k) refl

  empty_read : (n k : String) → read_feature [] n k ≡ none
  unfolding read_feature features_of lookup
  empty_read n k = refl

  read_by_name :
      (ops : List (CacheOp V)) (name feature : String)
      → read_feature (cache_run [] ops) name feature ≡ newest_run nothing_yet ops name feature
  read_by_name ops name feature = cache_run-newest [] nothing_yet ops empty_read name feature

  -- The newest update of the feature with a uid, of one device; `before` what is known already
  abbrev pub of_uid_step : String → ℤ → CacheOp V → Option (Feature V) → Option (Feature V)
  of_uid_step n u (registers _ _ _ _ _ _) before = before
  of_uid_step n u (connects _ _ _) before = before
  of_uid_step n u (updates name now uid feature v) before =
      if name == n && uid == u
      then some (record { feature = feature; uid = uid; content = v; updated_at = now })
      else before

  unfoldable pub of_uid : String → ℤ → Option (Feature V) → List (CacheOp V) → Option (Feature V)
  of_uid n u before [] = before
  of_uid n u before (op ∷ ops) = of_uid n u (of_uid_step n u op before) ops

  -- An update of the device carries this name exactly where it carries this uid.
  abbrev pub IsNamed : String → String → ℤ → CacheOp V → Type 0
  IsNamed n k u (updates name now uid feature v) =
      (name == n && feature == k) ≡ (name == n && uid == u)
  IsNamed n k u _ = Unit

  step_by_uid :
      (n k : String) (u : ℤ) (op : CacheOp V) (f : Newest V)
      → IsNamed n k u op
      → newest_step f op n k ≡ of_uid_step n u op (f n k)
  step_by_uid n k u (registers _ _ _ _ _ _) f named = refl
  step_by_uid n k u (connects _ _ _) f named = refl
  step_by_uid n k u (updates name now uid feature v) f named = rw named refl

  run_by_uid :
      (n k : String) (u : ℤ) (ops : List (CacheOp V)) (f : Newest V)
      → All (IsNamed n k u) ops
      → newest_run f ops n k ≡ of_uid n u (f n k) ops
  unfolding newest_run of_uid
  run_by_uid n k u [] f named = refl
  run_by_uid n k u (op ∷ ops) f (here, named) =
      run_by_uid n k u ops (newest_step f op) named
      ∙ ap (λ b. of_uid n u b ops) (step_by_uid n k u op f here)

  -- For a feature whose name no other feature of the device has: what the cache holds under that name
  -- is the newest update of the feature with its uid, whatever was registered, connected and updated
  -- since, of this device or of another. (The cache keys a feature by its name, so features that share
  -- a name, or have none, share an entry.)
  pub cache_holds_newest :
      (ops : List (CacheOp V)) (name feature : String) (uid : ℤ)
      → All (IsNamed name feature uid) ops
      → read_feature (cache_run [] ops) name feature ≡ of_uid name uid none ops
  cache_holds_newest ops name feature uid named =
      read_by_name ops name feature ∙ run_by_uid name feature uid ops nothing_yet named
