-- ===== src/Appliance/Gate.antt =====
-- WriteValue of internal/homeconnect/appliance.go: what reaches the session.
use go_homeconnect2mqtt.Base.{
  ◌≡◌, ◌⊎◌, inl, inr, refl, true, Option, some, [], ◌∷◌, Result, ok, err, arith, Option-cases,
  Bool-cases,
}
use go_homeconnect2mqtt.Base.Int.{ℤ}
use go_homeconnect2mqtt.Value.{Value, Host}
use go_homeconnect2mqtt.Entity.{Entity, WriteError, writable, resolve_write_value}
use go_homeconnect2mqtt.Appliance.{
  Appliance, entity, Call, write_values, ApplianceError, unknown_uid, not_writable, unresolved,
  prepare_write, write_value,
}

module _ (host : Host) where
  open host use {Float}

  -- The entity is known and writable, and the value resolves to what is sent for it.
  pub record IsAllowed (uid : ℤ) (v : Value Float) (a : Appliance Float) (call : Call Float)
      : Type 0 where
    pub target : Entity Float
    pub raw : Value Float
    pub known : entity uid a ≡ some target
    pub is_writable : writable target ≡ true
    pub resolved : resolve_write_value host v target ≡ ok raw
    pub is_call : call ≡ write_values uid raw

  -- WriteValue sends nothing, or sends one write that is allowed; if it sends nothing, it returns
  -- an error and changes nothing.
  pub write_value_gate :
      {E : Type 0} (session : Call Float → Option E) (uid : ℤ) (v : Value Float)
      (a : Appliance Float)
      → let r = write_value host session uid v a in
        ((x : ApplianceError E) × (r ≡ (err x, [], a)))
        ⊎ ((call : Call Float) × (r.1 ≡ call ∷ []) × IsAllowed uid v a call)
  unfolding write_value
  write_value_gate {E} session uid v a = elim (Option-cases (entity uid a)) [
    | inl missing ↦ inl (unknown_uid, rw (missing, prepare_write, write_value) refl)
    | inr (e, found) ↦ elim (Bool-cases (writable e)) [
      | inr fixed ↦ inl (not_writable, rw (found, fixed, write_value) refl)
      | inl free ↦ by_value e found free (resolve_write_value host v e) refl
    ]
  ]
    where
      by_value :
          (e : Entity Float)
          → entity uid a ≡ some e
          → writable e ≡ true
          → (r : Result WriteError (Value Float)) → resolve_write_value host v e ≡ r
          → (let r = write_value host session uid v a in
              ((x : ApplianceError E) × (r ≡ (err x, [], a)))
              ⊎ ((call : Call Float) × (r.1 ≡ call ∷ []) × IsAllowed uid v a call))
      by_value e found free (err x) q = inl (unresolved x, rw (found, free, q, write_value) refl)
      by_value e found free (ok raw) q = inr (
        write_values uid raw,
        rw (found, free, q, write_value) (ground arith),
        record {
          target = e;
          raw = raw;
          known = found;
          is_writable = free;
          resolved = q;
          is_call = refl;
        },
      )
