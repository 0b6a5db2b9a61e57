-- ===== src/Handshake/PostInit.antt =====
-- PostConnectInit of internal/homeconnect/session.go: which errors it tolerates.
use go_homeconnect2mqtt.Base.{
  ℕ, suc, ◌+◌, String, ◌≡◌, refl, ap, ◌∙◌, Option, none, some, List, ◌∷◌, length, Result, ok, err,
  arith, if◌then◌else◌,
}
use go_homeconnect2mqtt.Base.Int.{ℤ, pos, leb_ℤ}
use go_homeconnect2mqtt.Message.{Message, code_error}
use go_homeconnect2mqtt.Handshake.Exec.{
  Outcome, fails, answers, hangs_up, times_out, cancels, SessionError, send_failed,
  connection_closed, response_timeout, cancelled, code_response, Conn, continue, ◌>>=◌, pure, raise,
  send_sync,
}
use go_homeconnect2mqtt.Handshake.Program.{tolerable_init, bulk, post_connect_init}

abbrev Both : Type 0 → Type 0
Both F = Option (Message F) × Option (Message F)

module _ {F : Type 0} where
  -- docs/01-protocol.md §6.3: what a bulk request makes of an outcome. A code of 500 and above
  -- yields no message and no error.
  abbrev pub judged : Message F → Option ℤ → Result SessionError (Option (Message F))
  judged m none = ok (some m)
  judged m (some c) =
      if leb_ℤ (pos 500) c
      then ok none
      else err (code_response (record { code = c; resource = m.resource }))

  abbrev pub verdict : Outcome F → Result SessionError (Option (Message F))
  verdict fails = err send_failed
  verdict (answers m) = judged m m.code
  verdict hangs_up = err connection_closed
  verdict times_out = err response_timeout
  verdict cancels = err cancelled

  abbrev pub both :
      Result SessionError (Option (Message F))
      → Result SessionError (Option (Message F))
      → Result SessionError (Option (Message F) × Option (Message F))
  both (ok a) (ok b) = ok (a, b)
  both (ok a) (err e) = err e
  both (err e) _ = err e

  abbrev pub tries : Result SessionError (Option (Message F)) → ℕ
  tries (ok a) = 2
  tries (err e) = 1

  bulk_lem :
      (resource : String) (c : Conn F) (o : Outcome F) (os : List (Outcome F))
      → c.script ≡ o ∷ os
      → ((bulk resource c).0 ≡ verdict o)
        × ((bulk resource c).1.script ≡ os)
        × (length (bulk resource c).1.attempted ≡ suc (length c.attempted))
  unfolding bulk send_sync tolerable_init code_error pure raise
  bulk_lem resource c o os h = ground arith

  last_step :
      (v v2 : Result SessionError (Option (Message F))) (a : Option (Message F)) (c : Conn F)
      → v ≡ v2
      → ((continue {B = Both F} v (λ b. pure (a, b)) c).0 ≡ both (ok a) v2)
        × ((continue {B = Both F} v (λ b. pure (a, b)) c).1 ≡ c)
  unfolding pure
  last_step (ok b) v2 a c e = rw (← e) (refl, refl)
  last_step (err x) v2 a c e = rw (← e) (refl, refl)

  second_step :
      (v v2 : Result SessionError (Option (Message F))) (c : Conn F) (n : ℕ)
      → (bulk "/ro/allMandatoryValues" c).0 ≡ v2
      → length c.attempted ≡ suc n
      → length (bulk "/ro/allMandatoryValues" c).1.attempted ≡ suc (suc n)
      → let r =
          continue {B = Both F} v (λ a. bulk "/ro/allMandatoryValues" >>= λ b. pure (a, b)) c in
        (r.0 ≡ both v v2) × (length r.1.attempted ≡ tries v + n)
  unfolding ◌>>=◌
  second_step (ok a) v2 c n e l l2 =
      let c1 = (bulk "/ro/allMandatoryValues" c).1 in
      let (r, s) = last_step (bulk "/ro/allMandatoryValues" c).0 v2 a c1 e in
      (r, ap (λ d. length d.attempted) s ∙ omega arith)
  second_step (err x) v2 c n e l l2 = (refl, omega arith)

  -- Whatever the two outcomes, PostConnectInit returns both verdicts, or the first that is an
  -- error; after an error in the first request the second is not made.
  pub post_connect_init_verdicts :
      (c : Conn F) (o o2 : Outcome F) (os : List (Outcome F))
      → c.script ≡ o ∷ o2 ∷ os
      → ((post_connect_init c).0 ≡ both (verdict o) (verdict o2))
        × (length (post_connect_init c).1.attempted ≡ tries (verdict o) + length c.attempted)
  unfolding post_connect_init ◌>>=◌
  post_connect_init_verdicts c o o2 os h =
      let (r, s, n) = bulk_lem "/ro/allDescriptionChanges" c o (o2 ∷ os) h in
      let c1 = (bulk "/ro/allDescriptionChanges" c).1 in
      let (r2, _, n2) = bulk_lem "/ro/allMandatoryValues" c1 o2 os s in
      rw r (second_step (verdict o) (verdict o2) c1 (length c.attempted) r2 n (n2 ∙ ap suc n))
