-- ===== src/Handshake/Order.antt =====
-- The sequence of requests of the handshake in internal/homeconnect/session.go.
use go_homeconnect2mqtt.Base.{
  String, ◌≡◌, refl, ap, ◌∙◌, Bool, true, false, from_option, is_some, List, [], ◌∷◌, map, Result,
  ok, err, arith,
}
use go_homeconnect2mqtt.Base.Int.{ℤ, pos, int_beq, ltb_ℤ}
use go_homeconnect2mqtt.Base.Keys.{lookup, text_key}
use go_homeconnect2mqtt.Value.{Host}
use go_homeconnect2mqtt.Message.{get, notify, Message}
use go_homeconnect2mqtt.Session.{Session, service_version, store_services, resolve_defaults}
use go_homeconnect2mqtt.Handshake.Exec.{
  SessionError, Conn, Exec, pure, raise, gets, modify, continue, ◌>>=◌, ◌>>◌, tolerate, when, write,
  send, send_sync,
}
use go_homeconnect2mqtt.Handshake.Program.{
  arrives, Identity, request, init_response, auth_request, take_nonce, authenticate, optional_steps,
  adopt, negotiate, greet, handshake,
}

abbrev pub opt : Bool → String → List String → List String
opt true x xs = x ∷ xs
opt false x xs = xs

-- docs/01-protocol.md §6, newest first: the resources that a complete handshake asks for, by the
-- version of ei and the negotiated services.
abbrev pub plan : ℤ → List (String × ℤ) → List String
plan ei versions =
    let old = ltb_ℤ (from_option (pos 0) (lookup "ci" versions)) (pos 3) in
    opt (is_some (lookup "ni" versions)) "/ni/info" (
      opt (int_beq ei (pos 2)) "/ei/deviceReady" (
        opt (is_some (lookup "iz" versions)) "/iz/info" (
          opt old "/ci/info"
            (opt old "/ci/authentication" ("/ci/services" ∷ "/ei/initialValues" ∷ [])))))

-- The plan from its three parts: behind the services, behind the login, at the end.
plan_parts :
    (ei : ℤ) (v v2 v3 : List (String × ℤ)) (r r2 r3 : List String)
    → v2 ≡ v
    → v3 ≡ v2
    → r ≡ "/ci/services" ∷ "/ei/initialValues" ∷ []
    → (let old = ltb_ℤ (from_option (pos 0) (lookup "ci" v)) (pos 3) in
        r2 ≡ opt old "/ci/info" (opt old "/ci/authentication" r))
    → r3
      ≡ opt (is_some (lookup "ni" v2)) "/ni/info" (
          opt (int_beq ei (pos 2)) "/ei/deviceReady" (opt (is_some (lookup "iz" v2)) "/iz/info" r2))
    → r3 ≡ plan ei v3
plan_parts ei v v2 v3 r r2 r3 a b p q t = t ∙ rw (b, a, q, p) refl

module _ {F : Type 0} where
  abbrev pub resources : Conn F → List String
  resources c = map (λ m. m.resource) c.attempted

  abbrev versions : Conn F → List (String × ℤ)
  versions c = c.session.service_versions

  resolve_defaults-resource :
      (m : Message F) (s : Session)
      → ((resolve_defaults m s).0.resource ≡ m.resource)
        × ((resolve_defaults m s).1.service_versions ≡ s.service_versions)
  unfolding resolve_defaults
  resolve_defaults-resource m s = ground arith

  write-resource :
      (m : Message F) (c : Conn F)
      → (resources (write m c).2 ≡ m.resource ∷ resources c) × (versions (write m c).2 ≡ versions c)
  unfolding write
  write-resource m c =
      let (r, v) = resolve_defaults-resource m c.session in (ap (λ x. x ∷ resources c) r, v)

  -- An action that never fails, asks for a resource if a test holds, and keeps the services.
  record Asks (b : Bool) (x : String) (m : Exec F (Unit {0})) : Type 0 where
    succeeds : (c : Conn F) → (m c).0 ≡ ok tt
    asks : (c : Conn F) → resources (m c).1 ≡ opt b x (resources c)
    keeps : (c : Conn F) → versions (m c).1 ≡ versions c

  Asks-send_sync : (b : Bool) (m : Message F) → Asks b m.resource (when b (tolerate (send_sync m)))
  unfolding when tolerate send_sync
  Asks-send_sync true m = record {
    succeeds = λ c. refl;
    asks = λ c. (write-resource m c).0;
    keeps = λ c. (write-resource m c).1;
  }
  Asks-send_sync false m = record { succeeds = λ c. refl; asks = λ c. refl; keeps = λ c. refl }

  Asks-send : (b : Bool) (m : Message F) → Asks b m.resource (when b (tolerate (send m)))
  unfolding when tolerate send
  Asks-send true m = record {
    succeeds = λ c. refl;
    asks = λ c. (write-resource m c).0;
    keeps = λ c. (write-resource m c).1;
  }
  Asks-send false m = record { succeeds = λ c. refl; asks = λ c. refl; keeps = λ c. refl }

  >>=_lem :
      {A B : Type 0} (m : Exec F A) (f : A → Exec F B) (c : Conn F) (a : A)
      → (m c).0 ≡ ok a
      → (m >>= f) c ≡ f a (m c).1
  unfolding ◌>>=◌
  >>=_lem m f c a e = rw e

  -- An action that succeeds succeeds in its first part.
  >>=-ok :
      {A B : Type 0} (m : Exec F A) (f : A → Exec F B) (c : Conn F) (b : B)
      → ((m >>= f) c).0 ≡ ok b
      → (a : A) × ((m c).0 ≡ ok a)
  unfolding ◌>>=◌
  >>=-ok {A = A} {B = B} m f c b e = split (m c).0 refl e
    where
      split :
          (r : Result SessionError A)
          → (m c).0 ≡ r
          → (continue r f (m c).1).0 ≡ ok b
          → (a : A) × ((m c).0 ≡ ok a)
      split (ok a) p q = (a, p)
      split (err x) p q = cc

  abbrev iz_step : Bool → Exec F (Unit {0})
  iz_step b = when b (tolerate (send_sync (request "/iz/info" (pos 0) get)))

  abbrev ready_step : ℤ → Exec F (Unit {0})
  ready_step ei = when (int_beq ei (pos 2)) (tolerate (send (request "/ei/deviceReady" ei notify)))

  abbrev ni_step : Bool → Exec F (Unit {0})
  ni_step b = when b (tolerate (send_sync (request "/ni/info" (pos 0) get)))

  optional_steps-runs :
      (ei : ℤ) (c : Conn F)
      → let c1 = (iz_step (is_some (lookup "iz" (versions c))) c).1 in
        let c2 = (ready_step ei c1).1 in
        optional_steps ei c ≡ ni_step (is_some (lookup "ni" (versions c2))) c2
  unfolding optional_steps service_version ◌>>=◌ gets
  optional_steps-runs ei c =
      let iz = is_some (lookup "iz" (versions c)) in
      let last = λ (_ : Unit {0}).
        gets {F = F} (λ s. is_some (lookup "ni" s.service_versions)) >>= ni_step in
      >>=_lem (iz_step iz) (λ _. ready_step ei >>= last) c tt ((Asks-send_sync iz _).succeeds c)
      ∙ >>=_lem (ready_step ei) last (iz_step iz c).1 tt ((Asks-send _ _).succeeds (iz_step iz c).1)

  optional_steps-order :
      (ei : ℤ) (c : Conn F)
      → let c' = (optional_steps ei c).1 in
        ((optional_steps ei c).0 ≡ ok tt)
        × (versions c' ≡ versions c)
        × (resources c'
            ≡ opt (is_some (lookup "ni" (versions c))) "/ni/info" (
                opt
                  (int_beq ei (pos 2))
                  "/ei/deviceReady"
                  (opt (is_some (lookup "iz" (versions c))) "/iz/info" (resources c))))
  optional_steps-order ei c =
      let iz = is_some (lookup "iz" (versions c)) in
      let a1 = Asks-send_sync iz (request {F = F} "/iz/info" (pos 0) get) in
      let c1 = (iz_step iz c).1 in
      let a2 = Asks-send (int_beq ei (pos 2)) (request {F = F} "/ei/deviceReady" ei notify) in
      let c2 = (ready_step ei c1).1 in
      let a3 =
        Asks-send_sync (is_some (lookup "ni" (versions c2)))
          (request {F = F} "/ni/info" (pos 0) get) in
      let kept = a2.keeps c1 ∙ a1.keeps c in
      rw (optional_steps-runs ei c)
        (a3.succeeds c2, a3.keeps c2 ∙ kept, a3.asks c2 ∙ rw (kept, a2.asks c1, a1.asks c) refl)

  send_sync-resource :
      (m : Message F) (c : Conn F)
      → (resources (send_sync m c).1 ≡ m.resource ∷ resources c)
        × (versions (send_sync m c).1 ≡ versions c)
  unfolding send_sync
  send_sync-resource m c = write-resource m c

  send-resource :
      (m : Message F) (c : Conn F)
      → (resources (send m c).1 ≡ m.resource ∷ resources c) × (versions (send m c).1 ≡ versions c)
  unfolding send
  send-resource m c = write-resource m c

  take_nonce_lem :
      (i : Identity) (c : Conn F) (n : String) → (take_nonce i c).0 ≡ ok n → (take_nonce i c).1 ≡ c
  unfolding take_nonce pure raise
  take_nonce_lem i c n e = ground arith

  authenticate-order :
      (i : Identity) (ci : ℤ) (c : Conn F)
      → (authenticate i ci c).0 ≡ ok tt
      → let c' = (authenticate i ci c).1 in
        (versions c' ≡ versions c)
        × (resources c' ≡ "/ci/info" ∷ "/ci/authentication" ∷ resources c)
  unfolding authenticate
  authenticate-order i ci c e =
      let info = tolerate (send_sync (request {F = F} "/ci/info" (pos 0) get)) in
      let auth = λ (n : String). send_sync (auth_request {F = F} ci n) in
      let (n, e0) = >>=-ok (take_nonce i) (λ n. auth n >> info) c tt e in
      let c0 = (take_nonce i c).1 in
      let same = take_nonce_lem i c n e0 in
      let step0 = >>=_lem (take_nonce i) (λ n. auth n >> info) c n e0 in
      let (a, e1) = >>=-ok (auth n) (λ _. info) c0 tt (rw (← step0) e) in
      let step1 = >>=_lem (auth n) (λ _. info) c0 a e1 in
      let (r1, v1) = send_sync-resource (auth_request {F = F} ci n) c0 in
      let c1 = (auth n c0).1 in
      let (r2, v2) = send_sync-resource (request {F = F} "/ci/info" (pos 0) get) c1 in
      rw (step0 ∙ step1) (
        unfold tolerate in
        (
          v2 ∙ v1 ∙ ap versions same,
          r2 ∙ ap (λ l. "/ci/info" ∷ l) (r1 ∙ ap (λ d. "/ci/authentication" ∷ resources d) same),
        ))

  login-order :
      (i : Identity) (old : Bool) (ci : ℤ) (c : Conn F)
      → (when old (authenticate i ci) c).0 ≡ ok tt
      → let c' = (when old (authenticate i ci) c).1 in
        (versions c' ≡ versions c)
        × (resources c' ≡ opt old "/ci/info" (opt old "/ci/authentication" (resources c)))
  unfolding when
  login-order i true ci c e = authenticate-order i ci c e
  login-order i false ci c e = (refl, refl)

module _ (host : Host) where
  open host use {Float}

  negotiate-order :
      (i : Identity) (ei : ℤ) (c : Conn Float)
      → resources c ≡ "/ei/initialValues" ∷ []
      → (negotiate host i ei c).0 ≡ ok tt
      → let c' = (negotiate host i ei c).1 in resources c' ≡ plan ei (versions c')
  unfolding negotiate service_version
  negotiate-order i ei c first e =
      let ask = send_sync (request {F = Float} "/ci/services" (pos 1) get) in
      let ci_of = λ (s : Session). from_option (pos 0) (lookup "ci" s.service_versions) in
      let login = λ (ci : ℤ). when {F = Float} (ltb_ℤ ci (pos 3)) (authenticate i ci) in
      let finish = λ (ci : ℤ). login ci >> optional_steps ei in
      let rest = λ (m : Message Float). modify (store_services host m) >> (gets ci_of >>= finish) in
      let (m, e0) = >>=-ok ask rest c tt e in
      let step0 = >>=_lem ask rest c m e0 in
      let c1 = record (ask c).1 { session = store_services host m (ask c).1.session } in
      let ci = ci_of c1.session in
      let step1 : rest m (ask c).1 ≡ finish ci c1 = unfold ◌>>=◌ modify gets in refl in
      let (a, e2) = >>=-ok (login ci) (λ _. optional_steps ei) c1 tt (rw (← step1, ← step0) e) in
      let step2 = >>=_lem (login ci) (λ _. optional_steps ei) c1 a e2 in
      let (v3, r3) = login-order i (ltb_ℤ ci (pos 3)) ci c1 e2 in
      let c2 = (login ci c1).1 in
      let (_, v4, r4) = optional_steps-order ei c2 in
      let asked = (send_sync-resource (request {F = Float} "/ci/services" (pos 1) get) c).0 in
      rw (step0 ∙ step1 ∙ step2) (
        plan_parts ei (versions c1) (versions c2) _ (resources c1) (resources c2) _ v3 v4
          (asked ∙ ap (λ l. "/ci/services" ∷ l) first) r3 r4)

  -- A handshake that succeeds has asked for exactly the resources of the plan, in its order, for
  -- the services that it has negotiated: authentication only below version 3 of ci, the readiness
  -- notice only at version 2 of ei, iz and ni only if they are there.
  pub handshake_order :
      (i : Identity) (m : Message Float) (c : Conn Float)
      → c.attempted ≡ []
      → (handshake host i (arrives m) c).0 ≡ ok tt
      → let c' = (handshake host i (arrives m) c).1 in
        map (λ q. q.resource) c'.attempted ≡ plan m.version c'.session.service_versions
  unfolding handshake greet init_response
  handshake_order i m c none_yet e =
      let c0 = record c { session = adopt host m c.session } in
      let step0 : handshake host i (arrives m) c ≡ greet host i m c0 =
        unfold ◌>>=◌ modify in refl in
      let first = send (init_response i m) in
      let rest = λ (_ : Unit {0}). negotiate host i m.version in
      let (a, e1) = >>=-ok first rest c0 tt (rw (← step0) e) in
      let step1 = >>=_lem first rest c0 a e1 in
      let sent = (send-resource (init_response i m) c0).0 in
      rw (step0 ∙ step1) (
        negotiate-order i m.version (first c0).1
          (sent ∙ ap (λ l. "/ei/initialValues" ∷ map (λ q. q.resource) l) none_yet)
          (rw (← step1, ← step0) e))
