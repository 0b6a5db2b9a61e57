-- ===== src/Handshake/Numbering.antt =====
-- Session ids and message ids of the handshake in internal/homeconnect/session.go.
use go_homeconnect2mqtt.Base.{
  ℕ, zero, suc, ◌≡◌, ◌≢◌, refl, sym, ap, ◌∙◌, Bool, true, false, none, some, List, [], ◌∷◌, ◌++◌,
  map, All, Result, ok, err,
}
use go_homeconnect2mqtt.Base.Int.{ℤ, pos, ◌+64◌}
use go_homeconnect2mqtt.Value.{Host}
use go_homeconnect2mqtt.Message.{Message}
use go_homeconnect2mqtt.Session.{Session, store_services, first_int}
use go_homeconnect2mqtt.Session.Defaults.{
  resolve_defaults_fresh, resolve_defaults_own, resolve_defaults_sid,
}
use go_homeconnect2mqtt.Handshake.Exec.{
  SessionError, no_nonce, Conn, Exec, pure, raise, gets, modify, continue, ◌>>=◌, tolerate, when,
  write, send, send_sync,
}
use go_homeconnect2mqtt.Handshake.Program.{
  arrives, Identity, init_response, take_nonce, authenticate, optional_steps, adopt, negotiate,
  greet, handshake,
}

-- `n` steps of lastMsgID++ from `b`.
abbrev pub nth : ℤ → ℕ → ℤ
nth b zero = b
nth b (suc n) = nth b n +64 pos 1

-- The `n` ids from `b` on, newest first.
abbrev pub ids : ℤ → ℕ → List ℤ
ids b zero = []
ids b (suc n) = nth b n ∷ ids b n

module _ {F : Type 0} where
  -- What holds of a connection once the appliance's first message, with session id `k`, message id
  -- `first` and edMsgID `b`, has been responded to.
  pub record IsNumbered (k first b : ℤ) (c : Conn F) : Type 0 where
    pub requests : ℕ
    pub session : c.session.sid ≡ k
    pub sids : All (λ m. m.sid ≡ k) c.attempted
    pub next : c.session.last_msg_id ≡ nth b requests
    pub numbers : map (λ m. m.msg_id) c.attempted ≡ ids b requests ++ first ∷ []

  -- An action keeps a predicate, whether it returns or fails.
  record Keeps {A : Type 0} (P : Conn F → Type 0) (m : Exec F A) : Type 0 where
    at : (c : Conn F) → P c → P (m c).1

module _ {F : Type 0} {P : Conn F → Type 0} where
  Keeps-pure : {A : Type 0} (a : A) → Keeps P (pure a)
  unfolding pure
  Keeps-pure a = record { at = λ c h. h }

  Keeps-raise : {A : Type 0} (e : SessionError) → Keeps P (raise {A = A} e)
  unfolding raise
  Keeps-raise e = record { at = λ c h. h }

  Keeps-gets : {A : Type 0} (f : Session → A) → Keeps P (gets f)
  unfolding gets
  Keeps-gets f = record { at = λ c h. h }

  Keeps-tolerate : {A : Type 0} (m : Exec F A) → Keeps P m → Keeps P (tolerate m)
  unfolding tolerate
  Keeps-tolerate m k = record { at = k.at }

  Keeps-when : (b : Bool) (m : Exec F (Unit {0})) → Keeps P m → Keeps P (when b m)
  unfolding when
  Keeps-when true m k = record { at = k.at }
  Keeps-when false m k = record { at = λ c h. h }

  Keeps-continue :
      {A B : Type 0} (r : Result SessionError A) (f : A → Exec F B) (c : Conn F)
      → ((a : A) → Keeps P (f a))
      → P c
      → P (continue r f c).1
  Keeps-continue (ok a) f c k h = (k a).at c h
  Keeps-continue (err e) f c k h = h

  Keeps-bind :
      {A B : Type 0} (m : Exec F A) (f : A → Exec F B)
      → Keeps P m
      → ((a : A) → Keeps P (f a))
      → Keeps P (m >>= f)
  unfolding ◌>>=◌
  Keeps-bind m f km kf = record { at = λ c h. Keeps-continue (m c).0 f (m c).1 kf (km.at c h) }

ruleset keeps_rules = (Keeps-pure, Keeps-raise, Keeps-gets, Keeps-tolerate, Keeps-when, Keeps-bind)

module _ {F : Type 0} (k first b : ℤ) where
  -- A message without an id or session id of its own takes the next id and the session's.
  write-IsNumbered :
      (m : Message F) (c : Conn F)
      → m.sid ≡ pos 0
      → m.msg_id ≡ pos 0
      → IsNumbered k first b c
      → IsNumbered k first b (write m c).2
  unfolding write
  write-IsNumbered m c s i v =
      let (a, n, l, d) = resolve_defaults_fresh m c.session s i in
      record {
        requests = suc v.requests;
        session = d ∙ v.session;
        sids = (a ∙ v.session, v.sids);
        next = l ∙ ap (λ x. x +64 pos 1) v.next;
        numbers = cc (n, v.next, v.numbers);
      }

  send-Keeps :
      (m : Message F) → m.sid ≡ pos 0 → m.msg_id ≡ pos 0 → Keeps (IsNumbered k first b) (send m)
  unfolding send
  send-Keeps m s i = record { at = λ c v. write-IsNumbered m c s i v }

  send_sync-Keeps :
      (m : Message F)
      → m.sid ≡ pos 0
      → m.msg_id ≡ pos 0
      → Keeps (IsNumbered k first b) (send_sync m)
  unfolding send_sync
  send_sync-Keeps m s i = record {
    at = λ c v.
        let w = write-IsNumbered m c s i v in
        record {
          requests = w.requests;
          session = w.session;
          sids = w.sids;
          next = w.next;
          numbers = w.numbers;
        };
  }

  take_nonce-Keeps : (i : Identity) → Keeps (IsNumbered k first b) (take_nonce {F = F} i)
  unfolding take_nonce
  take_nonce-Keeps i =
      elim i.nonce
        as (λ n.
          Keeps (IsNumbered k first b) (elim n [ none ↦ raise no_nonce | some n ↦ pure n ])) [
            | none ↦ Keeps-raise no_nonce
            | some n ↦ Keeps-pure n
          ]

  authenticate-Keeps :
      (i : Identity) (ci : ℤ) → Keeps (IsNumbered k first b) (authenticate {F = F} i ci)
  unfolding authenticate
  authenticate-Keeps i ci = search (keeps_rules, take_nonce-Keeps, send_sync-Keeps)

  optional_steps-Keeps : (ei : ℤ) → Keeps (IsNumbered k first b) (optional_steps {F = F} ei)
  unfolding optional_steps
  optional_steps-Keeps ei = search (keeps_rules, send-Keeps, send_sync-Keeps) depth 12

module _ (host : Host) where
  open host use {Float}

  store_services-Keeps :
      (k first b : ℤ) (m : Message Float)
      → Keeps {F = Float} (IsNumbered k first b) (modify (store_services host m))
  unfolding modify store_services
  store_services-Keeps k first b m = record {
    at = λ c v. record {
      requests = v.requests;
      session = v.session;
      sids = v.sids;
      next = v.next;
      numbers = v.numbers;
    };
  }

  negotiate-Keeps :
      (k first b : ℤ) (i : Identity) (ei : ℤ) → Keeps (IsNumbered k first b) (negotiate host i ei)
  unfolding negotiate
  negotiate-Keeps k first b i ei =
      search
        (
          keeps_rules, send_sync-Keeps, store_services-Keeps, authenticate-Keeps,
          optional_steps-Keeps,
        )
        depth 12

  init_response-IsNumbered :
      (i : Identity) (m : Message Float) (c : Conn Float)
      → c.attempted ≡ []
      → c.session.sid ≡ m.sid
      → m.msg_id ≢ pos 0
      → IsNumbered m.sid m.msg_id c.session.last_msg_id (send (init_response i m) c).1
  unfolding send init_response
  init_response-IsNumbered i m c e k h =
      let r = init_response i m in
      let (same, left) = resolve_defaults_own r c.session h in
      let (sid, _) = resolve_defaults_sid r c.session (sym k) in
      record {
        requests = 0;
        session = ap (λ s. s.sid) left ∙ k;
        sids = rw e (sid ∙ k, tt);
        next = ap (λ s. s.last_msg_id) left;
        numbers = rw (e, same);
      }

  -- For an appliance whose first message has a message id: however the handshake goes, each
  -- message that it hands to the socket has the session id of that message; the first one has its
  -- message id, and the others the ids from its edMsgID on, one by one.
  pub handshake_numbering :
      (i : Identity) (m : Message Float) (c : Conn Float)
      → c.attempted ≡ []
      → m.msg_id ≢ pos 0
      → IsNumbered m.sid m.msg_id
          (first_int host m.items "edMsgID")
          (handshake host i (arrives m) c).1
  unfolding handshake greet modify adopt ◌>>=◌
  handshake_numbering i m c e h =
      let b = first_int host m.items "edMsgID" in
      let c0 = record c { session = adopt host m c.session } in
      let (r, c1) = send (init_response i m) c0 in
      Keeps-continue r (λ _. negotiate host i m.version) c1
        (λ _. negotiate-Keeps m.sid m.msg_id b i m.version)
        (init_response-IsNumbered i m c0 e refl h)
