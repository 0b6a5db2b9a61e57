-- ===== src/Handshake/Exec.antt =====
-- send and sendSync of internal/homeconnect/session.go.
use go_homeconnect2mqtt.Base.{Bool, true, false, Option, none, some, List, [], ◌∷◌, Result, ok, err}
use go_homeconnect2mqtt.Base.Keys.{int_key, delete}
use go_homeconnect2mqtt.Message.{Message, CodeResponseError, code_error}
use go_homeconnect2mqtt.Session.{Session, resolve_defaults}

-- What becomes of one write to the socket, and of the wait for its response.
pub data Outcome (F : Type 0) : Type 0 where
  fails : Outcome F  -- socket.Send returns an error
  answers : Message F → Outcome F
  hangs_up : Outcome F  -- the channel is closed
  times_out : Outcome F
  cancels : Outcome F  -- ctx.Done

pub data SessionError : Type 0 where
  no_init init_timeout init_cancelled : SessionError
  send_failed connection_closed response_timeout cancelled no_nonce : SessionError
  code_response : CodeResponseError → SessionError

-- `attempted` are the messages handed to the socket, newest first.
pub record Conn (F : Type 0) : Type 0 where
  pub session : Session
  pub attempted : List (Message F)
  pub script : List (Outcome F)

abbrev pub Exec : Type 0 → Type 0 → Type 0
Exec F A = Conn F → Result SessionError A × Conn F

module _ {F A : Type 0} where
  unfoldable pub pure : A → Exec F A
  pure a c = (ok a, c)

  unfoldable pub raise : SessionError → Exec F A
  raise e c = (err e, c)

  unfoldable pub gets : (Session → A) → Exec F A
  gets f c = (ok (f c.session), c)

unfoldable pub modify : {F : Type 0} → (Session → Session) → Exec F (Unit {0})
modify f c = (ok tt, record c { session = f c.session })

module _ {F A B : Type 0} where
  abbrev pub continue : Result SessionError A → (A → Exec F B) → Exec F B
  continue (ok a) f c = f a c
  continue (err e) f c = (err e, c)

  infixl 10 ◌>>=◌ ◌>>◌
  unfoldable pub ◌>>=◌ : Exec F A → (A → Exec F B) → Exec F B
  ◌>>=◌ m f c = let (r, c') = m c in continue r f c'

  abbrev pub ◌>>◌ : Exec F A → Exec F B → Exec F B
  m >> n = m >>= λ _. n

-- An error that is logged and dropped.
unfoldable pub tolerate : {F A : Type 0} → Exec F A → Exec F (Unit {0})
tolerate m c = (ok tt, (m c).1)

unfoldable pub when : {F : Type 0} → Bool → Exec F (Unit {0}) → Exec F (Unit {0})
when true m c = m c
when false m c = (ok tt, c)

module _ {F : Type 0} where
  abbrev pub head_or : List (Outcome F) → Outcome F
  head_or [] = times_out
  head_or (o ∷ _) = o

  abbrev pub tail_of : List (Outcome F) → List (Outcome F)
  tail_of [] = []
  tail_of (_ ∷ os) = os

  -- resolveDefaults and socket.Send
  unfoldable pub write : Message F → Conn F → Message F × Outcome F × Conn F
  unfolding resolve_defaults
  write m c =
      let (m', s) = resolve_defaults m c.session in
      (
        m',
        head_or c.script,
        record { session = s; attempted = m' ∷ c.attempted; script = tail_of c.script },
      )

  written : Outcome F → Result SessionError (Unit {0})
  written fails = err send_failed
  written _ = ok tt

  -- send
  unfoldable pub send : Message F → Exec F (Unit {0})
  unfolding write written
  send m c = let (m', o, c') = write m c in (written o, c')

  received : Message F → Option CodeResponseError → Result SessionError (Message F)
  received m none = ok m
  received m (some e) = err (code_response e)

  outcome : Outcome F → Result SessionError (Message F)
  unfolding received code_error
  outcome fails = err send_failed
  outcome (answers m) = received m (code_error m)
  outcome hangs_up = err connection_closed
  outcome times_out = err response_timeout
  outcome cancels = err cancelled

  -- sendSync: whatever the outcome, the entry of its id is gone from the map at the end.
  unfoldable pub send_sync : Message F → Exec F (Message F)
  unfolding write outcome
  send_sync m c =
      let (m', o, c') = write m c in
      (
        outcome o,
        record c' { session = record c'.session { pending = delete m'.msg_id c'.session.pending } },
      )
