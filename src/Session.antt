-- ===== src/Session.antt =====
-- internal/homeconnect/session.go: the message layer. The shared state is the session itself, the
-- channels that its requests wait on, the buffer for the appliance's first message, and what was
-- handed to the notify handler. Each step below is one critical section of the source, or one use of a
-- channel outside of every section; a section that finds nothing to do is part of the step behind it.
pub mod Registry
pub mod Correlation
pub mod Defaults
use Prim.Native.String.{len, slice}
use text.Mathlib.Text.{starts_with}
use go_homeconnect2mqtt.Base.{
  ℕ, suc, ◌+◌, String, Bool, true, false, ◌&&◌, Option, none, some, is_some, from_option, List, [],
  ◌∷◌, leb, if◌then◌else◌,
}
use go_homeconnect2mqtt.Base.Int.{ℤ, pos, int_beq, ◌+64◌}
use go_homeconnect2mqtt.Base.Keys.{◌==◌, text_key, int_key, nat_key, lookup, insert, delete}
use go_homeconnect2mqtt.Value.{Value, Host, str, any_to_int}
use go_homeconnect2mqtt.Message.{Action, response, post, Item, Message}

-- The fields of Session under `mu`, and the map under `pendingMu` (message id to channel).
pub record Session : Type 0 where
  pub sid : ℤ
  pub last_msg_id : ℤ
  pub service_versions : List (String × ℤ)
  pub pending : List (ℤ × ℕ)

-- NewSession
abbrev pub new_session : Session
new_session = record { sid = pos 0; last_msg_id = pos 0; service_versions = []; pending = [] }

-- serviceKey: the first two bytes of the resource behind its slash.
unfoldable pub service_key : String → String
service_key resource =
    let r = if starts_with resource "/" then slice resource 1 (len resource) else resource in
    if leb 2 (len r) then slice r 0 2 else r

-- ServiceVersion
unfoldable pub service_version : String → Session → Option ℤ
service_version name s = lookup name s.service_versions

abbrev zero_or : ℤ → ℤ → ℤ
zero_or d n = if int_beq n (pos 0) then d else n

-- resolveDefaults, with assignMsgID true as at each of its calls
unfoldable pub resolve_defaults : {F : Type 0} → Message F → Session → Message F × Session
unfolding service_version
resolve_defaults m s =
    let version = from_option (pos 1) (service_version (service_key m.resource) s) in
    let m' = record m { version = zero_or version m.version; sid = zero_or s.sid m.sid } in
    if int_beq m.msg_id (pos 0)
    then (record m' { msg_id = s.last_msg_id }, record s { last_msg_id = s.last_msg_id +64 pos 1 })
    else (m', s)

-- `name, _ := v.(string)`
abbrev text_of : {F : Type 0} → Option (Value F) → String
text_of (some (str s)) = s
text_of _ = ""

module _ (host : Host) where
  open host use {Float}

  -- the body of the loop of storeServices
  unfoldable pub store_service : Item Float → List (String × ℤ) → List (String × ℤ)
  store_service item versions =
      let name = text_of (lookup "service" item) in
      let version : ℤ = elim (lookup "version" item) [
        | none ↦ pos 1
        | some v ↦ any_to_int host v
      ] in
      if name == "" then versions else insert name version versions

  unfoldable pub store_items : List (Item Float) → List (String × ℤ) → List (String × ℤ)
  store_items [] versions = versions
  store_items (item ∷ items) versions = store_items items (store_service item versions)

  -- storeServices
  unfoldable pub store_services : Message Float → Session → Session
  store_services resp s = record s { service_versions = store_items resp.items s.service_versions }

  -- firstInt
  unfoldable pub first_int : List (Item Float) → String → ℤ
  first_int [] key = pos 0
  first_int (item ∷ _) key = elim (lookup key item) [ none ↦ pos 0 | some v ↦ any_to_int host v ]

-- A channel of capacity one that a request waits on, with the id of that request.
pub data Content (F : Type 0) : Type 0 where
  empty : Content F
  holds : Message F → Content F
  closed : Content F

pub record Channel (F : Type 0) : Type 0 where
  pub request : ℤ
  pub content : Content F

-- `prepared`: what the calls of sendSync have behind resolveDefaults and have not registered yet, by
-- call. `flying`: what the receive loop took out of the map and has not sent on its channel yet.
-- `fault`: a send on a closed or full channel, or a second close; Go panics or blocks there.
pub record Net (F : Type 0) : Type 0 where
  pub session : Session
  pub channels : List (ℕ × Channel F)
  pub next_channel : ℕ
  pub prepared : List (ℕ × Message F)
  pub flying : Option (ℕ × Message F)
  pub init : Option (Message F)
  pub has_handler : Bool
  pub notified : List (Message F)
  pub fault : Bool

abbrev pub is_response : Action → Bool
is_response response = true
is_response _ = false

abbrev pub is_post : Action → Bool
is_post post = true
is_post _ = false

module _ {F : Type 0} where
  fill : ℕ → ℤ → Message F → Net F → Content F → Net F
  fill ch r m net empty = record net {
    channels = insert ch (record { request = r; content = holds m }) net.channels;
  }
  fill ch r m net _ = record net { fault = true }

  -- `ch <- m`
  unfoldable pub send_on : ℕ → Message F → Net F → Net F
  unfolding fill
  send_on ch m net = elim (lookup ch net.channels) [
    | none ↦ record net { fault = true }
    | some c ↦ fill ch c.request m net c.content
  ]

  shut : ℕ → ℤ → Net F → Content F → Net F
  shut ch r net closed = record net { fault = true }
  shut ch r net _ = record net {
    channels = insert ch (record { request = r; content = closed }) net.channels;
  }

  -- `close(ch)`
  unfoldable pub close_on : ℕ → Net F → Net F
  unfolding shut
  close_on ch net = elim (lookup ch net.channels) [
    | none ↦ record net { fault = true }
    | some c ↦ shut ch c.request net c.content
  ]

  abbrev set_pending : List (ℤ × ℕ) → Net F → Net F
  set_pending p net = record net { session = record net.session { pending = p } }

  -- takePending, where it finds a channel
  unfoldable pub take_pending : Message F → ℕ → Net F → Net F
  take_pending m ch net = record (set_pending (delete m.msg_id net.session.pending) net) {
    flying = some (ch, m);
  }

  send_taken : Option (ℕ × Message F) → Net F → Net F
  unfolding send_on
  send_taken none net = net
  send_taken (some (ch, m)) net = send_on ch m (record net { flying = none })

  -- what dispatch does with that channel, outside of the section
  unfoldable pub answer : Net F → Net F
  unfolding send_taken
  answer net = send_taken net.flying net

  -- the select with a default on initCh
  unfoldable pub offer_init : Message F → Net F → Net F
  offer_init m net = elim net.init [ none ↦ record net { init = some m } | some _ ↦ net ]

  unfoldable pub notify_handler : Message F → Net F → Net F
  notify_handler m net = if net.has_handler then record net { notified = m ∷ net.notified } else net

  -- dispatch without a pending request
  unfoldable pub route : Message F → Net F → Net F
  unfolding offer_init notify_handler
  route m net =
      if m.resource == "/ei/initialValues" && is_post m.action
      then offer_init m net
      else notify_handler m net

  -- dispatch, to the send on the channel of a request
  unfoldable pub dispatch : Message F → Net F → Net F
  unfolding take_pending route
  dispatch m net =
      if is_response m.action
      then elim (lookup m.msg_id net.session.pending) [
        | none ↦ route m net
        | some ch ↦ take_pending m ch net
      ]
      else route m net

  -- The receive loop has one frame at a time.
  unfoldable pub receive : Message F → Net F → Net F
  unfolding dispatch
  receive m net = if is_some net.flying then net else dispatch m net

  close_all : List (ℤ × ℕ) → Net F → Net F
  unfolding close_on
  close_all [] net = net
  close_all ((id, ch) ∷ rest) net = close_all rest (close_on ch net)

  -- failPending, and the second section of resetState
  unfoldable pub fail_pending : Net F → Net F
  unfolding close_all
  fail_pending net = set_pending [] (close_all net.session.pending net)

  -- the first section of resetState
  unfoldable pub clear_session : Net F → Net F
  clear_session net = record net {
    session = record net.session { sid = pos 0; last_msg_id = pos 0; service_versions = [] };
  }

  -- resolveDefaults by the call `t` of sendSync
  unfoldable pub prepare : ℕ → Message F → Net F → Net F
  unfolding resolve_defaults
  prepare t m net =
      let (m', s) = resolve_defaults m net.session in
      record net { session = s; prepared = insert t m' net.prepared }

  -- a fresh channel, and its entry in the map
  unfoldable pub begin_request : Message F → Net F → Net F
  begin_request m net =
      let ch = net.next_channel in
      record net {
        session = record net.session { pending = insert m.msg_id ch net.session.pending };
        channels = insert ch (record { request = m.msg_id; content = empty }) net.channels;
        next_channel = suc ch;
      }

  -- the next section of the call `t`
  unfoldable pub register_call : ℕ → Net F → Net F
  unfolding begin_request
  register_call t net = elim (lookup t net.prepared) [
    | none ↦ net
    | some m ↦ begin_request m (record net { prepared = delete t net.prepared })
  ]

  -- the deferred delete of sendSync
  unfoldable pub end_request : ℤ → Net F → Net F
  end_request id net = set_pending (delete id net.session.pending) net

abbrev pub new_net : {F : Type 0} → Bool → Net F
new_net handler = record {
  session = new_session;
  channels = [];
  next_channel = 0;
  prepared = [];
  flying = none;
  init = none;
  has_handler = handler;
  notified = [];
  fault = false;
}

-- What the goroutines do to the shared state, one at a time and in any order: callers prepare,
-- register and end requests, the receive loop dispatches a frame, sends what it took or fails what is
-- pending, the handshake takes the appliance's first message, Connect clears the session, closes what
-- is pending (`drops` too) and makes a new buffer for that message.
pub data Op (F : Type 0) : Type 0 where
  prepares : ℕ → Message F → Op F
  registers : ℕ → Op F
  ends : ℤ → Op F
  receives : Message F → Op F
  delivers drops clears renews_init takes_init : Op F

module _ {F : Type 0} where
  unfoldable pub step : Op F → Net F → Net F
  unfolding prepare register_call end_request receive answer fail_pending clear_session
  step (prepares t m) net = prepare t m net
  step (registers t) net = register_call t net
  step (ends id) net = end_request id net
  step (receives m) net = receive m net
  step delivers net = answer net
  step drops net = fail_pending net
  step clears net = clear_session net
  step renews_init net = record net { init = none }
  step takes_init net = record net { init = none }

  unfoldable pub run : Net F → List (Op F) → Net F
  run net [] = net
  run net (op ∷ ops) = run (step op net) ops
