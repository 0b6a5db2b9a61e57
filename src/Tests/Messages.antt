-- ===== src/Tests/Messages.antt =====
-- The message layer and the handshake on concrete frames.
use go_homeconnect2mqtt.Base.{ℕ, List, ◌≡◌, refl, true, false, none, some, [], ◌∷◌, map, ok}
use go_homeconnect2mqtt.Base.Int.{ℤ, pos, ◌+64◌, wrap64, ◌+ℤ◌}
use go_homeconnect2mqtt.Base.Keys.{int_key, nat_key, text_key, lookup, insert, delete}
use go_homeconnect2mqtt.Value.{int, str, any_to_int}
use go_homeconnect2mqtt.Message.{get, post, response, Message, code_error}
use go_homeconnect2mqtt.Session.{
  new_session, holds, new_net, Op, prepares, registers, receives, delivers, drops, step, run,
  resolve_defaults, first_int, store_services, store_items, store_service, service_version,
  service_key,
}
use go_homeconnect2mqtt.Session.Correlation.{IsAnswerTo, responses_correlate}
use go_homeconnect2mqtt.Session.Defaults.{resolve_defaults_fresh}
use go_homeconnect2mqtt.Handshake.Exec.{
  answers, times_out, Conn, ◌>>=◌, modify, send, write, send_sync, gets, when, tolerate,
}
use go_homeconnect2mqtt.Handshake.Program.{
  arrives, Identity, request, handshake, greet, adopt, negotiate, optional_steps, init_response,
  app_id,
}
use go_homeconnect2mqtt.Handshake.Numbering.{IsNumbered, handshake_numbering}
use go_homeconnect2mqtt.Handshake.Order.{plan, handshake_order}
use go_homeconnect2mqtt.State.{SubOp, publishes, subscribes, sub_run}
use go_homeconnect2mqtt.State.Latest.{unread, newest_wins}
use go_homeconnect2mqtt.Tests.Parameters.{whole_host}

abbrev ask : Message ℤ
ask = request "/ro/values" (pos 0) get

-- The response to the first request of a fresh session, whose id is 0.
abbrev reply : Message ℤ
reply = request "/ro/values" (pos 1) response

-- The response is taken out of the map; the connection drops before it is sent on its channel.
abbrev answered_late : List (Op ℤ)
answered_late =
    prepares 0 ask
    ∷ prepares 1 ask
    ∷ registers 0
    ∷ registers 1
    ∷ receives reply
    ∷ drops
    ∷ delivers
    ∷ []

responses_correlate_example :
    ((run (new_net true) answered_late).fault ≡ false) × IsAnswerTo {F = ℤ} (pos 0) (holds reply)
unfolding run step lookup insert delete ◌+64◌ wrap64 ◌+ℤ◌
responses_correlate_example =
    responses_correlate true answered_late 0 (record { request = pos 0; content = holds reply })
      refl

-- An appliance with version 2 of its first message, and version 3 of ci.
abbrev greeting : Message ℤ
greeting = record (request "/ei/initialValues" (pos 2) post) {
  sid = pos 77;
  msg_id = pos 5;
  items = (("edMsgID", int (pos 300)) ∷ []) ∷ [];
}

abbrev services : Message ℤ
services = record (request "/ci/services" (pos 1) response) {
  items =
      (("service", str "ci") ∷ ("version", int (pos 3)) ∷ [])
      ∷ (("service", str "iz") ∷ ("version", int (pos 1)) ∷ [])
      ∷ [];
}

abbrev connection : Conn ℤ
connection = record {
  session = new_session;
  attempted = [];
  script = times_out ∷ answers services ∷ times_out ∷ [];
}

abbrev bridge : Identity
bridge = record { app_name = "bridge"; app_id = "id"; random_id = none; nonce = some "n" }

handshake_numbering_example :
    IsNumbered
      (pos 77)
      (pos 5)
      (first_int whole_host greeting.items "edMsgID")
      (handshake whole_host bridge (arrives greeting) connection).1
handshake_numbering_example =
    handshake_numbering whole_host bridge greeting connection refl (λ e. cc)

success : (handshake whole_host bridge (arrives greeting) connection).0 ≡ ok tt
unfolding handshake greet ◌>>=◌ modify adopt send write resolve_defaults service_version service_key
    negotiate send_sync gets store_services store_items store_service when optional_steps tolerate
    init_response app_id lookup insert delete first_int any_to_int code_error
success = refl

handshake_order_example :
    map (λ q. q.resource) (handshake whole_host bridge (arrives greeting) connection).1.attempted
    ≡ plan
        (pos 2)
        (handshake whole_host bridge (arrives greeting) connection).1.session.service_versions
handshake_order_example = handshake_order whole_host bridge greeting connection refl success

abbrev asked_twice : Conn ℤ
asked_twice = record connection {
  script = answers (record reply { code = some (pos 503) }) ∷ answers reply ∷ [];
}

resolve_defaults_fresh_example :
    ((resolve_defaults ask new_session).0.sid ≡ pos 0)
    × ((resolve_defaults ask new_session).0.msg_id ≡ pos 0)
    × ((resolve_defaults ask new_session).1.last_msg_id ≡ pos 0 +64 pos 1)
    × ((resolve_defaults ask new_session).1.sid ≡ pos 0)
resolve_defaults_fresh_example = resolve_defaults_fresh ask new_session refl refl

-- Two events for a subscriber that reads late, in the middle of the second publish.
abbrev slow_reader : List (SubOp ℕ)
slow_reader =
    subscribes ∷ publishes (λ id. (false, false)) 1 ∷ publishes (λ id. (true, false)) 2 ∷ []

newest_wins_example :
    lookup 0 (sub_run (record { subs = []; next = 0 }) slow_reader).subs
    ≡ unread 0 0 none slow_reader
newest_wins_example = newest_wins slow_reader 0
