-- ===== src/Session/Correlation.antt =====
-- The correlation of requests and responses in internal/homeconnect/session.go, under every
-- interleaving of its critical sections.
use mathlib.Core.Path.{subst}
use go_homeconnect2mqtt.Base.{
  ℕ, ◌≤◌, ◌≡◌, inl, inr, refl, sym, ◌∙◌, Bool, true, false, absurd_none, Option, none, some,
  is_some, List, [], ◌∷◌, arith, Bool-cases, Option-cases,
}
use go_homeconnect2mqtt.Base.Int.{ℤ}
use go_homeconnect2mqtt.Base.Keys.{
  ◌==◌, ==_iff, int_key, nat_key, text_key, lookup, insert, delete, lookup-insert,
  lookup-insert_self, lookup-delete_self,
}
use go_homeconnect2mqtt.Message.{Message}
use go_homeconnect2mqtt.Session.{
  Session, Channel, Content, holds, closed, Net, send_on, close_on, set_pending, take_pending,
  send_taken, answer, route, dispatch, receive, is_response, close_all, fail_pending, clear_session,
  prepare, begin_request, register_call, end_request, new_net, Op, prepares, registers, ends,
  receives, delivers, drops, clears, renews_init, takes_init, step, run, resolve_defaults,
}
use go_homeconnect2mqtt.Session.Registry.{
  waiting, Registered, Registered-find, Registered-delete, Registered-write, Registered-add,
  Registered-insert, IsFlying, IsFlying-delete, IsFlying-close, IsFlying-insert,
}

-- What a channel holds is a response to the request that it was made for.
abbrev pub IsAnswerTo : {F : Type 0} → ℤ → Content F → Type 0
IsAnswerTo id (holds m) = (m.msg_id ≡ id) × (is_response m.action ≡ true)
IsAnswerTo id _ = Unit

record NetInv {F : Type 0} (net : Net F) : Type 0 where
  pub sound : net.fault ≡ false
  pub registered : Registered net.channels net.session.pending
  pub taken : IsFlying net.channels net.session.pending net.flying
  pub fresh : (n : ℕ) → net.next_channel ≤ n → lookup n net.channels ≡ none
  pub answers :
      (ch : ℕ) (c : Channel F) → lookup ch net.channels ≡ some c → IsAnswerTo c.request c.content

module _ {F : Type 0} where
  -- A write to a channel that is there keeps the other channels and their bound.
  fresh_write :
      (chans : List (ℕ × Channel F)) (ch next n : ℕ) (v c : Channel F)
      → lookup ch chans ≡ some c
      → ((k : ℕ) → next ≤ k → lookup k chans ≡ none)
      → next ≤ n
      → lookup n (insert ch v chans) ≡ none
  fresh_write chans ch next n v c w h l =
      ground (arith, h n, ==_iff ch n, lookup-insert ch n v chans)

  answers_write :
      (chans : List (ℕ × Channel F)) (ch k : ℕ) (v c : Channel F)
      → IsAnswerTo v.request v.content
      → ((j : ℕ) (d : Channel F) → lookup j chans ≡ some d → IsAnswerTo d.request d.content)
      → lookup k (insert ch v chans) ≡ some c
      → IsAnswerTo c.request c.content
  answers_write chans ch k v c a h e = elim (Bool-cases (ch == k)) [
    | inl same ↦ let e' : v ≡ c = ground (arith, lookup-insert ch k v chans) in rw (← e') a
    | inr differ ↦ h k c (ground (arith, lookup-insert ch k v chans))
  ]

  send_on_lem :
      (ch : ℕ) (m : Message F) (net : Net F) (id : ℤ)
      → lookup ch net.channels ≡ some (waiting id)
      → send_on ch m net ≡ record net {
        channels = insert ch (record { request = id; content = holds m }) net.channels;
      }
  unfolding send_on
  send_on_lem ch m net id w = rw (w, send_on)

  close_on_lem :
      (ch : ℕ) (net : Net F) (id : ℤ)
      → lookup ch net.channels ≡ some (waiting id)
      → close_on ch net ≡ record net {
        channels = insert ch (record { request = id; content = closed }) net.channels;
      }
  unfolding close_on
  close_on_lem ch net id w = rw (w, close_on)

  take_pending-NetInv :
      (m : Message F) (ch : ℕ) (net : Net F)
      → is_response m.action ≡ true
      → lookup m.msg_id net.session.pending ≡ some ch
      → NetInv net
      → NetInv (take_pending m ch net)
  unfolding take_pending
  take_pending-NetInv m ch net a h v =
      let p = net.session.pending in
      record {
        sound = v.sound;
        registered = Registered-delete net.channels p m.msg_id v.registered;
        taken = (
          Registered-find net.channels p m.msg_id ch v.registered h,
          λ e. absurd_none (sym (lookup-delete_self m.msg_id p) ∙ e),
          a,
        );
        fresh = v.fresh;
        answers = v.answers;
      }

  send_taken-NetInv :
      (f : Option (ℕ × Message F)) (net : Net F)
      → net.flying ≡ f
      → NetInv net
      → NetInv (send_taken f net)
  unfolding send_taken
  send_taken-NetInv none net e v = v
  send_taken-NetInv (some (ch, m)) net e v =
      let p = net.session.pending in
      let (w, apart, a) : IsFlying net.channels p (some (ch, m)) =
        subst (IsFlying net.channels p) e v.taken in
      rw (send_on_lem ch m (record net { flying = none }) m.msg_id w) (record {
        sound = v.sound;
        registered = Registered-write net.channels p ch m.msg_id _ w apart v.registered;
        taken = tt;
        fresh = λ n l. fresh_write net.channels ch net.next_channel n _ _ w v.fresh l;
        answers = λ k c e. answers_write net.channels ch k _ c (refl, a) v.answers e;
      })

  -- The invariant is about the map, the channels, their count and the fault alone.
  NetInv-same :
      (a b : Net F)
      → b.channels ≡ a.channels
      → b.session.pending ≡ a.session.pending
      → b.next_channel ≡ a.next_channel
      → b.fault ≡ a.fault
      → b.flying ≡ a.flying
      → NetInv a
      → NetInv b
  NetInv-same a b c p n f t v = record {
    sound = f ∙ v.sound;
    registered = rw (c, p) v.registered;
    taken = rw (c, p, t) v.taken;
    fresh = rw (c, n) v.fresh;
    answers = rw c v.answers;
  }

  route-NetInv : (m : Message F) (net : Net F) → NetInv net → NetInv (route m net)
  unfolding route
  route-NetInv m net v =
      NetInv-same net (route m net) (ground arith) (ground arith) (ground arith) (ground arith)
        (ground arith) v

  dispatch-NetInv : (m : Message F) (net : Net F) → NetInv net → NetInv (dispatch m net)
  unfolding dispatch
  dispatch-NetInv m net v = elim (Bool-cases (is_response m.action)) [
    | inr other ↦ rw (other, dispatch) (route-NetInv m net v)
    | inl a ↦ elim (Option-cases (lookup m.msg_id net.session.pending)) [
      | inl missing ↦ rw (a, missing, dispatch) (route-NetInv m net v)
      | inr (ch, found) ↦ rw (a, found, dispatch) (take_pending-NetInv m ch net a found v)
    ]
  ]

  close_on-NetInv :
      (id : ℤ) (ch : ℕ) (p : List (ℤ × ℕ)) (net : Net F)
      → NetInv (set_pending ((id, ch) ∷ p) net)
      → NetInv (set_pending p (close_on ch net))
  close_on-NetInv id ch p net v =
      let w = v.registered.0 in
      rw (close_on_lem ch net id w) (record {
        sound = v.sound;
        registered =
            Registered-write net.channels p ch id _ w (λ e. absurd_none (sym v.registered.1 ∙ e))
              v.registered.2;
        taken = IsFlying-close net.channels p id ch _ net.flying w v.registered.1 v.taken;
        fresh = λ n l. fresh_write net.channels ch net.next_channel n _ _ w v.fresh l;
        answers = λ k c e. answers_write net.channels ch k _ c tt v.answers e;
      })

  close_all-NetInv :
      (p : List (ℤ × ℕ)) (net : Net F)
      → NetInv (set_pending p net)
      → NetInv (set_pending [] (close_all p net))
  unfolding close_all
  close_all-NetInv [] net v = v
  close_all-NetInv ((id, ch) ∷ p) net v =
      close_all-NetInv p (close_on ch net) (close_on-NetInv id ch p net v)

  fail_pending-NetInv : (net : Net F) → NetInv net → NetInv (fail_pending net)
  unfolding fail_pending
  fail_pending-NetInv net v = close_all-NetInv net.session.pending net v

  pending-resolve_defaults :
      (m : Message F) (s : Session) → (resolve_defaults m s).1.pending ≡ s.pending
  unfolding resolve_defaults
  pending-resolve_defaults m s = ground arith

  prepare-NetInv : (t : ℕ) (m : Message F) (net : Net F) → NetInv net → NetInv (prepare t m net)
  unfolding prepare
  prepare-NetInv t m net v =
      NetInv-same net _ refl (pending-resolve_defaults m net.session) refl refl refl v

  begin_request-NetInv : (m : Message F) (net : Net F) → NetInv net → NetInv (begin_request m net)
  unfolding begin_request
  begin_request-NetInv m net v =
      let id = m.msg_id in
      let ch = net.next_channel in
      let new = v.fresh ch (omega arith) in
      let w = lookup-insert_self ch (waiting {F = F} id) net.channels in
      record {
        sound = v.sound;
        registered =
            Registered-insert (insert ch (waiting id) net.channels) net.session.pending id ch w
              (Registered-add net.channels net.session.pending ch _ new v.registered);
        taken = IsFlying-insert net.channels net.session.pending id ch _ net.flying new v.taken;
        fresh = λ n l.
            ground
              (arith, v.fresh n, ==_iff ch n, lookup-insert ch n (waiting {F = F} id) net.channels);
        answers = λ k c e. answers_write net.channels ch k (waiting id) c tt v.answers e;
      }

  register_call-NetInv : (t : ℕ) (net : Net F) → NetInv net → NetInv (register_call t net)
  unfolding register_call
  register_call-NetInv t net v = elim (Option-cases (lookup t net.prepared)) [
    | inl e ↦ rw (register_call, e) v
    | inr (m, e) ↦
        rw (register_call, e)
          (begin_request-NetInv m (record net { prepared = delete t net.prepared })
            (NetInv-same net _ refl refl refl refl refl v))
  ]

  end_request-NetInv : (id : ℤ) (net : Net F) → NetInv net → NetInv (end_request id net)
  unfolding end_request
  end_request-NetInv id net v = record {
    sound = v.sound;
    registered = Registered-delete net.channels net.session.pending id v.registered;
    taken = IsFlying-delete net.channels net.session.pending id net.flying v.taken;
    fresh = v.fresh;
    answers = v.answers;
  }

  receive-NetInv : (m : Message F) (net : Net F) → NetInv net → NetInv (receive m net)
  unfolding receive
  receive-NetInv m net v = elim (Bool-cases (is_some net.flying)) [
    | inl busy ↦ rw (receive, busy) v
    | inr idle ↦ rw (receive, idle) (dispatch-NetInv m net v)
  ]

  step-NetInv : (op : Op F) (net : Net F) → NetInv net → NetInv (step op net)
  unfolding step answer clear_session
  step-NetInv (prepares t m) net v = prepare-NetInv t m net v
  step-NetInv (registers t) net v = register_call-NetInv t net v
  step-NetInv (ends id) net v = end_request-NetInv id net v
  step-NetInv (receives m) net v = receive-NetInv m net v
  step-NetInv delivers net v = send_taken-NetInv net.flying net refl v
  step-NetInv drops net v = fail_pending-NetInv net v
  step-NetInv clears net v = NetInv-same net _ refl refl refl refl refl v
  step-NetInv renews_init net v = NetInv-same net _ refl refl refl refl refl v
  step-NetInv takes_init net v = NetInv-same net _ refl refl refl refl refl v

  run-NetInv : (net : Net F) (ops : List (Op F)) → NetInv net → NetInv (run net ops)
  unfolding run
  run-NetInv net [] v = v
  run-NetInv net (op ∷ ops) v = run-NetInv (step op net) ops (step-NetInv op net v)

  new-NetInv : (handler : Bool) → NetInv (new_net {F = F} handler)
  unfolding lookup
  new-NetInv handler = record {
    sound = refl;
    registered = tt;
    taken = tt;
    fresh = λ n l. refl;
    answers = λ ch c e. cc;
  }

  -- However calls, responses, drops and resets interleave, one critical section or one use of a channel
  -- at a time: nobody sends on a closed or full channel or closes one twice, and a channel that is
  -- there after these holds nothing, is closed, or holds a response with the id of the request that it
  -- was made for.
  pub responses_correlate :
      (handler : Bool) (ops : List (Op F)) (ch : ℕ) (c : Channel F)
      → lookup ch (run (new_net handler) ops).channels ≡ some c
      → ((run (new_net handler) ops).fault ≡ false) × IsAnswerTo c.request c.content
  responses_correlate handler ops ch c e =
      let v = run-NetInv (new_net handler) ops (new-NetInv handler) in (v.sound, v.answers ch c e)
