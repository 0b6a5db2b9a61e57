-- ===== src/Bridge/Republish.antt =====
-- republishDiscovery of internal/bridge/bridge.go: calls that interleave in any order, with the mutex
-- and the pending flag. A call is a number and is made once; a step of a call that is elsewhere does
-- nothing. The context is that of the daemon, and discovery is configured (`hass` is not nil).
pub mod Finish
pub mod Guard
pub mod Owed
pub mod Served
use go_homeconnect2mqtt.Base.{
  ℕ, zero, suc, ◌-◌, Bool, true, false, not, ◌&&◌, Option, none, some, is_some, List, [], ◌∷◌,
  nat_beq, if◌then◌else◌,
}

-- Where a call is: not made, before the gate of `started`, before the lock, behind it, in the loop
-- over the devices, or back, after a pass or without one.
pub data Phase : Type 0 where
  outside at_gate asked locked passing returned given_up : Phase

-- A request is the Store on the pending flag; a publish is a call of publishDiscovery that goes on.
pub data Event : Type 0 where
  requested : ℕ → Event
  published : ℕ → Event

-- `left` counts the devices that the running loop has before it.
pub record Republisher : Type 0 where
  pub stopped : Bool
  pub opened : Bool
  pub cancelled : Bool
  pub pending : Bool
  pub holder : Option ℕ
  pub left : ℕ
  pub passes : ℕ
  pub phase : ℕ → Phase
  pub trace : List Event

abbrev pub set_phase : ℕ → Phase → (ℕ → Phase) → ℕ → Phase
set_phase t p phase u = if nat_beq u t then p else phase u

abbrev pub no_calls : Republisher
no_calls = record {
  stopped = false;
  opened = false;
  cancelled = false;
  pending = false;
  holder = none;
  left = 0;
  passes = 0;
  phase = λ t. outside;
  trace = [];
}

pub data RepublishOp : Type 0 where
  call pass_gate leave_gate lock take turn : ℕ → RepublishOp
  open_gate stop_discovery cancel : RepublishOp

abbrev pub move : ℕ → Phase → Republisher → Republisher
move t p s = record s { phase = set_phase t p s.phase }

-- The return of the call that holds the lock
abbrev pub unlock : ℕ → Phase → Republisher → Republisher
unlock t p s = record s { holder = none; left = 0; phase = set_phase t p s.phase }

-- The test at the start of republishDiscovery
unfoldable pub call_at : Phase → ℕ → Republisher → Republisher
call_at outside t s = if s.stopped then move t given_up s else move t at_gate s
call_at _ t s = s

-- The Store on the pending flag
abbrev pub make_pending : ℕ → Republisher → Republisher
make_pending t s = record s {
  pending = true;
  phase = set_phase t asked s.phase;
  trace = requested t ∷ s.trace;
}

-- The gate, and the Store behind it
unfoldable pub pass_gate_at : Phase → ℕ → Republisher → Republisher
pass_gate_at at_gate t s = if s.opened then make_pending t s else s
pass_gate_at _ t s = s

unfoldable pub leave_gate_at : Phase → ℕ → Republisher → Republisher
leave_gate_at at_gate t s = if s.cancelled then move t given_up s else s
leave_gate_at _ t s = s

abbrev pub get_lock : ℕ → Republisher → Republisher
get_lock t s = record s { holder = some t; phase = set_phase t locked s.phase }

unfoldable pub lock_at : Phase → ℕ → Republisher → Republisher
lock_at asked t s = if is_some s.holder then s else get_lock t s
lock_at _ t s = s

abbrev pub start_pass : ℕ → ℕ → Republisher → Republisher
start_pass n t s = record s {
  pending = false;
  left = n;
  passes = suc s.passes;
  phase = set_phase t passing s.phase;
}

-- CompareAndSwap, for a fleet of n appliances
unfoldable pub take_at : ℕ → Phase → ℕ → Republisher → Republisher
take_at n locked t s = if s.pending then start_pass n t s else unlock t returned s
take_at n _ t s = s

-- publishDiscovery of the next device, which goes on while discovery is not stopped
abbrev pub publish_next : ℕ → ℕ → Republisher → Republisher
publish_next n m s = record s {
  left = m;
  trace = if s.stopped then s.trace else published (n - suc m) ∷ s.trace;
}

-- The body of the loop
abbrev pub next_turn : ℕ → ℕ → ℕ → Republisher → Republisher
next_turn n t m s = if s.cancelled then unlock t given_up s else publish_next n m s

-- A turn of the loop, or its end
unfoldable pub turn_at : ℕ → Phase → ℕ → Republisher → Republisher
turn_at n passing t s = elim s.left [ zero ↦ unlock t returned s | suc m ↦ next_turn n t m s ]
turn_at n _ t s = s

unfoldable pub republish_step : ℕ → RepublishOp → Republisher → Republisher
unfolding call_at pass_gate_at leave_gate_at lock_at take_at turn_at
republish_step n (call t) s = call_at (s.phase t) t s
republish_step n (pass_gate t) s = pass_gate_at (s.phase t) t s
republish_step n (leave_gate t) s = leave_gate_at (s.phase t) t s
republish_step n (lock t) s = lock_at (s.phase t) t s
republish_step n (take t) s = take_at n (s.phase t) t s
republish_step n (turn t) s = turn_at n (s.phase t) t s
republish_step n open_gate s = record s { opened = true }
republish_step n stop_discovery s = record s { stopped = true }
republish_step n cancel s = record s { cancelled = true }

unfoldable pub republish_run : ℕ → List RepublishOp → Republisher → Republisher
unfolding republish_step
republish_run n [] s = s
republish_run n (op ∷ ops) s = republish_run n ops (republish_step n op s)
