-- ===== src/Tests/Connection.antt =====
-- The reconnect loop on short runs.
use go_homeconnect2mqtt.Base.{◌+◌, ◌≡◌, refl, Bool, true, false, List, [], ◌∷◌, arith}
use go_homeconnect2mqtt.Base.Int.{ℤ, pos}
use go_homeconnect2mqtt.Reconnect.{ReconnectConfig, Observation, start, run}
use go_homeconnect2mqtt.Reconnect.Backoff.{IsRandom}
use go_homeconnect2mqtt.Reconnect.Bounds.{IsUsable, connects, closes, open_at, one_connection}
use go_homeconnect2mqtt.Reconnect.Ladder.{Round}

-- One second, growing to ten, with half a second of jitter.
abbrev one_to_ten : ReconnectConfig
one_to_ten = record {
  initial_backoff = pos 1_000_000_000;
  max_backoff = pos 10_000_000_000;
  jitter = pos 500_000_000;
  connect_timeout = pos 0;
  log_throttle = pos 0;
  has_on_state = true;
}

abbrev none_left : ℤ → ℤ
none_left n = pos 0

abbrev observe : Bool → Bool → Observation
observe cancelled connects = record {
  cancelled = cancelled;
  connects = connects;
  now = pos 7;
  rand_int = none_left;
}

-- A failed connect, a wait, then a connection that drops.
abbrev fails_then_drops : List Observation
fails_then_drops =
    observe false true
    ∷ observe false false
    ∷ observe false true
    ∷ observe false true
    ∷ observe false true
    ∷ observe false true
    ∷ []

abbrev at_seven : Round
at_seven = record { before = pos 7; failed = pos 7; after = pos 7; rand_int = none_left }

one_to_ten-IsUsable : IsUsable one_to_ten 1_000_000_000 10_000_000_000
one_to_ten-IsUsable = record {
  initial = refl;
  maximum = refl;
  ordered = omega arith;
  in_range = omega arith;
}

none_left-IsRandom : IsRandom none_left
none_left-IsRandom n h = (omega arith, h)

one_connection_example :
    connects (run (start one_to_ten) fails_then_drops).manager.trace
    ≡ closes (run (start one_to_ten) fails_then_drops).manager.trace
      + open_at (run (start one_to_ten) fails_then_drops).point
one_connection_example = one_connection one_to_ten fails_then_drops
