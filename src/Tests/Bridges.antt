-- ===== src/Tests/Bridges.antt =====
-- The republish of internal/bridge/bridge.go in a run of two calls.
use go_homeconnect2mqtt.Base.{◌≡◌, refl, ◌≤◌, true, some, List, [], ◌∷◌, ◌++◌, length, arith}
use go_homeconnect2mqtt.Bridge.Republish.{
  asked, returned, no_calls, RepublishOp, call, pass_gate, lock, take, turn, open_gate,
  republish_run,
}
use go_homeconnect2mqtt.Bridge.Republish.Owed.{published_since}
use go_homeconnect2mqtt.Bridge.Republish.Finish.{finish, finishes}
use go_homeconnect2mqtt.Bridge.Republish.Served.{served}

-- The first call passes over two appliances when the second makes its request.
abbrev two_calls : List RepublishOp
two_calls = open_gate ∷ call 0 ∷ pass_gate 0 ∷ lock 0 ∷ take 0 ∷ turn 0 ∷ call 1 ∷ pass_gate 1 ∷ []

abbrev to_the_end : List RepublishOp
to_the_end = two_calls ++ finish 2 (some 0) 1

second_waits : (republish_run 2 two_calls no_calls).phase 1 ≡ asked
unfolding republish_run
second_waits = refl

finishes_example :
    (length (finish 2 (republish_run 2 two_calls no_calls).holder 1) ≤ 9)
    × ((republish_run 2
            (two_calls ++ finish 2 (republish_run 2 two_calls no_calls).holder 1)
            no_calls).phase
          1
        ≡ returned)
    × (published_since 1 0
          (republish_run 2
            (two_calls ++ finish 2 (republish_run 2 two_calls no_calls).holder 1)
            no_calls).trace
        ≡ true)
unfolding republish_run
finishes_example = finishes 2 two_calls 1 0 refl refl refl (omega arith)

first_returns : (republish_run 2 to_the_end no_calls).phase 0 ≡ returned
unfolding republish_run
first_returns = refl

served_example : published_since 0 1 (republish_run 2 to_the_end no_calls).trace ≡ true
unfolding republish_run
served_example = served 2 to_the_end 0 1 refl refl first_returns (omega arith)
