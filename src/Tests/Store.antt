-- ===== src/Tests/Store.antt =====
-- The device cache and the restarts of a worker on concrete runs.
use go_homeconnect2mqtt.Base.{ℕ, ◌≡◌, refl, true, false, none, some, List, [], ◌∷◌, All}
use go_homeconnect2mqtt.Base.Int.{pos}
use go_homeconnect2mqtt.Base.Keys.{lookup, insert}
use go_homeconnect2mqtt.State.Cache.{CacheOp, registers, connects, updates, cache_run}
use go_homeconnect2mqtt.State.Cache.Reads.{of_uid, read_feature, cache_holds_newest}
use go_homeconnect2mqtt.Supervisor.{restart_initial_backoff, Turn, supervise}
use go_homeconnect2mqtt.Supervisor.Restarts.{
  WaitsWithin, OfflineFirst, GoesOn, IsNoReturn, restarts_of_worker,
}

abbrev morning : List (CacheOp ℕ)
morning =
    registers "oven" "0123" "Bosch" "Oven" "" none
    ∷ updates "oven" 5 (pos 527) "Door" 1
    ∷ connects "oven" "offline" false
    ∷ updates "oven" 9 (pos 527) "Door" 0
    ∷ updates "oven" 9 (pos 528) "Light" 1
    ∷ []

cache_holds_newest_example :
    read_feature (cache_run [] morning) "oven" "Door" ≡ of_uid "oven" (pos 527) none morning
cache_holds_newest_example =
    cache_holds_newest morning "oven" "Door" (pos 527) (tt, (refl, (tt, (refl, (refl, tt)))))

-- Two features without a name: the second takes the place of the first.
abbrev nameless : List (CacheOp ℕ)
nameless = updates "oven" 5 (pos 527) "" 1 ∷ updates "oven" 6 (pos 528) "" 2 ∷ []

nameless_clash :
    read_feature (cache_run [] nameless) "oven" ""
    ≡ some (record { feature = ""; uid = pos 528; content = 2; updated_at = 6 })
unfolding cache_run read_feature lookup insert
nameless_clash = refl

abbrev two_panics : List Turn
two_panics =
    record { panicked = true; took = 7; cancelled = false }
    ∷ record { panicked = true; took = 70000000000; cancelled = false }
    ∷ []

restarts_of_worker_example :
    let actions = supervise restart_initial_backoff two_panics in
    All WaitsWithin actions
    × OfflineFirst actions
    × (All GoesOn two_panics → All IsNoReturn actions)
restarts_of_worker_example = restarts_of_worker two_panics
