-- ===== src/Reconnect/Ladder.antt =====
-- How the waits of `Run` in internal/homeconnect/reconnect.go grow while an appliance is off.
use Prim.Native.Nat.{min}
use native.Mathlib.Nat.{pow-suc}
use native.Mathlib.Decide.{dec_le}
use go_homeconnect2mqtt.Base.{
  ℕ, zero, suc, ◌+◌, ◌*◌, ◌^◌, ◌≤◌, ◌<◌, ◌≡◌, refl, ap, ◌∙◌, false, List, [], ◌∷◌, arith,
}
use go_homeconnect2mqtt.Base.Int.{ℤ, pos}
use go_homeconnect2mqtt.Reconnect.{
  ReconnectConfig, top, Loop, Observation, step, start, run, next_backoff,
}
use go_homeconnect2mqtt.Reconnect.Backoff.{next_backoff_lem}
use go_homeconnect2mqtt.Reconnect.Bounds.{IsUsable, start-IsUsable, step-cfg}

-- One turn of the loop whose connect fails, at the given times.
pub record Round : Type 0 where
  pub before : ℤ
  pub failed : ℤ
  pub after : ℤ
  pub rand_int : ℤ → ℤ

abbrev seen : Round → ℤ → Observation
seen r now = record { cancelled = false; connects = false; now = now; rand_int = r.rand_int }

abbrev pub failing : List Round → List Observation
failing [] = []
failing (r ∷ rs) = seen r r.before ∷ seen r r.failed ∷ seen r r.after ∷ failing rs

-- `k` times doubled, cut off at `high` each time.
abbrev pub ladder : ℕ → ℕ → ℕ → ℕ
ladder high b zero = b
ladder high b (suc k) = ladder high (min (b + b) high) k

abbrev rounds : List Round → ℕ
rounds [] = 0
rounds (r ∷ rs) = suc (rounds rs)

pow_pos : (k : ℕ) → 0 < 2 ^ k
pow_pos zero = omega arith
pow_pos (suc k) = rw pow-suc (omega (arith, pow_pos k))

scale_le : (h s p : ℕ) → 0 < p → h ≤ s → h ≤ s * p
scale_le h s zero q l = elim q [ ]
scale_le h s (suc p) q l = grind arith

-- Cutting off before a scaling does not change what is cut off after it.
min_scale : (b high p : ℕ) → 0 < p → min (min (b + b) high * p) high ≡ min (b * (p * 2)) high
min_scale b high p q = elim (dec_le (b + b) high) [
  | yes l ↦ let e : min (b + b) high ≡ b + b = omega arith in rw e (omega arith)
  | no l ↦
      let e : min (b + b) high ≡ high = omega arith in
      rw e (omega (arith, scale_le high high p q, scale_le high (b + b) p q))
]

ladder_closed : (high b k : ℕ) → b ≤ high → ladder high b k ≡ min (b * 2 ^ k) high
ladder_closed high b zero h = omega arith
ladder_closed high b (suc k) h =
    ladder_closed high (min (b + b) high) k (omega arith)
    ∙ rw pow-suc (min_scale b high (2 ^ k) (pow_pos k))

failing_round :
    (r : Round) (l : Loop)
    → l.point ≡ top
    → let l' = step (seen r r.after) (step (seen r r.failed) (step (seen r r.before) l)) in
      (l'.point ≡ top) × (l'.backoff ≡ next_backoff l.manager.cfg l.backoff)
unfolding step
failing_round r l h = ground arith

failing-ladder :
    (c : ReconnectConfig) (low high : ℕ) (rs : List Round) (l : Loop) (b : ℕ)
    → IsUsable c low high
    → l.manager.cfg ≡ c
    → l.point ≡ top
    → l.backoff ≡ pos b
    → b ≤ high
    → ((run l (failing rs)).point ≡ top)
      × ((run l (failing rs)).backoff ≡ pos (ladder high b (rounds rs)))
unfolding run
failing-ladder c low high [] l b u k p e h = (p, e)
failing-ladder c low high (r ∷ rs) l b u k p e h =
    let l1 = step (seen r r.before) l in
    let l2 = step (seen r r.failed) l1 in
    let l3 = step (seen r r.after) l2 in
    let k3 =
      step-cfg (seen r r.after) l2
      ∙ step-cfg (seen r r.failed) l1
      ∙ step-cfg (seen r r.before) l
      ∙ k in
    let f = failing_round r l p in
    failing-ladder c low high rs l3 (min (b + b) high) u k3 f.0
      (f.1
        ∙ ap (λ q. next_backoff q l.backoff) k
        ∙ ap (next_backoff c) e
        ∙ next_backoff_lem c b high u.maximum (omega (arith, u.in_range)))
      (omega arith)

start-backoff : (c : ReconnectConfig) → (start c).backoff ≡ (start c).manager.cfg.initial_backoff
unfolding start
start-backoff c = refl

start-point : (c : ReconnectConfig) → (start c).point ≡ top
unfolding start
start-point c = refl

-- After k failed connects in a row, whenever they fail, the loop is at its top again, about to
-- try once more, and its backoff is the initial one times 2^k, cut off at the maximum.
backoff_ladder :
    (c : ReconnectConfig) (low high : ℕ) (rs : List Round)
    → 0 < low
    → IsUsable c low high
    → ((run (start c) (failing rs)).point ≡ top)
      × ((run (start c) (failing rs)).backoff ≡ pos (min (low * 2 ^ rounds rs) high))
backoff_ladder c low high rs p u =
    let u' = start-IsUsable c low high p u in
    let (a, b) =
      failing-ladder (start c).manager.cfg low high rs (start c) low u' refl (start-point c)
        (start-backoff c ∙ u'.initial) u.ordered in
    (a, b ∙ ap pos (ladder_closed high low (rounds rs) u.ordered))
