-- ===== src/Worker/Loops.antt =====
-- How many loops a worker has.
use godwoken_web.Common.{ℕ, ◌+◌, ◌≡◌, ◌∙◌, refl, ap, Bool, true, false, arith, Bool-cases, inl, inr}
use godwoken_web.Worker.{
  Worker, start, stop, start_forever, check, loop, poll_resolved, poll_rejected, Step, tick, fire,
  resolve, reject, with_timers, Reach, started, later,
}

abbrev pub expected : Bool → ℕ
expected true = 1
expected false = 0

-- A worker that runs has one timer or one poll and one that does not has neither, and the interval is set.
pub record IsLive (w : Worker) : Type 0 where
  pub loops : w.timers + w.polls ≡ expected w.is_running
  pub watched : w.interval ≡ true

Step-IsLive : (w u : Worker) → IsLive w → Step w u → IsLive u
unfolding check start loop poll_resolved poll_rejected stop
Step-IsLive w u live (tick i) = elim (Bool-cases w.is_running) [
  | inl e ↦ rw e (record { loops = live.loops ∙ ap expected e; watched = live.watched })
  | inr e ↦
      let idle : w.timers + w.polls ≡ 0 = live.loops ∙ ap expected e in
      rw e (record { loops = omega (arith, idle); watched = live.watched })
]
Step-IsLive w u live (fire n t) = elim (Bool-cases w.is_running) [
  | inl e ↦
      let one : w.timers + w.polls ≡ 1 = live.loops ∙ ap expected e in
      rw e (record { loops = omega (arith, one, t); watched = live.watched })
  | inr e ↦
      let idle : w.timers + w.polls ≡ 0 = live.loops ∙ ap expected e in
      absurd (omega (arith, idle, t))
]
Step-IsLive w u live (resolve n p) = record {
  loops = omega (arith, live.loops, p);
  watched = live.watched;
}
Step-IsLive w u live (reject n p) = elim (Bool-cases w.is_running) [
  | inl e ↦
      let one : w.timers + w.polls ≡ 1 = live.loops ∙ ap expected e in
      record { loops = omega (arith, one, p); watched = live.watched }
  | inr e ↦
      let idle : w.timers + w.polls ≡ 0 = live.loops ∙ ap expected e in
      absurd (omega (arith, idle, p))
]

-- Whatever order the interval, the timers and the polls come in behind startForever: a worker that runs
-- has one loop, as a pending timer or as a poll, and one that has stopped has none.
pub Reach-IsLive : (w : Worker) → Reach w → IsLive w
unfolding start_forever start
Reach-IsLive w started = record { loops = refl; watched = refl }
Reach-IsLive u (later {w} r s) = Step-IsLive w u (Reach-IsLive w r) s

-- A worker behind startForever that has stopped is started by the next tick of the interval, and the
-- timer that this sets begins the only poll.
pub Reach-recovers :
    (w : Worker)
    → Reach w
    → w.is_running ≡ false
    → (u v : Worker) × Step w u × Step u v × (v.is_running ≡ true) × (v.timers ≡ 0) × (v.polls ≡ 1)
unfolding check start loop
Reach-recovers w r e =
    let live = Reach-IsLive w r in
    let idle : w.timers + w.polls ≡ 0 = live.loops ∙ ap expected e in
    let none_left : w.polls ≡ 0 = omega (arith, idle) in
    (
      check w,
      loop (with_timers w.timers (check w)),
      tick live.watched,
      fire w.timers (rw e (omega arith)),
      rw e refl,
      rw e (omega (arith, idle)),
      rw e (omega (arith, idle)),
    )
