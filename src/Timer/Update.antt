-- ===== src/Timer/Update.antt =====
-- `timer_update` and runs of it: each node is dispatched at its tick, not before and not after.
use ddzproject.Prelude.{
  ℕ, zero, suc, ◌+◌, ◌-◌, ◌%◌, ◌^◌, ◌<◌, ◌≡◌, ◌≢◌, ◌⊎◌, inl, inr, sym, ap, ◌∙◌, arith, List, All,
}
use ddzproject.Prelude.Members.{Has, Has-left, Has-right, Has-append}
use native.Mathlib.Decide.{ℕ_discrete}
use ddzproject.Timer.{
  TimerNode, Timer, timer_shift, timer_execute, timer_update, updates, timer_add, add_node,
}
use ddzproject.Timer.Place.{tick}
use ddzproject.Timer.Wheel.{Pending, IsWheel, add_node-IsWheel, add_node-Pending, time-add_node}
use ddzproject.Timer.Due.{NoneDue, Executed, execute-Executed, Shifted, shift-Shifted}

-- What `timer_update` gives: it dispatches just the pending nodes that expire at the old or at the
-- new time, and all others stay pending.
pub record Updated (T : Timer) (r : List TimerNode × Timer) : Type 0 where
  pub wheel : IsWheel (r.1)
  pub time : r.1.time ≡ tick T.time
  pub due :
      (m : TimerNode) → Has m (r.0) → Pending T m × ((m.expire ≡ T.time) ⊎ (m.expire ≡ tick T.time))
  pub all :
      (m : TimerNode) → Pending T m → (m.expire ≡ T.time) ⊎ (m.expire ≡ tick T.time) → Has m (r.0)
  pub kept :
      (m : TimerNode) → Pending T m → m.expire ≢ T.time → m.expire ≢ tick T.time → Pending (r.1) m
  pub only : (m : TimerNode) → Pending (r.1) m → Pending T m
  pub none_left : NoneDue (r.1)

-- `timer_update` keeps the wheel in order, advances the time by one tick, dispatches just the
-- pending nodes that expire at the old time or at the new one, keeps all others, adds none, and
-- leaves no node that is due.
pub update-Updated : (T : Timer) → IsWheel T → Updated T (timer_update T)
unfolding timer_update
update-Updated T w = record {
  wheel = c.wheel;
  time = c.time ∙ b.time ∙ ap tick a.time;
  due = λ m h.
      elim (Has-append (timer_execute T).0 (timer_execute (timer_shift (timer_execute T).1)).0 m
        h) [
          | inl g ↦ ((a.due m g).0, inl (a.due m g).1)
          | inr g ↦ (a.only m (b.only m (c.due m g).0), inr ((c.due m g).1 ∙ new_time))
        ];
  all = λ m p e. elim (ℕ_discrete m.expire T.time) [
    | yes f ↦ Has-left (timer_execute T).0 _ m (a.all m p f)
    | no ne ↦
        Has-right (timer_execute T).0 _ m
          (c.all m (b.kept m (a.kept m p ne)) (later m e ne ∙ sym new_time))
  ];
  kept = λ m p ne ne'. c.kept m (b.kept m (a.kept m p ne)) (λ e. ne' (e ∙ new_time));
  only = λ m p. a.only m (b.only m (c.only m p));
  none_left = c.none_left;
}
  where
    a : Executed T (timer_execute T)
    a = execute-Executed T w

    b : Shifted (timer_execute T).1 (timer_shift (timer_execute T).1)
    b = shift-Shifted (timer_execute T).1 a.wheel a.none_left

    c : Executed (timer_shift (timer_execute T).1) (timer_execute (timer_shift (timer_execute T).1))
    c = execute-Executed (timer_shift (timer_execute T).1) b.wheel

    new_time : (timer_shift (timer_execute T).1).time ≡ tick T.time
    new_time = b.time ∙ ap tick a.time

    later :
        (m : TimerNode)
        → (m.expire ≡ T.time) ⊎ (m.expire ≡ tick T.time)
        → m.expire ≢ T.time
        → m.expire ≡ tick T.time
    later m (inl e) ne = absurd (ne e)
    later m (inr e) ne = e

-- The ticks from time `c` to the next time `e`.
abbrev pub ticks_to : ℕ → ℕ → ℕ
ticks_to c e = (e + 2 ^ 32 - c) % 2 ^ 32

-- `updates` advances the time by as many ticks.
pub updates-time :
    (n : ℕ) (T : Timer)
    → IsWheel T
    → IsWheel (updates n T).1 × ((updates n T).1.time ≡ (T.time + n) % 2 ^ 32)
unfolding updates
updates-time zero T w = (w, omega (arith, w.in_range))
updates-time (suc n) T w =
    let u = update-Updated T w in
    let (v, e) = updates-time n (timer_update T).1 u.wheel in (v, omega (arith, e, u.time))

-- For fewer updates than ticks to its expiry, a node is not dispatched and stays pending.
pub not_before :
    (n : ℕ) (T : Timer) (m : TimerNode)
    → IsWheel T
    → Pending T m
    → m.expire < 2 ^ 32
    → n < ticks_to T.time m.expire
    → All (λ l. ¬ Has m l) (updates n T).0 × Pending (updates n T).1 m
unfolding updates
not_before zero T m w p h lt = (tt, p)
not_before (suc n) T m w p h lt =
    let u = update-Updated T w in
    let r =
      not_before n (timer_update T).1 m u.wheel
        (u.kept m p (omega (arith, w.in_range)) (omega (arith, w.in_range))) h
        (omega (arith, u.time, w.in_range)) in
    ((λ g. early (u.due m g).1, r.0), r.1)
  where
    early : (m.expire ≡ T.time) ⊎ (m.expire ≡ tick T.time) → ⊥
    early e = omega (arith, e, w.in_range)

-- A timer set with a delay of `d` ticks, below 2^31, on a wheel in order: none of the next `d - 1`
-- updates dispatches it, and the `d`-th does.
pub timeout_on_time :
    (T : Timer) (handle session d : ℕ)
    → IsWheel T
    → 0 < d
    → d < 2 ^ 31
    → let U = timer_add T handle session d in
      let n : TimerNode = record {
        expire = (d + T.time) % 2 ^ 32;
        handle = handle;
        session = session;
      } in
      All (λ l. ¬ Has n l) (updates (d - 1) U).0 × Has n (timer_update (updates (d - 1) U).1).0
unfolding timer_add
timeout_on_time T handle session d w pos small = (
  before.0,
  (update-Updated (updates (d - 1) U).1 run.0).all n before.1
      (inr (omega (arith, run.1, same, w.in_range))),
)
  where
    n : TimerNode
    n = record { expire = (d + T.time) % 2 ^ 32; handle = handle; session = session }

    U : Timer
    U = add_node T n

    same : U.time ≡ T.time
    same = time-add_node T n

    wheel : IsWheel U
    wheel = add_node-IsWheel T n w (omega arith) (omega (arith, w.in_range))

    run : IsWheel (updates (d - 1) U).1 × ((updates (d - 1) U).1.time ≡ (U.time + (d - 1)) % 2 ^ 32)
    run = updates-time (d - 1) U wheel

    before : All (λ l. ¬ Has n l) (updates (d - 1) U).0 × Pending (updates (d - 1) U).1 n
    before =
        not_before (d - 1) U n wheel (add_node-Pending T n n).1 (omega arith)
          (omega (arith, same, w.in_range))
