-- ===== src/Timer.antt =====
-- Server/skynet/skynet-src/skynet_timer.c: the timing wheel. `near` has a slot for each of the next
-- 256 ticks; level `i` of `t` has 64 slots of 2^(8+6i) ticks each. A slot's linked list is a list,
-- oldest first. Times are `uint32_t`, below 2^32.
pub mod Place
pub mod Wheel
pub mod Due
pub mod Update
mod Tests
use ddzproject.Prelude.{
  ℕ, zero, suc, ◌+◌, ◌-◌, ◌*◌, ◌/◌, ◌%◌, ◌^◌, Bool, true, false, ◌&&◌, Option, none, some, List, [],
  ◌∷◌, ◌++◌, map, ltb, ◌==◌, if◌then◌else◌, bit_and, bit_or,
}
use ddzproject.Mq.{Message}

-- `struct timer_node` with the `struct timer_event` behind it.
pub record TimerNode : Type 0 where
  pub expire : ℕ
  pub handle : ℕ
  pub session : ℕ

pub record Timer : Type 0 where
  pub near : ℕ → List TimerNode
  pub t : ℕ → ℕ → List TimerNode
  pub time : ℕ
  pub starttime : ℕ
  pub current : ℕ
  pub current_point : ℕ

-- Where a list stands: in `near`, or in a level.
pub data Slot : Type 0 where
  near_slot : ℕ → Slot
  level_slot : ℕ → ℕ → Slot

abbrev pub slot : Timer → Slot → List TimerNode
slot T (near_slot k) = T.near k
slot T (level_slot i k) = T.t i k

abbrev pub set_near : (ℕ → List TimerNode) → ℕ → List TimerNode → ℕ → List TimerNode
set_near f k l j = if k == j then l else f j

abbrev pub set_level : (ℕ → ℕ → List TimerNode) → ℕ → ℕ → List TimerNode → ℕ → ℕ → List TimerNode
set_level f i k l a b = if i == a && k == b then l else f a b

pub set_slot : Timer → Slot → List TimerNode → Timer
set_slot T (near_slot k) l = record T { near = set_near T.near k l }
set_slot T (level_slot i k) l = record T { t = set_level T.t i k l }

-- `link`: the node goes to the end of the slot's list.
pub link : Timer → Slot → TimerNode → Timer
unfolding set_slot
link T s n = set_slot T s (slot T s ++ n ∷ [])

-- The loop of `add_node` over the levels, with `n` rounds left.
pub find_level : ℕ → ℕ → ℕ → ℕ → ℕ → ℕ
find_level zero i mask time current = i
find_level (suc n) i mask time current =
    let rest = find_level n (i + 1) (mask * 64) time current in
    if bit_or time (mask - 1) == bit_or current (mask - 1) then i else rest

-- The slot that `add_node` chooses for the expiry `time`.
pub place : ℕ → ℕ → Slot
unfolding find_level
place time current =
    if bit_or time 255 == bit_or current 255
    then near_slot (bit_and time 255)
    else let i = find_level 3 0 (256 * 64) time current in
      level_slot i (bit_and (time / 2 ^ (8 + i * 6)) 63)

pub add_node : Timer → TimerNode → Timer
unfolding link place
add_node T n = link T (place n.expire T.time) n

pub timer_add : Timer → ℕ → ℕ → ℕ → Timer
unfolding add_node
timer_add T handle session time =
    add_node T (record { expire = (time + T.time) % 2 ^ 32; handle = handle; session = session })

pub add_nodes : Timer → List TimerNode → Timer
unfolding add_node
add_nodes T [] = T
add_nodes T (n ∷ ns) = add_nodes (add_node T n) ns

pub move_list : Timer → ℕ → ℕ → Timer
unfolding add_nodes set_slot
move_list T level idx =
    add_nodes (set_slot T (level_slot level idx) []) (slot T (level_slot level idx))

-- The `while` of `timer_shift`: the level and the index of the list to move, if there is one.
-- The last level has an index that is not 0 when `ct` is not 0, so four rounds are enough.
pub find_shift : ℕ → ℕ → ℕ → ℕ → ℕ → Option (ℕ × ℕ)
find_shift zero ct mask time i = none
find_shift (suc fuel) ct mask time i =
    let idx = bit_and time 63 in
    let rest = find_shift fuel ct (mask * 64) (time / 2 ^ 6) (i + 1) in
    if bit_and ct (mask - 1) == 0 then (if idx == 0 then rest else some (i, idx)) else none

-- The list that `timer_shift` moves at the new time `ct`.
pub shift_slot : ℕ → Option (ℕ × ℕ)
unfolding find_shift
shift_slot ct = if ct == 0 then some (3, 0) else find_shift 4 ct 256 (ct / 2 ^ 8) 0

pub move_at : Timer → Option (ℕ × ℕ) → Timer
unfolding move_list
move_at T none = T
move_at T (some (i, k)) = move_list T i k

pub timer_shift : Timer → Timer
unfolding move_at shift_slot
timer_shift T = let ct = (T.time + 1) % 2 ^ 32 in move_at (record T { time = ct }) (shift_slot ct)

-- `dispatch_list`: the message that each node pushes, with the service that it goes to.
pub dispatch : TimerNode → ℕ × Message
dispatch n = (n.handle, record { source = 0; session = n.session; payload = 0; sz = 1 * 2 ^ 56 })

-- The nodes dispatched, and the timer with their slot cleared.
pub timer_execute : Timer → List TimerNode × Timer
unfolding set_slot
timer_execute T = let idx = bit_and T.time 255 in (T.near idx, set_slot T (near_slot idx) [])

pub timer_update : Timer → List TimerNode × Timer
unfolding timer_execute timer_shift
timer_update T =
    let a = timer_execute T in let b = timer_execute (timer_shift (a.1)) in (a.0 ++ b.0, b.1)

pub timer_create_timer : Timer
timer_create_timer = record {
  near = λ k. [];
  t = λ i k. [];
  time = 0;
  starttime = 0;
  current = 0;
  current_point = 0;
}

-- `skynet_timeout` with a delay that is not positive pushes at once.
pub data Timeout : Type 0 where
  immediate : ℕ × Message → Timeout
  scheduled : Timer → Timeout

-- The delay is `time` if `positive`, else it is 0 or below.
pub timeout : Timer → ℕ → Bool → ℕ → ℕ → Timeout
unfolding dispatch timer_add
timeout T handle false time session =
    immediate (dispatch (record { expire = 0; handle = handle; session = session }))
timeout T handle true time session = scheduled (timer_add T handle session time)

-- `n` calls of `timer_update`; the nodes dispatched by each, in order.
pub updates : ℕ → Timer → List (List TimerNode) × Timer
unfolding timer_update
updates zero T = ([], T)
updates (suc n) T = let a = timer_update T in let b = updates n (a.1) in (a.0 ∷ b.0, b.1)

-- `skynet_updatetime`, where the monotonic clock reads `cp`.
pub update_time : ℕ → Timer → List (List TimerNode) × Timer
unfolding updates
update_time cp T =
    if ltb cp T.current_point
    then ([], record T { current_point = cp })
    else if cp == T.current_point
    then ([], T)
    else let diff = (cp - T.current_point) % 2 ^ 32 in
      updates diff (record T { current_point = cp; current = (T.current + diff) % 2 ^ 64 })
