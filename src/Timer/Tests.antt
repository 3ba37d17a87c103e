-- ===== src/Timer/Tests.antt =====
-- Runs of skynet_timer.c, and its theorems at concrete wheels.
use ddzproject.Prelude.{◌+◌, ◌-◌, ◌%◌, ◌^◌, ◌≡◌, refl, arith, All, some, inl}
use ddzproject.Prelude.Members.{Has}
use ddzproject.Timer.{
  TimerNode, Timer, Slot, near_slot, level_slot, slot, place, shift_slot, timer_shift, timer_update,
  updates, timer_add, add_node, timer_create_timer,
}
use ddzproject.Timer.Wheel.{IsWheel, add_node-IsWheel}
use ddzproject.Timer.Due.{Shifted, shift-Shifted}
use ddzproject.Timer.Update.{Updated, update-Updated, timeout_on_time}

nothing_stands : (s : Slot) (m : TimerNode) → Has m (slot timer_create_timer s) → ⊥
unfolding timer_create_timer
nothing_stands (near_slot k) m h = h
nothing_stands (level_slot i k) m h = h

create-IsWheel : IsWheel timer_create_timer
create-IsWheel = record {
  in_range = unfold timer_create_timer in omega arith;
  fits = λ s m h. absurd (nothing_stands s m h);
  placed = λ s m h. absurd (nothing_stands s m h);
}

-- The time is 250.
abbrev node : TimerNode
node = record { expire = 300; handle = 5; session = 9 }

abbrev one_timer : Timer
one_timer = add_node timer_create_timer node

one_timer-IsWheel : IsWheel one_timer
one_timer-IsWheel =
    add_node-IsWheel timer_create_timer node create-IsWheel (omega arith)
      (inl (unfold timer_create_timer in omega arith))

placed_in_level : place 300 250 ≡ level_slot 0 1
unfolding place
placed_in_level = refl

level_moved_at_256 : shift_slot 256 ≡ some (0, 1)
unfolding shift_slot
level_moved_at_256 = refl

update-Updated_example : Updated one_timer (timer_update one_timer)
update-Updated_example = update-Updated one_timer one_timer-IsWheel

shift-Shifted_example : Shifted timer_create_timer (timer_shift timer_create_timer)
shift-Shifted_example =
    shift-Shifted timer_create_timer create-IsWheel (λ m p. absurd (nothing_stands (p.0) m (p.1)))

timeout_on_time_example :
    let U = timer_add timer_create_timer 5 9 300 in
    let n : TimerNode = record {
      expire = (300 + timer_create_timer.time) % 2 ^ 32;
      handle = 5;
      session = 9;
    } in
    All (λ l. ¬ Has n l) (updates (300 - 1) U).0 × Has n (timer_update (updates (300 - 1) U).1).0
timeout_on_time_example =
    timeout_on_time timer_create_timer 5 9 300 create-IsWheel (omega arith) (omega arith)
