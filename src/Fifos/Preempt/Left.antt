-- ===== src/Fifos/Preempt/Left.antt =====
-- How many statements the threads of FIFOS-2 have left.
use cs552operating_system.Base.{
  ℕ, zero, suc, ◌+◌, ◌*◌, ◌≤◌, ◌<◌, ◌≡◌, refl, Bool, true, false, Option, none, some, List, [], ◌∷◌,
  update, arith,
}
use cs552operating_system.Fifos.Preempt.{
  Pc, loop, enter, locked, message, mark_finished, mark_unassigned, pick, store, switch, behind,
  Context, Status, running, halted, crashed, System, Event, statement, interrupt,
}

-- The statements that a context has left, at most.
unfoldable pub left : Pc → ℕ
left (loop n) = 3 * n + 7
left (enter n) = 3 * n + 9
left (locked n) = 3 * n + 8
left message = 6
left mark_finished = 5
left mark_unassigned = 4
left pick = 3
left (store next) = 2
left (switch temp next) = 1
left behind = 0

unfoldable pub left_saved : Option Context → ℕ
unfolding left
left_saved none = 0
left_saved (some c) = left c.pc

unfoldable pub left_waiting : (ℕ → Option Context) → ℕ
unfolding left_saved
left_waiting saved = left_saved (saved 0) + left_saved (saved 1) + left_saved (saved 2)

unfoldable pub left_while : Status → ℕ → ℕ
left_while running n = suc n
left_while halted n = 0
left_while crashed n = 0

-- What the machine has left: one more for the last step, and nothing once it has stopped.
unfoldable pub left_system : System → ℕ
unfolding left left_waiting left_while
left_system s = left_while s.status (left s.cpu.pc + left_waiting s.saved)

unfoldable pub is_running : Status → Bool
is_running running = true
is_running halted = false
is_running crashed = false

unfoldable pub statements : List Event → ℕ
statements [] = 0
statements (statement ∷ es) = suc (statements es)
statements (interrupt ∷ es) = statements es

pub left_waiting-update :
    (saved : ℕ → Option Context) (i : ℕ) (o : Option Context)
    → i < 3
    → left_waiting (update saved i o) + left_saved (saved i) ≡ left_waiting saved + left_saved o
unfolding left_waiting
left_waiting-update saved zero o h = omega arith
left_waiting-update saved (suc zero) o h = omega arith
left_waiting-update saved (suc (suc zero)) o h = omega arith
left_waiting-update saved (suc (suc (suc i))) o h = omega arith

pub left_while_le : (status : Status) (n : ℕ) → left_while status n ≤ suc n
unfolding left_while
left_while_le running n = omega arith
left_while_le halted n = omega arith
left_while_le crashed n = omega arith

pub at_most : (status : Status) (m n : ℕ) → left_while status (m + n) ≤ suc m + n
at_most status m n = let bound = left_while_le status (m + n) in omega (arith, bound)

pub stopped : (status : Status) (n : ℕ) → is_running status ≡ false → left_while status n ≡ 0
unfolding is_running left_while
stopped running n e = cc
stopped halted n e = refl
stopped crashed n e = refl

pub none_left : (status : Status) (n : ℕ) → left_while status n ≤ 0 → is_running status ≡ false
unfolding is_running left_while
none_left running n h = absurd (omega arith)
none_left halted n h = refl
none_left crashed n h = refl
