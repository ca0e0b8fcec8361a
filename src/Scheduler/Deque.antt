-- ===== src/Scheduler/Deque.antt =====
-- The work-stealing deque, src/scheduler/deque.c, one operation at a time: the owner pushes and pops
-- at the bottom, thieves steal at the top. The counters are 32-bit words that wrap; actors are
-- addresses, 0 for NULL.
pub mod Items
pub mod Laws
use smalltalk_a_vm.Prelude.{
  ℕ, ◌+◌, ◌-◌, ◌%◌, ◌^◌, Bool, not, ◌&&◌, ◌||◌, Option, none, some, List, get_or, set, replicate,
  bit_and, ltb, leb, ◌==◌, if◌then◌else◌,
}

abbrev pub capacity : ℕ
capacity = 1024

pub record WorkDeque : Type 0 where
  pub top : ℕ
  pub bottom : ℕ
  pub buf : List ℕ

abbrev pub slot : ℕ → ℕ
slot i = bit_and i 1023

-- `a - b` in 32 bits, and `(int32_t)x > 0`.
abbrev pub minus : ℕ → ℕ → ℕ
minus a b = (a + (2 ^ 32 - b)) % 2 ^ 32

abbrev pub is_positive : ℕ → Bool
is_positive x = ltb 0 x && ltb x (2 ^ 31)

unfoldable pub init : WorkDeque
init = record { top = 0; bottom = 0; buf = replicate capacity 0 }

-- `sta_deque_push`: `none` for -1.
unfoldable pub push : WorkDeque → ℕ → Option WorkDeque
push dq a =
    if leb capacity (minus dq.bottom dq.top)
    then none
    else some (record dq { buf = set dq.buf (slot dq.bottom) a; bottom = (dq.bottom + 1) % 2 ^ 32 })

-- `sta_deque_pop`. No thief comes between, so the compare-exchange on `top` succeeds.
unfoldable pub pop : WorkDeque → WorkDeque × ℕ
pop dq =
    let b = dq.bottom - 1 in
    let a = get_or dq.buf (slot b) 0 in
    if dq.bottom == 0
    then (dq, 0)
    else (if is_positive (minus dq.top b)
        then (record dq { bottom = (b + 1) % 2 ^ 32 }, 0)
        else (if dq.top == b
            then (record dq { top = (dq.top + 1) % 2 ^ 32; bottom = (dq.top + 1) % 2 ^ 32 }, a)
            else (record dq { bottom = b }, a)))

-- `sta_deque_steal`, likewise.
unfoldable pub steal : WorkDeque → WorkDeque × ℕ
steal dq =
    if not (is_positive (minus dq.bottom dq.top))
    then (dq, 0)
    else (record dq { top = (dq.top + 1) % 2 ^ 32 }, get_or dq.buf (slot dq.top) 0)

-- `sta_deque_size`, for a size below 2^31.
unfoldable pub size : WorkDeque → ℕ
size dq = minus dq.bottom dq.top
