-- ===== src/Waiter.antt =====
-- waiter.go: the count of goroutines that a shutdown waits for.
use mangos_v.Prelude.{ℕ, zero, suc, ◌+◌, Bool, Option, none, some, ◌==◌, true, false, List, [], ◌∷◌}

pub record Waiter : Type 0 where
  pub cnt : ℕ

unfoldable pub init : Waiter
init = record { cnt = 0 }

unfoldable pub add : Waiter → Waiter
add w = record { cnt = w.cnt + 1 }

-- `none` is the panic of a count below zero; the flag tells whether the waiters are woken.
done_from : ℕ → Option (Waiter × Bool)
done_from zero = none
done_from (suc n) = some (record { cnt = n }, n == 0)

unfoldable pub done : Waiter → Option (Waiter × Bool)
unfolding done_from
done w = done_from w.cnt

-- `Wait` from this count, over the counts that it finds when it is woken: whether it returns.
unfoldable pub wait : ℕ → List ℕ → Bool
wait zero woken = true
wait (suc n) [] = false
wait (suc n) (c ∷ woken) = wait c woken

-- `WaitRelTimeout` and `WaitAbsTimeout`, over the counts and whether the timer was still to expire.
unfoldable pub wait_timeout : ℕ → List (Bool × ℕ) → Option Bool
wait_timeout zero woken = some true
wait_timeout (suc n) [] = none
wait_timeout (suc n) ((true, c) ∷ woken) = wait_timeout c woken
wait_timeout (suc n) ((false, c) ∷ woken) = some (c == 0)
