-- ===== src/Workers/OutboxWorker/Backoff.antt =====
-- The delay before a retry.
use leaf_flow_chat.Prelude.{ℕ, suc, ◌*◌, ◌^◌, ◌≤◌, ◌≡◌, refl, arith, min}
use native.Mathlib.Nat.{pow-suc, one-le-pow}
use leaf_flow_chat.Workers.OutboxWorker.{delay_seconds}

pow_pos : (n : ℕ) → 1 ≤ 2 ^ n
pow_pos n = one-le-pow n 2 (omega arith)

-- The delay starts at 5 seconds, doubles with each attempt until it reaches 300, and stays there.
pub delay_seconds_doubles :
    (n : ℕ)
    → (delay_seconds 0 ≡ 5)
      × (5 ≤ delay_seconds n)
      × (delay_seconds n ≤ 300)
      × (delay_seconds (suc n) ≡ min (2 * delay_seconds n) 300)
unfolding delay_seconds
delay_seconds_doubles n =
    (refl, omega (arith, pow_pos n), omega arith, omega (arith, pow_pos n, pow-suc 2 n))
