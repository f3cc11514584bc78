-- ===== src/Base/Backoff.antt =====
-- `Math.min(initial * factor ** (n - 1), cap)`, the curve of the mail and webhook retries, over exact
-- natural numbers.
use Prim.Native.Nat.{ℕ, ◌-◌, ◌*◌, ◌^◌, ◌≤◌, min}
use native.Mathlib.Nat.{pow-le-pow_right, mul-le-mul_left}
use native.Mathlib.Omega.{arith}

abbrev pub backoff : (initial factor cap n : ℕ) → ℕ
backoff initial factor cap n = min (initial * factor ^ (n - 1)) cap

pub backoff_mono :
    (initial factor cap n m : ℕ)
    → 1 ≤ factor
    → n ≤ m
    → backoff initial factor cap n ≤ backoff initial factor cap m
backoff_mono initial factor cap n m h le =
    let powers : factor ^ (n - 1) ≤ factor ^ (m - 1) = pow-le-pow_right h (omega arith) in
    omega (arith, mul-le-mul_left initial powers)
