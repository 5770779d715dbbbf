-- ===== src/Worker/Backoff.antt =====
-- The retry delays of rust/crates/control-plane/src/event_worker.rs.
use xscope.Prelude.{ℕ, zero, suc, ◌≡◌, subst, ◌≤◌, arith, ◌^◌, ◌+◌, ◌-◌, ◌*◌, min, if◌then◌else◌}
use native.Mathlib.Nat.{pow-suc}
use xscope.Prelude.Int.{ℤ, pos, ltb_ℤ, leb_ℤ, pos_part, ◌+ℤ◌, ◌≤ℤ◌}

-- `attempts.saturating_add(1)` on `i32`
unfoldable pub next_attempt : ℤ → ℤ
next_attempt a = if leb_ℤ (pos 2147483647) a then pos 2147483647 else a +ℤ pos 1

-- `attempt.clamp(1, 8)`
abbrev pub clamped : ℤ → ℕ
clamped attempt =
    if ltb_ℤ attempt (pos 1) then 1 else if ltb_ℤ (pos 8) attempt then 8 else pos_part attempt

-- `backoff(attempt)`, in seconds
unfoldable pub backoff : ℤ → ℕ
backoff attempt = min (2 ^ clamped attempt) 300

power-add-le : (m k : ℕ) → 2 ^ m ≤ 2 ^ (m + k)
power-add-le m zero = let whole : m + 0 ≡ m = omega arith in rw whole (omega arith)
power-add-le m (suc k) =
    let next : m + suc k ≡ suc (m + k) = omega arith in
    let step : 2 ^ suc (m + k) ≡ 2 ^ (m + k) * 2 = pow-suc 2 (m + k) in
    rw next (omega (arith, power-add-le m k))

power-le : (m n : ℕ) → m ≤ n → 2 ^ m ≤ 2 ^ n
power-le m n h =
    let whole : m + (n - m) ≡ n = omega arith in
    subst (λ k. 2 ^ m ≤ 2 ^ k) whole (power-add-le m (n - m))

clamped-bounds : (a : ℤ) → (1 ≤ clamped a) × (clamped a ≤ 8)
clamped-bounds a = ground arith

clamped-monotone : (a b : ℤ) → a ≤ℤ b → clamped a ≤ clamped b
clamped-monotone a b h = ground arith

-- The delay before a retry is at least two and at most 256 seconds, and it does not shrink when
-- there are more attempts.
pub backoff-bounds :
    (a b : ℤ) → a ≤ℤ b → (2 ≤ backoff a) × (backoff a ≤ backoff b) × (backoff b ≤ 256)
unfolding backoff
backoff-bounds a b h =
    let low = power-le 1 (clamped a) (clamped-bounds a).0 in
    let middle = power-le (clamped a) (clamped b) (clamped-monotone a b h) in
    let high = power-le (clamped b) 8 (clamped-bounds b).1 in
    (omega (arith, low), omega (arith, middle), omega (arith, high))
