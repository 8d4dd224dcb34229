-- ===== src/Dl/Segments.antt =====
-- ilink/iolink_dl.c: in how many messages of `w` bytes an ISDU of `n` bytes goes.
use native.Mathlib.Nat.{le-div_iff_mul-le, div-le_of_le-mul, mul-div-le, lt-mul-div-succ}
use normans_fork.Prelude.{ℕ, ◌+◌, ◌-◌, ◌*◌, ◌/◌, ◌≤◌, ◌<◌, ◌≡◌, arith}

-- What `get_isdu_total_segments` computes, before it is kept in a byte.
abbrev pub segments : (n w : ℕ) → ℕ
segments n w = (n + w - 1) / w

pub segments-pos : (w n : ℕ) → 1 ≤ w → 1 ≤ n → 1 ≤ segments n w
segments-pos w n h k = (le-div_iff_mul-le h).1 (omega arith)

pub segments-le : (w n : ℕ) → 1 ≤ w → n < 256 → segments n w ≤ 255
segments-le w n h k = div-le_of_le-mul w (omega arith)

-- The messages hold the ISDU, and less than one message more.
pub segments-hold : (w n : ℕ) → 1 ≤ w → n ≤ w * segments n w
segments-hold w n h =
    let q = (n + w - 1) / w in
    let more : w * (q + 1) ≡ w * q + w = grind arith in omega (arith, lt-mul-div-succ (n + w - 1) h)

pub segments-tight : (w n : ℕ) → 1 ≤ w → w * segments n w < n + w
segments-tight w n h = omega (arith, mul-div-le (n + w - 1) w)
