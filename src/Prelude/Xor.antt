-- ===== src/Prelude/Xor.antt =====
-- The exclusive or of native numbers: each number cancels itself.
use Prim.Native.Nat.{ℕ, zero, suc, ◌/◌, ◌%◌, ◌≤◌, bit_xor, digits, differ, bit_xor-bitwise}
use mathlib.Core.Path.{◌≡◌, refl, ◌∙◌}
use mathlib.Core.List.{List, [], ◌∷◌, ◌++◌}
use native.Mathlib.Omega.{arith}

differ_self : (x : ℕ) → differ x x ≡ 0
differ_self zero = refl
differ_self (suc x) = differ_self x

digits_self : (n a : ℕ) → a ≤ n → digits (λ b. b) differ n a a ≡ 0
digits_self zero zero h = refl
digits_self zero (suc a) h = absurd (omega arith)
digits_self (suc n) zero h = refl
digits_self (suc n) (suc a) h =
    omega (arith, digits_self n (suc a / 2) (omega arith), differ_self (suc a % 2))

pub bit_xor_self : (a : ℕ) → bit_xor a a ≡ 0
bit_xor_self a = bit_xor-bitwise a a ∙ digits_self a a (omega arith)

pub zero-bit_xor : (b : ℕ) → bit_xor 0 b ≡ b
zero-bit_xor b = bit_xor-bitwise 0 b

-- The exclusive or of a list, from `acc` on.
abbrev pub xor_from : ℕ → List ℕ → ℕ
xor_from acc [] = acc
xor_from acc (x ∷ xs) = xor_from (bit_xor acc x) xs

pub xor_from-append :
    (acc : ℕ) (xs ys : List ℕ) → xor_from acc (xs ++ ys) ≡ xor_from (xor_from acc xs) ys
xor_from-append acc [] ys = refl
xor_from-append acc (x ∷ xs) ys = xor_from-append (bit_xor acc x) xs ys

-- A list with its own exclusive or at the end has none.
pub xor_from-checked : (acc : ℕ) (xs : List ℕ) → xor_from acc (xs ++ (xor_from acc xs ∷ [])) ≡ 0
xor_from-checked acc xs =
    xor_from-append acc xs (xor_from acc xs ∷ []) ∙ bit_xor_self (xor_from acc xs)
