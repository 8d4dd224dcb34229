-- ===== src/Prelude/Memory.antt =====
-- A C array of bytes as a function from the index, with what the code does to one: a store, a
-- `memcpy` into it, and the bytes that a pointer and a length show. No index is refused here: that
-- the code stays inside an array is a theorem about the code.
pub mod Laws
use Prim.Native.Nat.{ℕ, zero, suc, ◌+◌}
use mathlib.Core.List.{List, [], ◌∷◌}
use normans_fork.Prelude.Tests.{◌==◌, if◌then◌else◌}

abbrev pub Bytes : Type 0
Bytes = ℕ → ℕ

-- `m[a] = v`
abbrev pub update {ℓ} : {A : Type ℓ} → (ℕ → A) → ℕ → A → ℕ → A
update m a v b = if b == a then v else m b

-- `memcpy (&m[a], src, length src)`
unfoldable pub memcpy : Bytes → ℕ → List ℕ → Bytes
memcpy m a [] = m
memcpy m a (x ∷ xs) = memcpy (update m a x) (a + 1) xs

-- The `n` bytes from `&m[a]` on.
unfoldable pub bytes_at : Bytes → ℕ → ℕ → List ℕ
bytes_at m a zero = []
bytes_at m a (suc n) = m a ∷ bytes_at m (a + 1) n

-- What `memset (…, 0, n)` writes.
unfoldable pub zeros : ℕ → List ℕ
zeros zero = []
zeros (suc n) = 0 ∷ zeros n
