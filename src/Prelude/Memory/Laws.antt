-- ===== src/Prelude/Memory/Laws.antt =====
-- What a `memcpy` changes, and what the bytes at a pointer are after it.
use Prim.Native.Nat.{ℕ, zero, suc, ◌+◌, ◌≤◌, ◌<◌}
use mathlib.Core.Path.{sym, ◌≡◌, refl, ap, ap₂, ◌∙◌}
use mathlib.Core.Logic.{◌≢◌}
use mathlib.Core.List.{List, [], ◌∷◌, ◌++◌}
use native.Mathlib.Nat.{add-zero, zero-add, suc-add}
use native.Mathlib.Omega.{arith}
use normans_fork.Prelude.Tests.{==_refl}
use normans_fork.Prelude.Lists.{length}
use normans_fork.Prelude.Memory.{Bytes, update, memcpy, bytes_at}

pub update_self {ℓ} : {A : Type ℓ} (m : ℕ → A) (a : ℕ) (v : A) → update m a v a ≡ v
update_self m a v = rw (==_refl a)

pub update_ne {ℓ} : {A : Type ℓ} (m : ℕ → A) (a b : ℕ) (v : A) → a ≢ b → update m a v b ≡ m b
update_ne m a b v h = ground arith

pub memcpy_below : (xs : List ℕ) (m : Bytes) (a b : ℕ) → b < a → memcpy m a xs b ≡ m b
unfolding memcpy
memcpy_below [] m a b h = refl
memcpy_below (x ∷ xs) m a b h =
    memcpy_below xs (update m a x) (a + 1) b (omega arith) ∙ update_ne m a b x (omega arith)

pub memcpy_above : (xs : List ℕ) (m : Bytes) (a b : ℕ) → a + length xs ≤ b → memcpy m a xs b ≡ m b
unfolding memcpy
memcpy_above [] m a b h = refl
memcpy_above (x ∷ xs) m a b h =
    memcpy_above xs (update m a x) (a + 1) b (omega arith) ∙ update_ne m a b x (omega arith)

pub bytes_at_ext :
    (n : ℕ) (m m' : Bytes) (a : ℕ)
    → ((b : ℕ) → a ≤ b → b < a + n → m b ≡ m' b)
    → bytes_at m a n ≡ bytes_at m' a n
unfolding bytes_at
bytes_at_ext zero m m' a h = refl
bytes_at_ext (suc n) m m' a h =
    ap₂ ◌∷◌ (h a (omega arith) (omega arith))
      (bytes_at_ext n m m' (a + 1) (λ b p q. h b (omega arith) (omega arith)))

pub bytes_at-memcpy :
    (xs : List ℕ) (m : Bytes) (a : ℕ) → bytes_at (memcpy m a xs) a (length xs) ≡ xs
unfolding memcpy bytes_at
bytes_at-memcpy [] m a = refl
bytes_at-memcpy (x ∷ xs) m a =
    ap₂ ◌∷◌ (memcpy_below xs (update m a x) (a + 1) a (omega arith) ∙ update_self m a x)
      (bytes_at-memcpy xs (update m a x) (a + 1))

pub bytes_at-add :
    (n k : ℕ) (m : Bytes) (a : ℕ) → bytes_at m a (n + k) ≡ bytes_at m a n ++ bytes_at m (a + n) k
unfolding bytes_at
bytes_at-add zero k m a = rw (add-zero, zero-add)
bytes_at-add (suc n) k m a =
    rw (suc-add, bytes_at-add n k m (a + 1))
      (ap (λ b. m a ∷ (bytes_at m (a + 1) n ++ bytes_at m b k)) (omega arith))

pub length-bytes_at : (n : ℕ) (m : Bytes) (a : ℕ) → length (bytes_at m a n) ≡ n
unfolding bytes_at
length-bytes_at zero m a = refl
length-bytes_at (suc n) m a = ap suc (length-bytes_at n m (a + 1))

-- A `memcpy` of `n` bytes after a prefix extends the prefix.
pub bytes_at-memcpy_append :
    (m : Bytes) (p n : ℕ) (xs : List ℕ)
    → n ≡ length xs
    → bytes_at (memcpy m p xs) 0 (p + n) ≡ bytes_at m 0 p ++ xs
bytes_at-memcpy_append m p n xs h =
    bytes_at-add p n (memcpy m p xs) 0
    ∙ ap₂ ◌++◌ (bytes_at_ext p _ m 0 (λ b _ lt. memcpy_below xs m p b (omega arith)))
        (rw (h, zero-add) (bytes_at-memcpy xs m p))

-- A byte of what a `memcpy` has stored.
pub memcpy_inside :
    (n : ℕ) (m src : Bytes) (a s i : ℕ)
    → i < n
    → memcpy m a (bytes_at src s n) (a + i) ≡ src (s + i)
unfolding memcpy bytes_at
memcpy_inside zero m src a s i lt = absurd (omega arith)
memcpy_inside (suc n) m src a s zero lt =
    let here : a + 0 ≡ a = omega arith in
    let there : s + 0 ≡ s = omega arith in
    rw (here, there)
      (memcpy_below (bytes_at src (s + 1) n) (update m a (src s)) (a + 1) a (omega arith)
        ∙ update_self m a (src s))
memcpy_inside (suc n) m src a s (suc i) lt =
    let here : a + suc i ≡ a + 1 + i = omega arith in
    let there : s + suc i ≡ s + 1 + i = omega arith in
    rw (here, there) (memcpy_inside n (update m a (src s)) src (a + 1) (s + 1) i (omega arith))

-- Bytes of one store that stand in another, step_on on.
pub bytes_at-shift :
    (n : ℕ) (p m : Bytes) (a b c : ℕ)
    → b ≡ c + a
    → ((i : ℕ) → a ≤ i → i < a + n → p i ≡ m (c + i))
    → bytes_at p a n ≡ bytes_at m b n
unfolding bytes_at
bytes_at-shift zero p m a b c place h = refl
bytes_at-shift (suc n) p m a b c place h =
    ap₂ ◌∷◌ (h a (omega arith) (omega arith) ∙ ap m (sym place)) (
      bytes_at-shift n p m (a + 1) (b + 1) c (omega arith)
        (λ i le lt. h i (omega arith) (omega arith)))
