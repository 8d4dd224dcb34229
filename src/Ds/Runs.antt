-- ===== src/Ds/Runs.antt =====
-- Sequences of jobs: `handle_all` of a list that is put together.
use normans_fork.Prelude.{
  ◌≡◌, refl, inl, inr, none, some, List, [], ◌∷◌, ◌++◌, append-nil, append_assoc, arith,
  Option-cases,
}
use normans_fork.Types.{Call}
use normans_fork.Ds.{Ds, PortInfo}
use normans_fork.Ds.Callbacks.{Input, handle, handle_all}
use normans_fork.Ds.Fsm.{Run, ◌>>=◌}

pub handle_all-cons :
    (info : PortInfo) (ds d d' : Ds) (i : Input) (inputs : List Input) (c c' : List Call)
    → handle info ds i ≡ some (d, c)
    → handle_all info d inputs ≡ some (d', c')
    → handle_all info ds (i ∷ inputs) ≡ some (d', c ++ c')
unfolding handle_all
handle_all-cons info ds d d' i inputs c c' h k = rw (h, k)

-- Inversion of a bind that ends.
pub >>=-eq-some :
    (m : Run) (f : Ds → Run) (d : Ds) (c : List Call)
    → (m >>= f) ≡ some (d, c)
    → (d₁ : Ds) × (c₁ : List Call) × (c₂ : List Call) × (m ≡ some (d₁, c₁))
      × (f d₁ ≡ some (d, c₂))
      × (c ≡ c₁ ++ c₂)
>>=-eq-some none f d c h = cc
>>=-eq-some (some (d₁, c₁)) f d c h = elim (Option-cases (f d₁)) [
  | inl e ↦ let bad : ◌≡◌ {A = Run} none (some (d, c)) = rw (e, ◌>>=◌) at h in cc
  | inr (o, e) ↦ (d₁, c₁, o.1, refl, ground arith, ground arith)
]

pub handle_all-append :
    (info : PortInfo) (inputs : List Input) (ds d d' : Ds) (later : List Input) (c c' : List Call)
    → handle_all info ds inputs ≡ some (d, c)
    → handle_all info d later ≡ some (d', c')
    → handle_all info ds (inputs ++ later) ≡ some (d', c ++ c')
unfolding handle_all
handle_all-append info [] ds d d' later c c' h k = ground arith
handle_all-append info (i ∷ inputs) ds d d' later c c' h k =
    let (d₁, c₁, c₂, here, rest, sum) = >>=-eq-some (handle info ds i) _ d c h in
    rw (sum, append_assoc c₁ c₂ c')
      (handle_all-cons info ds d₁ d' i (inputs ++ later) c₁ (c₂ ++ c') here
        (handle_all-append info inputs d₁ d d' later c₂ c' rest k))

-- Two jobs one after the other.
pub handle_two :
    (info : PortInfo) (ds d d' : Ds) (i j : Input) (c c' : List Call)
    → handle info ds i ≡ some (d, c)
    → handle info d j ≡ some (d', c')
    → handle_all info ds (i ∷ j ∷ []) ≡ some (d', c ++ c')
unfolding handle_all
handle_two info ds d d' i j c c' h k =
    handle_all-cons info ds d d' i (j ∷ []) c c' h (rw (k, append-nil c'))
