-- ===== src/Ds/Decode.antt =====
-- `ds_write_param` of ilink/iolink_ds.c reads back what the upload stored.
use normans_fork.Prelude.{
  ◌+◌, ◌*◌, ◌/◌, ◌≤◌, ◌≡◌, sym, ◌∙◌, List, [], ◌∷◌, ◌++◌, arith, u8, u16, length, length-append,
  append_inj, bytes_at,
}
use normans_fork.Types.{Call, al_write}
use normans_fork.Ds.{ev_none, MasterDs, Ds, max_size, param_index}
use normans_fork.Ds.Callbacks.{param_header}
use normans_fork.Ds.Codec.{Param, encode, IsParam}
use normans_fork.Prelude.Memory.Laws.{bytes_at-add, length-bytes_at}
use normans_fork.Ds.Actions.{ds_write_param}

-- What is left of the data set, from its position on, encodes these parameters.
pub record Encodes (m : MasterDs) (ps : List Param) : Type 0 where
  pub left_of : bytes_at m.bytes m.pos (length (encode ps)) ≡ encode ps
  pub end_of : m.pos + length (encode ps) ≡ m.size
  pub fits : m.size ≤ max_size

abbrev pub param_write : Param → Call
param_write p = al_write p.index p.subindex p.bytes

abbrev advance : MasterDs → Param → MasterDs
advance m p = record m { pos = m.pos + (4 + length p.bytes) }

-- The four bytes before a parameter's own.
header_of :
    (m : MasterDs) (p : Param) (ps : List Param)
    → Encodes m (p ∷ ps)
    → (m.bytes m.pos ≡ u8 (p.index / 256))
      × (m.bytes (m.pos + 1) ≡ u8 p.index)
      × (m.bytes (m.pos + 2) ≡ p.subindex)
      × (m.bytes (m.pos + 3) ≡ u8 (length p.bytes))
      × (bytes_at m.bytes (m.pos + 4) (length (p.bytes ++ encode ps)) ≡ p.bytes ++ encode ps)
unfolding bytes_at param_header
header_of m p ps w =
    let e = w.left_of in
    let e1 : m.pos + 1 + 1 ≡ m.pos + 2 = omega arith in
    let e2 : m.pos + 1 + 1 + 1 ≡ m.pos + 3 = omega arith in
    let e3 : m.pos + 1 + 1 + 1 + 1 ≡ m.pos + 4 = omega arith in (cc, cc, cc, cc, cc)

-- The parameter's own bytes, and what follows them.
body_of :
    (m : MasterDs) (p : Param) (ps : List Param)
    → Encodes m (p ∷ ps)
    → (bytes_at m.bytes (m.pos + 4) (length p.bytes) ≡ p.bytes)
      × (bytes_at m.bytes (m.pos + 4 + length p.bytes) (length (encode ps)) ≡ encode ps)
body_of m p ps w =
    let n = length p.bytes in
    append_inj (bytes_at m.bytes (m.pos + 4) n) p.bytes _ _ (length-bytes_at n m.bytes (m.pos + 4))
      (sym (bytes_at-add n (length (encode ps)) m.bytes (m.pos + 4))
        ∙ (rw (length-append p.bytes (encode ps)) at ((header_of m p ps w).4)))

-- `ds_write_param` sends the first parameter that is left, whole, and goes on to the next.
pub ds_write_param_lem :
    (ds : Ds) (p : Param) (ps : List Param)
    → Encodes ds.master_ds (p ∷ ps)
    → IsParam p
    → (ds_write_param ds ≡ (
      record ds {
        master_ds = advance ds.master_ds p;
        current_index = param_index;
        current_subindex = p.subindex;
      },
      param_write p ∷ [],
      ev_none,
    ))
      × Encodes (advance ds.master_ds p) ps
unfolding ds_write_param param_header
ds_write_param_lem ds p ps w fits =
    let (hi, lo, sub, len, _) = header_of ds.master_ds p ps w in
    let (body, rest) = body_of ds.master_ds p ps w in
    let split = length-append p.bytes (encode ps) in
    let room : ds.master_ds.pos + 4 + length p.bytes ≤ max_size =
      omega (arith, w.end_of, w.fits, split) in
    let at₁ : u16 (ds.master_ds.pos + 1) ≡ ds.master_ds.pos + 1 = omega arith in
    let at₂ : u16 (ds.master_ds.pos + 2) ≡ ds.master_ds.pos + 2 = omega arith in
    let at₃ : u16 (ds.master_ds.pos + 3) ≡ ds.master_ds.pos + 3 = omega arith in
    let at₄ : u16 (ds.master_ds.pos + 4) ≡ ds.master_ds.pos + 4 = omega arith in
    let len_of : u8 (length p.bytes) ≡ length p.bytes = omega (arith, fits.length_fits) in
    let index_of : u16 (u16 (u8 (p.index / 256) * 256) + u8 p.index) ≡ p.index =
      omega (arith, fits.index_fits) in
    let next : ds.master_ds.pos + (4 + length p.bytes) ≡ ds.master_ds.pos + 4 + length p.bytes =
      omega arith in
    (
      ground arith,
      record { left_of = rw next rest; end_of = omega (arith, w.end_of, split); fits = w.fits },
    )
