-- ===== src/Ds/Codec.antt =====
-- How the data set of ilink/iolink_ds.c lays parameters out: each as `param_header` and its bytes.
use normans_fork.Prelude.{ℕ, ◌<◌, ◌≡◌, refl, List, [], ◌∷◌, ◌++◌, append_assoc, length}
use normans_fork.Ds.Callbacks.{param_header}

-- A parameter of a device, as a backup holds it.
pub record Param : Type 0 where
  pub index : ℕ
  pub subindex : ℕ
  pub bytes : List ℕ

abbrev pub encode_param : Param → List ℕ
unfolding param_header
encode_param p = param_header p.index p.subindex (length p.bytes) ++ p.bytes

abbrev pub encode : List Param → List ℕ
encode [] = []
encode (p ∷ ps) = encode_param p ++ encode ps

pub encode-append : (ps qs : List Param) → encode (ps ++ qs) ≡ encode ps ++ encode qs
encode-append [] qs = refl
encode-append (p ∷ ps) qs = simp (encode-append ps qs, append_assoc)

-- The fields fit the widths that the code gives them.
pub record IsParam (p : Param) : Type 0 where
  pub index_fits : p.index < 65536
  pub subindex_fits : p.subindex < 256
  pub length_fits : length p.bytes < 256
