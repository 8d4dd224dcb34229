-- ===== src/Ds/Index.antt =====
-- The index list of ilink/iolink_ds.c: the loop that reads it out of the device's reply.
use mathlib.Core.Path.{subst}
use normans_fork.Prelude.{
  ℕ, zero, suc, ◌+◌, ◌*◌, ◌<◌, ◌≡◌, refl, sym, ◌∙◌, ◌≢◌, List, [], ◌∷◌, arith, u8, u16, length,
  Bytes, update,
}
use normans_fork.Ds.{IndexEntry, IndexList}
use normans_fork.Ds.Callbacks.{big_endian_16, read_index_list}

-- The entries from a position on begin with a list.
abbrev pub EntriesAt : (ℕ → IndexEntry) → ℕ → List IndexEntry → Type 0
EntriesAt entries p [] = Unit
EntriesAt entries p (e ∷ es) = (entries p ≡ e) × EntriesAt entries (p + 1) es

-- A reply holds a list: three bytes an entry, no index 0, and then an index 0.
abbrev pub EncodesAt : Bytes → ℕ → List IndexEntry → Type 0
EncodesAt b p [] = big_endian_16 b p ≡ 0
EncodesAt b p (e ∷ es) =
    (big_endian_16 b p ≡ e.index)
    × (b (p + 2) ≡ e.subindex)
    × (e.index ≢ 0)
    × EncodesAt b (p + 3) es

-- A reply holds that many entries, and no index 0 among them.
abbrev pub HasEntries : Bytes → ℕ → ℕ → Type 0
HasEntries b p zero = Unit
HasEntries b p (suc n) = (big_endian_16 b p ≢ 0) × HasEntries b (p + 3) n

-- The list with one more entry, as a round of the loop leaves it.
abbrev with_entry : Bytes → ℕ → ℕ → IndexList → IndexList
with_entry b p i il = record il {
  entries = update il.entries i (record { index = big_endian_16 b p; subindex = b (u16 (p + 2)) });
}

read_more :
    (n i p : ℕ) (b : Bytes) (il : IndexList)
    → big_endian_16 b p ≢ 0
    → i + suc n < 256
    → p + 3 * suc n < 65536
    → read_index_list (suc n) i p b il ≡ read_index_list n (i + 1) (p + 3) b (with_entry b p i il)
unfolding read_index_list
read_more n i p b il h fi fp =
    let next : u8 (i + 1) ≡ i + 1 = omega arith in
    let next_p : u16 (p + 3) ≡ p + 3 = omega arith in ground arith

read_below :
    (n i p : ℕ) (b : Bytes) (il : IndexList) (j : ℕ)
    → j < i
    → i + n < 256
    → (read_index_list n i p b il).entries j ≡ il.entries j
unfolding read_index_list
read_below zero i p b il j lt fits = refl
read_below (suc n) i p b il j lt fits = ground (
  arith,
  read_below n (u8 (i + 1)) (u16 (p + 3)) b (with_entry b p i il) j (omega arith) (omega arith),
)

-- A list that ends within the rounds is read whole: its entries in order, and their number.
pub read_index_list_lem :
    (es : List IndexEntry) (n i p : ℕ) (b : Bytes) (il : IndexList)
    → EncodesAt b p es
    → length es < n
    → i + n < 256
    → p + 3 * n < 65536
    → ((read_index_list n i p b il).count ≡ i + length es)
      × EntriesAt (read_index_list n i p b il).entries i es
read_index_list_lem es zero i p b il enc lt fi fp = absurd (omega arith)
read_index_list_lem [] (suc n) i p b il enc lt fi fp = unfold read_index_list in (ground arith, tt)
read_index_list_lem (e ∷ es) (suc n) i p b il enc lt fi fp =
    let below =
      read_below n (i + 1) (p + 3) b (with_entry b p i il) i (omega arith) (omega arith) in
    let (count_of, rest) =
      read_index_list_lem es n (i + 1) (p + 3) b (with_entry b p i il) enc.3 (omega arith)
        (omega arith) (omega arith) in
    let entry_of : (with_entry b p i il).entries i ≡ e =
      let here : u16 (p + 2) ≡ p + 2 = omega arith in ground arith in
    subst (λ (l : IndexList). (l.count ≡ i + length (e ∷ es)) × EntriesAt l.entries i (e ∷ es))
      (sym (read_more n i p b il (ground arith) (omega arith) (omega arith)))
      (omega arith, (below ∙ entry_of, rest))

-- Where the list does not end within the rounds, the old number of entries stays.
pub read_index_list-count_of_full :
    (n i p : ℕ) (b : Bytes) (il : IndexList)
    → HasEntries b p n
    → i + n < 256
    → p + 3 * n < 65536
    → (read_index_list n i p b il).count ≡ il.count
read_index_list-count_of_full zero i p b il h fi fp = unfold read_index_list in refl
read_index_list-count_of_full (suc n) i p b il h fi fp = rw (read_more n i p b il h.0 fi fp) (
    read_index_list-count_of_full n (i + 1) (p + 3) b (with_entry b p i il) h.1 (omega arith)
      (omega arith))

pub read_index_list-pos :
    (n i p : ℕ) (b : Bytes) (il : IndexList) → (read_index_list n i p b il).pos ≡ il.pos
unfolding read_index_list
read_index_list-pos zero i p b il = refl
read_index_list-pos (suc n) i p b il =
    ground (arith, read_index_list-pos n (u8 (i + 1)) (u16 (p + 3)) b (with_entry b p i il))
