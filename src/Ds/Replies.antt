-- ===== src/Ds/Replies.antt =====
-- The upload of ilink/iolink_ds.c, from the first parameter read to the last: a device that answers
-- each read has its parameters in the data set.
use normans_fork.Prelude.{
  ◌+◌, ◌≤◌, ◌<◌, ◌≡◌, refl, ap, ◌∙◌, Bool, false, ◌&&◌, some, List, [], ◌∷◌, ◌++◌, map, append-nil,
  append_assoc, arith, ◌==◌, u8, length, length-append, All, bytes_at,
}
use normans_fork.Types.{Call, al_read, ReadCnf}
use normans_fork.Ds.{
  read_parameter, store_data_set, ev_read_done, IndexEntry, Ds, PortInfo, max_size, param_index,
  subindex_checksum, subindex_index_list,
}
use normans_fork.Ds.Fsm.{iolink_ds_event}
use normans_fork.Ds.Callbacks.{
  store_param, take_param, read_cnf_in, ds_read_cnf_cb, Input, read_cnf, handle, handle_all,
}
use normans_fork.Ds.Codec.{Param, encode_param, encode, encode-append}
use normans_fork.Ds.Events.{read_next, close_data_set, event-read_done_more, event-read_done_end}
use normans_fork.Ds.Index.{EntriesAt}
use normans_fork.Ds.Runs.{handle_all-cons}
use normans_fork.Ds.Upload.{reply_param, store_param-append, length-encode_param}

-- An entry of the index list, and what the device replies to the read of it.
pub record Answer : Type 0 where
  pub entry : IndexEntry
  pub reply : ReadCnf

abbrev pub answer_param : Answer → Param
answer_param a = reply_param a.entry.index a.entry.subindex a.reply

abbrev pub answer_entry : Answer → IndexEntry
answer_entry a = a.entry

abbrev pub answer_read : Answer → Call
answer_read a = al_read a.entry.index a.entry.subindex

abbrev pub answer_job : Answer → Input
answer_job a = read_cnf a.reply

abbrev pub is_index_list : IndexEntry → Bool
is_index_list e = e.index == param_index && e.subindex == subindex_index_list

-- The reply is no error, and the entry is not the index list itself.
pub record IsAnswer (a : Answer) : Type 0 where
  pub no_error : a.reply.errortype ≡ 0
  pub no_list : is_index_list a.entry ≡ false

-- The parameters of `stored` are in the data set, `a` is being read and `todo` is left.
pub record IsReading (ds : Ds) (stored : List Param) (a : Answer) (todo : List Answer)
    : Type 0 where
  pub in_state : ds.state ≡ read_parameter
  pub index_of : ds.current_index ≡ a.entry.index
  pub subindex_of : ds.current_subindex ≡ a.entry.subindex
  pub bytes_of : bytes_at ds.master_ds.bytes 0 ds.master_ds.pos ≡ encode stored
  pub list_of : EntriesAt ds.index_list.entries ds.index_list.pos (map answer_entry todo)
  pub count_of : ds.index_list.count ≡ ds.index_list.pos + length todo
  pub count_fits : ds.index_list.count < 256

-- What an upload leaves alone.
pub record SameSetup (d ds : Ds) : Type 0 where
  pub enable_of : d.ds_enable ≡ ds.ds_enable
  pub download_of : d.ds_download ≡ ds.ds_download
  pub vendorid_of : d.pending_vendorid ≡ ds.pending_vendorid
  pub deviceid_of : d.pending_deviceid ≡ ds.pending_deviceid
  pub size_max_of : d.master_ds.size_max ≡ ds.master_ds.size_max

-- All of `stored` is the data set, and its checksum is being read.
pub record IsClosed (d : Ds) (stored : List Param) : Type 0 where
  pub in_state : d.state ≡ store_data_set
  pub bytes_of : bytes_at d.master_ds.bytes 0 d.master_ds.size ≡ encode stored

-- `store_param` changes nothing but the data set.
record Stores (d ds : Ds) : Type 0 where
  in_state : d.state ≡ ds.state
  list_of : d.index_list ≡ ds.index_list
  setup_of : SameSetup d ds

store_param-Stores : (r : ReadCnf) (ds : Ds) → Stores (store_param r ds) ds
unfolding store_param
store_param-Stores r ds = ground arith

module _ (info : PortInfo) where
  read_cnf_stores :
      (ds : Ds) (a : Answer)
      → ds.state ≡ read_parameter
      → ds.current_index ≡ a.entry.index
      → ds.current_subindex ≡ a.entry.subindex
      → IsAnswer a
      → handle info ds (answer_job a) ≡ iolink_ds_event info (store_param a.reply ds) ev_read_done
  unfolding handle ds_read_cnf_cb read_cnf_in take_param
  read_cnf_stores ds a h hi hs ok = ground arith

  -- The reply extends the data set by the parameter.
  reply_stored :
      (ds : Ds) (stored : List Param) (a : Answer) (todo : List Answer)
      → IsReading ds stored a todo
      → ds.master_ds.pos + length (encode_param (answer_param a)) ≤ max_size
      → let m = (store_param a.reply ds).master_ds in
        (m.pos ≡ ds.master_ds.pos + length (encode_param (answer_param a)))
        × (bytes_at m.bytes 0 m.pos ≡ encode (stored ++ (answer_param a ∷ [])))
  reply_stored ds stored a todo w fits =
      let same : reply_param ds.current_index ds.current_subindex a.reply ≡ answer_param a = cc in
      let room : ds.master_ds.pos + 4 + a.reply.data_len ≤ max_size =
        omega (arith, length-encode_param a.entry.index a.entry.subindex a.reply) in
      let (pos_of, bytes_of) = store_param-append a.reply ds room in
      (
        rw same at pos_of,
        rw same at bytes_of
            ∙ rw (w.bytes_of, encode-append stored (answer_param a ∷ []), append-nil),
      )

  -- The last reply closes the data set.
  reply_end :
      (ds : Ds) (stored : List Param) (a : Answer)
      → IsReading ds stored a []
      → IsAnswer a
      → ds.master_ds.pos + length (encode_param (answer_param a)) ≤ max_size
      → (d : Ds) × (handle info ds (answer_job a)
          ≡ some (d, al_read param_index subindex_checksum ∷ []))
        × IsClosed d (stored ++ (answer_param a ∷ []))
        × SameSetup d ds
  reply_end ds stored a w ok fits =
      let s = store_param-Stores a.reply ds in
      (
        close_data_set (store_param a.reply ds),
        read_cnf_stores ds a w.in_state w.index_of w.subindex_of ok
            ∙ event-read_done_end info (store_param a.reply ds) (cc) (ground arith),
        record { in_state = refl; bytes_of = (reply_stored ds stored a [] w fits).1 },
        ground arith,
      )

  -- Another reply brings the read of the next entry.
  reply_more :
      (ds : Ds) (stored : List Param) (a b : Answer) (todo : List Answer)
      → IsReading ds stored a (b ∷ todo)
      → IsAnswer a
      → ds.master_ds.pos + length (encode_param (answer_param a)) ≤ max_size
      → (d : Ds) × (handle info ds (answer_job a) ≡ some (d, answer_read b ∷ []))
        × IsReading d (stored ++ (answer_param a ∷ [])) b todo
        × SameSetup d ds
        × (d.master_ds.pos ≡ ds.master_ds.pos + length (encode_param (answer_param a)))
  reply_more ds stored a b todo w ok fits =
      let s = store_param-Stores a.reply ds in
      let (pos_of, bytes_of) = reply_stored ds stored a (b ∷ todo) w fits in
      let il = (store_param a.reply ds).index_list in
      let entry_of : il.entries il.pos ≡ b.entry = cc in
      let pos_next : u8 (ds.index_list.pos + 1) ≡ ds.index_list.pos + 1 = omega arith in
      (
        read_next (store_param a.reply ds),
        read_cnf_stores ds a w.in_state w.index_of w.subindex_of ok
            ∙ event-read_done_more info (store_param a.reply ds) (cc) (ground arith)
            ∙ ap
                (λ (e : IndexEntry).
                  some (read_next (store_param a.reply ds), al_read e.index e.subindex ∷ []))
                entry_of,
        record {
          in_state = refl;
          index_of = ap (λ (e : IndexEntry). e.index) entry_of;
          subindex_of = ap (λ (e : IndexEntry). e.subindex) entry_of;
          bytes_of = bytes_of;
          list_of = rw (s.list_of, pos_next) w.list_of.1;
          count_of = ground arith;
          count_fits = ground arith;
        },
        ground arith,
        pos_of,
      )

  -- A device that answers every read without an error, with parameters that fit the data set, has
  -- them all stored, in the order of the index list; the master reads each entry once and then the
  -- checksum.
  pub replies_stored :
      (todo : List Answer) (ds : Ds) (stored : List Param) (a : Answer)
      → IsReading ds stored a todo
      → IsAnswer a
      → All IsAnswer todo
      → ds.master_ds.pos + length (encode (map answer_param (a ∷ todo))) ≤ max_size
      → (d : Ds) × (handle_all info ds (map answer_job (a ∷ todo))
          ≡ some (d, map answer_read todo ++ (al_read param_index subindex_checksum ∷ [])))
        × IsClosed d (stored ++ map answer_param (a ∷ todo))
        × SameSetup d ds
  unfolding handle_all
  replies_stored [] ds stored a w ok oks fits =
      let (d, run, closed, setup) = reply_end ds stored a w ok (rw append-nil at fits) in
      (d, handle_all-cons info ds d d (answer_job a) [] _ [] run refl, closed, setup)
  replies_stored (b ∷ todo) ds stored a w ok oks fits =
      let split =
        length-append (encode_param (answer_param a)) (encode (map answer_param (b ∷ todo))) in
      let (d, run, reading, setup, pos_of) =
        reply_more ds stored a b todo w ok (omega (arith, split)) in
      let (d', rest, closed, setup') =
        replies_stored todo d (stored ++ (answer_param a ∷ [])) b reading oks.0 oks.1
          (omega (arith, split, pos_of)) in
      (
        d',
        handle_all-cons info ds d d' (answer_job a) (map answer_job (b ∷ todo)) _ _ run rest,
        rw (← append_assoc stored (answer_param a ∷ []) (map answer_param (b ∷ todo))) closed,
        ground arith,
      )
