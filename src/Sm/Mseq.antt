-- ===== src/Sm/Mseq.antt =====
-- ilink/iolink_sm.c: which messages a device and its modes call for, `populate_valuelist`.
use normans_fork.Prelude.{ℕ, ◌+◌, ◌/◌, ◌%◌, Bool, ◌&&◌, ◌||◌, not, ltb, leb, ◌==◌, if◌then◌else◌}
use normans_fork.Sm.{
  MseqType, type_none, type_0, type_1_1, type_1_2, type_1_v, type_2_1, type_2_2, type_2_3, type_2_4,
  type_2_5, type_2_6, type_2_v, ModeList, rev_v11,
}

-- `set_valuelist`, which sets all
abbrev pub set_valuelist : (onreq pdin pdout time : ℕ) → MseqType → ModeList
set_valuelist onreq pdin pdout time mseq = record {
  time = time;
  mseq = mseq;
  pdinputlength = pdin;
  pdoutputlength = pdout;
  onreqdatalengthpermessage = onreq;
}

-- `set_type_0_or_type_1_2`; its assertion is `type_0_or_1_2_fails`.
abbrev pub set_type_0_or_type_1_2 : (operate cycbyte : ℕ) → ModeList
set_type_0_or_type_1_2 operate cycbyte =
    set_valuelist (operate + 1) 0 0 cycbyte (if operate == 0 then type_0 else type_1_2)

-- A length of process data as the device gives it: whether in bytes, and the number.
abbrev pub is_bytes : ℕ → Bool
is_bytes pd = pd / 128 % 2 == 1

abbrev pub pd_number : ℕ → ℕ
pd_number pd = pd % 32

-- The numbers for which `set_type_2_V` sets a length, and that length.
abbrev pub fits_2_v : Bool → ℕ → Bool
fits_2_v isbytes pd = (isbytes && not (pd == 1)) || (not isbytes && ltb pd 17)

abbrev pub length_2_v : Bool → ℕ → ℕ
length_2_v isbytes pd = if isbytes then pd + 1 else (pd + 7) / 8

-- `set_type_2_V`: the time stays as it was.
unfoldable pub set_type_2_v :
    (pdin_isbytes pdout_isbytes : Bool) (pdin pdout onreq : ℕ) → ModeList → ModeList
set_type_2_v pdin_isbytes pdout_isbytes pdin pdout onreq v =
    if not (fits_2_v pdin_isbytes pdin)
    then v
    else if not (fits_2_v pdout_isbytes pdout)
    then record v { pdinputlength = length_2_v pdin_isbytes pdin }
    else record v {
      pdinputlength = length_2_v pdin_isbytes pdin;
      pdoutputlength = length_2_v pdout_isbytes pdout;
      onreqdatalengthpermessage = onreq;
      mseq = type_2_v;
    }

-- Whether a number lies within bounds.
abbrev pub between : (low high n : ℕ) → Bool
between low high n = leb low n && leb n high

-- The PREOPERATE mode.
unfoldable pub preoperate_list : (mscapa cycbyte : ℕ) → ModeList
preoperate_list mscapa cycbyte =
    let preop_m = mscapa / 16 % 4 in
    if ltb preop_m 2
    then set_type_0_or_type_1_2 preop_m cycbyte
    else set_valuelist (if preop_m == 2 then 8 else 32) 0 0 cycbyte type_1_v

-- The OPERATE mode of a device with process data whose revision is not 1.1.
unfoldable pub legacy_list :
    (pdin_isbytes pdout_isbytes : Bool) (pdin pdout cycbyte : ℕ) → ModeList → ModeList
legacy_list pdin_isbytes pdout_isbytes pdin pdout cycbyte v =
    if (pdin_isbytes || pdout_isbytes) && (leb 3 pdin || leb 3 pdout)
    then set_valuelist 2 0 0 cycbyte type_1_1
    else if pdout == 0
    then (if between 1 8 pdin
        then set_valuelist 1 1 0 cycbyte type_2_1
        else if between 9 16 pdin
        then set_valuelist 1 2 0 cycbyte type_2_2
        else v)
    else if pdin == 0
    then (if between 1 8 pdout
        then set_valuelist 1 0 1 cycbyte type_2_3
        else if between 9 16 pdout
        then set_valuelist 1 0 2 cycbyte type_2_4
        else v)
    else if between 1 8 pdin && between 1 8 pdout
    then set_valuelist 1 1 1 cycbyte type_2_5
    else if pdin == 16 && pdout == 16
    then set_valuelist 1 2 2 cycbyte type_2_6
    else v

-- Code 0 of the OPERATE mode, with process data in bits.
unfoldable pub code_0_bits : (pdin pdout cycbyte : ℕ) → ModeList → ModeList
code_0_bits pdin pdout cycbyte v =
    if pdout == 0
    then (if between 1 8 pdin
        then set_valuelist 1 1 0 cycbyte type_2_1
        else if between 9 16 pdin
        then set_valuelist 1 2 0 cycbyte type_2_2
        else v)
    else if pdin == 0
    then (if between 1 8 pdout
        then set_valuelist 1 0 1 cycbyte type_2_3
        else if between 9 16 pdout
        then set_valuelist 1 0 2 cycbyte type_2_4
        else v)
    else if between 1 8 pdin && between 1 8 pdout
    then set_valuelist 1 1 1 cycbyte type_2_5
    else if (between 9 16 pdin && between 1 16 pdout) || (between 1 16 pdin && between 9 16 pdout)
    then set_valuelist 1 (if leb 9 pdin then 2 else 1) (if leb 9 pdout then 2 else 1) cycbyte
        type_2_v
    else v

-- Code 0 of the OPERATE mode.
unfoldable pub code_0_list :
    (pdin_isbytes pdout_isbytes : Bool) (pdin pdout cycbyte : ℕ) → ModeList → ModeList
unfolding code_0_bits
code_0_list pdin_isbytes pdout_isbytes pdin pdout cycbyte v =
    if pdin == 0 && pdout == 0
    then set_valuelist 1 0 0 cycbyte type_0
    else if not pdin_isbytes && not pdout_isbytes
    then code_0_bits pdin pdout cycbyte v
    else set_valuelist 2 0 0 cycbyte type_1_1

-- Code 4 of the OPERATE mode.
unfoldable pub code_4_list :
    (pdin_isbytes pdout_isbytes : Bool) (pdin pdout cycbyte : ℕ) → ModeList → ModeList
unfolding set_type_2_v
code_4_list pdin_isbytes pdout_isbytes pdin pdout cycbyte v =
    if pdin_isbytes && pdout_isbytes
    then (if leb 3 pdout || leb 3 pdin
        then set_valuelist 1 (pdin + 1) (pdout + 1) cycbyte type_2_v
        else v)
    else set_type_2_v pdin_isbytes pdout_isbytes pdin pdout 1 v

-- `1 << ((2 * oper_m) - 9)` for the codes 5, 6 and 7
abbrev pub onreq_of : ℕ → ℕ
onreq_of oper_m = if oper_m == 5 then 2 else if oper_m == 6 then 8 else 32

-- Codes 5, 6 and 7 of the OPERATE mode.
unfoldable pub code_5_list :
    (oper_m : ℕ) (pdin_isbytes pdout_isbytes : Bool) (pdin pdout cycbyte : ℕ) → ModeList → ModeList
unfolding set_type_2_v
code_5_list oper_m pdin_isbytes pdout_isbytes pdin pdout cycbyte v =
    if ltb 0 pdin || ltb 0 pdout
    then set_type_2_v pdin_isbytes pdout_isbytes pdin pdout (onreq_of oper_m) v
    else if not (oper_m == 5)
    then set_valuelist (onreq_of oper_m) 0 0 cycbyte type_1_v
    else v

-- The `switch` over the code of the OPERATE mode, for revision 1.1.
unfoldable pub operate_list :
    (oper_m : ℕ) (pdin_isbytes pdout_isbytes : Bool) (pdin pdout cycbyte : ℕ) → ModeList → ModeList
unfolding code_0_list code_4_list code_5_list
operate_list oper_m pdin_isbytes pdout_isbytes pdin pdout cycbyte v =
    if oper_m == 0
    then code_0_list pdin_isbytes pdout_isbytes pdin pdout cycbyte v
    else if oper_m == 1
    then (if pdin == 0 && pdout == 0 then set_valuelist 2 0 0 cycbyte type_1_2 else v)
    else if oper_m == 4
    then code_4_list pdin_isbytes pdout_isbytes pdin pdout cycbyte v
    else if leb 5 oper_m
    then code_5_list oper_m pdin_isbytes pdout_isbytes pdin pdout cycbyte v
    else v

-- `populate_valuelist`, which returns an error where the type is TYPE_NONE.
unfoldable pub populate_valuelist :
    (mscapa revid pdin pdout cycbyte : ℕ) (operate : Bool) → ModeList → ModeList
unfolding preoperate_list legacy_list operate_list
populate_valuelist mscapa revid pdin pdout cycbyte operate v =
    let none_yet = record v { mseq = type_none } in
    let oper_m = mscapa / 2 % 8 in
    if not operate
    then preoperate_list mscapa cycbyte
    else if not (revid == rev_v11)
    then (if pd_number pdin == 0 && pd_number pdout == 0
        then set_type_0_or_type_1_2 oper_m cycbyte
        else legacy_list (is_bytes pdin) (is_bytes pdout) (pd_number pdin) (pd_number pdout) cycbyte
            none_yet)
    else operate_list oper_m (is_bytes pdin) (is_bytes pdout) (pd_number pdin) (pd_number pdout)
        cycbyte none_yet

-- The assertion of `set_type_0_or_type_1_2` does not hold: a device whose revision is not 1.1, without
-- process data, gives a code of the OPERATE mode that is more than 1.
abbrev pub type_0_or_1_2_fails : (mscapa revid pdin pdout : ℕ) (operate : Bool) → Bool
type_0_or_1_2_fails mscapa revid pdin pdout operate =
    operate
    && not (revid == rev_v11)
    && (pd_number pdin == 0 && pd_number pdout == 0)
    && ltb 1 (mscapa / 2 % 8)
