-- ===== src/Sm/Lengths.antt =====
-- ilink/iolink_sm.c: the lengths of process data that `populate_valuelist` gives.
use normans_fork.Prelude.{
  ℕ, ◌+◌, ◌/◌, ◌%◌, ◌≤◌, ◌<◌, ◌≡◌, Bool, true, false, ◌&&◌, not, arith, ◌==◌, if◌then◌else◌,
}
use normans_fork.Sm.{
  dlmode_operate, MseqType, type_none, type_0, type_2_1, type_2_2, type_2_3, type_2_4, type_2_5,
  type_2_v, ModeList, Sm, rev_v11,
}
use normans_fork.Sm.Mseq.{
  set_valuelist, is_bytes, pd_number, set_type_2_v, code_0_bits, code_0_list, onreq_of, code_5_list,
  operate_list, populate_valuelist,
}
use normans_fork.Sm.Actions.{mode_list_of}

-- The octets that a number of bits needs.
abbrev pub octets_of : ℕ → ℕ
octets_of bits = (bits + 7) / 8

-- The type of a message with one octet of on-request data, by the octets of process data.
abbrev pub type_of_octets : (input output : ℕ) → MseqType
type_of_octets input output =
    if input == 0 && output == 0
    then type_0
    else if input == 1 && output == 0
    then type_2_1
    else if input == 2 && output == 0
    then type_2_2
    else if input == 0 && output == 1
    then type_2_3
    else if input == 0 && output == 2
    then type_2_4
    else if input == 1 && output == 1
    then type_2_5
    else type_2_v

abbrev pub interleaved_list : (input output cycbyte : ℕ) → ModeList
interleaved_list input output cycbyte =
    set_valuelist 1 input output cycbyte (type_of_octets input output)

code_0-octets :
    (pdin pdout cycbyte : ℕ) (v : ModeList)
    → pdin ≤ 16
    → pdout ≤ 16
    → code_0_list false false pdin pdout cycbyte v
      ≡ interleaved_list (octets_of pdin) (octets_of pdout) cycbyte
unfolding code_0_list code_0_bits
code_0-octets pdin pdout cycbyte v h h' = ground arith

-- For the code 0 of a device of revision 1.1 with at most 16 bits of process data in each direction,
-- the list has their lengths in octets, the type that the octets determine and the cycle time.
pub populate-octets :
    (mscapa pdin pdout cycbyte : ℕ) (v : ModeList)
    → mscapa / 2 % 8 ≡ 0
    → is_bytes pdin ≡ false
    → is_bytes pdout ≡ false
    → pd_number pdin ≤ 16
    → pd_number pdout ≤ 16
    → populate_valuelist mscapa rev_v11 pdin pdout cycbyte true v
      ≡ interleaved_list (octets_of (pd_number pdin)) (octets_of (pd_number pdout)) cycbyte
unfolding populate_valuelist operate_list
populate-octets mscapa pdin pdout cycbyte v h h₁ h₂ h₃ h₄ =
    let v' = record v { mseq = type_none } in
    let same = code_0-octets (pd_number pdin) (pd_number pdout) cycbyte v' h₃ h₄ in ground arith

set_type_2_v-time :
    (b b' : Bool) (pdin pdout onreq : ℕ) (v : ModeList)
    → (set_type_2_v b b' pdin pdout onreq v).time ≡ v.time
unfolding set_type_2_v
set_type_2_v-time b b' pdin pdout onreq v = ground arith

code_5_list-time :
    (oper_m : ℕ) (b b' : Bool) (pdin pdout cycbyte : ℕ) (v : ModeList)
    → 0 < pdin + pdout
    → (code_5_list oper_m b b' pdin pdout cycbyte v).time ≡ v.time
unfolding code_5_list
code_5_list-time oper_m b b' pdin pdout cycbyte v h =
    let same = set_type_2_v-time b b' pdin pdout (onreq_of oper_m) v in ground arith

operate_list-code_5 :
    (oper_m : ℕ) (b b' : Bool) (pdin pdout cycbyte : ℕ) (v : ModeList)
    → 5 ≤ oper_m
    → operate_list oper_m b b' pdin pdout cycbyte v ≡ code_5_list oper_m b b' pdin pdout cycbyte v
unfolding operate_list
operate_list-code_5 oper_m b b' pdin pdout cycbyte v h = ground arith

v11_list :
    (revid : ℕ) (x y : ModeList) → revid ≡ rev_v11 → (if not (revid == rev_v11) then x else y) ≡ y
v11_list revid x y h = ground arith

-- For the codes from 5 on of a device of revision 1.1 with process data, the list for OPERATE has 0 for
-- the cycle time, whatever the cycle time is.
pub mode_list-no_time :
    (sm : Sm)
    → sm.real_paramlist.revisionid ≡ rev_v11
    → 5 ≤ sm.dev_com.mseq_cap / 2 % 8
    → 0 < pd_number sm.dev_com.pdi + pd_number sm.dev_com.pdo
    → (mode_list_of dlmode_operate sm).time ≡ 0
unfolding populate_valuelist
mode_list-no_time sm h h' h'' =
    let code = sm.dev_com.mseq_cap / 2 % 8 in
    let pdin = sm.dev_com.pdi in
    let pdout = sm.dev_com.pdo in
    let v = record (set_valuelist 1 0 0 0 type_0) { mseq = type_none } in
    let same =
      operate_list-code_5 code (is_bytes pdin) (is_bytes pdout) (pd_number pdin) (pd_number pdout)
        sm.real_paramlist.cycletime v h' in
    let kept =
      code_5_list-time code (is_bytes pdin) (is_bytes pdout) (pd_number pdin) (pd_number pdout)
        sm.real_paramlist.cycletime v h'' in
    rw (v11_list _ _ _ h, same) kept
