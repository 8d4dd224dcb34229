-- ===== src/Types/ArgBlockId.antt =====
-- `iolink_arg_block_id_t` of include/ilink/iolink.h
use normans_fork.Prelude.{ℕ}

abbrev pub pd_in : ℕ
pd_in = 0x1001

abbrev pub pd_out : ℕ
pd_out = 0x1002

abbrev pub pd_in_out : ℕ
pd_in_out = 0x1003

abbrev pub od_wr : ℕ
od_wr = 0x3000

abbrev pub od_rd : ℕ
od_rd = 0x3001

abbrev pub ds_data : ℕ
ds_data = 0x7000

abbrev pub dev_par_bat : ℕ
dev_par_bat = 0x7001

abbrev pub port_index_list : ℕ
port_index_list = 0x7002

abbrev pub void_block : ℕ
void_block = 0xfff0

abbrev pub masterident : ℕ
masterident = 0x0001

abbrev pub port_cfg_list : ℕ
port_cfg_list = 0x8000

abbrev pub port_status_list : ℕ
port_status_list = 0x9000
