-- ===== src/Wire/Protocol.antt =====
-- The constants of common/src/network/serials/protocol.rs that the messages use.
use ypf_fleet_fuel_distribut.Prelude.{ℕ, ◌+◌}
use ypf_fleet_fuel_distribut.Float.{F32, minus_one}

abbrev pub msg_type_request : ℕ
msg_type_request = 0x00

abbrev pub msg_type_log : ℕ
msg_type_log = 0x01

abbrev pub msg_type_ack : ℕ
msg_type_ack = 0x02

abbrev pub msg_type_join : ℕ
msg_type_join = 0x03

abbrev pub msg_type_cluster_view : ℕ
msg_type_cluster_view = 0x04

abbrev pub msg_type_cluster_update : ℕ
msg_type_cluster_update = 0x05

abbrev pub msg_type_response : ℕ
msg_type_response = 0x06

abbrev pub msg_type_election : ℕ
msg_type_election = 0x09

abbrev pub msg_type_election_ok : ℕ
msg_type_election_ok = 0x0A

abbrev pub msg_type_coordinator : ℕ
msg_type_coordinator = 0x0B

abbrev pub msg_type_role_query : ℕ
msg_type_role_query = 0x07

abbrev pub msg_type_role_response : ℕ
msg_type_role_response = 0x08

abbrev pub node_role_leader : ℕ
node_role_leader = 0x00

abbrev pub node_role_replica : ℕ
node_role_replica = 0x01

abbrev pub node_role_client : ℕ
node_role_client = 0x02

abbrev pub op_type_charge : ℕ
op_type_charge = 0x00

abbrev pub op_type_limit_card : ℕ
op_type_limit_card = 0x01

abbrev pub op_type_limit_account : ℕ
op_type_limit_account = 0x02

abbrev pub op_type_query_account : ℕ
op_type_query_account = 0x03

abbrev pub op_type_bill : ℕ
op_type_bill = 0x06

abbrev pub op_get_database : ℕ
op_get_database = 0x07

abbrev pub op_replace_database : ℕ
op_replace_database = 0x08

abbrev pub charge_result_type : ℕ
charge_result_type = 0x00

abbrev pub limit_account_result : ℕ
limit_account_result = 0x02

abbrev pub limit_card_result : ℕ
limit_card_result = 0x03

abbrev pub acc_query_result : ℕ
acc_query_result = 0x04

abbrev pub database_snapshot_type : ℕ
database_snapshot_type = 0x05

abbrev pub replace_database_type : ℕ
replace_database_type = 0x06

abbrev pub limit_update_err : ℕ
limit_update_err = 0x00

abbrev pub charge_limit_err : ℕ
charge_limit_err = 0x01

abbrev pub below_current_usage_code : ℕ
below_current_usage_code = 0x00

abbrev pub card_limit_exceeded_code : ℕ
card_limit_exceeded_code = 0x01

abbrev pub acc_limit_exceeded_code : ℕ
acc_limit_exceeded_code = 0x02

abbrev pub true_byte : ℕ
true_byte = 0x01

abbrev pub false_byte : ℕ
false_byte = 0x00

abbrev pub ok_byte : ℕ
ok_byte = 0x02

abbrev pub err_byte : ℕ
err_byte = 0x03

-- `NO_LIMIT`, the float -1.0.
abbrev pub no_limit : F32
no_limit = minus_one

-- Lengths in bytes; a `usize` has eight.
abbrev pub op_id_srl_len : ℕ
op_id_srl_len = 4

abbrev pub socket_addr_len : ℕ
socket_addr_len = 6

abbrev pub acc_id_srl_len : ℕ
acc_id_srl_len = 8

abbrev pub card_id_srl_len : ℕ
card_id_srl_len = 8

abbrev pub amount_srl_len : ℕ
amount_srl_len = 4

abbrev pub offline_srl_len : ℕ
offline_srl_len = 1

abbrev pub node_id_srl_len : ℕ
node_id_srl_len = 8

abbrev pub member_srl_len : ℕ
member_srl_len = node_id_srl_len + socket_addr_len

abbrev pub vec_len_len : ℕ
vec_len_len = 8

abbrev pub per_card_spent_len : ℕ
per_card_spent_len = 8

abbrev pub card_spent_len : ℕ
card_spent_len = card_id_srl_len + amount_srl_len

abbrev pub charge_srl_len : ℕ
charge_srl_len = acc_id_srl_len + card_id_srl_len + amount_srl_len + offline_srl_len

abbrev pub limit_acc_srl_len : ℕ
limit_acc_srl_len = acc_id_srl_len + amount_srl_len

abbrev pub limit_card_srl_len : ℕ
limit_card_srl_len = acc_id_srl_len + card_id_srl_len + amount_srl_len

abbrev pub acc_snapshot_srl_len : ℕ
acc_snapshot_srl_len = acc_id_srl_len + amount_srl_len + amount_srl_len

abbrev pub card_snapshot_srl_len : ℕ
card_snapshot_srl_len = acc_id_srl_len + card_id_srl_len + amount_srl_len + amount_srl_len

abbrev pub limit_check_err_len : ℕ
limit_check_err_len = 1
