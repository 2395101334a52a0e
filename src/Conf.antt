-- ===== src/Conf.antt =====
-- dsr.h: the configuration of a node. ENABLE_DEBUG is defined, as in Kbuild. `unsigned int` has 32
-- bits.
use dsr_uu.Base.{ℕ, ◌*◌, ◌/◌, ◌%◌, u32_mod}

pub data Confval : Type 0 where
  print_debug : Confval
  automatic_route_shortening round_trip_timeout flush_link_cache promisc_operation : Confval
  broad_cast_jitter route_cache_timeout send_buffer_timeout send_buffer_size : Confval
  request_table_size request_table_ids max_request_rexmt max_request_period : Confval
  request_period nonprop_request_timeout rexmt_buffer_size maint_holdoff_time : Confval
  max_maint_rexmt use_network_layer_ack try_passive_acks passive_ack_timeout : Confval
  grat_reply_hold_off max_salvage_count : Confval

pub data ConfvalType : Type 0 where
  seconds milliseconds microseconds nanoseconds quanta binary command : ConfvalType

-- `dsr_node->confvals`
abbrev pub Confvals : Type 0
Confvals = Confval → ℕ

-- The values of `confvals_def`, which `dsr_node_init` copies.
unfoldable pub default_val : Confvals
default_val print_debug = 0
default_val automatic_route_shortening = 1
default_val round_trip_timeout = 2000
default_val flush_link_cache = 1
default_val promisc_operation = 1
default_val broad_cast_jitter = 20
default_val route_cache_timeout = 300
default_val send_buffer_timeout = 30
default_val send_buffer_size = 100
default_val request_table_size = 64
default_val request_table_ids = 16
default_val max_request_rexmt = 16
default_val max_request_period = 10
default_val request_period = 500
default_val nonprop_request_timeout = 30
default_val rexmt_buffer_size = 100
default_val maint_holdoff_time = 250
default_val max_maint_rexmt = 2
default_val use_network_layer_ack = 1
default_val try_passive_acks = 1
default_val passive_ack_timeout = 100
default_val grat_reply_hold_off = 1
default_val max_salvage_count = 15

-- The types of `confvals_def`: that of `RexmtBufferSize` is left out there, which makes it 0.
unfoldable pub confval_type : Confval → ConfvalType
confval_type print_debug = binary
confval_type automatic_route_shortening = binary
confval_type round_trip_timeout = milliseconds
confval_type flush_link_cache = command
confval_type promisc_operation = binary
confval_type broad_cast_jitter = milliseconds
confval_type route_cache_timeout = seconds
confval_type send_buffer_timeout = seconds
confval_type send_buffer_size = quanta
confval_type request_table_size = quanta
confval_type request_table_ids = quanta
confval_type max_request_rexmt = quanta
confval_type max_request_period = seconds
confval_type request_period = milliseconds
confval_type nonprop_request_timeout = milliseconds
confval_type rexmt_buffer_size = seconds
confval_type maint_holdoff_time = milliseconds
confval_type max_maint_rexmt = quanta
confval_type use_network_layer_ack = binary
confval_type try_passive_acks = quanta
confval_type passive_ack_timeout = milliseconds
confval_type grat_reply_hold_off = seconds
confval_type max_salvage_count = quanta

-- The products are of `unsigned int`, and wrap.
unfoldable pub to_usecs : ConfvalType → ℕ → ℕ
to_usecs seconds val = val * 1_000_000 % u32_mod
to_usecs milliseconds val = val * 1000 % u32_mod
to_usecs microseconds val = val
to_usecs nanoseconds val = val / 1000
to_usecs quanta val = 0
to_usecs binary val = 0
to_usecs command val = 0

unfoldable pub confval_to_usecs : Confvals → Confval → ℕ
unfolding to_usecs confval_type
confval_to_usecs conf cv = to_usecs (confval_type cv) (conf cv)
