-- ===== src/Server/Request.antt =====
-- The request codes of sidpiserver/src/sidpiserver.h that the server handles: the first byte of a
-- packet.
use sid_pi.Base.{ℕ}

abbrev pub flush : ℕ
flush = 0

abbrev pub try_set_sid_count : ℕ
try_set_sid_count = 1

abbrev pub mute : ℕ
mute = 2

abbrev pub try_reset : ℕ
try_reset = 3

abbrev pub try_delay : ℕ
try_delay = 4

abbrev pub try_write : ℕ
try_write = 5

abbrev pub try_read : ℕ
try_read = 6

abbrev pub get_version : ℕ
get_version = 7

abbrev pub try_set_sampling : ℕ
try_set_sampling = 8

abbrev pub try_set_clocking : ℕ
try_set_clocking = 9

abbrev pub get_config_count : ℕ
get_config_count = 10

abbrev pub get_config_info : ℕ
get_config_info = 11

abbrev pub set_sid_position : ℕ
set_sid_position = 12

abbrev pub set_sid_level : ℕ
set_sid_level = 13

abbrev pub try_set_sid_model : ℕ
try_set_sid_model = 14
