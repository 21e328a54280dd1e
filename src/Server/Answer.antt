-- ===== src/Server/Answer.antt =====
-- The answer codes of sidpiserver/src/sidpiserver.h that the server sends: the first byte of a reply.
use sid_pi.Base.{ℕ}

abbrev pub ok : ℕ
ok = 0

abbrev pub busy : ℕ
busy = 1

abbrev pub read : ℕ
read = 3

abbrev pub version : ℕ
version = 4

abbrev pub count : ℕ
count = 5

abbrev pub info : ℕ
info = 6

-- `SID_NETWORK_PROTOCOL_VERSION`
abbrev pub protocol_version : ℕ
protocol_version = 2
