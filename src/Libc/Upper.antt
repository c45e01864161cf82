-- ===== src/Libc/Upper.antt =====
-- `toupper` in the C locale, on every byte of a string (`toUpper` of src/utils.c, `to_upper` of
-- src/handler.c).
use codecrafters_redis_c.Base.{ℕ, ◌-◌, Bytes, map, ◌&&◌, leb, if◌then◌else◌}

upper_byte : ℕ → ℕ
upper_byte c = if leb b'a' c && leb c b'z' then c - 32 else c

unfoldable pub upper : Bytes → Bytes
unfolding upper_byte
upper s = map upper_byte s
