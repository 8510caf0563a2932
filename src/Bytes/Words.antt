-- ===== src/Bytes/Words.antt =====
-- Big-endian words: what is written is read back.
use dns_over_minecraft.Prelude.{ℕ, ◌^◌, ◌<◌, ◌≡◌, arith}
use dns_over_minecraft.Bytes.{put_uint16, put_uint64, big_endian}

pub big_endian-put_uint16 : (v : ℕ) → v < 2 ^ 16 → big_endian 0 (put_uint16 v) ≡ v
unfolding big_endian put_uint16
big_endian-put_uint16 v h = omega arith

pub big_endian-put_uint64 : (v : ℕ) → v < 2 ^ 64 → big_endian 0 (put_uint64 v) ≡ v
unfolding big_endian put_uint64
big_endian-put_uint64 v h = omega arith
