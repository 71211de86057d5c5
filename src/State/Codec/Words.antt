-- ===== src/State/Codec/Words.antt =====
-- A 64-bit word and its eight bytes.
use logdna_agent_v.Base.{ℕ, ◌+◌, ◌<◌, ◌≡◌, refl, some, ◌++◌, arith, length, split_at, u64_mod}
use logdna_agent_v.State.Codec.{Bytes, to_be_bytes, from_be_bytes}

-- Reading the bytes of a word gives the word.
pub from_be_bytes-to_be_bytes : (v : ℕ) → v < u64_mod → from_be_bytes (to_be_bytes v) ≡ v
unfolding from_be_bytes to_be_bytes
from_be_bytes-to_be_bytes v h = omega arith

pub split_at-to_be_bytes :
    (v : ℕ) (bs : Bytes) → split_at (to_be_bytes v ++ bs) 8 ≡ some (to_be_bytes v, bs)
unfolding to_be_bytes
split_at-to_be_bytes v bs = refl

pub length-to_be_bytes : (v : ℕ) (bs : Bytes) → length (to_be_bytes v ++ bs) ≡ length bs + 8
unfolding to_be_bytes
length-to_be_bytes v bs = omega arith
