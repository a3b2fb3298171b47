-- ===== src/Reader/Crc.antt =====
-- package hash/crc32: `Update` with the IEEE table, bit by bit.
use Prim.Native.Nat.{bit_xor}
use nntppool.Base.{ℕ, zero, suc, ◌/◌, ◌%◌, [], ◌∷◌, ◌==◌, if◌then◌else◌, Bytes}

shift : ℕ → ℕ → ℕ
shift zero crc = crc
shift (suc k) crc = shift k (if crc % 2 == 1 then bit_xor (crc / 2) 0xEDB88320 else crc / 2)

update_raw : ℕ → Bytes → ℕ
unfolding shift
update_raw crc [] = crc
update_raw crc (b ∷ bs) = update_raw (shift 8 (bit_xor crc b)) bs

abbrev complement : ℕ → ℕ
complement crc = bit_xor crc 0xFFFFFFFF

unfoldable pub crc32_update : ℕ → Bytes → ℕ
unfolding update_raw
crc32_update crc bs = complement (update_raw (complement crc) bs)
