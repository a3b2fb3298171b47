-- ===== src/Send/Probe.antt =====
-- The message-ID that `extractProbeMsgID` finds.
use nntppool.Base.{ℕ, false, some, [], ◌∷◌, ◌++◌, ◌≡◌, arith, Bytes, elem}
use nntppool.Send.Start.{from_byte, through_byte, is_word, extract_probe_msg_id}

from_byte_lem :
    (c : ℕ) (pre rest : Bytes)
    → elem c pre ≡ false
    → from_byte c (pre ++ c ∷ rest) ≡ some (c ∷ rest)
unfolding from_byte
from_byte_lem c [] rest h = ground arith
from_byte_lem c (x ∷ pre) rest h = ground (arith, from_byte_lem c pre rest)

through_byte_lem :
    (c : ℕ) (pre rest : Bytes)
    → elem c pre ≡ false
    → through_byte c (pre ++ c ∷ rest) ≡ some (pre ++ c ∷ [])
unfolding through_byte
through_byte_lem c [] rest h = ground arith
through_byte_lem c (x ∷ pre) rest h = ground (arith, through_byte_lem c pre rest)

-- In a payload that is no STAT and no POST, the message-ID is what stands from the first `<` to the
-- first `>` behind it, with both.
pub extract_probe_msg_id-finds :
    (pre id rest : Bytes)
    → is_word b's' b't' b'a' b't' (pre ++ b'<' ∷ (id ++ b'>' ∷ rest)) ≡ false
    → is_word b'p' b'o' b's' b't' (pre ++ b'<' ∷ (id ++ b'>' ∷ rest)) ≡ false
    → elem b'<' pre ≡ false
    → elem b'>' id ≡ false
    → extract_probe_msg_id (pre ++ b'<' ∷ (id ++ b'>' ∷ rest)) ≡ some (b'<' ∷ (id ++ b'>' ∷ []))
unfolding extract_probe_msg_id
extract_probe_msg_id-finds pre id rest s p l r =
    rw (s, p, from_byte_lem b'<' pre (id ++ b'>' ∷ rest) l)
      (through_byte_lem b'>' (b'<' ∷ id) rest (ground arith))
