-- ===== src/Send/Start.antt =====
-- nntp.go: where `doSendWithRetry` starts: the article that can be probed for, and the first provider.
use nntppool.Base.{
  ℕ, ◌+◌, ◌/◌, ◌%◌, Bool, false, ◌&&◌, Option, none, some, List, [], ◌∷◌, ◌++◌, map, ◌==◌,
  if◌then◌else◌, take, drop, Bytes,
}
use nntppool.Dispatch.{Group, dispatch_weights, first_available, round_robin_start, total_of}
use nntppool.Send.{Provider, Settings, World}

-- `c | 0x20` of a byte
abbrev pub with_bit_5 : ℕ → ℕ
with_bit_5 c = if c / 32 % 2 == 0 then c + 32 else c

-- The four bytes of a command, with bit 5 set.
abbrev pub is_word : ℕ → ℕ → ℕ → ℕ → Bytes → Bool
is_word a b c d (x ∷ y ∷ z ∷ u ∷ rest) =
    with_bit_5 x == a && with_bit_5 y == b && with_bit_5 z == c && with_bit_5 u == d
is_word a b c d _ = false

-- `payload[bytes.IndexByte(payload, c):]`, where there is such a byte.
unfoldable pub from_byte : ℕ → Bytes → Option Bytes
from_byte c [] = none
from_byte c (x ∷ s) = let rest = from_byte c s in if x == c then some (x ∷ s) else rest

-- `s[:bytes.IndexByte(s, c)+1]`
unfoldable pub through_byte : ℕ → Bytes → Option Bytes
through_byte c [] = none
through_byte c (x ∷ s) =
    let rest : Option Bytes = elim (through_byte c s) [ some t ↦ some (x ∷ t) | none ↦ none ] in
    if x == c then some (x ∷ []) else rest

-- `none` where there is no message-ID to probe for.
unfoldable pub extract_probe_msg_id : Bytes → Option Bytes
unfolding from_byte through_byte
extract_probe_msg_id payload =
    if is_word b's' b't' b'a' b't' payload
    then none
    else if is_word b'p' b'o' b's' b't' payload
    then none
    else elim (from_byte b'<' payload) [ none ↦ none | some rest ↦ through_byte b'>' rest ]

-- `append(append([]byte("STAT "), msgID...), "\r\n"...)`
abbrev pub stat_payload : Bytes → Bytes
stat_payload id = b'S' ∷ b'T' ∷ b'A' ∷ b'T' ∷ 32 ∷ (id ++ 13 ∷ 10 ∷ [])

-- `raceable`, with the payload of the probes.
unfoldable pub raceable : Settings → Bytes → Option Bytes
raceable settings payload = elim (extract_probe_msg_id payload) [
  | none ↦ none
  | some id ↦ if settings.stat_probe then some (stat_payload id) else none
]

-- `mains[(start+attempt)%n]` for all attempts in their order.
abbrev pub rotated : ℕ → List Provider → List Provider
rotated start mains = drop start mains ++ take start mains

module _ (𝕎 : World) where
  abbrev pub group_of : 𝕎.W → Provider → Group 𝕎.floats
  group_of w g = record { quota = 𝕎.quota w g; available = 𝕎.available w g; speed = 𝕎.speed w g }

  unfoldable pub put_quotas : 𝕎.W → List Provider → List (Group 𝕎.floats) → 𝕎.W
  put_quotas w (g ∷ gs) (q ∷ qs) = put_quotas (𝕎.put_quota w g q.quota) gs qs
  put_quotas w [] qs = w
  put_quotas w (g ∷ gs) [] = w

  -- The index of the first provider to ask, and what the choice leaves.
  unfoldable pub choose_start : Settings → List Provider → 𝕎.W → ℕ × 𝕎.W
  unfolding put_quotas
  choose_start settings mains w =
      let (w1, now) = 𝕎.clock w in
      let groups = map (group_of w1) mains in
      let ordered = first_available 𝕎.floats now groups 0 in
      let weighted = dispatch_weights 𝕎.floats groups settings.speed_aware now in
      let w2 = put_quotas w1 mains weighted.1 in
      let (w3, counter) = 𝕎.bump w2 in
      if settings.fifo
      then (ordered.0, put_quotas w1 mains ordered.1)
      else if total_of 0 weighted.0 == 0
      then (0, w2)
      else (round_robin_start weighted.0 counter, w3)
