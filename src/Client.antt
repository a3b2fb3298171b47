-- ===== src/Client.antt =====
-- client.go and stat.go: what the calls of a client make of the reply to their request: `parseStat`,
-- `finishBody`, `BodyTargeted`, `statViaGroup`, `statOne`, and posting.
pub mod Posting
pub mod Results
mod Tests
use Prim.Native.String.{String}
use nntppool.Base.{
  ℕ, zero, suc, ◌+◌, Bool, true, false, not, ◌&&◌, ◌||◌, Option, none, some, List, [], ◌∷◌, ◌++◌,
  ◌⊎◌, inl, inr, ◌==◌, if◌then◌else◌, Bytes,
}
use nntppool.Base.Int.{ℤ, pos}
use nntppool.Base.Digits.{parse_int}
use nntppool.Errors.{Err, sentinel, text, connection_died}
use nntppool.Outcome.{
  AttemptEvidence, SendError, plain, transport, cancellation, new_transport_error, or_cause,
}
use nntppool.Reader.{Format, YencMeta, unknown, yenc, uu}
use nntppool.Attempt.{Response, Reply, replied, failed, error_response, response_error}
use nntppool.Send.{Provider, Call, Settings, World, Tried}
use nntppool.Send.Fuel.{◌>>=◌}
use nntppool.Send.Resilient.{try_group_resilient}
use nntppool.Send.Failover.{do_send}

pub record StatResult : Type 0 where
  pub message_id : Bytes
  pub provider_id : String
  pub attempts : List AttemptEvidence
  pub number : ℤ

pub data ArticleEncoding : Type 0 where
  encoding_unknown encoding_yenc encoding_uu : ArticleEncoding

pub record ArticleBody : Type 0 where
  pub message_id : Bytes
  pub provider_id : String
  pub attempts : List AttemptEvidence
  pub bytes : Bytes
  pub bytes_decoded : ℕ
  pub bytes_consumed : ℕ
  pub encoding : ArticleEncoding
  pub yenc : YencMeta
  pub crc : ℕ
  pub expected_crc : ℕ
  pub crc_provided : Bool
  pub crc_valid : Bool

abbrev pub map_format : Format → ArticleEncoding
map_format yenc = encoding_yenc
map_format uu = encoding_uu
map_format unknown = encoding_unknown

-- `"<verb> <" + messageID + ">\r\n"`
abbrev stat_command : Bytes → Bytes
stat_command id = b'S' ∷ b'T' ∷ b'A' ∷ b'T' ∷ 32 ∷ b'<' ∷ (id ++ b'>' ∷ 13 ∷ 10 ∷ [])

abbrev body_command : Bytes → Bytes
body_command id = b'B' ∷ b'O' ∷ b'D' ∷ b'Y' ∷ 32 ∷ b'<' ∷ (id ++ b'>' ∷ 13 ∷ 10 ∷ [])

-- What stands before and behind the first blank.
unfoldable pub cut_blank : Bytes → Option (Bytes × Bytes)
cut_blank [] = none
cut_blank (c ∷ s) =
    let rest : Option (Bytes × Bytes) = elim (cut_blank s) [
      | none ↦ none
      | some (a, b) ↦ some (c ∷ a, b)
    ] in
    if c == 32 then some ([], s) else rest

-- `strings.SplitN(s, " ", n + 1)`
unfoldable pub split_blanks : ℕ → Bytes → List Bytes
unfolding cut_blank
split_blanks zero s = s ∷ []
split_blanks (suc n) s = elim (cut_blank s) [ none ↦ s ∷ [] | some (a, b) ↦ a ∷ split_blanks n b ]

abbrev pub is_angle : ℕ → Bool
is_angle c = c == b'<' || c == b'>'

unfoldable pub trim_left_angles : Bytes → Bytes
trim_left_angles [] = []
trim_left_angles (c ∷ s) = let rest = trim_left_angles s in if is_angle c then rest else c ∷ s

abbrev pub cons_unless_angle : ℕ → Bytes → Bytes
cons_unless_angle c [] = if is_angle c then [] else c ∷ []
cons_unless_angle c (d ∷ s) = c ∷ d ∷ s

unfoldable pub trim_right_angles : Bytes → Bytes
trim_right_angles [] = []
trim_right_angles (c ∷ s) = cons_unless_angle c (trim_right_angles s)

-- `strings.Trim(s, "<>")`
unfoldable pub trim_angles : Bytes → Bytes
unfolding trim_left_angles trim_right_angles
trim_angles s = trim_left_angles (trim_right_angles s)

-- `223 <number> <message-id>`, of which any part may be missing.
abbrev pub parts_of : Bytes → List Bytes → Bytes × ℤ
parts_of id (a ∷ b ∷ c ∷ rest) = (trim_angles c, (parse_int b).0)
parts_of id (a ∷ b ∷ []) = (id, (parse_int b).0)
parts_of id _ = (id, pos 0)

unfoldable stat_of : Bytes → Reply → SendError ⊎ StatResult
unfolding split_blanks
stat_of id (failed e attempts) = inl e
stat_of id (replied resp) =
    let parts = parts_of id (split_blanks 3 resp.status) in
    inr (record {
      message_id = parts.0;
      provider_id = resp.provider_id;
      attempts = resp.attempts;
      number = parts.1;
    })

unfoldable pub parse_stat : Bytes → Reply → SendError ⊎ StatResult
unfolding stat_of
parse_stat id reply = elim (response_error reply) [ some e ↦ inl e | none ↦ stat_of id reply ]

-- `buffered` tells that there is no writer.
unfoldable body_of : Bytes → Bool → Reply → SendError ⊎ ArticleBody
body_of id buffered (failed e attempts) = inl e
body_of id buffered (replied resp) = inr (record {
  message_id = id;
  provider_id = resp.provider_id;
  attempts = resp.attempts;
  bytes = if buffered then resp.buffered else [];
  bytes_decoded = resp.meta.bytes_decoded;
  bytes_consumed = resp.meta.bytes_consumed;
  encoding = map_format resp.meta.format;
  yenc = resp.meta.yenc_meta;
  crc = resp.meta.crc;
  expected_crc = resp.meta.expected_crc;
  crc_provided = resp.meta.has_crc;
  crc_valid = resp.meta.has_crc && resp.meta.crc == resp.meta.expected_crc;
})

unfoldable pub finish_body : Bytes → Bool → Reply → SendError ⊎ ArticleBody
unfolding body_of
finish_body id buffered reply = elim (response_error reply) [
  | some e ↦ inl e
  | none ↦ body_of id buffered reply
]

module _ (𝕎 : World) where
  abbrev cancel_cause : 𝕎.W → Option Err
  cancel_cause w = or_cause (𝕎.ctx_err w) (𝕎.client_err w)

  -- `BodyTargeted`; the first argument behind the fuel is what `findGroup` finds.
  unfoldable pub body_targeted :
      ℕ → Option Provider → 𝕎.W → Bytes → Bool → Bool → Option (𝕎.W × (SendError ⊎ ArticleBody))
  body_targeted fuel none w id priority fresh =
      some (w, inl (plain (text "nntp: provider not found")))
  body_targeted fuel (some g) w id priority fresh = do
    t ←
        try_group_resilient 𝕎 fuel w g
          (record {
            payload = body_command id;
            writer = false;
            validate_body = true;
            priority = priority;
          })
          fresh
    some (
      t.world,
      (if t.cancelled
          then inl (
              transport (record {
                kind = cancellation;
                provider_id = g.id;
                response_code = pos 0;
                attempts = t.resp.attempts;
                cause = cancel_cause t.world;
              }))
          else if not t.ok
          then inl
              (transport (new_transport_error t.resp.attempts (some (sentinel connection_died))))
          else finish_body id true (replied t.resp)),
    )

  abbrev stat_request : Bytes → Bool → Call
  stat_request id priority = record {
    payload = stat_command id;
    writer = false;
    validate_body = false;
    priority = priority;
  }

  unfoldable pub stat_via_group : ℕ → 𝕎.W → Provider → Call → Option (𝕎.W × Reply)
  stat_via_group fuel w g call = do
    t ← try_group_resilient 𝕎 fuel w g call false
    some (
      t.world,
      replied (
          if t.cancelled
          then error_response (cancel_cause t.world)
          else if not t.ok
          then error_response (some (sentinel connection_died))
          else t.resp),
    )

  -- The target of a sweep: none, a provider, or the name of none.
  pub data Target : Type 0 where
    whole_pool not_found : Target
    only : Provider → Target

  unfoldable pub stat_one :
      ℕ → Settings → 𝕎.W → Bytes → Target → Bool → Option (𝕎.W × (SendError ⊎ StatResult))
  unfolding stat_via_group parse_stat
  stat_one fuel settings w id not_found priority =
      some (w, inl (plain (text "nntp: provider not found")))
  stat_one fuel settings w id (only g) priority = do
    r ← stat_via_group fuel w g (stat_request id priority)
    some (r.0, parse_stat id r.1)
  stat_one fuel settings w id whole_pool priority = do
    r ← do_send 𝕎 fuel settings (stat_request id priority) w
    some (r.0, parse_stat id r.1)
