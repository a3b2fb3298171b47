-- ===== src/Connection/Handshake.antt =====
-- nntp.go: the start of a connection: the greeting and AUTHINFO (`newNNTPConnectionFromConn` and
-- `auth`), and the command that keeps it alive. What is written to the socket and read from it is a
-- parameter: `write` gives an error or none, `read` is `readOneResponse`, on a state of the socket.
pub mod Admission
use Prim.Native.String.{String}
use nntppool.Base.{
  ℕ, ◌≡◌, ◌⊎◌, inl, inr, refl, sym, subst, Bool, true, false, not, ◌&&◌, ◌||◌, Option, none, some,
  List, [], ◌∷◌, ◌++◌, arith, if◌then◌else◌, Bytes, ascii, bytes_eq,
}
use nntppool.Base.Int.{ℤ, pos}
use nntppool.Errors.{
  Err, greeting, text, wrap, is_code, auth_response_error, configuration_error, is_some, is?, is,
  the, max_connections, auth_required, auth_rejected, Target, invalid_provider_configuration,
}

pub record Auth : Type 0 where
  pub username : Bytes
  pub password : Bytes

-- What `readOneResponse` gives: an error, or the status and the text of a response.
pub data Answer : Type 0 where
  broken : Err → Answer
  said : ℤ → Bytes → Answer

abbrev pub is_empty : Bytes → Bool
is_empty [] = true
is_empty (c ∷ s) = false

abbrev crlf : Bytes
crlf = 13 ∷ 10 ∷ []

-- `AUTHINFO USER %s` and `AUTHINFO PASS %s`.
abbrev pub user_command : Auth → Bytes
user_command auth = ascii "AUTHINFO USER " ++ (auth.username ++ crlf)

abbrev pub pass_command : Auth → Bytes
pass_command auth = ascii "AUTHINFO PASS " ++ (auth.password ++ crlf)

abbrev pub keepalive_expected_code : Bytes → ℕ
keepalive_expected_code command =
    if bytes_eq command (ascii "HELP")
    then 100
    else if bytes_eq command (ascii "CAPABILITIES")
    then 101
    else 111

module _ {W : Type 0} (write : Bytes → W → Option Err × W) (read : W → Answer × W) where
  unfoldable pub named : String → Answer × W → Answer × W
  named stage (broken e, w) = (broken (wrap stage e), w)
  named stage (said c m, w) = (said c m, w)

  -- A command and its response.
  unfoldable pub exchange : String → Bytes → W → Answer × W
  unfolding named
  exchange stage command w =
      let (failure, v) = write command w in
      elim failure [ some e ↦ (broken (wrap stage e), v) | none ↦ named stage (read v) ]

  unfoldable pub after_pass : Answer × W → Option Err × W
  after_pass (broken e, w) = (some e, w)
  after_pass (said c m, w) =
      if is_code c 281 then (none, w) else (some (auth_response_error "AUTHINFO PASS" c m), w)

  unfoldable pub after_user : Auth → Answer × W → Option Err × W
  unfolding exchange after_pass
  after_user auth (broken e, w) = (some e, w)
  after_user auth (said c m, w) =
      if is_code c 281
      then (none, w)
      else if is_code c 381
      then after_pass (exchange "nntp auth: AUTHINFO PASS" (pass_command auth) w)
      else (some (auth_response_error "AUTHINFO USER" c m), w)

  unfoldable pub authenticate : Auth → W → Option Err × W
  unfolding exchange after_user
  authenticate auth w = after_user auth (exchange "nntp auth: AUTHINFO USER" (user_command auth) w)

  unfoldable pub after_greeting : Auth → Answer × W → Option Err × W
  unfolding authenticate
  after_greeting auth (broken e, w) = (some (wrap "nntp greeting" e), w)
  after_greeting auth (said c m, w) =
      if not (is_code c 200 || is_code c 201)
      then (some (greeting c m), w)
      else if is_empty auth.username
      then (none, w)
      else if is_empty auth.password
      then (
        some (configuration_error (text "nntp auth: password required when username is set")),
        w,
      )
      else authenticate auth w

  unfoldable pub greet : Auth → W → Option Err × W
  unfolding after_greeting
  greet auth w = after_greeting auth (read w)
