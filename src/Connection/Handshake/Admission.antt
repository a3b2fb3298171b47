-- ===== src/Connection/Handshake/Admission.antt =====
-- nntp.go: when a connection is admitted, and what it has sent by then.
use nntppool.Base.{◌≡◌, Bool, not, ◌&&◌, ◌||◌, Option, none, arith, if◌then◌else◌, Bytes}
use nntppool.Base.Int.{ℤ}
use nntppool.Errors.{Err, is_code, is_some, auth_response_error}
use nntppool.Connection.Handshake.{
  Auth, Answer, said, is_empty, user_command, pass_command, exchange, after_pass, after_user,
  authenticate, after_greeting, greet, named,
}

-- The statuses that admit: of the greeting, of AUTHINFO USER and of AUTHINFO PASS.
abbrev pub is_welcome : ℤ → Bool
is_welcome g = is_code g 200 || is_code g 201

abbrev pub is_admitted : Auth → ℤ → ℤ → ℤ → Bool
is_admitted auth g u p =
    is_welcome g
    && (is_empty auth.username
        || not (is_empty auth.password) && (is_code u 281 || is_code u 381 && is_code p 281))

abbrev pub asks_user : Auth → ℤ → Bool
asks_user auth g = is_welcome g && not (is_empty auth.username) && not (is_empty auth.password)

-- When the server answers the greeting with the status `g` and would answer AUTHINFO USER with `u` and
-- AUTHINFO PASS with `p`, the start of a connection succeeds exactly if `g` is 200 or 201 and there is
-- no user name, or there is a password and `u` is 281, or 381 and `p` is 281; the user name is sent
-- exactly if the greeting is one of those and both are set, and the password only after a 381.
pub greet-admits :
    {W : Type 0} (write : Bytes → W → Option Err × W) (read : W → Answer × W) (auth : Auth)
    (g u p : ℤ) (m n k : Bytes) (w w1 w2 w3 w4 w5 : W)
    → read w ≡ (said g m, w1)
    → write (user_command auth) w1 ≡ (none, w2)
    → read w2 ≡ (said u n, w3)
    → write (pass_command auth) w3 ≡ (none, w4)
    → read w4 ≡ (said p k, w5)
    → (is_some (greet write read auth w).0 ≡ not (is_admitted auth g u p))
      × ((greet write read auth w).1
          ≡ (if not (asks_user auth g) then w1 else if is_code u 381 then w5 else w3))
unfolding greet after_greeting authenticate exchange after_user after_pass named auth_response_error
greet-admits write read auth g u p m n k w w1 w2 w3 w4 w5 e1 e2 e3 e4 e5 = simp e1 (ground arith)
