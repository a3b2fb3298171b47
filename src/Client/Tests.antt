-- ===== src/Client/Tests.antt =====
-- Answers to the calls of a client.
use nntppool.Base.{
  arith, ℕ, ◌≤◌, ◌<◌, true, false, none, [], ◌∷◌, ◌≡◌, refl, ◌⊎◌, inr, replicate, length,
}
use nntppool.Base.Int.{pos}
use nntppool.Base.Digits.{parse_int}
use nntppool.Errors.{to_error}
use nntppool.Attempt.{Response, Reply, replied, error_response, temporary}
use nntppool.Send.{Provider, Settings, World, channel_closed}
use nntppool.Breaker.{new_breaker}
use nntppool.Client.{StatResult, parse_stat}
use nntppool.Client.Results.{parse_stat-line}
use nntppool.Client.Posting.{
  Posted, never, group_done, panics, ends, do_send_post, do_send_post-panics,
}

-- `223 7 <a>`
abbrev found : Response
found = record (error_response none) {
  status_code = pos 223;
  status = b'2' ∷ b'2' ∷ b'3' ∷ 32 ∷ b'7' ∷ 32 ∷ b'<' ∷ b'a' ∷ b'>' ∷ [];
}

parse_stat-line_example :
    (s : StatResult) × (parse_stat (b'z' ∷ []) (replied found) ≡ inr s)
    × (s.message_id ≡ b'a' ∷ [])
    × (s.number ≡ (parse_int (b'7' ∷ [])).0)
unfolding to_error
parse_stat-line_example =
    parse_stat-line (b'z' ∷ []) (b'2' ∷ b'2' ∷ b'3' ∷ []) (b'7' ∷ []) (b'a' ∷ []) found refl refl
      refl refl refl refl refl

abbrev news : Provider
news = record { name = "news"; id = "1"; policy = temporary; reconnects = false }

-- A pool of nine main providers, in which nothing else changes.
abbrev pool : World
pool = record {
  W = ℕ;
  floats = record {
    F = ℕ;
    nought = 0;
    less = λ a b. false;
    at_most = λ a b. true;
    score = λ a b. pos 4;
  };
  submit = λ w g req writer. (
    w,
    record { written_at = 0; response_head_at = 0; decoded_committed = false; ctx_err = none },
    channel_closed,
  );
  clock = λ w. (w, 0);
  pause = λ w. (w, true);
  ctx_err = λ w. none;
  client_err = λ w. none;
  breaker = λ w g. new_breaker 0 false;
  put_breaker = λ w g b. w;
  quota = λ w g. record { bytes = 0; used = 0; exceeded = false; period = 0; reset_at = 0 };
  put_quota = λ w g q. w;
  available = λ w g. pos 3;
  speed = λ w g. 0;
  remove = λ w name. w;
  reconnect = λ w g. w;
  bump = λ w. (w, 5);
  mains = λ w. replicate 9 news;
  backups = λ w. [];
}

abbrev no_post : ℕ → Provider → ℕ × Posted
no_post w g = (w, group_done)

abbrev round_robin : Settings
round_robin = record { fifo = false; speed_aware = true; stat_probe = true }

no_post-prompt : (w : ℕ) (g : Provider) → (no_post w g).1 ≡ never → ⊥
no_post-prompt w g e = ground (arith, e)

do_send_post-panics_example :
    ((do_send_post pool no_post round_robin 0 ≡ panics)
      × (false ≡ false)
      × (8 < length (replicate 9 news)))
    ⊎ ((v : ℕ) × (reply : Reply) × (do_send_post pool no_post round_robin 0 ≡ ends v reply)
        × ((false ≡ true) ⊎ (length (replicate 9 news) ≤ 8)))
do_send_post-panics_example = do_send_post-panics pool no_post round_robin 0 no_post-prompt
