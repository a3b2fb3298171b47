-- ===== src/Send/Tests.antt =====
-- A small pool that answers from a script, and runs of it.
use nntppool.Base.{
  ℕ, ◌+◌, ◌≤◌, ◌<◌, Bool, true, false, not, ◌&&◌, ◌||◌, Option, none, some, List, [], ◌∷◌, ◌≡◌, ◌⊎◌,
  refl, ap, ◌∙◌, arith,
}
use nntppool.Base.Int.{pos}
use nntppool.Breaker.{Breaker, new_breaker, opened, acquire}
use nntppool.Dispatch.{Quota, Floats}
use nntppool.Errors.{Err, sentinel, connection_died, fresh_transport_required, crc_mismatch, is}
use nntppool.Attempt.{Response, Reply, error_response, temporary}
use nntppool.Send.{Provider, Call, Settings, Marks, Fate, delivered, group_done, World, Tried}
use nntppool.Send.Steady.{
  Aside, read_clock, wait, breaker_put, quota_put, removed, reconnected, bumped, Settling,
  is_closing, is_stale,
}
use nntppool.Send.Promise.{Watched, do_send-returns, do_send-unmixed}
use nntppool.Send.Released.{Quiet, Returned, try_group_resilient-Returned}
use nntppool.Send.Failover.{do_send}
use nntppool.Send.Resilient.{try_group_resilient}

data Line : Type 0 where
  said : ℕ → Line
  lost outdated streamed torn : Line

record Bench : Type 0 where
  script : List Line
  breaker : Breaker
  quota : Quota
  written : Bool
  mixed : Bool
  cut_off : Bool
  time : ℕ
  counter : ℕ

abbrev answered : ℕ → Option Err → Response
answered code e = record (error_response e) { status_code = pos code }

abbrev marks : Bool → Marks
marks committed = record {
  written_at = 1;
  response_head_at = 2;
  decoded_committed = committed;
  ctx_err = none;
}

abbrev line_fate : Line → Bool × Fate
line_fate (said code) = (false, delivered (answered code none))
line_fate lost = (false, delivered (answered 0 (some (sentinel connection_died))))
line_fate outdated = (false, delivered (answered 0 (some (sentinel fresh_transport_required))))
line_fate streamed = (true, delivered (answered 222 none))
line_fate torn = (true, delivered (answered 222 (some (sentinel crc_mismatch))))

abbrev answer_with : Bench → Bool → List Line → Bench × Marks × Fate
answer_with w writer [] = (
  record w { mixed = w.mixed || (writer && w.written); written = w.written || (writer && false) },
  marks false,
  group_done,
)
answer_with w writer (l ∷ ls) = (
  record w {
    script = ls;
    mixed = w.mixed || (writer && w.written);
    written = w.written || (writer && (line_fate l).0);
    cut_off =
        w.cut_off
        || (writer && (line_fate l).0 && not (is_closing (marks (line_fate l).0) (line_fate l).1));
  },
  marks (line_fate l).0,
  (line_fate l).1,
)

abbrev news : Provider
news = record { name = "news"; id = "1"; policy = temporary; reconnects = false }

abbrev spare : Provider
spare = record { name = "spare"; id = "2"; policy = temporary; reconnects = true }

abbrev plain_floats : Floats
plain_floats = record {
  F = ℕ;
  nought = 0;
  less = λ a b. false;
  at_most = λ a b. true;
  score = λ a b. pos 4;
}

abbrev pool : World
pool = record {
  W = Bench;
  floats = plain_floats;
  submit = λ w g req writer. answer_with w writer w.script;
  clock = λ w. (record w { time = w.time + 1 }, w.time);
  pause = λ w. (w, true);
  ctx_err = λ w. none;
  client_err = λ w. none;
  breaker = λ w g. w.breaker;
  put_breaker = λ w g b. record w { breaker = b };
  quota = λ w g. w.quota;
  put_quota = λ w g q. record w { quota = q };
  available = λ w g. pos 3;
  speed = λ w g. 0;
  remove = λ w name. w;
  reconnect = λ w g. w;
  bump = λ w. (record w { counter = w.counter + 1 }, w.counter + 1);
  mains = λ w. news ∷ [];
  backups = λ w. spare ∷ [];
}

abbrev is_outdated : Line → ℕ
is_outdated outdated = 1
is_outdated _ = 0

abbrev outdated_in : List Line → ℕ
outdated_in [] = 0
outdated_in (l ∷ ls) = is_outdated l + outdated_in ls

stale_fate : Fate → Bool
stale_fate (delivered resp) = is_stale resp
stale_fate _ = false

answer_outdated :
    (w : Bench) (writer : Bool) (ls : List Line)
    → outdated_in (answer_with (record w { script = ls }) writer ls).0.script ≤ outdated_in ls
answer_outdated w writer [] = omega arith
answer_outdated w writer (l ∷ ls) = omega arith

answer_spent :
    (w : Bench) (writer : Bool) (ls : List Line)
    → stale_fate (answer_with w writer ls).2 ≡ true
    → outdated_in (answer_with w writer ls).0.script < outdated_in ls
unfolding stale_fate is
answer_spent w writer [] e = ground arith
answer_spent w writer (said c ∷ ls) e = ground arith
answer_spent w writer (lost ∷ ls) e = ground arith
answer_spent w writer (outdated ∷ ls) e = omega arith
answer_spent w writer (streamed ∷ ls) e = ground arith
answer_spent w writer (torn ∷ ls) e = ground arith

fate-stale :
    (f : Fate) (resp : Response) → f ≡ delivered resp → is_stale resp ≡ true → stale_fate f ≡ true
unfolding stale_fate
fate-stale f resp e s = ap stale_fate e ∙ s

pool-Settling : Settling pool
pool-Settling = record {
  stale = λ w. outdated_in w.script;
  stale_aside = aside;
  stale_submit = λ w g req writer. answer_outdated w writer w.script;
  stale_spent = λ w g req writer resp e s. answer_spent w writer w.script (fate-stale _ resp e s);
}
  where
    aside : (w w' : Bench) → Aside pool w w' → outdated_in w'.script ≤ outdated_in w.script
    aside w w' (read_clock v) = omega arith
    aside w w' (wait v) = omega arith
    aside w w' (breaker_put v g b) = omega arith
    aside w w' (quota_put v g q) = omega arith
    aside w w' (removed v name) = omega arith
    aside w w' (reconnected v g) = omega arith
    aside w w' (bumped v) = omega arith

pool-Watched : Watched pool
unfolding is
pool-Watched = record {
  written = λ w. w.written;
  mixed = λ w. w.mixed;
  written_aside = written_aside;
  mixed_aside = mixed_aside;
  written_submit = λ w g req writer. written_submit w writer w.script;
  mixed_submit = λ w g req writer. mixed_submit w writer w.script;
  cut_off = λ w. w.cut_off;
  cut_off_aside = cut_off_aside;
  cut_off_submit = λ w g req writer. cut_off_submit w writer w.script;
}
  where
    written_aside : (w w' : Bench) → Aside pool w w' → w'.written ≡ w.written
    written_aside w w' (read_clock v) = refl
    written_aside w w' (wait v) = refl
    written_aside w w' (breaker_put v g b) = refl
    written_aside w w' (quota_put v g q) = refl
    written_aside w w' (removed v name) = refl
    written_aside w w' (reconnected v g) = refl
    written_aside w w' (bumped v) = refl

    mixed_aside : (w w' : Bench) → Aside pool w w' → w'.mixed ≡ w.mixed
    mixed_aside w w' (read_clock v) = refl
    mixed_aside w w' (wait v) = refl
    mixed_aside w w' (breaker_put v g b) = refl
    mixed_aside w w' (quota_put v g q) = refl
    mixed_aside w w' (removed v name) = refl
    mixed_aside w w' (reconnected v g) = refl
    mixed_aside w w' (bumped v) = refl

    written_submit :
        (w : Bench) (writer : Bool) (ls : List Line)
        → (answer_with w writer ls).0.written
          ≡ (w.written || (writer && (answer_with w writer ls).1.decoded_committed))
    written_submit w writer [] = refl
    written_submit w writer (l ∷ ls) = refl

    mixed_submit :
        (w : Bench) (writer : Bool) (ls : List Line)
        → (answer_with w writer ls).0.mixed ≡ (w.mixed || (writer && w.written))
    mixed_submit w writer [] = refl
    mixed_submit w writer (l ∷ ls) = refl

    cut_off_aside : (w w' : Bench) → Aside pool w w' → w'.cut_off ≡ w.cut_off
    cut_off_aside w w' (read_clock v) = refl
    cut_off_aside w w' (wait v) = refl
    cut_off_aside w w' (breaker_put v g b) = refl
    cut_off_aside w w' (quota_put v g q) = refl
    cut_off_aside w w' (removed v name) = refl
    cut_off_aside w w' (reconnected v g) = refl
    cut_off_aside w w' (bumped v) = refl

    cut_off_submit :
        (w : Bench) (writer : Bool) (ls : List Line)
        → (answer_with w writer ls).0.cut_off ≡ (
            w.cut_off
            || (writer
                && (answer_with w writer ls).1.decoded_committed
                && not (is_closing (answer_with w writer ls).1 (answer_with w writer ls).2)))
    cut_off_submit w writer [] = ground arith
    cut_off_submit w writer (l ∷ ls) = refl

abbrev ready : List Line → Bench
ready ls = record {
  script = ls;
  breaker = new_breaker 7 true;
  quota = record { bytes = 0; used = 0; exceeded = false; period = 0; reset_at = 0 };
  written = false;
  mixed = false;
  cut_off = false;
  time = 100;
  counter = 0;
}

abbrev settings : Settings
settings = record { fifo = true; speed_aware = false; stat_probe = true }

-- `BODY <a@b>` into a writer
abbrev fetch : Call
fetch = record {
  payload = b'B' ∷ b'O' ∷ b'D' ∷ b'Y' ∷ 32 ∷ b'<' ∷ b'a' ∷ b'@' ∷ b'b' ∷ b'>' ∷ 13 ∷ 10 ∷ [];
  writer = true;
  validate_body = true;
  priority = false;
}

-- The main provider has lost its connection, then lacks the article; the backup has an old connection
-- and then sends a body that is damaged.
abbrev troubled : Bench
troubled = ready (lost ∷ said 430 ∷ outdated ∷ torn ∷ streamed ∷ [])

do_send-returns_example : (r : Bench × Reply) × (do_send pool 5 settings fetch troubled ≡ some r)
unfolding pool-Settling
do_send-returns_example = do_send-returns pool pool-Settling 5 settings fetch troubled (omega arith)

do_send-unmixed_example :
    (r : Bench × Reply) × (do_send pool 5 settings fetch troubled ≡ some r)
    × ((r.0.mixed ≡ false) ⊎ (r.0.cut_off ≡ true))
unfolding pool-Settling pool-Watched
do_send-unmixed_example =
    do_send-unmixed pool pool-Watched pool-Settling 5 settings fetch troubled (omega arith) refl
      refl

pool-Quiet : Quiet pool news
pool-Quiet = record {
  breaker_put = λ w b. refl;
  breaker_clock = λ w. refl;
  breaker_pause = λ w. refl;
  breaker_submit = λ w req writer. submit w writer w.script;
}
  where
    submit :
        (w : Bench) (writer : Bool) (ls : List Line)
        → (answer_with w writer ls).0.breaker ≡ w.breaker
    submit w writer [] = refl
    submit w writer (l ∷ ls) = refl

-- A half-open breaker, and a provider whose connections die.
abbrev half : Bench
half = record (ready (lost ∷ lost ∷ lost ∷ [])) {
  breaker = record (new_breaker 7 true) { state = opened; open_until = 90 };
}

try_group_resilient-Returned_example :
    let a = acquire half.breaker "1" 100 in
    (t : Tried Bench) × (try_group_resilient pool 4 half news fetch false ≡ some t)
    × Returned pool news pool-Quiet a.0 a.1 t
    × (false ≡ false → t.world.breaker.probe_in_flight ≡ false)
unfolding pool-Settling new_breaker
try_group_resilient-Returned_example =
    try_group_resilient-Returned pool news pool-Quiet pool-Settling 4 half fetch (omega arith)
