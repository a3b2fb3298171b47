-- ===== src/ReadBuffer/Tests.antt =====
-- readBuffer.go at concrete inputs: a buffer of four bytes, a socket, and a decoder that takes all it
-- is given and is done at a line feed.
use nntppool.Base.{
  ℕ, ◌<◌, ◌≡◌, ◌≢◌, ◌⊎◌, refl, true, false, none, some, [], ◌∷◌, ◌++◌, arith, length, take, Bytes,
  ascii, elem,
}
use nntppool.ReadBuffer.{ReadBuffer, Conn, window, ensure_write_space, max_read_buf_size}
use nntppool.ReadBuffer.Window.{IsValid, ensure_write_space-window}
use nntppool.ReadBuffer.Reading.{pending}
use nntppool.ReadBuffer.Feed.{Feeding, Answer, feed_until_done_controlled}
use nntppool.ReadBuffer.Feed.Delivered.{IsFeeder, EndsWith, feed_until_done_controlled-delivers}

abbrev four : ReadBuffer
four = record {
  buf = 97 ∷ 98 ∷ 99 ∷ 100 ∷ [];
  start = 1;
  end = 4;
  last_deadline = none;
  last_has_deadline = false;
  deadline_set = false;
}

four-IsValid : IsValid four
four-IsValid = ground arith

abbrev socket : Conn
socket = record {
  deadline = none;
  arrivals =
      record { bytes = ascii "ef"; err = none }
      ∷ record { bytes = ascii "ghijklm" ++ 10 ∷ ascii "n"; err = none }
      ∷ [];
}

abbrev gulp : Bytes → Bytes → Feeding Bytes
gulp seen w = record {
  consumed = length w;
  done = elem 10 w;
  err = none;
  feeder = seen ++ take (length w) w;
}

gulp-IsFeeder : IsFeeder gulp (λ seen. seen)
unfolding IsFeeder
gulp-IsFeeder f w = (omega arith, refl)

abbrev free : Unit {0} → ℕ → ℕ → Answer Unit
free k wire consumed = record {
  deadline = some 9;
  has_deadline = true;
  max_feed = 0;
  err = none;
  control = k;
}

ensure_write_space-window_example :
    IsValid (ensure_write_space four).0
    × (window (ensure_write_space four).0 ≡ window four)
    × ((((ensure_write_space four).1 ≡ none)
          × ((ensure_write_space four).0.end < length (ensure_write_space four).0.buf))
        ⊎ (((ensure_write_space four).1 ≢ none) × (length (window four) ≡ max_read_buf_size)))
ensure_write_space-window_example = ensure_write_space-window four four-IsValid

feed_until_done_controlled-delivers_example :
    EndsWith gulp free
      (λ seen. seen)
      gulp-IsFeeder
      (feed_until_done_controlled gulp free 20 four socket [] tt)
      (λ s.
        IsValid s.rb
        × (s.feeder ++ (window s.rb ++ pending s.conn.arrivals)
            ≡ [] ++ (window four ++ pending socket.arrivals)))
feed_until_done_controlled-delivers_example =
    feed_until_done_controlled-delivers gulp free (λ seen. seen) gulp-IsFeeder 20 four socket [] tt
      four-IsValid (omega arith)
