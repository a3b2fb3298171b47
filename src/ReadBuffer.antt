-- ===== src/ReadBuffer.antt =====
-- readBuffer.go: the buffer between a socket and the decoder. The bytes of `buf` from `start` to
-- `end` are read and not yet decoded. A socket is its read deadline and what it has still to
-- deliver; a read takes at most as many bytes as there is room. A deadline is `none` for the zero
-- time.
pub mod Window
pub mod Reading
pub mod Feed
mod Tests
use nntppool.Base.{
  ℕ, zero, suc, ◌+◌, ◌-◌, ◌*◌, min, Bool, true, false, not, ◌&&◌, ◌||◌, Option, none, some, List,
  [], ◌∷◌, ◌++◌, ltb, leb, ◌==◌, if◌then◌else◌, length, take, drop, replicate, length-replicate,
  ◌≡◌, Bytes,
}
use nntppool.Errors.{Err, text}

abbrev pub default_read_buf_size : ℕ
default_read_buf_size = 128 * 1024

abbrev pub max_read_buf_size : ℕ
max_read_buf_size = 8 * 1024 * 1024

pub record ReadBuffer : Type 0 where
  pub buf : Bytes
  pub start : ℕ
  pub end : ℕ
  pub last_deadline : Option ℕ
  pub last_has_deadline : Bool
  pub deadline_set : Bool

-- What a `Read` of the socket finds: some bytes, with an error or without.
pub record Arrival : Type 0 where
  pub bytes : Bytes
  pub err : Option Err

pub record Conn : Type 0 where
  pub deadline : Option ℕ
  pub arrivals : List Arrival

-- `make([]byte, n)`
pub zeros : ℕ → Bytes
zeros n = replicate n 0

pub length-zeros : (n : ℕ) → length (zeros n) ≡ n
unfolding zeros
length-zeros n = length-replicate n 0

unfoldable pub init : ReadBuffer → ReadBuffer
init rb = if length rb.buf == 0 then record rb { buf = zeros default_read_buf_size } else rb

unfoldable pub window : ReadBuffer → Bytes
window rb = take (rb.end - rb.start) (drop rb.start rb.buf)

unfoldable pub advance : ReadBuffer → ℕ → ReadBuffer
advance rb consumed =
    if consumed == 0
    then rb
    else if leb rb.end (rb.start + consumed)
    then record rb { start = 0; end = 0 }
    else record rb { start = rb.start + consumed }

-- `copy(buf, bs)` over the front of a buffer that is at least as long.
abbrev pub overwrite : Bytes → Bytes → Bytes
overwrite buf bs = bs ++ drop (length bs) buf

unfoldable pub compact : ReadBuffer → ReadBuffer
unfolding window
compact rb =
    if rb.start == 0 || rb.start == rb.end
    then rb
    else record rb { buf = overwrite rb.buf (window rb); start = 0; end = rb.end - rb.start }

-- The size that a buffer grows to.
unfoldable pub new_length : ℕ → ℕ
new_length n =
    let cur = if n == 0 then default_read_buf_size else n in
    if ltb max_read_buf_size (cur * 2) then max_read_buf_size else cur * 2

-- The part of `ensureWriteSpace` that allocates.
unfoldable pub grow : ReadBuffer → ReadBuffer × Option Err
unfolding window
grow rb =
    if leb (new_length (length rb.buf)) (length rb.buf)
    then (rb, some (text "nntp read buffer exceeded"))
    else (
      record rb {
        buf = overwrite (zeros (new_length (length rb.buf))) (window rb);
        start = 0;
        end = rb.end - rb.start;
      },
      none,
    )

unfoldable pub ensure_write_space : ReadBuffer → ReadBuffer × Option Err
unfolding compact grow
ensure_write_space rb =
    if ltb rb.end (length rb.buf)
    then (rb, none)
    else if ltb 0 rb.start
    then (if ltb (compact rb).end (length (compact rb).buf)
        then (compact rb, none)
        else grow (compact rb))
    else grow rb

-- What a read leaves to a later one, what it delivers, and its error; `none` if nothing arrives.
unfoldable pub conn_read : Option ℕ → List Arrival → ℕ → Option (Conn × Bytes × Option Err)
conn_read deadline [] room = none
conn_read deadline (a ∷ rest) room =
    if leb (length a.bytes) room
    then some (record { deadline = deadline; arrivals = rest }, a.bytes, a.err)
    else some (
      record { deadline = deadline; arrivals = record a { bytes = drop room a.bytes } ∷ rest },
      take room a.bytes,
      none,
    )

abbrev pub same_deadline : Option ℕ → Option ℕ → Bool
same_deadline none none = true
same_deadline (some a) (some b) = a == b
same_deadline _ _ = false

-- The call of `SetReadDeadline`, if the deadline changes.
unfoldable pub set_deadline : ReadBuffer → Conn → Option ℕ → Bool → ReadBuffer × Conn
set_deadline rb c deadline has_deadline =
    if not rb.deadline_set
      || not (rb.last_has_deadline && has_deadline || not rb.last_has_deadline && not has_deadline)
      || has_deadline && not (same_deadline deadline rb.last_deadline)
    then (
      record rb { last_deadline = deadline; last_has_deadline = has_deadline; deadline_set = true },
      record c { deadline = if has_deadline then deadline else none },
    )
    else (rb, c)

-- The outcome of a read: how many bytes came in and its error, or that it never returns.
pub data Read : Type 0 where
  got : ℕ → Option Err → ReadBuffer → Conn → Read
  blocks : Read

-- `copy` of what arrived behind the window.
abbrev pub fill : ReadBuffer → Bytes → ReadBuffer
fill rb bs = record rb {
  buf = take rb.end rb.buf ++ (bs ++ drop (rb.end + length bs) rb.buf);
  end = rb.end + length bs;
}

pub received : ReadBuffer → Option (Conn × Bytes × Option Err) → Read
received rb none = blocks
received rb (some (c, bs, e)) = got (length bs) e (fill rb bs) c

pub read_into : ReadBuffer × Option Err → Conn → Read
unfolding received conn_read
read_into (rb, some e) c = got 0 (some e) rb c
read_into (rb, none) c = received rb (conn_read c.deadline c.arrivals (length rb.buf - rb.end))

unfoldable pub read_more : ReadBuffer → Conn → Option ℕ → Bool → Read
unfolding read_into set_deadline ensure_write_space
read_more rb c deadline has_deadline =
    let s = set_deadline rb c deadline has_deadline in read_into (ensure_write_space s.0) s.1
