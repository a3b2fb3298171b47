-- ===== src/Errors/Tests.antt =====
-- errors.go at concrete inputs.
use nntppool.Base.{◌≡◌, refl, true, some}
use nntppool.Errors.{Err, wrap, sentinel, eof, is, is_connection_death_error}

abbrev lost : Err
lost = wrap "read tcp" (sentinel eof)

lost_dies : is_connection_death_error (some lost) ≡ true
unfolding is_connection_death_error is
lost_dies = refl
