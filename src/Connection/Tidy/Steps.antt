-- ===== src/Connection/Tidy/Steps.antt =====
-- nntp.go: the steps of a connection keep the requests in hand tidy.
use nntppool.Base.{
  ℕ, ◌≡◌, ◌⊎◌, inl, refl, Bool, true, false, not, Option, none, some, arith, leb, if_both,
}
use nntppool.Errors.{Err}
use nntppool.Connection.{PipeRequest, acquire_inflight, acquire_body}
use nntppool.Connection.Writer.{
  Writer, booting, entering, top, parked, claimed, wanting, draining, Side, Arrival, Offers, Io,
  leave, screen, check_claimed, check_first, is_stale, post_article, hear_probe,
}
use nntppool.Connection.Replies.{
  take_slot, take_body, stop_writer, check, seek_from, wake_urgent, wake_freed, give_up, hear,
  drain, expire,
}
use nntppool.Connection.Tidy.{
  is_new, is_apt, offers_apt, in_hand, is_new?, clash, IsTidy, leave-IsTidy, takes-IsTidy,
  seek-IsTidy, select_normal-IsTidy, admit-IsTidy,
}

-- What holds of a step's result, where the step is enabled.
unfoldable pub Then {ℓ} : {A : Type ℓ} → (A → Type 0) → Option A → Type 0
Then P none = Unit {0}
Then P (some a) = P a

pub Then-some {ℓ} :
    {A B : Type ℓ} (P : B → Type 0) (o : Option A) (f : A → B)
    → ((a : A) → o ≡ some a → P (f a))
    → Then P (elim o [ none ↦ none | some a ↦ some (f a) ])
unfolding Then
Then-some P none f h = tt
Then-some P (some a) f h = h a refl

pub Then-bind {ℓ} :
    {A B : Type ℓ} (P : A → Type 0) (Q : B → Type 0) (o : Option A) (f : A → Option B)
    → Then P o
    → ((a : A) → P a → Then Q (f a))
    → Then Q (elim o [ none ↦ none | some a ↦ f a ])
unfolding Then
Then-bind P Q none f h k = tt
Then-bind P Q (some a) f h k = k a h

pub Then-and {ℓ} :
    {A : Type ℓ} (P Q : A → Type 0) (o : Option A) → Then P o → Then Q o → Then (λ a. P a × Q a) o
unfolding Then
Then-and P Q none p q = tt
Then-and P Q (some a) p q = (p, q)

-- A request that is not put off with another one.
screen-IsTidy :
    (io : Io) (boot : Bool) (req : PipeRequest) (s : Side)
    → is_new? s.deferred_normal ≡ true
    → is_new req ≡ true
    → (boot ≡ true) ⊎ (clash (claimed req) s.deferred_normal ≡ false)
    → IsTidy (screen io boot req s)
unfolding screen in_hand clash
screen-IsTidy io boot req s d e c =
    ground (arith, d, e, c, admit-IsTidy io boot req s.pipe s d (inl e))

-- The steps of the writer, from where it is.
module _ (s : Side) (h : IsTidy s) where
  pub take_slot-IsTidy :
      (io : Io) (flushed : Bool) (w : Writer)
      → s.writer ≡ w
      → Then IsTidy (take_slot io flushed s w)
  unfolding take_slot Then in_hand clash
  take_slot-IsTidy io flushed top e =
      if_both (Then IsTidy) (not flushed) (leave-IsTidy none s.pipe s) (
        Then-some IsTidy (acquire_inflight s.pipe) _
          (λ p e. record { hand = refl; put_off = h.put_off; apart = refl }))
  take_slot-IsTidy io flushed (entering req) e =
      Then-some IsTidy (acquire_inflight s.pipe) _ (λ p f.
        screen-IsTidy io true req (record s { pipe = p }) h.put_off (ground (arith, h)) (inl refl))
  take_slot-IsTidy io flushed _ e = tt

  pub take_body-IsTidy : (io : Io) (w : Writer) → s.writer ≡ w → Then IsTidy (take_body io s w)
  unfolding take_body Then in_hand
  take_body-IsTidy io (wanting boot req) e = Then-some IsTidy (acquire_body s.pipe) _ (λ p f.
      admit-IsTidy io boot (record req { held_body = true }) p s h.put_off (ground (arith, h)))
  take_body-IsTidy io _ e = tt

  pub stop_writer-IsTidy : (w : Writer) → Then IsTidy (stop_writer s w)
  unfolding stop_writer Then leave in_hand clash
  stop_writer-IsTidy w = ground arith

  pub drain-IsTidy : (w : Writer) → Then IsTidy (drain s w)
  unfolding drain Then leave in_hand clash
  drain-IsTidy (draining n) =
      if_both (Then IsTidy) (leb s.pipe.depth n) (leave-IsTidy none s.pipe s) (
        Then-some IsTidy (acquire_inflight s.pipe) _
          (λ p e. record { hand = refl; put_off = h.put_off; apart = refl }))
  drain-IsTidy _ = tt

  pub expire-IsTidy : (w : Writer) → Then IsTidy (expire s w)
  unfolding expire Then
  expire-IsTidy (draining n) = leave-IsTidy none s.pipe s
  expire-IsTidy _ = tt

  pub check-IsTidy :
      (io : Io) (cancelled : Option Err) (w : Writer)
      → s.writer ≡ w
      → Then IsTidy (check io cancelled s w)
  unfolding check Then check_first check_claimed in_hand clash leave
  check-IsTidy io cancelled (booting req) e = ground (arith, h)
  check-IsTidy io (some c) (claimed req) e = ground (arith, h)
  check-IsTidy io none (claimed req) e =
      if_both IsTidy (is_stale s.created_at req) (leave-IsTidy none _ s)
        (screen-IsTidy io false req s h.put_off (ground (arith, h)) (ground (arith, h)))
  check-IsTidy io cancelled _ e = tt

  pub seek_from-IsTidy :
      (o : Offers) (io : Io) (w : Writer) → offers_apt o ≡ true → Then IsTidy (seek_from o io s w)
  unfolding seek_from Then
  seek_from-IsTidy o io w a = ground (arith, seek-IsTidy o io s)

  pub wake_urgent-IsTidy :
      (a : Arrival) (w : Writer) → is_apt true a ≡ true → Then IsTidy (wake_urgent a s w)
  unfolding wake_urgent Then
  wake_urgent-IsTidy a parked apt = takes-IsTidy a s (ground arith) h.put_off (inl apt)
  wake_urgent-IsTidy a _ apt = tt

  pub wake_freed-IsTidy :
      (o : Offers) (io : Io) (w : Writer) → offers_apt o ≡ true → Then IsTidy (wake_freed o io s w)
  unfolding wake_freed Then
  wake_freed-IsTidy o io w a = ground (
    arith,
    select_normal-IsTidy o io (record s { pipe = record s.pipe { background_stat_freed = false } }),
  )

  pub give_up-IsTidy : (e : Err) (w : Writer) → Then IsTidy (give_up e s w)
  unfolding give_up Then in_hand clash
  give_up-IsTidy e w = ground (arith, h)

  pub hear-IsTidy : (code : ℕ) (io : Io) (w : Writer) → Then IsTidy (hear code io s w)
  unfolding hear Then post_article hear_probe in_hand clash leave
  hear-IsTidy code io w = ground (arith, h)
