-- ===== src/ReadBuffer/Window.antt =====
-- readBuffer.go: what each operation does to the bytes that are read and not yet decoded.
use nntppool.Base.{
  ◌||◌, ℕ, ◌+◌, ◌-◌, ◌≤◌, ◌<◌, ◌≡◌, ◌≢◌, refl, sym, ap, ◌∙◌, ◌⊎◌, inl, inr, true, none, [], ◌++◌,
  arith, length, length-append, take, drop, length-take, length-drop, take-append, drop-append,
  drop-drop, drop-take, Bool-cases, Bytes, ltb, leb, ◌==◌,
}
use mathlib.Core.List.{append_assoc}
use nntppool.ReadBuffer.{
  max_read_buf_size, default_read_buf_size, ReadBuffer, zeros, length-zeros, init, window, advance,
  overwrite, compact, new_length, grow, ensure_write_space, fill,
}

-- The window lies in the buffer, an empty one at its front, and the buffer does not outgrow its limit.
pub record IsValid (rb : ReadBuffer) : Type 0 where
  pub ordered : rb.start ≤ rb.end
  pub reset : rb.start ≡ rb.end → rb.start ≡ 0
  pub inside : rb.end ≤ length rb.buf
  pub limited : length rb.buf ≤ max_read_buf_size

length-window : (rb : ReadBuffer) → IsValid rb → length (window rb) ≡ rb.end - rb.start
unfolding window
length-window rb v = omega (
  arith,
  v.ordered,
  v.inside,
  length-take (rb.end - rb.start) (drop rb.start rb.buf),
  length-drop rb.start rb.buf,
)

-- The bytes of a buffer from `s` to `e`.
abbrev slice : Bytes → ℕ → ℕ → Bytes
slice buf s e = take (e - s) (drop s buf)

slice-front : (w rest : Bytes) (n : ℕ) → n ≡ length w → slice (w ++ rest) 0 n ≡ w
slice-front w rest n h = take-append w rest (n - 0) (omega (arith, h))

slice-fill :
    (buf bs rest : Bytes) (s e : ℕ)
    → s ≤ e
    → e ≤ length buf
    → slice (take e buf ++ (bs ++ rest)) s (e + length bs) ≡ slice buf s e ++ bs
slice-fill buf bs rest s e h k =
    ap (take (e + length bs - s)) (
      drop-append (take e buf) (bs ++ rest) s (omega (arith, h, k, length-take e buf))
      ∙ ap (λ w. w ++ (bs ++ rest)) (drop-take buf s e)
      ∙ sym (append_assoc (slice buf s e) bs rest))
    ∙ take-append (slice buf s e ++ bs) rest (e + length bs - s) (
        omega (
          arith,
          h,
          k,
          length-append (slice buf s e) bs,
          length-take (e - s) (drop s buf),
          length-drop s buf,
        ))

slice-drop : (buf : Bytes) (s e n : ℕ) → slice buf (s + n) e ≡ drop n (slice buf s e)
slice-drop buf s e n =
    ap (take (e - (s + n))) (sym (drop-drop buf n s))
    ∙ ap (λ k. take k (drop n (drop s buf))) {x = e - (s + n)} {y = e - s - n} (omega arith)
    ∙ sym (drop-take (drop s buf) n (e - s))

slice-none : (buf : Bytes) (s e : ℕ) → e ≤ s → slice buf s e ≡ []
slice-none buf s e h = ap (λ k. take k (drop s buf)) {x = e - s} {y = 0} (omega arith)

zeros-IsValid :
    (rb : ReadBuffer)
    → IsValid rb
    → (length rb.buf == 0) ≡ true
    → IsValid (record rb { buf = zeros default_read_buf_size })
zeros-IsValid rb v e = ground (arith, length-zeros default_read_buf_size)

pub init-window :
    (rb : ReadBuffer) → IsValid rb → IsValid (init rb) × (window (init rb) ≡ window rb)
unfolding init window
init-window rb v = elim (Bool-cases (length rb.buf == 0)) [
  | inl e ↦ rw e (
    zeros-IsValid rb v e,
    slice-none (zeros default_read_buf_size) rb.start rb.end (ground arith)
        ∙ sym (slice-none rb.buf rb.start rb.end (ground arith)),
  )
  | inr e ↦ rw e (v, refl)
]

pub advance-window :
    (rb : ReadBuffer) (n : ℕ)
    → IsValid rb
    → IsValid (advance rb n) × (window (advance rb n) ≡ drop n (window rb))
unfolding advance window
advance-window rb n v = elim (Bool-cases (n == 0)) [
  | inl e ↦ rw e (v, ap (λ k. drop k (window rb)) {x = 0} {y = n} (ground arith))
  | inr e ↦ elim (Bool-cases (leb rb.end (rb.start + n))) [
    | inl f ↦
        rw (e, f)
          (
            ground arith,
            sym (slice-none rb.buf (rb.start + n) rb.end (ground arith))
                ∙ slice-drop rb.buf rb.start rb.end n,
          )
    | inr f ↦ rw (e, f) (ground arith, slice-drop rb.buf rb.start rb.end n)
  ]
]

-- A window moved to the front.
moved :
    (rb : ReadBuffer) (buf : Bytes)
    → IsValid rb
    → rb.end - rb.start ≤ length buf
    → length buf ≤ max_read_buf_size
    → let rb' : ReadBuffer = record rb {
      buf = overwrite buf (window rb);
      start = 0;
      end = rb.end - rb.start;
    } in
      IsValid rb' × (window rb' ≡ window rb) × (length rb'.buf ≡ length buf)
unfolding window
moved rb buf v h l =
    let w = length-window rb v in
    let n = length-append (window rb) (drop (length (window rb)) buf) in
    let d = length-drop (length (window rb)) buf in
    (
      record {
        ordered = omega arith;
        reset = λ e. refl;
        inside = omega (arith, w, n, d, h);
        limited = omega (arith, w, n, d, h, l);
      },
      slice-front (window rb) (drop (length (window rb)) buf) (rb.end - rb.start) (sym w),
      omega (arith, w, n, d, h),
    )

pub compact-window :
    (rb : ReadBuffer)
    → IsValid rb
    → IsValid (compact rb)
      × (window (compact rb) ≡ window rb)
      × (length (compact rb).buf ≡ length rb.buf)
unfolding compact
compact-window rb v = elim (Bool-cases (rb.start == 0 || rb.start == rb.end)) [
  | inl e ↦ rw e (v, refl, refl)
  | inr e ↦ rw e (moved rb rb.buf v (omega (arith, v.inside)) v.limited)
]

new_length_lem :
    (n : ℕ)
    → n ≤ max_read_buf_size
    → (new_length n ≤ max_read_buf_size) × (leb (new_length n) n ≡ true → n ≡ max_read_buf_size)
unfolding new_length
new_length_lem n h = (ground arith, λ e. ground arith)

grow-window :
    (rb : ReadBuffer)
    → IsValid rb
    → rb.end ≡ length rb.buf
    → rb.start ≡ 0
    → IsValid (grow rb).0
      × (window (grow rb).0 ≡ window rb)
      × ((((grow rb).1 ≡ none) × ((grow rb).0.end < length (grow rb).0.buf))
          ⊎ (((grow rb).1 ≢ none) × (length (window rb) ≡ max_read_buf_size)))
unfolding grow
grow-window rb v h z =
    let n = new_length (length rb.buf) in
    let (l, m) = new_length_lem (length rb.buf) v.limited in
    elim (Bool-cases (leb (new_length (length rb.buf)) (length rb.buf))) [
      | inl e ↦ rw e (v, refl, inr (λ q. cc, omega (arith, m e, h, z, length-window rb v)))
      | inr e ↦
          let k : length rb.buf < new_length (length rb.buf) = ground arith in
          let (w, q, len) =
            moved rb (zeros (new_length (length rb.buf))) v (omega (arith, k, h, z, length-zeros n))
              (omega (arith, l, length-zeros n)) in
          rw e (w, q, inl (refl, omega (arith, k, h, z, len, length-zeros n)))
    ]

compact-start :
    (rb : ReadBuffer)
    → IsValid rb
    → 0 < rb.start
    → ((compact rb).start ≡ 0) × ((compact rb).end ≤ length (compact rb).buf)
unfolding compact
compact-start rb v h = (ground arith, (compact-window rb v).0.inside)

-- On a well-formed buffer, making room keeps it so and keeps the window; afterwards there is room, or
-- it fails and the window fills the largest buffer.
pub ensure_write_space-window :
    (rb : ReadBuffer)
    → IsValid rb
    → let r = ensure_write_space rb in
      IsValid r.0
      × (window r.0 ≡ window rb)
      × (((r.1 ≡ none) × (r.0.end < length r.0.buf))
          ⊎ ((r.1 ≢ none) × (length (window rb) ≡ max_read_buf_size)))
unfolding ensure_write_space
ensure_write_space-window rb v = elim (Bool-cases (ltb rb.end (length rb.buf))) [
  | inl e ↦ rw e (v, refl, inl (refl, ground arith))
  | inr e ↦ elim (Bool-cases (ltb 0 rb.start)) [
    | inr f ↦ rw (e, f) (grow-window rb v (ground arith) (ground arith))
    | inl f ↦
        let (w, q, len) = compact-window rb v in
        let (z, k) = compact-start rb v (ground arith) in
        elim (Bool-cases (ltb (compact rb).end (length (compact rb).buf))) [
          | inl g ↦ rw (e, f, g) (w, q, inl (refl, ground arith))
          | inr g ↦
              let (w', q', r) = grow-window (compact rb) w (ground arith) z in
              rw (e, f, g)
                (w', q' ∙ q, elim r [ inl a ↦ inl a | inr (a, b) ↦ inr (a, ap length (sym q) ∙ b) ])
        ]
  ]
]

pub fill-window :
    (rb : ReadBuffer) (bs : Bytes)
    → IsValid rb
    → rb.end + length bs ≤ length rb.buf
    → IsValid (fill rb bs) × (window (fill rb bs) ≡ window rb ++ bs)
unfolding window
fill-window rb bs v h = (
  record {
    ordered = omega (arith, v.ordered);
    reset = λ e. omega (arith, v.reset, v.ordered, e);
    inside = omega (arith, n);
    limited = omega (arith, n, v.limited);
  },
  slice-fill rb.buf bs (drop (rb.end + length bs) rb.buf) rb.start rb.end v.ordered v.inside,
)
  where
    n : length (take rb.end rb.buf ++ (bs ++ drop (rb.end + length bs) rb.buf)) ≡ length rb.buf
    n = omega (
      arith,
      h,
      v.inside,
      length-append (take rb.end rb.buf) (bs ++ drop (rb.end + length bs) rb.buf),
      length-append bs (drop (rb.end + length bs) rb.buf),
      length-take rb.end rb.buf,
      length-drop (rb.end + length bs) rb.buf,
    )
