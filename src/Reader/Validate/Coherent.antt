-- ===== src/Reader/Validate/Coherent.antt =====
-- reader.go: what `validateBody` accepts, as a statement about the response.
use nntppool.Base.{◌≡◌, ◌≢◌, ◌↔◌, ◌⊎◌, inl, inr, true, false, none, arith, [], Bool-cases}
use nntppool.Base.Int.{pos, ◌≤ℤ◌}
use nntppool.Reader.{yenc, NntpResponse}
use nntppool.Reader.Validate.{
  part_end, complete_file, check_framing, check_size, check_trailer, applicable_crc, accept,
  validate_body,
}

-- What a body has to satisfy, as a statement.
pub record IsCoherent (r : NntpResponse) : Type 0 where
  pub framed : (r.format ≡ yenc) × (r.has_begin ≡ true) × (r.has_end ≡ true) × (r.header_err ≡ none)
  pub named : r.yenc_meta.file_name ≢ []
  pub natural :
      (pos 0 ≤ℤ r.yenc_meta.file_size)
      × (pos 0 ≤ℤ r.yenc_meta.part_size)
      × (pos 0 ≤ℤ r.yenc_meta.part_begin)
  pub trailer : r.end_size ≡ pos r.bytes_decoded
  pub single :
      r.yenc_meta.part ≤ℤ pos 0
      → (r.has_part ≡ false) × (r.yenc_meta.file_size ≡ pos r.bytes_decoded)
  pub numbered :
      pos 1 ≤ℤ r.yenc_meta.part
      → (r.has_part ≡ true)
        × (r.yenc_meta.part ≤ℤ r.yenc_meta.total)
        × (r.yenc_meta.part_size ≡ pos r.bytes_decoded)
        × (part_end r.yenc_meta ≤ℤ r.yenc_meta.file_size)
        × ((r.yenc_meta.part ≡ r.yenc_meta.total) ↔ (part_end r.yenc_meta ≡ r.yenc_meta.file_size))
  pub part_checked : r.has_part_crc ≡ true → r.crc ≡ r.part_crc
  pub file_checked : r.has_file_crc ≡ true → complete_file r ≡ true → r.crc ≡ r.file_crc

framing_none :
    (r : NntpResponse)
    → check_framing r ≡ none
    → ((r.format ≡ yenc) × (r.has_begin ≡ true) × (r.has_end ≡ true) × (r.header_err ≡ none))
      × (r.yenc_meta.file_name ≢ [])
      × ((pos 0 ≤ℤ r.yenc_meta.file_size)
          × (pos 0 ≤ℤ r.yenc_meta.part_size)
          × (pos 0 ≤ℤ r.yenc_meta.part_begin))
      × (r.has_part ≡ true → pos 1 ≤ℤ r.yenc_meta.part)
unfolding check_framing
framing_none r h = ground arith

size_none :
    (r : NntpResponse)
    → check_size r ≡ none
    → (r.yenc_meta.part ≤ℤ pos 0 → r.yenc_meta.file_size ≡ pos r.bytes_decoded)
      × (pos 1 ≤ℤ r.yenc_meta.part
          → (r.has_part ≡ true)
            × (r.yenc_meta.part ≤ℤ r.yenc_meta.total)
            × (r.yenc_meta.part_size ≡ pos r.bytes_decoded)
            × (part_end r.yenc_meta ≤ℤ r.yenc_meta.file_size)
            × ((r.yenc_meta.part ≡ r.yenc_meta.total)
                ↔ (part_end r.yenc_meta ≡ r.yenc_meta.file_size)))
unfolding check_size
size_none r h = (
  ground arith,
  λ h'. (
    ground arith,
    ground arith,
    ground arith,
    ground arith,
    (λ e. ground arith, λ e. ground arith),
  ),
)

trailer_none :
    (r : NntpResponse)
    → check_trailer r ≡ none
    → (r.end_size ≡ pos r.bytes_decoded)
      × (r.has_part_crc ≡ true → r.crc ≡ r.part_crc)
      × (r.has_file_crc ≡ true → complete_file r ≡ true → r.crc ≡ r.file_crc)
unfolding check_trailer
trailer_none r h = ground arith

framing_ok : (r : NntpResponse) → IsCoherent r → check_framing r ≡ none
unfolding check_framing
framing_ok r c = ground arith

size_ok : (r : NntpResponse) → IsCoherent r → check_size r ≡ none
unfolding check_size
size_ok r c = ground arith

trailer_ok : (r : NntpResponse) → IsCoherent r → check_trailer r ≡ none
unfolding check_trailer
trailer_ok r c = ground arith

coherent :
    (r : NntpResponse)
    → ((r.format ≡ yenc) × (r.has_begin ≡ true) × (r.has_end ≡ true) × (r.header_err ≡ none))
      × (r.yenc_meta.file_name ≢ [])
      × ((pos 0 ≤ℤ r.yenc_meta.file_size)
          × (pos 0 ≤ℤ r.yenc_meta.part_size)
          × (pos 0 ≤ℤ r.yenc_meta.part_begin))
      × (r.has_part ≡ true → pos 1 ≤ℤ r.yenc_meta.part)
    → (r.yenc_meta.part ≤ℤ pos 0 → r.yenc_meta.file_size ≡ pos r.bytes_decoded)
      × (pos 1 ≤ℤ r.yenc_meta.part
          → (r.has_part ≡ true)
            × (r.yenc_meta.part ≤ℤ r.yenc_meta.total)
            × (r.yenc_meta.part_size ≡ pos r.bytes_decoded)
            × (part_end r.yenc_meta ≤ℤ r.yenc_meta.file_size)
            × ((r.yenc_meta.part ≡ r.yenc_meta.total)
                ↔ (part_end r.yenc_meta ≡ r.yenc_meta.file_size)))
    → (r.end_size ≡ pos r.bytes_decoded)
      × (r.has_part_crc ≡ true → r.crc ≡ r.part_crc)
      × (r.has_file_crc ≡ true → complete_file r ≡ true → r.crc ≡ r.file_crc)
    → IsCoherent r
coherent r f z t = record {
  framed = f.0;
  named = f.1;
  natural = f.2;
  trailer = t.0;
  single = λ h. (unnumbered h, z.0 h);
  numbered = z.1;
  part_checked = t.1;
  file_checked = t.2;
}
  where
    unnumbered : r.yenc_meta.part ≤ℤ pos 0 → r.has_part ≡ false
    unnumbered h = elim (Bool-cases r.has_part) [
      | inl e ↦ absurd (omega (arith, f.3 e, h))
      | inr e ↦ e
    ]

-- A 222 response is accepted exactly if it is coherent: complete yEnc framing, a name, sizes that
-- agree with the decoded bytes and with the part's place in the file, and the checksums that apply.
pub validate_body_iff :
    (r : NntpResponse) → r.status_code ≡ pos 222 → ((validate_body r).0 ≡ none) ↔ IsCoherent r
unfolding validate_body accept
validate_body_iff r s = (to, from)
  where
    to : (validate_body r).0 ≡ none → IsCoherent r
    to h =
        let f : check_framing r ≡ none = ground arith in
        let z : check_size r ≡ none = ground arith in
        let t : check_trailer r ≡ none = ground arith in
        coherent r (framing_none r f) (size_none r z) (trailer_none r t)

    from : IsCoherent r → (validate_body r).0 ≡ none
    from c = ground (arith, framing_ok r c, size_ok r c, trailer_ok r c)

-- What an accepted body tells its caller of checksums: one is reported exactly if the trailer had
-- the part's, or had the file's and the body is the whole file; and what is reported matches.
pub validate_body-crc :
    (r : NntpResponse)
    → r.status_code ≡ pos 222
    → (validate_body r).0 ≡ none
    → let r' = (validate_body r).1 in
      ((r'.has_crc ≡ true)
        ↔ ((r.has_part_crc ≡ true) ⊎ ((r.has_file_crc ≡ true) × (complete_file r ≡ true))))
      × (r'.has_crc ≡ true → r'.crc ≡ r'.expected_crc)
unfolding validate_body accept applicable_crc
validate_body-crc r s h =
    let f : check_framing r ≡ none = ground arith in
    let z : check_size r ≡ none = ground arith in
    let t : check_trailer r ≡ none = ground arith in
    let checked = trailer_none r t in ((λ c. ground arith, λ c. ground arith), λ c. ground arith)
