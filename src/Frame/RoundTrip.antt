-- ===== src/Frame/RoundTrip.antt =====
-- A frame that was written decodes to its payload.
use diskqueue.Base.{
  ℕ, zero, suc, ◌+◌, ◌-◌, ◌^◌, ◌≤◌, ◌<◌, min, ◌≡◌, ap, ◌∙◌, true, some, List, [], ◌∷◌, ◌++◌, arith,
  append_assoc, length, le_bytes, from_le, from_le-le_bytes, take, drop, drop-length_append,
  take-length_append, drop-drop,
}
use diskqueue.Frame.{
  framed_len, put_uvarint, uvarint, fits_within, fits_in_record, frame, frame_header, judge, cut,
  checksum_size, decode, max_int, max_varint_len64,
}
use diskqueue.Frame.Uvarint.{uvarint_len-eq, length-put_uvarint, uvarint-put_uvarint}
use diskqueue.Frame.Bounds.{fits_within_iff}

take-append_ge :
    (k : ℕ) (xs ys : List ℕ) → length xs ≤ k → take k (xs ++ ys) ≡ xs ++ take (k - length xs) ys
take-append_ge k [] ys h = let e : k ≡ k - 0 = omega arith in ap (λ n. take n ys) e
take-append_ge zero (x ∷ xs) ys h = absurd (omega arith)
take-append_ge (suc k) (x ∷ xs) ys h =
    let e : k - length xs ≡ suc k - suc (length xs) = omega arith in
    ap (◌∷◌ x) (take-append_ge k xs ys (omega arith) ∙ ap (λ n. xs ++ take n ys) e)

module _ (sum64 : List ℕ → ℕ) (payload rest : List ℕ) (avail : ℕ) where
  frame_header-frame :
      length payload < 2 ^ 63
      → framed_len (length payload) ≤ avail
      → avail < 2 ^ 63
      → frame_header (frame sum64 payload ++ rest) avail
        ≡ some (length (put_uvarint (length payload)), framed_len (length payload))
  unfolding frame_header frame fits_in_record framed_len
  frame_header-frame hl fits ha =
      let body = payload ++ le_bytes 8 (sum64 payload) in
      let pre = put_uvarint (length payload) in
      let k = min max_varint_len64 avail in
      let b = length-put_uvarint (length payload) (omega arith) in
      let u = uvarint_len-eq (length payload) in
      let tail = take (k - length pre) (body ++ rest) in
      let e : take k ((pre ++ body) ++ rest) ≡ pre ++ tail =
        rw (append_assoc pre body rest)
          (take-append_ge k pre (body ++ rest) (omega (arith, b, u, fits))) in
      let fit : fits_within (length payload) (length pre) avail max_int ≡ true =
        (fits_within_iff (length payload) (length pre) avail max_int b.1 (omega arith) ha).1
          (omega (arith, b, u, fits), omega (arith, b, u, fits, ha)) in
      ap (λ bs. judge avail (uvarint bs)) e
      ∙ ap (judge avail) (uvarint-put_uvarint (length payload) tail (omega arith))
      ∙ (rw fit (ground (arith, u)))

  -- The payload behind the prefix.
  payload_part :
      take
        (length payload)
        (drop (length (put_uvarint (length payload))) (frame sum64 payload ++ rest))
      ≡ payload
  unfolding frame
  payload_part =
      let pre = put_uvarint (length payload) in
      let sum = le_bytes 8 (sum64 payload) in
      simp (
        append_assoc pre (payload ++ sum) rest,
        drop-length_append,
        append_assoc payload sum rest,
        take-length_append,
      )

  -- The checksum behind the payload.
  sum_part :
      sum64 payload < 2 ^ 64
      → from_le (
          take 8 (
            drop
              (length (put_uvarint (length payload)) + length payload)
              (frame sum64 payload ++ rest)))
        ≡ sum64 payload
  unfolding frame
  sum_part hs =
      let pre = put_uvarint (length payload) in
      let sum = le_bytes 8 (sum64 payload) in
      rw (← drop-drop (length payload) (length pre) ((pre ++ (payload ++ sum)) ++ rest)) (
        simp
          (
            append_assoc pre (payload ++ sum) rest,
            drop-length_append,
            append_assoc payload sum rest,
          )
          (from_le-le_bytes 8 (sum64 payload) hs))

  -- What `writeRecord` wrote, `recordAt` decodes to the payload, its checksum and the frame's size,
  -- whatever follows the record, for a checksum function with 64-bit values.
  pub decode-frame :
      length payload < 2 ^ 63
      → sum64 payload < 2 ^ 64
      → framed_len (length payload) ≤ avail
      → avail < 2 ^ 63
      → decode (frame sum64 payload ++ rest) avail
        ≡ some (payload, sum64 payload, framed_len (length payload))
  unfolding decode
  decode-frame hl hs fits ha =
      let pre = length (put_uvarint (length payload)) in
      let u = uvarint_len-eq (length payload) in
      let l : framed_len (length payload) - pre - checksum_size ≡ length payload =
        unfold framed_len in omega (arith, u) in
      ap (cut (frame sum64 payload ++ rest)) (frame_header-frame hl fits ha)
      ∙ (rw l (rw (payload_part, sum_part hs)))
