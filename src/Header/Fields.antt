-- ===== src/Header/Fields.antt =====
-- header.go: what a header update leaves in each field, for the updates that the store makes.
use diskqueue.Base.{
  ℕ, ◌^◌, ◌<◌, ◌≡◌, refl, sym, ap, ◌∙◌, true, false, List, [], ◌∷◌, if◌then◌else◌, ◌==◌, length,
  take, ==_iff, All, bit_and, not,
}
use diskqueue.Header.Layout.{
  Field, at_magic, at_commit_cursor, at_write_cursor, at_written_count, at_committed_count,
  at_version, at_flags, at_capacity, at_seg_size, at_checksum, width, same, get, put, length-put,
  get-put, take-put_checksum,
}
use diskqueue.Header.{
  Modifier, apply_all, header, header_checksum_ok, magic, version, oversized, commit_cursor,
  write_cursor, written_count, committed_count, hdr_capacity, hdr_seg_size, set_commit_cursor,
  set_write_cursor, set_written_count, set_committed_count,
}

-- A 64-byte header.
abbrev pub IsHeader : List ℕ → Type 0
IsHeader h = length h ≡ 64

abbrev pub KeepsLength : Modifier → Type 0
KeepsLength m = (h : List ℕ) → length (m h) ≡ length h

length-apply_all :
    (ms : List Modifier) (h : List ℕ) → All KeepsLength ms → length (apply_all ms h) ≡ length h
length-apply_all [] h k = refl
length-apply_all (m ∷ ms) h k = length-apply_all ms (m h) k.1 ∙ k.0 h

module _ (sum64 : List ℕ → ℕ) where
  -- Whatever was modified, `header` leaves a header whose checksum is right: every update of the
  -- header goes through it, so no update can forget the checksum.
  pub header_checksum_ok-header :
      (ms : List Modifier) (h : List ℕ)
      → IsHeader h
      → All KeepsLength ms
      → ((b : List ℕ) → sum64 b < 2 ^ 64)
      → header_checksum_ok sum64 (header sum64 ms h) ≡ true
  unfolding header_checksum_ok header
  header_checksum_ok-header ms h l k small =
      let h' = apply_all ms h in
      let sum = sum64 (take 56 h') in
      let l' : length h' ≡ 64 = length-apply_all ms h k ∙ l in
      (==_iff _ _).1 (
        get-put at_checksum at_checksum sum h' l' (small (take 56 h'))
        ∙ ap sum64 (sym (take-put_checksum sum h')))

  -- Rebuilding the checksum leaves every other field alone.
  pub get-header :
      (f : Field) (ms : List Modifier) (h : List ℕ)
      → IsHeader h
      → All KeepsLength ms
      → ((b : List ℕ) → sum64 b < 2 ^ 64)
      → same f at_checksum ≡ false
      → get f (header sum64 ms h) ≡ get f (apply_all ms h)
  unfolding header
  get-header f ms h l k small e =
      let h' = apply_all ms h in
      let l' : length h' ≡ 64 = length-apply_all ms h k ∙ l in
      get-put f at_checksum (sum64 (take 56 h')) h' l' (small (take 56 h')) ∙ (rw e)

  pub length-header :
      (ms : List Modifier) (h : List ℕ) → All KeepsLength ms → length (header sum64 ms h) ≡ length h
  unfolding header
  length-header ms h k =
      length-put at_checksum (sum64 (take 56 (apply_all ms h))) (apply_all ms h)
      ∙ length-apply_all ms h k

  module _ (small : (b : List ℕ) → sum64 b < 2 ^ 64) where
    -- Two fields are written: `f` first, then `g`.
    get-header_two :
        (k f g : Field) (v w : ℕ) (h : List ℕ)
        → IsHeader h
        → v < 256 ^ width f
        → w < 256 ^ width g
        → same k at_checksum ≡ false
        → get k (header sum64 (put f v ∷ put g w ∷ []) h)
          ≡ (if same k g then w else if same k f then v else get k h)
    get-header_two k f g v w h l bv bw e =
        get-header k (put f v ∷ put g w ∷ []) h l (length-put f v, (length-put g w, tt)) small e
        ∙ get-put k g w (put f v h) (length-put f v h ∙ l) bw
        ∙ ap (λ r. if same k g then w else r) (get-put k f v h l bv)

    -- Publishing a write cursor and a count, as an append does: both fields read back, all other
    -- fields are as they were, the checksum is right and the header keeps its size.
    pub header_publish :
        (w n : ℕ) (h : List ℕ)
        → IsHeader h
        → w < 2 ^ 64
        → n < 2 ^ 64
        → let h' = header sum64 (set_write_cursor w ∷ set_written_count n ∷ []) h in
          (write_cursor h' ≡ w)
          × (written_count h' ≡ n)
          × (commit_cursor h' ≡ commit_cursor h)
          × (committed_count h' ≡ committed_count h)
          × (magic h' ≡ magic h)
          × (version h' ≡ version h)
          × (oversized h' ≡ oversized h)
          × (hdr_capacity h' ≡ hdr_capacity h)
          × (hdr_seg_size h' ≡ hdr_seg_size h)
          × (header_checksum_ok sum64 h' ≡ true)
          × (length h' ≡ 64)
    header_publish w n h l bw bn =
        let g = λ (k : Field) (e : same k at_checksum ≡ false).
          get-header_two k at_write_cursor at_written_count w n h l bw bn e in
        let ms : List Modifier = set_write_cursor w ∷ set_written_count n ∷ [] in
        let keeps : All KeepsLength ms =
          (length-put at_write_cursor w, (length-put at_written_count n, tt)) in
        (
          g at_write_cursor refl,
          g at_written_count refl,
          g at_commit_cursor refl,
          g at_committed_count refl,
          g at_magic refl,
          g at_version refl,
          ap (λ v. not (bit_and v 1 == 0)) (g at_flags refl),
          g at_capacity refl,
          g at_seg_size refl,
          header_checksum_ok-header ms h l keeps small,
          length-header ms h keeps ∙ l,
        )

    -- Publishing a commit cursor and a count, as a commit does.
    pub header_commit :
        (c n : ℕ) (h : List ℕ)
        → IsHeader h
        → c < 2 ^ 64
        → n < 2 ^ 64
        → let h' = header sum64 (set_commit_cursor c ∷ set_committed_count n ∷ []) h in
          (commit_cursor h' ≡ c)
          × (committed_count h' ≡ n)
          × (write_cursor h' ≡ write_cursor h)
          × (written_count h' ≡ written_count h)
          × (magic h' ≡ magic h)
          × (version h' ≡ version h)
          × (oversized h' ≡ oversized h)
          × (hdr_capacity h' ≡ hdr_capacity h)
          × (hdr_seg_size h' ≡ hdr_seg_size h)
          × (header_checksum_ok sum64 h' ≡ true)
          × (length h' ≡ 64)
    header_commit c n h l bc bn =
        let g = λ (k : Field) (e : same k at_checksum ≡ false).
          get-header_two k at_commit_cursor at_committed_count c n h l bc bn e in
        let ms : List Modifier = set_commit_cursor c ∷ set_committed_count n ∷ [] in
        let keeps : All KeepsLength ms =
          (length-put at_commit_cursor c, (length-put at_committed_count n, tt)) in
        (
          g at_commit_cursor refl,
          g at_committed_count refl,
          g at_write_cursor refl,
          g at_written_count refl,
          g at_magic refl,
          g at_version refl,
          ap (λ v. not (bit_and v 1 == 0)) (g at_flags refl),
          g at_capacity refl,
          g at_seg_size refl,
          header_checksum_ok-header ms h l keeps small,
          length-header ms h keeps ∙ l,
        )
