-- ===== src/Backfill/Segment/Merge.antt =====
-- `appendCoverageSegments` joins runs and keeps what they cover.
use scraper.Base.{
  ℕ, ◌+◌, ◌*◌, ◌≡◌, inl, inr, true, List, [], ◌∷◌, ◌++◌, arith, All, Bool-cases, append-nil,
  append_assoc,
}
use scraper.Backfill.Segment.{
  CoverageSegment, can_merge_coverage_segments, append_coverage_segment, append_coverage_segments,
}
use scraper.Backfill.Segment.Runs.{covered, covered_all, IsRun, instants-add}

abbrev joined : CoverageSegment → CoverageSegment → CoverageSegment
joined a b = record a { end_at = b.end_at; row_count = a.row_count + b.row_count }

ends_meet : (a b : CoverageSegment) → can_merge_coverage_segments a b ≡ true → a.end_at ≡ b.start_at
unfolding can_merge_coverage_segments
ends_meet a b h = ground arith

module _ (step : ℕ) where
  covered-joined :
      (a b : CoverageSegment)
      → IsRun step a
      → a.end_at ≡ b.start_at
      → covered step (joined a b) ≡ covered step a ++ covered step b
  unfolding covered
  covered-joined a b r e =
      let e' : b.start_at ≡ a.start_at + a.row_count * step = omega (arith, r.exact_end) in
      rw e' (instants-add step a.start_at a.row_count b.row_count)

  joined-IsRun :
      (a b : CoverageSegment)
      → IsRun step a
      → IsRun step b
      → a.end_at ≡ b.start_at
      → IsRun step (joined a b)
  joined-IsRun a b r s e = omega arith

  append_coverage_segment-keeps :
      (dst : List CoverageSegment) (seg : CoverageSegment)
      → All (IsRun step) dst
      → IsRun step seg
      → (covered_all step (append_coverage_segment dst seg)
          ≡ covered_all step dst ++ covered step seg)
        × All (IsRun step) (append_coverage_segment dst seg)
  unfolding append_coverage_segment covered_all
  append_coverage_segment-keeps [] seg h s = (append-nil _, (s, tt))
  append_coverage_segment-keeps (a ∷ []) seg h s =
      elim (Bool-cases (can_merge_coverage_segments a seg)) [
        | inl joins ↦
            let e = ends_meet a seg joins in
            rw joins
              (simp (append-nil, covered-joined a seg h.0 e), (joined-IsRun a seg h.0 s e, tt))
        | inr apart ↦ rw apart (simp append-nil, (h.0, (s, tt)))
      ]
  append_coverage_segment-keeps (a ∷ b ∷ rest) seg h s =
      let ih = append_coverage_segment-keeps (b ∷ rest) seg h.1 s in
      (simp (ih.0, append_assoc), (h.0, ih.1))

  -- The merged segments are runs that cover what both lists cover, in order.
  pub append_coverage_segments-keeps :
      (dst src : List CoverageSegment)
      → All (IsRun step) dst
      → All (IsRun step) src
      → (covered_all step (append_coverage_segments dst src)
          ≡ covered_all step dst ++ covered_all step src)
        × All (IsRun step) (append_coverage_segments dst src)
  unfolding append_coverage_segments covered_all
  append_coverage_segments-keeps dst [] h k = (simp append-nil, h)
  append_coverage_segments-keeps dst (seg ∷ src) h k =
      let one = append_coverage_segment-keeps dst seg h k.0 in
      let all = append_coverage_segments-keeps (append_coverage_segment dst seg) src one.1 k.1 in
      (simp (all.0, one.0, append_assoc), all.1)
