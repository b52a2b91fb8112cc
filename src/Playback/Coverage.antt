-- ===== src/Playback/Coverage.antt =====
-- internal/playback/on_list.go: concatenateSegments loses no segment.
use plux_mtx.Base.{ℕ, ◌+◌, ◌≤◌, ◌⊎◌, inl, inr, Bool-cases, arith, subst, List, [], ◌∷◌}
use plux_mtx.Record.Sorting.{Among}
use plux_mtx.Playback.Listing.{
  Init, ParsedSegment, ListEntry, entry_of, concatenate_rest, concatenate_segments,
  segment_fmp4_can_be_concatenated,
}

-- No segment starts before one that stands before it, nor before `a`.
abbrev pub IsOrdered : ℕ → List ParsedSegment → Type 0
IsOrdered a [] = Unit
IsOrdered a (p ∷ ps) = (a ≤ p.start) × IsOrdered p.start ps

-- One of the entries holds the time.
abbrev pub Holds : ℕ → List ListEntry → Type 0
Holds t [] = ⊥
Holds t (e ∷ es) = ((e.start ≤ t) × (t ≤ e.end)) ⊎ Holds t es

-- The last entry keeps what it holds, as `b` is the start of the segment before.
concatenate_rest-last :
    (t b : ℕ) (last : ListEntry) (init : Init) (ps : List ParsedSegment)
    → last.start ≤ t
    → t ≤ b
    → b ≤ last.end
    → IsOrdered b ps
    → Holds t (concatenate_rest last init ps)
unfolding concatenate_rest
concatenate_rest-last t b last init [] h k l r = inl (h, omega arith)
concatenate_rest-last t b last init (p ∷ ps) h k l r =
    elim (Bool-cases (segment_fmp4_can_be_concatenated init last.end p.init p.start)) [
      | inl e ↦ rw e (
          concatenate_rest-last t p.start (record last { end = p.start + p.duration }) p.init ps h
            (omega (arith, r.0)) (omega arith) r.1)
      | inr e ↦ rw e (inl (h, omega arith))
    ]

concatenate_rest-Holds :
    (b : ℕ) (last : ListEntry) (init : Init) (ps : List ParsedSegment) (p : ParsedSegment)
    → last.start ≤ b
    → IsOrdered b ps
    → Among p ps
    → Holds p.start (concatenate_rest last init ps)
unfolding concatenate_rest entry_of
concatenate_rest-Holds b last init [] p h r m = elim m [ ]
concatenate_rest-Holds b last init (q ∷ ps) p h r m =
    elim (Bool-cases (segment_fmp4_can_be_concatenated init last.end q.init q.start)) [
      | inl e ↦
          let next : ListEntry = record last { end = q.start + q.duration } in
          rw e (elim m [
            | inl same ↦
                subst (λ (x : ParsedSegment). Holds x.start (concatenate_rest next q.init ps)) same
                  (concatenate_rest-last q.start q.start next q.init ps (omega (arith, h, r.0))
                    (omega arith) (omega arith) r.1)
            | inr n ↦ concatenate_rest-Holds q.start next q.init ps p (omega (arith, h, r.0)) r.1 n
          ])
      | inr e ↦
          let next : ListEntry = entry_of q in
          rw e (
            inr (elim m [
              | inl same ↦
                  subst (λ (x : ParsedSegment). Holds x.start (concatenate_rest next q.init ps))
                    same
                    (concatenate_rest-last q.start q.start next q.init ps (omega arith)
                      (omega arith) (omega arith) r.1)
              | inr n ↦ concatenate_rest-Holds q.start next q.init ps p (omega arith) r.1 n
            ]))
    ]

-- Of segments in the order of their starts, each starts within one of the entries.
pub concatenate_segments-Holds :
    (ps : List ParsedSegment) (p : ParsedSegment)
    → IsOrdered 0 ps
    → Among p ps
    → Holds p.start (concatenate_segments ps)
unfolding concatenate_segments entry_of
concatenate_segments-Holds [] p h m = elim m [ ]
concatenate_segments-Holds (q ∷ ps) p h (inl same) =
    subst (λ (x : ParsedSegment). Holds x.start (concatenate_rest (entry_of q) q.init ps)) same
      (concatenate_rest-last q.start q.start (entry_of q) q.init ps (omega arith) (omega arith)
        (omega arith) h.1)
concatenate_segments-Holds (q ∷ ps) p h (inr m) =
    concatenate_rest-Holds q.start (entry_of q) q.init ps p (omega arith) h.1 m
