-- ===== src/Playback/Bounds.antt =====
-- internal/playback/on_list.go: the entries lie between the start and the end that are asked for.
use plux_mtx.Base.{
  ℕ, ◌+◌, ◌≤◌, ◌<◌, String, true, ◌≡◌, refl, sym, subst, ap, ◌∙◌, ltb, leb→le, Bool-cases, inl, inr,
  arith, All, Yields, Option, some, none, List, [], ◌∷◌,
}
use plux_mtx.Conf.PathConf.{fmp4}
use plux_mtx.Record.Segments.{Segment, segments_found, starts_by}
use plux_mtx.Record.Sorting.{Among, IsSorted}
use plux_mtx.Record.Window.{but_first, find_segments-IsAnswer}
use plux_mtx.Playback.Listing.{
  Init, ParsedSegment, ListEntry, entry_of, concatenate_rest, concatenate_segments, with_header,
  cons_parsed, parse_segment, parse_segments, segment_fmp4_can_be_concatenated, trim_first,
  trim_last, answer_entries, answer_parsed, answer_segments, on_list, listed, not_found_err,
}

-- The entry does not end before it starts, and its start satisfies `P`.
abbrev IsEntry : (ℕ → Type 0) → ListEntry → Type 0
IsEntry P e = P e.start × (e.start ≤ e.end)

-- The starts satisfy `P` and do not go back, from `a` on.
abbrev IsRising : (ℕ → Type 0) → ℕ → List ParsedSegment → Type 0
IsRising P a [] = Unit
IsRising P a (p ∷ ps) = (a ≤ p.start) × P p.start × IsRising P p.start ps

-- The first entry starts at `a`, and the others satisfy `P`.
abbrev StartsAt : (ℕ → Type 0) → ℕ → List ListEntry → Type 0
StartsAt P a [] = ⊥
StartsAt P a (e ∷ es) = (e.start ≡ a) × (e.start ≤ e.end) × All (IsEntry P) es

IsRising-lower :
    (P : ℕ → Type 0) (a b : ℕ) (ps : List ParsedSegment) → a ≤ b → IsRising P b ps → IsRising P a ps
IsRising-lower P a b [] h r = tt
IsRising-lower P a b (p ∷ ps) h r = (omega (arith, r.0), r.1, r.2)

StartsAt-All :
    (P : ℕ → Type 0) (a : ℕ) (es : List ListEntry) → P a → StartsAt P a es → All (IsEntry P) es
StartsAt-All P a [] h s = tt
StartsAt-All P a (e ∷ es) h s = ((subst P (sym s.0) h, s.1), s.2)

concatenate_rest-StartsAt :
    (P : ℕ → Type 0) (last : ListEntry) (init : Init) (ps : List ParsedSegment)
    → last.start ≤ last.end
    → IsRising P last.start ps
    → StartsAt P last.start (concatenate_rest last init ps)
unfolding concatenate_rest entry_of
concatenate_rest-StartsAt P last init [] h r = (refl, h, tt)
concatenate_rest-StartsAt P last init (p ∷ ps) h r =
    elim (Bool-cases (segment_fmp4_can_be_concatenated init last.end p.init p.start)) [
      | inl e ↦ rw e (
          concatenate_rest-StartsAt P (record last { end = p.start + p.duration }) p.init ps
            (omega (arith, r.0)) (IsRising-lower P last.start p.start ps r.0 r.2))
      | inr e ↦ rw e (
        refl,
        h,
        StartsAt-All P p.start (concatenate_rest (entry_of p) p.init ps) r.1
            (concatenate_rest-StartsAt P (entry_of p) p.init ps (omega arith) r.2),
      )
    ]

-- What parsing keeps of the segments: their starts.
with_header-start :
    (s : Segment) (o : Option (Init × ℕ)) → Yields (λ p. p.start ≡ s.start) (with_header s o)
unfolding with_header
with_header-start s none = tt
with_header-start s (some (init, duration)) = refl

cons_parsed-IsRising :
    (P : ℕ → Type 0) (a : ℕ) (s : Segment) (o : Option ParsedSegment)
    (rest : Option (List ParsedSegment))
    → a ≤ s.start
    → P s.start
    → Yields (λ p. p.start ≡ s.start) o
    → Yields (IsRising P s.start) rest
    → Yields (IsRising P a) (cons_parsed o rest)
unfolding cons_parsed
cons_parsed-IsRising P a s none rest h k e r = tt
cons_parsed-IsRising P a s (some p) none h k e r = tt
cons_parsed-IsRising P a s (some p) (some ps) h k e r =
    (omega (arith, h, e), subst P (sym e) k, subst (λ n. IsRising P n ps) (sym e) r)

-- The first segment, whose start need not satisfy `P`.
abbrev IsRisingFrom : (ℕ → Type 0) → ℕ → List ParsedSegment → Type 0
IsRisingFrom P a [] = ⊥
IsRisingFrom P a (p ∷ ps) = (p.start ≡ a) × IsRising P p.start ps

cons_parsed-IsRisingFrom :
    (P : ℕ → Type 0) (s : Segment) (o : Option ParsedSegment) (rest : Option (List ParsedSegment))
    → Yields (λ p. p.start ≡ s.start) o
    → Yields (IsRising P s.start) rest
    → Yields (IsRisingFrom P s.start) (cons_parsed o rest)
unfolding cons_parsed
cons_parsed-IsRisingFrom P s none rest e r = tt
cons_parsed-IsRisingFrom P s (some p) none e r = tt
cons_parsed-IsRisingFrom P s (some p) (some ps) e r = (e, subst (λ n. IsRising P n ps) (sym e) r)

module _ (read : String → Option (Init × ℕ)) (P : ℕ → Type 0) where
  parse_segments-IsRising :
      (a : ℕ) (ss : List Segment)
      → All (λ x. a ≤ x.start) ss
      → IsSorted ss
      → All (λ x. P x.start) ss
      → Yields (IsRising P a) (parse_segments read ss)
  unfolding parse_segments parse_segment
  parse_segments-IsRising a [] h k l = tt
  parse_segments-IsRising a (s ∷ ss) h k l =
      cons_parsed-IsRising P a s (parse_segment read s) (parse_segments read ss) h.0 l.0
        (with_header-start s (read s.fpath)) (parse_segments-IsRising s.start ss k.0 k.1 l.1)

  parse_segments-IsRisingFrom :
      (s : Segment) (ss : List Segment)
      → IsSorted (s ∷ ss)
      → All (λ x. P x.start) ss
      → Yields (IsRisingFrom P s.start) (parse_segments read (s ∷ ss))
  unfolding parse_segments parse_segment
  parse_segments-IsRisingFrom s ss k l =
      cons_parsed-IsRisingFrom P s (parse_segment read s) (parse_segments read ss)
        (with_header-start s (read s.fpath)) (parse_segments-IsRising s.start ss k.0 k.1 l)

concatenate_segments-StartsAt :
    (P : ℕ → Type 0) (a : ℕ) (ps : List ParsedSegment)
    → IsRisingFrom P a ps
    → StartsAt P a (concatenate_segments ps)
unfolding concatenate_segments entry_of
concatenate_segments-StartsAt P a [] h = elim h [ ]
concatenate_segments-StartsAt P a (p ∷ ps) h =
    subst (λ n. StartsAt P n (concatenate_segments (p ∷ ps))) h.0
      (concatenate_rest-StartsAt P (entry_of p) p.init ps (omega arith) h.1)

-- The last entry ends by the end.
abbrev pub EndsBy : ℕ → List ListEntry → Type 0
EndsBy end [] = Unit
EndsBy end (e ∷ []) = e.end ≤ end
EndsBy end (e ∷ f ∷ es) = EndsBy end (f ∷ es)

-- The entry lies after the start, begins by the end, and has a duration.
abbrev pub IsWithin : ℕ → ℕ → ListEntry → Type 0
IsWithin start end e = (start ≤ e.start) × (e.start ≤ end) × (e.start ≤ e.end)

module _ (start end : ℕ) where
  later-IsWithin :
      (es : List ListEntry)
      → All (IsEntry (λ n. (start < n) × (n ≤ end))) es
      → All (IsWithin start end) es
  later-IsWithin [] h = tt
  later-IsWithin (e ∷ es) h = ((omega (arith, h.0), h.0.0.1, h.0.1), later-IsWithin es h.1)

  trim_first-IsWithin :
      (a : ℕ) (es : List ListEntry)
      → start ≤ end
      → a ≤ end
      → StartsAt (λ n. (start < n) × (n ≤ end)) a es
      → All (IsWithin start end) (trim_first (some start) es)
  unfolding trim_first
  trim_first-IsWithin a [] h k s = elim s [ ]
  trim_first-IsWithin a (e ∷ es) h k s =
      let rest = later-IsWithin es s.2 in
      elim (Bool-cases (ltb e.end start)) [
        | inl t ↦ rw t rest
        | inr t ↦ rw t (elim (Bool-cases (ltb e.start start)) [
          | inl u ↦ rw u ((omega arith, h, ground arith), rest)
          | inr u ↦ rw u ((ground arith, ground (arith, s.0), s.1), rest)
        ])
      ]

  trim_last-IsWithin :
      (es : List ListEntry)
      → All (IsWithin start end) es
      → All (IsWithin start end) (trim_last (some end) es) × EndsBy end (trim_last (some end) es)
  unfolding trim_last
  trim_last-IsWithin [] h = (tt, tt)
  trim_last-IsWithin (e ∷ []) h = elim (Bool-cases (ltb end e.end)) [
    | inl t ↦ rw t (((h.0.0, h.0.1, h.0.1), tt), omega arith)
    | inr t ↦ rw t (h, ground arith)
  ]
  trim_last-IsWithin (e ∷ f ∷ []) h = let (r, q) = trim_last-IsWithin (f ∷ []) h.1 in ((h.0, r), q)
  trim_last-IsWithin (e ∷ f ∷ g ∷ es) h =
      let (r, q) = trim_last-IsWithin (f ∷ g ∷ es) h.1 in ((h.0, r), q)

  answer_entries-IsWithin :
      (es out : List ListEntry)
      → All (IsWithin start end) es
      → answer_entries (some end) es ≡ listed out
      → All (IsWithin start end) out × EndsBy end out
  unfolding answer_entries
  answer_entries-IsWithin [] out h e = cc
  answer_entries-IsWithin (x ∷ es) out h e =
      let k : trim_last (some end) (x ∷ es) ≡ out = cc in
      subst (λ o. All (IsWithin start end) o × EndsBy end o) k (trim_last-IsWithin (x ∷ es) h)

All-of : (P : Segment → Type 0) (ss : List Segment) → ((x : Segment) → Among x ss → P x) → All P ss
All-of P [] h = tt
All-of P (s ∷ ss) h = (h s (inl refl), All-of P ss (λ x m. h x (inr m)))

All-both :
    (t e : ℕ) (ss : List Segment)
    → All (λ x. t < x.start) ss
    → All (λ x. x.start ≤ e) ss
    → All (λ x. (t < x.start) × (x.start ≤ e)) ss
All-both t e [] h k = tt
All-both t e (s ∷ ss) h k = ((h.0, k.0), All-both t e ss h.1 k.1)

module _ (read : String → Option (Init × ℕ)) (start end : ℕ) (ordered : start ≤ end) where
  answer_parsed-IsWithin :
      (a : ℕ) (o : Option (List ParsedSegment)) (out : List ListEntry)
      → a ≤ end
      → Yields (IsRisingFrom (λ n. (start < n) × (n ≤ end)) a) o
      → answer_parsed read (some start) (some end) o ≡ listed out
      → All (IsWithin start end) out × EndsBy end out
  unfolding answer_parsed
  answer_parsed-IsWithin a none out h y e = cc
  answer_parsed-IsWithin a (some ps) out h y e =
      answer_entries-IsWithin start end (trim_first (some start) (concatenate_segments ps)) out
        (trim_first-IsWithin start end a (concatenate_segments ps) ordered h
          (concatenate_segments-StartsAt (λ n. (start < n) × (n ≤ end)) a ps y))
        e

  answer_segments-IsWithin :
      (ss : List Segment) (out : List ListEntry)
      → IsSorted ss
      → All (λ x. start < x.start) (but_first ss)
      → All (λ x. x.start ≤ end) ss
      → answer_segments read fmp4 (some start) (some end) (segments_found ss) ≡ listed out
      → All (IsWithin start end) out × EndsBy end out
  unfolding answer_segments answer_parsed concatenate_segments trim_first answer_entries
      parse_segments
  answer_segments-IsWithin [] out h l k e = cc
  answer_segments-IsWithin (s ∷ ss) out h l k e =
      answer_parsed-IsWithin s.start (parse_segments read (s ∷ ss)) out k.0
        (parse_segments-IsRisingFrom read (λ n. (start < n) × (n ≤ end)) s ss h
          (All-both start end ss l k.1))
        e

  -- If the listing between a start and an end that is not before it gives entries, each lies after the
  -- start, begins by the end and has a duration that is not negative, and the last ends by the end.
  pub on_list-IsWithin :
      (decode : String → Option ℕ) (files : List String) (out : List ListEntry)
      → on_list read decode fmp4 (some files) (some start) (some end) ≡ listed out
      → All (IsWithin start end) out × EndsBy end out
  unfolding on_list answer_segments starts_by
  on_list-IsWithin decode files out e =
      elim (find_segments-IsAnswer decode (some end) files start) [
        | inl a ↦
            let k : not_found_err ≡ listed out =
              sym (ap (answer_segments read fmp4 (some start) (some end)) a.0) ∙ e in
            cc
        | inr a ↦
            answer_segments-IsWithin a.0 out a.5 a.4
              (All-of (λ x. x.start ≤ end) a.0 (λ x m. starts_by-le x.start (a.2 x m).2))
              (sym (ap (answer_segments read fmp4 (some start) (some end)) a.1) ∙ e)
      ]
    where
      starts_by-le : (n : ℕ) → starts_by (some end) n ≡ true → n ≤ end
      starts_by-le n h = leb→le n end h
