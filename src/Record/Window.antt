-- ===== src/Record/Window.antt =====
-- internal/recordstore/segment.go: which segments FindSegments returns.
use plux_mtx.Base.{
  ℕ, ◌≤◌, ◌<◌, String, Bool, true, false, ◌≡◌, refl, ◌↔◌, ◌⊎◌, inl, inr, ◌∙◌, ltb, Bool-cases,
  if◌then◌else◌, arith, Option, some, none, List, [], ◌∷◌, All, subst, sym, ap,
}
use plux_mtx.Record.Segments.{
  Segment, SegmentsRes, segments_found, no_segments_found, starts_by, gather_one, gather,
  sort_segments, from_covering, last_segment, only_last, or_last, trim_start, find_segments,
}
use plux_mtx.Record.Sorting.{
  Among, IsSorted, sort_segments-IsSorted, Among-sort_segments, sort_segments-Among,
}

abbrev pub but_first : List Segment → List Segment
but_first [] = []
but_first (s ∷ ss) = ss

-- The segments that a playback from `t` on needs: those that are left out start no later than one that
-- is kept and that starts by `t`, and only the first of those kept starts by `t`.
pub record IsWindow (t : ℕ) (ss out : List Segment) : Type 0 where
  pub kept : (x : Segment) → Among x out → Among x ss
  pub left :
      (x : Segment)
      → Among x ss
      → Among x out ⊎ ((k : Segment) × Among k out × (x.start ≤ k.start) × (k.start ≤ t))
  pub later : All (λ x. t < x.start) (but_first out)
  pub sorted : IsSorted out

All-later :
    (t a : ℕ) (ss : List Segment) → t < a → All (λ x. a ≤ x.start) ss → All (λ x. t < x.start) ss
All-later t a [] h k = tt
All-later t a (s ∷ ss) h k = (omega (arith, k.0), All-later t a ss h k.1)

whole-IsWindow :
    (t : ℕ) (ss : List Segment)
    → IsSorted ss
    → All (λ x. t < x.start) (but_first ss)
    → IsWindow t ss ss
whole-IsWindow t ss h k = record { kept = λ x m. m; left = λ x m. inl m; later = k; sorted = h }

drop-IsWindow :
    (t : ℕ) (s u : Segment) (us out : List Segment)
    → s.start ≤ u.start
    → u.start ≤ t
    → IsWindow t (u ∷ us) out
    → IsWindow t (s ∷ u ∷ us) out
drop-IsWindow t s u us out h k w = record {
  kept = λ x m. inr (w.kept x m);
  left = λ x m. elim m [
    | inl e ↦ elim (w.left u (inl refl)) [
      | inl n ↦ inr (u, n, subst (λ y. y.start ≤ u.start) e h, k)
      | inr n ↦ inr (n.0, n.1, subst (λ y. y.start ≤ n.0.start) e (omega (arith, h, n.2)), n.3)
    ]
    | inr n ↦ w.left x n
  ];
  later = w.later;
  sorted = w.sorted;
}

-- Once a segment starts by `t`, the loop and the last check find the window, and no error.
or_last-IsWindow :
    (t : ℕ) (s : Segment) (ss : List Segment)
    → IsSorted (s ∷ ss)
    → s.start ≤ t
    → (out : List Segment) × (or_last t (last_segment s ss) (from_covering t (s ∷ ss))
        ≡ segments_found out)
      × IsWindow t (s ∷ ss) out
unfolding or_last last_segment from_covering only_last
or_last-IsWindow t s [] h k = (s ∷ [], ground arith, whole-IsWindow t (s ∷ []) h tt)
or_last-IsWindow t s (u ∷ us) h k =
    let ih = or_last-IsWindow t u us h.1 in
    elim (Bool-cases (ltb t u.start)) [
      | inl e ↦ (
        s ∷ u ∷ us,
        ground arith,
        whole-IsWindow t (s ∷ u ∷ us) h (ground arith, All-later t u.start us (ground arith) h.1.0),
      )
      | inr e ↦
          let l : u.start ≤ t = ground arith in
          let (out, eq, w) = ih l in (out, ground (arith, eq), drop-IsWindow t s u us out h.0.0 l w)
    ]

trim_start-IsWindow :
    (t : ℕ) (s : Segment) (ss : List Segment)
    → IsSorted (s ∷ ss)
    → (out : List Segment) × (trim_start (some t) (s ∷ ss) ≡ segments_found out)
      × IsWindow t (s ∷ ss) out
unfolding trim_start
trim_start-IsWindow t s ss h = elim (Bool-cases (ltb t s.start)) [
  | inl e ↦
      (s ∷ ss, rw e refl, whole-IsWindow t (s ∷ ss) h (All-later t s.start ss (ground arith) h.0))
  | inr e ↦ let (out, eq, w) = or_last-IsWindow t s ss h (ground arith) in (out, rw e eq, w)
]

-- The segment is a file whose name decodes to its start, which is not after the end.
abbrev pub IsRecorded : (String → Option ℕ) → Option ℕ → List String → Segment → Type 0
IsRecorded decode end files x =
    Among x.fpath files × (decode x.fpath ≡ some x.start) × (starts_by end x.start ≡ true)

gather_one-Among :
    (end : Option ℕ) (fpath : String) (o : Option ℕ) (rest : List Segment) (x : Segment)
    → Among x (gather_one end fpath o rest)
    → ((fpath ≡ x.fpath) × (o ≡ some x.start) × (starts_by end x.start ≡ true)) ⊎ Among x rest
unfolding gather_one
gather_one-Among end fpath none rest x m = inr m
gather_one-Among end fpath (some start) rest x m = go (starts_by end start) refl m
  where
    go :
        (b : Bool)
        → starts_by end start ≡ b
        → Among x (if b then record { fpath = fpath; start = start } ∷ rest else rest)
        → ((fpath ≡ x.fpath) × (some start ≡ some x.start) × (starts_by end x.start ≡ true))
          ⊎ Among x rest
    go true e (inl q) = inl (
      ap (λ (s : Segment). s.fpath) q,
      ap (λ (s : Segment). some s.start) q,
      subst (λ (s : Segment). starts_by end s.start ≡ true) q e,
    )
    go true e (inr m) = inr m
    go false e m = inr m

Among-gather_one :
    (end : Option ℕ) (o : Option ℕ) (rest : List Segment) (x : Segment)
    → o ≡ some x.start
    → starts_by end x.start ≡ true
    → Among x (gather_one end x.fpath o rest)
unfolding gather_one
Among-gather_one end none rest x e h = cc
Among-gather_one end (some start) rest x e h =
    let k : start ≡ x.start = cc in
    subst
      (λ n.
        Among x (if starts_by end n then record { fpath = x.fpath; start = n } ∷ rest else rest))
      (sym k) (rw h (inl refl))

Among-gather_rest :
    (end : Option ℕ) (fpath : String) (o : Option ℕ) (rest : List Segment) (x : Segment)
    → Among x rest
    → Among x (gather_one end fpath o rest)
unfolding gather_one
Among-gather_rest end fpath none rest x m = m
Among-gather_rest end fpath (some start) rest x m = go (starts_by end start)
  where
    go : (b : Bool) → Among x (if b then record { fpath = fpath; start = start } ∷ rest else rest)
    go true = inr m
    go false = m

module _ (decode : String → Option ℕ) (end : Option ℕ) where
  gather-IsRecorded :
      (files : List String) (x : Segment)
      → Among x (gather decode end files)
      → IsRecorded decode end files x
  unfolding gather
  gather-IsRecorded [] x m = elim m [ ]
  gather-IsRecorded (f ∷ files) x m =
      elim (gather_one-Among end f (decode f) (gather decode end files) x m) [
        | inl q ↦ (inl q.0, subst (λ y. decode y ≡ some x.start) q.0 q.1, q.2)
        | inr n ↦ let r = gather-IsRecorded files x n in (inr r.0, r.1, r.2)
      ]

  IsRecorded-gather :
      (files : List String) (x : Segment)
      → IsRecorded decode end files x
      → Among x (gather decode end files)
  unfolding gather
  IsRecorded-gather [] x r = elim r.0 [ ]
  IsRecorded-gather (f ∷ files) x (inl e, d, h) =
      subst (λ y. Among x (gather_one end y (decode y) (gather decode end files))) (sym e)
        (Among-gather_one end (decode x.fpath) (gather decode end files) x d h)
  IsRecorded-gather (f ∷ files) x (inr m, d, h) =
      Among-gather_rest end f (decode f) (gather decode end files) x
        (IsRecorded-gather files x (m, d, h))

  -- The two answers to a request of the segments from `t` on.
  abbrev pub IsAnswer : List String → ℕ → SegmentsRes → Type 0
  IsAnswer files t res =
      ((res ≡ no_segments_found) × ((x : Segment) → ¬ IsRecorded decode end files x))
      ⊎ ((out : List Segment) × (res ≡ segments_found out)
          × ((x : Segment) → Among x out → IsRecorded decode end files x)
          × ((x : Segment)
              → IsRecorded decode end files x
              → Among x out ⊎ ((k : Segment) × Among k out × (x.start ≤ k.start) × (k.start ≤ t)))
          × All (λ x. t < x.start) (but_first out)
          × IsSorted out)

  IsRecorded-sorted :
      (files : List String) (x : Segment)
      → IsRecorded decode end files x
      → Among x (sort_segments (gather decode end files))
  IsRecorded-sorted files x r =
      Among-sort_segments x (gather decode end files) (IsRecorded-gather files x r)

  sorted-IsRecorded :
      (files : List String) (x : Segment)
      → Among x (sort_segments (gather decode end files))
      → IsRecorded decode end files x
  sorted-IsRecorded files x m =
      gather-IsRecorded files x (sort_segments-Among x (gather decode end files) m)

  -- With a start, FindSegments fails only if no file of the path is recorded by the end. Else it returns,
  -- in the order of time, segments that are recorded by the end, and leaves out only those that
  -- start no later than a segment which it returns and which starts by the start; all but the first
  -- of what it returns start after the start.
  pub find_segments-IsAnswer :
      (files : List String) (t : ℕ)
      → IsAnswer files t (find_segments decode (some files) (some t) end)
  unfolding find_segments trim_start
  find_segments-IsAnswer files t = go (sort_segments (gather decode end files)) refl
    where
      go :
          (ss : List Segment)
          → sort_segments (gather decode end files) ≡ ss
          → IsAnswer files t (trim_start (some t) (sort_segments (gather decode end files)))
      go [] e =
          inl (ap (trim_start (some t)) e, λ x r. subst (Among x) e (IsRecorded-sorted files x r))
      go (s ∷ ss) e =
          let (out, eq, w) =
            trim_start-IsWindow t s ss
              (subst IsSorted e (sort_segments-IsSorted (gather decode end files))) in
          inr (
            out,
            ap (trim_start (some t)) e ∙ eq,
            λ x m. sorted-IsRecorded files x (subst (Among x) (sym e) (w.kept x m)),
            λ x r. w.left x (subst (Among x) e (IsRecorded-sorted files x r)),
            w.later,
            w.sorted,
          )

  -- Without a start, FindSegments fails exactly if no file is recorded by the end, and else returns
  -- all that are.
  pub find_segments-all :
      (files : List String)
      → ((find_segments decode (some files) none end ≡ no_segments_found)
          × ((x : Segment) → ¬ IsRecorded decode end files x))
        ⊎ ((out : List Segment) × (find_segments decode (some files) none end ≡ segments_found out)
            × ((x : Segment) → Among x out ↔ IsRecorded decode end files x))
  unfolding find_segments trim_start
  find_segments-all files = go (sort_segments (gather decode end files)) refl
    where
      go :
          (ss : List Segment)
          → sort_segments (gather decode end files) ≡ ss
          → ((trim_start none (sort_segments (gather decode end files)) ≡ no_segments_found)
              × ((x : Segment) → ¬ IsRecorded decode end files x))
            ⊎ ((out : List Segment) × (trim_start none (sort_segments (gather decode end files))
                  ≡ segments_found out)
                × ((x : Segment) → Among x out ↔ IsRecorded decode end files x))
      go [] e = inl (ap (trim_start none) e, λ x r. subst (Among x) e (IsRecorded-sorted files x r))
      go (s ∷ ss) e = inr (
        s ∷ ss,
        ap (trim_start none) e,
        λ x. (
          λ m. sorted-IsRecorded files x (subst (Among x) (sym e) m),
          λ r. subst (Among x) e (IsRecorded-sorted files x r),
        ),
      )
