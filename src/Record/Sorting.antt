-- ===== src/Record/Sorting.antt =====
-- internal/recordstore/segment.go: the order of segments.
use plux_mtx.Base.{
  ℕ, ◌≤◌, Bool, true, false, ◌≡◌, ◌⊎◌, inl, inr, leb, leb→le, Bool-cases, if◌then◌else◌, arith,
  List, [], ◌∷◌, All, subst,
}
use plux_mtx.Record.Segments.{Segment, insert_segment, sort_segments}

-- The first is one of the list.
abbrev pub Among : {A : Type 0} → A → List A → Type 0
Among s [] = ⊥
Among s (t ∷ ts) = (t ≡ s) ⊎ Among s ts

-- Each segment starts no later than those after it.
abbrev pub IsSorted : List Segment → Type 0
IsSorted [] = Unit
IsSorted (s ∷ ss) = All (λ t. s.start ≤ t.start) ss × IsSorted ss

All-Among : (P : Segment → Type 0) (s : Segment) (ss : List Segment) → All P ss → Among s ss → P s
All-Among P s [] a m = elim m [ ]
All-Among P s (t ∷ ts) a (inl e) = subst P e a.0
All-Among P s (t ∷ ts) a (inr m) = All-Among P s ts a.1 m

All-insert_segment :
    (P : Segment → Type 0) (s : Segment) (ts : List Segment)
    → P s
    → All P ts
    → All P (insert_segment s ts)
unfolding insert_segment
All-insert_segment P s [] h a = (h, tt)
All-insert_segment P s (t ∷ ts) h a = elim (Bool-cases (leb s.start t.start)) [
  | inl e ↦ rw e (h, a)
  | inr e ↦ rw e (a.0, All-insert_segment P s ts h a.1)
]

All-le :
    (a b : ℕ) (ts : List Segment) → a ≤ b → All (λ t. b ≤ t.start) ts → All (λ t. a ≤ t.start) ts
All-le a b [] h k = tt
All-le a b (t ∷ ts) h k = (omega (arith, k.0), All-le a b ts h k.1)

insert_segment-IsSorted :
    (s : Segment) (ts : List Segment) → IsSorted ts → IsSorted (insert_segment s ts)
unfolding insert_segment
insert_segment-IsSorted s [] h = (tt, tt)
insert_segment-IsSorted s (t ∷ ts) h = elim (Bool-cases (leb s.start t.start)) [
  | inl e ↦
      let k : s.start ≤ t.start = leb→le s.start t.start e in
      rw e ((k, All-le s.start t.start ts k h.0), h)
  | inr e ↦
      let k : t.start ≤ s.start = ground arith in
      rw e
        (All-insert_segment (λ x. t.start ≤ x.start) s ts k h.0, insert_segment-IsSorted s ts h.1)
]

pub sort_segments-IsSorted : (ss : List Segment) → IsSorted (sort_segments ss)
unfolding sort_segments
sort_segments-IsSorted [] = tt
sort_segments-IsSorted (s ∷ ss) =
    insert_segment-IsSorted s (sort_segments ss) (sort_segments-IsSorted ss)

Among-insert_segment :
    (x s : Segment) (ts : List Segment) → (s ≡ x) ⊎ Among x ts → Among x (insert_segment s ts)
unfolding insert_segment
Among-insert_segment x s [] h = h
Among-insert_segment x s (t ∷ ts) h = go (leb s.start t.start) h (Among-insert_segment x s ts)
  where
    go :
        (b : Bool)
        → (s ≡ x) ⊎ Among x (t ∷ ts)
        → ((s ≡ x) ⊎ Among x ts → Among x (insert_segment s ts))
        → Among x (if b then s ∷ t ∷ ts else t ∷ insert_segment s ts)
    go true h ih = h
    go false (inl e) ih = inr (ih (inl e))
    go false (inr (inl e)) ih = inl e
    go false (inr (inr m)) ih = inr (ih (inr m))

insert_segment-Among :
    (x s : Segment) (ts : List Segment) → Among x (insert_segment s ts) → (s ≡ x) ⊎ Among x ts
unfolding insert_segment
insert_segment-Among x s [] h = h
insert_segment-Among x s (t ∷ ts) h = go (leb s.start t.start) h (insert_segment-Among x s ts)
  where
    go :
        (b : Bool)
        → Among x (if b then s ∷ t ∷ ts else t ∷ insert_segment s ts)
        → (Among x (insert_segment s ts) → (s ≡ x) ⊎ Among x ts)
        → (s ≡ x) ⊎ Among x (t ∷ ts)
    go true h ih = h
    go false (inl e) ih = inr (inl e)
    go false (inr m) ih = elim (ih m) [ inl e ↦ inl e | inr k ↦ inr (inr k) ]

pub Among-sort_segments :
    (x : Segment) (ss : List Segment) → Among x ss → Among x (sort_segments ss)
unfolding sort_segments
Among-sort_segments x [] m = elim m [ ]
Among-sort_segments x (s ∷ ss) (inl e) = Among-insert_segment x s (sort_segments ss) (inl e)
Among-sort_segments x (s ∷ ss) (inr m) =
    Among-insert_segment x s (sort_segments ss) (inr (Among-sort_segments x ss m))

pub sort_segments-Among :
    (x : Segment) (ss : List Segment) → Among x (sort_segments ss) → Among x ss
unfolding sort_segments
sort_segments-Among x [] h = elim h [ ]
sort_segments-Among x (s ∷ ss) h = elim (insert_segment-Among x s (sort_segments ss) h) [
  | inl e ↦ inl e
  | inr m ↦ inr (sort_segments-Among x ss m)
]
