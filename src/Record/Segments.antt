-- ===== src/Record/Segments.antt =====
-- internal/recordstore/segment.go: FindSegments. A time is its distance in nanoseconds from Go's zero
-- time. `decode` is Path.Decode of the path that is looked for; the files are those that WalkDir
-- meets under the common path, in its order, or none if it fails.
use plux_mtx.Base.{
  ℕ, String, Bool, true, ◌&&◌, ltb, leb, if◌then◌else◌, Option, some, none, List, [], ◌∷◌,
}

pub record Segment : Type 0 where
  pub fpath : String
  pub start : ℕ

-- What FindSegments returns.
pub data SegmentsRes : Type 0 where
  segments_found : List Segment → SegmentsRes
  no_segments_found : SegmentsRes
  walk_err : SegmentsRes

-- end == nil || !end.Before(start)
unfoldable pub starts_by : Option ℕ → ℕ → Bool
starts_by none start = true
starts_by (some e) start = leb start e

unfoldable pub gather_one : Option ℕ → String → Option ℕ → List Segment → List Segment
unfolding starts_by
gather_one end fpath none rest = rest
gather_one end fpath (some start) rest =
    if starts_by end start then record { fpath = fpath; start = start } ∷ rest else rest

module _ (decode : String → Option ℕ) where
  unfoldable pub gather : Option ℕ → List String → List Segment
  unfolding gather_one
  gather end [] = []
  gather end (fpath ∷ files) =
      let rest = gather end files in gather_one end fpath (decode fpath) rest

-- sort.Slice by the start.
unfoldable pub insert_segment : Segment → List Segment → List Segment
insert_segment s [] = s ∷ []
insert_segment s (t ∷ ts) =
    let rest = insert_segment s ts in if leb s.start t.start then s ∷ t ∷ ts else t ∷ rest

unfoldable pub sort_segments : List Segment → List Segment
unfolding insert_segment
sort_segments [] = []
sort_segments (s ∷ ss) = insert_segment s (sort_segments ss)

-- The segments from the one that may contain the start on.
unfoldable pub from_covering : ℕ → List Segment → Option (List Segment)
from_covering start [] = none
from_covering start (s ∷ []) = none
from_covering start (s ∷ t ∷ ts) =
    let rest = from_covering start (t ∷ ts) in
    if leb s.start start && ltb start t.start then some (s ∷ t ∷ ts) else rest

unfoldable pub last_segment : Segment → List Segment → Segment
last_segment s [] = s
last_segment s (t ∷ ts) = last_segment t ts

-- The last segment alone, if it does not start after the start.
unfoldable pub only_last : ℕ → Segment → SegmentsRes
only_last start s = if ltb start s.start then no_segments_found else segments_found (s ∷ [])

unfoldable pub or_last : ℕ → Segment → Option (List Segment) → SegmentsRes
unfolding only_last
or_last start l (some segments) = segments_found segments
or_last start l none = only_last start l

unfoldable pub trim_start : Option ℕ → List Segment → SegmentsRes
unfolding from_covering last_segment or_last
trim_start start [] = no_segments_found
trim_start none (s ∷ ss) = segments_found (s ∷ ss)
trim_start (some start) (s ∷ ss) =
    if ltb start s.start
    then segments_found (s ∷ ss)
    else or_last start (last_segment s ss) (from_covering start (s ∷ ss))

module _ (decode : String → Option ℕ) where
  unfoldable pub find_segments : Option (List String) → Option ℕ → Option ℕ → SegmentsRes
  unfolding gather sort_segments trim_start
  find_segments none start end = walk_err
  find_segments (some files) start end = trim_start start (sort_segments (gather decode end files))
