-- ===== src/Tests/Records.antt =====
-- Segments of a camera, and offsets.
use plux_mtx.Base.{
  ℕ, ◌*◌, ◌%◌, String, ◌≡◌, refl, ◌↔◌, inl, inr, ◌==s◌, if◌then◌else◌, Option, some, none, List, [],
  ◌∷◌, subst, arith,
}
use plux_mtx.Base.Int.{pos}
use plux_mtx.Conf.PathConf.{PathConf}
use plux_mtx.Conf.Find.{PathConfs, find_path_conf, lookup}
use plux_mtx.Record.Segments.{
  find_segments, segments_found, insert_segment, sort_segments, gather_one, gather, starts_by,
  trim_start, from_covering, or_last, only_last, last_segment,
}
use plux_mtx.Record.Sorting.{Among}
use plux_mtx.Record.Window.{IsAnswer, find_segments-IsAnswer}
use plux_mtx.Record.Cleaner.{second, clean_interval, do_run}
use plux_mtx.Record.Removal.{IsRemovable, IsRecent, do_run-IsRemovable}
use plux_mtx.Record.Interval.{IsLeast, clean_interval-IsLeast}
use plux_mtx.Record.Offset.{time_location_encode, time_location_decode}
use plux_mtx.Record.Roundtrip.{neg, time_location_decode-encode_iff}
use plux_mtx.Tests.Data.{camera}

-- Three segments, at 0, 60 and 120.
abbrev pub start_of : String → Option ℕ
start_of f =
    if f ==s "c.mp4"
    then some 120
    else if f ==s "b.mp4"
    then some 60
    else if f ==s "a.mp4"
    then some 0
    else none

abbrev pub recordings : List String
recordings = "c.mp4" ∷ "notes.txt" ∷ "a.mp4" ∷ "b.mp4" ∷ []

-- The segment before the start is the first, and the others follow in their order.
from_middle :
    find_segments start_of (some recordings) (some 70) (some 200)
    ≡ segments_found
        (record { fpath = "b.mp4"; start = 60 } ∷ record { fpath = "c.mp4"; start = 120 } ∷ [])
unfolding find_segments insert_segment sort_segments gather_one gather starts_by trim_start
    from_covering or_last only_last last_segment
from_middle = refl

find_segments-IsAnswer_example :
    IsAnswer start_of
      (some 200)
      recordings
      70
      (find_segments start_of (some recordings) (some 70) (some 200))
find_segments-IsAnswer_example = find_segments-IsAnswer start_of (some 200) recordings 70

abbrev one_camera : PathConfs
one_camera = ("cam", camera) ∷ []

abbrev decode_any : PathConf → String → String → Option ℕ
decode_any c name = start_of

abbrev no_match : String → String → Option (List String)
no_match r name = none

camera-IsRecent : IsRecent decode_any 170 (find_path_conf no_match one_camera "cam")
unfolding find_path_conf lookup
camera-IsRecent = ground arith

cameras-IsRecent :
    (name : String)
    → Among name ("cam" ∷ [])
    → IsRecent decode_any 170 (find_path_conf no_match one_camera name)
cameras-IsRecent name (inl e) =
    subst (λ y. IsRecent decode_any 170 (find_path_conf no_match one_camera y)) e camera-IsRecent
cameras-IsRecent name (inr m) = elim m [ ]

do_run-IsRemovable_example :
    Among "a.mp4" (do_run decode_any no_match one_camera 170 ("cam" ∷ []) recordings) ↔ (
      Among "a.mp4" recordings
      × ((name : String)
          → Among name ("cam" ∷ [])
          → ¬ IsRemovable decode_any 170 name (find_path_conf no_match one_camera name) "a.mp4"))
do_run-IsRemovable_example =
    do_run-IsRemovable decode_any no_match one_camera 170 ("cam" ∷ []) recordings "a.mp4"
      cameras-IsRecent

clean_interval-IsLeast_example : IsLeast (30 * 60 * second) one_camera (clean_interval one_camera)
clean_interval-IsLeast_example = clean_interval-IsLeast one_camera

-- Five hours and a half.
time_location_decode-encode_iff_example :
    ((time_location_decode (time_location_encode (pos 19800)) ≡ some (pos 19800))
      ↔ (19800 % 3600 ≡ 0))
    × ((time_location_decode (time_location_encode (neg 19800)) ≡ some (neg 19800))
        ↔ (19800 % 3600 ≡ 0))
time_location_decode-encode_iff_example =
    time_location_decode-encode_iff 19800 (ground arith) (ground arith)
