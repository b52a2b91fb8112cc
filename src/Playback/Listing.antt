-- ===== src/Playback/Listing.antt =====
-- internal/playback/on_list.go and the test of internal/playback/segment_fmp4.go on two segments that
-- follow each other. A time is its distance in nanoseconds from Go's zero time. An entry is
-- kept as its start and its end: its duration is the difference, which can be negative. What is read
-- of a file, its header and its duration, is `read`.
use plux_mtx.Base.{
  ℕ, ◌+◌, ◌-◌, ◌%◌, ◌^◌, String, Bool, true, false, ◌&&◌, not, ltb, ◌==◌, if◌then◌else◌, Option,
  some, none, List, [], ◌∷◌,
}
use plux_mtx.Base.Int.{ℤ, sub_ℕ}
use plux_mtx.Conf.PathConf.{RecordFormat, fmp4, mpegts}
use plux_mtx.Record.Segments.{
  Segment, SegmentsRes, segments_found, no_segments_found, walk_err, find_segments,
}

-- The box that the recorder adds to a header: the identifier of the stream and the number of the segment.
pub record Mtxi : Type 0 where
  pub stream_id : ℕ
  pub segment_number : ℕ

pub data UserBox : Type 0 where
  mtxi_box : Mtxi → UserBox
  other_box : UserBox

-- A track, with the type of its codec.
pub record InitTrack : Type 0 where
  pub id : ℕ
  pub time_scale : ℕ
  pub codec_type : ℕ

pub record Init : Type 0 where
  pub tracks : List InitTrack
  pub user_data : List UserBox

unfoldable pub find_mtxi : List UserBox → Option Mtxi
find_mtxi [] = none
find_mtxi (mtxi_box m ∷ boxes) = some m
find_mtxi (other_box ∷ boxes) = find_mtxi boxes

unfoldable pub same_tracks : List InitTrack → List InitTrack → Bool
same_tracks [] [] = true
same_tracks [] (u ∷ us) = false
same_tracks (t ∷ ts) [] = false
same_tracks (t ∷ ts) (u ∷ us) =
    t.id == u.id
    && t.time_scale == u.time_scale
    && t.codec_type == u.codec_type
    && same_tracks ts us

unfoldable pub numbers_follow : Init → Init → Option Mtxi → Option Mtxi → Bool
unfolding same_tracks
numbers_follow a b none none = same_tracks a.tracks b.tracks
numbers_follow a b none (some n) = false
numbers_follow a b (some m) none = false
numbers_follow a b (some m) (some n) =
    m.stream_id == n.stream_id && (m.segment_number + 1) % 2 ^ 64 == n.segment_number

unfoldable pub segment_fmp4_are_consecutive : Init → Init → Bool
unfolding find_mtxi numbers_follow
segment_fmp4_are_consecutive a b =
    numbers_follow a b (find_mtxi a.user_data) (find_mtxi b.user_data)

abbrev pub concatenation_tolerance : ℕ
concatenation_tolerance = 1000000000

unfoldable pub segment_fmp4_can_be_concatenated : Init → ℕ → Init → ℕ → Bool
unfolding segment_fmp4_are_consecutive
segment_fmp4_can_be_concatenated prev_init prev_end cur_init cur_start =
    segment_fmp4_are_consecutive prev_init cur_init
    && not (ltb cur_start (prev_end - concatenation_tolerance))
    && not (ltb (prev_end + concatenation_tolerance) cur_start)

pub record ParsedSegment : Type 0 where
  pub start : ℕ
  pub init : Init
  pub duration : ℕ

pub record ListEntry : Type 0 where
  pub start : ℕ
  pub end : ℕ

unfoldable pub duration : ListEntry → ℤ
duration e = sub_ℕ e.end e.start

unfoldable pub entry_of : ParsedSegment → ListEntry
entry_of p = record { start = p.start; end = p.start + p.duration }

-- The loop, once there is an entry: the last entry, and the header of the segment before.
unfoldable pub concatenate_rest : ListEntry → Init → List ParsedSegment → List ListEntry
unfolding segment_fmp4_can_be_concatenated entry_of
concatenate_rest last prev_init [] = last ∷ []
concatenate_rest last prev_init (p ∷ ps) =
    if segment_fmp4_can_be_concatenated prev_init last.end p.init p.start
    then concatenate_rest (record last { end = p.start + p.duration }) p.init ps
    else last ∷ concatenate_rest (entry_of p) p.init ps

unfoldable pub concatenate_segments : List ParsedSegment → List ListEntry
unfolding concatenate_rest
concatenate_segments [] = []
concatenate_segments (p ∷ ps) = concatenate_rest (entry_of p) p.init ps

-- What onList answers, less the texts of the URLs.
pub data ListRes : Type 0 where
  listed : List ListEntry → ListRes
  not_found_err bad_request_err internal_err : ListRes

-- The part of onList on the start.
unfoldable pub trim_first : Option ℕ → List ListEntry → List ListEntry
trim_first none entries = entries
trim_first (some start) [] = []
trim_first (some start) (e ∷ es) =
    if ltb e.end start
    then es
    else if ltb e.start start
    then record e { start = start } ∷ es
    else e ∷ es

-- The part of onList on the end.
unfoldable pub trim_last : Option ℕ → List ListEntry → List ListEntry
trim_last none entries = entries
trim_last (some end) [] = []
trim_last (some end) (e ∷ []) = (if ltb end e.end then record e { end = end } else e) ∷ []
trim_last (some end) (e ∷ f ∷ es) = e ∷ trim_last (some end) (f ∷ es)

unfoldable pub answer_entries : Option ℕ → List ListEntry → ListRes
unfolding trim_last
answer_entries end [] = not_found_err
answer_entries end (e ∷ es) = listed (trim_last end (e ∷ es))

unfoldable pub with_header : Segment → Option (Init × ℕ) → Option ParsedSegment
with_header s none = none
with_header s (some (init, duration)) =
    some (record { start = s.start; init = init; duration = duration })

-- The error of any segment is an error of all.
unfoldable pub cons_parsed :
    Option ParsedSegment → Option (List ParsedSegment) → Option (List ParsedSegment)
cons_parsed none rest = none
cons_parsed (some p) none = none
cons_parsed (some p) (some ps) = some (p ∷ ps)

module _ (read : String → Option (Init × ℕ)) where
  unfoldable pub parse_segment : Segment → Option ParsedSegment
  unfolding with_header
  parse_segment s = with_header s (read s.fpath)

  unfoldable pub parse_segments : List Segment → Option (List ParsedSegment)
  unfolding parse_segment cons_parsed
  parse_segments [] = some []
  parse_segments (s ∷ ss) = let rest = parse_segments ss in cons_parsed (parse_segment s) rest

  unfoldable pub answer_parsed : Option ℕ → Option ℕ → Option (List ParsedSegment) → ListRes
  unfolding concatenate_segments trim_first answer_entries
  answer_parsed start end none = internal_err
  answer_parsed start end (some ps) =
      answer_entries end (trim_first start (concatenate_segments ps))

  unfoldable pub answer_segments : RecordFormat → Option ℕ → Option ℕ → SegmentsRes → ListRes
  unfolding parse_segments answer_parsed
  answer_segments format start end no_segments_found = not_found_err
  answer_segments format start end walk_err = bad_request_err
  answer_segments mpegts start end (segments_found ss) = internal_err
  answer_segments fmp4 start end (segments_found ss) = answer_parsed start end (parse_segments ss)

  -- onList, once the request has been authenticated and parsed and its path been found.
  unfoldable pub on_list :
      (String → Option ℕ) → RecordFormat → Option (List String) → Option ℕ → Option ℕ → ListRes
  unfolding find_segments answer_segments
  on_list decode format files start end =
      answer_segments format start end (find_segments decode files start end)
