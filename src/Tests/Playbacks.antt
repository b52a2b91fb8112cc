-- ===== src/Tests/Playbacks.antt =====
-- Listings of the segments of a camera.
use plux_mtx.Base.{ℕ, ◌≡◌, refl, inl, inr, String, Option, some, List, [], ◌∷◌, All, arith}
use plux_mtx.Conf.PathConf.{fmp4}
use plux_mtx.Record.Segments.{
  find_segments, insert_segment, sort_segments, gather_one, gather, starts_by, trim_start,
  from_covering, or_last, only_last, last_segment,
}
use plux_mtx.Playback.Listing.{
  Init, ParsedSegment, ListEntry, listed, on_list, concatenate_segments, answer_segments,
  answer_parsed, parse_segments, parse_segment, with_header, cons_parsed, concatenate_rest,
  entry_of, segment_fmp4_can_be_concatenated, segment_fmp4_are_consecutive, numbers_follow,
  find_mtxi, same_tracks, trim_first, trim_last, answer_entries, mtxi_box,
}
use plux_mtx.Playback.Bounds.{IsWithin, EndsBy, on_list-IsWithin}
use plux_mtx.Playback.Coverage.{Holds, concatenate_segments-Holds}
use plux_mtx.Tests.Records.{start_of, recordings}

-- The header of the segment with this number, and its duration.
abbrev header : ℕ → Init
header n = record {
  tracks = [];
  user_data = mtxi_box (record { stream_id = 7; segment_number = n }) ∷ [];
}

abbrev read_any : String → Option (Init × ℕ)
read_any f = some (header 1, 30)

abbrev entries : List ListEntry
entries = record { start = 70; end = 90 } ∷ record { start = 120; end = 140 } ∷ []

-- The listing from 70 to 140: what is before is cut off, and so is what is after.
on_list-listed :
    on_list read_any start_of fmp4 (some recordings) (some 70) (some 140) ≡ listed entries
unfolding on_list answer_segments answer_parsed parse_segments parse_segment with_header cons_parsed
    concatenate_segments concatenate_rest entry_of segment_fmp4_can_be_concatenated
    segment_fmp4_are_consecutive numbers_follow find_mtxi same_tracks trim_first trim_last
    answer_entries find_segments insert_segment sort_segments gather_one gather starts_by trim_start
    from_covering or_last only_last last_segment
on_list-listed = refl

on_list-IsWithin_example : All (IsWithin 70 140) entries × EndsBy 140 entries
on_list-IsWithin_example =
    on_list-IsWithin read_any 70 140 (ground arith) start_of recordings entries on_list-listed

abbrev first_part : ParsedSegment
first_part = record { start = 0; init = header 1; duration = 60 }

abbrev second_part : ParsedSegment
second_part = record { start = 60; init = header 2; duration = 60 }

concatenate_segments-Holds_example : Holds 60 (concatenate_segments (first_part ∷ second_part ∷ []))
concatenate_segments-Holds_example =
    concatenate_segments-Holds (first_part ∷ second_part ∷ []) second_part
      (ground arith, (ground arith, tt)) (inr (inl refl))
