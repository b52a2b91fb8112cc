-- ===== src/Record/Cleaner.antt =====
-- internal/recordcleaner/cleaner.go: the interval of the cleaner, and which files it removes. What
-- the directory of a path holds is the list of its files; os.Remove does not fail. Whether a file is
-- one of a path is Path.Decode of the path's own format.
use plux_mtx.Base.{
  ℕ, ◌-◌, ◌*◌, ◌/◌, String, ltb, ◌==◌, ◌==s◌, ◌&&◌, not, if◌then◌else◌, Option, some, none, List,
  [], ◌∷◌,
}
use plux_mtx.Conf.PathConf.{PathConf}
use plux_mtx.Conf.Find.{PathConfs, Found, found, not_found, find_path_conf}
use plux_mtx.Record.Segments.{
  Segment, SegmentsRes, segments_found, no_segments_found, walk_err, find_segments,
}

-- A second, in nanoseconds.
abbrev pub second : ℕ
second = 1000000000

unfoldable pub shorter_interval : ℕ → PathConfs → ℕ
shorter_interval interval [] = interval
shorter_interval interval ((k, e) ∷ confs) =
    shorter_interval
      (if not (e.record_delete_after == 0) && ltb (e.record_delete_after / 2) interval
        then e.record_delete_after / 2
        else interval)
      confs

unfoldable pub clean_interval : PathConfs → ℕ
unfolding shorter_interval
clean_interval confs = shorter_interval (30 * 60 * second) confs

unfoldable pub remove_file : String → List String → List String
remove_file f [] = []
remove_file f (g ∷ gs) = let rest = remove_file f gs in if g ==s f then rest else g ∷ rest

unfoldable pub remove_segments : List Segment → List String → List String
unfolding remove_file
remove_segments [] files = files
remove_segments (s ∷ ss) files = remove_segments ss (remove_file s.fpath files)

unfoldable pub remove_found : SegmentsRes → List String → List String
unfolding remove_segments
remove_found (segments_found ss) files = remove_segments ss files
remove_found no_segments_found files = files
remove_found walk_err files = files

-- `decode c name` is Path.Decode of the format of the recordings of the path `name`.
module _ (decode : PathConf → String → String → Option ℕ) where
  unfoldable pub delete_expired_segments : ℕ → String → PathConf → List String → List String
  unfolding find_segments remove_found
  delete_expired_segments now name c files =
      remove_found
        (find_segments (decode c name) (some files) none (some (now - c.record_delete_after))) files

  unfoldable pub process_found : ℕ → String → Found → List String → List String
  unfolding delete_expired_segments
  process_found now name (not_found e) files = files
  process_found now name (found c groups) files =
      if c.record_delete_after == 0 then files else delete_expired_segments now name c files

  module _ (submatch : String → String → Option (List String)) where
    unfoldable pub process_path : PathConfs → ℕ → String → List String → List String
    unfolding process_found find_path_conf
    process_path confs now name files =
        process_found now name (find_path_conf submatch confs name) files

    -- The loop of doRun over the names of the paths that have segments.
    unfoldable pub do_run : PathConfs → ℕ → List String → List String → List String
    unfolding process_path
    do_run confs now [] files = files
    do_run confs now (name ∷ names) files =
        do_run confs now names (process_path confs now name files)
