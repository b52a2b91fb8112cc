-- ===== src/Record/Interval.antt =====
-- internal/recordcleaner/cleaner.go: how often the cleaner runs.
use plux_mtx.Base.{
  ℕ, ◌*◌, ◌/◌, ◌≤◌, Bool, true, false, ◌≡◌, refl, ◌⊎◌, inl, inr, ltb, ◌==◌, ◌&&◌, not,
  if◌then◌else◌, [], ◌∷◌, arith,
}
use plux_mtx.Conf.Find.{PathConfs}
use plux_mtx.Record.Cleaner.{second, shorter_interval, clean_interval}

-- The number is half of an age that one of the configurations sets.
abbrev pub IsHalf : PathConfs → ℕ → Type 0
IsHalf [] n = ⊥
IsHalf ((k, e) ∷ confs) n =
    ((¬ (e.record_delete_after ≡ 0)) × (n ≡ e.record_delete_after / 2)) ⊎ IsHalf confs n

-- The least of the interval and the halves.
abbrev pub IsLeast : ℕ → PathConfs → ℕ → Type 0
IsLeast interval confs m =
    (m ≤ interval) × ((n : ℕ) → IsHalf confs n → m ≤ n) × ((m ≡ interval) ⊎ IsHalf confs m)

shorter_interval-IsLeast :
    (interval : ℕ) (confs : PathConfs) → IsLeast interval confs (shorter_interval interval confs)
unfolding shorter_interval
shorter_interval-IsLeast interval [] = (ground arith, λ n h. elim h [ ], inl refl)
shorter_interval-IsLeast interval ((k, e) ∷ confs) =
    go (not (e.record_delete_after == 0) && ltb (e.record_delete_after / 2) interval) refl
      (shorter_interval-IsLeast (e.record_delete_after / 2) confs)
      (shorter_interval-IsLeast interval confs)
  where
    go :
        (b : Bool)
        → (not (e.record_delete_after == 0) && ltb (e.record_delete_after / 2) interval) ≡ b
        → IsLeast
            (e.record_delete_after / 2)
            confs
            (shorter_interval (e.record_delete_after / 2) confs)
        → IsLeast interval confs (shorter_interval interval confs)
        → IsLeast interval
            ((k, e) ∷ confs)
            (shorter_interval (if b then e.record_delete_after / 2 else interval) confs)
    go true t half whole = (
      ground (arith, half.0),
      λ n h. elim h [ inl q ↦ omega (arith, half.0, q.1) | inr r ↦ half.1 n r ],
      elim half.2 [ inl q ↦ inr (inl ((λ z. ground arith), q)) | inr r ↦ inr (inr r) ],
    )
    go false t half whole = (
      whole.0,
      λ n h. elim h [ inl q ↦ ground (arith, whole.0, q.0, q.1) | inr r ↦ whole.1 n r ],
      elim whole.2 [ inl q ↦ inl q | inr r ↦ inr (inr r) ],
    )

-- The cleaner waits for thirty minutes, or for half of the shortest age that a configuration sets, if
-- that is shorter.
pub clean_interval-IsLeast :
    (confs : PathConfs) → IsLeast (30 * 60 * second) confs (clean_interval confs)
unfolding clean_interval
clean_interval-IsLeast confs = shorter_interval-IsLeast (30 * 60 * second) confs
