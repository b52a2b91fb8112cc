-- ===== src/Conf/Flags.antt =====
-- internal/conf/path.go: how the tests on the source of a path exclude one another, and what
-- `validate` leaves of them.
use text.Mathlib.TextEquality.{eq_iff}
use plux_mtx.Base.{String, true, false, ◌≡◌, refl, ◌&&◌, ◌==s◌, arith}
use plux_mtx.Conf.PathConf.{
  PathConf, has_static_source, has_on_demand_static_source, has_on_demand_publisher,
}

-- The check of `validate` on runOnDemand.
abbrev pub IsValidDemand : PathConf → Type 0
IsValidDemand c = has_on_demand_publisher c ≡ true → (c.source ==s "publisher") ≡ true

publisher-ne-redirect : (s : String) → (s ==s "publisher") ≡ true → (s ==s "redirect") ≡ false
publisher-ne-redirect s h =
    ground (arith, eq_iff s "publisher", eq_iff s "redirect", eq_iff "publisher" "redirect")

-- The tests on the source, as the modules on paths use them.
pub record SourceTests (c : PathConf) : Type 0 where
  pub static_not_redirect : has_static_source c ≡ true → (c.source ==s "redirect") ≡ false
  pub static_not_publisher : has_static_source c ≡ true → (c.source ==s "publisher") ≡ false
  pub publisher_not_redirect : (c.source ==s "publisher") ≡ true → (c.source ==s "redirect") ≡ false
  pub static_otherwise :
      (c.source ==s "publisher") ≡ false
      → (c.source ==s "redirect") ≡ false
      → has_static_source c ≡ true
  pub demand_static : has_on_demand_static_source c ≡ (has_static_source c && c.source_on_demand)

pub source_tests : (c : PathConf) → SourceTests c
unfolding has_static_source has_on_demand_static_source
source_tests c = record {
  static_not_redirect = λ h. ground arith;
  static_not_publisher = λ h. ground arith;
  publisher_not_redirect = publisher-ne-redirect c.source;
  static_otherwise = λ h k. ground arith;
  demand_static = refl;
}
