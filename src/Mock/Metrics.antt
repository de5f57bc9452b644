-- ===== src/Mock/Metrics.antt =====
-- The metrics of mockgo/mock/requestHandler.go and RegisterMetrics.
use mockgo_server.Prelude.{
  String, ◌≡◌, refl, List, [], ◌∷◌, none, some, GoMap, lookup, insert, Result, ok, err,
}

-- What NewCounter and NewCounterVec of package prometheus are given: the name, the help, and for a vector the
-- names of its labels.
pub data Collector : Type 0 where
  counter : String → String → Collector
  counter_vec : String → String → List String → Collector

abbrev pub matches_metric : Collector
matches_metric = counter_vec "matches" "Number of matches of an endpoint" ("endpoint" ∷ [])

abbrev pub mismatches_metric : Collector
mismatches_metric = counter "mismatches" "Number of mismatches"

-- prometheus.Register on the default registry.
pub record Registry : Type 1 where
  pub State : Type 0
  pub register : Collector → State → Result (Unit {0}) × State

module _ (registry : Registry) where
  -- What follows the registration of the first metric.
  register_next : Result (Unit {0}) × registry.State → Result (Unit {0}) × registry.State
  register_next (err e, s) = (err e, s)
  register_next (ok _, s) = registry.register mismatches_metric s

  -- RegisterMetrics
  unfoldable pub register_metrics : registry.State → Result (Unit {0}) × registry.State
  unfolding register_next
  register_metrics s = register_next (registry.register matches_metric s)

name_of : Collector → String
name_of (counter name help) = name
name_of (counter_vec name help labels) = name

-- A registry that refuses a name that it has.
abbrev by_name : Registry
by_name = record {
  State = GoMap Collector;
  register = λ m s. elim (lookup (name_of m) s) [
    | none ↦ (ok tt, insert (name_of m) m s)
    | some old ↦ (err "duplicate metrics collector registration attempted", s)
  ];
}

-- The metrics are registered once; SetupRouter drops the error of a second time.
register_metrics_demo :
    let both = (register_metrics by_name []).1 in
    ((register_metrics by_name []).0 ≡ ok tt)
    × (register_metrics by_name both
        ≡ (err "duplicate metrics collector registration attempted", both))
unfolding register_metrics lookup insert name_of
register_metrics_demo = (refl, refl)
