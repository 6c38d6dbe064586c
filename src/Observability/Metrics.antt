-- ===== src/Observability/Metrics.antt =====
-- src/observability/metrics.py, and the record_* helpers of src/observability/saga_events.py.
use Prim.Native.String.{◌++◌}
use ihms_oms.Prelude.{
  decimal, ℕ, ◌+◌, String, Bool, Option, none, some, List, [], ◌∷◌, string_eq, ◌==◌, if◌then◌else◌,
}

pub record MetricsRegistry : Type 0 where
  pub holds_placed_total : ℕ
  pub holds_failed_total : ℕ
  pub confirms_success_total : ℕ
  pub confirms_reconciled_total : ℕ
  pub compensations_total : ℕ
  pub abandons_total : ℕ
  pub order_status_unknown_total : ℕ

abbrev pub new_registry : MetricsRegistry
new_registry = record {
  holds_placed_total = 0;
  holds_failed_total = 0;
  confirms_success_total = 0;
  confirms_reconciled_total = 0;
  compensations_total = 0;
  abandons_total = 0;
  order_status_unknown_total = 0;
}

-- `none` is the ValueError for a name that `_COUNTERS` does not list.
unfoldable pub increment : String → ℕ → MetricsRegistry → Option MetricsRegistry
increment counter amount m =
    if counter == "holds_placed_total"
    then some (record m { holds_placed_total = m.holds_placed_total + amount })
    else if counter == "holds_failed_total"
    then some (record m { holds_failed_total = m.holds_failed_total + amount })
    else if counter == "confirms_success_total"
    then some (record m { confirms_success_total = m.confirms_success_total + amount })
    else if counter == "confirms_reconciled_total"
    then some (record m { confirms_reconciled_total = m.confirms_reconciled_total + amount })
    else if counter == "compensations_total"
    then some (record m { compensations_total = m.compensations_total + amount })
    else if counter == "abandons_total"
    then some (record m { abandons_total = m.abandons_total + amount })
    else if counter == "order_status_unknown_total"
    then some (record m { order_status_unknown_total = m.order_status_unknown_total + amount })
    else none

unfoldable pub snapshot : MetricsRegistry → List (String × ℕ)
snapshot m =
    ("holds_placed_total", m.holds_placed_total)
    ∷ ("holds_failed_total", m.holds_failed_total)
    ∷ ("confirms_success_total", m.confirms_success_total)
    ∷ ("confirms_reconciled_total", m.confirms_reconciled_total)
    ∷ ("compensations_total", m.compensations_total)
    ∷ ("abandons_total", m.abandons_total)
    ∷ ("order_status_unknown_total", m.order_status_unknown_total)
    ∷ []

all_counter_lines : List (String × ℕ) → List String
all_counter_lines [] = []
all_counter_lines ((name, value) ∷ counters) =
    ("# TYPE " ++ name ++ " counter") ∷ (name ++ " " ++ decimal value) ∷ all_counter_lines counters

-- `"\n".join(lines)`
joined_lines : List String → String
joined_lines [] = ""
joined_lines (x ∷ []) = x
joined_lines (x ∷ (y ∷ rest)) = x ++ "\n" ++ joined_lines (y ∷ rest)

pub to_prometheus : MetricsRegistry → String
unfolding all_counter_lines joined_lines
to_prometheus m = joined_lines (all_counter_lines (snapshot m)) ++ "\n"

-- A registry after an increment that is known to succeed.
abbrev incremented : String → MetricsRegistry → MetricsRegistry
incremented counter m = elim (increment counter 1 m) [ none ↦ m | some m' ↦ m' ]

-- The helpers name counters that exist, so none of them raises.
unfoldable pub record_hold_placed : MetricsRegistry → MetricsRegistry
unfolding increment
record_hold_placed m = incremented "holds_placed_total" m

unfoldable pub record_hold_failed : MetricsRegistry → MetricsRegistry
unfolding increment
record_hold_failed m = incremented "holds_failed_total" m

unfoldable pub record_confirm_success : Bool → MetricsRegistry → MetricsRegistry
unfolding increment
record_confirm_success reconciled m =
    let m' = incremented "confirms_success_total" m in
    if reconciled then incremented "confirms_reconciled_total" m' else m'

unfoldable pub record_compensation : MetricsRegistry → MetricsRegistry
unfolding increment
record_compensation m = incremented "compensations_total" m

unfoldable pub record_abandon : MetricsRegistry → MetricsRegistry
unfolding increment
record_abandon m = incremented "abandons_total" m

unfoldable pub record_order_status_unknown : MetricsRegistry → MetricsRegistry
unfolding increment
record_order_status_unknown m = incremented "order_status_unknown_total" m
