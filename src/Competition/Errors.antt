-- ===== src/Competition/Errors.antt =====
-- internal/competition/errors.go: the package's error values; an error that wraps one of them is that
-- one. `panic` is an index out of range, which is no error value of the source.
pub data Error : Type 0 where
  invalid invalid_transition unauthorized own_submission not_opposing_side : Error
  reason_required not_found already_exists idempotency_conflict result_unchanged : Error
  panic : Error
