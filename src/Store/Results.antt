-- ===== src/Store/Results.antt =====
-- pkg/engine/apply/action/action_plan_apply_result.go: the counters of applied actions, which are
-- uint32.
pub mod Counting
use aptomi.Base.{ℕ, ◌+◌, ◌%◌, ◌^◌, nat_eq, Option, none, some, if◌then◌else◌}

pub record ApplyResult : Type 0 where
  pub success : ℕ
  pub failed : ℕ
  pub skipped : ℕ
  pub total : ℕ

abbrev pub empty_result : ApplyResult
empty_result = record { success = 0; failed = 0; skipped = 0; total = 0 }

-- A sum of uint32.
abbrev pub wrap : ℕ → ℕ
wrap n = n % 2 ^ 32

-- SetTotal
unfoldable pub set_total : ℕ → ApplyResult → ApplyResult
set_total total r = record r { total = total }

-- AddSuccess
unfoldable pub add_success : ApplyResult → ApplyResult
add_success r = record r { success = wrap (r.success + 1) }

-- AddFailed
unfoldable pub add_failed : ApplyResult → ApplyResult
add_failed r = record r { failed = wrap (r.failed + 1) }

-- AddSkipped
unfoldable pub add_skipped : ApplyResult → ApplyResult
add_skipped r = record r { skipped = wrap (r.skipped + 1) }

-- Done, where `none` is the panic.
unfoldable pub done : ApplyResult → Option ApplyResult
done r = if nat_eq (wrap (r.success + r.failed + r.skipped)) r.total then some r else none
