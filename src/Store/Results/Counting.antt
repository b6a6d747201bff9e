-- ===== src/Store/Results/Counting.antt =====
-- pkg/engine/apply/action/action_plan_apply_result.go: the counters after a sequence of calls.
use aptomi.Base.{
  ℕ, suc, ◌+◌, ◌<◌, ◌^◌, ◌≡◌, refl, sym, ap, ◌∙◌, none, some, List, [], ◌∷◌, nat_eq, arith,
  if◌then◌else◌,
}
use aptomi.Base.Lists.{length}
use aptomi.Store.Results.{
  ApplyResult, empty_result, wrap, set_total, add_success, add_failed, add_skipped, done,
}

pub data Call : Type 0 where
  adding_success adding_failed adding_skipped : Call

abbrev pub serve : Call → ApplyResult → ApplyResult
serve adding_success = add_success
serve adding_failed = add_failed
serve adding_skipped = add_skipped

-- The atomic calls of all goroutines, in the order in which they happen.
unfoldable pub serve_all : List Call → ApplyResult → ApplyResult
serve_all [] r = r
serve_all (c ∷ rest) r = serve_all rest (serve c r)

abbrev pub successes : List Call → ℕ
successes [] = 0
successes (adding_success ∷ rest) = suc (successes rest)
successes (_ ∷ rest) = successes rest

abbrev pub failures : List Call → ℕ
failures [] = 0
failures (adding_failed ∷ rest) = suc (failures rest)
failures (_ ∷ rest) = failures rest

abbrev pub skips : List Call → ℕ
skips [] = 0
skips (adding_skipped ∷ rest) = suc (skips rest)
skips (_ ∷ rest) = skips rest

-- The calls, added up without bounds.
abbrev pub counted : List Call → ApplyResult → ApplyResult
counted calls r = record {
  success = r.success + successes calls;
  failed = r.failed + failures calls;
  skipped = r.skipped + skips calls;
  total = r.total;
}

same_result :
    (s f k t : ℕ) (r : ApplyResult)
    → r.success ≡ s
    → r.failed ≡ f
    → r.skipped ≡ k
    → r.total ≡ t
    → r ≡ record { success = s; failed = f; skipped = k; total = t }
same_result s f k t r p q u v = rw (sym p, sym q, sym u, sym v) refl

serve_all-counted :
    (calls : List Call) (r : ApplyResult)
    → r.success + r.failed + r.skipped + length calls < 2 ^ 32
    → serve_all calls r ≡ counted calls r
unfolding serve_all add_success add_failed add_skipped
serve_all-counted [] r room = same_result _ _ _ _ r (omega arith) (omega arith) (omega arith) refl
serve_all-counted (adding_success ∷ rest) r room =
    serve_all-counted rest (add_success r) (omega (arith, room))
    ∙ same_result _ _ _ _ _ (omega (arith, room)) refl refl refl
serve_all-counted (adding_failed ∷ rest) r room =
    serve_all-counted rest (add_failed r) (omega (arith, room))
    ∙ same_result _ _ _ _ _ refl (omega (arith, room)) refl refl
serve_all-counted (adding_skipped ∷ rest) r room =
    serve_all-counted rest (add_skipped r) (omega (arith, room))
    ∙ same_result _ _ _ _ _ refl refl (omega (arith, room)) refl

all_calls : (calls : List Call) → successes calls + failures calls + skips calls ≡ length calls
all_calls [] = refl
all_calls (adding_success ∷ rest) = omega (arith, all_calls rest)
all_calls (adding_failed ∷ rest) = omega (arith, all_calls rest)
all_calls (adding_skipped ∷ rest) = omega (arith, all_calls rest)

done-exact :
    (s f k t n : ℕ)
    → s + f + k ≡ n
    → n < 2 ^ 32
    → done (record { success = s; failed = f; skipped = k; total = t }) ≡ (
        if nat_eq n t
        then some (record { success = s; failed = f; skipped = k; total = t })
        else none)
unfolding done
done-exact s f k t n sum room =
    let few : wrap (s + f + k) ≡ n = omega (arith, sum, room) in
    ap
      (λ m.
        if nat_eq m t
        then some (record { success = s; failed = f; skipped = k; total = t })
        else none)
      few

-- With fewer than 2 ^ 32 calls after SetTotal, Done gives the number of each kind of call if there
-- were as many calls as the total says, and panics otherwise.
pub done-serve_all :
    (calls : List Call) (total : ℕ)
    → length calls < 2 ^ 32
    → done (serve_all calls (set_total total empty_result)) ≡ (
        if nat_eq (length calls) total
        then some (record {
          success = successes calls;
          failed = failures calls;
          skipped = skips calls;
          total = total;
        })
        else none)
unfolding set_total
done-serve_all calls total room =
    ap done (
      serve_all-counted calls (set_total total empty_result) (omega (arith, room))
      ∙ same_result (successes calls) (failures calls) (skips calls) total _ (omega arith)
          (omega arith) (omega arith) refl)
    ∙ done-exact (successes calls) (failures calls) (skips calls) total (length calls)
        (all_calls calls) room
