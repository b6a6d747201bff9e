-- ===== src/Store/Policies/Requests.antt =====
-- pkg/runtime/store/core/policy.go: what a sequence of requests leaves of a policy that there is.
use aptomi.Base.{
  ℕ, ◌+◌, ◌<◌, ◌^◌, String, false, ◌≡◌, Option, some, List, [], ◌∷◌, nat_eq, arith, subst,
}
use aptomi.Base.Lists.{length, All, All-map}
use aptomi.Base.Result.{Result, ok}
use aptomi.Util.Params.{Value}
use aptomi.Lang.Objects.{Object}
use aptomi.Lang.Policy.{Policy}
use aptomi.Store.Generations.{last_gen}
use aptomi.Store.Data.{PolicyData, Stored, policy_data, policy_data_key, storable}
use aptomi.Store.Generic.{Generic, Extends, Extends-refl, Extends-trans, IsHistory}
use aptomi.Store.Policies.{get_policy_data, get_policy, update_policy, delete_from_policy}
use aptomi.Store.Policies.Loading.{Given, get_policy-Extends}
use aptomi.Store.Policies.Calls.{Grows, Fresh}
use aptomi.Store.Policies.Growth.{update_policy-Grows, delete_from_policy-Grows}

-- A call of UpdatePolicy or of DeleteFromPolicy, with who makes it and when.
pub data Request : Type 0 where
  updating deleting : List Object → (performed_by : String) → (now : ℕ) → Request

abbrev pub objects_of : Request → List Object
objects_of (updating objects _ _) = objects
objects_of (deleting objects _ _) = objects

-- How many generations a request may add.
abbrev pub cost : Request → ℕ
cost r = length (objects_of r) + 1

abbrev pub costs : List Request → ℕ
costs [] = 0
costs (r ∷ rest) = cost r + costs rest

module _ {S E M : Type 0} (generic : Generic Stored S E) (marshal : Value → Result M String) where
  abbrev pub serve : Request → S → S
  serve (updating objects by now) s = (update_policy generic marshal objects by now s).0
  serve (deleting objects by now) s = (delete_from_policy generic marshal objects by now s).0

  -- The store after a sequence of requests, whether they fail or not.
  abbrev pub after : List Request → S → S
  after [] s = s
  after (r ∷ rest) s = after rest (serve r s)

module _ {S E M : Type 0} (generic : Generic Stored S E) (marshal : Value → Result M String)
    (Valid : ℕ → S → Type 0) (Savable : Stored → Type 0) (Known : String → Type 0)
    (history : IsHistory storable generic Valid Savable Known)
    (savable_data : (pd : PolicyData) → Savable (policy_data pd))
    (known : Known policy_data_key) where
  abbrev Saveable : ℕ → Request → Type 0
  Saveable n r =
      All (Fresh generic marshal Valid Savable Known history savable_data n) (objects_of r)

  serve-Grows :
      (r : Request) (n : ℕ) (s : S)
      → Valid n s
      → n + cost r < 2 ^ 64
      → Saveable n r
      → Grows generic marshal Valid Savable Known history savable_data
          (n + cost r)
          s
          (serve generic marshal r s)
  serve-Grows (updating objects by now) n s h room fresh =
      subst
        (λ m.
          Grows generic marshal Valid Savable Known history savable_data m s
            (update_policy generic marshal objects by now s).0)
        (omega arith)
        (update_policy-Grows generic marshal Valid Savable Known history savable_data objects by now
          n s h (omega (arith, room)) fresh known)
  serve-Grows (deleting objects by now) n s h room fresh =
      subst
        (λ m.
          Grows generic marshal Valid Savable Known history savable_data m s
            (delete_from_policy generic marshal objects by now s).0)
        (omega arith)
        (delete_from_policy-Grows generic marshal Valid Savable Known history savable_data objects
          by now n s h (omega (arith, room)) fresh known)

  later-Fresh :
      (n k : ℕ) (o : Object)
      → Fresh generic marshal Valid Savable Known history savable_data n o
      → Fresh generic marshal Valid Savable Known history savable_data (n + k) o
  later-Fresh n k o h = record {
    savable = h.savable;
    savable_deleted = h.savable_deleted;
    bound = omega (arith, h.bound);
  }

  after-Extends :
      (requests : List Request) (n : ℕ) (s : S)
      → Valid n s
      → n + costs requests < 2 ^ 64
      → All (Saveable n) requests
      → Extends storable generic s (after generic marshal requests s)
  after-Extends [] n s h room fresh = Extends-refl storable generic s
  after-Extends (r ∷ rest) n s h room (fresh, others) =
      let grows = serve-Grows r n s h (omega (arith, room)) fresh in
      Extends-trans storable generic s (serve generic marshal r s) _ grows.extends (
        after-Extends rest (n + cost r) (serve generic marshal r s) grows.bounded
          (omega (arith, room))
          (All-map (Saveable n) (Saveable (n + cost r)) rest
            (λ q h'.
              All-map (Fresh generic marshal Valid Savable Known history savable_data n) _
                (objects_of q) (λ o. later-Fresh n (cost r) o) h')
            others))

  -- A policy that GetPolicy gives for a generation is the one that it gives for that generation after
  -- any sequence of updates and deletions, whether they fail or not, as long as no generation comes to
  -- 2 ^ 64 and the policy's data names no object with generation 0.
  pub get_policy-after :
      (requests : List Request) (n gen : ℕ) (s : S) (pd : PolicyData) (result : Option Policy × ℕ)
      → Valid n s
      → n + costs requests < 2 ^ 64
      → All (Saveable n) requests
      → nat_eq gen last_gen ≡ false
      → get_policy_data generic marshal gen s ≡ ok (some pd)
      → Given pd.objects
      → get_policy generic marshal gen s ≡ ok result
      → get_policy generic marshal gen (after generic marshal requests s) ≡ ok result
  get_policy-after requests n gen s pd result h room fresh given found all_given at =
      get_policy-Extends generic marshal s (after generic marshal requests s)
        (after-Extends requests n s h room fresh) gen pd result given found all_given at
