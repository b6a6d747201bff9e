-- ===== src/Store/Policies/Durable.antt =====
-- pkg/runtime/store/core/policy.go over pkg/runtime/store/generic/bolt/bolt.go: policies in the store
-- over BoltDB.
use aptomi.Base.{ℕ, ◌+◌, ◌<◌, ◌≤◌, ◌^◌, String, false, ◌≡◌, Option, some, List, nat_eq}
use aptomi.Base.Lists.{All, All-map}
use aptomi.Base.Result.{Result, ok}
use aptomi.Util.Params.{Value}
use aptomi.Lang.Objects.{Object, metadata}
use aptomi.Lang.Policy.{Policy}
use aptomi.Store.Generations.{last_gen}
use aptomi.Store.Bucket.{Bolt, IsOrdered}
use aptomi.Store.Bolt.{Codec, StoreError}
use aptomi.Store.Bolt.Paths.{Plain}
use aptomi.Store.Bolt.Valid.{IsCodec, Valid}
use aptomi.Store.Bolt.Instance.{bolt_store, IsSavable, bolt_store-IsHistory}
use aptomi.Store.Data.{PolicyData, Stored, registry, storable}
use aptomi.Store.Data.Kinds.{
  storable-IsStorable, registry-IsRegistered, IsNamed, named-IsSavable, deleted-IsSavable,
  data-IsSavable, policy_data_key-Plain,
}
use aptomi.Store.Generic.{Generic, IsHistory}
use aptomi.Store.Policies.{get_policy_data, get_policy}
use aptomi.Store.Policies.Loading.{Given}
use aptomi.Store.Policies.Calls.{Fresh}
use aptomi.Store.Policies.Requests.{Request, objects_of, costs, after, get_policy-after}

module _ {B E M : Type 0} (codec : Codec Stored E) (is_codec : IsCodec codec)
    (bolt : Bolt B String E) (ordered : IsOrdered bolt) (marshal : Value → Result M String) where
  abbrev store : Generic Stored B (StoreError E)
  store = bolt_store storable registry codec bolt

  history :
      IsHistory storable store
        (Valid storable registry codec bolt)
        (IsSavable storable registry codec bolt)
        Plain
  history =
      bolt_store-IsHistory storable storable-IsStorable registry registry-IsRegistered codec
        is_codec bolt ordered

  -- An object with a generation that the store may have, and with identifiers for its names.
  abbrev IsRequested : ℕ → Object → Type 0
  IsRequested n o = IsNamed o × ((metadata o).generation ≤ n + 1)

  requested-Fresh :
      (n : ℕ) (o : Object)
      → IsRequested n o
      → Fresh store marshal
          (Valid storable registry codec bolt)
          (IsSavable storable registry codec bolt)
          Plain
          history
          (data-IsSavable codec bolt)
          n
          o
  requested-Fresh n o h = record {
    savable = named-IsSavable codec bolt o h.0;
    savable_deleted = deleted-IsSavable codec bolt o h.0;
    bound = h.1;
  }

  -- In the store over BoltDB, a policy that GetPolicy gives for a generation stays the same for that
  -- generation, whatever updates and deletions of objects with identifiers for names follow.
  get_policy_durable :
      (requests : List Request) (n gen : ℕ) (b : B) (pd : PolicyData) (result : Option Policy × ℕ)
      → Valid storable registry codec bolt n b
      → n + costs requests < 2 ^ 64
      → All (λ r. All (IsRequested n) (objects_of r)) requests
      → nat_eq gen last_gen ≡ false
      → get_policy_data store marshal gen b ≡ ok (some pd)
      → Given pd.objects
      → get_policy store marshal gen b ≡ ok result
      → get_policy store marshal gen (after store marshal requests b) ≡ ok result
  get_policy_durable requests n gen b pd result valid room requested given found all_given at =
      get_policy-after store marshal (Valid storable registry codec bolt)
        (IsSavable storable registry codec bolt) Plain history (data-IsSavable codec bolt)
        policy_data_key-Plain requests n gen b pd result valid room
        (All-map (λ r. All (IsRequested n) (objects_of r)) _ requests
          (λ r h. All-map (IsRequested n) _ (objects_of r) (requested-Fresh n) h) requested)
        given found all_given at
