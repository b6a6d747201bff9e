-- ===== src/Store/Bucket.antt =====
-- The bucket of BoltDB that the store uses, which is code outside of the repository: what the store
-- calls of it, and what it relies on. A bucket keeps its keys in the order of their bytes.
pub mod Scan
use Prim.Native.String.{◌++◌}
use aptomi.Base.{
  ℕ, String, Bool, true, false, ◌≡◌, Option, none, some, List, [], ◌∷◌, ◌==◌, if◌then◌else◌,
}
use aptomi.Base.Dict.{Dict}
use aptomi.Base.Entries.{Each}
use aptomi.Base.Lists.{In}
use aptomi.Base.Result.{Result, ok, err}
use aptomi.Base.Text.{has_prefix}
use aptomi.Store.Generations.{text_lt}

-- Keys that rise.
abbrev pub Ascending : {D : Type 0} → Dict D → Type 0
Ascending [] = Unit
Ascending ((k, d) ∷ rest) = Each (λ j _. text_lt k j ≡ true) rest × Ascending rest

pub record Bolt (B D E : Type 0) : Type 0 where
  pub get : String → B → Option D
  -- An Update transaction that puts one value; when it fails, the bucket is as before.
  pub put : String → D → B → Result E B
  -- What a cursor gives from Seek on.
  pub seek : String → B → Dict D

-- The documented behaviour of a bucket.
pub record IsOrdered {B D E : Type 0} (bolt : Bolt B D E) : Type 0 where
  pub get-put :
      (j k : String) (d : D) (b b' : B)
      → bolt.put k d b ≡ ok b'
      → bolt.get j b' ≡ (if j == k then some d else bolt.get j b)
  pub seek_complete :
      (p k : String) (d : D) (b : B)
      → bolt.get k b ≡ some d
      → text_lt k p ≡ false
      → In (k, d) (bolt.seek p b)
  pub seek_sound :
      (p k : String) (d : D) (b : B) → In (k, d) (bolt.seek p b) → bolt.get k b ≡ some d
  pub seek_from : (p : String) (b : B) → Each (λ k _. text_lt k p ≡ false) (bolt.seek p b)
  pub seek-Ascending : (p : String) (b : B) → Ascending (bolt.seek p b)

-- The loop `for k, v := c.Seek(prefix); k != nil && bytes.HasPrefix(k, prefix); k, v = c.Next()`.
unfoldable pub take_prefix : {D : Type 0} → String → Dict D → Dict D
take_prefix p [] = []
take_prefix p ((k, d) ∷ rest) =
    let others = take_prefix p rest in if has_prefix k p then (k, d) ∷ others else []

abbrev pub scan : {B D E : Type 0} → Bolt B D E → String → B → Dict D
scan bolt p b = take_prefix p (bolt.seek p b)

-- The value that such a loop finds last.
unfoldable pub last_value : {D : Type 0} → Option D → Dict D → Option D
last_value found [] = found
last_value found ((_, d) ∷ rest) = last_value (some d) rest
