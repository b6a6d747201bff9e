-- ===== src/Store/Bolt.antt =====
-- pkg/runtime/store/generic/bolt/bolt.go: the store over a bucket of BoltDB. The codec is the YAML
-- codec of pkg/runtime/codec. Open makes the bucket, so that it is there; Delete is left out.
pub mod Paths
pub mod Valid
pub mod History
pub mod Placed
pub mod Prepared
pub mod Saves
pub mod Instance
pub mod Unversioned
use Prim.Native.String.{◌++◌}
use aptomi.Base.{
  ℕ, String, Bool, true, false, not, ◌&&◌, Option, none, some, List, [], ◌∷◌, ◌==◌, nat_eq,
  if◌then◌else◌,
}
use aptomi.Base.Dict.{Dict}
use aptomi.Base.Result.{Result, ok, err, ◌>>=◌}
use aptomi.Store.Generations.{first_gen, last_gen, next, gen_str}
use aptomi.Store.Bucket.{Bolt, take_prefix, scan, last_value}
use aptomi.Store.Objects.{Storable, Info, key_for}

pub data StoreError (E : Type 0) : Type 0 where
  unknown_kind : (kind : String) → StoreError E
  not_versioned : (kind : String) → StoreError E
  not_deletable : (key : String) → StoreError E
  deleting_missing : (key : String) → StoreError E
  from_codec : E → StoreError E
  from_bolt : E → StoreError E

pub record Codec (O E : Type 0) : Type 0 where
  pub encode : O → Result E String
  pub decode : String → Result E O

abbrev pub separator : String
separator = "@"

abbrev pub prefix_of : String → String
prefix_of key = key ++ separator

-- Where an object's generation stands.
abbrev pub path : String → ℕ → String
path key gen = key ++ (separator ++ gen_str gen)

-- What saving an object gives: whether a new generation was made, the object with its generation as
-- it is then, and the bucket.
pub record Saved (O B : Type 0) : Type 0 where
  pub updated : Bool
  pub object : O
  pub bucket : B

module _ {O B E : Type 0} (objects : Storable O) (registry : String → Option Info)
    (codec : Codec O E) (bolt : Bolt B String E) where
  abbrev coded : {A : Type 0} → Result E A → Result (StoreError E) A
  coded (ok a) = ok a
  coded (err e) = err (from_codec e)

  abbrev written : {A : Type 0} → Result E A → Result (StoreError E) A
  written (ok a) = ok a
  written (err e) = err (from_bolt e)

  -- What the two Get methods make of the data they find.
  unfoldable pub decode_found : (O → Bool) → Option String → Result (StoreError E) (Option O)
  decode_found fits none = ok none
  decode_found fits (some d) = coded (codec.decode d) >>= λ o.
      if fits o then ok (some o) else err (not_versioned (objects.get_kind o))

  -- Get
  unfoldable pub get : String → B → Result (StoreError E) (Option O)
  get key b = decode_found (λ _. true) (bolt.get (path key last_gen) b)

  -- GetGen
  unfoldable pub get_gen : String → ℕ → B → Result (StoreError E) (Option O)
  get_gen key gen b =
      if nat_eq gen last_gen
      then decode_found objects.is_versioned (last_value none (scan bolt (prefix_of key) b))
      else decode_found objects.is_versioned (bolt.get (path key gen) b)

  unfoldable pub decode_all : Dict String → Result (StoreError E) (List O)
  decode_all [] = ok []
  decode_all ((_, d) ∷ rest) = coded (codec.decode d) >>= λ o. decode_all rest >>= λ os. ok (o ∷ os)

  -- List
  unfoldable pub list : String → B → Result (StoreError E) (List O)
  list prefix b = decode_all (scan bolt prefix b)

  -- ListGenerations
  unfoldable pub list_generations : String → B → Result (StoreError E) (List O)
  list_generations key = list (prefix_of key)

  unfoldable pub equals : O → O → Result (StoreError E) Bool
  equals o₁ o₂ = coded (codec.encode o₁) >>= λ d₁. coded (codec.encode o₂) >>= λ d₂. ok (d₁ == d₂)

  abbrev next_after : Option O → ℕ
  next_after none = 1
  next_after (some o) = next (objects.get_generation o)

  -- The panic of setNextGeneration for a kind that is not registered counts as an error.
  unfoldable pub set_next_generation : O → B → Result (StoreError E) O
  set_next_generation o b = elim (registry (objects.get_kind o)) [
    | none ↦ err (unknown_kind (objects.get_kind o))
    | some info ↦
        if info.versioned
        then (get_gen (key_for objects o) last_gen b >>= λ last.
            ok (objects.set_generation (next_after last) o))
        else err (not_versioned (objects.get_kind o))
  ]

  -- The checks of a deleted object.
  unfoldable pub check_deleted : Info → O → Option O → Result (StoreError E) (Unit {0})
  check_deleted info o existing =
      if objects.is_deleted o
      then if info.deletable
        then elim existing [ none ↦ err (deleting_missing (key_for objects o)) | some _ ↦ ok tt ]
        else err (not_deletable (key_for objects o))
      else ok tt

  -- What becomes of a versioned object, by the object that the store has at its generation.
  unfoldable pub set_generation : Bool → O → Option O → B → Result (StoreError E) (Bool × O)
  set_generation update_current o none b = ok (
    true,
    if nat_eq (objects.get_generation o) last_gen then objects.set_generation first_gen o else o,
  )
  set_generation update_current o (some e) b =
      let o₁ = objects.set_generation (objects.get_generation e) o in
      equals o₁ e >>= λ same.
      (if not update_current && not same
        then (set_next_generation o₁ b >>= λ o₂. ok (true, o₂))
        else ok (false, o₁))

  unfoldable pub prepare_versioned : Bool → Info → O → B → Result (StoreError E) (Bool × O)
  prepare_versioned update_current info o b =
      if objects.is_versioned o
      then (get_gen (key_for objects o) (objects.get_generation o) b >>= λ existing.
          check_deleted info o existing >>= λ _. set_generation update_current o existing b)
      else err (not_versioned (objects.get_kind o))

  -- The transaction at the end of save.
  unfoldable pub write : String → Bool → O → B → Result (StoreError E) (Saved O B)
  write at updated o b = coded (codec.encode o) >>= λ d.
      written (bolt.put at d b) >>= λ b'. ok (record { updated = updated; object = o; bucket = b' })

  -- save, with Save and Update as its two modes.
  unfoldable pub save : Bool → O → B → Result (StoreError E) (Saved O B)
  save update_current o b = elim (registry (objects.get_kind o)) [
    | none ↦ err (unknown_kind (objects.get_kind o))
    | some info ↦ elim info.versioned [
      | true ↦ prepare_versioned update_current info o b >>= λ p.
          write (path (key_for objects o) (objects.get_generation p.1)) p.0 p.1 b
      | false ↦ write (path (key_for objects o) last_gen) false o b
    ]
  ]
