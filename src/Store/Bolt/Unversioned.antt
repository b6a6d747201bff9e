-- ===== src/Store/Bolt/Unversioned.antt =====
-- pkg/runtime/store/generic/bolt/bolt.go: Save and Get of objects without generations.
use Prim.Native.String.{◌++◌}
use aptomi.Base.{
  String, Bool, false, ◌≡◌, ap, ◌∙◌, inl, inr, Option, some, arith, ◌==◌, Bool-cases, if◌then◌else◌,
  eq_of_test,
}
use aptomi.Base.Result.{ok, Result-cases}
use aptomi.Store.Generations.{last_gen, gen_str}
use aptomi.Store.Objects.{Storable, Info, key_for}
use aptomi.Store.Bucket.{Bolt, IsOrdered}
use aptomi.Store.Bolt.{Codec, Saved, path, separator, save, write, get, decode_found}
use aptomi.Store.Bolt.Valid.{IsCodec}
use aptomi.Base.Text.Cancel.{same_start}

same_path : (j k : String) → (path j last_gen == path k last_gen) ≡ (j == k)
same_path j k = elim (Bool-cases (j == k)) [
  | inl e ↦ let same = eq_of_test j k e in ground (arith, e, same)
  | inr e ↦ elim (Bool-cases (path j last_gen == path k last_gen)) [
    | inr f ↦ ground (arith, e, f)
    | inl f ↦
        let same =
          same_start j k (separator ++ gen_str last_gen)
            (eq_of_test (path j last_gen) (path k last_gen) f) in
        absurd (ground (arith, e, same))
  ]
]

module _ {O B E : Type 0} (objects : Storable O) (registry : String → Option Info)
    (codec : Codec O E) (is_codec : IsCodec codec) (bolt : Bolt B String E)
    (ordered : IsOrdered bolt) where
  -- What a write without an error has put.
  record IsWritten (at : String) (o : O) (b : B) (saved : Saved O B) : Type 0 where
    raw : String
    encoded : codec.encode o ≡ ok raw
    put : bolt.put at raw b ≡ ok saved.bucket

  write-IsWritten :
      (at : String) (updated : Bool) (o : O) (b : B) (saved : Saved O B)
      → write objects registry codec bolt at updated o b ≡ ok saved
      → IsWritten at o b saved
  unfolding write
  write-IsWritten at updated o b saved h = elim (Result-cases (codec.encode o)) [
    | inr (e, bad) ↦ absurd (ground (arith, bad, h))
    | inl (d, good) ↦ elim (Result-cases (bolt.put at d b)) [
      | inr (e, bad) ↦ absurd (ground (arith, good, bad, h))
      | inl (b', done) ↦
          let same : record { updated = updated; object = o; bucket = b' } ≡ saved =
            ground (arith, good, done, h) in
          record { raw = d; encoded = good; put = done ∙ ap (λ (x : Saved O B). ok x.bucket) same }
    ]
  ]

  -- With a codec that decodes what it has encoded and a bucket that is an ordered map: after an object
  -- of a registered kind without versions has been saved, Get gives it for its key, and for every other
  -- key what it gave before.
  pub get-save :
      (info : Info) (key : String) (o : O) (b : B) (saved : Saved O B)
      → registry (objects.get_kind o) ≡ some info
      → info.versioned ≡ false
      → save objects registry codec bolt false o b ≡ ok saved
      → get objects registry codec bolt key saved.bucket
        ≡ (if key == key_for objects o then ok (some o) else get objects registry codec bolt key b)
  unfolding save get decode_found
  get-save info key o b saved known plain h =
      let done =
        write-IsWritten (path (key_for objects o) last_gen) false o b saved
          (rw (known, plain, save) at h) in
      let decoded = is_codec.decode-encode o done.raw done.encoded in
      let there =
        ordered.get-put (path key last_gen) (path (key_for objects o) last_gen) done.raw b
          saved.bucket done.put in
      elim (Bool-cases (key == key_for objects o)) [
        | inl e ↦ ground (arith, there, same_path key (key_for objects o), e, decoded)
        | inr e ↦ ground (arith, there, same_path key (key_for objects o), e)
      ]
