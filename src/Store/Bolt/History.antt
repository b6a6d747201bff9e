-- ===== src/Store/Bolt/History.antt =====
-- pkg/runtime/store/generic/bolt/bolt.go: what save writes, and that it keeps what is there.
use aptomi.Base.{
  ℕ, String, false, ◌≡◌, subst, inl, inr, Option, some, ◌==◌, nat_eq, arith, Bool-cases,
  Option-cases, if◌then◌else◌, eq_of_test,
}
use aptomi.Base.Result.{Result, ok, Result-cases}
use aptomi.Store.Generations.{last_gen}
use aptomi.Store.Objects.{Storable, Info, IsStorable}
use aptomi.Store.Bucket.{Bolt, IsOrdered}
use aptomi.Store.Bolt.{Codec, get_gen, path, decode_found, coded, written}
use aptomi.Store.Bolt.Valid.{IsCodec}

module _ {O B E : Type 0} (objects : Storable O) (storable : IsStorable objects)
    (registry : String → Option Info) (codec : Codec O E) (is_codec : IsCodec codec)
    (bolt : Bolt B String E) (ordered : IsOrdered bolt) where
  -- Nothing but the object itself stands at the place where it is put.
  pub record Fits (at : String) (o : O) (b : B) : Type 0 where
    pub vacant : (d : String) → bolt.get at b ≡ some d → codec.decode d ≡ ok o

  -- All generations there were are there as they were, and the object is at its place.
  pub record Kept (at : String) (o : O) (b b' : B) : Type 0 where
    pub kept :
        (key : String) (g : ℕ) (v : O)
        → (nat_eq g last_gen ≡ false)
        → get_gen objects registry codec bolt key g b ≡ ok (some v)
        → get_gen objects registry codec bolt key g b' ≡ ok (some v)
    pub raw : String
    pub decoded : codec.decode raw ≡ ok o
    pub put : (k : String) → bolt.get k b' ≡ (if k == at then some raw else bolt.get k b)

  decode_found-kept :
      (at : String) (o v : O) (b b' : B) (d k : String)
      → Fits at o b
      → codec.decode d ≡ ok o
      → bolt.get k b' ≡ (if k == at then some d else bolt.get k b)
      → decode_found objects registry codec bolt objects.is_versioned (bolt.get k b) ≡ ok (some v)
      → decode_found objects registry codec bolt objects.is_versioned (bolt.get k b') ≡ ok (some v)
  unfolding decode_found
  decode_found-kept at o v b b' d k fits decoded put h = elim (Bool-cases (k == at)) [
    | inr other ↦ ground (arith, put, other, h)
    | inl same ↦ elim (Option-cases (bolt.get k b)) [
      | inl missing ↦ absurd (ground (arith, missing, h))
      | inr (d', there) ↦
          let before =
            fits.vacant d' (subst (λ x. bolt.get x b ≡ some d') (eq_of_test k at same) there) in
          ground (arith, put, same, there, decoded, before, h)
    ]
  ]

  pub coded-ok :
      {A : Type 0} (r : Result E A) (a : A) → coded objects registry codec bolt r ≡ ok a → r ≡ ok a
  coded-ok r a h = elim (Result-cases r) [
    | inl (b, e) ↦ ground (arith, e, h)
    | inr (x, e) ↦ absurd (ground (arith, e, h))
  ]

  pub written-ok :
      {A : Type 0} (r : Result E A) (a : A)
      → written objects registry codec bolt r ≡ ok a
      → r ≡ ok a
  written-ok r a h = elim (Result-cases r) [
    | inl (b, e) ↦ ground (arith, e, h)
    | inr (x, e) ↦ absurd (ground (arith, e, h))
  ]

  pub put-Kept :
      (at d : String) (o : O) (b b' : B)
      → Fits at o b
      → codec.encode o ≡ ok d
      → bolt.put at d b ≡ ok b'
      → Kept at o b b'
  unfolding get_gen
  put-Kept at d o b b' fits encoded put =
      let decoded = is_codec.decode-encode o d encoded in
      record {
        kept = λ key g v other h.
            rw (other, get_gen)
              (decode_found-kept at o v b b' d (path key g) fits decoded
                (ordered.get-put (path key g) at d b b' put) (rw (other, get_gen) at h));
        raw = d;
        decoded = decoded;
        put = λ k. ordered.get-put k at d b b' put;
      }
