-- ===== src/Store/Bolt/Saves.antt =====
-- pkg/runtime/store/generic/bolt/bolt.go: what Save does to the store.
use aptomi.Base.{
  ℕ, ◌+◌, ◌≤◌, ◌<◌, ◌^◌, String, Bool, true, false, ◌≡◌, sym, ap, ◌∙◌, subst, inl, inr, Option,
  none, some, ◌==◌, nat_eq, arith, Bool-cases, eq_of_test,
}
use aptomi.Base.Result.{ok, OnOk, ok-OnOk, bind-OnOk, any-OnOk}
use aptomi.Store.Generations.{last_gen}
use aptomi.Store.Objects.{Storable, Info, key_for, IsStorable}
use aptomi.Store.Bucket.{Bolt, IsOrdered}
use aptomi.Store.Bolt.{Codec, get_gen, path, decode_found, Saved, write, coded, written, save}
use aptomi.Store.Bolt.Paths.{Plain}
use aptomi.Store.Bolt.Valid.{IsCodec, Valid}
use aptomi.Store.Bolt.History.{Fits}
use aptomi.Store.Bolt.Placed.{IsRegistered}
use aptomi.Store.Bolt.Prepared.{IsPrepared, prepare-IsPrepared}
use aptomi.Store.Bolt.History.{Kept, put-Kept, coded-ok, written-ok}

module _ {O B E : Type 0} (objects : Storable O) (storable : IsStorable objects)
    (registry : String → Option Info) (registered : IsRegistered objects registry)
    (codec : Codec O E) (is_codec : IsCodec codec) (bolt : Bolt B String E)
    (ordered : IsOrdered bolt) (n : ℕ) (b : B) (valid : Valid objects registry codec bolt n b)
    (room : n + 1 < 2 ^ 64) where
  -- The store before and after an object has been saved.
  pub record IsSaved (o : O) (s : Saved O B) : Type 0 where
    pub stored :
        get_gen objects registry codec bolt
          (key_for objects o)
          (objects.get_generation s.object)
          s.bucket
        ≡ ok (some s.object)
    pub kept :
        (key : String) (g : ℕ) (v : O)
        → nat_eq g last_gen ≡ false
        → get_gen objects registry codec bolt key g b ≡ ok (some v)
        → get_gen objects registry codec bolt key g s.bucket ≡ ok (some v)
    pub remains : Valid objects registry codec bolt (n + 1) s.bucket
    pub fresh :
        s.updated ≡ true
        → bolt.get (path (key_for objects o) (objects.get_generation s.object)) b ≡ none
    pub unchanged :
        s.updated ≡ false
        → get_gen objects registry codec bolt
            (key_for objects o)
            (objects.get_generation s.object)
            b
          ≡ ok (some s.object)

  prepared-Fits :
      (o : O) (p : Bool × O)
      → IsPrepared objects storable registry registered codec is_codec bolt ordered n b valid room o
          p
      → Fits objects storable registry codec is_codec bolt ordered
          (path (key_for objects p.1) (objects.get_generation p.1))
          p.1
          b
  prepared-Fits o p h = record {
    vacant = λ d there. elim h.outcome [
      | inl new ↦ absurd (ground (arith, new.1, there))
      | inr old ↦ ground (arith, old.1.found, there, old.1.decoded)
    ];
  }

  get_gen-raw :
      (key raw : String) (g : ℕ) (o : O) (b' : B)
      → 1 ≤ g
      → objects.is_versioned o ≡ true
      → codec.decode raw ≡ ok o
      → bolt.get (path key g) b' ≡ some raw
      → get_gen objects registry codec bolt key g b' ≡ ok (some o)
  unfolding get_gen decode_found
  get_gen-raw key raw g o b' positive versioned decoded found =
      ground (arith, positive, versioned, decoded, found)

  kept-Valid :
      (o : O) (p : Bool × O) (b' : B)
      → Plain (key_for objects o)
      → objects.is_versioned p.1 ≡ true
      → IsPrepared objects storable registry registered codec is_codec bolt ordered n b valid room o
          p
      → Kept objects storable registry codec is_codec bolt ordered
          (path (key_for objects p.1) (objects.get_generation p.1))
          p.1
          b
          b'
      → Valid objects registry codec bolt (n + 1) b'
  kept-Valid o p b' plain versioned h kept = record {
    stored = λ k d there.
        let at = path (key_for objects p.1) (objects.get_generation p.1) in
        let place_lem = registered.versioned_place p.1 versioned in
        elim (Bool-cases (k == at)) [
          | inr other ↦
              let old = valid.stored k d (ground (arith, kept.put k, other, there)) in
              record {
                object = old.object;
                decoded = old.decoded;
                plain = old.plain;
                at = old.at;
                bound = omega (arith, old.bound);
                positive = old.positive;
              }
          | inl same ↦
              let raw : kept.raw ≡ d = ground (arith, kept.put k, same, there) in
              record {
                object = p.1;
                decoded = subst (λ x. codec.decode x ≡ ok p.1) raw kept.decoded;
                plain = subst Plain (sym h.same_key) plain;
                at = eq_of_test k at same ∙ ap (path (key_for objects p.1)) (sym place_lem);
                bound = subst (λ g. g ≤ n + 1) (sym place_lem) h.bound;
                positive = λ _. subst (λ g. 1 ≤ g) (sym place_lem) h.positive;
              }
        ];
  }

  finish_save :
      (o : O) (p : Bool × O) (b' : B)
      → Plain (key_for objects o)
      → objects.is_versioned p.1 ≡ true
      → IsPrepared objects storable registry registered codec is_codec bolt ordered n b valid room o
          p
      → Kept objects storable registry codec is_codec bolt ordered
          (path (key_for objects p.1) (objects.get_generation p.1))
          p.1
          b
          b'
      → IsSaved o (record { updated = p.0; object = p.1; bucket = b' })
  finish_save o p b' plain versioned h kept =
      let gen = objects.get_generation p.1 in
      let here = path (key_for objects p.1) gen in
      record {
        stored =
            get_gen-raw (key_for objects o) kept.raw gen p.1 b' h.positive versioned kept.decoded (
              subst (λ k. bolt.get (path k gen) b' ≡ some kept.raw) h.same_key
                (ground (arith, kept.put here)));
        kept = kept.kept;
        remains = kept-Valid o p b' plain versioned h kept;
        fresh = λ new. elim h.outcome [
          | inl vacant ↦ subst (λ k. bolt.get (path k gen) b ≡ none) h.same_key vacant.1
          | inr old ↦ absurd (ground (arith, old.0, new))
        ];
        unchanged = λ same. elim h.outcome [
          | inl vacant ↦ absurd (ground (arith, vacant.0, same))
          | inr old ↦
              get_gen-raw (key_for objects o) old.1.raw gen p.1 b h.positive versioned old.1.decoded
                (subst (λ k. bolt.get (path k gen) b ≡ some old.1.raw) h.same_key old.1.found)
        ];
      }

  written-IsSaved :
      (o : O) (p : Bool × O)
      → Plain (key_for objects o)
      → objects.is_versioned p.1 ≡ true
      → IsPrepared objects storable registry registered codec is_codec bolt ordered n b valid room o
          p
      → OnOk (IsSaved o) (
          write objects registry codec bolt
            (path (key_for objects o) (objects.get_generation p.1))
            p.0
            p.1
            b)
  unfolding write
  written-IsSaved o p plain versioned h =
      let at = path (key_for objects o) (objects.get_generation p.1) in
      let fits =
        subst
          (λ k.
            Fits objects storable registry codec is_codec bolt ordered
              (path k (objects.get_generation p.1)) p.1 b)
          h.same_key (prepared-Fits o p h) in
      bind-OnOk (IsSaved o) _ _ (any-OnOk (coded objects registry codec bolt (codec.encode p.1)))
        (λ d encoded _.
          bind-OnOk (IsSaved o) _ _
            (any-OnOk (written objects registry codec bolt (bolt.put at d b)))
            (λ b' put _. ok-OnOk (IsSaved o) _ (
              finish_save o p b' plain versioned h (
                subst
                  (λ k.
                    Kept objects storable registry codec is_codec bolt ordered
                      (path k (objects.get_generation p.1)) p.1 b b')
                  (sym h.same_key)
                  (put-Kept objects storable registry codec is_codec bolt ordered at d p.1 b b' fits
                    (coded-ok objects storable registry codec is_codec bolt ordered _ d encoded)
                    (written-ok objects storable registry codec is_codec bolt ordered _ b' put))))))

  -- Let the codec decode what it has encoded, the bucket be an ordered map that save has filled, with
  -- generations of at most `n`, and `n + 1` be below 2 ^ 64. If Save of an object of a versioned kind,
  -- whose key has no "@" and whose generation is at most `n + 1`, returns no error, then the store has
  -- the saved object at its generation, every generation of every key is as before, the bucket is
  -- again such a one for `n + 1`, and Save says whether the saved object's generation is new or was
  -- there with the same content.
  pub save-IsSaved :
      (info : Info) (o : O)
      → registry (objects.get_kind o) ≡ some info
      → info.versioned ≡ true
      → objects.is_versioned o ≡ true
      → Plain (key_for objects o)
      → objects.get_generation o ≤ n + 1
      → OnOk (IsSaved o) (save objects registry codec bolt false o b)
  unfolding save
  save-IsSaved info o known versioned_kind versioned plain small =
      rw (known, versioned_kind, save)
        (bind-OnOk (IsSaved o) _ _
          (prepare-IsPrepared objects storable registry registered codec is_codec bolt ordered n b
            valid room info o plain small)
          (λ p _ h. written-IsSaved o p plain (h.versioned ∙ versioned) h))
