-- ===== src/Store/Bolt/Prepared.antt =====
-- pkg/runtime/store/generic/bolt/bolt.go: the generation that save gives a versioned object.
use aptomi.Base.{
  ℕ, ◌+◌, ◌≤◌, ◌<◌, ◌^◌, String, Bool, true, false, ◌≡◌, refl, sym, ap, ◌∙◌, subst, ◌⊎◌, inl, inr,
  Option, none, some, ◌==◌, nat_eq, arith, Bool-cases, Option-cases, if◌then◌else◌, eq_of_test, not,
  ◌&&◌,
}
use aptomi.Base.Result.{
  ok, ◌>>=◌, Result-cases, ok_injective, OnOk, ok-OnOk, bind-OnOk, any-OnOk, err-OnOk,
}
use aptomi.Store.Generations.{first_gen, last_gen, next}
use aptomi.Store.Objects.{Storable, Info, key_for, IsStorable}
use aptomi.Store.Bucket.{Bolt, IsOrdered}
use aptomi.Store.Bolt.{
  Codec, get_gen, path, set_generation, prepare_versioned, set_next_generation, equals,
  check_deleted, next_after,
}
use aptomi.Store.Bolt.Paths.{Plain}
use aptomi.Store.Bolt.Valid.{IsCodec, Valid, get_gen-IsGreatest, get_gen-none, decode_found-none}
use aptomi.Store.Bolt.Placed.{IsRegistered, IsAt, get_gen-IsAt, get_gen-versioned}

module _ {O B E : Type 0} (objects : Storable O) (storable : IsStorable objects)
    (registry : String → Option Info) (registered : IsRegistered objects registry)
    (codec : Codec O E) (is_codec : IsCodec codec) (bolt : Bolt B String E)
    (ordered : IsOrdered bolt) (n : ℕ) (b : B) (valid : Valid objects registry codec bolt n b)
    (room : n + 1 < 2 ^ 64) where
  -- What save writes for a versioned object.
  pub record IsPrepared (o : O) (p : Bool × O) : Type 0 where
    pub same_key : key_for objects p.1 ≡ key_for objects o
    pub same_kind : objects.get_kind p.1 ≡ objects.get_kind o
    pub versioned : objects.is_versioned p.1 ≡ objects.is_versioned o
    pub outcome :
        ((p.0 ≡ true)
          × (bolt.get (path (key_for objects p.1) (objects.get_generation p.1)) b ≡ none))
        ⊎ ((p.0 ≡ false)
            × IsAt objects storable registry registered codec is_codec bolt ordered n b valid room
                (key_for objects p.1)
                p.1)
    pub bound : objects.get_generation p.1 ≤ n + 1
    pub positive : 1 ≤ objects.get_generation p.1

  equals-same : (o₁ o₂ : O) → equals objects registry codec bolt o₁ o₂ ≡ ok true → o₁ ≡ o₂
  unfolding equals
  equals-same o₁ o₂ h = elim (Result-cases (codec.encode o₁)) [
    | inr (e, bad) ↦ absurd (ground (arith, bad, h))
    | inl (d₁, good₁) ↦ elim (Result-cases (codec.encode o₂)) [
      | inr (e, bad) ↦ absurd (ground (arith, good₁, bad, h))
      | inl (d₂, good₂) ↦
          let same : (d₁ == d₂) ≡ true = ground (arith, good₁, good₂, h) in
          ok_injective o₁ o₂ (
            sym (is_codec.decode-encode o₁ d₁ good₁)
            ∙ ap codec.decode (eq_of_test d₁ d₂ same)
            ∙ is_codec.decode-encode o₂ d₂ good₂)
    ]
  ]

  -- An object that gets a generation which is not there.
  placed-IsPrepared :
      (g : ℕ) (o : O)
      → g ≤ n + 1
      → 1 ≤ g
      → objects.is_versioned o ≡ true
      → bolt.get (path (key_for objects o) g) b ≡ none
      → IsPrepared o (true, objects.set_generation g o)
  placed-IsPrepared g o small positive versioned missing = record {
    same_key = storable.same_key g o;
    same_kind = storable.same_kind g o;
    versioned = storable.same_versioned g o;
    outcome = inl (refl, rw (storable.same_key g o, storable.get-set g o versioned) missing);
    bound = rw (storable.get-set g o versioned) small;
    positive = rw (storable.get-set g o versioned) positive;
  }

  -- No generation comes after the last one.
  after_last-vacant :
      (key : String) (l : O)
      → Plain key
      → get_gen objects registry codec bolt key last_gen b ≡ ok (some l)
      → bolt.get (path key (next (objects.get_generation l))) b ≡ none
  unfolding next
  after_last-vacant key l plain found =
      let at =
        get_gen-IsAt objects storable registry registered codec is_codec bolt ordered n b valid room
          key last_gen l plain (omega arith) found in
      let last =
        get_gen-IsGreatest objects registry codec bolt ordered n b key l valid plain found in
      let place = registered.versioned_place l (
        get_gen-versioned objects storable registry registered codec is_codec bolt ordered n b valid
          room key last_gen l found) in
      elim (Option-cases (bolt.get (path key (next (objects.get_generation l))) b)) [
        | inl missing ↦ missing
        | inr (d, there) ↦
            let le =
              last.greatest (next (objects.get_generation l)) d (omega (arith, at.bound, room))
                there in
            absurd (omega (arith, le, place, at.bound, room))
      ]

  next_after-IsPrepared :
      (o : O) (last : Option O)
      → objects.is_versioned o ≡ true
      → Plain (key_for objects o)
      → get_gen objects registry codec bolt (key_for objects o) last_gen b ≡ ok last
      → IsPrepared o (true, objects.set_generation (next_after objects registry codec bolt last) o)
  unfolding next
  next_after-IsPrepared o none versioned plain found =
      placed-IsPrepared 1 o (omega arith) (omega arith) versioned
        (get_gen-none objects registry codec bolt ordered b (key_for objects o) 1 found)
  next_after-IsPrepared o (some l) versioned plain found =
      let at =
        get_gen-IsAt objects storable registry registered codec is_codec bolt ordered n b valid room
          (key_for objects o) last_gen l plain (omega arith) found in
      placed-IsPrepared (next (objects.get_generation l)) o (omega (arith, at.bound, room))
        (omega (arith, at.bound, room)) versioned
        (after_last-vacant (key_for objects o) l plain found)

  set_next_generation-IsPrepared :
      (o : O)
      → objects.is_versioned o ≡ true
      → Plain (key_for objects o)
      → OnOk (λ o'. IsPrepared o (true, o')) (set_next_generation objects registry codec bolt o b)
  unfolding set_next_generation
  set_next_generation-IsPrepared o versioned plain =
      elim (Option-cases (registry (objects.get_kind o))) [
        | inl unknown ↦ rw (unknown, set_next_generation) (err-OnOk _ _)
        | inr (info, known) ↦ elim (Bool-cases info.versioned) [
          | inr other ↦ rw (known, other, set_next_generation) (err-OnOk _ _)
          | inl fits ↦
              rw (known, fits, set_next_generation)
                (bind-OnOk _ _ _
                  (any-OnOk (get_gen objects registry codec bolt (key_for objects o) last_gen b))
                  (λ last found _.
                    ok-OnOk _ _ (next_after-IsPrepared o last versioned plain found)))
        ]
      ]

  zero_test : (g : ℕ) → nat_eq g last_gen ≡ true → g ≡ last_gen
  zero_test g h = ground (arith, h)

  -- The generation of an object that the store does not have.
  new-IsPrepared :
      (o : O)
      → objects.is_versioned o ≡ true
      → objects.get_generation o ≤ n + 1
      → get_gen objects registry codec bolt (key_for objects o) (objects.get_generation o) b
        ≡ ok none
      → OnOk (IsPrepared o) (set_generation objects registry codec bolt false o none b)
  unfolding set_generation get_gen
  new-IsPrepared o versioned small missing =
      elim (Bool-cases (nat_eq (objects.get_generation o) last_gen)) [
        | inl last ↦
            rw (last, set_generation)
              (ok-OnOk (IsPrepared o) _ (
                placed-IsPrepared first_gen o (omega arith) (omega arith) versioned (
                  get_gen-none objects registry codec bolt ordered b (key_for objects o) first_gen (
                    subst
                      (λ g. get_gen objects registry codec bolt (key_for objects o) g b ≡ ok none)
                      (zero_test (objects.get_generation o) last) missing))))
        | inr given ↦
            rw (given, set_generation)
              (ok-OnOk (IsPrepared o) _ (record {
                same_key = refl;
                same_kind = refl;
                versioned = refl;
                outcome = inl (
                  refl,
                  decode_found-none objects registry codec bolt objects.is_versioned _
                      (rw (given, get_gen) at missing),
                );
                bound = small;
                positive = ground (arith, given);
              }))
      ]

  same_object-IsPrepared :
      (o o₁ : O) (p : Bool × O)
      → key_for objects o₁ ≡ key_for objects o
      → objects.get_kind o₁ ≡ objects.get_kind o
      → objects.is_versioned o₁ ≡ objects.is_versioned o
      → IsPrepared o₁ p
      → IsPrepared o p
  same_object-IsPrepared o o₁ p key kind versioned h = record {
    versioned = h.versioned ∙ versioned;
    outcome = h.outcome;
    positive = h.positive;
    same_key = h.same_key ∙ key;
    same_kind = h.same_kind ∙ kind;
    bound = h.bound;
  }

  -- An object that the store has: its generation stays if nothing has changed.
  compared-IsPrepared :
      (o e : O) (same : Bool)
      → objects.is_versioned o ≡ true
      → Plain (key_for objects o)
      → IsAt objects storable registry registered codec is_codec bolt ordered n b valid room
          (key_for objects o)
          e
      → equals objects registry codec bolt (objects.set_generation (objects.get_generation e) o) e
        ≡ ok same
      → OnOk (IsPrepared o) (
          if not false && not same
          then (set_next_generation objects registry codec bolt
                (objects.set_generation (objects.get_generation e) o)
                b
              >>= λ o₂. ok (true, o₂))
          else ok (false, objects.set_generation (objects.get_generation e) o))
  compared-IsPrepared o e true versioned plain at tested =
      let g = objects.get_generation e in
      let key = storable.same_key g o in
      ok-OnOk (IsPrepared o) _ (record {
        same_key = key;
        same_kind = storable.same_kind g o;
        versioned = storable.same_versioned g o;
        outcome = inr (
          refl,
          subst
              (IsAt objects storable registry registered codec is_codec bolt ordered n b valid room
                (key_for objects (objects.set_generation g o)))
              (sym (equals-same (objects.set_generation g o) e tested))
              (subst
                (λ k.
                  IsAt objects storable registry registered codec is_codec bolt ordered n b valid
                    room k e)
                (sym key) at),
        );
        bound = rw (storable.get-set g o versioned) (omega (arith, at.bound));
        positive = rw (storable.get-set g o versioned) at.positive;
      })
  compared-IsPrepared o e false versioned plain at tested =
      let g = objects.get_generation e in
      let o₁ = objects.set_generation g o in
      let key = storable.same_key g o in
      bind-OnOk (IsPrepared o) _ _
        (set_next_generation-IsPrepared o₁ (storable.same_versioned g o ∙ versioned)
          (subst Plain (sym key) plain))
        (λ o₂ _ h. ok-OnOk (IsPrepared o) _ (
          same_object-IsPrepared o o₁ (true, o₂) key (storable.same_kind g o)
            (storable.same_versioned g o) h))

  existing-IsPrepared :
      (o : O) (existing : Option O)
      → objects.is_versioned o ≡ true
      → Plain (key_for objects o)
      → objects.get_generation o ≤ n + 1
      → get_gen objects registry codec bolt (key_for objects o) (objects.get_generation o) b
        ≡ ok existing
      → OnOk (IsPrepared o) (set_generation objects registry codec bolt false o existing b)
  unfolding set_generation
  existing-IsPrepared o none versioned plain small found = new-IsPrepared o versioned small found
  existing-IsPrepared o (some e) versioned plain small found =
      bind-OnOk (IsPrepared o) _ _
        (any-OnOk (
          equals objects registry codec bolt (objects.set_generation (objects.get_generation e) o)
            e))
        (λ same tested _.
          compared-IsPrepared o e same versioned plain
            (get_gen-IsAt objects storable registry registered codec is_codec bolt ordered n b valid
              room (key_for objects o) (objects.get_generation o) e plain
              (omega (arith, small, room)) found)
            tested)

  pub prepare-IsPrepared :
      (info : Info) (o : O)
      → Plain (key_for objects o)
      → objects.get_generation o ≤ n + 1
      → OnOk (IsPrepared o) (prepare_versioned objects registry codec bolt false info o b)
  unfolding prepare_versioned
  prepare-IsPrepared info o plain small = elim (Bool-cases (objects.is_versioned o)) [
    | inr other ↦ rw (other, prepare_versioned) (err-OnOk (IsPrepared o) _)
    | inl versioned ↦
        rw (versioned, prepare_versioned)
          (bind-OnOk (IsPrepared o) _ _
            (any-OnOk (
              get_gen objects registry codec bolt (key_for objects o) (objects.get_generation o) b))
            (λ existing found _.
              bind-OnOk (IsPrepared o) _ _
                (any-OnOk (check_deleted objects registry codec bolt info o existing))
                (λ _ _ _. existing-IsPrepared o existing versioned plain small found)))
  ]
