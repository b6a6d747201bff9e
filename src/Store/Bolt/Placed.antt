-- ===== src/Store/Bolt/Placed.antt =====
-- pkg/runtime/store/generic/bolt/bolt.go: the versioned objects that GetGen finds, and where they stand.
use aptomi.Base.{
  ℕ, ◌+◌, ◌≤◌, ◌<◌, ◌^◌, String, true, ◌≡◌, refl, sym, ap, ◌∙◌, subst, inl, inr, Option, none, some,
  nat_eq, arith, Bool-cases,
}
use aptomi.Base.Result.{ok, Result-cases, ok_injective}
use aptomi.Store.Generations.{last_gen, gen_str}
use aptomi.Store.Objects.{Storable, Info, key_for, IsStorable}
use aptomi.Store.Bucket.{Bolt, IsOrdered}
use aptomi.Store.Bolt.{Codec, get_gen, path, decode_found}
use aptomi.Store.Bolt.Paths.{Plain}
use aptomi.Store.Bolt.Valid.{IsCodec, place, IsStored, Valid, IsGreatest, get_gen-IsGreatest}
use aptomi.Store.Generations.Order.{gen_str-injective}
use aptomi.Base.Text.Separators.{cut_first}
use aptomi.Store.Bolt.Paths.{at_sign}

-- The kinds of versioned objects are registered as such, so that their paths end in the generation.
pub record IsRegistered {O : Type 0} (objects : Storable O) (registry : String → Option Info)
    : Type 0 where
  pub versioned_place :
      (o : O) → objects.is_versioned o ≡ true → place objects registry o ≡ objects.get_generation o

module _ {O B E : Type 0} (objects : Storable O) (storable : IsStorable objects)
    (registry : String → Option Info) (registered : IsRegistered objects registry)
    (codec : Codec O E) (is_codec : IsCodec codec) (bolt : Bolt B String E)
    (ordered : IsOrdered bolt) (n : ℕ) (b : B) (valid : Valid objects registry codec bolt n b)
    (room : n + 1 < 2 ^ 64) where
  -- The data of a versioned object, at its generation.
  pub record IsAt (key : String) (e : O) : Type 0 where
    pub raw : String
    pub decoded : codec.decode raw ≡ ok e
    pub found : bolt.get (path key (objects.get_generation e)) b ≡ some raw
    pub bound : objects.get_generation e ≤ n
    pub positive : 1 ≤ objects.get_generation e

  decode_found-versioned :
      (d : Option String) (e : O)
      → decode_found objects registry codec bolt objects.is_versioned d ≡ ok (some e)
      → (raw : String) × (d ≡ some raw)
        × (codec.decode raw ≡ ok e)
        × (objects.is_versioned e ≡ true)
  unfolding decode_found
  decode_found-versioned none e h = absurd (ground (arith, h))
  decode_found-versioned (some raw) e h = elim (Result-cases (codec.decode raw)) [
    | inr (x, bad) ↦ absurd (ground (arith, bad, h))
    | inl (o, good) ↦ elim (Bool-cases (objects.is_versioned o)) [
      | inr other ↦ absurd (ground (arith, good, other, h))
      | inl fits ↦
          let same : o ≡ e = ground (arith, good, fits, h) in
          (raw, refl, ground (arith, good, same), ground (arith, fits, same))
    ]
  ]

  entry-positive :
      {k d : String} {e : O} (entry : IsStored objects registry codec bolt n k d)
      → entry.object ≡ e
      → objects.is_versioned e ≡ true
      → 1 ≤ place objects registry e
  entry-positive {e} entry same versioned =
      subst (λ x. objects.is_versioned x ≡ true → 1 ≤ place objects registry x) same entry.positive
        versioned

  greatest-IsAt :
      (key : String) (e : O)
      → objects.is_versioned e ≡ true
      → IsGreatest objects registry codec bolt key b e
      → IsAt key e
  greatest-IsAt key e versioned last =
      let same = registered.versioned_place e versioned in
      let entry = valid.stored _ last.raw last.found in
      let object = ok_injective entry.object e (sym entry.decoded ∙ last.decoded) in
      record {
        raw = last.raw;
        decoded = last.decoded;
        found = subst (λ g. bolt.get (path key g) b ≡ some last.raw) same last.found;
        bound =
            subst (λ g. g ≤ n) same (subst (λ x. place objects registry x ≤ n) object entry.bound);
        positive = subst (λ g. 1 ≤ g) same (entry-positive entry object versioned);
      }

  given-IsAt :
      (key : String) (g : ℕ) (e : O) (raw : String)
      → Plain key
      → g < 2 ^ 64
      → objects.is_versioned e ≡ true
      → codec.decode raw ≡ ok e
      → bolt.get (path key g) b ≡ some raw
      → IsAt key e
  given-IsAt key g e raw plain small versioned decoded found =
      let entry = valid.stored (path key g) raw found in
      let object = ok_injective entry.object e (sym entry.decoded ∙ decoded) in
      let bound = subst (λ x. place objects registry x ≤ n) object entry.bound in
      let cut =
        cut_first at_sign key (key_for objects entry.object) (gen_str g)
          (gen_str (place objects registry entry.object)) plain entry.plain entry.at in
      let same_gen =
        gen_str-injective g (place objects registry e) small (omega (arith, bound, room))
          (cut.1 ∙ ap (λ x. gen_str (place objects registry x)) object) in
      let same = same_gen ∙ registered.versioned_place e versioned in
      record {
        raw = raw;
        decoded = decoded;
        found = subst (λ x. bolt.get (path key x) b ≡ some raw) same found;
        bound = subst (λ x. x ≤ n) (registered.versioned_place e versioned) bound;
        positive =
            subst (λ g. 1 ≤ g) (registered.versioned_place e versioned)
              (entry-positive entry object versioned);
      }

  pub get_gen-IsAt :
      (key : String) (g : ℕ) (e : O)
      → Plain key
      → g < 2 ^ 64
      → get_gen objects registry codec bolt key g b ≡ ok (some e)
      → IsAt key e
  unfolding get_gen
  get_gen-IsAt key g e plain small h = elim (Bool-cases (nat_eq g last_gen)) [
    | inl last ↦
        let h' = rw (last, get_gen) at h in
        let found = decode_found-versioned _ e h' in
        greatest-IsAt key e found.3
          (get_gen-IsGreatest objects registry codec bolt ordered n b key e valid plain h')
    | inr given ↦
        let found = decode_found-versioned _ e (rw (given, get_gen) at h) in
        given-IsAt key g e found.0 plain small found.3 found.2
          (subst (λ d. d ≡ some found.0) refl found.1)
  ]

  pub get_gen-versioned :
      (key : String) (g : ℕ) (e : O)
      → get_gen objects registry codec bolt key g b ≡ ok (some e)
      → objects.is_versioned e ≡ true
  unfolding get_gen
  get_gen-versioned key g e h = elim (Bool-cases (nat_eq g last_gen)) [
    | inl last ↦ (decode_found-versioned _ e (rw (last, get_gen) at h)).3
    | inr given ↦ (decode_found-versioned _ e (rw (given, get_gen) at h)).3
  ]
