-- ===== src/Store/Bolt/Valid.antt =====
-- pkg/runtime/store/generic/bolt/bolt.go: what a bucket that the store has written looks like, and
-- what GetGen finds in it.
use aptomi.Base.{
  ℕ, ◌≤◌, ◌<◌, ◌^◌, String, Bool, true, ◌≡◌, refl, sym, ◌∙◌, subst, ◌⊎◌, inl, inr, Option, none,
  some, arith, Option-cases, if◌then◌else◌,
}
use aptomi.Base.Lists.{In}
use aptomi.Base.Result.{ok, Result-cases, ok_injective}
use aptomi.Base.Text.{has_prefix}
use aptomi.Store.Generations.{last_gen, gen_str, text_lt}
use aptomi.Store.Objects.{Storable, Info, key_for}
use aptomi.Store.Bucket.{Bolt, IsOrdered, scan}
use aptomi.Store.Bucket.Scan.{scan_complete, scan_sound, scan-Ascending, last_value-cases, IsLast}
use aptomi.Store.Bolt.{Codec, get_gen, path, prefix_of, decode_found}
use aptomi.Store.Bolt.Paths.{Plain, same_prefix, path-has_prefix, path-le}

-- What is encoded is decoded again.
pub record IsCodec {O E : Type 0} (codec : Codec O E) : Type 0 where
  pub decode-encode : (o : O) (d : String) → codec.encode o ≡ ok d → codec.decode d ≡ ok o

module _ {O : Type 0} (objects : Storable O) (registry : String → Option Info) where
  -- The generation in the path of an object.
  abbrev pub place : O → ℕ
  place o = elim (registry (objects.get_kind o)) [
    | none ↦ last_gen
    | some info ↦ if info.versioned then objects.get_generation o else last_gen
  ]

module _ {O B E : Type 0} (objects : Storable O) (registry : String → Option Info)
    (codec : Codec O E) (bolt : Bolt B String E) where
  -- The data at `k` is an object that stands there, with a generation of at most `n`.
  pub record IsStored (n : ℕ) (k d : String) : Type 0 where
    pub object : O
    pub decoded : codec.decode d ≡ ok object
    pub plain : Plain (key_for objects object)
    pub at : k ≡ path (key_for objects object) (place objects registry object)
    pub bound : place objects registry object ≤ n
    pub positive : objects.is_versioned object ≡ true → 1 ≤ place objects registry object

  -- Everything in the bucket has been stored by save, with generations of at most `n`.
  pub record Valid (n : ℕ) (b : B) : Type 0 where
    pub stored : (k d : String) → bolt.get k b ≡ some d → IsStored n k d

  -- An object with the greatest generation of those with a key.
  pub record IsGreatest (key : String) (b : B) (o : O) : Type 0 where
    pub raw : String
    pub decoded : codec.decode raw ≡ ok o
    pub same_key : key_for objects o ≡ key
    pub found : bolt.get (path key (place objects registry o)) b ≡ some raw
    pub greatest :
        (g : ℕ) (d : String)
        → g < 2 ^ 64
        → bolt.get (path key g) b ≡ some d
        → g ≤ place objects registry o

  decode_found-some :
      (fits : O → Bool) (d : String) (o : O)
      → decode_found objects registry codec bolt fits (some d) ≡ ok (some o)
      → codec.decode d ≡ ok o
  unfolding decode_found
  decode_found-some fits d o h = elim (Result-cases (codec.decode d)) [
    | inr (e, bad) ↦ absurd (ground (arith, bad, h))
    | inl (o', good) ↦ ground (arith, good, h)
  ]

  -- Data never counts as nothing.
  pub decode_found-none :
      (fits : O → Bool) (d : Option String)
      → decode_found objects registry codec bolt fits d ≡ ok none
      → d ≡ none
  unfolding decode_found
  decode_found-none fits none h = refl
  decode_found-none fits (some d) h = elim (Result-cases (codec.decode d)) [
    | inr (e, bad) ↦ absurd (ground (arith, bad, h))
    | inl (o, good) ↦ absurd (ground (arith, good, h))
  ]

  module _ (ordered : IsOrdered bolt) where
    last-IsGreatest :
        (n : ℕ) (b : B) (key d : String) (o : O)
        → Valid n b
        → Plain key
        → IsLast (scan bolt (prefix_of key) b) d
        → codec.decode d ≡ ok o
        → IsGreatest key b o
    last-IsGreatest n b key d o valid plain last decoded =
        let here = scan_sound bolt ordered (prefix_of key) last.key d b last.inside in
        let entry = valid.stored last.key d here.0 in
        let same = ok_injective entry.object o (sym entry.decoded ∙ decoded) in
        let at =
          subst (λ x. last.key ≡ path (key_for objects x) (place objects registry x)) same
            entry.at in
        let keys =
          same_prefix (key_for objects o) key (gen_str (place objects registry o))
            (subst (λ x. Plain (key_for objects x)) same entry.plain) plain
            (subst (λ k. has_prefix k (prefix_of key) ≡ true) at here.1) in
        let at_key = subst (λ k. last.key ≡ path k (place objects registry o)) keys at in
        record {
          raw = d;
          decoded = decoded;
          same_key = keys;
          found = subst (λ k. bolt.get k b ≡ some d) at_key here.0;
          greatest = λ g d' small there. path-le key g (place objects registry o) small (
              subst (λ k. (path key g ≡ k) ⊎ (text_lt (path key g) k ≡ true)) at_key
                (last.greatest (path key g) d' (
                  scan_complete bolt ordered (prefix_of key) (path key g) d' b there
                    (path-has_prefix key g))));
        }

    pub get_gen-IsGreatest :
        (n : ℕ) (b : B) (key : String) (o : O)
        → Valid n b
        → Plain key
        → get_gen objects registry codec bolt key last_gen b ≡ ok (some o)
        → IsGreatest key b o
    unfolding get_gen decode_found
    get_gen-IsGreatest n b key o valid plain h =
        elim (last_value-cases (scan bolt (prefix_of key) b)
          (scan-Ascending bolt ordered (prefix_of key) b)) [
            | inl (missing, _) ↦ absurd (ground (arith, missing, h))
            | inr (d, found, last) ↦
                last-IsGreatest n b key d o valid plain last
                  (decode_found-some objects.is_versioned d o (rw (found) at h))
          ]

    -- If GetGen finds no last generation, then there is none.
    pub get_gen-none :
        (b : B) (key : String) (g : ℕ)
        → get_gen objects registry codec bolt key last_gen b ≡ ok none
        → bolt.get (path key g) b ≡ none
    unfolding get_gen
    get_gen-none b key g h =
        elim (last_value-cases (scan bolt (prefix_of key) b)
          (scan-Ascending bolt ordered (prefix_of key) b)) [
            | inr (d, found, last) ↦
                absurd (ground (arith, found, decode_found-none objects.is_versioned _ h))
            | inl (_, nothing) ↦ elim (Option-cases (bolt.get (path key g) b)) [
              | inl missing ↦ missing
              | inr (d, there) ↦ absurd (
                  subst (In (path key g, d)) nothing (
                    scan_complete bolt ordered (prefix_of key) (path key g) d b there
                      (path-has_prefix key g)))
            ]
          ]
