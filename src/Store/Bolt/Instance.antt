-- ===== src/Store/Bolt/Instance.antt =====
-- pkg/runtime/store/generic/bolt/bolt.go: the store over BoltDB is what the core relies on.
use aptomi.Base.{ℕ, ◌+◌, String, true, false, ◌≡◌, Option, some, arith}
use aptomi.Store.Generations.{last_gen}
use aptomi.Store.Objects.{Storable, Info, key_for, IsStorable}
use aptomi.Store.Bucket.{Bolt, IsOrdered}
use aptomi.Store.Bolt.{Codec, StoreError, get, get_gen, list_generations, save}
use aptomi.Store.Bolt.Paths.{Plain}
use aptomi.Store.Bolt.Valid.{IsCodec, Valid}
use aptomi.Store.Bolt.Placed.{IsRegistered, get_gen-IsAt}
use aptomi.Store.Bolt.Saves.{save-IsSaved}
use aptomi.Store.Generic.{Generic, IsHistory}

module _ {O B E : Type 0} (objects : Storable O) (registry : String → Option Info)
    (codec : Codec O E) (bolt : Bolt B String E) where
  abbrev pub bolt_store : Generic O B (StoreError E)
  bolt_store = record {
    get = get objects registry codec bolt;
    get_gen = get_gen objects registry codec bolt;
    list_generations = list_generations objects registry codec bolt;
    save = save objects registry codec bolt false;
    update = save objects registry codec bolt true;
  }

  -- An object of a registered versioned kind whose key has no "@".
  pub record IsSavable (o : O) : Type 0 where
    pub info : Info
    pub known : registry (objects.get_kind o) ≡ some info
    pub versioned_kind : info.versioned ≡ true
    pub versioned : objects.is_versioned o ≡ true
    pub plain : Plain (key_for objects o)

module _ {O B E : Type 0} (objects : Storable O) (storable : IsStorable objects)
    (registry : String → Option Info) (registered : IsRegistered objects registry)
    (codec : Codec O E) (is_codec : IsCodec codec) (bolt : Bolt B String E)
    (ordered : IsOrdered bolt) where
  grows :
      (n : ℕ) (b : B)
      → Valid objects registry codec bolt n b
      → Valid objects registry codec bolt (n + 1) b
  grows n b valid = record {
    stored = λ k d there.
        let old = valid.stored k d there in
        record {
          object = old.object;
          decoded = old.decoded;
          plain = old.plain;
          at = old.at;
          bound = omega (arith, old.bound);
          positive = old.positive;
        };
  }

  -- The store over BoltDB keeps all generations. With a codec that decodes what it has encoded and a
  -- bucket that is an ordered map, in a bucket that save has filled with generations of at most `n`,
  -- where n + 1 is below 2 ^ 64: Save of an object of a versioned kind, whose key has no "@" and whose
  -- generation is at most n + 1, makes no generation greater than n + 1, and GetGen still gives every
  -- object that it gave for a generation of a key; and what GetGen gives for the last generation of a
  -- key without "@" has a generation of at most n.
  pub bolt_store-IsHistory :
      IsHistory objects
        (bolt_store objects registry codec bolt)
        (Valid objects registry codec bolt)
        (IsSavable objects registry codec bolt)
        Plain
  bolt_store-IsHistory = record {
    grows = grows;
    last_bound = λ n b key o valid small plain found.
        (get_gen-IsAt objects storable registry registered codec is_codec bolt ordered n b valid
          small key last_gen o plain (omega arith) found).bound;
    save_remains = λ n b o valid room can bound. record {
      at = λ saved done.
          let r =
            (save-IsSaved objects storable registry registered codec is_codec bolt ordered n b valid
                room can.info o can.known can.versioned_kind can.versioned can.plain bound).at
              saved done in
          (r.remains, record { kept = r.kept });
    };
  }
