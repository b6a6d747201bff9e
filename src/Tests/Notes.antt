-- ===== src/Tests/Notes.antt =====
-- pkg/runtime/store/generic/bolt/bolt.go: runs of the store over a bucket in memory, and the theorems
-- at concrete inputs.
use Prim.Native.Char.{Char, char, code}
use aptomi.Base.{
  ℕ, zero, suc, ◌+◌, ◌^◌, ◌<◌, String, Bool, true, false, ◌≡◌, refl, Option, none, some, [], ◌∷◌,
  arith, nat_eq, if◌then◌else◌, ◌==◌, string_dec, ap, sym,
}
use aptomi.Base.Dict.{lookup}
use aptomi.Base.Result.{Result, ok, err, ok_injective, OnOk}
use aptomi.Base.Text.{has_prefix, lacks}
use aptomi.Store.Generations.{digit_char, padded, gen_str, text_lt, last_gen, next}
use aptomi.Store.Generations.Order.{gen_str-lt}
use aptomi.Store.Objects.{Storable, Info, IsStorable, key_for, key_from_parts}
use aptomi.Store.Bucket.{take_prefix, last_value}
use aptomi.Store.Bolt.{
  Codec, Saved, save, get_gen, StoreError, decode_found, equals, write, prepare_versioned,
  set_generation, set_next_generation, check_deleted,
}
use aptomi.Store.Bolt.Paths.{Plain}
use aptomi.Store.Bolt.Valid.{IsCodec, Valid}
use aptomi.Store.Bolt.Placed.{IsRegistered}
use aptomi.Store.Bolt.Saves.{IsSaved, save-IsSaved}
use aptomi.Store.Bolt.Unversioned.{get-save}
use aptomi.Store.Bolt.{get}
use aptomi.Store.Bolt.Instance.{bolt_store, IsSavable, bolt_store-IsHistory}
use aptomi.Store.Generic.{IsHistory}
use aptomi.Tests.Bucket.{Bucket, empty, in_memory, in_memory-IsOrdered, set, from, put}

record Note : Type 0 where
  content : Bool
  generation : ℕ

abbrev notes : Storable Note
notes = record {
  get_kind = λ _. "note";
  get_namespace = λ _. "main";
  get_name = λ _. "first";
  is_versioned = λ _. true;
  get_generation = λ n. n.generation;
  set_generation = λ g n. record n { generation = g };
  is_deleted = λ _. false;
}

abbrev note_info : Info
note_info = record { versioned = true; deletable = false }

abbrev registry : String → Option Info
registry kind = if kind == "note" then some note_info else none

unfoldable strokes : ℕ → String
strokes zero = ""
strokes (suc n) = String.◌∷◌ (char 49 tt) (strokes n)

unfoldable count : String → ℕ
count String.[] = 0
count (String.◌∷◌ c s) = suc (count s)

count-strokes : (n : ℕ) → count (strokes n) ≡ n
unfolding count strokes
count-strokes zero = refl
count-strokes (suc n) = ap suc (count-strokes n)

unfoldable mark : Bool → Char
mark true = char 97 tt
mark false = char 98 tt

unfoldable encode : Note → Result String String
encode n = ok (String.◌∷◌ (mark n.content) (strokes n.generation))

unfoldable decode : String → Result String Note
decode String.[] = err "nothing"
decode (String.◌∷◌ c s) = ok (record { content = nat_eq (code c) 97; generation = count s })

abbrev codec : Codec Note String
codec = record { encode = encode; decode = decode }

read_mark : (b : Bool) → nat_eq (code (mark b)) 97 ≡ b
unfolding mark
read_mark true = refl
read_mark false = refl

decode-encode : (n : Note) (d : String) → encode n ≡ ok d → decode d ≡ ok n
unfolding encode decode
decode-encode n d h =
    rw (sym (ok_injective _ d h), decode, read_mark n.content, count-strokes n.generation) refl

is_codec : IsCodec codec
is_codec = record { decode-encode = decode-encode }

storable : IsStorable notes
unfolding key_for
storable = record {
  get-set = λ g o _. refl;
  same_key = λ g o. refl;
  same_kind = λ g o. refl;
  same_versioned = λ g o. refl;
}

registered : IsRegistered notes registry
unfolding string_dec
registered = record { versioned_place = λ o _. refl }

abbrev note : Bool → ℕ → Note
note content generation = record { content = content; generation = generation }

-- A bucket without objects.
empty-Valid : Valid notes registry codec in_memory 0 empty
unfolding in_memory lookup
empty-Valid = record { stored = λ k d there. absurd (ground (arith, there)) }

abbrev save_note : Bool → Bucket → Result (StoreError String) (Saved Note Bucket)
save_note content = save notes registry codec in_memory false (note content last_gen)

abbrev bucket_of : Result (StoreError String) (Saved Note Bucket) → Bucket
bucket_of (ok s) = s.bucket
bucket_of (err _) = empty

abbrev once : Bucket
once = bucket_of (save_note true empty)

abbrev twice : Bucket
twice = bucket_of (save_note false once)

-- The keys of two generations.
twice_test :
    twice.entries
    ≡ ("main/note/first@                   1", "a1")
      ∷ ("main/note/first@                   2", "b11")
      ∷ []
unfolding save string_dec prepare_versioned get_gen decode_found last_value take_prefix in_memory
    from check_deleted set_generation write encode decode put set text_lt key_for key_from_parts
    lookup has_prefix equals set_next_generation digit_char gen_str next padded mark strokes count
twice_test = refl

-- Saving what is there makes no generation.
again_test :
    save_note true once
    ≡ ok
        (record { updated = false; object = note true 1; bucket = bucket_of (save_note true once) })
unfolding save string_dec prepare_versioned get_gen decode_found last_value take_prefix in_memory
    from check_deleted set_generation write encode decode put set text_lt key_for key_from_parts
    lookup has_prefix equals set_next_generation digit_char gen_str next padded mark strokes count
again_test = refl

once_test :
    save_note true empty ≡ ok (record { updated = true; object = note true 1; bucket = once })
unfolding save string_dec prepare_versioned get_gen decode_found last_value take_prefix in_memory
    from check_deleted set_generation write encode decode put set text_lt key_for key_from_parts
    lookup has_prefix equals set_next_generation digit_char gen_str next padded mark strokes count
once_test = refl

known : (o : Note) → registry (notes.get_kind o) ≡ some note_info
unfolding string_dec
known o = refl

plain : (o : Note) → Plain (key_for notes o)
unfolding key_for key_from_parts lacks string_dec
plain o = refl

-- The bucket after a note has been saved.
saved-Valid :
    (n : ℕ) (b : Bucket) (valid : Valid notes registry codec in_memory n b) (room : n + 1 < 2 ^ 64)
    (content : Bool) (s : Saved Note Bucket)
    → save_note content b ≡ ok s
    → Valid notes registry codec in_memory (n + 1) s.bucket
saved-Valid n b valid room content s done =
    let o = note content last_gen in
    ((save-IsSaved notes storable registry registered codec is_codec in_memory in_memory-IsOrdered n
        b valid room note_info o (known o) refl refl (plain o) (omega arith)).at
      s done).remains

once-Valid : Valid notes registry codec in_memory 1 once
once-Valid = saved-Valid 0 empty empty-Valid (omega arith) true _ once_test

save-IsSaved_example :
    OnOk
      (IsSaved notes storable registry registered codec is_codec in_memory in_memory-IsOrdered 1
        once once-Valid
        (omega arith)
        (note false last_gen))
      (save_note false once)
save-IsSaved_example =
    save-IsSaved notes storable registry registered codec is_codec in_memory in_memory-IsOrdered 1
      once once-Valid (omega arith) note_info (note false last_gen) (known (note false last_gen))
      refl refl (plain (note false last_gen)) (omega arith)

bolt_store-IsHistory_example :
    IsHistory notes
      (bolt_store notes registry codec in_memory)
      (Valid notes registry codec in_memory)
      (IsSavable notes registry codec in_memory)
      Plain
bolt_store-IsHistory_example =
    bolt_store-IsHistory notes storable registry registered codec is_codec in_memory
      in_memory-IsOrdered

gen_str-lt_example : text_lt (gen_str 9) (gen_str 10) ≡ true
gen_str-lt_example = gen_str-lt 9 10 (omega arith) (omega arith)

-- The same store with a registry in which notes have no generations.
abbrev no_generations : String → Option Info
no_generations _ = some (record { versioned = false; deletable = false })

abbrev stored : Bucket
stored = bucket_of (save notes no_generations codec in_memory false (note true last_gen) empty)

stored_test :
    save notes no_generations codec in_memory false (note true last_gen) empty
    ≡ ok (record { updated = false; object = note true last_gen; bucket = stored })
unfolding save write encode in_memory
stored_test = refl

get-save_example :
    get notes no_generations codec in_memory "main/note/first" stored
    ≡ ok (some (note true last_gen))
unfolding key_for key_from_parts string_dec
get-save_example =
    get-save notes no_generations codec is_codec in_memory in_memory-IsOrdered
      (record { versioned = false; deletable = false }) "main/note/first" (note true last_gen) empty
      _ refl refl stored_test
