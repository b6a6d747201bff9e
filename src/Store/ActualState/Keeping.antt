-- ===== src/Store/ActualState/Keeping.antt =====
-- pkg/runtime/store/core/actualstate_updater.go over pkg/runtime/store/generic/bolt/bolt.go: the store
-- over BoltDB keeps the instances that it saves.
use Prim.Native.Char.{char}
use Prim.Native.String.{◌++◌}
use text.Mathlib.TextLemmas.{cons-append}
use aptomi.Base.{
  String, Bool, true, false, ◌≡◌, refl, sym, ap, ◌∙◌, subst, inl, inr, Option, none, some, List,
  ◌==◌, arith, Bool-cases, if◌then◌else◌, eq_of_test, string_dec,
}
use aptomi.Base.Result.{Result, ok}
use aptomi.Base.Text.Cancel.{same_end, not_longer}
use aptomi.Lang.Objects.{system_ns}
use aptomi.Engine.Keys.{get_key}
use aptomi.Store.Objects.{key_for, key_from_parts}
use aptomi.Store.Bucket.{Bolt, IsOrdered}
use aptomi.Store.Bolt.{Codec, StoreError, get}
use aptomi.Store.Bolt.Valid.{IsCodec}
use aptomi.Store.Bolt.Instance.{bolt_store}
use aptomi.Store.Bolt.Unversioned.{get-save}
use aptomi.Store.Data.{Stored, component_instance, storable, registry}
use aptomi.Store.ActualState.{storable_key}
use aptomi.Store.ActualState.Agreement.{KeepsInstances}

abbrev base : String
base = system_ns ++ ("/" ++ "component-instance")

not_base : (k : String) → base ≡ base ++ ("/" ++ k) → ⊥
not_base k h =
    not_longer base ("" ++ k) (char 47 tt) (h ∙ ap (λ s. base ++ s) (cons-append (char 47 tt) "" k))

same_name : (j k : String) → storable_key j ≡ storable_key k → j ≡ k
unfolding key_from_parts
same_name j k h = elim (Bool-cases (j == "")) [
  | inl e ↦ elim (Bool-cases (k == "")) [
    | inl f ↦ eq_of_test j "" e ∙ sym (eq_of_test k "" f)
    | inr f ↦ absurd (not_base k (rw (e, f, key_from_parts) at h))
  ]
  | inr e ↦ elim (Bool-cases (k == "")) [
    | inl f ↦ absurd (not_base j (sym (rw (e, f, key_from_parts) at h)))
    | inr f ↦
        same_end "/" j k (same_end base ("/" ++ j) ("/" ++ k) (rw (e, f, key_from_parts) at h))
  ]
]

pub same_storable_key : (j k : String) → (storable_key j == storable_key k) ≡ (j == k)
same_storable_key j k = elim (Bool-cases (j == k)) [
  | inl e ↦ let path = eq_of_test j k e in ground (arith, e, path)
  | inr e ↦ elim (Bool-cases (storable_key j == storable_key k)) [
    | inr f ↦ ground (arith, e, f)
    | inl f ↦
        let path = same_name j k (eq_of_test (storable_key j) (storable_key k) f) in
        absurd (ground (arith, e, path))
  ]
]

pub ok_if :
    {E : Type 0} (b : Bool) (o p q : Option Stored)
    → o ≡ (if b then p else q)
    → ◌≡◌ {A = Result E (Option Stored)} (ok o) (if b then ok p else ok q)
ok_if true o p q h = ap ok h
ok_if false o p q h = ap ok h

module _ {B E : Type 0} (codec : Codec Stored E) (is_codec : IsCodec codec) (bolt : Bolt B String E)
    (ordered : IsOrdered bolt) (list : String → B → Result (StoreError E) (List Stored))
    (delete : String → B → Result (StoreError E) B) where
  -- What Delete is to do: the instance of a key goes, and others stay.
  record Deletes : Type 0 where
    get-delete :
        (key gone : String) (b b' : B)
        → delete (storable_key gone) b ≡ ok b'
        → get storable registry codec bolt (storable_key key) b'
          ≡ (if key == gone then ok none else get storable registry codec bolt (storable_key key) b)

  -- With such a Delete, the store over BoltDB is what the updater of the actual state relies on.
  bolt_store-KeepsInstances :
      Deletes → KeepsInstances (bolt_store storable registry codec bolt) list delete
  unfolding registry string_dec key_for
  bolt_store-KeepsInstances deletes = record {
    get-save = λ key i b saved done.
        subst
          (λ t. get storable registry codec bolt (storable_key key) saved.bucket ≡ (
            if t
            then ok (some (component_instance i))
            else get storable registry codec bolt (storable_key key) b))
          (same_storable_key key (get_key i.key))
          (get-save storable registry codec is_codec bolt ordered
            (record { versioned = false; deletable = false }) (storable_key key)
            (component_instance i) b saved refl refl done);
    get-delete = deletes.get-delete;
  }
