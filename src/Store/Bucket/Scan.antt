-- ===== src/Store/Bucket/Scan.antt =====
-- What a loop over a prefix of keys finds in a bucket.
use aptomi.Base.{
  String, true, false, ◌≡◌, refl, ap, sym, subst, none, some, [], ◌∷◌, inl, inr, Bool-cases, arith,
  ◌⊎◌,
}
use aptomi.Base.Dict.{Dict}
use aptomi.Base.Entries.{Each}
use aptomi.Base.Lists.{In}
use aptomi.Base.Text.{has_prefix}
use aptomi.Store.Generations.{text_lt}
use aptomi.Store.Bucket.{Bolt, IsOrdered, Ascending, take_prefix, scan, last_value}

-- Between a prefix and a text that has it, all texts have it.
has_prefix-between :
    (p j k : String)
    → text_lt j p ≡ false
    → text_lt j k ≡ true
    → has_prefix k p ≡ true
    → has_prefix j p ≡ true
unfolding text_lt has_prefix
has_prefix-between String.[] j k from lt has = refl
has_prefix-between (String.◌∷◌ c p) String.[] k from lt has = cc
has_prefix-between (String.◌∷◌ c p) (String.◌∷◌ d j) String.[] from lt has = cc
has_prefix-between (String.◌∷◌ c p) (String.◌∷◌ d j) (String.◌∷◌ e k) from lt has =
    ground (arith, has_prefix-between p j k)

module _ {D : Type 0} where
  Each-In :
      (P : String → D → Type 0) (l : Dict D) (k : String) (d : D) → Each P l → In (k, d) l → P k d
  Each-In P [] k d h inside = absurd inside
  Each-In P ((j, e) ∷ l) k d h (inl same) = subst (λ x. P x.0 x.1) (sym same) h.0
  Each-In P ((j, e) ∷ l) k d h (inr inside) = Each-In P l k d h.1 inside

  take_prefix_complete :
      (p : String) (l : Dict D) (k : String) (d : D)
      → Each (λ j _. text_lt j p ≡ false) l
      → Ascending l
      → In (k, d) l
      → has_prefix k p ≡ true
      → In (k, d) (take_prefix p l)
  unfolding take_prefix
  take_prefix_complete p [] k d from up inside has = absurd inside
  take_prefix_complete p ((j, e) ∷ l) k d from up inside has = elim (Bool-cases (has_prefix j p)) [
    | inl starts ↦
        rw (starts, take_prefix)
          (elim inside [
            | inl same ↦ inl same
            | inr later ↦ inr (take_prefix_complete p l k d from.1 up.1 later has)
          ])
    | inr not_so ↦ absurd (elim inside [
      | inl same ↦ ground (arith, not_so, has, ap (λ (x : String × D). x.0) same)
      | inr later ↦ ground (
        arith,
        not_so,
        has_prefix-between p j k from.0 (Each-In (λ i _. text_lt j i ≡ true) l k d up.0 later) has,
      )
    ])
  ]

  take_prefix_sound :
      (p : String) (l : Dict D) (k : String) (d : D)
      → In (k, d) (take_prefix p l)
      → In (k, d) l × (has_prefix k p ≡ true)
  unfolding take_prefix
  take_prefix_sound p [] k d inside = absurd inside
  take_prefix_sound p ((j, e) ∷ l) k d inside = elim (Bool-cases (has_prefix j p)) [
    | inl starts ↦ elim (rw (starts, take_prefix) at inside) [
      | inl same ↦ (inl same, ground (arith, starts, ap (λ (x : String × D). x.0) same))
      | inr later ↦ let rest = take_prefix_sound p l k d later in (inr rest.0, rest.1)
    ]
    | inr not_so ↦ absurd (rw (not_so, take_prefix) at inside)
  ]

  -- The value of the greatest key.
  pub record IsLast (l : Dict D) (v : D) : Type 0 where
    pub key : String
    pub inside : In (key, v) l
    pub greatest : (k : String) (d : D) → In (k, d) l → (k ≡ key) ⊎ (text_lt k key ≡ true)

  last_value-IsLast :
      (k : String) (d : D) (rest : Dict D)
      → Ascending ((k, d) ∷ rest)
      → (v : D) × (last_value (some d) rest ≡ some v) × IsLast ((k, d) ∷ rest) v
  unfolding last_value
  last_value-IsLast k d [] up = (
    d,
    refl,
    record {
      key = k;
      inside = inl refl;
      greatest = λ j e inside. elim inside [
        | inl same ↦ inl (ap (λ (x : String × D). x.0) same)
        | inr other ↦ absurd other
      ];
    },
  )
  last_value-IsLast k d ((j, e) ∷ rest) up =
      let later = last_value-IsLast j e rest up.1 in
      (
        later.0,
        later.1,
        record {
          key = later.2.key;
          inside = inr later.2.inside;
          greatest = λ i f inside. elim inside [
            | inl same ↦ inr (
                subst (λ x. text_lt x later.2.key ≡ true) (sym (ap (λ (x : String × D). x.0) same))
                  (Each-In (λ i _. text_lt k i ≡ true) ((j, e) ∷ rest) later.2.key later.0 up.0
                    later.2.inside))
            | inr further ↦ later.2.greatest i f further
          ];
        },
      )

  -- Either the loop finds no entry, or it finds the one with the greatest key.
  pub last_value-cases :
      (l : Dict D)
      → Ascending l
      → ((last_value none l ≡ none) × (l ≡ []))
        ⊎ ((v : D) × (last_value none l ≡ some v) × IsLast l v)
  unfolding last_value
  last_value-cases [] up = inl (refl, refl)
  last_value-cases ((k, d) ∷ rest) up = inr (last_value-IsLast k d rest up)

  take_prefix-Each :
      (P : String → D → Type 0) (p : String) (l : Dict D) → Each P l → Each P (take_prefix p l)
  unfolding take_prefix
  take_prefix-Each P p [] h = tt
  take_prefix-Each P p ((k, d) ∷ l) h = elim (Bool-cases (has_prefix k p)) [
    | inl e ↦ rw (e, take_prefix) (h.0, take_prefix-Each P p l h.1)
    | inr e ↦ rw (e, take_prefix) tt
  ]

  take_prefix-Ascending : (p : String) (l : Dict D) → Ascending l → Ascending (take_prefix p l)
  unfolding take_prefix
  take_prefix-Ascending p [] h = tt
  take_prefix-Ascending p ((k, d) ∷ l) h = elim (Bool-cases (has_prefix k p)) [
    | inl e ↦
        rw (e, take_prefix)
          (take_prefix-Each (λ j _. text_lt k j ≡ true) p l h.0, take_prefix-Ascending p l h.1)
    | inr e ↦ rw (e, take_prefix) tt
  ]

has_prefix-from : (k p : String) → has_prefix k p ≡ true → text_lt k p ≡ false
unfolding has_prefix text_lt
has_prefix-from k String.[] h = refl
has_prefix-from String.[] (String.◌∷◌ c p) h = cc
has_prefix-from (String.◌∷◌ d k) (String.◌∷◌ c p) h = ground (arith, has_prefix-from k p)

module _ {B D E : Type 0} (bolt : Bolt B D E) (ordered : IsOrdered bolt) where
  pub scan_complete :
      (p k : String) (d : D) (b : B)
      → bolt.get k b ≡ some d
      → has_prefix k p ≡ true
      → In (k, d) (scan bolt p b)
  scan_complete p k d b at has =
      take_prefix_complete p (bolt.seek p b) k d (ordered.seek_from p b)
        (ordered.seek-Ascending p b) (ordered.seek_complete p k d b at (has_prefix-from k p has))
        has

  pub scan_sound :
      (p k : String) (d : D) (b : B)
      → In (k, d) (scan bolt p b)
      → (bolt.get k b ≡ some d) × (has_prefix k p ≡ true)
  scan_sound p k d b inside =
      let found = take_prefix_sound p (bolt.seek p b) k d inside in
      (ordered.seek_sound p k d b found.0, found.1)

  pub scan-Ascending : (p : String) (b : B) → Ascending (scan bolt p b)
  scan-Ascending p b = take_prefix-Ascending p (bolt.seek p b) (ordered.seek-Ascending p b)
