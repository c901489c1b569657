-- ===== src/Seed/Table/Stored.antt =====
-- What the last item of a key leaves in the row of that key.
use nudging_tool.Prelude.{
  ◌≡◌, refl, sym, ap, ◌∙◌, Bool, true, false, inl, inr, Option, none, some, List, [], ◌∷◌,
  Bool-cases, Option-cases, All, subst, arith,
}
use nudging_tool.Json.{Dict}
use nudging_tool.Session.{Result, ok, err}
use nudging_tool.Seed.Table.{Table, IsTable, assign_at}
use nudging_tool.Seed.Table.Rows.{after, key_of-assign_at}
use nudging_tool.Seed.Table.Repeat.{ReadsAll}

abbrev later_or : Option Dict → Bool → Dict → Option Dict
later_or (some x) here item = some x
later_or none true item = some item
later_or none false item = none

module _ {Key Row Patch : Type 0} (table : Table Key Row Patch) where
  abbrev has_item_key : Key → Result Key → Bool
  has_item_key k (ok j) = table.same j k
  has_item_key k (err e) = false

  -- The last of the items that has the key.
  abbrev pub last_item : Key → List Dict → Option Dict
  last_item k [] = none
  last_item k (item ∷ items) =
      later_or (last_item k items) (has_item_key k (table.item_key item)) item

some_inj : {A : Type 0} (x y : A) → ◌≡◌ {A = Option A} (some x) (some y) → x ≡ y
some_inj x y h = cc

none_some : {A B : Type 0} (x : A) → ◌≡◌ {A = Option A} none (some x) → B
none_some x h = absurd (clash h)
  where
    clash : ◌≡◌ {A = Option _} none (some x) → ⊥
    clash h = cc

later_none :
    (o : Option Dict) (b : Bool) (item : Dict) → later_or o b item ≡ none → (o ≡ none) × (b ≡ false)
later_none none false item h = (refl, refl)
later_none none true item h = none_some item (sym h)
later_none (some x) b item h = none_some x (sym h)

module _ {Key Row Patch : Type 0} (table : Table Key Row Patch) (laws : IsTable table) where
  last_item-cons :
      (k : Key) (item : Dict) (items : List Dict) (j : Key)
      → table.item_key item ≡ ok j
      → last_item table k (item ∷ items) ≡ later_or (last_item table k items) (table.same j k) item
  last_item-cons k item items j read =
      ap (λ (o : Result Key). later_or (last_item table k items) (has_item_key table k o) item) read

  missed :
      (k : Key) (w : Key × Patch) (r : Row)
      → table.key_of r ≡ k
      → table.same w.0 k ≡ false
      → assign_at table w.0 w.1 r ≡ r
  missed k w r key differs = elim (Bool-cases (table.same (table.key_of r) w.0)) [
    | inl hit ↦
        (let same =
            (laws.same_iff w.0 k).1 (sym ((laws.same_iff (table.key_of r) w.0).0 hit) ∙ key) in
          ground (arith, same, differs))
    | inr miss ↦ rw miss refl
  ]

  assigned_to :
      (k : Key) (w : Key × Patch) (r : Row)
      → table.key_of r ≡ k
      → table.same w.0 k ≡ true
      → assign_at table w.0 w.1 r ≡ table.assign w.1 r
  assigned_to k w r key same =
      let hit = (laws.same_iff (table.key_of r) w.0).1 (key ∙ sym ((laws.same_iff w.0 k).0 same)) in
      rw hit refl

  untouched_by :
      (k : Key) (items : List Dict) (ws : List (Key × Patch)) (r : Row)
      → ReadsAll table laws items ws
      → table.key_of r ≡ k
      → last_item table k items ≡ none
      → after table laws ws r ≡ r
  untouched_by k [] [] r reads key h = refl
  untouched_by k [] (w ∷ ws) r reads key h = absurd reads
  untouched_by k (item ∷ items) [] r reads key h = absurd reads
  untouched_by k (item ∷ items) (w ∷ ws) r reads key h =
      let (rest, differs) =
        later_none _ _ item (sym (last_item-cons k item items w.0 reads.0.0) ∙ h) in
      ap (after table laws ws) (missed k w r key differs)
      ∙ untouched_by k items ws r reads.1 key rest

  -- A row after the items is one to which the last item of its key was assigned last.
  pub last_assigned :
      (k : Key) (items : List Dict) (ws : List (Key × Patch)) (r : Row) (item : Dict)
      → ReadsAll table laws items ws
      → table.key_of r ≡ k
      → last_item table k items ≡ some item
      → (p : Patch) × (x : Row) × (table.item_patch item ≡ ok p)
        × (after table laws ws r ≡ table.assign p x)
  last_assigned k [] ws r item reads key h = none_some item h
  last_assigned k (i ∷ items) [] r item reads key h = absurd reads
  last_assigned k (i ∷ items) (w ∷ ws) r item reads key h =
      let step = last_item-cons k i items w.0 reads.0.0 in
      let moved = key_of-assign_at table laws w.0 w.1 r ∙ key in
      elim (Option-cases (last_item table k items)) [
        | inr (x, e) ↦
            last_assigned k items ws (assign_at table w.0 w.1 r) item reads.1 moved
              (e ∙ sym (ap (λ o. later_or o (table.same w.0 k) i) e) ∙ sym step ∙ h)
        | inl e ↦
            (let last = sym (ap (λ o. later_or o (table.same w.0 k) i) e) ∙ sym step ∙ h in
              elim (Bool-cases (table.same w.0 k)) [
                | inl same ↦
                    (let found = some_inj i item (sym (ap (λ b. later_or none b i) same) ∙ last) in
                      (
                        w.1,
                        r,
                        ap table.item_patch (sym found) ∙ reads.0.1,
                        untouched_by k items ws (assign_at table w.0 w.1 r) reads.1 moved e
                            ∙ assigned_to k w r key same,
                      ))
                | inr differs ↦ none_some item (sym (ap (λ b. later_or none b i) differs) ∙ last)
              ])
      ]

  -- Each row is as the last item of its key says.
  abbrev pub IsStored : (Dict → Row → Type 0) → List Dict → List Row → Type 0
  IsStored Holds items rows =
      (k : Key) (item : Dict)
      → last_item table k items ≡ some item
      → All (λ r. table.key_of r ≡ k → Holds item r) rows

  pub settled-IsStored :
      (Holds : Dict → Row → Type 0)
      → ((item : Dict) (p : Patch) (x : Row)
          → table.item_patch item ≡ ok p
          → Holds item (table.assign p x))
      → (items : List Dict) (ws : List (Key × Patch)) → ReadsAll table laws items ws
      → (rows : List Row) → All (λ r. after table laws ws r ≡ r) rows
      → IsStored Holds items rows
  settled-IsStored Holds holds items ws reads [] settled k item last = tt
  settled-IsStored Holds holds items ws reads (r ∷ rows) settled k item last = (
    λ key.
        (let (p, x, read, e) = last_assigned k items ws r item reads key last in
          subst (Holds item) (sym e ∙ settled.0) (holds item p x read)),
    settled-IsStored Holds holds items ws reads rows settled.1 k item last,
  )
