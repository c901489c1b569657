-- ===== src/Seed/Table/Rows.antt =====
-- What the assignments of a list of items do to the rows of a table, whatever the table.
use nudging_tool.Prelude.{
  ◌≡◌, refl, sym, ap, subst, ◌∙◌, true, false, inl, inr, List, [], ◌∷◌, ◌++◌, map, length, All,
  Bool-cases, arith,
}
use nudging_tool.Seed.Table.{Table, IsTable, hits, assign_at}

module _ {Key Row Patch : Type 0} (table : Table Key Row Patch) (laws : IsTable table) where
  -- A row after the assignments of the items, given by their keys and patches, in their order.
  abbrev pub after : List (Key × Patch) → Row → Row
  after [] r = r
  after (w ∷ ws) r = after ws (assign_at table w.0 w.1 r)

  -- One row has the key.
  abbrev pub IsSingle : List Row → Key → Type 0
  IsSingle rows k = length (hits table k rows) ≡ 1

  pub key_of-assign_at :
      (k : Key) (p : Patch) (r : Row) → table.key_of (assign_at table k p r) ≡ table.key_of r
  key_of-assign_at k p r = ground (arith, laws.key_of-assign p r)

  pub assign_at_idem :
      (k : Key) (p : Patch) (r : Row)
      → assign_at table k p (assign_at table k p r) ≡ assign_at table k p r
  assign_at_idem k p r = ground (arith, laws.key_of-assign p r, laws.assign_idem p r)

  assign_at_other :
      (k : Key) (p : Patch) (r : Row)
      → table.same (table.key_of r) k ≡ false
      → assign_at table k p r ≡ r
  assign_at_other k p r h = rw h refl

  assign_at_key :
      (k : Key) (p : Patch) (r : Row)
      → table.same (table.key_of r) k ≡ true
      → assign_at table k p r ≡ table.assign p r
  assign_at_key k p r h = rw h refl

  same_key :
      (k : Key) (p : Patch) (x y : Row)
      → assign_at table k p x ≡ assign_at table k p y
      → table.key_of x ≡ table.key_of y
  same_key k p x y h = sym (key_of-assign_at k p x) ∙ ap (table.key_of) h ∙ key_of-assign_at k p y

  assign_at_after :
      (k : Key) (p : Patch) (j : Key) (q : Patch) (x y : Row)
      → assign_at table k p x ≡ assign_at table k p y
      → assign_at table k p (assign_at table j q x) ≡ assign_at table k p (assign_at table j q y)
  assign_at_after k p j q x y h = ground (
    arith,
    same_key k p x y h,
    laws.key_of-assign q x,
    laws.key_of-assign q y,
    laws.assign_after p q x y,
  )

  -- rows_of that an item makes alike stay so under the items before it.
  after_alike :
      (k : Key) (p : Patch) (ws : List (Key × Patch)) (x y : Row)
      → assign_at table k p x ≡ assign_at table k p y
      → assign_at table k p (after ws x) ≡ assign_at table k p (after ws y)
  after_alike k p [] x y h = h
  after_alike k p (w ∷ ws) x y h = after_alike k p ws _ _ (assign_at_after k p w.0 w.1 x y h)

  after-append :
      (ws : List (Key × Patch)) (k : Key) (p : Patch) (r : Row)
      → after (ws ++ (k, p) ∷ []) r ≡ assign_at table k p (after ws r)
  after-append [] k p r = refl
  after-append (w ∷ ws) k p r = after-append ws k p (assign_at table w.0 w.1 r)

  -- A row that the items before leave alone is left alone by all once the next has assigned to it.
  settled_by :
      (ws : List (Key × Patch)) (k : Key) (p : Patch) (r : Row)
      → after ws r ≡ r
      → after (ws ++ (k, p) ∷ []) (assign_at table k p r) ≡ assign_at table k p r
  settled_by ws k p r h =
      after-append ws k p (assign_at table k p r)
      ∙ after_alike k p ws (assign_at table k p r) r (assign_at_idem k p r)
      ∙ ap (assign_at table k p) h

  pub settled_rows :
      (ws : List (Key × Patch)) (k : Key) (p : Patch) (rows : List Row)
      → All (λ r. after ws r ≡ r) rows
      → All (λ r. after (ws ++ (k, p) ∷ []) r ≡ r) (map (assign_at table k p) rows)
  settled_rows ws k p [] h = tt
  settled_rows ws k p (r ∷ rows) h = (settled_by ws k p r h.0, settled_rows ws k p rows h.1)

  pub length-hits-map :
      (j k : Key) (p : Patch) (rows : List Row)
      → length (hits table j (map (assign_at table k p) rows)) ≡ length (hits table j rows)
  length-hits-map j k p [] = refl
  length-hits-map j k p (r ∷ rows) =
      ground (arith, key_of-assign_at k p r, length-hits-map j k p rows)

  -- No row has a key without hits.
  pub untouched :
      (ws : List (Key × Patch)) (k : Key) (p : Patch) (rows : List Row)
      → length (hits table k rows) ≡ 0
      → All (λ r. after ws r ≡ r) rows
      → All (λ r. after (ws ++ (k, p) ∷ []) r ≡ r) rows
  untouched ws k p [] none h = tt
  untouched ws k p (r ∷ rows) none h = elim (Bool-cases (table.same (table.key_of r) k)) [
    | inl e ↦ ground (arith, e)
    | inr e ↦ (
      after-append ws k p r ∙ ap (assign_at table k p) h.0 ∙ assign_at_other k p r e,
      untouched ws k p rows (ground (arith, e)) h.1,
    )
  ]

  distinct_keys :
      (j k : Key) (rows : List Row)
      → IsSingle rows j
      → length (hits table k rows) ≡ 0
      → table.same k j ≡ false
  distinct_keys j k rows one none = elim (Bool-cases (table.same k j)) [
    | inl e ↦
        ground
          (arith, subst (λ i. length (hits table i rows) ≡ 1) (sym ((laws.same_iff k j).0 e)) one)
    | inr e ↦ e
  ]

  after_new :
      (ws : List (Key × Patch)) (k : Key) (rows : List Row) (n : Row)
      → table.key_of n ≡ k
      → length (hits table k rows) ≡ 0
      → All (λ w. IsSingle rows w.0) ws
      → after ws n ≡ n
  after_new [] k rows n key none ones = refl
  after_new (w ∷ ws) k rows n key none ones =
      ap (after ws) (
        assign_at_other w.0 w.1 n
          (subst (λ i. table.same i w.0 ≡ false) (sym key) (distinct_keys w.0 k rows ones.0 none)))
      ∙ after_new ws k rows n key none ones.1

  -- A row that an item adds is left alone by all the items so far.
  pub added_settled :
      (ws : List (Key × Patch)) (k : Key) (p : Patch) (rows : List Row) (n : Row)
      → table.key_of n ≡ k
      → length (hits table k rows) ≡ 0
      → All (λ w. IsSingle rows w.0) ws
      → after (ws ++ (k, p) ∷ []) (table.assign p n) ≡ table.assign p n
  added_settled ws k p rows n key none ones =
      let key' = laws.key_of-assign p n ∙ key in
      let hit = (laws.same_iff (table.key_of (table.assign p n)) k).1 key' in
      after-append ws k p (table.assign p n)
      ∙ ap (assign_at table k p) (after_new ws k rows (table.assign p n) key' none ones)
      ∙ assign_at_key k p (table.assign p n) hit
      ∙ laws.assign_idem p n

  pub singles_kept :
      (k : Key) (p : Patch) (rows : List Row) (ws : List (Key × Patch))
      → All (λ w. IsSingle rows w.0) ws
      → All (λ w. IsSingle (map (assign_at table k p) rows) w.0) ws
  singles_kept k p rows [] h = tt
  singles_kept k p rows (w ∷ ws) h =
      (length-hits-map w.0 k p rows ∙ h.0, singles_kept k p rows ws h.1)

  pub singles_added :
      (k : Key) (rows : List Row) (n : Row) (ws : List (Key × Patch))
      → table.key_of n ≡ k
      → length (hits table k rows) ≡ 0
      → All (λ w. IsSingle rows w.0) ws
      → All (λ w. IsSingle (n ∷ rows) w.0) ws
  singles_added k rows n [] key none h = tt
  singles_added k rows n (w ∷ ws) key none h =
      let other =
        subst (λ i. table.same i w.0 ≡ false) (sym key) (distinct_keys w.0 k rows h.0 none) in
      (rw other h.0, singles_added k rows n ws key none h.1)

  pub map-after :
      (rows : List Row) (w : Key × Patch) (ws : List (Key × Patch))
      → map (after ws) (map (assign_at table w.0 w.1) rows) ≡ map (after (w ∷ ws)) rows
  map-after [] w ws = refl
  map-after (r ∷ rows) w ws = ap (λ rest. after (w ∷ ws) r ∷ rest) (map-after rows w ws)

  pub map-settled :
      (ws : List (Key × Patch)) (rows : List Row)
      → All (λ r. after ws r ≡ r) rows
      → map (after ws) rows ≡ rows
  map-settled ws [] h = refl
  map-settled ws (r ∷ rows) h = rw (h.0, map-settled ws rows h.1) refl
