-- ===== src/Seed/Table/Repeat.antt =====
-- A list of items that has been applied to a table, applied again.
use nudging_tool.Prelude.{
  ◌≡◌, refl, sym, ap, subst, ◌∙◌, ◌⊎◌, inl, inr, Option, none, some, List, [], ◌∷◌, ◌++◌, map,
  length, All, All-append, arith,
}
use mathlib.Core.List.{append-nil, append_assoc}
use nudging_tool.Json.{Dict}
use nudging_tool.Db.{Db}
use nudging_tool.Session.{
  Session, Result, ok, lift, query, modify, pure, scalar_one_or_none, for_each, ◌>>=◌,
}
use nudging_tool.Session.Bind.{
  bind-ok, bind_parts, lift_parts, modify_parts, scalar_none, scalar_some, scalar_single,
}
use nudging_tool.Seed.Table.{Table, IsTable, hits, assign_at, save_item, upsert, upsert_all}
use nudging_tool.Seed.Table.Rows.{
  after, IsSingle, settled_rows, length-hits-map, untouched, added_settled, singles_kept,
  singles_added, map-after, map-settled,
}

module _ {Key Row Patch : Type 0} (table : Table Key Row Patch) (laws : IsTable table) where
  abbrev pub rows_of : Session → List Row
  rows_of s = table.rows s.working

  -- The item was added as a new row, or assigned to the one row of its key.
  abbrev pub Step : Key → Patch → List Row → List Row → Type 0
  Step k p before now =
      ((n : Row) × (table.key_of n ≡ k)
        × (length (hits table k before) ≡ 0)
        × (now ≡ table.assign p n ∷ before))
      ⊎ ((length (hits table k before) ≡ 1) × (now ≡ map (assign_at table k p) before))

  -- Nothing but the rows of the table was written.
  abbrev pub Wrote : Session → Session → Type 0
  Wrote s t = (xs : List Row) × (t.working ≡ table.set_rows xs s.working)

  save_item-Step :
      (k : Key) (item : Dict) (found : Option Row) (s t : Session)
      → scalar_one_or_none (hits table k (rows_of s)) ≡ ok found
      → save_item table k item found s ≡ (ok tt, t)
      → (p : Patch) × (table.item_patch item ≡ ok p) × Step k p (rows_of s) (rows_of t) × Wrote s t
  unfolding save_item
  save_item-Step k item none s t one h =
      let (n, u, made, h1) = bind_parts (table.new_row k item) _ s tt t h in
      let (p, v, read, h2) = bind_parts (lift (table.item_patch item)) _ u tt t h1 in
      let (parsed, same) = lift_parts (table.item_patch item) u p v read in
      let (key, kept) = laws.key_of-new_row k item s u n made in
      let before = ap (λ (x : Session). table.rows x.working) (sym same) ∙ ap table.rows kept in
      (
        p,
        parsed,
        inl (
          n,
          key,
          scalar_none (hits table k (rows_of s)) one,
          ap table.rows (modify_parts _ v t h2)
              ∙ laws.rows-set_rows _ v.working
              ∙ ap (λ rest. table.assign p n ∷ rest) before,
        ),
        (
          _,
          modify_parts _ v t h2
              ∙ ap (table.set_rows _) (ap (λ (x : Session). x.working) (sym same) ∙ kept),
        ),
      )
  save_item-Step k item (some r) s t one h =
      let (p, v, read, h2) = bind_parts (lift (table.item_patch item)) _ s tt t h in
      let (parsed, same) = lift_parts (table.item_patch item) s p v read in
      (
        p,
        parsed,
        inr (
          scalar_some (hits table k (rows_of s)) r one,
          ap table.rows (modify_parts _ v t h2)
              ∙ laws.rows-set_rows _ v.working
              ∙ ap (λ (x : Session). map (assign_at table k p) (table.rows x.working)) (sym same),
        ),
        (
          map (assign_at table k p) (table.rows v.working),
          modify_parts _ v t h2
              ∙ ap
                  (λ (x : Session).
                    table.set_rows (map (assign_at table k p) (table.rows v.working)) x.working)
                  (sym same),
        ),
      )

  abbrev pub Reads : Dict → Key × Patch → Type 0
  Reads item w = (table.item_key item ≡ ok w.0) × (table.item_patch item ≡ ok w.1)

  pub upsert-Step :
      (item : Dict) (s t : Session)
      → upsert table item s ≡ (ok tt, t)
      → (w : Key × Patch) × Reads item w × Step w.0 w.1 (rows_of s) (rows_of t) × Wrote s t
  unfolding upsert query lift ◌>>=◌
  upsert-Step item s t h =
      let (k, u, read, h1) = bind_parts (lift (table.item_key item)) _ s tt t h in
      let (parsed, same) = lift_parts (table.item_key item) s k u read in
      let (found, v, one, h2) =
        bind_parts (lift (scalar_one_or_none (hits table k (rows_of u)))) _ u tt t h1 in
      let (known, same') =
        lift_parts (scalar_one_or_none (hits table k (rows_of u))) u found v one in
      let (p, patch, step, wrote) =
        save_item-Step k item found u t known
          (subst (λ x. save_item table k item found x ≡ (ok tt, t)) (sym same') h2) in
      (
        (k, p),
        (parsed, patch),
        subst (λ x. Step k p (rows_of x) (rows_of t)) (sym same) step,
        subst (λ x. Wrote x t) (sym same) wrote,
      )

  -- What the items processed so far have established: each has one row, and each row is as they
  -- leave it.
  pub record IsApplied (ws : List (Key × Patch)) (rows : List Row) : Type 0 where
    pub singles : All (λ w. IsSingle table laws rows w.0) ws
    pub settled : All (λ r. after table laws ws r ≡ r) rows

  Step-IsApplied :
      (ws : List (Key × Patch)) (k : Key) (p : Patch) (before now : List Row)
      → IsApplied ws before
      → Step k p before now
      → IsApplied (ws ++ (k, p) ∷ []) now
  Step-IsApplied ws k p before now h (inl (n, key, absent, e)) =
      let key' = laws.key_of-assign p n ∙ key in
      let hit = (laws.same_iff (table.key_of (table.assign p n)) k).1 key' in
      subst (IsApplied (ws ++ (k, p) ∷ [])) (sym e) (record {
        singles =
            All-append (λ w. IsSingle table laws (table.assign p n ∷ before) w.0) ws ((k, p) ∷ [])
              (singles_added table laws k before (table.assign p n) ws key' absent h.singles)
              (rw hit (omega (arith, absent)), tt);
        settled = (
          added_settled table laws ws k p before n key absent h.singles,
          untouched table laws ws k p before absent h.settled,
        );
      })
  Step-IsApplied ws k p before now h (inr (one, e)) =
      subst (IsApplied (ws ++ (k, p) ∷ [])) (sym e) (record {
        singles =
            All-append (λ w. IsSingle table laws (map (assign_at table k p) before) w.0) ws
              ((k, p) ∷ []) (singles_kept table laws k p before ws h.singles)
              (length-hits-map table laws k k p before ∙ one, tt);
        settled = settled_rows table laws ws k p before h.settled;
      })

  -- The keys and patches of a list of items.
  abbrev pub ReadsAll : List Dict → List (Key × Patch) → Type 0
  ReadsAll [] [] = Unit
  ReadsAll [] (w ∷ ws) = ⊥
  ReadsAll (item ∷ items) [] = ⊥
  ReadsAll (item ∷ items) (w ∷ ws) = Reads item w × ReadsAll items ws

  pub upsert_all-IsApplied :
      (items : List Dict) (ws : List (Key × Patch)) (s t : Session)
      → IsApplied ws (rows_of s)
      → upsert_all table items s ≡ (ok tt, t)
      → (vs : List (Key × Patch)) × ReadsAll items vs × IsApplied (ws ++ vs) (rows_of t)
  unfolding upsert_all for_each pure
  upsert_all-IsApplied [] ws s t h e =
      let same = ap (λ (o : Result Unit × Session). rows_of o.1) e in
      (
        [],
        tt,
        subst (λ rows. IsApplied (ws ++ []) rows) same
            (subst (λ us. IsApplied us (rows_of s)) (sym (append-nil ws)) h),
      )
  upsert_all-IsApplied (item ∷ items) ws s t h e =
      let (u, v, done, rest) = bind_parts (upsert table item) _ s tt t e in
      let (w, reads, step, wrote) = upsert-Step item s v done in
      let (vs, read, applied) =
        upsert_all-IsApplied items (ws ++ w ∷ []) v t
          (Step-IsApplied ws w.0 w.1 (rows_of s) (rows_of v) h step) rest in
      (
        w ∷ vs,
        (reads, read),
        subst (λ us. IsApplied us (rows_of t)) (append_assoc ws (w ∷ []) vs) applied,
      )

  -- What the rows of the table do not reach is kept.
  pub upsert_all-kept :
      {X : Type 0} (part : Db → X)
      → ((xs : List Row) (db : Db) → part (table.set_rows xs db) ≡ part db)
      → (items : List Dict) (s t : Session) → upsert_all table items s ≡ (ok tt, t)
      → part t.working ≡ part s.working
  unfolding upsert_all for_each pure
  upsert_all-kept part kept [] s t e = ap (λ (o : Result Unit × Session). part o.1.working) (sym e)
  upsert_all-kept part kept (item ∷ items) s t e =
      let (u, v, done, rest) = bind_parts (upsert table item) _ s tt t e in
      let (w, reads, step, wrote) = upsert-Step item s v done in
      upsert_all-kept part kept items v t rest ∙ ap part wrote.1 ∙ kept wrote.0 s.working

  upsert_again :
      (item : Dict) (w : Key × Patch) (s : Session)
      → Reads item w
      → IsSingle table laws (rows_of s) w.0
      → upsert table item s ≡ (
        ok tt,
        record s { working = table.set_rows (map (assign_at table w.0 w.1) (rows_of s)) s.working },
      )
  unfolding upsert save_item query lift modify ◌>>=◌
  upsert_again item w s reads one =
      let (r, found) = scalar_single (hits table w.0 (rows_of s)) one in
      rw (reads.0, found, reads.1) refl

  map-nothing : (rows : List Row) → map (after table laws []) rows ≡ rows
  map-nothing [] = refl
  map-nothing (r ∷ rows) = ap (λ rest. r ∷ rest) (map-nothing rows)

  repeated :
      (items : List Dict) (ws : List (Key × Patch)) (s : Session)
      → ReadsAll items ws
      → All (λ w. IsSingle table laws (rows_of s) w.0) ws
      → upsert_all table items s ≡ (
        ok tt,
        record s { working = table.set_rows (map (after table laws ws) (rows_of s)) s.working },
      )
  unfolding upsert_all for_each pure
  repeated [] [] s reads ones =
      ap (λ (db : Db). (ok tt, record s { working = db }))
        (sym (
          ap (λ rows. table.set_rows rows s.working) (map-nothing (rows_of s))
          ∙ laws.set_rows-rows s.working))
  repeated [] (w ∷ ws) s reads ones = absurd reads
  repeated (item ∷ items) [] s reads ones = absurd reads
  repeated (item ∷ items) (w ∷ ws) s reads ones =
      let db = table.set_rows (map (assign_at table w.0 w.1) (rows_of s)) s.working in
      let next : Session = record s { working = db } in
      let held = laws.rows-set_rows (map (assign_at table w.0 w.1) (rows_of s)) s.working in
      let ones' =
        subst (λ rows. All (λ v. IsSingle table laws rows v.0) ws) (sym held)
          (singles_kept table laws w.0 w.1 (rows_of s) ws ones.1) in
      bind-ok (upsert table item) _ s tt next (upsert_again item w s reads.0 ones.0)
      ∙ repeated items ws next reads.1 ones'
      ∙ ap (λ (x : Db). (ok tt, record s { working = x }))
          (ap (λ rows. table.set_rows (map (after table laws ws) rows) db) held
            ∙ laws.set_rows-set_rows _ _ s.working
            ∙ ap (λ rows. table.set_rows rows s.working) (map-after table laws (rows_of s) w ws))

  pub nil-IsApplied : (rows : List Row) → IsApplied [] rows
  nil-IsApplied rows = record { singles = tt; settled = go rows }
    where
      go : (rows : List Row) → All (λ r. r ≡ r) rows
      go [] = tt
      go (r ∷ rest) = (refl, go rest)

  -- Once a list of items has been applied, to apply it again changes nothing, whatever else of the
  -- session has changed in between.
  pub upsert_all_again :
      (items : List Dict) (s t u : Session)
      → upsert_all table items s ≡ (ok tt, t)
      → rows_of u ≡ rows_of t
      → upsert_all table items u ≡ (ok tt, u)
  upsert_all_again items s t u e same =
      let (vs, read, applied) = upsert_all-IsApplied items [] s t (nil-IsApplied (rows_of s)) e in
      let now = subst (IsApplied vs) (sym same) applied in
      repeated items vs u read now.singles
      ∙ ap (λ (db : Db). (ok tt, record u { working = db }))
          (ap (λ rows. table.set_rows rows u.working)
              (map-settled table laws vs (rows_of u) now.settled)
            ∙ laws.set_rows-rows u.working)
