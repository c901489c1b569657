-- ===== src/Seed/Validate/Kinds.antt =====
-- The active kinds of a seed without faults.
use nudging_tool.Prelude.{
  ℕ, ◌+◌, String, ◌≡◌, refl, ap, Bool, true, false, List, [], ◌∷◌, ◌++◌, All, contains,
  has_duplicate, arith, eq_iff, if◌then◌else◌,
}
use nudging_tool.Text.{strip}
use nudging_tool.Json.{Json, Dict, obj, get}
use nudging_tool.Session.{Result, ok, err}
use nudging_tool.Seed.Kinds.{Models}
use nudging_tool.Seed.Validate.{
  SeedError, in_item, languages, missing_languages, validate_i18n_map, kind_faults, validate_kinds,
  seen_after, accept_kind, skip_kind, keep_kind,
}
use nudging_tool.Seed.Validate.Laws.{Accepts, append_nil_left, append_nil_right, map_nil}

-- The texts of a kind are there in every language of the interface.
abbrev pub IsTranslated : Json → Type 0
IsTranslated (obj texts) = missing_languages languages texts ≡ []
IsTranslated _ = ⊥

abbrev pub IsKind : Dict → Type 0
IsKind k =
    IsTranslated (get "label" k)
    × IsTranslated (get "description" k)
    × IsTranslated (get "cadence" k)

-- The kinds without the space around them.
abbrev pub names : List (String × Dict) → List String
names [] = []
names (k ∷ ks) = strip k.0 ∷ names ks

abbrev dumps : List (String × Dict) → List Dict
dumps [] = []
dumps (k ∷ ks) = k.1 ∷ dumps ks

-- None of the kinds was seen before.
abbrev AllNew : List String → List (String × Dict) → Type 0
AllNew seen = All (λ k. contains (strip k.0) seen ≡ false)

-- The items are active kinds, with the dumps `out`, and no two are the same.
abbrev pub AcceptsKinds : Models → List Json → List Dict → Type 0
AcceptsKinds models items out =
    (ks : List (String × Dict)) × Accepts models.active_kind items ks
    × (dumps ks ≡ out)
    × (has_duplicate (names ks) ≡ false)
    × All IsKind out

translated : (i : ℕ) (v : Json) → validate_i18n_map i v ≡ [] → IsTranslated v
unfolding validate_i18n_map
translated i (obj texts) h = map_nil (λ l. in_item "active_kinds" i l) _ h
translated i _ h = cc

kind_faults-IsKind : (i : ℕ) (k : Dict) → kind_faults i k ≡ [] → IsKind k
unfolding kind_faults
kind_faults-IsKind i k h =
    let first = append_nil_left _ (validate_i18n_map i (get "cadence" k)) h in
    (
      translated i (get "label" k) (append_nil_left _ _ first),
      translated i (get "description" k)
          (append_nil_right (validate_i18n_map i (get "label" k)) _ first),
      translated i (get "cadence" k) (
          append_nil_right
            (validate_i18n_map i (get "label" k) ++ validate_i18n_map i (get "description" k)) _ h),
    )

unseen_head :
    (name : String) (seen : List String) (ks : List (String × Dict))
    → AllNew (name ∷ seen) ks
    → (contains name (names ks) ≡ false) × AllNew seen ks
unseen_head name seen [] h = (refl, tt)
unseen_head name seen (k ∷ ks) h =
    let (away, new) = unseen_head name seen ks h.1 in
    (
      ground (arith, h.0, away, eq_iff name (strip k.0), eq_iff (strip k.0) name),
      (ground (arith, h.0), new),
    )

-- What the loop over the kinds establishes, after the kinds in `seen`.
abbrev Kept : Models → List String → List Json → List Dict → Type 0
Kept models seen items out =
    (ks : List (String × Dict)) × Accepts models.active_kind items ks
    × (dumps ks ≡ out)
    × (has_duplicate (names ks) ≡ false)
    × All IsKind out
    × AllNew seen ks

abbrev skip_or_keep : ℕ → Dict → List Dict × List SeedError → Bool → List Dict × List SeedError
skip_or_keep i k rest seen =
    if seen then skip_kind (in_item "active_kinds" i " duplicates") rest else keep_kind i k rest

accept_kind-Kept :
    (models : Models) (i : ℕ) (seen : List String) (item : Json) (items : List Json)
    → (r : Result (String × Dict)) (rest : List Dict × List SeedError) → models.active_kind item ≡ r
    → (accept_kind i seen r rest).1 ≡ []
    → (rest.1 ≡ [] → Kept models (seen_after seen r) items rest.0)
    → Kept models seen (item ∷ items) (accept_kind i seen r rest).0
accept_kind-Kept models i seen item items (err x) rest e h k = cc
accept_kind-Kept models i seen item items (ok d) rest e h k =
    go (contains (strip d.0) seen) refl h k
  where
    go :
        (b : Bool)
        → contains (strip d.0) seen ≡ b
        → (skip_or_keep i d.1 rest b).1 ≡ []
        → (rest.1 ≡ [] → Kept models (if b then seen else strip d.0 ∷ seen) items rest.0)
        → Kept models seen (item ∷ items) (skip_or_keep i d.1 rest b).0
    go true new h k = cc
    go false new h k =
        let (ks, accepted, same, distinct, kinds, fresh) =
          k (append_nil_right (kind_faults i d.1) rest.1 h) in
        let (away, fresh') = unseen_head (strip d.0) seen ks fresh in
        (
          d ∷ ks,
          (e, accepted),
          ap (λ rows. d.1 ∷ rows) same,
          rw (away, distinct) refl,
          (kind_faults-IsKind i d.1 (append_nil_left _ rest.1 h), kinds),
          (new, fresh'),
        )

validate_kinds-Kept :
    (models : Models) (seen : List String) (i : ℕ) (items : List Json)
    → (validate_kinds models seen i items).1 ≡ []
    → Kept models seen items (validate_kinds models seen i items).0
unfolding validate_kinds
validate_kinds-Kept models seen i [] h = ([], tt, refl, refl, tt, tt)
validate_kinds-Kept models seen i (item ∷ items) h =
    accept_kind-Kept models i seen item items (models.active_kind item) _ refl h
      (validate_kinds-Kept models (seen_after seen (models.active_kind item)) (i + 1) items)

pub validate_kinds-AcceptsKinds :
    (models : Models) (items : List Json)
    → (validate_kinds models [] 0 items).1 ≡ []
    → AcceptsKinds models items (validate_kinds models [] 0 items).0
validate_kinds-AcceptsKinds models items h =
    let (ks, accepted, same, distinct, kinds, fresh) = validate_kinds-Kept models [] 0 items h in
    (ks, accepted, same, distinct, kinds)
