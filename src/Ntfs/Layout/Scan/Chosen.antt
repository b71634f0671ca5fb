-- ===== src/Ntfs/Layout/Scan/Chosen.antt =====
-- The attribute that `_select_movable_attribute` chooses is the only one at its place.
use linux_defragger.Prelude.{
  ℕ, ◌+◌, ◌<◌, ◌≤◌, ◌≡◌, refl, ap, ◌∙◌, sym, ◌⊎◌, inl, inr, Bool, true, false, ◌||◌, Option, some,
  none, List, [], ◌∷◌, ltb, ◌==◌, if◌then◌else◌, length, arith, Bool-cases, Option-cases, Result,
  ok, err, OnOk, OnOk-ok, OnOk-bind, OnOk-if,
}
use linux_defragger.Ntfs.Runlist.{Run}
use linux_defragger.Ntfs.Attributes.{
  Attribute, LayoutError, u16, u32, u64, bounds_of, attributes_within, attributes, list_attributes,
}
use linux_defragger.Ntfs.Attributes.Inside.{Tiles, attributes_from-Tiles}
use linux_defragger.Ntfs.Layout.{choose, unnamed_data}
use linux_defragger.Ntfs.Layout.Scan.{
  first_user_record, in_use_flag, directory_flag, file_reference, index_allocation, any_attribute,
  only_rewritable, rewritable, any_hole, select_movable_attribute,
}

abbrev pub Member : Attribute → List Attribute → Type 0
Member a [] = ⊥
Member a (attr ∷ attrs) = (a ≡ attr) ⊎ Member a attrs

-- No two attributes are at the same place.
abbrev pub Apart : List Attribute → Type 0
Apart attrs = (a b : Attribute) → Member a attrs → Member b attrs → a.offset ≡ b.offset → a ≡ b

abbrev pub AllPhysical : List Run → Type 0
AllPhysical [] = Unit
AllPhysical (run ∷ runs) = ((lcn : ℕ) × (run.lcn ≡ some lcn)) × AllPhysical runs

Tiles-above :
    (r : List ℕ) (u at' : ℕ) (attrs : List Attribute) (e : Option LayoutError) (a : Attribute)
    → Tiles r u at' attrs e
    → Member a attrs
    → at' ≤ a.offset
Tiles-above r u at' [] e a t m = elim m [ ]
Tiles-above r u at' (attr ∷ attrs) e a (here, t) (inl same) =
    let offset : a.offset ≡ at' = ap (λ x. x.offset) same ∙ here.offset in omega (arith, offset)
Tiles-above r u at' (attr ∷ attrs) e a (here, t) (inr m) =
    omega (arith, Tiles-above r u (at' + attr.length) attrs e a t m)

Tiles-Apart :
    (r : List ℕ) (u at' : ℕ) (attrs : List Attribute) (e : Option LayoutError)
    → Tiles r u at' attrs e
    → Apart attrs
Tiles-Apart r u at' [] e t a b m n p = elim m [ ]
Tiles-Apart r u at' (attr ∷ attrs) e (here, t) a b (inl x) (inl y) p = x ∙ sym y
Tiles-Apart r u at' (attr ∷ attrs) e (here, t) a b (inl x) (inr n) p =
    let offset : a.offset ≡ at' = ap (λ z. z.offset) x ∙ here.offset in
    absurd (omega (arith, offset, p, here.size, Tiles-above r u (at' + attr.length) attrs e b t n))
Tiles-Apart r u at' (attr ∷ attrs) e (here, t) a b (inr m) (inl y) p =
    let offset : b.offset ≡ at' = ap (λ z. z.offset) y ∙ here.offset in
    absurd (omega (arith, offset, p, here.size, Tiles-above r u (at' + attr.length) attrs e a t m))
Tiles-Apart r u at' (attr ∷ attrs) e (here, t) a b (inr m) (inr n) p =
    Tiles-Apart r u (at' + attr.length) attrs e t a b m n p

bounds_of-inside : (record' : List ℕ) → OnOk (λ p. p.1 ≤ length record') (bounds_of record')
unfolding bounds_of
bounds_of-inside record' =
    OnOk-bind (u16 record' 20) _
      λ at' e1. OnOk-bind (u32 record' 24) _ λ in_use e2. OnOk-ok (omega arith)

attributes_within-Apart :
    (record' : List ℕ) (r : Result LayoutError (ℕ × ℕ))
    → OnOk (λ p. p.1 ≤ length record') r
    → Apart (attributes_within record' r).0
unfolding attributes_within
attributes_within-Apart record' (err e) h = λ a b m n p. elim m [ ]
attributes_within-Apart record' (ok (at', in_use)) h = Tiles-Apart record' in_use at' _ _ (
    attributes_from-Tiles (length record') record' in_use at'
      (omega (arith, h.get (at', in_use) refl)))

pub list_attributes-Apart : (record' : List ℕ) → OnOk Apart (list_attributes record')
unfolding list_attributes attributes
list_attributes-Apart record' =
    listed (attributes record').0 (attributes record').1
      (attributes_within-Apart record' (bounds_of record') (bounds_of-inside record'))
  where
    listed :
        (attrs : List Attribute) (raised : Option LayoutError)
        → Apart attrs
        → OnOk Apart (elim raised [ none ↦ ok attrs | some e ↦ err e ])
    listed attrs none h = OnOk-ok h
    listed attrs (some e) h = record { get = λ a q. absurd (cc) }

choose-Member :
    (test : Attribute → Bool) (attrs : List Attribute) (a : Attribute)
    → Member a (choose test attrs)
    → Member a attrs
choose-Member test [] a m = elim m [ ]
choose-Member test (attr ∷ attrs) a m = elim (Bool-cases (test attr)) [
  | inl e ↦ split (choose-Member test attrs a) (rw e at m)
  | inr e ↦ inr (choose-Member test attrs a (rw e at m))
]
  where
    split :
        (Member a (choose test attrs) → Member a attrs)
        → Member a (attr ∷ choose test attrs)
        → Member a (attr ∷ attrs)
    split later (inl same) = inl same
    split later (inr m) = inr (later m)

AllPhysical-any_hole : (runs : List Run) → any_hole runs ≡ false → AllPhysical runs
AllPhysical-any_hole [] h = tt
AllPhysical-any_hole (run ∷ runs) h = elim (Option-cases run.lcn) [
  | inl e ↦ absurd (let bad : true ≡ false = rw e at h in cc)
  | inr (lcn, e) ↦ ((lcn, e), AllPhysical-any_hole runs (rw e at h))
]

-- The chosen attribute: of a record for users that is its own base record, with physical runs only,
-- one at least, from the first cluster of its stream on.
pub record IsChosen (number : ℕ) (fixed : List ℕ) (attrs : List Attribute) (a : Attribute)
    : Type 0 where
  pub user : first_user_record ≤ number
  pub own : (base : ℕ) → u64 fixed 32 ≡ ok base → file_reference base ≡ 0
  pub member : Member a attrs
  pub first : a.lowest_vcn ≡ 0
  pub physical : AllPhysical a.runs
  pub some_runs : 0 < length a.runs

abbrev pub Chosen : ℕ → List ℕ → List Attribute → Option Attribute → Type 0
Chosen number fixed attrs none = Unit
Chosen number fixed attrs (some a) = IsChosen number fixed attrs a

rewritable-Chosen :
    (number : ℕ) (fixed : List ℕ) (attrs : List Attribute)
    → first_user_record ≤ number
    → ((base : ℕ) → u64 fixed 32 ≡ ok base → file_reference base ≡ 0)
    → (candidates : List Attribute) → ((a : Attribute) → Member a candidates → Member a attrs)
    → Chosen number fixed attrs (only_rewritable candidates)
rewritable-Chosen number fixed attrs user own [] within = tt
rewritable-Chosen number fixed attrs user own (a ∷ []) within = elim (Bool-cases (rewritable a)) [
  | inl e ↦ rw e (record {
    user = user;
    own = own;
    member = within a (inl refl);
    first = ground (arith, e);
    physical = AllPhysical-any_hole a.runs (ground (arith, e));
    some_runs = ground (arith, e);
  })
  | inr e ↦ rw e tt
]
rewritable-Chosen number fixed attrs user own (a ∷ b ∷ candidates) within = tt

pub select_movable_attribute-Chosen :
    (number : ℕ) (fixed : List ℕ) (attrs : List Attribute)
    → OnOk (Chosen number fixed attrs) (select_movable_attribute number fixed attrs)
unfolding select_movable_attribute
select_movable_attribute-Chosen number fixed attrs = OnOk-bind (u16 fixed 22) _ λ flags e1.
    OnOk-if (ltb number first_user_record || (if in_use_flag flags then false else true)) _ _
      (λ stays. OnOk-ok tt)
      (λ movable. OnOk-bind (u64 fixed 32) _ λ base e2. OnOk-ok (
        by_test flags base e2 (ground (arith, movable)) (
          Bool-cases
            (ltb 0 (file_reference base) || any_attribute (λ attr. attr.atype == 0x20) attrs))))
  where
    by_test :
        (flags base : ℕ)
        → u64 fixed 32 ≡ ok base
        → first_user_record ≤ number
        → (((ltb 0 (file_reference base) || any_attribute (λ attr. attr.atype == 0x20) attrs)
              ≡ true)
            ⊎ ((ltb 0 (file_reference base) || any_attribute (λ attr. attr.atype == 0x20) attrs)
                ≡ false))
        → Chosen number fixed attrs (
            if ltb 0 (file_reference base) || any_attribute (λ attr. attr.atype == 0x20) attrs
            then none
            else only_rewritable
                (choose (if directory_flag flags then index_allocation else unnamed_data) attrs))
    by_test flags base e user (inl stays) = rw stays tt
    by_test flags base e user (inr moves) =
        let zero_base : file_reference base ≡ 0 = ground (arith, moves) in
        rw moves (
          rewritable-Chosen number fixed attrs user
            (λ base' e'. (let same : base' ≡ base = cc (e, e') in rw same zero_base))
            (choose (if directory_flag flags then index_allocation else unnamed_data) attrs)
            (choose-Member (if directory_flag flags then index_allocation else unnamed_data) attrs))
