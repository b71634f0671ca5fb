-- ===== src/Ntfs/Layout/Scan/Streams.antt =====
-- The streams of a plan: their keys, their runs, and those that may be moved.
use linux_defragger.Prelude.{
  ℕ, ◌+◌, ◌<◌, ◌≤◌, ◌≡◌, refl, sym, ◌∙◌, true, false, ◌&&◌, ◌||◌, Option, some, none, List, [], ◌∷◌,
  ltb, if◌then◌else◌, length, arith, Bool-cases, Option-cases, inl, inr, Result, ok, OnOk, OnOk-ok,
  OnOk-bind, OnOk-guard, OnOk-if,
}
use linux_defragger.Ntfs.Runlist.{Run}
use linux_defragger.Ntfs.Compact.{StreamInfo}
use linux_defragger.Ntfs.Compact.Loop.{same_key, put_stream}
use linux_defragger.Ntfs.Compact.Owned.{UniqueKeys, put_stream-UniqueKeys}
use linux_defragger.Ntfs.Attributes.{Attribute, LayoutError, outside_volume}
use linux_defragger.Ntfs.Layout.Scan.{
  first_user_record, mapping_capacity_from_record, any_physical, any_outside, is_at, stream_info,
  add_attribute, scan_attributes,
}
use linux_defragger.Ntfs.Layout.Scan.Chosen.{Member, AllPhysical}

-- Every physical run ends inside the volume.
abbrev pub AllInside : ℕ → List Run → Type 0
AllInside total [] = Unit
AllInside total (run ∷ runs) =
    ((lcn : ℕ) → run.lcn ≡ some lcn → lcn + run.length ≤ total) × AllInside total runs

-- A stream that may be moved belongs to a record for users that is its own base record, and has
-- physical runs only, one at least.
pub record IsMovable (info : StreamInfo) : Type 0 where
  pub user : first_user_record ≤ info.record_number
  pub own : info.base_record_number ≡ 0
  pub physical : AllPhysical info.runs
  pub some_runs : 0 < length info.runs

pub record IsStream (total : ℕ) (info : StreamInfo) : Type 0 where
  pub inside : AllInside total info.runs
  pub moves : info.movable ≡ true → IsMovable info
  pub stays : info.movable ≡ false → info.mapping_capacity ≡ 0

abbrev pub AreStreams : ℕ → List StreamInfo → Type 0
AreStreams total [] = Unit
AreStreams total (info ∷ infos) = IsStream total info × AreStreams total infos

-- The streams of a plan.
pub record IsPlan (total : ℕ) (streams : List StreamInfo) : Type 0 where
  pub keys : UniqueKeys streams
  pub each : AreStreams total streams

any_outside-AllInside :
    (total : ℕ) (runs : List Run) → any_outside total runs ≡ false → AllInside total runs
any_outside-AllInside total [] h = tt
any_outside-AllInside total (run ∷ runs) h = elim (Option-cases run.lcn) [
  | inl e ↦ (
    λ lcn e'. absurd (let bad : none ≡ some lcn = sym e ∙ e' in cc),
    any_outside-AllInside total runs (rw e at h),
  )
  | inr (lcn, e) ↦
      let tests : (ltb total (lcn + run.length) || any_outside total runs) ≡ false = rw e at h in
      (
        λ lcn' e'. (let same : lcn ≡ lcn' = ground (arith, e, e') in ground (arith, tests, same)),
        any_outside-AllInside total runs (ground (arith, tests)),
      )
]

AreStreams-put :
    (total : ℕ) (updated : StreamInfo) (infos : List StreamInfo)
    → IsStream total updated
    → AreStreams total infos
    → AreStreams total (put_stream updated infos)
unfolding put_stream
AreStreams-put total updated [] u h = (u, tt)
AreStreams-put total updated (info ∷ infos) u (i, h) = elim (Bool-cases (same_key updated info)) [
  | inl e ↦ rw e (u, h)
  | inr e ↦ rw e (i, AreStreams-put total updated infos u h)
]

-- What is known of an attribute at the place of the chosen one.
abbrev pub Known : ℕ → ℕ → Attribute → Type 0
Known number base attr =
    (first_user_record ≤ number) × (base ≡ 0) × AllPhysical attr.runs × (0 < length attr.runs)

zero_held : (held : ℕ) → (let r : Result LayoutError ℕ = ok 0 in r) ≡ ok held → held ≡ 0
zero_held held h = cc

module _ (total number base : ℕ) (fixed : List ℕ) (movable : Option Attribute) where
  stream_info-IsStream :
      (attr : Attribute)
      → AllInside total attr.runs
      → (is_at movable attr ≡ true → Known number base attr)
      → OnOk (IsStream total) (stream_info number base fixed movable attr)
  unfolding stream_info
  stream_info-IsStream attr inside known = elim (Bool-cases (is_at movable attr)) [
    | inl e ↦
        let (user, own, physical, some_runs) = known e in
        OnOk-bind (if is_at movable attr then mapping_capacity_from_record fixed attr else ok 0) _
          λ held e'. OnOk-ok (record {
            inside = inside;
            moves =
                λ m. record { user = user; own = own; physical = physical; some_runs = some_runs };
            stays = λ m. absurd (let bad : true ≡ false = sym e ∙ m in cc);
          })
    | inr e ↦
        OnOk-bind (if is_at movable attr then mapping_capacity_from_record fixed attr else ok 0) _
          λ held e'. OnOk-ok (record {
            inside = inside;
            moves = λ m. absurd (let bad : false ≡ true = sym e ∙ m in cc);
            stays = λ m. zero_held held (rw e at e');
          })
  ]

  add_attribute-IsPlan :
      (streams : List StreamInfo) (attr : Attribute)
      → IsPlan total streams
      → (is_at movable attr ≡ true → Known number base attr)
      → OnOk (IsPlan total) (add_attribute total number base fixed movable streams attr)
  unfolding add_attribute
  add_attribute-IsPlan streams attr h known =
      OnOk-if (attr.nonresident && any_physical attr.runs) _ _
        (λ added. OnOk-guard (any_outside total attr.runs) outside_volume _ λ fits.
          OnOk-bind (stream_info number base fixed movable attr) _ λ info made.
            let inside = any_outside-AllInside total attr.runs fits in
            let sound = (stream_info-IsStream attr inside known).get info made in
            OnOk-ok (record {
              keys = put_stream-UniqueKeys info streams h.keys;
              each = AreStreams-put total info streams sound h.each;
            }))
        (λ passed. OnOk-ok h)

  pub scan_attributes-IsPlan :
      (streams : List StreamInfo) (attrs : List Attribute)
      → IsPlan total streams
      → ((attr : Attribute)
          → Member attr attrs
          → is_at movable attr ≡ true
          → Known number base attr)
      → OnOk (IsPlan total) (scan_attributes total number base fixed movable streams attrs)
  unfolding scan_attributes
  scan_attributes-IsPlan streams [] h known = OnOk-ok h
  scan_attributes-IsPlan streams (attr ∷ attrs) h known =
      OnOk-bind (add_attribute total number base fixed movable streams attr) _ λ streams' made.
        scan_attributes-IsPlan streams' attrs
          ((add_attribute-IsPlan streams attr h (known attr (inl refl))).get streams' made)
          (λ other m. known other (inr m))
