-- ===== src/Ntfs/Attributes/Inside.antt =====
-- The attributes that `_attributes` yields lie one behind the other in the record.
use mathlib.Core.Path.{subst}
use linux_defragger.Prelude.{
  ℕ, zero, suc, ◌+◌, ◌<◌, ◌≤◌, ◌≡◌, refl, ◌⊎◌, inl, inr, min, true, false, ◌||◌, Option, some, none,
  List, [], ◌∷◌, ltb, leb, ◌==◌, if◌then◌else◌, length, get_or, arith, Bool-cases, Result, ok, err,
  raise_as, OnOk, OnOk-ok, OnOk-bind, OnOk-guard, OnOk-if, OnOk-weaken, raise_as-ok, ==_iff, ltb→lt,
  ap, ◌∙◌, sym,
}
use linux_defragger.Ntfs.Disk.{slice}
use linux_defragger.Ntfs.Move.{clusters_of}
use linux_defragger.Ntfs.Runlist.{decode_runlist}
use linux_defragger.Ntfs.Attributes.{
  Attribute, LayoutError, in_runlist, bad_attribute, truncated_attribute, bad_pairs_offset,
  vcn_mismatch, u16, u32, u64, resident_attribute, attribute_name, nonresident_attribute,
  attribute_at, next_attribute, yielded, attributes_from, bounds_of, attributes_within, attributes,
}

-- The runs of an attribute that has its data elsewhere: the mapping pairs of the record stand for
-- them, and they have as many clusters as its range of cluster numbers.
pub record IsMapped (record' : List ℕ) (attr : Attribute) : Type 0 where
  pub lowest : u64 record' (attr.offset + 16) ≡ ok attr.lowest_vcn
  pub highest : u64 record' (attr.offset + 24) ≡ ok attr.highest_vcn
  pub pairs_below : attr.run_offset < attr.length
  pub pairs_above : 64 ≤ attr.run_offset
  pub pairs :
      decode_runlist (slice record' (attr.offset + attr.run_offset) (attr.offset + attr.length))
      ≡ ok attr.runs
  pub counted : clusters_of attr.runs + attr.lowest_vcn ≡ attr.highest_vcn + 1

-- An attribute of the record at `at'`, below the bytes in use.
pub record IsAttribute (record' : List ℕ) (in_use at' : ℕ) (attr : Attribute) : Type 0 where
  pub offset : attr.offset ≡ at'
  pub size : 24 ≤ attr.length
  pub inside : at' + attr.length ≤ in_use
  pub mapped : attr.nonresident ≡ true → IsMapped record' attr

-- The same fields as far as they have been read.
abbrev AtHeld : ℕ → ℕ → Attribute → Type 0
AtHeld at' size attr = (attr.offset ≡ at') × (attr.length ≡ size)

nonresident_attribute-IsMapped :
    (record' : List ℕ) (held : Attribute)
    → OnOk
        (λ attr. AtHeld held.offset held.length attr × IsMapped record' attr)
        (nonresident_attribute record' held)
unfolding nonresident_attribute
nonresident_attribute-IsMapped record' held =
    OnOk-guard (ltb held.length 64) truncated_attribute _ λ long.
      OnOk-bind (u64 record' (held.offset + 16)) _ λ lowest e1.
        OnOk-bind (u64 record' (held.offset + 24)) _ λ highest e2.
          OnOk-bind (u16 record' (held.offset + 32)) _ λ run_offset e3.
            OnOk-guard (ltb run_offset 64 || leb held.length run_offset) bad_pairs_offset _
              λ placed.
                OnOk-bind
                  (raise_as in_runlist (
                    decode_runlist
                      (slice record' (held.offset + run_offset) (held.offset + held.length))))
                  _
                  λ runs e4.
                    OnOk-guard (if clusters_of runs + lowest == highest + 1 then false else true)
                      vcn_mismatch _
                      λ counted. OnOk-bind (u64 record' (held.offset + 40)) _ λ allocated e5.
                        OnOk-bind (u64 record' (held.offset + 48)) _ λ data_size e6.
                          OnOk-bind (u64 record' (held.offset + 56)) _ λ initialized e7. OnOk-ok (
                            (refl, refl),
                            record {
                              lowest = e1;
                              highest = e2;
                              pairs_below = ground (arith, placed);
                              pairs_above = ground (arith, placed);
                              pairs = raise_as-ok in_runlist _ runs e4;
                              counted = ground (arith, counted);
                            },
                          )

-- What has been read of it before.
attribute_at-IsAttribute :
    (record' : List ℕ) (in_use at' atype size : ℕ)
    → OnOk
        (λ attr. (attr.length ≡ size) × IsAttribute record' in_use at' attr)
        (attribute_at record' in_use at' atype size)
unfolding attribute_at
attribute_at-IsAttribute record' in_use at' atype size =
    OnOk-guard (ltb size 24 || ltb in_use (at' + size)) bad_attribute _ λ fits.
      OnOk-bind (u16 record' (at' + 10)) _ λ name_off e1.
        OnOk-bind (u16 record' (at' + 12)) _ λ flags e2.
          OnOk-bind (attribute_name record' at' size (get_or record' (at' + 9) 0) name_off) _
            λ name e3.
              OnOk-if (get_or record' (at' + 8) 0 == 0) _ _
                (λ resident. OnOk-ok (
                  refl,
                  record {
                    offset = refl;
                    size = ground (arith, fits);
                    inside = ground (arith, fits);
                    mapped = λ e. absurd (cc);
                  },
                ))
                (λ elsewhere.
                  OnOk-weaken _
                    (λ (attr : Attribute) (h : AtHeld at' size attr × IsMapped record' attr).
                      let held : AtHeld at' size attr = h.0 in
                      (
                        held.1,
                        record {
                          offset = held.0;
                          size = rw held.1 (ground (arith, fits));
                          inside = rw held.1 (ground (arith, fits));
                          mapped = λ e. h.1;
                        },
                      ))
                    (nonresident_attribute-IsMapped record'
                      (resident_attribute at' size atype name flags)))

-- The attributes, with what is raised after them, lie one behind the other from `at'` on; where
-- nothing is raised, the end marker stands behind them, or too few bytes are left for one more.
abbrev pub Tiles : List ℕ → ℕ → ℕ → List Attribute → Option LayoutError → Type 0
Tiles record' in_use at' [] none = (in_use < at' + 16) ⊎ (u32 record' at' ≡ ok 0xFFFFFFFF)
Tiles record' in_use at' [] (some e) = next_attribute record' in_use at' ≡ err e
Tiles record' in_use at' (attr ∷ attrs) raised =
    IsAttribute record' in_use at' attr × Tiles record' in_use (at' + attr.length) attrs raised

-- What an attempt to read the next attribute comes to.
abbrev Next : List ℕ → ℕ → ℕ → Option Attribute → Type 0
Next record' in_use at' none = u32 record' at' ≡ ok 0xFFFFFFFF
Next record' in_use at' (some attr) = IsAttribute record' in_use at' attr

next_attribute-Next :
    (record' : List ℕ) (in_use at' : ℕ)
    → OnOk (Next record' in_use at') (next_attribute record' in_use at')
unfolding next_attribute
next_attribute-Next record' in_use at' = OnOk-bind (u32 record' at') _ λ atype e1.
    OnOk-if (atype == 0xFFFFFFFF) _ _
      (λ marker. OnOk-ok (e1 ∙ ap ok ((==_iff atype 0xFFFFFFFF).0 marker)))
      (λ more. OnOk-bind (u32 record' (at' + 4)) _ λ size e2.
        OnOk-bind (attribute_at record' in_use at' atype size) _ λ attr e3.
          OnOk-ok ((attribute_at-IsAttribute record' in_use at' atype size).get attr e3).1)

yielded-Tiles :
    (record' : List ℕ) (in_use at' : ℕ) (rest : Attribute → List Attribute × Option LayoutError)
    → ((attr : Attribute)
        → IsAttribute record' in_use at' attr
        → Tiles record' in_use (at' + attr.length) (rest attr).0 (rest attr).1)
    → (r : Result LayoutError (Option Attribute)) → next_attribute record' in_use at' ≡ r
    → OnOk (Next record' in_use at') r
    → Tiles record' in_use at' (yielded r rest).0 (yielded r rest).1
unfolding yielded
yielded-Tiles record' in_use at' rest h (err e) same k = same
yielded-Tiles record' in_use at' rest h (ok none) same k = inr (k.get none refl)
yielded-Tiles record' in_use at' rest h (ok (some attr)) same k =
    let here = k.get (some attr) refl in (here, h attr here)

pub attributes_from-Tiles :
    (fuel : ℕ) (record' : List ℕ) (in_use at' : ℕ)
    → in_use < at' + 16 + fuel
    → Tiles record' in_use at'
        (attributes_from fuel record' in_use at').0
        (attributes_from fuel record' in_use at').1
unfolding attributes_from
attributes_from-Tiles zero record' in_use at' h = inl (omega (arith, h))
attributes_from-Tiles (suc fuel) record' in_use at' h = elim (Bool-cases (ltb in_use (at' + 16))) [
  | inl e ↦ rw e (inl (ltb→lt _ _ e))
  | inr more ↦ rw more (
      yielded-Tiles record' in_use at' _
        (λ attr here.
          attributes_from-Tiles fuel record' in_use (at' + attr.length)
            (omega (arith, h, here.size)))
        (next_attribute record' in_use at') refl (next_attribute-Next record' in_use at'))
]

bounds_of-ok :
    (record' : List ℕ) (at' in_use : ℕ)
    → u16 record' 20 ≡ ok at'
    → u32 record' 24 ≡ ok in_use
    → bounds_of record' ≡ ok (at', min (length record') in_use)
unfolding bounds_of
bounds_of-ok record' at' in_use first used = rw (first, used) refl

-- The attributes that _attributes yields tile the record from its first-attribute offset on: each
-- has 24 bytes at least, lies inside the bytes in use, and starts where the one before it ends, and
-- the runs of one that has its data elsewhere are those of its mapping pairs and have as many
-- clusters as its range; the generator ends at the end marker, where fewer than 16 bytes are left,
-- or with the exception that the next attribute raises.
pub attributes-Tiles :
    (record' : List ℕ) (at' in_use : ℕ)
    → u16 record' 20 ≡ ok at'
    → u32 record' 24 ≡ ok in_use
    → Tiles record' (min (length record') in_use) at' (attributes record').0 (attributes record').1
unfolding attributes
attributes-Tiles record' at' in_use first used =
    subst
      (λ b.
        Tiles record' (min (length record') in_use) at' (attributes_within record' b).0
          (attributes_within record' b).1)
      (sym (bounds_of-ok record' at' in_use first used))
      (attributes_from-Tiles (length record') record' (min (length record') in_use) at'
        (omega arith))
