-- ===== src/Ntfs/Layout/Scan/Names.antt =====
-- The name of an MFT record (`_best_file_name`) and the test for a Windows hibernation image
-- (`_record_hibernation_active`).
use linux_defragger.Prelude.{
  ℕ, ◌+◌, ◌*◌, min, Bool, true, false, ◌&&◌, ◌||◌, Option, some, none, List, [], ◌∷◌, ◌++◌, ltb,
  ◌==◌, if◌then◌else◌, length, get_elem?, get_or, Result, ok, err, ◌>>=◌, raise_as,
}
use linux_defragger.Prelude.Int.{pos}
use linux_defragger.Ntfs.Disk.{slice}
use linux_defragger.Ntfs.Stream.{read_stream}
use linux_defragger.Ntfs.Attributes.{Attribute, LayoutError, in_stream}
use linux_defragger.Ntfs.Layout.{NtfsLayout, attr_data, choose}
use linux_defragger.Ntfs.Layout.State.{resident_value}
use linux_defragger.Ntfs.Layout.Scan.{caught}

-- `SYSTEM_RECORD_NAMES`, by record number.
abbrev system_names : List (List ℕ)
system_names =
    (36 ∷ 77 ∷ 70 ∷ 84 ∷ [])
    ∷ (36 ∷ 77 ∷ 70 ∷ 84 ∷ 77 ∷ 105 ∷ 114 ∷ 114 ∷ [])
    ∷ (36 ∷ 76 ∷ 111 ∷ 103 ∷ 70 ∷ 105 ∷ 108 ∷ 101 ∷ [])
    ∷ (36 ∷ 86 ∷ 111 ∷ 108 ∷ 117 ∷ 109 ∷ 101 ∷ [])
    ∷ (36 ∷ 65 ∷ 116 ∷ 116 ∷ 114 ∷ 68 ∷ 101 ∷ 102 ∷ [])
    ∷ (36 ∷ 82 ∷ 111 ∷ 111 ∷ 116 ∷ [])
    ∷ (36 ∷ 66 ∷ 105 ∷ 116 ∷ 109 ∷ 97 ∷ 112 ∷ [])
    ∷ (36 ∷ 66 ∷ 111 ∷ 111 ∷ 116 ∷ [])
    ∷ (36 ∷ 66 ∷ 97 ∷ 100 ∷ 67 ∷ 108 ∷ 117 ∷ 115 ∷ [])
    ∷ (36 ∷ 83 ∷ 101 ∷ 99 ∷ 117 ∷ 114 ∷ 101 ∷ [])
    ∷ (36 ∷ 85 ∷ 112 ∷ 67 ∷ 97 ∷ 115 ∷ 101 ∷ [])
    ∷ (36 ∷ 69 ∷ 120 ∷ 116 ∷ 101 ∷ 110 ∷ 100 ∷ [])
    ∷ []

-- `str.__lt__` on code points.
unfoldable text_lt : List ℕ → List ℕ → Bool
text_lt xs [] = false
text_lt [] (y ∷ ys) = true
text_lt (x ∷ xs) (y ∷ ys) = ltb x y || (x == y && text_lt xs ys)

-- `max` of `(score, name)` pairs; the first of equal ones is kept.
abbrev better : ℕ × List ℕ → ℕ × List ℕ → Bool
better (s, x) (t, y) = ltb t s || (s == t && text_lt y x)

abbrev best_choice : ℕ × List ℕ → List (ℕ × List ℕ) → ℕ × List ℕ
best_choice best [] = best
best_choice best (choice ∷ choices) =
    best_choice (if better choice best then choice else best) choices

abbrev name_of_choices : List (ℕ × List ℕ) → List ℕ
name_of_choices [] = []
name_of_choices (choice ∷ choices) = (best_choice choice choices).1

-- 3 for the name spaces 1 and 3, 2 for 0, and 1 for others.
abbrev score : ℕ → ℕ
score namespace = if namespace == 1 || namespace == 3 then 3 else if namespace == 0 then 2 else 1

module _ (decode : List ℕ → List ℕ) where
  -- The choice that a `$FILE_NAME` value gives.
  unfoldable name_choice : List ℕ → List (ℕ × List ℕ)
  name_choice value =
      let end' = 66 + get_or value 64 0 * 2 in
      let name = decode (slice value 66 end') in
      if ltb (length value) 66 || ltb (length value) end' || length name == 0
      then []
      else (score (get_or value 65 0), name) ∷ []

  -- The loop: a value that cannot be read is passed over.
  unfoldable name_choices : List ℕ → List Attribute → Result LayoutError (List (ℕ × List ℕ))
  unfolding resident_value name_choice
  name_choices record' [] = ok []
  name_choices record' (attr ∷ attrs) = do
    let value : Result LayoutError (List (ℕ × List ℕ)) = elim (resident_value record' attr) [
      | ok bytes ↦ ok (name_choice bytes)
      | err e ↦ if caught e then ok [] else err e
    ]
    here ← if attr.atype == 0x30 && (if attr.nonresident then false else true) then value else ok []
    rest ← name_choices record' attrs
    ok (here ++ rest)

  unfoldable pub best_file_name : List ℕ → List Attribute → ℕ → Result LayoutError (List ℕ)
  unfolding name_choices text_lt
  best_file_name record' attrs number =
      let named : Result LayoutError (List ℕ) = (do
        choices ← name_choices record' attrs
        ok (name_of_choices choices)) in
      elim (get_elem? system_names number) [ some name ↦ ok name | none ↦ named ]

-- `header[:4].strip(b"\0")` is not empty.
abbrev any_set : List ℕ → Bool
any_set [] = false
any_set (b ∷ bs) = if b == 0 then any_set bs else true

abbrev unnamed : Attribute → Bool
unnamed attr = attr.atype == attr_data && length attr.name == 0

abbrev first_attribute : List Attribute → Option Attribute
first_attribute [] = none
first_attribute (attr ∷ attrs) = some attr

unfoldable pub record_hibernation_active :
    (ℕ → ℕ)
    → (List ℕ → Bool)
    → NtfsLayout
    → List ℕ
    → List Attribute
    → List ℕ
    → Result LayoutError Bool
unfolding read_stream resident_value
record_hibernation_active device hiberfil layout fixed attrs file_name =
    let of_stream = λ (attr : Attribute).
      let header = raise_as in_stream (
        read_stream device attr.runs layout.volume.cluster_size (pos 0)
          (pos (min 4096 attr.data_size))) in
      if length attr.runs == 0 || attr.data_size == 0 then ok [] else header in
    let image : Attribute → Result LayoutError Bool = λ attr. (do
      header ← if attr.nonresident then of_stream attr else resident_value fixed attr
      ok (any_set (slice header 0 4))) in
    if hiberfil file_name
    then elim (first_attribute (choose unnamed attrs)) [ none ↦ ok false | some attr ↦ image attr ]
    else ok false
