-- ===== src/Ntfs/Candidates/Pairs.antt =====
-- The mapping pairs of an attribute, with zeros up to its end.
use linux_defragger.Prelude.{
  ℕ, ◌+◌, ◌-◌, ◌<◌, ◌≤◌, ◌≡◌, ◌∙◌, ◌⊎◌, inl, inr, List, ◌++◌, length, length-append,
  length-replicate, take-length_append, get_or, drop, replicate, arith,
}
use linux_defragger.Ntfs.Disk.{slice}
use linux_defragger.Ntfs.Attributes.{Attribute}
use linux_defragger.Ntfs.Candidates.{growth_of, put_pairs}
use linux_defragger.Ntfs.Candidates.Updated.{Spaced, length-splice, get_or-splice, drop-splice}

module _ (attr : Attribute) (encoded : List ℕ) where
  -- The pairs fit, once the attribute has grown.
  pub growth_of-enough : attr.run_offset + length encoded ≤ attr.length + growth_of attr encoded
  unfolding growth_of
  growth_of-enough = omega arith

-- The pairs are put into a record in which the attribute has its new length.
module _ (old : List ℕ) (attr : Attribute) (in_use growth : ℕ) (encoded : List ℕ) (base : List ℕ)
    (spaced : Spaced old attr in_use growth base)
    (fits : attr.run_offset + length encoded ≤ attr.length + growth)
    (inside : attr.offset + attr.length ≤ in_use) (room : in_use + growth ≤ length old)
    (header : 28 ≤ attr.offset) (own : 8 ≤ attr.run_offset)
    (at_end : attr.run_offset ≤ attr.length) where
  abbrev capacity : ℕ
  capacity = attr.length + growth - attr.run_offset

  abbrev padding : List ℕ
  padding = replicate (capacity - length encoded) 0

  length-padding : length padding ≡ capacity - length encoded
  length-padding = length-replicate (capacity - length encoded) 0

  abbrev padded : List ℕ
  padded = encoded ++ padding

  length-padded : length padded ≡ capacity
  length-padded = omega (arith, fits, length-append encoded padding, length-padding)

  padded_room : attr.offset + attr.run_offset + capacity ≤ length base
  padded_room = omega (arith, fits, inside, room, spaced.size, at_end)

  pub length-put_pairs : length (put_pairs base attr growth encoded) ≡ length old
  unfolding put_pairs
  length-put_pairs =
      length-splice base (attr.offset + attr.run_offset) padded length-padded padded_room
      ∙ spaced.size

  pub get_or-put_pairs :
      (u : ℕ)
      → (u < attr.offset + attr.run_offset) ⊎ (attr.offset + attr.length + growth ≤ u)
      → get_or (put_pairs base attr growth encoded) u 0 ≡ get_or base u 0
  unfolding put_pairs
  get_or-put_pairs u h =
      let byte =
        get_or-splice base (attr.offset + attr.run_offset) padded length-padded padded_room u in
      elim h [ inl low ↦ ground (arith, byte, low) | inr high ↦ ground (arith, byte, high, at_end) ]

  pub put_pairs-mapping :
      slice
        (put_pairs base attr growth encoded)
        (attr.offset + attr.run_offset)
        (attr.offset + attr.length + growth)
      ≡ padded
  unfolding put_pairs
  put_pairs-mapping =
      let taken : attr.offset + attr.length + growth - (attr.offset + attr.run_offset)
          ≡ length padded =
        omega (arith, length-padded) in
      rw
        (
          drop-splice base (attr.offset + attr.run_offset) padded (omega (arith, padded_room)),
          taken,
        )
        (take-length_append padded (drop (attr.offset + attr.run_offset + length padded) base))
