-- ===== src/Ntfs/Candidates/Updated.antt =====
-- The record that `_updated_record_runs` makes: what it says of the attribute, and what it keeps.
use mathlib.Core.Path.{subst}
use linux_defragger.Prelude.{
  ℕ, ◌+◌, ◌-◌, ◌<◌, ◌≤◌, ◌≡◌, refl, ◌∙◌, Bool, false, ◌&&◌, ◌||◌, List, ◌++◌, ltb, leb,
  if◌then◌else◌, length, length-append, length-take, length-drop, length-replicate,
  drop-length_append, get_or, get_or-take, get_or-drop, take, drop, replicate, arith,
}
use linux_defragger.Bytes.{to_bytes}
use linux_defragger.Bytes.Laws.{length-to_bytes}
use linux_defragger.Ntfs.Disk.{slice, splice}
use linux_defragger.Ntfs.Patches.Written.{get_or-replace, length-slice}
use linux_defragger.Ntfs.Attributes.{Attribute}
use linux_defragger.Ntfs.Candidates.{make_space}

module _ (bs : List ℕ) (at' : ℕ) (new : List ℕ) {n : ℕ} (size : length new ≡ n)
    (h : at' + n ≤ length bs) where
  pub length-splice : length (splice bs at' new) ≡ length bs
  length-splice =
      rw (length-append, length-append)
        (omega (arith, size, h, length-take at' bs, length-drop (at' + length new) bs))

  -- The bytes of the new part, and those around it.
  pub get_or-splice :
      (j : ℕ)
      → get_or (splice bs at' new) j 0
        ≡ (if leb at' j && ltb j (at' + n) then get_or new (j - at') 0 else get_or bs j 0)
  get_or-splice j =
      subst
        (λ k.
          get_or (splice bs at' new) j 0
          ≡ (if leb at' j && ltb j (at' + k) then get_or new (j - at') 0 else get_or bs j 0))
        size (get_or-replace at' (at' + length new) bs new j refl (omega (arith, size, h)))

pub drop-splice :
    (bs : List ℕ) (at' : ℕ) (new : List ℕ)
    → at' ≤ length bs
    → drop at' (splice bs at' new) ≡ new ++ drop (at' + length new) bs
drop-splice bs at' new h =
    let size : length (take at' bs) ≡ at' = omega (arith, h, length-take at' bs) in
    subst (λ n. drop n (splice bs at' new) ≡ new ++ drop (at' + length new) bs) size
      (drop-length_append (take at' bs) (new ++ drop (at' + length new) bs))

-- The bytes of the two lengths, in the header of the record and in that of the attribute.
abbrev pub in_lengths : ℕ → ℕ → Bool
in_lengths offset u = leb 24 u && ltb u 28 || leb (offset + 4) u && ltb u (offset + 8)

-- A record in which the attribute has `growth` more bytes: the bytes in front of its end, but for the
-- two lengths, and those behind it are kept.
pub record Spaced (old : List ℕ) (attr : Attribute) (in_use growth : ℕ) (out : List ℕ)
    : Type 0 where
  pub size : length out ≡ length old
  pub before :
      (u : ℕ)
      → u < attr.offset + attr.length
      → in_lengths attr.offset u ≡ false
      → get_or out u 0 ≡ get_or old u 0
  pub behind :
      (u : ℕ)
      → attr.offset + attr.length ≤ u
      → u < in_use
      → get_or out (u + growth) 0 ≡ get_or old u 0
  pub lengths :
      (j : ℕ)
      → 0 < growth
      → j < 4
      → (get_or out (24 + j) 0 ≡ get_or (to_bytes 4 (in_use + growth)) j 0)
        × (get_or out (attr.offset + 4 + j) 0 ≡ get_or (to_bytes 4 (attr.length + growth)) j 0)

module _ (old : List ℕ) (attr : Attribute) (in_use growth : ℕ) (header : 28 ≤ attr.offset)
    (full : 8 ≤ attr.length) (inside : attr.offset + attr.length ≤ in_use)
    (room : in_use + growth ≤ length old) where
  abbrev old_end : ℕ
  old_end = attr.offset + attr.length

  abbrev moved : List ℕ
  moved = slice old old_end in_use

  abbrev zeros : List ℕ
  zeros = replicate growth 0

  abbrev shifted : List ℕ
  shifted = splice old (old_end + growth) moved

  length-moved : length moved ≡ in_use - old_end
  length-moved = length-slice old old_end in_use inside (omega (arith, room))

  shifted_room : old_end + growth + (in_use - old_end) ≤ length old
  shifted_room = omega (arith, room, inside)

  length-shifted : length shifted ≡ length old
  length-shifted = length-splice old (old_end + growth) moved length-moved shifted_room

  abbrev cleared : List ℕ
  cleared = splice shifted old_end zeros

  length-zeros : length zeros ≡ growth
  length-zeros = length-replicate growth 0

  cleared_room : old_end + growth ≤ length shifted
  cleared_room = omega (arith, room, inside, length-shifted)

  length-cleared : length cleared ≡ length old
  length-cleared = length-splice shifted old_end zeros length-zeros cleared_room ∙ length-shifted

  abbrev new_length : List ℕ
  new_length = to_bytes 4 (attr.length + growth)

  abbrev sized : List ℕ
  sized = splice cleared (attr.offset + 4) new_length

  length-new_length : length new_length ≡ 4
  length-new_length = length-to_bytes 4 (attr.length + growth)

  sized_room : attr.offset + 4 + 4 ≤ length cleared
  sized_room = omega (arith, room, inside, full, length-cleared)

  length-sized : length sized ≡ length old
  length-sized =
      length-splice cleared (attr.offset + 4) new_length length-new_length sized_room
      ∙ length-cleared

  abbrev new_in_use : List ℕ
  new_in_use = to_bytes 4 (in_use + growth)

  length-new_in_use : length new_in_use ≡ 4
  length-new_in_use = length-to_bytes 4 (in_use + growth)

  spaced_room : 24 + 4 ≤ length sized
  spaced_room = omega (arith, room, inside, header, length-sized)

  -- Each byte of the record with more space.
  get_or-make_space :
      (j : ℕ)
      → get_or (make_space old attr in_use growth) j 0 ≡ (
          if leb 24 j && ltb j (24 + 4)
          then get_or new_in_use (j - 24) 0
          else if leb (attr.offset + 4) j && ltb j (attr.offset + 4 + 4)
          then get_or new_length (j - (attr.offset + 4)) 0
          else if leb old_end j && ltb j (old_end + growth)
          then get_or zeros (j - old_end) 0
          else if leb (old_end + growth) j && ltb j (old_end + growth + (in_use - old_end))
          then get_or moved (j - (old_end + growth)) 0
          else get_or old j 0)
  unfolding make_space
  get_or-make_space j =
      get_or-splice sized 24 new_in_use length-new_in_use spaced_room j
      ∙ rw
          (
            get_or-splice cleared (attr.offset + 4) new_length length-new_length sized_room j,
            get_or-splice shifted old_end zeros length-zeros cleared_room j,
            get_or-splice old (old_end + growth) moved length-moved shifted_room j,
          )
          refl

  get_or-moved : (k : ℕ) → k < in_use - old_end → get_or moved k 0 ≡ get_or old (old_end + k) 0
  get_or-moved k h =
      get_or-take (in_use - old_end) (drop old_end old) k 0 h ∙ get_or-drop old_end old k 0

  length-make_space : length (make_space old attr in_use growth) ≡ length old
  unfolding make_space
  length-make_space = length-splice sized 24 new_in_use length-new_in_use spaced_room ∙ length-sized

  pub make_space-Spaced : Spaced old attr in_use growth (make_space old attr in_use growth)
  make_space-Spaced = record {
    size = length-make_space;
    before = λ u p q. ground (arith, get_or-make_space u);
    behind = λ u p q.
        let back : old_end + (u - old_end) ≡ u = omega (arith, p) in
        let part : u + growth - (old_end + growth) ≡ u - old_end = omega (arith, p) in
        let byte = get_or-moved (u - old_end) (omega (arith, p, q)) in
        ground (arith, get_or-make_space (u + growth), rw back at byte, part);
    lengths = λ j p q. (
      let part : 24 + j - 24 ≡ j = omega arith in ground (arith, get_or-make_space (24 + j), part),
      let part : attr.offset + 4 + j - (attr.offset + 4) ≡ j = omega arith in
          ground (arith, get_or-make_space (attr.offset + 4 + j), part),
    );
  }
