-- ===== src/Ntfs/Compact/Rounds.antt =====
-- What every round of `compact` keeps.
use linux_defragger.Prelude.{
  ℕ, zero, suc, ◌+◌, ◌-◌, ◌*◌, ◌/◌, ◌%◌, get_or, ◌<◌, ◌≤◌, ◌≡◌, refl, ◌∙◌, Bool, true, false,
  Option, some, none, List, [], ◌∷◌, ltb, if◌then◌else◌, length, arith, Bool-cases, inl, inr,
  Result, ok, err, ◌>>=◌, ◌>>◌, raise_if,
}
use linux_defragger.Bytes.{AreBytes}
use linux_defragger.Ntfs.Runlist.{Run}
use linux_defragger.Bytes.Tables.{holds_on, table_entry}
use linux_defragger.Ntfs.Bitmap.{bit, byte_bit}
use linux_defragger.Ntfs.Move.{ExtentMove}
use linux_defragger.Ntfs.Patches.Touched.{in_runs, AllFit, set_runs-SetsRuns}
use linux_defragger.Ntfs.Compact.{
  runlist_changed, StreamInfo, CompactError, Candidate, best_stream, encoded_length,
  maximum_mapping_capacity,
}
use linux_defragger.Ntfs.Compact.Loop.{
  CompactState, same_runs, moved_bitmap, confirmed, select_compact_source,
}
use linux_defragger.Ntfs.Compact.Fits.{AllAbove}
use linux_defragger.Ntfs.Compact.Select.{Has, Picks, Chooses, best_stream-Chooses}
use linux_defragger.Ntfs.Compact.Owned.{owners, UniqueKeys}

-- The plan agrees with the bitmap: a cluster is in use exactly if one stream owns it, once, or it is
-- one of the `fixed` clusters, which no stream owns.
pub record Agrees (fixed : ℕ → Bool) (bitmap : List ℕ) (streams : List StreamInfo) : Type 0 where
  pub bytes : AreBytes bitmap
  pub keys : UniqueKeys streams
  pub bits :
      (u : ℕ) → (if fixed u then 1 else 0) + owners u streams ≡ (if bit bitmap u then 1 else 0)

abbrev pub Sound : (ℕ → Bool) → CompactState → Type 0
Sound fixed s = Agrees fixed s.bitmap s.streams

get_or-past : (xs : List ℕ) (i d : ℕ) → length xs ≤ i → get_or xs i d ≡ d
get_or-past [] i d h = refl
get_or-past (x ∷ xs) zero d h = absurd (omega (arith, h))
get_or-past (x ∷ xs) (suc i) d h = get_or-past xs i d (omega (arith, h))

zero_table : holds_on 0 8 (λ j. if byte_bit 0 j then false else true) ≡ true
unfolding holds_on byte_bit
zero_table = refl

zero_bits : (j : ℕ) → j < 8 → byte_bit 0 j ≡ true → ⊥
zero_bits j p h = ground (arith, h, table_entry 8 _ j p zero_table)

-- A cluster past the end has no bit that is set.
pub bit-inside : (bitmap : List ℕ) (u : ℕ) → bit bitmap u ≡ true → u < 8 * length bitmap
unfolding bit
bit-inside bitmap u h = elim (Bool-cases (ltb u (8 * length bitmap))) [
  | inl e ↦ ground (arith, e)
  | inr e ↦
      let past : length bitmap ≤ u / 8 = ground (arith, e) in
      let zero_byte : get_or bitmap (u / 8) 0 ≡ 0 = get_or-past bitmap (u / 8) 0 past in
      absurd (zero_bits (u % 8) (omega arith) (rw zero_byte at h))
]

-- Runs whose clusters are all in use lie in the bitmap.
pub used-AllFit :
    (bitmap : List ℕ) (lo : ℕ) (runs : List Run)
    → AllAbove lo runs
    → ((u : ℕ) → in_runs runs u ≡ true → bit bitmap u ≡ true)
    → AllFit (8 * length bitmap) runs
used-AllFit bitmap lo [] p h = tt
used-AllFit bitmap lo (run ∷ runs) (lcn, e, q, r, p) h =
    let last : in_runs (run ∷ runs) (lcn + run.length - 1) ≡ true = rw e (ground (arith, r)) in
    let inside = bit-inside bitmap (lcn + run.length - 1) (h (lcn + run.length - 1) last) in
    let fits : lcn + run.length ≤ 8 * length bitmap = omega (arith, inside, r) in
    (rw e fits, used-AllFit bitmap lo runs p (λ u k. h u (ground (arith, k))))

-- The bitmap after a move, cluster by cluster.
pub record Moves (bitmap : List ℕ) (move : ExtentMove) (out : List ℕ) : Type 0 where
  pub size : length out ≡ length bitmap
  pub bytes : AreBytes out
  pub bits :
      (u : ℕ)
      → bit out u ≡ (
          if in_runs move.source_runs u
          then false
          else if in_runs move.destination_runs u
          then true
          else bit bitmap u)

pub moved_bitmap-Moves :
    (bitmap : List ℕ) (move : ExtentMove)
    → AreBytes bitmap
    → AllFit (8 * length bitmap) move.destination_runs
    → AllFit (8 * length bitmap) move.source_runs
    → (out : List ℕ) × (moved_bitmap bitmap move ≡ ok out) × Moves bitmap move out
unfolding moved_bitmap
moved_bitmap-Moves bitmap move h p q =
    let (reserved, one, sets) = set_runs-SetsRuns bitmap move.destination_runs true h p in
    let (released, two, clears) =
      set_runs-SetsRuns reserved move.source_runs false sets.bytes (rw sets.size q) in
    (
      released,
      rw (one, two, moved_bitmap) refl,
      record {
        size = clears.size ∙ sets.size;
        bytes = clears.bytes;
        bits = λ u. clears.bits u ∙ rw (sets.bits u) refl;
      },
    )

-- A stream that was chosen, with its move.
abbrev pub Picked :
    Run → List StreamInfo → Result CompactError (Option (StreamInfo × ExtentMove)) → Type 0
Picked gap streams (err e) = Unit
Picked gap streams (ok none) = Unit
Picked gap streams (ok (some (info, move))) = Has info streams × Picks gap info move

module _ (reload : CompactState → StreamInfo → Result CompactError Candidate) where
  confirmed-Picked :
      (s : CompactState) (gap : Run) (info : StreamInfo) (move : ExtentMove)
      → Has info s.streams
      → Picks gap info move
      → Picked gap s.streams (confirmed reload s info move)
  unfolding confirmed
  confirmed-Picked s gap info move h p = read_again (reload s info)
    where
      sized :
          (size : Result CompactError ℕ) (capacity : Result CompactError ℕ)
          → Picked gap s.streams
              (do n ← size; c ← capacity; ok (if ltb c n then none else some (info, move)))
      sized (err e) capacity = tt
      sized (ok n) (err e) = tt
      sized (ok n) (ok c) = elim (Bool-cases (ltb c n)) [ inl e ↦ rw e tt | inr e ↦ rw e (h, p) ]

      read_again :
          (r : Result CompactError Candidate)
          → Picked gap s.streams (do
            candidate ← r
            raise_if
                (if same_runs candidate.attribute.runs info.runs then false else true)
                runlist_changed
            size ← encoded_length move.new_runs
            capacity ← maximum_mapping_capacity candidate
            ok (if ltb capacity size then none else some (info, move)))
      read_again (err e) = tt
      read_again (ok candidate) = elim (Bool-cases (same_runs candidate.attribute.runs info.runs)) [
        | inl e ↦ rw e (sized (encoded_length move.new_runs) (maximum_mapping_capacity candidate))
        | inr e ↦ rw e tt
      ]

  pub select_compact_source-Picked :
      (s : CompactState) (lcn n : ℕ)
      → Picked
          (record { lcn = some lcn; length = n })
          s.streams
          (select_compact_source reload s (record { lcn = some lcn; length = n }))
  unfolding select_compact_source
  select_compact_source-Picked s lcn n =
      chosen (best_stream gap none s.streams) (best_stream-Chooses gap s.streams)
    where
      gap : Run
      gap = record { lcn = some lcn; length = n }

      chosen :
          (r : Result CompactError (Option (StreamInfo × ExtentMove)))
          → Chooses gap s.streams r
          → Picked gap s.streams (do
            best ← r
            elim best [ none ↦ ok none | some pick ↦ confirmed reload s pick.0 pick.1 ])
      chosen (err e) h = tt
      chosen (ok none) h = tt
      chosen (ok (some (info, move))) (x, y, z) = confirmed-Picked s gap info move x y
