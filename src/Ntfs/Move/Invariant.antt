-- ===== src/Ntfs/Move/Invariant.antt =====
-- What holds of the device at every point of a move, and how each write keeps it.
use linux_defragger.Prelude.{
  ℕ, ◌*◌, ◌≤◌, ◌≡◌, refl, ◌∙◌, sym, ◌⊎◌, inl, inr, Bool, true, false, some, none, List, [], ◌∷◌,
  ◌++◌, map, if◌then◌else◌, length, arith, Bool-cases,
}
use linux_defragger.Bytes.{AreBytes}
use linux_defragger.Ranges.{Range}
use linux_defragger.Ntfs.Runlist.{Run}
use linux_defragger.Ntfs.Bitmap.{bit}
use linux_defragger.Ntfs.Disk.{
  Disk, Journal, Stage, write_bitmap_patches, write_volume_records, slice, splice,
}
use linux_defragger.Ntfs.Disk.Rules.{Ends, Ends-write, Ends-last}
use linux_defragger.Ntfs.Patches.{snapshot, touched_ranges, bitmap_patches_for_runs}
use linux_defragger.Ntfs.Patches.Touched.{
  in_runs, AllFit, AllBelow, touched_ranges-covers, touched_ranges-AllBelow,
}
use linux_defragger.Ntfs.Patches.Written.{splice-Shows, patched, patched-Shows}
use linux_defragger.Ntfs.Move.{Volume, Prepared, ExtentMove, journal_state}

-- A bitmap of bytes that differs from `old` at most at the clusters of `runs`.
pub record Agrees (old : List ℕ) (runs : List Run) (bitmap : List ℕ) : Type 0 where
  pub size : length bitmap ≡ length old
  pub bytes : AreBytes bitmap
  pub same : (u : ℕ) → in_runs runs u ≡ false → bit bitmap u ≡ bit old u

pub Agrees-refl : (old : List ℕ) (runs : List Run) → AreBytes old → Agrees old runs old
Agrees-refl old runs h = record { size = refl; bytes = h; same = λ u k. refl }

module _ (old : List ℕ) (runs : List Run) (fit : AllFit (8 * length old) runs) where
  pub Agrees-splice :
      (bitmap new : List ℕ) (s e : ℕ)
      → Agrees old runs bitmap
      → Agrees old runs new
      → s ≤ e
      → e ≤ length old
      → Agrees old runs (splice bitmap s (slice new s e))
  Agrees-splice bitmap new s e a b p q =
      let one = splice-Shows bitmap new s e (b.size ∙ sym a.size) a.bytes b.bytes p (rw a.size q) in
      record {
        size = one.size ∙ a.size;
        bytes = one.bytes;
        same = λ u k. one.bits u ∙ ground (arith, a.same u k, b.same u k);
      }

  pub Agrees-patched :
      (bitmap new : List ℕ)
      → Agrees old runs bitmap
      → Agrees old runs new
      → Agrees old runs (patched bitmap new (touched_ranges runs))
        × ((u : ℕ) → bit (patched bitmap new (touched_ranges runs)) u ≡ bit new u)
  Agrees-patched bitmap new a b =
      let below = touched_ranges-AllBelow (length old) runs fit in
      let all =
        patched-Shows bitmap new (touched_ranges runs) (b.size ∙ sym a.size) a.bytes b.bytes
          (rw a.size below) in
      (
        record {
          size = all.size ∙ a.size;
          bytes = all.bytes;
          same = λ u k. all.bits u ∙ ground (arith, a.same u k, b.same u k);
        },
        λ u. all.bits u ∙ elim (Bool-cases (in_runs runs u)) [
          | inl t ↦ rw (touched_ranges-covers u runs t) refl
          | inr t ↦ ground (arith, a.same u t, b.same u t)
        ],
      )

  -- The patches of a bitmap are written: at each point the device's bitmap agrees with the old one.
  pub write_bitmap_patches-Ends :
      (Mid : Disk → Type 0) (new : List ℕ) (rs : List Range) (d : Disk)
      → AllBelow (length old) rs
      → Agrees old runs new
      → Agrees old runs d.bitmap
      → ((bitmap : List ℕ) (n : ℕ)
          → Agrees old runs bitmap
          → Mid (record d { bitmap = bitmap; budget = n }))
      → Ends Mid
          (λ _ d'. (n : ℕ) × (d' ≡ record d { bitmap = patched d.bitmap new rs; budget = n }))
          (write_bitmap_patches (map (snapshot new) rs) d)
  unfolding write_bitmap_patches
  write_bitmap_patches-Ends Mid new [] d below b a mid = (d.budget, refl)
  write_bitmap_patches-Ends Mid new ((s, e) ∷ rs) d below b a mid =
      Ends-write Mid _ d.budget d _ _ (mid d.bitmap d.budget a) (λ n.
        write_bitmap_patches-Ends Mid new rs
          (record d { bitmap = splice d.bitmap s (slice new s e); budget = n }) below.2 b
          (Agrees-splice d.bitmap new s e a b below.0 below.1) mid)

pub write_volume_records-Ends :
    (Mid : Disk → Type 0) (v m : List ℕ) (d : Disk)
    → ((v' m' : List ℕ) (n : ℕ)
        → Mid (record d { volume_image = v'; mirror_image = m'; budget = n }))
    → Ends Mid
        (λ _ d'. (n : ℕ) × (d' ≡ record d { volume_image = v; mirror_image = m; budget = n }))
        (write_volume_records v m d)
unfolding write_volume_records
write_volume_records-Ends Mid v m d mid =
    Ends-write Mid _ d.budget d _ _ (mid d.volume_image d.mirror_image d.budget) (λ n.
      Ends-last Mid _ n (record d { volume_image = v; budget = n }) _ (mid v d.mirror_image n)
        (λ n'. (n', refl)))

-- The state of a transaction. `Kept` says that the device still holds the source's data, `Copied`
-- that it also holds the copy.
module _ (volume : Volume) (p : Prepared) (move : ExtentMove) (Kept Copied : (ℕ → ℕ) → Type 0) where
  abbrev pub all_runs : List Run
  all_runs = move.source_runs ++ move.destination_runs

  abbrev pub state : Stage → Journal
  state = journal_state volume p move (bitmap_patches_for_runs p.bitmap all_runs)

  -- Nothing but data outside the source has been written.
  pub record Untouched (d : Disk) : Type 0 where
    pub no_journal : d.journal ≡ none
    pub image : d.record_image ≡ p.record_raw
    pub bitmap : d.bitmap ≡ p.bitmap
    pub volume_image : d.volume_image ≡ p.volume_before
    pub mirror_image : d.mirror_image ≡ p.mirror_before
    pub data_kept : Kept d.bytes

  -- The journal stands, the copy is made, and the bitmap differs at most where the move changes it.
  -- The record may be torn.
  pub record Pending (d : Disk) : Type 0 where
    pub stage : Stage
    pub journalled : d.journal ≡ some (state stage)
    pub agrees : Agrees p.bitmap all_runs d.bitmap
    pub data_copied : Copied d.bytes

  -- The bitmap of a finished move.
  abbrev pub moved_bit : ℕ → Bool
  moved_bit u =
      if in_runs move.source_runs u
      then false
      else if in_runs move.destination_runs u
      then true
      else bit p.bitmap u

  -- The move is complete.
  pub record Moved (d : Disk) : Type 0 where
    pub no_journal : d.journal ≡ none
    pub image : d.record_image ≡ p.new_record
    pub size : length d.bitmap ≡ length p.bitmap
    pub bits : (u : ℕ) → bit d.bitmap u ≡ moved_bit u
    pub volume_image : d.volume_image ≡ p.volume_before
    pub mirror_image : d.mirror_image ≡ p.mirror_before
    pub data_copied : Copied d.bytes

  abbrev pub Recoverable : Disk → Type 0
  Recoverable d = Untouched d ⊎ (Pending d ⊎ Moved d)

  -- A pending transaction with this image of the record and the bits of this bitmap.
  pub record At (image' target : List ℕ) (d : Disk) : Type 0 where
    pub pending : Pending d
    pub image : d.record_image ≡ image'
    pub bits : (u : ℕ) → bit d.bitmap u ≡ bit target u
