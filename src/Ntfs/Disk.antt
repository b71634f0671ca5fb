-- ===== src/Ntfs/Disk.antt =====
-- What the NTFS engine changes on stable storage, as one transaction sees it: the bytes of the
-- device that hold file data, the MFT record of the stream being moved, the `$Bitmap` stream, the
-- two images of the `$Volume` record and the external journal. The metadata streams are kept apart
-- from the data, as NTFS stores them in clusters of their own. Power may fail: `budget` counts the
-- writes that still reach the device. A write of an MFT record that is cut short leaves `torn`;
-- any other write that is cut short is not made.
pub mod Rules
pub mod Budget
use linux_defragger.Prelude.{
  ℕ, zero, suc, ◌+◌, ◌-◌, Bool, true, ◌&&◌, Option, some, none, List, [], ◌∷◌, ◌++◌, ltb, leb,
  if◌then◌else◌, length, get_or, take, drop, Result, ok, err,
}
use linux_defragger.Ntfs.Runlist.{Run}

-- The keys of the journal that recovery reads, after JSON and base64. The `stage` is written for
-- diagnostics.
pub data Stage : Type 0 where
  copied volume_dirty destination_allocated metadata_switched old_released volume_clean : Stage

pub record Journal : Type 0 where
  pub stage : Stage
  pub device : ℕ
  pub device_size : ℕ
  pub serial : ℕ
  pub record_before : List ℕ
  pub record_after : List ℕ
  pub released_runs : List Run
  pub destination_runs : List Run
  pub bitmap_before : List (ℕ × List ℕ)
  pub volume_before : List ℕ
  pub mirror_before : List ℕ

pub record Disk : Type 0 where
  pub bytes : ℕ → ℕ
  pub record_image : List ℕ
  pub bitmap : List ℕ
  pub volume_image : List ℕ
  pub mirror_image : List ℕ
  pub journal : Option Journal
  pub budget : ℕ
  pub torn : List ℕ

-- Ways in which a call ends early: the loss of power, or an exception of the program.
pub data Failure : Type 0 where
  power_loss : Failure
  sparse_run lengths_differ index_error type_error no_journal : Failure
  different_target size_changed serial_differs invalid_image no_snapshots volume_image_invalid :
      Failure

abbrev pub Action : Type 0 → Type 0
Action A = Disk → Result Failure A × Disk

abbrev pub pure : {A : Type 0} → A → Action A
pure a d = (ok a, d)

abbrev pub raise : {A : Type 0} → Failure → Action A
raise e d = (err e, d)

abbrev pub gets : {A : Type 0} → (Disk → A) → Action A
gets f d = (ok (f d), d)

-- The rest of a block, behind a call that has ended.
abbrev pub continue :
    {A B : Type 0} → Result Failure A × Disk → (A → Action B) → Result Failure B × Disk
continue (ok a, d) f = f a d
continue (err e, d) f = (err e, d)

abbrev pub ◌>>=◌ : {A B : Type 0} → Action A → (A → Action B) → Action B
◌>>=◌ call rest d = continue (call d) rest

abbrev pub ◌>>◌ : {B : Type 0} → Action (Unit {0}) → Action B → Action B
◌>>◌ call rest d = continue (call d) (λ _. rest)

infixl 5 ◌>>=◌ ◌>>◌
abbrev pub raise_if : Bool → Failure → Action (Unit {0})
raise_if c e d = (if c then err e else ok tt, d)

abbrev pub or_raise : {A : Type 0} → Option A → Failure → Action A
or_raise (some a) e d = (ok a, d)
or_raise none e d = (err e, d)

-- A write that is made whole or not at all.
abbrev pub write_on : ℕ → Disk → Disk → Result Failure (Unit {0}) × Disk
write_on zero old new = (err power_loss, old)
write_on (suc n) old new = (ok tt, record new { budget = n })

abbrev pub write : (Disk → Disk) → Action (Unit {0})
write f d = write_on d.budget d (f d)

-- `data[start:end]`
abbrev pub slice : List ℕ → ℕ → ℕ → List ℕ
slice bs start end' = take (end' - start) (drop start bs)

-- Overwriting the bytes from `offset` on.
abbrev pub splice : List ℕ → ℕ → List ℕ → List ℕ
splice bs offset new = take offset bs ++ (new ++ drop (offset + length new) bs)

-- `_write_bitmap_bytes`: the offset is one in the `$Bitmap` stream.
unfoldable pub write_bitmap_bytes : ℕ → List ℕ → Action (Unit {0})
write_bitmap_bytes offset new = write (λ d. record d { bitmap = splice d.bitmap offset new })

-- `_write_bitmap_patches`
unfoldable pub write_bitmap_patches : List (ℕ × List ℕ) → Action (Unit {0})
unfolding write_bitmap_bytes
write_bitmap_patches [] = pure tt
write_bitmap_patches ((offset, new) ∷ patches) =
    write_bitmap_bytes offset new >> write_bitmap_patches patches

-- `_write_mft_record`
abbrev pub write_record_on : ℕ → List ℕ → Action (Unit {0})
write_record_on zero image d = (err power_loss, record d { record_image = d.torn })
write_record_on (suc n) image d = (ok tt, record d { record_image = image; budget = n })

unfoldable pub write_mft_record : List ℕ → Action (Unit {0})
write_mft_record image d = write_record_on d.budget image d

-- `_write_volume_records`: the record in the MFT, then the one in its mirror.
unfoldable pub write_volume_records : List ℕ → List ℕ → Action (Unit {0})
write_volume_records mft_raw mirror_raw = do
  write (λ d. record d { volume_image = mft_raw })
  write (λ d. record d { mirror_image = mirror_raw })

-- `_write_journal`: the file is replaced in one step.
unfoldable pub write_journal : Journal → Action (Unit {0})
write_journal state = write (λ d. record d { journal = some state })

-- `_remove_journal`
unfoldable pub remove_journal : Action (Unit {0})
remove_journal = write (λ d. record d { journal = none })

-- `os.pread` and `os.pwrite` on file data.
abbrev pub read_bytes : (ℕ → ℕ) → ℕ → ℕ → List ℕ
read_bytes f offset zero = []
read_bytes f offset (suc n) = f offset ∷ read_bytes f (offset + 1) n

abbrev pub write_bytes : (ℕ → ℕ) → ℕ → List ℕ → ℕ → ℕ
write_bytes f offset new a =
    if leb offset a && ltb a (offset + length new) then get_or new (a - offset) 0 else f a
