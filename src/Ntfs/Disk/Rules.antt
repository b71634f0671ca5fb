-- ===== src/Ntfs/Disk/Rules.antt =====
-- Rules for calls that may be cut short by a loss of power: `Mid` holds of the device at each point
-- where the call can be cut short, `Post` where it returns. No other failure is allowed.
use linux_defragger.Prelude.{ℕ, zero, suc, ◌≡◌, refl, List, ok, err, Result}
use linux_defragger.Ntfs.Disk.{
  Disk, Failure, Action, power_loss, continue, write_on, write_record_on,
}

abbrev pub Ends :
    {A : Type 0} → (Disk → Type 0) → (A → Disk → Type 0) → Result Failure A × Disk → Type 0
Ends Mid Post (ok a, d) = Post a d
Ends Mid Post (err e, d) = (e ≡ power_loss) × Mid d

module _ {A B : Type 0} (Mid : Disk → Type 0) (Post : B → Disk → Type 0) where
  -- The rule of a sequence.
  pub Ends-continue :
      (P : A → Disk → Type 0) (r : Result Failure A × Disk) (f : A → Action B)
      → Ends Mid P r
      → ((a : A) (d : Disk) → P a d → Ends Mid Post (f a d))
      → Ends Mid Post (continue r f)
  Ends-continue P (ok a, d) f h k = k a d h
  Ends-continue P (err e, d) f h k = h

module _ {B : Type 0} (Mid : Disk → Type 0) (Post : B → Disk → Type 0) where
  pub Ends-write :
      (n : ℕ) (old new : Disk) (f : Unit {0} → Action B)
      → Mid old
      → ((n : ℕ) → Ends Mid Post (f tt (record new { budget = n })))
      → Ends Mid Post (continue (write_on n old new) f)
  Ends-write zero old new f h k = (refl, h)
  Ends-write (suc n) old new f h k = k n

  pub Ends-write_record :
      (n : ℕ) (image : List ℕ) (d : Disk) (f : Unit {0} → Action B)
      → Mid (record d { record_image = d.torn })
      → ((n : ℕ) → Ends Mid Post (f tt (record d { record_image = image; budget = n })))
      → Ends Mid Post (continue (write_record_on n image d) f)
  Ends-write_record zero image d f h k = (refl, h)
  Ends-write_record (suc n) image d f h k = k n

module _ (Mid : Disk → Type 0) (Post : Unit {0} → Disk → Type 0) where
  -- A write at the end of a block.
  pub Ends-last :
      (n : ℕ) (old new : Disk)
      → Mid old
      → ((n : ℕ) → Post tt (record new { budget = n }))
      → Ends Mid Post (write_on n old new)
  Ends-last zero old new h k = (refl, h)
  Ends-last (suc n) old new h k = k n

module _ {A : Type 0} (Mid : Disk → Type 0) where
  pub Ends-weaken :
      (P Q : A → Disk → Type 0) (r : Result Failure A × Disk)
      → Ends Mid P r
      → ((a : A) (d : Disk) → P a d → Q a d)
      → Ends Mid Q r
  Ends-weaken P Q (ok a, d) h k = k a d h
  Ends-weaken P Q (err e, d) h k = h
