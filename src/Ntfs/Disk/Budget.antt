-- ===== src/Ntfs/Disk/Budget.antt =====
-- How many writes a call makes, so that it does not lose power when there are as many to come.
use linux_defragger.Prelude.{
  ℕ, zero, suc, ◌+◌, ◌≤◌, ◌≡◌, refl, ap, ◌∙◌, sym, Bool, true, false, Option, some, none, List, [],
  ◌∷◌, length, arith, Result, ok, err,
}
use linux_defragger.Ntfs.Disk.{
  Disk, Failure, Action, power_loss, continue, write_on, write_record_on, raise_if, or_raise,
  write_bitmap_patches, write_volume_records, write_mft_record,
}
use linux_defragger.Ntfs.Disk.Rules.{Ends}

abbrev pub is_loss : Failure → Bool
is_loss power_loss = true
is_loss _ = false

-- A call that starts with `before` writes to come makes at most `most`, and does not lose power.
abbrev pub Spends : {A : Type 0} → ℕ → ℕ → Result Failure A × Disk → Type 0
Spends most before (ok a, d) = before ≤ d.budget + most
Spends most before (err e, d) = is_loss e ≡ false

-- Then it returns.
pub Ends-returns :
    {A : Type 0} (Mid : Disk → Type 0) (Post : A → Disk → Type 0) (most before : ℕ)
    (r : Result Failure A × Disk)
    → Ends Mid Post r
    → Spends most before r
    → (a : A) × (d : Disk) × (r ≡ (ok a, d)) × Post a d
Ends-returns Mid Post most before (ok a, d) h s = (a, d, refl, h)
Ends-returns Mid Post most before (err e, d) h s = absurd (let e' = sym (ap is_loss h.0) ∙ s in cc)

pub Spends-more :
    {A : Type 0} (k l b c : ℕ) (r : Result Failure A × Disk)
    → Spends k b r
    → c + k ≤ b + l
    → Spends l c r
Spends-more k l b c (ok a, d) h p = omega (arith, h, p)
Spends-more k l b c (err e, d) h p = h

module _ {A B : Type 0} where
  pub Spends-continue :
      (k l m b : ℕ) (r : Result Failure A × Disk) (f : A → Action B)
      → Spends k b r
      → k + l ≤ m
      → m ≤ b
      → ((a : A) (d : Disk) → l ≤ d.budget → Spends l d.budget (f a d))
      → Spends m b (continue r f)
  Spends-continue k l m b (ok a, d) f h p q s =
      Spends-more l m d.budget b (f a d) (s a d (omega (arith, h, p, q))) (omega (arith, h, p))
  Spends-continue k l m b (err e, d) f h p q s = h

  -- Calls that write nothing.
  pub Spends-or_raise :
      (l b : ℕ) (o : Option A) (e : Failure) (d : Disk) (f : A → Action B)
      → is_loss e ≡ false
      → ((a : A) → Spends l b (f a d))
      → Spends l b (continue (or_raise o e d) f)
  Spends-or_raise l b (some a) e d f h s = s a
  Spends-or_raise l b none e d f h s = h

pub Spends-raise_if :
    {B : Type 0} (l b : ℕ) (c : Bool) (e : Failure) (d : Disk) (f : Unit {0} → Action B)
    → is_loss e ≡ false
    → Spends l b (f tt d)
    → Spends l b (continue (raise_if c e d) f)
Spends-raise_if l b true e d f h s = h
Spends-raise_if l b false e d f h s = s

pub Spends-guard :
    (c : Bool) (e : Failure) (d : Disk) → is_loss e ≡ false → Spends 0 d.budget (raise_if c e d)
Spends-guard true e d h = h
Spends-guard false e d h = omega arith

-- The writes.
pub Spends-write_on : (n : ℕ) (old new : Disk) → 1 ≤ n → Spends 1 n (write_on n old new)
Spends-write_on zero old new h = absurd (omega arith)
Spends-write_on (suc n) old new h = omega arith

pub write_mft_record-Spends :
    (image : List ℕ) (d : Disk) → 1 ≤ d.budget → Spends 1 d.budget (write_mft_record image d)
unfolding write_mft_record
write_mft_record-Spends image d h = on_record d.budget h
  where
    on_record : (n : ℕ) → 1 ≤ n → Spends 1 n (write_record_on n image d)
    on_record zero h = absurd (omega arith)
    on_record (suc n) h = omega arith

pub write_volume_records-Spends :
    (v m : List ℕ) (d : Disk) → 2 ≤ d.budget → Spends 2 d.budget (write_volume_records v m d)
unfolding write_volume_records
write_volume_records-Spends v m d h =
    Spends-continue 1 1 2 d.budget (write_on d.budget d _) _
      (Spends-write_on d.budget d _ (omega arith)) (omega arith) h
      (λ _ d' p. Spends-write_on d'.budget d' _ p)

pub write_bitmap_patches-Spends :
    (patches : List (ℕ × List ℕ)) (d : Disk)
    → length patches ≤ d.budget
    → Spends (length patches) d.budget (write_bitmap_patches patches d)
unfolding write_bitmap_patches
write_bitmap_patches-Spends [] d h = omega arith
write_bitmap_patches-Spends ((offset, new) ∷ patches) d h =
    Spends-continue 1 (length patches) (suc (length patches)) d.budget (write_on d.budget d _) _
      (Spends-write_on d.budget d _ (omega (arith, h))) (omega arith) h
      (λ _ d' p. write_bitmap_patches-Spends patches d' p)
