-- ===== src/Ntfs/Patches/Written.antt =====
-- What the bitmap on the device holds once patches are written.
use linux_defragger.Prelude.{
  ℕ, zero, suc, ◌+◌, ◌-◌, ◌/◌, ◌≤◌, ◌≡◌, refl, ◌∙◌, Bool, ◌&&◌, List, [], ◌∷◌, ◌++◌, map, ltb, leb,
  if◌then◌else◌, length, length-append, length-take, length-drop, get_or, get_or-take, get_or-drop,
  take, drop, arith, Bool-cases, inl, inr,
}
use linux_defragger.Bytes.{AreBytes}
use linux_defragger.Ranges.{Range}
use linux_defragger.Ranges.Cover.{covers}
use linux_defragger.Ntfs.Bitmap.{bit}
use linux_defragger.Ntfs.Bitmap.SetRange.{take-AreBytes, drop-AreBytes, append-AreBytes}
use linux_defragger.Ntfs.Disk.{slice, splice}
use linux_defragger.Ntfs.Patches.{snapshot, current_bitmap_patches}
use linux_defragger.Ntfs.Patches.Touched.{AllBelow}

pub get_or-replace :
    (a b : ℕ) (xs ys : List ℕ) (j : ℕ)
    → a + length ys ≡ b
    → b ≤ length xs
    → get_or (take a xs ++ (ys ++ drop b xs)) j 0
      ≡ (if leb a j && ltb j b then get_or ys (j - a) 0 else get_or xs j 0)
get_or-replace zero zero xs [] j e h = ground arith
get_or-replace zero zero xs (y ∷ ys) j e h = absurd (omega arith)
get_or-replace zero (suc b) xs [] j e h = absurd (omega arith)
get_or-replace zero (suc b) [] (y ∷ ys) j e h = elim h [ ]
get_or-replace zero (suc b) (x ∷ xs) (y ∷ ys) zero e h = ground arith
get_or-replace zero (suc b) (x ∷ xs) (y ∷ ys) (suc j) e h =
    get_or-replace zero b xs ys j (omega arith) (omega arith) ∙ ground arith
get_or-replace (suc a) zero xs ys j e h = absurd (omega arith)
get_or-replace (suc a) (suc b) [] ys j e h = elim h [ ]
get_or-replace (suc a) (suc b) (x ∷ xs) ys zero e h = ground arith
get_or-replace (suc a) (suc b) (x ∷ xs) ys (suc j) e h =
    get_or-replace a b xs ys j (omega arith) (omega arith) ∙ ground arith

pub length-slice : (bs : List ℕ) (s e : ℕ) → s ≤ e → e ≤ length bs → length (slice bs s e) ≡ e - s
length-slice bs s e p q = omega (arith, length-take (e - s) (drop s bs), length-drop s bs)

-- A bitmap that shows `new` in the bytes from `s` to `e`, and `old` elsewhere.
pub record Shows (old new : List ℕ) (shown : ℕ → Bool) (out : List ℕ) : Type 0 where
  pub size : length out ≡ length old
  pub bytes : AreBytes out
  pub bits : (u : ℕ) → bit out u ≡ (if shown (u / 8) then bit new u else bit old u)

module _ (old new : List ℕ) (s e : ℕ) (same : length new ≡ length old) (bytes : AreBytes old)
    (bytes' : AreBytes new) (p : s ≤ e) (q : e ≤ length old) where
  splice_end : s + length (slice new s e) ≡ e
  splice_end = omega (arith, length-slice new s e p (omega arith))

  pub splice-Shows : Shows old new (λ j. leb s j && ltb j e) (splice old s (slice new s e))
  unfolding bit
  splice-Shows = record {
    size =
        rw (splice_end, length-append, length-append)
          (omega
            (arith, length-take s old, length-drop e old, length-slice new s e p (omega arith)));
    bytes = append-AreBytes _ _ (take-AreBytes s old bytes) (
        append-AreBytes _ _ (take-AreBytes (e - s) _ (drop-AreBytes s new bytes'))
          (drop-AreBytes _ old bytes));
    bits = λ u. elim (Bool-cases (leb s (u / 8) && ltb (u / 8) e)) [
      | inl inside ↦ rw (
        splice_end,
        get_or-replace s e old (slice new s e) (u / 8) splice_end q,
        inside,
        get_or-take (e - s) (drop s new) (u / 8 - s) 0 (ground arith),
        get_or-drop s new (u / 8 - s) 0,
        let back : s + (u / 8 - s) ≡ u / 8 = ground arith in back,
      )
      | inr outside ↦
          rw (splice_end, get_or-replace s e old (slice new s e) (u / 8) splice_end q, outside)
    ];
  }

-- The writes of all the patches, one after the other.
abbrev pub patched : List ℕ → List ℕ → List Range → List ℕ
patched old new [] = old
patched old new ((s, e) ∷ rs) = patched (splice old s (slice new s e)) new rs

pub patched-Shows :
    (old new : List ℕ) (rs : List Range)
    → length new ≡ length old
    → AreBytes old
    → AreBytes new
    → AllBelow (length old) rs
    → Shows old new (covers rs) (patched old new rs)
patched-Shows old new [] same h k b = record { size = refl; bytes = h; bits = λ u. refl }
patched-Shows old new ((s, e) ∷ rs) same h k b =
    let one = splice-Shows old new s e same h k b.0 b.1 in
    let more =
      patched-Shows (splice old s (slice new s e)) new rs (omega (arith, one.size)) one.bytes k
        (rw one.size b.2) in
    record {
      size = more.size ∙ one.size;
      bytes = more.bytes;
      bits = λ u. more.bits u ∙ rw (one.bits u) (ground arith);
    }

-- The current contents of the snapshots' bytes are the snapshots of the current bitmap.
pub current_bitmap_patches-snapshot :
    (old new : List ℕ) (rs : List Range)
    → AllBelow (length old) rs
    → current_bitmap_patches new (map (snapshot old) rs) ≡ map (snapshot new) rs
unfolding current_bitmap_patches
current_bitmap_patches-snapshot old new [] b = refl
current_bitmap_patches-snapshot old new ((s, e) ∷ rs) b =
    let end' : s + length (slice old s e) ≡ e = omega (arith, length-slice old s e b.0 b.1) in
    rw (end', current_bitmap_patches-snapshot old new rs b.2)
