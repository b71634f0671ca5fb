-- ===== src/Ntfs/Patches/Touched.antt =====
-- The clusters of runs, and the byte ranges that they touch.
use linux_defragger.Prelude.{
  ℕ, ◌+◌, ◌*◌, ◌/◌, ◌≤◌, max, ◌≡◌, refl, ap, ◌∙◌, Bool, true, false, ◌&&◌, ◌||◌, Option, some, none,
  List, [], ◌∷◌, ltb, leb, if◌then◌else◌, length, arith, Bool-cases, Option-cases, inl, inr, ◌++◌,
}
use linux_defragger.Bytes.{AreBytes}
use linux_defragger.Ranges.{Range}
use linux_defragger.Ranges.Cover.{covers}
use linux_defragger.Ntfs.Runlist.{Run}
use linux_defragger.Ntfs.Bitmap.{bit}
use linux_defragger.Ntfs.Bitmap.SetRange.{set_range-Sets}
use linux_defragger.Ntfs.Patches.{
  byte_ranges, range_le, insert_range, sort_ranges, join_onto, join_sorted, touched_ranges,
  set_runs,
}

abbrev pub in_run : ℕ → Option ℕ → ℕ → Bool
in_run u none n = false
in_run u (some lcn) n = leb lcn u && ltb u (lcn + n)

abbrev pub in_runs : List Run → ℕ → Bool
in_runs [] u = false
in_runs (run ∷ runs) u = in_run u run.lcn run.length || in_runs runs u

-- A physical run below the end of the bitmap.
abbrev pub Fits : ℕ → Option ℕ → ℕ → Type 0
Fits top none n = ⊥
Fits top (some lcn) n = lcn + n ≤ top

abbrev pub AllFit : ℕ → List Run → Type 0
AllFit top [] = Unit
AllFit top (run ∷ runs) = Fits top run.lcn run.length × AllFit top runs

pub record SetsRuns (bitmap : List ℕ) (runs : List Run) (v : Bool) (out : List ℕ) : Type 0 where
  pub size : length out ≡ length bitmap
  pub bytes : AreBytes out
  pub bits : (u : ℕ) → bit out u ≡ (if in_runs runs u then v else bit bitmap u)

-- For a bitmap of bytes and physical runs inside it, the runs may overlap, setting them in turn
-- returns a bitmap of bytes of the same length in which the clusters of the runs, and only these,
-- have the value.
pub set_runs-SetsRuns :
    (bitmap : List ℕ) (runs : List Run) (v : Bool)
    → AreBytes bitmap
    → AllFit (8 * length bitmap) runs
    → (out : List ℕ) × (set_runs bitmap runs v ≡ some out) × SetsRuns bitmap runs v out
unfolding set_runs
set_runs-SetsRuns bitmap [] v h k =
    (bitmap, refl, record { size = refl; bytes = h; bits = λ u. refl })
set_runs-SetsRuns bitmap (run ∷ runs) v h k = elim (Option-cases run.lcn) [
  | inl none_lcn ↦ absurd (rw none_lcn at k.0)
  | inr (lcn, e) ↦
      let fits : lcn + run.length ≤ 8 * length bitmap = rw e at k.0 in
      let (mid, one, sets) = set_range-Sets bitmap lcn run.length v h fits in
      let (out, rest, more) = set_runs-SetsRuns mid runs v sets.bytes (rw sets.size k.1) in
      (
        out,
        rw (e, one) rest,
        record {
          size = more.size ∙ sets.size;
          bytes = more.bytes;
          bits = λ u. more.bits u ∙ rw (sets.bits u, e) (ground arith);
        },
      )
]

covers-insert_range :
    (j : ℕ) (r : Range) (rs : List Range) → covers (insert_range r rs) j ≡ covers (r ∷ rs) j
unfolding insert_range
covers-insert_range j r [] = refl
covers-insert_range j r (s ∷ rs) = ground (arith, covers-insert_range j r rs)

covers-sort_ranges : (j : ℕ) (rs : List Range) → covers (sort_ranges rs) j ≡ covers rs j
unfolding sort_ranges
covers-sort_ranges j [] = refl
covers-sort_ranges j (r ∷ rs) =
    covers-insert_range j r (sort_ranges rs)
    ∙ ap (λ b. (leb r.0 j && ltb j r.1) || b) (covers-sort_ranges j rs)

abbrev StartsFrom : ℕ → List Range → Type 0
StartsFrom lo [] = Unit
StartsFrom lo (r ∷ rs) = (lo ≤ r.0) × StartsFrom lo rs

abbrev IsSorted : List Range → Type 0
IsSorted [] = Unit
IsSorted (r ∷ rs) = StartsFrom r.0 rs × IsSorted rs

StartsFrom-trans : (lo mid : ℕ) (rs : List Range) → lo ≤ mid → StartsFrom mid rs → StartsFrom lo rs
StartsFrom-trans lo mid [] h k = tt
StartsFrom-trans lo mid (r ∷ rs) h k = (omega arith, StartsFrom-trans lo mid rs h k.1)

StartsFrom-insert_range :
    (lo : ℕ) (r : Range) (rs : List Range)
    → lo ≤ r.0
    → StartsFrom lo rs
    → StartsFrom lo (insert_range r rs)
unfolding insert_range
StartsFrom-insert_range lo r [] h k = (h, tt)
StartsFrom-insert_range lo r (s ∷ rs) h k = ground (arith, StartsFrom-insert_range lo r rs h k.1)

range_le-start :
    (r s : Range) → (range_le r s ≡ true → r.0 ≤ s.0) × (range_le r s ≡ false → s.0 ≤ r.0)
unfolding range_le
range_le-start (a, b) (c, d) = (λ h. ground arith, λ h. ground arith)

insert_range-IsSorted : (r : Range) (rs : List Range) → IsSorted rs → IsSorted (insert_range r rs)
unfolding insert_range
insert_range-IsSorted r [] h = (tt, tt)
insert_range-IsSorted r (s ∷ rs) h = elim (Bool-cases (range_le r s)) [
  | inl e ↦
      let below = (range_le-start r s).0 e in
      rw e ((below, StartsFrom-trans r.0 s.0 rs below h.0), h)
  | inr e ↦ rw e (
    StartsFrom-insert_range s.0 r rs ((range_le-start r s).1 e) h.0,
    insert_range-IsSorted r rs h.1,
  )
]

sort_ranges-IsSorted : (rs : List Range) → IsSorted (sort_ranges rs)
unfolding sort_ranges
sort_ranges-IsSorted [] = tt
sort_ranges-IsSorted (r ∷ rs) = insert_range-IsSorted r (sort_ranges rs) (sort_ranges-IsSorted rs)

covers-join_onto :
    (j s e : ℕ) (rs : List Range)
    → StartsFrom s rs
    → IsSorted rs
    → covers (join_onto s e rs) j ≡ covers ((s, e) ∷ rs) j
unfolding join_onto
covers-join_onto j s e [] h k = refl
covers-join_onto j s e ((a, b) ∷ rs) h k =
    ground (arith, covers-join_onto j s (max e b) rs h.1 k.1, covers-join_onto j a b rs k.0 k.1)

covers-join_sorted :
    (j : ℕ) (rs : List Range) → IsSorted rs → covers (join_sorted rs) j ≡ covers rs j
unfolding join_sorted
covers-join_sorted j [] k = refl
covers-join_sorted j ((s, e) ∷ rs) k = covers-join_onto j s e rs k.0 k.1

covers-touched_ranges :
    (j : ℕ) (runs : List Run) → covers (touched_ranges runs) j ≡ covers (byte_ranges runs) j
unfolding touched_ranges
covers-touched_ranges j runs =
    covers-join_sorted j (sort_ranges (byte_ranges runs)) (sort_ranges-IsSorted (byte_ranges runs))
    ∙ covers-sort_ranges j (byte_ranges runs)

covers-byte_ranges :
    (u : ℕ) (runs : List Run) → in_runs runs u ≡ true → covers (byte_ranges runs) (u / 8) ≡ true
unfolding byte_ranges
covers-byte_ranges u [] h = cc
covers-byte_ranges u (run ∷ runs) h = elim (Option-cases run.lcn) [
  | inl e ↦ let k = rw e at h in rw (e, byte_ranges) (covers-byte_ranges u runs (ground (arith, k)))
  | inr (lcn, e) ↦
      let k = rw e at h in rw (e, byte_ranges) (ground (arith, k, covers-byte_ranges u runs))
]

-- The byte of every cluster of the runs lies in one of the merged byte ranges that the snapshots of
-- the bitmap are taken of.
pub touched_ranges-covers :
    (u : ℕ) (runs : List Run) → in_runs runs u ≡ true → covers (touched_ranges runs) (u / 8) ≡ true
touched_ranges-covers u runs h = covers-touched_ranges (u / 8) runs ∙ covers-byte_ranges u runs h

-- Byte ranges inside a bitmap.
abbrev pub AllBelow : ℕ → List Range → Type 0
AllBelow top [] = Unit
AllBelow top ((s, e) ∷ rs) = (s ≤ e) × (e ≤ top) × AllBelow top rs

insert_range-AllBelow :
    (top : ℕ) (r : Range) (rs : List Range)
    → AllBelow top (r ∷ rs)
    → AllBelow top (insert_range r rs)
unfolding insert_range
insert_range-AllBelow top r [] h = h
insert_range-AllBelow top r (s ∷ rs) h =
    ground (arith, insert_range-AllBelow top r rs (h.0, h.1, h.2.2))

sort_ranges-AllBelow : (top : ℕ) (rs : List Range) → AllBelow top rs → AllBelow top (sort_ranges rs)
unfolding sort_ranges
sort_ranges-AllBelow top [] h = tt
sort_ranges-AllBelow top (r ∷ rs) h =
    insert_range-AllBelow top r (sort_ranges rs) (h.0, h.1, sort_ranges-AllBelow top rs h.2)

join_onto-AllBelow :
    (top s e : ℕ) (rs : List Range) → AllBelow top ((s, e) ∷ rs) → AllBelow top (join_onto s e rs)
unfolding join_onto
join_onto-AllBelow top s e [] h = h
join_onto-AllBelow top s e ((a, b) ∷ rs) h = ground (
  arith,
  join_onto-AllBelow top s (max e b) rs (omega arith, omega arith, h.2.2),
  join_onto-AllBelow top a b rs h.2,
)

join_sorted-AllBelow : (top : ℕ) (rs : List Range) → AllBelow top rs → AllBelow top (join_sorted rs)
unfolding join_sorted
join_sorted-AllBelow top [] h = tt
join_sorted-AllBelow top ((s, e) ∷ rs) h = join_onto-AllBelow top s e rs h

byte_ranges-AllBelow :
    (top : ℕ) (runs : List Run) → AllFit (8 * top) runs → AllBelow top (byte_ranges runs)
unfolding byte_ranges
byte_ranges-AllBelow top [] h = tt
byte_ranges-AllBelow top (run ∷ runs) h = elim (Option-cases run.lcn) [
  | inl e ↦ absurd (rw e at h.0)
  | inr (lcn, e) ↦
      let k = rw e at h.0 in
      rw (e, byte_ranges) (ground (arith, k, byte_ranges-AllBelow top runs h.1))
]

-- The touched ranges of runs that fit lie inside the bitmap.
pub touched_ranges-AllBelow :
    (top : ℕ) (runs : List Run) → AllFit (8 * top) runs → AllBelow top (touched_ranges runs)
unfolding touched_ranges
touched_ranges-AllBelow top runs h =
    join_sorted-AllBelow top _ (sort_ranges-AllBelow top _ (byte_ranges-AllBelow top runs h))

pub in_runs-append :
    (xs ys : List Run) (u : ℕ) → in_runs (xs ++ ys) u ≡ (in_runs xs u || in_runs ys u)
in_runs-append [] ys u = refl
in_runs-append (x ∷ xs) ys u = ground (arith, in_runs-append xs ys u)

pub AllFit-append :
    (top : ℕ) (xs ys : List Run) → AllFit top xs → AllFit top ys → AllFit top (xs ++ ys)
AllFit-append top [] ys h k = k
AllFit-append top (x ∷ xs) ys h k = (h.0, AllFit-append top xs ys h.1 k)
