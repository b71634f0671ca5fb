-- ===== src/Ntfs/Compact/Agree.antt =====
-- A move of a whole stream keeps the agreement of the plan and the bitmap.
use linux_defragger.Prelude.{
  ℕ, ◌+◌, ◌*◌, ◌<◌, ◌≤◌, ◌≡◌, refl, ap, ◌∙◌, sym, Bool, true, false, ◌&&◌, ◌||◌, List, ltb, leb,
  if◌then◌else◌, length, arith, ok,
}
use linux_defragger.Ntfs.Bitmap.{bit}
use linux_defragger.Ntfs.Move.{ExtentMove}
use linux_defragger.Ntfs.Patches.Touched.{in_runs, AllFit}
use linux_defragger.Ntfs.Compact.{StreamInfo, stream_clusters}
use linux_defragger.Ntfs.Compact.Loop.{put_stream, moved_stream, moved_bitmap}
use linux_defragger.Ntfs.Compact.Fits.{AllAbove, one_run}
use linux_defragger.Ntfs.Compact.Select.{Has}
use linux_defragger.Ntfs.Compact.Owned.{
  named, owners, Has-owners, put_stream-owners, put_stream-UniqueKeys, moved_stream-runs,
  moved_stream-key,
}
use linux_defragger.Ntfs.Compact.Rounds.{Agrees, Moves, moved_bitmap-Moves, used-AllFit}

-- A cluster of the destination was free, and one of the source had one owner.
settle :
    (fixed used out inside : Bool) (before after taken : ℕ)
    → after + taken ≡ before + ((if inside then 1 else 0) + 0)
    → taken ≤ before
    → (if fixed then 1 else 0) + before ≡ (if used then 1 else 0)
    → (inside ≡ true → used ≡ false)
    → out ≡ (if ltb 0 taken then false else if inside || false then true else used)
    → (if fixed then 1 else 0) + after ≡ (if out then 1 else 0)
settle fixed used out inside before after taken h k l m n = ground (arith, h, k, l, m, n)

-- A free extent of the bitmap.
abbrev pub FreeAt : List ℕ → ℕ → ℕ → Type 0
FreeAt bitmap lcn n =
    (lcn + n ≤ 8 * length bitmap) × ((u : ℕ) → lcn ≤ u → u < lcn + n → bit bitmap u ≡ false)

-- The move takes all clusters of the stream to one run.
pub record Moving (info : StreamInfo) (lcn : ℕ) (move : ExtentMove) : Type 0 where
  pub source : (u : ℕ) → in_runs move.source_runs u ≡ ltb 0 (named u info.runs)
  pub placed : AllAbove 0 move.source_runs
  pub destination : move.destination_runs ≡ one_run lcn (stream_clusters info.runs)
  pub replaced : move.new_runs ≡ one_run lcn (stream_clusters info.runs)
  pub nonempty : 0 < stream_clusters info.runs

module _ (fixed : ℕ → Bool) (bitmap : List ℕ) (streams : List StreamInfo)
    (sound : Agrees fixed bitmap streams) (info : StreamInfo) (lcn : ℕ) (move : ExtentMove)
    (has : Has info streams) (gap : FreeAt bitmap lcn (stream_clusters info.runs))
    (fit : Moving info lcn move) where
  -- What the stream names is in use.
  owned-used : (u : ℕ) → in_runs move.source_runs u ≡ true → bit bitmap u ≡ true
  owned-used u h =
      let named_once : ltb 0 (named u info.runs) ≡ true = sym (fit.source u) ∙ h in
      ground (arith, named_once, Has-owners u info streams has, sound.bits u)

  source-AllFit : AllFit (8 * length bitmap) move.source_runs
  source-AllFit = used-AllFit bitmap 0 move.source_runs fit.placed owned-used

  destination-AllFit : AllFit (8 * length bitmap) move.destination_runs
  destination-AllFit = rw fit.destination (omega (arith, gap.0), tt)

  pub moved-runs : (moved_stream info move.new_runs).runs ≡ one_run lcn (stream_clusters info.runs)
  moved-runs = rw fit.replaced (moved_stream-runs info lcn (stream_clusters info.runs) fit.nonempty)

  -- The bits and the owners change together.
  moved_bits :
      (out : List ℕ)
      → Moves bitmap move out
      → (u : ℕ)
      → (if fixed u then 1 else 0) + owners u (put_stream (moved_stream info move.new_runs) streams)
        ≡ (if bit out u then 1 else 0)
  moved_bits out m u =
      let key = moved_stream-key info move.new_runs in
      let swap : owners u (put_stream (moved_stream info move.new_runs) streams) + named u info.runs
          ≡ owners u streams + named u (one_run lcn (stream_clusters info.runs)) =
        put_stream-owners (moved_stream info move.new_runs) info key u streams has sound.keys
        ∙ ap (λ runs. owners u streams + named u runs) moved-runs in
      let source = fit.source u in
      let destination : in_runs move.destination_runs u
          ≡ in_runs (one_run lcn (stream_clusters info.runs)) u =
        ap (λ runs. in_runs runs u) fit.destination in
      let bits : bit out u ≡ (
          if ltb 0 (named u info.runs)
          then false
          else if in_runs (one_run lcn (stream_clusters info.runs)) u
          then true
          else bit bitmap u) =
        m.bits u ∙ rw (source, destination) refl in
      let empty : (leb lcn u && ltb u (lcn + stream_clusters info.runs)) ≡ true
          → bit bitmap u ≡ false =
        λ i. gap.1 u (ground (arith, i)) (ground (arith, i)) in
      settle (fixed u) (bit bitmap u) (bit out u)
        (leb lcn u && ltb u (lcn + stream_clusters info.runs)) (owners u streams) _
        (named u info.runs) swap (Has-owners u info streams has) (sound.bits u) empty bits

  -- The move succeeds on the bitmap, and the plan agrees with the bitmap again.
  pub moved-Agrees :
      (out : List ℕ) × (moved_bitmap bitmap move ≡ ok out)
      × (length out ≡ length bitmap)
      × Agrees fixed out (put_stream (moved_stream info move.new_runs) streams)
  moved-Agrees =
      let (out, moved, m) =
        moved_bitmap-Moves bitmap move sound.bytes destination-AllFit source-AllFit in
      (
        out,
        moved,
        m.size,
        record {
          bytes = m.bytes;
          keys = put_stream-UniqueKeys (moved_stream info move.new_runs) streams sound.keys;
          bits = moved_bits out m;
        },
      )
