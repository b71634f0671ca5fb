-- ===== src/Ntfs/Defrag/Steps.antt =====
-- A step of `defragment`: a stream that is moved to one free run.
use mathlib.Core.Path.{subst}
use linux_defragger.Prelude.{
  ℕ, zero, suc, ◌+◌, ◌<◌, ◌≤◌, ◌≡◌, refl, ap, sym, ◌∙◌, ◌⊎◌, inl, inr, Bool, true, false, some,
  List, [], ◌∷◌, ◌==◌, arith, Bool-cases, OnOk, OnOk-ok, OnOk-bind,
}
use linux_defragger.Prelude.Int.{pos}
use linux_defragger.Ntfs.Runlist.{Run}
use linux_defragger.Ntfs.Bitmap.{bit}
use linux_defragger.Ntfs.Gaps.{limit_of, find_free_run}
use linux_defragger.Ntfs.Gaps.FirstFit.{limit_of-le, IsFree, find_free_run-IsFree}
use linux_defragger.Ntfs.Patches.Touched.{in_runs}
use linux_defragger.Ntfs.Compact.{StreamInfo, Candidate, stream_clusters, physical_runs}
use linux_defragger.Ntfs.Compact.Loop.{same_key, put_stream, moved_stream, moved_bitmap}
use linux_defragger.Ntfs.Compact.Fits.{AllAbove, one_run}
use linux_defragger.Ntfs.Compact.Select.{Has}
use linux_defragger.Ntfs.Compact.Owned.{in_runs-named, moved_stream-key}
use linux_defragger.Ntfs.Compact.Rounds.{Agrees}
use linux_defragger.Ntfs.Compact.Agree.{FreeAt, Moving, moved-runs, moved-Agrees}
use linux_defragger.Ntfs.Candidates.{updated_record_runs}
use linux_defragger.Ntfs.Defrag.{Key, key_of, same_keys, any_key, DefragState, whole_move, moved_to}
use linux_defragger.Ntfs.Defrag.Keys.{Has-put_stream}

-- The stream is one run.
abbrev pub IsOne : StreamInfo → Type 0
IsOne info = (lcn : ℕ) × (n : ℕ) × (0 < n) × (info.runs ≡ one_run lcn n)

pub IsOne-AllAbove : (info : StreamInfo) → IsOne info → AllAbove 0 info.runs
IsOne-AllAbove info (lcn, n, p, e) = rw e (lcn, refl, omega arith, p, tt)

-- The plan agrees with the bitmap; the streams that wait have physical runs, not empty, and those
-- that have been moved are one run.
pub record Inv (fixed : ℕ → Bool) (bitmap : List ℕ) (streams : List StreamInfo)
    (pending moved : List Key) : Type 0 where
  pub agrees : Agrees fixed bitmap streams
  pub waiting :
      (info : StreamInfo)
      → Has info streams
      → any_key (key_of info) pending ≡ true
      → AllAbove 0 info.runs
  pub done :
      (info : StreamInfo) → Has info streams → any_key (key_of info) moved ≡ true → IsOne info

abbrev pub Sound : (ℕ → Bool) → DefragState → Type 0
Sound fixed s = Inv fixed s.bitmap s.streams s.pending s.moved_keys

-- Streams with another key than `info` stay in the plan.
abbrev pub Stays : StreamInfo → DefragState → DefragState → Type 0
Stays info s s' =
    (other : StreamInfo) → same_key info other ≡ false → Has other s.streams → Has other s'.streams

physical_runs-AllAbove_self :
    (lo : ℕ) (runs : List Run) → AllAbove lo runs → physical_runs runs ≡ runs
unfolding physical_runs
physical_runs-AllAbove_self lo [] h = refl
physical_runs-AllAbove_self lo (run ∷ runs) (lcn, e, q, full, h) =
    let some_units : (run.length == 0) ≡ false = ground (arith, full) in
    simp (e, some_units, physical_runs-AllAbove_self lo runs h)

IsFree-get :
    (bitmap : List ℕ) (limit a n : ℕ)
    → IsFree bitmap limit a n
    → (u : ℕ) → a ≤ u
    → u < a + n
    → (u < limit) × (bit bitmap u ≡ false)
IsFree-get bitmap limit a zero h u p q = absurd (omega (arith, p, q))
IsFree-get bitmap limit a (suc n) h u p q = elim (Bool-cases (a == u)) [
  | inl e ↦
      let same : a ≡ u = ground (arith, e) in
      rw (sym same) (ground (arith, h.0), ground (arith, h.0))
  | inr e ↦ IsFree-get bitmap limit (a + 1) n h.1 u (ground (arith, e, p)) (omega (arith, q))
]

-- A place that is found has a cluster at least, and is free.
find_free_run-FreeAt :
    (bitmap : List ℕ) (n before a : ℕ)
    → find_free_run bitmap (pos n) (pos before) ≡ some a
    → (0 < n) × FreeAt bitmap a n
find_free_run-FreeAt bitmap zero before a e = absurd (nothing bitmap before a e)
  where
    nothing :
        (bitmap : List ℕ) (before a : ℕ) → find_free_run bitmap (pos 0) (pos before) ≡ some a → ⊥
    nothing bitmap before a e = unfold find_free_run in ground (arith, e)
find_free_run-FreeAt bitmap (suc n) before a e =
    let free = find_free_run-IsFree bitmap (pos before) (suc n) a e in
    let get = IsFree-get bitmap (limit_of bitmap (pos before)) a (suc n) free in
    (
      omega arith,
      (
        omega (arith, (get (a + n) (omega arith) (omega arith)).0, limit_of-le bitmap before),
        λ u p q. (get u p q).1,
      ),
    )

-- The plan after the stream has become one run.
pub moved-Inv :
    {fixed : ℕ → Bool} {bitmap bitmap' : List ℕ} {streams : List StreamInfo}
    {pending pending' moved moved' : List Key} (updated : StreamInfo)
    → Inv fixed bitmap streams pending moved
    → Agrees fixed bitmap' (put_stream updated streams)
    → IsOne updated
    → ((key : Key) → any_key key pending' ≡ true → any_key key pending ≡ true)
    → ((key : Key)
        → any_key key moved' ≡ true
        → (any_key key moved ≡ true) ⊎ (same_keys key (key_of updated) ≡ true))
    → Inv fixed bitmap' (put_stream updated streams) pending' moved'
moved-Inv {streams} {pending'} {moved} {moved'} updated h agrees one fewer more = record {
  agrees = agrees;
  waiting = λ info m k. elim (Has-put_stream info updated streams h.agrees.keys m) [
    | inl e ↦ rw e (IsOne-AllAbove updated one)
    | inr (n, other) ↦ h.waiting info n (fewer (key_of info) k)
  ];
  done = λ info m k. elim (Has-put_stream info updated streams h.agrees.keys m) [
    | inl e ↦ rw e one
    | inr (n, other) ↦ elim (more (key_of info) k) [
      | inl before ↦ h.done info n before
      | inr same ↦ absurd (ground (arith, other, same))
    ]
  ];
}

module _ (fixed : ℕ → Bool) (sector_size : ℕ) where
  -- What moving a stream does.
  pub record After (s : DefragState) (info : StreamInfo) (s' : DefragState) : Type 0 where
    pub updated : StreamInfo
    pub key : same_key updated info ≡ true
    pub one : IsOne updated
    pub streams : s'.streams ≡ put_stream updated s.streams
    pub agrees : Agrees fixed s'.bitmap (put_stream updated s.streams)
    pub pending : s'.pending ≡ s.pending
    pub moved : s'.moved_keys ≡ s.moved_keys

  module _ (s : DefragState) (info : StreamInfo) (c : Candidate) (destination before : ℕ)
      (agrees : Agrees fixed s.bitmap s.streams) (has : Has info s.streams)
      (above : AllAbove 0 info.runs) (read : c.attribute.runs ≡ info.runs)
      (found : find_free_run s.bitmap (pos (stream_clusters c.attribute.runs)) (pos before)
        ≡ some destination) where
    whole : stream_clusters c.attribute.runs ≡ stream_clusters info.runs
    whole = ap stream_clusters read

    moving : Moving info destination (whole_move c destination)
    unfolding whole_move
    moving = record {
      source = λ u.
          ap (λ runs. in_runs runs u) (read ∙ sym (physical_runs-AllAbove_self 0 info.runs above))
          ∙ in_runs-named u info.runs;
      placed = subst (AllAbove 0) (sym read) above;
      destination = ap (one_run destination) whole;
      replaced = ap (one_run destination) whole;
      nonempty =
          subst (λ n. 0 < n) whole (find_free_run-FreeAt s.bitmap _ before destination found).0;
    }

    room : FreeAt s.bitmap destination (stream_clusters info.runs)
    room =
        subst (FreeAt s.bitmap destination) whole
          (find_free_run-FreeAt s.bitmap _ before destination found).1

    pub moved_to-After : OnOk (After s info) (moved_to sector_size s info c destination)
    unfolding moved_to
    moved_to-After =
        let move = whole_move c destination in
        let (out, made, size, agrees') =
          moved-Agrees fixed s.bitmap s.streams agrees info destination move has room moving in
        OnOk-bind (updated_record_runs c move.new_runs sector_size) _ λ new_record e1.
          OnOk-bind (moved_bitmap s.bitmap move) _ λ bitmap e2.
            let same : out ≡ bitmap = ground (arith, made, e2) in
            OnOk-ok (record {
              updated = moved_stream info move.new_runs;
              key = moved_stream-key info move.new_runs;
              one = (
                destination,
                stream_clusters info.runs,
                moving.nonempty,
                moved-runs fixed s.bitmap s.streams agrees info destination move has room moving,
              );
              streams = refl;
              agrees = rw (sym same) agrees';
              pending = refl;
              moved = refl;
            })
