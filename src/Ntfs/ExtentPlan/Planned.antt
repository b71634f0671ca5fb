-- ===== src/Ntfs/ExtentPlan/Planned.antt =====
-- What `_plan_extent_move` plans.
use linux_defragger.Prelude.{
  ℕ, zero, suc, ◌+◌, ◌-◌, ◌<◌, ◌≡◌, refl, ap, sym, ◌∙◌, inl, inr, min, true, false, ◌&&◌, ◌||◌,
  Option, some, none, List, [], ◌∷◌, ltb, leb, ◌==◌, if◌then◌else◌, length, take, get_elem?, arith,
  Bool-cases, ok, raise_as, OnOk, OnOk-ok, OnOk-bind, OnOk-if,
}
use linux_defragger.Prelude.Int.{pos}
use linux_defragger.Ntfs.Bitmap.{bit}
use linux_defragger.Ntfs.Runlist.{Run}
use linux_defragger.Ntfs.Move.{ExtentMove, clusters_of}
use linux_defragger.Ntfs.Patches.Touched.{in_runs}
use linux_defragger.Ntfs.Gaps.{free_runs_before}
use linux_defragger.Ntfs.Gaps.Free.{free_runs_before-free}
use linux_defragger.Ntfs.Runs.{coalesce_runs}
use linux_defragger.Ntfs.Compact.{Candidate, encoded_length, maximum_mapping_capacity}
use linux_defragger.Ntfs.ExtentPlan.{
  matches, high_water_run_index, sort_runs, after_rank, destination_slice, ExtentVerdict, planned,
  refused, in_plan, or_short, replacement, Best, improves, plan_for, best_from, plan_source,
  plan_extent_move, no_safe_mapping, not_unique, sparse_extent, single,
}
use linux_defragger.Ntfs.ExtentPlan.Chosen.{
  in_runs-take, in_runs-sort_runs, limit_of-le_before, destination_slice-clusters, Ends,
  matches-end,
}

-- The end of an extent goes to clusters that are free, and lie below it.
pub record Lowers (bitmap : List ℕ) (high_water : ℕ) (move : ExtentMove) : Type 0 where
  pub lcn : ℕ
  pub n : ℕ
  pub source : move.source_runs ≡ record { lcn = some lcn; length = n } ∷ []
  pub at_end : lcn + n ≡ high_water
  pub nonempty : 0 < n
  pub as_many : clusters_of move.destination_runs ≡ n
  pub free : (u : ℕ) → in_runs move.destination_runs u ≡ true → (u < lcn) × (bit bitmap u ≡ false)

module _ (bitmap : List ℕ) (high_water : ℕ) where
  abbrev pub LowersIf : ExtentVerdict → Type 0
  LowersIf (planned move) = Lowers bitmap high_water move
  LowersIf (refused reason) = Unit

  abbrev LowersBest : Best → Type 0
  LowersBest none = Unit
  LowersBest (some held) = Lowers bitmap high_water held.0

  module _ (runs : List Run) (index source_lcn source_length : ℕ) (ranked : List Run) (capacity : ℕ)
      (at_end : source_lcn + source_length ≡ high_water)
      (free : (u : ℕ) → in_runs ranked u ≡ true → (u < source_lcn) × (bit bitmap u ≡ false)) where
    plan_for-Lowers :
        (count : ℕ)
        → (min source_length (clusters_of (take count ranked)) == 0) ≡ false
        → OnOk
            (λ r. Lowers bitmap high_water r.0)
            (plan_for runs index source_lcn source_length ranked capacity count)
    unfolding plan_for
    plan_for-Lowers count some_units =
        let chosen = take count ranked in
        let movable = min source_length (clusters_of chosen) in
        let prefix = source_length - movable in
        OnOk-bind (or_short (destination_slice chosen movable)) _ λ destinations e1.
          let new_runs = coalesce_runs (replacement runs index source_lcn prefix destinations) in
          OnOk-bind (raise_as in_plan (encoded_length new_runs)) _ λ size e2.
            let (as_many, inside) =
              found chosen movable (destination_slice chosen movable) destinations refl e1 in
            OnOk-ok (record {
              lcn = source_lcn + prefix;
              n = movable;
              source = refl;
              at_end = omega (arith, at_end);
              nonempty = ground (arith, some_units);
              as_many = as_many;
              free = λ u h.
                  let (below, clear) = free u (in_runs-take count ranked u (inside u h)) in
                  (omega (arith, below), clear);
            })
      where
        found :
            (chosen : List Run) (movable : ℕ) (r : Option (List Run)) (destinations : List Run)
            → destination_slice chosen movable ≡ r
            → or_short r ≡ ok destinations
            → (clusters_of destinations ≡ movable)
              × ((u : ℕ) → in_runs destinations u ≡ true → in_runs chosen u ≡ true)
        found chosen movable none destinations e h = absurd (cc)
        found chosen movable (some selected) destinations e h =
            let same : selected ≡ destinations = cc in
            destination_slice-clusters chosen destinations movable (e ∙ ap some same)

    best_from-Lowers :
        (left count : ℕ) (best : Best)
        → LowersBest best
        → OnOk LowersBest
            (best_from runs index source_lcn source_length ranked capacity left count best)
    unfolding best_from
    best_from-Lowers zero count best h = OnOk-ok h
    best_from-Lowers (suc left) count best h =
        let movable = min source_length (clusters_of (take count ranked)) in
        OnOk-if (movable == 0) _ _ (λ empty. best_from-Lowers left (count + 1) best h)
          λ some_units.
            OnOk-bind (plan_for runs index source_lcn source_length ranked capacity count) _
              λ (move, size) e.
                let lowers = (plan_for-Lowers count some_units).get (move, size) e in
                let kept = better best move size h lowers in
                OnOk-if (movable == source_length && leb size capacity) _ _ (λ whole. OnOk-ok kept)
                  λ part. best_from-Lowers left (count + 1) _ kept
      where
        better :
            (best : Best) (move : ExtentMove) (size : ℕ)
            → LowersBest best
            → Lowers bitmap high_water move
            → LowersBest (
                if ltb capacity size || (if improves move size best then false else true)
                then best
                else some (move, size))
        better best move size h lowers =
            elim (Bool-cases
              (ltb capacity size || (if improves move size best then false else true))) [
                | inl e ↦ rw e h
                | inr e ↦ rw e lowers
              ]

  plan_source-Lowers :
      (candidate : Candidate) (index source_lcn source_length : ℕ)
      → source_lcn + source_length ≡ high_water
      → OnOk LowersIf (plan_source bitmap candidate index source_lcn source_length)
  unfolding plan_source
  plan_source-Lowers candidate index source_lcn source_length at_end =
      let free_runs = free_runs_before bitmap (pos source_lcn) in
      let ranked = sort_runs after_rank free_runs in
      OnOk-if (length free_runs == 0) _ _ (λ no_gap. OnOk-ok tt)
        λ gaps. OnOk-bind (raise_as in_plan (maximum_mapping_capacity candidate)) _ λ capacity e1.
          OnOk-bind
            (best_from candidate.attribute.runs index source_lcn source_length ranked capacity
              (min (length ranked) 128) 1 none)
            _
            λ best e2. OnOk-ok (
              shown best (
                (best_from-Lowers candidate.attribute.runs index source_lcn source_length ranked
                    capacity at_end free (min (length ranked) 128) 1 none tt).get
                  best e2))
    where
      free :
          (u : ℕ)
          → in_runs (sort_runs after_rank (free_runs_before bitmap (pos source_lcn))) u ≡ true
          → (u < source_lcn) × (bit bitmap u ≡ false)
      free u h =
          let found =
            sym (in_runs-sort_runs after_rank u (free_runs_before bitmap (pos source_lcn))) ∙ h in
          let exact = (free_runs_before-free bitmap (pos source_lcn)).1 u in
          let limit = limit_of-le_before bitmap source_lcn in
          (ground (arith, found, exact, limit), ground (arith, found, exact))

      shown :
          (best : Best)
          → LowersBest best
          → LowersIf (elim best [ none ↦ refused no_safe_mapping | some held ↦ planned held.0 ])
      shown none h = tt
      shown (some held) h = h

  high_water_run_index-end :
      (runs : List Run) (index : ℕ)
      → high_water_run_index runs high_water ≡ some index
      → Ends high_water runs index
  unfolding high_water_run_index
  high_water_run_index-end runs index e = at_first (matches high_water 0 runs) refl e
    where
      at_first :
          (found : List ℕ)
          → matches high_water 0 runs ≡ found
          → single found ≡ some index
          → Ends high_water runs index
      at_first [] f s = absurd (cc)
      at_first (only ∷ []) f s =
          let (j, i, ends) = matches-end high_water 0 runs only [] f in
          let here : index ≡ j = (let same : only ≡ index = cc in omega (arith, i, same)) in
          rw here ends
      at_first (first ∷ second ∷ rest) f s = absurd (cc)

  -- In a move that _plan_extent_move plans (LowersIf), the source is one run, not empty, that ends
  -- at the high-water mark; the destination has as many clusters, and all of them are free and below
  -- the source.
  pub plan_extent_move-Lowers :
      (candidate : Candidate) → OnOk LowersIf (plan_extent_move bitmap candidate high_water)
  unfolding plan_extent_move
  plan_extent_move-Lowers candidate =
      of_index (high_water_run_index candidate.attribute.runs high_water) refl
    where
      of_lcn :
          (index : ℕ) (source : Run) (r : Option ℕ)
          → high_water_run_index candidate.attribute.runs high_water ≡ some index
          → get_elem? candidate.attribute.runs index ≡ some source
          → source.lcn ≡ r
          → OnOk LowersIf (elim r [
            | none ↦ ok (refused sparse_extent)
            | some lcn ↦ plan_source bitmap candidate index lcn source.length
          ])
      of_lcn index source none e1 e2 e3 = OnOk-ok tt
      of_lcn index source (some lcn) e1 e2 e3 =
          plan_source-Lowers candidate index lcn source.length
            (high_water_run_index-end candidate.attribute.runs index e1 source lcn e2 e3)

      of_source :
          (index : ℕ) (r : Option Run)
          → high_water_run_index candidate.attribute.runs high_water ≡ some index
          → get_elem? candidate.attribute.runs index ≡ r
          → OnOk LowersIf (elim r [
            | none ↦ ok (refused not_unique)
            | some source ↦ elim source.lcn [
              | none ↦ ok (refused sparse_extent)
              | some lcn ↦ plan_source bitmap candidate index lcn source.length
            ]
          ])
      of_source index none e1 e2 = OnOk-ok tt
      of_source index (some source) e1 e2 = of_lcn index source source.lcn e1 e2 refl

      of_index :
          (r : Option ℕ)
          → high_water_run_index candidate.attribute.runs high_water ≡ r
          → OnOk LowersIf (elim r [
            | none ↦ ok (refused not_unique)
            | some index ↦ elim (get_elem? candidate.attribute.runs index) [
              | none ↦ ok (refused not_unique)
              | some source ↦ elim source.lcn [
                | none ↦ ok (refused sparse_extent)
                | some lcn ↦ plan_source bitmap candidate index lcn source.length
              ]
            ]
          ])
      of_index none e1 = OnOk-ok tt
      of_index (some index) e1 = of_source index (get_elem? candidate.attribute.runs index) e1 refl
