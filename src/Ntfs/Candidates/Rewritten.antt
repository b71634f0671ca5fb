-- ===== src/Ntfs/Candidates/Rewritten.antt =====
-- The record that `_updated_record_runs` makes: it has the mapping pairs of the new runs, and keeps the
-- rest.
use mathlib.Core.Path.{subst}
use linux_defragger.Prelude.{
  ℕ, ◌+◌, ◌-◌, ◌<◌, ◌≤◌, ◌≡◌, refl, ap, sym, ◌∙◌, inl, inr, true, false, ◌||◌, List, ◌++◌, ltb,
  ◌==◌, if◌then◌else◌, length, min, get_or, replicate, arith, Bool-cases, ok, raise_as, raise_as-ok,
  OnOk, OnOk-ok, OnOk-bind, OnOk-guard,
}
use linux_defragger.Bytes.{to_bytes}
use linux_defragger.Ntfs.Disk.{slice}
use linux_defragger.Ntfs.Runlist.{Run, encode_runlist, decode_runlist}
use linux_defragger.Ntfs.Runlist.RoundTrip.{AreRuns, decode_runlist-encode_runlist}
use linux_defragger.Ntfs.Move.{clusters_of}
use linux_defragger.Ntfs.Runs.{coalesce_runs}
use linux_defragger.Ntfs.Attributes.{u32}
use linux_defragger.Ntfs.Compact.{
  Candidate, encoding, in_layout, length_changed, no_room, bad_accounting, record_space,
}
use linux_defragger.Ntfs.Candidates.{growth_of, make_space, put_pairs, record_with_runs}
use linux_defragger.Ntfs.Candidates.Updated.{in_lengths, Spaced, make_space-Spaced}
use linux_defragger.Ntfs.Candidates.Pairs.{
  growth_of-enough, length-put_pairs, get_or-put_pairs, put_pairs-mapping,
}

-- The record before its fixups: the attribute has `growth` more bytes, and its mapping pairs are those
-- of the runs.
pub record Rewritten (c : Candidate) (runs : List Run) (out : List ℕ) : Type 0 where
  pub in_use : ℕ
  pub growth : ℕ
  pub counted : u32 c.record_fixed 24 ≡ ok in_use
  pub room : in_use + growth ≤ length out
  pub size : length out ≡ length c.record_fixed
  pub mapping :
      decode_runlist (
        slice out
          (c.attribute.offset + c.attribute.run_offset)
          (c.attribute.offset + c.attribute.length + growth))
      ≡ ok runs
  pub before :
      (u : ℕ)
      → u < c.attribute.offset + c.attribute.run_offset
      → in_lengths c.attribute.offset u ≡ false
      → get_or out u 0 ≡ get_or c.record_fixed u 0
  pub behind :
      (u : ℕ)
      → c.attribute.offset + c.attribute.length ≤ u
      → u < in_use
      → get_or out (u + growth) 0 ≡ get_or c.record_fixed u 0
  pub lengths :
      (j : ℕ)
      → 0 < growth
      → j < 4
      → (get_or out (24 + j) 0 ≡ get_or (to_bytes 4 (in_use + growth)) j 0)
        × (get_or out (c.attribute.offset + 4 + j) 0
            ≡ get_or (to_bytes 4 (c.attribute.length + growth)) j 0)

-- What the tests of `_record_space` leave.
record Space (c : Candidate) (in_use allocated : ℕ) : Type 0 where
  pub counted : u32 c.record_fixed 24 ≡ ok in_use
  pub within : allocated ≤ length c.record_fixed
  pub inside : c.attribute.offset + c.attribute.length ≤ in_use

record_space-Space : (c : Candidate) → OnOk (λ r. Space c r.0 r.1) (record_space c)
unfolding record_space
record_space-Space c = OnOk-bind (raise_as in_layout (u32 c.record_fixed 24)) _ λ in_use e1.
    OnOk-bind (raise_as in_layout (u32 c.record_fixed 28)) _ λ recorded e2.
      OnOk-guard
        (ltb (min (length c.record_fixed) recorded) in_use
          || ltb in_use (c.attribute.offset + c.attribute.length))
        bad_accounting _
        λ fits. OnOk-ok (record {
          counted = raise_as-ok in_layout (u32 c.record_fixed 24) in_use e1;
          within = omega arith;
          inside = ground (arith, fits);
        })

module _ (c : Candidate) (new_runs : List Run) (header : 28 ≤ c.attribute.offset)
    (own : 8 ≤ c.attribute.run_offset) (at_end : c.attribute.run_offset ≤ c.attribute.length)
    (encodable : AreRuns (coalesce_runs new_runs)) where
  -- With any amount of new space.
  put_pairs-Rewritten :
      (in_use growth : ℕ) (encoded base : List ℕ)
      → encode_runlist (coalesce_runs new_runs) ≡ ok encoded
      → u32 c.record_fixed 24 ≡ ok in_use
      → c.attribute.offset + c.attribute.length ≤ in_use
      → in_use + growth ≤ length c.record_fixed
      → c.attribute.run_offset + length encoded ≤ c.attribute.length + growth
      → Spaced c.record_fixed c.attribute in_use growth base
      → Rewritten c (coalesce_runs new_runs) (put_pairs base c.attribute growth encoded)
  put_pairs-Rewritten in_use growth encoded base e counted inside room fits spaced =
      let old = c.record_fixed in
      let attr = c.attribute in
      let size =
        length-put_pairs old attr in_use growth encoded base spaced fits inside room header own
          at_end in
      let kept =
        get_or-put_pairs old attr in_use growth encoded base spaced fits inside room header own
          at_end in
      let (bytes, written, bs, back) =
        decode_runlist-encode_runlist (coalesce_runs new_runs) encodable in
      let same : bytes ≡ encoded = (let both = sym written ∙ e in cc) in
      record {
        in_use = in_use;
        growth = growth;
        counted = counted;
        room = rw size room;
        size = size;
        mapping =
            ap decode_runlist (
              put_pairs-mapping old attr in_use growth encoded base spaced fits inside room header
                own at_end)
            ∙ subst
                (λ out.
                  decode_runlist
                    (out ++ replicate (attr.length + growth - attr.run_offset - length encoded) 0)
                  ≡ ok (coalesce_runs new_runs))
                same (back (replicate (attr.length + growth - attr.run_offset - length encoded) 0));
        before = λ u p q. kept u (inl p) ∙ spaced.before u (omega (arith, p, at_end)) q;
        behind = λ u p q. kept (u + growth) (inr (omega (arith, p))) ∙ spaced.behind u p q;
        lengths = λ j p q. (
          kept (24 + j) (inl (omega (arith, q, header))) ∙ (spaced.lengths j p q).0,
          kept (attr.offset + 4 + j) (inl (omega (arith, q, own))) ∙ (spaced.lengths j p q).1,
        );
      }

  grown-Spaced :
      (in_use growth : ℕ)
      → c.attribute.offset + c.attribute.length ≤ in_use
      → in_use + growth ≤ length c.record_fixed
      → Spaced c.record_fixed c.attribute in_use growth (
          if growth == 0
          then c.record_fixed
          else make_space c.record_fixed c.attribute in_use growth)
  grown-Spaced in_use growth inside room = elim (Bool-cases (growth == 0)) [
    | inl e ↦
        let none_left : growth ≡ 0 = ground (arith, e) in
        rw e (record {
          size = refl;
          before = λ u p q. refl;
          behind = λ u p q. let same : u + growth ≡ u = omega (arith, none_left) in rw same refl;
          lengths = λ j p q. absurd (omega (arith, p, none_left));
        })
    | inr e ↦ rw e (
        make_space-Spaced c.record_fixed c.attribute in_use growth header
          (omega (arith, own, at_end)) inside room)
  ]

  -- For an attribute behind the header of the record, with its mapping pairs behind its own header
  -- and not past its end, and new runs whose merged lengths are from 1 to 2 ^ 63 - 1 and cluster
  -- numbers below 2 ^ 63: where _updated_record_runs comes to its fixups, the record has the size of
  -- the old one; the bytes from the offset of the mapping pairs up to the new end of the attribute
  -- decode to the merged runs; the bytes in front of them, but for the two lengths, are kept, and so
  -- are those behind the attribute, which have moved up by what it has grown; and if it has grown,
  -- the two lengths say so.
  pub record_with_runs-Rewritten :
      OnOk (Rewritten c (coalesce_runs new_runs)) (record_with_runs c new_runs)
  unfolding record_with_runs
  record_with_runs-Rewritten =
      let runs = coalesce_runs new_runs in
      let attr = c.attribute in
      OnOk-guard
        (if clusters_of runs + attr.lowest_vcn == attr.highest_vcn + 1 then false else true)
        length_changed _
        λ whole. OnOk-bind (raise_as encoding (encode_runlist runs)) _ λ encoded e1.
          OnOk-bind (record_space c) _ λ space e2.
            let (in_use, allocated) = space in
            let growth = growth_of attr encoded in
            let left = (record_space-Space c).get space e2 in
            OnOk-guard (ltb allocated (in_use + growth)) no_room _ λ fits.
              let room : in_use + growth ≤ length c.record_fixed =
                ground (arith, fits, left.within) in
              OnOk-ok (
                put_pairs-Rewritten in_use growth encoded _
                  (raise_as-ok encoding (encode_runlist runs) encoded e1) left.counted left.inside
                  room (growth_of-enough attr encoded)
                  (grown-Spaced in_use growth left.inside room))
