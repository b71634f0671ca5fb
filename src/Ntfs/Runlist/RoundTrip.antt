-- ===== src/Ntfs/Runlist/RoundTrip.antt =====
-- `_decode_runlist` on what `_encode_runlist` wrote.
use Prim.Native.Nat.{bit_or}
use mathlib.Core.List.{append_assoc}
use linux_defragger.Prelude.{
  ℕ, zero, suc, ◌+◌, ◌*◌, ◌<◌, ◌≤◌, ◌≡◌, refl, ◌∙◌, true, false, ◌||◌, Option, some, none, List, [],
  ◌∷◌, ◌++◌, ltb, ◌==◌, length, length-append, take-length_append, drop-length_append, arith, ok,
  ◌>>=◌,
}
use linux_defragger.Prelude.Int.{pos, ◌-ℤ◌, leb_ℤ}
use linux_defragger.Bytes.{modulus, from_signed, AreBytes}
use linux_defragger.Bytes.Laws.{fits}
use linux_defragger.Bytes.Tables.{header_fields}
use linux_defragger.Ntfs.Runlist.{
  Run, encode_lcn, encode_from, encode_runlist, apply_delta, decode_lcn, decode_from,
  decode_runlist, unsigned_min_bytes,
}
use linux_defragger.Ntfs.Runlist.Fields.{signed_min_bytes-Encodes, unsigned_min_bytes_lem}

-- A cluster number below 2 ^ 63.
abbrev pub IsLcn : Option ℕ → Type 0
IsLcn none = Unit
IsLcn (some lcn) = 2 * lcn < modulus 8

-- Runs as a 64-bit volume has them: lengths from 1 to 2 ^ 63 - 1, cluster numbers below 2 ^ 63.
abbrev pub AreRuns : List Run → Type 0
AreRuns [] = Unit
AreRuns (run ∷ runs) =
    (0 < run.length) × (2 * run.length < modulus 8) × IsLcn run.lcn × AreRuns runs

fits-delta : (l p : ℕ) → 2 * l < modulus 8 → 2 * p < modulus 8 → fits 8 (pos l -ℤ pos p) ≡ true
unfolding ◌-ℤ◌
fits-delta l p h k = ground arith

apply_delta-sub : (l p : ℕ) → apply_delta p (pos l -ℤ pos p) ≡ ok l
unfolding apply_delta ◌-ℤ◌
apply_delta-sub l p = ground arith

decode_lcn-delta :
    (l p : ℕ) (field : List ℕ)
    → 0 < length field
    → from_signed field ≡ pos l -ℤ pos p
    → decode_lcn (length field) p field ≡ ok (some l, l)
unfolding decode_lcn
decode_lcn-delta l p [] h e = elim h [ ]
decode_lcn-delta l p (b ∷ bs) h e = rw (e, apply_delta-sub l p)

-- One mapping pair: its fields are read back, and decoding goes on behind it.
decode_from_step :
    (fuel p next n : ℕ) (lcn : Option ℕ) (lb ob after : List ℕ)
    → 0 < length lb
    → length lb ≤ 8
    → length ob ≤ 8
    → 0 < n
    → from_signed lb ≡ pos n
    → decode_lcn (length ob) p ob ≡ ok (lcn, next)
    → decode_from (suc fuel) p (bit_or (length ob * 16) (length lb) ∷ (lb ++ (ob ++ after)))
      ≡ (decode_from fuel next after >>= λ runs. ok (record { lcn = lcn; length = n } ∷ runs))
unfolding decode_from
decode_from_step fuel p next n lcn lb ob after l1 l8 o8 n1 value field =
    let (low, high, byte, some_bits) =
      header_fields (length ob) (length lb) (omega arith) (omega arith) in
    let nonzero : (bit_or (length ob * 16) (length lb) == 0) ≡ false = ground arith in
    let room : (length lb == 0
          || ltb 8 (length lb)
          || ltb 8 (length ob)
          || ltb (length (lb ++ (ob ++ after))) (length lb + length ob))
        ≡ false =
      ground (arith, length-append lb (ob ++ after), length-append ob after) in
    let positive : leb_ℤ (pos n) (pos 0) ≡ false = ground arith in
    rw
      (
        nonzero,
        low,
        high,
        room,
        take-length_append lb,
        drop-length_append lb,
        take-length_append ob,
        drop-length_append ob,
        value,
        positive,
        field,
      )
      refl

-- The field of a run's cluster number, as `encode_from` computes it.
record Offset (p : ℕ) (lcn : Option ℕ) : Type 0 where
  field : List ℕ
  next : ℕ
  encoded : encode_lcn p lcn ≡ ok (field, next)
  bytes : AreBytes field
  short : length field ≤ 8
  bounded : 2 * next < modulus 8
  decoded : decode_lcn (length field) p field ≡ ok (lcn, next)

encoded-Offset : (p : ℕ) (lcn : Option ℕ) → 2 * p < modulus 8 → IsLcn lcn → Offset p lcn
unfolding decode_lcn encode_lcn
encoded-Offset p none h k = record {
  field = [];
  next = p;
  encoded = refl;
  bytes = tt;
  short = omega arith;
  bounded = h;
  decoded = refl;
}
encoded-Offset p (some l) h k =
    let (bs, found, enc) = signed_min_bytes-Encodes (pos l -ℤ pos p) (fits-delta l p k h) in
    record {
      field = bs;
      next = l;
      encoded = rw found refl;
      bytes = enc.bytes;
      short = enc.upper;
      bounded = k;
      decoded = decode_lcn-delta l p bs enc.lower enc.value;
    }

append-AreBytes : (xs ys : List ℕ) → AreBytes xs → AreBytes ys → AreBytes (xs ++ ys)
append-AreBytes [] ys h k = k
append-AreBytes (x ∷ xs) ys h k = (h.0, append-AreBytes xs ys h.1 k)

-- What the encoding of `runs` behind the cluster number `p` has to satisfy.
record Written (p : ℕ) (runs : List Run) : Type 0 where
  out : List ℕ
  returns : encode_from p runs ≡ ok out
  bytes : AreBytes out
  back : (fuel : ℕ) (rest : List ℕ) → length out ≤ fuel → decode_from fuel p (out ++ rest) ≡ ok runs

Written-cons :
    (p : ℕ) (run : Run) (runs : List Run) (lb : List ℕ)
    → 0 < run.length
    → unsigned_min_bytes run.length ≡ ok lb
    → from_signed lb ≡ pos run.length
    → AreBytes lb
    → 0 < length lb
    → length lb ≤ 8
    → (o : Offset p run.lcn) → Written o.next runs
    → Written p (run ∷ runs)
unfolding encode_from
Written-cons p run runs lb n1 wrote value lbytes l1 l8 o w =
    let tail = lb ++ (o.field ++ w.out) in
    record {
      out = bit_or (length o.field * 16) (length lb) ∷ tail;
      returns = rw (wrote, o.encoded, w.returns);
      bytes = (
        (header_fields (length o.field) (length lb) (omega (arith, o.short)) (omega arith)).2,
        append-AreBytes lb (o.field ++ w.out) lbytes
            (append-AreBytes o.field w.out o.bytes w.bytes),
      );
      back = elim [
        | zero ↦ λ rest l. absurd (omega arith)
        | suc fuel ↦ λ rest l.
            rw (append_assoc, append_assoc)
              (decode_from_step fuel p o.next run.length run.lcn lb o.field (w.out ++ rest) l1 l8
                  o.short n1 value o.decoded
                ∙ rw
                    (w.back fuel rest (
                      omega
                        (arith, length-append lb (o.field ++ w.out), length-append o.field w.out)))
                    refl)
      ];
    }

encode_from-Written : (p : ℕ) (runs : List Run) → 2 * p < modulus 8 → AreRuns runs → Written p runs
unfolding encode_from decode_from
encode_from-Written p [] h k = record {
  out = 0 ∷ [];
  returns = refl;
  bytes = (omega arith, tt);
  back = elim [ zero ↦ λ rest l. absurd (omega arith) | suc fuel ↦ λ rest l. refl ];
}
encode_from-Written p (run ∷ runs) h k =
    let (lb, wrote, value, lbytes, l1, l8) = unsigned_min_bytes_lem run.length k.0 k.1 in
    let o = encoded-Offset p run.lcn h k.2 in
    Written-cons p run runs lb k.0 wrote value lbytes l1 l8 o
      (encode_from-Written o.next runs o.bounded k.3)

-- For runs with lengths from 1 to 2 ^ 63 - 1 and cluster numbers below 2 ^ 63, sparse or not,
-- _encode_runlist returns bytes, and _decode_runlist gives the runs back from these bytes, whatever
-- follows them.
pub decode_runlist-encode_runlist :
    (runs : List Run)
    → AreRuns runs
    → (bytes : List ℕ) × (encode_runlist runs ≡ ok bytes)
      × AreBytes bytes
      × ((rest : List ℕ) → decode_runlist (bytes ++ rest) ≡ ok runs)
unfolding encode_runlist decode_runlist modulus
decode_runlist-encode_runlist runs k =
    let w = encode_from-Written 0 runs (omega arith) k in
    (
      w.out,
      w.returns,
      w.bytes,
      λ rest. w.back (length (w.out ++ rest)) rest (omega (arith, length-append w.out rest)),
    )
