-- ===== src/Ntfs/Defrag/Keys.antt =====
-- The streams of a pass: their keys and their order.
use linux_defragger.Prelude.{
  ◌≡◌, refl, sym, ◌⊎◌, inl, inr, true, false, List, [], ◌∷◌, ◌++◌, arith, Bool-cases,
}
use linux_defragger.Ntfs.Compact.{StreamInfo}
use linux_defragger.Ntfs.Compact.Loop.{same_key, put_stream}
use linux_defragger.Ntfs.Compact.Select.{Has}
use linux_defragger.Ntfs.Compact.Owned.{NoKey, UniqueKeys, NoKey-Has}
use linux_defragger.Ntfs.Defrag.{
  Key, key_of, same_keys, below, insert_stream, sort_streams, discard, any_key, add_key, streams_at,
}

-- Every stream of the list.
abbrev pub Each {κ} : (StreamInfo → Type κ) → List StreamInfo → Type κ
Each P [] = Unit
Each P (info ∷ infos) = P info × Each P infos

pub Each-map {κ κ'} :
    (P : StreamInfo → Type κ) (Q : StreamInfo → Type κ') (infos : List StreamInfo)
    → ((info : StreamInfo) → Has info infos → P info → Q info)
    → Each P infos
    → Each Q infos
Each-map P Q [] h e = tt
Each-map P Q (info ∷ infos) h (p, e) =
    (h info (inl refl) p, Each-map P Q infos (λ other m. h other (inr m)) e)

-- A stream that is still in the plan after another is put there has another key.
pub Has-put_stream :
    (x updated : StreamInfo) (infos : List StreamInfo)
    → UniqueKeys infos
    → Has x (put_stream updated infos)
    → (x ≡ updated) ⊎ (Has x infos × (same_key updated x ≡ false))
unfolding put_stream
Has-put_stream x updated [] unique (inl e) = inl e
Has-put_stream x updated [] unique (inr h) = elim h [ ]
Has-put_stream x updated (info ∷ infos) (no_key, unique) h =
    elim (Bool-cases (same_key updated info)) [
      | inl here ↦ replaced here (rw here at h)
      | inr there ↦ kept there (Has-put_stream x updated infos unique) (rw there at h)
    ]
  where
    replaced :
        same_key updated info ≡ true
        → Has x (updated ∷ infos)
        → (x ≡ updated) ⊎ (Has x (info ∷ infos) × (same_key updated x ≡ false))
    replaced here (inl e) = inl e
    replaced here (inr m) =
        let other = NoKey-Has info x infos no_key m in inr (inr m, ground (arith, here, other))

    kept :
        same_key updated info ≡ false
        → (Has x (put_stream updated infos)
            → (x ≡ updated) ⊎ (Has x infos × (same_key updated x ≡ false)))
        → Has x (info ∷ put_stream updated infos)
        → (x ≡ updated) ⊎ (Has x (info ∷ infos) × (same_key updated x ≡ false))
    kept there later (inl e) = inr (inl e, rw e there)
    kept there later (inr m) = elim (later m) [ inl e ↦ inl e | inr (n, k) ↦ inr (inr n, k) ]

pub put_stream-Has :
    (x updated : StreamInfo) (infos : List StreamInfo)
    → same_key updated x ≡ false
    → Has x infos
    → Has x (put_stream updated infos)
unfolding put_stream
put_stream-Has x updated [] k h = elim h [ ]
put_stream-Has x updated (info ∷ infos) k (inl e) =
    let there : same_key updated info ≡ false = rw (sym e) k in rw there (inl e)
put_stream-Has x updated (info ∷ infos) k (inr h) = elim (Bool-cases (same_key updated info)) [
  | inl here ↦ rw here (inr h)
  | inr there ↦ rw there (inr (put_stream-Has x updated infos k h))
]

module _ {κ} (P : StreamInfo → Type κ) where
  insert_stream-Each :
      (info : StreamInfo) (infos : List StreamInfo)
      → P info
      → Each P infos
      → Each P (insert_stream info infos)
  unfolding insert_stream
  insert_stream-Each info [] p e = (p, tt)
  insert_stream-Each info (other ∷ others) p (q, e) = elim (Bool-cases (below info other)) [
    | inl b ↦ rw b (q, insert_stream-Each info others p e)
    | inr b ↦ rw b (p, (q, e))
  ]

  pub sort_streams-Each : (infos : List StreamInfo) → Each P infos → Each P (sort_streams infos)
  unfolding sort_streams
  sort_streams-Each [] e = tt
  sort_streams-Each (info ∷ infos) (p, e) =
      insert_stream-Each info (sort_streams infos) p (sort_streams-Each infos e)

-- `NoKey` and `Each` say the same.
NoKey-Each :
    (info : StreamInfo) (infos : List StreamInfo)
    → NoKey info infos
    → Each (λ other. same_key info other ≡ false) infos
NoKey-Each info [] h = tt
NoKey-Each info (other ∷ others) (k, h) = (k, NoKey-Each info others h)

Each-NoKey :
    (info : StreamInfo) (infos : List StreamInfo)
    → Each (λ other. same_key info other ≡ false) infos
    → NoKey info infos
Each-NoKey info [] h = tt
Each-NoKey info (other ∷ others) (k, h) = (k, Each-NoKey info others h)

insert_stream-UniqueKeys :
    (info : StreamInfo) (infos : List StreamInfo)
    → NoKey info infos
    → UniqueKeys infos
    → UniqueKeys (insert_stream info infos)
unfolding insert_stream
insert_stream-UniqueKeys info [] n u = (tt, tt)
insert_stream-UniqueKeys info (other ∷ others) (k, n) (m, u) =
    elim (Bool-cases (below info other)) [
      | inl b ↦
          let apart : same_key other info ≡ false = ground (arith, k) in
          rw b (
            Each-NoKey other (insert_stream info others) (
                insert_stream-Each (λ x. same_key other x ≡ false) info others apart
                  (NoKey-Each other others m)),
            insert_stream-UniqueKeys info others n u,
          )
      | inr b ↦ rw b ((k, n), (m, u))
    ]

pub sort_streams-UniqueKeys :
    (infos : List StreamInfo) → UniqueKeys infos → UniqueKeys (sort_streams infos)
unfolding sort_streams
sort_streams-UniqueKeys [] u = tt
sort_streams-UniqueKeys (info ∷ infos) (n, u) =
    insert_stream-UniqueKeys info (sort_streams infos)
      (Each-NoKey info (sort_streams infos)
        (sort_streams-Each (λ x. same_key info x ≡ false) infos (NoKey-Each info infos n)))
      (sort_streams-UniqueKeys infos u)

-- The streams of a set of keys are streams of the plan with such a key.
pub streams_at-Each {κ} :
    (P : StreamInfo → Type κ) (keys : List Key) (streams : List StreamInfo)
    → ((info : StreamInfo) → Has info streams → any_key (key_of info) keys ≡ true → P info)
    → Each P (streams_at keys streams)
unfolding streams_at
streams_at-Each P keys [] h = tt
streams_at-Each P keys (info ∷ infos) h =
    let later = streams_at-Each P keys infos (λ other m. h other (inr m)) in
    elim (Bool-cases (any_key (key_of info) keys)) [
      | inl e ↦ rw e (h info (inl refl) e, later)
      | inr e ↦ rw e later
    ]

pub streams_at-UniqueKeys :
    (keys : List Key) (streams : List StreamInfo)
    → UniqueKeys streams
    → UniqueKeys (streams_at keys streams)
unfolding streams_at
streams_at-UniqueKeys keys [] u = tt
streams_at-UniqueKeys keys (info ∷ infos) (n, u) = elim (Bool-cases (any_key (key_of info) keys)) [
  | inl e ↦ rw e (
    Each-NoKey info (streams_at keys infos) (
        streams_at-Each (λ x. same_key info x ≡ false) keys infos
          (λ x m e'. NoKey-Has info x infos n m)),
    streams_at-UniqueKeys keys infos u,
  )
  | inr e ↦ rw e (streams_at-UniqueKeys keys infos u)
]

pub any_key-discard :
    (key other : Key) (keys : List Key)
    → any_key key (discard other keys) ≡ true
    → any_key key keys ≡ true
unfolding discard
any_key-discard key other [] h = h
any_key-discard key other (first ∷ rest) h = elim (Bool-cases (same_keys other first)) [
  | inl e ↦ ground (arith, rw e at h)
  | inr e ↦ ground (arith, (rw e at h), any_key-discard key other rest)
]

any_key-append :
    (key other : Key) (keys : List Key)
    → any_key key (keys ++ other ∷ []) ≡ true
    → (any_key key keys ≡ true) ⊎ (same_keys key other ≡ true)
any_key-append key other [] h = inr (ground (arith, h))
any_key-append key other (first ∷ rest) h = elim (Bool-cases (same_keys key first)) [
  | inl e ↦ inl (rw e refl)
  | inr e ↦ rw e (any_key-append key other rest (rw e at h))
]

pub any_key-add_key :
    (key other : Key) (keys : List Key)
    → any_key key (add_key other keys) ≡ true
    → (any_key key keys ≡ true) ⊎ (same_keys key other ≡ true)
unfolding add_key
any_key-add_key key other keys h = elim (Bool-cases (any_key other keys)) [
  | inl e ↦ inl (rw e at h)
  | inr e ↦ any_key-append key other keys (rw e at h)
]
