-- ===== src/Ntfs/Move/Addresses.antt =====
-- Byte addresses of extents in stream order, and what it means that one list of them was copied to
-- another.
use linux_defragger.Prelude.{
  ℕ, zero, suc, ◌+◌, ◌-◌, ◌<◌, ◌≤◌, ◌≡◌, ◌≢◌, refl, ap, ◌∙◌, ◌⊎◌, inl, inr, true, false, ◌&&◌, List,
  [], ◌∷◌, ◌++◌, map, ltb, leb, ◌==◌, length, get_or, arith, Bool-cases,
}
use mathlib.Core.List.{append_assoc}
use linux_defragger.Ntfs.Disk.{read_bytes, write_bytes}
use linux_defragger.Ntfs.Move.{Extent, advance}

-- `n` addresses from `a` on.
abbrev pub upto : ℕ → ℕ → List ℕ
upto a zero = []
upto a (suc n) = a ∷ upto (a + 1) n

-- What is left of a list of extents from an offset in the first.
abbrev pub addresses : List Extent → ℕ → List ℕ
addresses [] offset = []
addresses ((start, size) ∷ rest) offset = upto (start + offset) (size - offset) ++ addresses rest 0

abbrev pub AllPos : List Extent → Type 0
AllPos [] = Unit
AllPos ((start, size) ∷ rest) = (0 < size) × AllPos rest

abbrev pub IsPlace : List Extent → ℕ → Type 0
IsPlace [] offset = Unit
IsPlace ((start, size) ∷ rest) offset = (offset < size) × AllPos rest

abbrev pub NotIn : ℕ → List ℕ → Type 0
NotIn a [] = Unit
NotIn a (x ∷ xs) = (a ≢ x) × NotIn a xs

-- No address of the first list is in the second.
abbrev pub Apart : List ℕ → List ℕ → Type 0
Apart [] ys = Unit
Apart (x ∷ xs) ys = NotIn x ys × Apart xs ys

abbrev pub Distinct : List ℕ → Type 0
Distinct [] = Unit
Distinct (x ∷ xs) = NotIn x xs × Distinct xs

NotIn-append : (a : ℕ) (xs ys : List ℕ) → NotIn a (xs ++ ys) → NotIn a xs × NotIn a ys
NotIn-append a [] ys h = (tt, h)
NotIn-append a (x ∷ xs) ys h = let (p, q) = NotIn-append a xs ys h.1 in ((h.0, p), q)

Apart-append_right : (xs ys zs : List ℕ) → Apart xs (ys ++ zs) → Apart xs ys × Apart xs zs
Apart-append_right [] ys zs h = (tt, tt)
Apart-append_right (x ∷ xs) ys zs h =
    let (p, q) = NotIn-append x ys zs h.0 in
    let (r, s) = Apart-append_right xs ys zs h.1 in ((p, r), (q, s))

Apart-append_left : (xs ys zs : List ℕ) → Apart (xs ++ ys) zs → Apart xs zs × Apart ys zs
Apart-append_left [] ys zs h = (tt, h)
Apart-append_left (x ∷ xs) ys zs h = let (p, q) = Apart-append_left xs ys zs h.1 in ((h.0, p), q)

Distinct-append : (xs ys : List ℕ) → Distinct (xs ++ ys) → Apart xs ys × Distinct ys
Distinct-append [] ys h = (tt, h)
Distinct-append (x ∷ xs) ys h =
    let (p, q) = Distinct-append xs ys h.1 in (((NotIn-append x xs ys h.0).1, p), q)

-- `after` holds at `to` what `before` held at `from`, and differs from it nowhere else.
pub record CopiedTo (before after : ℕ → ℕ) (from to : List ℕ) : Type 0 where
  pub copy : map after to ≡ map before from
  pub kept : (a : ℕ) → NotIn a to → after a ≡ before a

pub map-Apart :
    (f g : ℕ → ℕ) (xs ys : List ℕ)
    → Apart xs ys
    → ((a : ℕ) → NotIn a ys → g a ≡ f a)
    → map g xs ≡ map f xs
map-Apart f g [] ys h k = refl
map-Apart f g (x ∷ xs) ys h k = rw (k x h.0, map-Apart f g xs ys h.1 k)

map-append : (f : ℕ → ℕ) (xs ys : List ℕ) → map f (xs ++ ys) ≡ map f xs ++ map f ys
map-append f [] ys = refl
map-append f (x ∷ xs) ys = rw (map-append f xs ys)

pub CopiedTo-append :
    (f g h : ℕ → ℕ) (a1 a2 b1 b2 : List ℕ)
    → Apart (a1 ++ a2) (b1 ++ b2)
    → Distinct (b1 ++ b2)
    → CopiedTo f g a1 b1
    → CopiedTo g h a2 b2
    → CopiedTo f h (a1 ++ a2) (b1 ++ b2)
CopiedTo-append f g h a1 a2 b1 b2 apart distinct one two =
    let right = (Apart-append_left a1 a2 (b1 ++ b2) apart).1 in
    record {
      copy = rw (
        map-append h b1 b2,
        map-append f a1 a2,
        map-Apart g h b1 b2 (Distinct-append b1 b2 distinct).0 two.kept,
        one.copy,
        two.copy,
        map-Apart f g a2 b1 (Apart-append_right a2 b1 b2 right).0 one.kept,
      );
      kept = λ a outside. let (p, q) = NotIn-append a b1 b2 outside in two.kept a q ∙ one.kept a p;
    }

-- The hypotheses of a copy, for what is left behind its first part.
pub rest-Apart : (a1 a2 b1 b2 : List ℕ) → Apart (a1 ++ a2) (b1 ++ b2) → Apart a2 b2
rest-Apart a1 a2 b1 b2 h = (Apart-append_right a2 b1 b2 (Apart-append_left a1 a2 (b1 ++ b2) h).1).1

pub rest-Distinct : (b1 b2 : List ℕ) → Distinct (b1 ++ b2) → Distinct b2
rest-Distinct b1 b2 h = (Distinct-append b1 b2 h).1

pub NotIn-left : (a : ℕ) (xs ys : List ℕ) → NotIn a (xs ++ ys) → NotIn a xs
NotIn-left a xs ys h = (NotIn-append a xs ys h).0

pub NotIn-right : (a : ℕ) (xs ys : List ℕ) → NotIn a (xs ++ ys) → NotIn a ys
NotIn-right a xs ys h = (NotIn-append a xs ys h).1

upto-append : (a m n : ℕ) → upto a (m + n) ≡ upto a m ++ upto (a + m) n
upto-append a zero n =
    let e : zero + n ≡ n = omega arith in let e' : a + zero ≡ a = omega arith in rw (e, e')
upto-append a (suc m) n =
    let e : suc m + n ≡ suc (m + n) = omega arith in
    let e' : a + suc m ≡ a + 1 + m = omega arith in rw (e, e', upto-append (a + 1) m n)

pub length-upto : (a n : ℕ) → length (upto a n) ≡ n
length-upto a zero = refl
length-upto a (suc n) = ap suc (length-upto (a + 1) n)

NotIn-upto : (a b n : ℕ) → NotIn a (upto b n) → (a < b) ⊎ (b + n ≤ a)
NotIn-upto a b zero h = omega arith
NotIn-upto a b (suc n) h = ground (arith, NotIn-upto a (b + 1) n h.1, h.0)

map-upto :
    (f g : ℕ → ℕ) (a b n : ℕ)
    → ((i : ℕ) → i < n → g (b + i) ≡ f (a + i))
    → map g (upto b n) ≡ map f (upto a n)
map-upto f g a b zero h = refl
map-upto f g a b (suc n) h =
    let first : g b ≡ f a =
      ap g (let e : b ≡ b + 0 = omega arith in e)
      ∙ h 0 (omega arith)
      ∙ ap f (let e : a + 0 ≡ a = omega arith in e) in
    rw (
      first,
      map-upto f g (a + 1) (b + 1) n (λ i p.
          ap g (let e : b + 1 + i ≡ b + suc i = omega arith in e)
          ∙ h (suc i) (omega arith)
          ∙ ap f (let e : a + suc i ≡ a + 1 + i = omega arith in e)),
    )

length-read_bytes : (f : ℕ → ℕ) (a n : ℕ) → length (read_bytes f a n) ≡ n
length-read_bytes f a zero = refl
length-read_bytes f a (suc n) = ap suc (length-read_bytes f (a + 1) n)

get_or-read_bytes : (f : ℕ → ℕ) (a n i : ℕ) → i < n → get_or (read_bytes f a n) i 0 ≡ f (a + i)
get_or-read_bytes f a zero i h = elim h [ ]
get_or-read_bytes f a (suc n) zero h = ap f (let e : a ≡ a + 0 = omega arith in e)
get_or-read_bytes f a (suc n) (suc i) h =
    get_or-read_bytes f (a + 1) n i (omega arith)
    ∙ ap f (let e : a + 1 + i ≡ a + suc i = omega arith in e)

-- One read and one write.
pub write_bytes-CopiedTo :
    (f : ℕ → ℕ) (from to n : ℕ)
    → CopiedTo f (write_bytes f to (read_bytes f from n)) (upto from n) (upto to n)
write_bytes-CopiedTo f from to n = record {
  copy = map-upto f _ from to n (λ i p.
      let inside : (leb to (to + i) && ltb (to + i) (to + n)) ≡ true = ground arith in
      let back : to + i - to ≡ i = omega arith in
      rw (length-read_bytes f from n, inside, back) (get_or-read_bytes f from n i p));
  kept = λ a h.
      let outside : (leb to a && ltb a (to + n)) ≡ false = ground (arith, NotIn-upto a to n h) in
      rw (length-read_bytes f from n, outside);
}

-- The part that a round copies stands first in what is left.
pub addresses-advance :
    (taken offset start size : ℕ) (rest : List Extent)
    → offset + taken ≤ size
    → addresses ((start, size) ∷ rest) offset
      ≡ upto (start + offset) taken
        ++ addresses
            (advance taken offset ((start, size) ∷ rest)).0
            (advance taken offset ((start, size) ∷ rest)).1
unfolding advance
addresses-advance taken offset start size rest h = elim (Bool-cases (offset + taken == size)) [
  | inl done ↦ let e : size - offset ≡ taken = ground arith in rw (done, e)
  | inr more ↦
      let e : size - offset ≡ taken + (size - (offset + taken)) = omega arith in
      let e' : start + offset + taken ≡ start + (offset + taken) = omega arith in
      rw (more, e, upto-append (start + offset) taken (size - (offset + taken)), e')
        (append_assoc (upto (start + offset) taken) _ _)
]
