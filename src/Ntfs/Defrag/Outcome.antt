-- ===== src/Ntfs/Defrag/Outcome.antt =====
-- Outcomes of `defragment`.
use linux_defragger.Prelude.{
  ◌≡◌, ◌≢◌, refl, Bool, true, false, if◌then◌else◌, Result, ok, err, ◌>>=◌, raise_as, raise_as-ok,
  arith, OnOk,
}
use linux_defragger.Ntfs.Compact.{CompactError}
use linux_defragger.Ntfs.Defrag.{DefragError, in_move, not_contiguous}

-- A pass never finds that a stream it has moved is in pieces, and what it returns has the property.
pub record Fine {κ} {A : Type 0} (P : A → Type κ) (r : Result DefragError A) : Type κ where
  pub get : (a : A) → r ≡ ok a → P a
  pub settled : r ≢ err not_contiguous

module _ {κ} {A : Type 0} {P : A → Type κ} where
  pub Fine-ok : {a : A} → P a → Fine P (let r : Result DefragError A = ok a in r)
  Fine-ok {a} p = record {
    get = λ b e. (let same : a ≡ b = cc in rw (← same) p);
    settled = λ e. (cc);
  }

  pub Fine-in_move : {r : Result CompactError A} → OnOk P r → Fine P (raise_as in_move r)
  Fine-in_move {r} h = record {
    get = λ a e. h.get a (raise_as-ok in_move r a e);
    settled = raised r;
  }
    where
      raised : (r : Result CompactError A) → raise_as in_move r ≢ err not_contiguous
      raised (ok a) e = cc
      raised (err x) e = ground (arith, e)

  pub Fine-bind :
      {B : Type 0} {Q : B → Type 0} (m : Result DefragError B) (f : B → Result DefragError A)
      → Fine Q m
      → ((b : B) → Q b → Fine P (f b))
      → Fine P (m >>= f)
  Fine-bind {B} (err e) f h k = record { get = λ a q. absurd (cc); settled = stays e h.settled }
    where
      stays :
          (e : DefragError)
          → (let r : Result DefragError B = err e in r) ≢ err not_contiguous
          → (let r : Result DefragError A = err e in r) ≢ err not_contiguous
      stays (in_move x) n q = ground (arith, q)
      stays not_contiguous n q = n refl
  Fine-bind (ok b) f h k = k b (h.get b refl)

  pub Fine-if :
      (b : Bool) (x y : Result DefragError A)
      → Fine P x
      → (b ≡ false → Fine P y)
      → Fine P (if b then x else y)
  Fine-if true x y h k = h
  Fine-if false x y h k = k refl
