-- ===== src/Run/Laws.antt =====
-- Calls that return no error: each of their parts returned none.
use lock_free_p2p_go.Prelude.{◌≡◌, refl, Bool, true, false}
use lock_free_p2p_go.Run.{Run, ok, err, panic, Error, ◌>>=◌, ◌>>◌, fail_if}

module _ {ℓ} {B : Type ℓ} where
  pub bind-ok {κ} :
      {A : Type κ} (m : Run A) (f : A → Run B) (b : B)
      → (m >>= f) ≡ ok b
      → (a : A) × (m ≡ ok a) × (f a ≡ ok b)
  bind-ok (ok a) f b e = (a, refl, e)
  bind-ok (err x) f b e = absurd (cc e)
  bind-ok panic f b e = absurd (cc e)

  pub fail_if-ok :
      (failed : Bool) (x : Error) (k : Run B) (b : B)
      → (fail_if failed x >> k) ≡ ok b
      → (failed ≡ false) × (k ≡ ok b)
  fail_if-ok true x k b e = absurd (cc e)
  fail_if-ok false x k b e = (refl, e)

-- A value of a result that is no error is the only one.
pub ok-injective {ℓ} : {A : Type ℓ} {a b : A} → ok a ≡ ok b → a ≡ b
ok-injective e = cc e
