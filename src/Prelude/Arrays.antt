-- ===== src/Prelude/Arrays.antt =====
-- Lists as slices: reads, writes and exchanges at native indices, and what an exchange leaves.
use Prim.Native.Nat.{ℕ, zero, suc, ◌<◌}
use mathlib.Core.Path.{◌≡◌, refl, sym, ap, ◌∙◌}
use mathlib.Core.Logic.{∥∥₁_elim, ∥∥₁_map}
use mathlib.Core.Option.{Option, none, some}
use mathlib.Core.List.{List, [], ◌∷◌, ◌++◌, Perm, Permᴰ, Mem, Memᴰ, not-mem-nil}
use native.Mathlib.Nat.{ℕ_set}
use mathlib.Core.List.Perm
use native.Mathlib.Omega.{arith}
use lock_free_p2p_go.Prelude.Tests.{◌==◌, if◌then◌else◌}
use lock_free_p2p_go.Prelude.Lists.{length}

module _ {ℓ} {A : Type ℓ} where
  abbrev pub get_elem? : List A → ℕ → Option A
  get_elem? [] k = none
  get_elem? (y ∷ ys) zero = some y
  get_elem? (y ∷ ys) (suc k) = get_elem? ys k

  -- A write out of bounds changes nothing.
  abbrev pub set : List A → ℕ → A → List A
  set [] k new = []
  set (old ∷ ys) zero new = new ∷ ys
  set (y ∷ ys) (suc k) new = y ∷ set ys k new

  unfoldable pub exchange : List A → ℕ → ℕ → Option A → Option A → List A
  exchange a i j (some x) (some y) = set (set a i y) j x
  exchange a i j x y = a

  -- `a[i], a[j] = a[j], a[i]`, for indices in range.
  unfoldable pub swap : List A → ℕ → ℕ → List A
  unfolding exchange
  swap a i j = exchange a i j (get_elem? a i) (get_elem? a j)

  pub length-set : (ys : List A) (k : ℕ) (new : A) → length (set ys k new) ≡ length ys
  length-set [] k new = refl
  length-set (old ∷ ys) zero new = refl
  length-set (y ∷ ys) (suc k) new = ap suc (length-set ys k new)

  pub get_elem?-some : (a : List A) (i : ℕ) → i < length a → (x : A) × (get_elem? a i ≡ some x)
  get_elem?-some [] i h = absurd (omega arith)
  get_elem?-some (x ∷ a) zero h = (x, refl)
  get_elem?-some (x ∷ a) (suc i) h = get_elem?-some a i (omega arith)

  pub get_elem?-lt : (a : List A) (i : ℕ) (x : A) → get_elem? a i ≡ some x → i < length a
  get_elem?-lt [] i x h = cc
  get_elem?-lt (y ∷ a) zero x h = omega arith
  get_elem?-lt (y ∷ a) (suc i) x h = omega (arith, get_elem?-lt a i x h)

  pub get_elem?-set :
      (a : List A) (i j : ℕ) (v : A)
      → i < length a
      → get_elem? (set a i v) j ≡ (if i == j then some v else get_elem? a j)
  get_elem?-set [] i j v h = absurd (omega arith)
  get_elem?-set (x ∷ a) zero zero v h = refl
  get_elem?-set (x ∷ a) (suc i) (suc j) v h = ground (arith, get_elem?-set a i j v)
  get_elem?-set (x ∷ a) i j v h = ground arith

  -- A write trades the old entry for the new one.
  set-perm : (a : List A) (i : ℕ) (x v : A) → get_elem? a i ≡ some x → Perm (x ∷ set a i v) (v ∷ a)
  set-perm [] i x v h = cc
  set-perm (y ∷ a) zero x v h = let same : y ≡ x = cc in rw same (Perm.swap v x a)
  set-perm (y ∷ a) (suc i) x v h =
      Perm.trans (Perm.swap y x (set a i v))
        (Perm.trans (Perm.cons y (set-perm a i x v h)) (Perm.swap v y a))

  exchange-perm :
      (a : List A) (i j : ℕ) (p q : Option A)
      → get_elem? a i ≡ p
      → get_elem? a j ≡ q
      → Perm (exchange a i j p q) a
  unfolding exchange
  exchange-perm a i j none q e f = Perm.rfl
  exchange-perm a i j (some x) none e f = Perm.rfl
  exchange-perm a i j (some x) (some y) e f =
      let inside = get_elem?-lt a i x e in
      let kept : get_elem? (set a i y) j ≡ some y = ground (arith, get_elem?-set a i j y inside) in
      Perm.cons_inv (Perm.trans (set-perm (set a i y) j y x kept) (set-perm a i x y e))

  pub swap-perm : (a : List A) (i j : ℕ) → Perm (swap a i j) a
  unfolding swap
  swap-perm a i j = exchange-perm a i j (get_elem? a i) (get_elem? a j) refl refl

  length-exchange : (a : List A) (i j : ℕ) (p q : Option A) → length (exchange a i j p q) ≡ length a
  unfolding exchange
  length-exchange a i j none q = refl
  length-exchange a i j (some x) none = refl
  length-exchange a i j (some x) (some y) = length-set (set a i y) j x ∙ length-set a i y

  pub length-swap : (a : List A) (i j : ℕ) → length (swap a i j) ≡ length a
  unfolding swap
  length-swap a i j = length-exchange a i j (get_elem? a i) (get_elem? a j)

  pub get_elem?-swap :
      (a : List A) (i j c : ℕ)
      → i < length a
      → j < length a
      → get_elem? (swap a i j) c
        ≡ (if j == c then get_elem? a i else (if i == c then get_elem? a j else get_elem? a c))
  unfolding swap exchange
  get_elem?-swap a i j c h k =
      let (x, e) = get_elem?-some a i h in
      let (y, f) = get_elem?-some a j k in
      rw (
        e,
        f,
        get_elem?-set (set a i y) j c x (omega (arith, length-set a i y)),
        get_elem?-set a i c y h,
      )

  -- The last entry, and those before it.
  abbrev pub but_last : List A → List A
  but_last [] = []
  but_last (x ∷ []) = []
  but_last (x ∷ y ∷ a) = x ∷ but_last (y ∷ a)

  pub length-but_last : (a : List A) (n : ℕ) → length a ≡ suc n → length (but_last a) ≡ n
  length-but_last [] n h = absurd (omega arith)
  length-but_last (x ∷ []) n h = omega arith
  length-but_last (x ∷ y ∷ a) zero h = absurd (omega arith)
  length-but_last (x ∷ y ∷ a) (suc n) h = omega (arith, length-but_last (y ∷ a) n (omega arith))

  pub get_elem?-but_last :
      (a : List A) (n i : ℕ) → length a ≡ suc n → i < n → get_elem? (but_last a) i ≡ get_elem? a i
  get_elem?-but_last [] n i h k = absurd (omega arith)
  get_elem?-but_last (x ∷ []) n i h k = absurd (omega arith)
  get_elem?-but_last (x ∷ y ∷ a) n zero h k = refl
  get_elem?-but_last (x ∷ y ∷ a) zero (suc i) h k = absurd (omega arith)
  get_elem?-but_last (x ∷ y ∷ a) (suc n) (suc i) h k =
      get_elem?-but_last (y ∷ a) n i (omega arith) (omega arith)

  pub but_last-perm :
      (a : List A) (n : ℕ) (x : A)
      → length a ≡ suc n
      → get_elem? a n ≡ some x
      → Perm a (x ∷ but_last a)
  but_last-perm [] n x h e = cc
  but_last-perm (y ∷ []) zero x h e = let same : y ≡ x = cc in rw same Perm.rfl
  but_last-perm (y ∷ []) (suc n) x h e = cc
  but_last-perm (y ∷ z ∷ a) zero x h e = absurd (omega arith)
  but_last-perm (y ∷ z ∷ a) (suc n) x h e =
      Perm.trans (Perm.cons y (but_last-perm (z ∷ a) n x (omega arith) e))
        (Perm.swap x y (but_last (z ∷ a)))

  pub get_elem?-append :
      (a : List A) (x : A) (i : ℕ)
      → get_elem? (a ++ x ∷ []) i ≡ (if i == length a then some x else get_elem? a i)
  get_elem?-append [] x zero = refl
  get_elem?-append [] x (suc i) = ground arith
  get_elem?-append (y ∷ a) x zero = ground arith
  get_elem?-append (y ∷ a) x (suc i) = ground (arith, get_elem?-append a x i)

  pub append-perm : (a : List A) (x : A) → Perm (a ++ x ∷ []) (x ∷ a)
  append-perm [] x = Perm.rfl
  append-perm (y ∷ a) x = Perm.trans (Perm.cons y (append-perm a x)) (Perm.swap x y a)

  pub Mem-get_elem? {κ} :
      {P : Type κ} (a : List A) (x : A)
      → IsProp P
      → Mem x a
      → ((i : ℕ) → get_elem? a i ≡ some x → P)
      → P
  Mem-get_elem? {P = P} a x p m f = ∥∥₁_elim m p (go a f)
    where
      go : (b : List A) → ((i : ℕ) → get_elem? b i ≡ some x → P) → Memᴰ x b → P
      go [] g m' = elim m' [ ]
      go (y ∷ b) g (Memᴰ.head e) = g 0 (ap some (sym e))
      go (y ∷ b) g (Memᴰ.tail m') = go b (λ i e. g (suc i) e) m'

  pub get_elem?-Mem : (a : List A) (i : ℕ) (x : A) → get_elem? a i ≡ some x → Mem x a
  get_elem?-Mem [] i x e = cc
  get_elem?-Mem (y ∷ a) zero x e = ∣ Memᴰ.head (cc) ∣₁
  get_elem?-Mem (y ∷ a) (suc i) x e = ∥∥₁_map (get_elem?-Mem a i x e) Memᴰ.tail

  pub length-Perm : {a b : List A} → Perm a b → length a ≡ length b
  length-Perm {a} {b} p = ∥∥₁_elim p (ℕ_set (length a) (length b)) same
    where
      same : {c d : List A} → Permᴰ c d → length c ≡ length d
      same Permᴰ.nil = refl
      same (Permᴰ.cons e p') = ap suc (same p')
      same (Permᴰ.swap e f) = refl
      same (Permᴰ.trans p' q) = same p' ∙ same q

  pub Mem-nil : (a : List A) (x : A) → length a ≡ 0 → Mem x a → ⊥
  Mem-nil [] x h m = not-mem-nil m
  Mem-nil (y ∷ a) x h m = absurd (omega arith)
