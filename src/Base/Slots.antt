-- ===== src/Base/Slots.antt =====
-- An array of optional slots that is filled in a ring: what stands in the `n` slots from position
-- `h` on, where position `p` is slot `p % length s`.
use mathlib.Core.List.{append_assoc, append-nil}
use native.Mathlib.Nat.{
  mod-lt, mod-eq_of_lt, mod-add-mod, mod-mod, add-mod_right, mod-eq-sub-mod, add-zero,
}
use Prim.Native.Nat.{ℕ, zero, suc, ◌+◌, ◌-◌, ◌%◌, ◌≤◌, ◌<◌}
use mathlib.Core.Path.{◌≡◌, refl, sym, ap, ap₂, ◌∙◌}
use mathlib.Core.Logic.{◌≢◌}
use mathlib.Core.Option.{Option, none, some}
use mathlib.Core.List.{List, [], ◌∷◌, ◌++◌}
use native.Mathlib.Omega.{arith}
use native.Mathlib.Decide.{dec_lt}
use paper_breakage_analysis.Base.Lists.{length, get_or, set, length-set}

-- Two positions less than a round apart are different slots.
mod-ne_of_lt : (cap r k : ℕ) → r < cap → 0 < k → k < cap → r ≢ (r + k) % cap
mod-ne_of_lt cap r k hr a b = elim (dec_lt (r + k) cap) [
  | yes p ↦ omega (arith, mod-eq_of_lt p)
  | no p ↦ omega (
    arith,
    mod-eq-sub-mod {n = r + k} {m = cap} (omega arith),
    mod-eq_of_lt {n = r + k - cap} {m = cap} (omega arith),
  )
]

pub mod-ne_of_near : (cap p k : ℕ) → 0 < k → k < cap → p % cap ≢ (p + k) % cap
mod-ne_of_near cap p k a b e =
    mod-ne_of_lt cap (p % cap) k (mod-lt p (omega arith)) a b (e ∙ sym (mod-add-mod p cap k))

module _ {ℓ} {A : Type ℓ} where
  -- The list of what is in a slot.
  abbrev pub held : Option A → List A
  held none = []
  held (some a) = a ∷ []

  abbrev pub slot : List (Option A) → ℕ → List A
  slot s i = held (get_or s i none)

  unfoldable pub gather : List (Option A) → ℕ → ℕ → List A
  gather s h zero = []
  gather s h (suc n) = slot s (h % length s) ++ gather s (h + 1) n

  pub length-gather-le : (s : List (Option A)) (h n : ℕ) → length (gather s h n) ≤ n
  unfolding gather
  length-gather-le s h zero = omega arith
  length-gather-le s h (suc n) = ground (arith, length-gather-le s (h + 1) n)

  gather-congr :
      (s : List (Option A)) (x y n : ℕ) → x % length s ≡ y % length s → gather s x n ≡ gather s y n
  unfolding gather
  gather-congr s x y zero e = refl
  gather-congr s x y (suc n) e = ap₂ ◌++◌ (ap (slot s) e) (
      gather-congr s (x + 1) (y + 1) n (
        sym (mod-add-mod x (length s) 1)
        ∙ ap (λ t. (t + 1) % length s) e
        ∙ mod-add-mod y (length s) 1))

  -- Only the slot of the first position counts.
  pub gather-mod : (s : List (Option A)) (h n : ℕ) → gather s (h % length s) n ≡ gather s h n
  gather-mod s h n = gather-congr s (h % length s) h n (mod-mod h (length s))

  -- One more slot adds its content at the end.
  pub gather-snoc :
      (s : List (Option A)) (h n : ℕ)
      → gather s h (suc n) ≡ gather s h n ++ slot s ((h + n) % length s)
  unfolding gather
  gather-snoc s h zero = rw (append-nil, add-zero)
  gather-snoc s h (suc n) =
      ap (◌++◌ (slot s (h % length s))) (gather-snoc s (h + 1) n)
      ∙ sym (append_assoc (slot s (h % length s)) (gather s (h + 1) n) _)
      ∙ ap (λ i. (slot s (h % length s) ++ gather s (h + 1) n) ++ slot s (i % length s))
          (omega arith)

  get_or-set_ne :
      (s : List (Option A)) (i j : ℕ) (v : Option A)
      → i ≢ j
      → get_or (set s i v) j none ≡ get_or s j none
  get_or-set_ne [] i j v h = refl
  get_or-set_ne (x ∷ s) zero zero v h = absurd (h refl)
  get_or-set_ne (x ∷ s) zero (suc j) v h = refl
  get_or-set_ne (x ∷ s) (suc i) zero v h = refl
  get_or-set_ne (x ∷ s) (suc i) (suc j) v h = get_or-set_ne s i j v (λ e. h (ap suc e))

  pub get_or-set_self :
      (s : List (Option A)) (i : ℕ) (v : Option A) → i < length s → get_or (set s i v) i none ≡ v
  get_or-set_self [] i v h = absurd (omega arith)
  get_or-set_self (x ∷ s) zero v h = refl
  get_or-set_self (x ∷ s) (suc i) v h = get_or-set_self s i v (omega arith)

  slot-set_ahead :
      (s : List (Option A)) (h m : ℕ) (v : Option A)
      → 0 < m
      → m < length s
      → slot (set s ((h + m) % length s) v) (h % length (set s ((h + m) % length s) v))
        ≡ slot s (h % length s)
  slot-set_ahead s h m v a b = rw (length-set s ((h + m) % length s) v) (
      ap held (
        get_or-set_ne s ((h + m) % length s) (h % length s) v
          (λ e. mod-ne_of_near (length s) h m a b (sym e))))

  -- A write ahead of the positions that are read, and less than a round ahead, is not seen.
  pub gather-set_ahead :
      (s : List (Option A)) (h n m : ℕ) (v : Option A)
      → n ≤ m
      → m < length s
      → gather (set s ((h + m) % length s) v) h n ≡ gather s h n
  unfolding gather
  gather-set_ahead s h zero m v a b = refl
  gather-set_ahead s h (suc n) m v a b = ap₂ ◌++◌ (slot-set_ahead s h m v (omega arith) b) (
      ap (λ i. gather (set s (i % length s) v) (h + 1) n) (omega arith)
      ∙ gather-set_ahead s (h + 1) n (m - 1) v (omega arith) (omega arith))

  -- Nor is a write behind them.
  pub gather-set_behind :
      (s : List (Option A)) (h n : ℕ) (v : Option A)
      → n < length s
      → gather (set s (h % length s) v) (h + 1) n ≡ gather s (h + 1) n
  gather-set_behind s h n v b =
      ap (λ i. gather (set s i v) (h + 1) n) here
      ∙ gather-set_ahead s (h + 1) n (length s - 1) v (omega arith) (omega arith)
    where
      here : h % length s ≡ (h + 1 + (length s - 1)) % length s
      here = sym (add-mod_right h (length s)) ∙ ap (λ t. t % length s) (omega arith)

  -- Emptying the first slot does not touch the others.
  pub gather-advance :
      (s : List (Option A)) (h n : ℕ)
      → h < length s
      → n < length s
      → gather (set s h none) ((h + 1) % length s) n ≡ gather s (h + 1) n
  gather-advance s h n p q =
      ap (λ l. gather (set s h none) ((h + 1) % l) n) (sym (length-set s h none))
      ∙ gather-mod (set s h none) (h + 1) n
      ∙ ap (λ i. gather (set s i none) (h + 1) n) (sym (mod-eq_of_lt p))
      ∙ gather-set_behind s h n none q

  -- Writing the slot after the last adds an element at the end.
  pub gather-push :
      (s : List (Option A)) (h n : ℕ) (a : A)
      → n < length s
      → gather (set s ((h + n) % length s) (some a)) h (suc n) ≡ gather s h n ++ (a ∷ [])
  gather-push s h n a b =
      gather-snoc (set s ((h + n) % length s) (some a)) h n
      ∙ ap₂ ◌++◌ (gather-set_ahead s h n n (some a) (omega arith) b) (
          rw (length-set s ((h + n) % length s) (some a)) (
            ap held
              (get_or-set_self s ((h + n) % length s) (some a) (mod-lt (h + n) (omega arith)))))

  -- Where every slot holds an element, the first is that of the first slot.
  pub gather-pop :
      (s : List (Option A)) (h n : ℕ)
      → 0 < n
      → length (gather s h n) ≡ n
      → (a : A) × (get_or s (h % length s) none ≡ some a)
        × (gather s h n ≡ a ∷ gather s (h + 1) (n - 1))
        × (length (gather s (h + 1) (n - 1)) ≡ n - 1)
  unfolding gather
  gather-pop s h zero p e = absurd (omega arith)
  gather-pop s h (suc n) p e =
      let same : suc n - 1 ≡ n = omega arith in rw same (first (get_or s (h % length s) none) refl)
    where
      first :
          (o : Option A)
          → get_or s (h % length s) none ≡ o
          → (a : A) × (get_or s (h % length s) none ≡ some a)
            × (gather s h (suc n) ≡ a ∷ gather s (h + 1) n)
            × (length (gather s (h + 1) n) ≡ n)
      first none q = absurd (ground (arith, length-gather-le s (h + 1) n))
      first (some a) q = (a, q, ap (λ o. held o ++ gather s (h + 1) n) q, ground arith)

  -- Where the ring is full, writing the first slot and moving on drops the first element.
  pub gather-replace :
      (s : List (Option A)) (h : ℕ) (a : A)
      → h < length s
      → gather (set s h (some a)) ((h + 1) % length s) (length s)
        ≡ gather s (h + 1) (length s - 1) ++ (a ∷ [])
  gather-replace s h a b =
      ap (λ l. gather (set s h (some a)) ((h + 1) % l) (length s)) (sym (length-set s h (some a)))
      ∙ gather-mod (set s h (some a)) (h + 1) (length s)
      ∙ ap₂ (λ i n. gather (set s i (some a)) (h + 1) n) here (omega arith)
      ∙ gather-push s (h + 1) (length s - 1) a (omega arith)
    where
      here : h ≡ (h + 1 + (length s - 1)) % length s
      here =
          sym (mod-eq_of_lt b)
          ∙ sym (add-mod_right h (length s))
          ∙ ap (λ t. t % length s) (omega arith)

  -- The same at the other end.
  pub gather-last :
      (s : List (Option A)) (h n : ℕ)
      → length (gather s h (suc n)) ≡ suc n
      → (a : A) × (get_or s ((h + n) % length s) none ≡ some a)
        × (gather s h (suc n) ≡ gather s h n ++ (a ∷ []))
  gather-last s h n e = last (get_or s ((h + n) % length s) none) refl
    where
      last :
          (o : Option A)
          → get_or s ((h + n) % length s) none ≡ o
          → (a : A) × (get_or s ((h + n) % length s) none ≡ some a)
            × (gather s h (suc n) ≡ gather s h n ++ (a ∷ []))
      last none q = absurd (
          omega (
            arith,
            e,
            length-gather-le s h n,
            ap length (
                gather-snoc s h n ∙ ap (λ o. gather s h n ++ held o) q ∙ append-nil (gather s h n)),
          ))
      last (some a) q = (a, q, gather-snoc s h n ∙ ap (λ o. gather s h n ++ held o) q)
