-- ===== src/Queue/Contents.antt =====
-- The queue seen as the list of its frames, oldest first, and what holds of it between two calls.
use native.Mathlib.Nat.{mod-eq_of_lt, mod-lt}
use paper_breakage_analysis.Base.{
  ℕ, ◌+◌, ◌-◌, ◌%◌, ◌≤◌, ◌<◌, ◌≡◌, sym, ap, ◌∙◌, Option, none, some, List, [], ◌∷◌, ◌++◌, arith,
  length, length-replicate, length-set, length-append, set, get_or,
}
use paper_breakage_analysis.Base.Slots.{gather, gather-push, gather-pop, gather-advance}
use paper_breakage_analysis.Queue.{BoundedQueue, new_queue, skip_oldest, append}

module _ {ℓ} {A : Type ℓ} where
  unfoldable pub contents : BoundedQueue A → List A
  contents q = gather q.slots q.head q.size

  -- What the ring needs to hold a list.
  pub record IsValid (q : BoundedQueue A) : Type ℓ where
    pub some_slots : 0 < length q.slots
    pub head_in : q.head < length q.slots
    pub size_in : q.size ≤ length q.slots
    -- every slot of the ring holds a frame
    pub full : length (contents q) ≡ q.size

  pub new_queue-IsValid : (n : ℕ) {q : BoundedQueue A} → new_queue n ≡ some q → IsValid q
  unfolding new_queue contents gather
  new_queue-IsValid n e = ground (arith, length-replicate {A = Option A} n none)

  -- The first frame, and what stands behind it once its slot is reset.
  pub advance_lem :
      (q : BoundedQueue A)
      → IsValid q
      → 0 < q.size
      → (a : A) × (get_or q.slots q.head none ≡ some a)
        × (contents q
            ≡ a ∷ gather (set q.slots q.head none) ((q.head + 1) % length q.slots) (q.size - 1))
        × (length (gather (set q.slots q.head none) ((q.head + 1) % length q.slots) (q.size - 1))
            ≡ q.size - 1)
  unfolding contents
  advance_lem q v p =
      let (a, e, whole, rest) = gather-pop q.slots q.head q.size p v.full in
      let same = gather-advance q.slots q.head (q.size - 1) v.head_in (omega (arith, v.size_in)) in
      (
        a,
        ap (λ i. get_or q.slots i none) (sym (mod-eq_of_lt v.head_in)) ∙ e,
        whole ∙ ap (◌∷◌ a) (sym same),
        ap length same ∙ rest,
      )

  pub skip_oldest-IsValid : (q : BoundedQueue A) → IsValid q → 0 < q.size → IsValid (skip_oldest q)
  unfolding skip_oldest contents
  skip_oldest-IsValid q v p =
      let same = length-set q.slots q.head none in
      record {
        some_slots = omega (arith, same, v.some_slots);
        head_in = omega (arith, same, mod-lt (q.head + 1) v.some_slots);
        size_in = omega (arith, same, v.size_in);
        full = (advance_lem q v p).3;
      }

  pub contents-append :
      (q : BoundedQueue A) (a : A)
      → q.size < length q.slots
      → contents (append q a) ≡ contents q ++ (a ∷ [])
  unfolding contents append
  contents-append q a h =
      ap (gather (set q.slots ((q.head + q.size) % length q.slots) (some a)) q.head) (omega arith)
      ∙ gather-push q.slots q.head q.size a h

  pub append-IsValid :
      (q : BoundedQueue A) (a : A) → IsValid q → q.size < length q.slots → IsValid (append q a)
  unfolding append
  append-IsValid q a v h =
      let same = length-set q.slots ((q.head + q.size) % length q.slots) (some a) in
      record {
        some_slots = omega (arith, same, v.some_slots);
        head_in = omega (arith, same, v.head_in);
        size_in = omega (arith, same, h);
        full =
            ap length (contents-append q a h)
            ∙ length-append (contents q) (a ∷ [])
            ∙ omega (arith, v.full);
      }
