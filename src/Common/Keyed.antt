-- ===== src/Common/Keyed.antt =====
-- Lists whose elements carry a number to find them by: the kernel's linked lists, searched by a
-- field of the entry and cut at the entry's own address.
use Prim.Native.Nat.{ℕ}
use mathlib.Core.Path.{◌≡◌, refl, sym, subst}
use mathlib.Core.Logic.{◌≢◌, inl, inr}
use mathlib.Core.Option.{Option, none, some}
use mathlib.Core.List.{List, [], ◌∷◌, ◌++◌}
use native.Mathlib.Omega.{arith}
use fpga_pcie_drivers.Common.Tests.{◌==◌, ==_iff, if◌then◌else◌, Bool-cases}

-- A predicate on every element, by recursion.
abbrev pub All {ℓ κ} : {A : Type ℓ} → (A → Type κ) → List A → Type κ
All P [] = Unit
All P (x ∷ xs) = P x × All P xs

module _ {ℓ} {A : Type ℓ} (key : A → ℕ) where
  -- No two elements have the same key.
  abbrev pub DistinctBy : List A → Type 0
  DistinctBy [] = Unit
  DistinctBy (x ∷ xs) = All (λ y. key y ≢ key x) xs × DistinctBy xs

  -- The key is not in use.
  abbrev pub IsFresh : ℕ → List A → Type 0
  IsFresh k xs = All (λ y. key y ≢ k) xs

  -- `list_for_each` up to the first entry with the key.
  unfoldable pub find_by : ℕ → List A → Option A
  find_by k [] = none
  find_by k (x ∷ xs) = if key x == k then some x else find_by k xs

  -- `list_del`: the first entry with the key goes, all others stay in order.
  unfoldable pub remove_by : ℕ → List A → List A
  remove_by k [] = []
  remove_by k (x ∷ xs) = if key x == k then xs else x ∷ remove_by k xs

module _ {ℓ κ} {A : Type ℓ} (P : A → Type κ) where
  pub All-snoc : (xs : List A) (x : A) → All P xs → P x → All P (xs ++ x ∷ [])
  All-snoc [] x h p = (p, tt)
  All-snoc (y ∷ xs) x h p = (h.0, All-snoc xs x h.1 p)

  pub All-map {μ} : (Q : A → Type μ) (xs : List A) → ((x : A) → P x → Q x) → All P xs → All Q xs
  All-map Q [] f h = tt
  All-map Q (x ∷ xs) f h = (f x h.0, All-map Q xs f h.1)

  pub All-remove_by : (key : A → ℕ) (k : ℕ) (xs : List A) → All P xs → All P (remove_by key k xs)
  unfolding remove_by
  All-remove_by key k [] h = tt
  All-remove_by key k (x ∷ xs) h = elim (Bool-cases (key x == k)) [
    | inl e ↦ rw e h.1
    | inr e ↦ rw e (h.0, All-remove_by key k xs h.1)
  ]

  -- What `find_by` returns satisfies what all elements do.
  pub All-find_by :
      (key : A → ℕ) (k : ℕ) (xs : List A) (x : A) → All P xs → find_by key k xs ≡ some x → P x
  unfolding find_by
  All-find_by key k [] x h e = absurd (ground arith)
  All-find_by key k (y ∷ xs) x h e = elim (Bool-cases (key y == k)) [
    | inl q ↦ let same : y ≡ x = ground arith in subst P same h.0
    | inr q ↦ All-find_by key k xs x h.1 (ground arith)
  ]

module _ {ℓ} {A : Type ℓ} (key : A → ℕ) where
  pub DistinctBy-snoc :
      (xs : List A) (x : A)
      → DistinctBy key xs
      → IsFresh key (key x) xs
      → DistinctBy key (xs ++ x ∷ [])
  DistinctBy-snoc [] x h f = (tt, tt)
  DistinctBy-snoc (y ∷ xs) x h f =
      (All-snoc _ xs x h.0 (λ e. f.0 (sym e)), DistinctBy-snoc xs x h.1 f.1)

  pub DistinctBy-remove_by :
      (cut : A → ℕ) (k : ℕ) (xs : List A) → DistinctBy key xs → DistinctBy key (remove_by cut k xs)
  unfolding remove_by
  DistinctBy-remove_by cut k [] h = tt
  DistinctBy-remove_by cut k (x ∷ xs) h = elim (Bool-cases (cut x == k)) [
    | inl e ↦ rw e h.1
    | inr e ↦ rw e (All-remove_by _ cut k xs h.0, DistinctBy-remove_by cut k xs h.1)
  ]

  -- The entry that is found has the key.
  pub find_by-key : (k : ℕ) (xs : List A) (x : A) → find_by key k xs ≡ some x → key x ≡ k
  unfolding find_by
  find_by-key k [] x e = ground arith
  find_by-key k (y ∷ xs) x e = ground (arith, find_by-key k xs x)

  pub find_by-IsFresh : (k : ℕ) (xs : List A) → IsFresh key k xs → find_by key k xs ≡ none
  unfolding find_by
  find_by-IsFresh k [] h = refl
  find_by-IsFresh k (y ∷ xs) h = ground (arith, find_by-IsFresh k xs h.1)

  -- What is not found is on no entry.
  pub find_by-none : (k : ℕ) (xs : List A) → find_by key k xs ≡ none → IsFresh key k xs
  unfolding find_by
  find_by-none k [] e = tt
  find_by-none k (y ∷ xs) e = elim (Bool-cases (key y == k)) [
    | inl q ↦ absurd (ground arith)
    | inr q ↦ (ground arith, find_by-none k xs (ground arith))
  ]

  pub find_by-snoc_self :
      (xs : List A) (x : A) → IsFresh key (key x) xs → find_by key (key x) (xs ++ x ∷ []) ≡ some x
  unfolding find_by
  find_by-snoc_self [] x h = ground arith
  find_by-snoc_self (y ∷ xs) x h = ground (arith, find_by-snoc_self xs x h.1)

  pub find_by-snoc_ne :
      (k : ℕ) (xs : List A) (x : A) → key x ≢ k → find_by key k (xs ++ x ∷ []) ≡ find_by key k xs
  unfolding find_by
  find_by-snoc_ne k [] x h = ground arith
  find_by-snoc_ne k (y ∷ xs) x h = ground (arith, find_by-snoc_ne k xs x h)

  -- Appending an entry with a fresh key and cutting it gives the list back.
  pub remove_by-snoc_self :
      (xs : List A) (x : A) → IsFresh key (key x) xs → remove_by key (key x) (xs ++ x ∷ []) ≡ xs
  unfolding remove_by
  remove_by-snoc_self [] x h = ground arith
  remove_by-snoc_self (y ∷ xs) x h = ground (arith, remove_by-snoc_self xs x h.1)

module _ {ℓ} {A : Type ℓ} (key cut : A → ℕ) where
  -- Once the entry that a key finds is cut, the key finds nothing.
  pub find_by-remove_self :
      (k : ℕ) (xs : List A) (x : A)
      → DistinctBy key xs
      → DistinctBy cut xs
      → find_by key k xs ≡ some x
      → find_by key k (remove_by cut (cut x) xs) ≡ none
  unfolding find_by remove_by
  find_by-remove_self k [] x d c e = refl
  find_by-remove_self k (y ∷ xs) x d c e = elim (Bool-cases (key y == k)) [
    | inl q ↦
        let same : y ≡ x = ground arith in
        rw (← same) (
          ground (
            arith,
            find_by-IsFresh key k xs (subst (λ n. IsFresh key n xs) ((==_iff _ _).0 q) d.0),
          ))
    | inr q ↦
        let found : find_by key k xs ≡ some x = ground arith in
        let other : cut x ≢ cut y = All-find_by _ key k xs x c.0 found in
        ground (arith, find_by-remove_self k xs x d.1 c.1 found)
  ]

  -- No other key is affected.
  pub find_by-remove_ne :
      (k j : ℕ) (xs : List A) (x : A)
      → DistinctBy cut xs
      → find_by key k xs ≡ some x
      → j ≢ k
      → find_by key j (remove_by cut (cut x) xs) ≡ find_by key j xs
  unfolding find_by remove_by
  find_by-remove_ne k j [] x c e n = refl
  find_by-remove_ne k j (y ∷ xs) x c e n = elim (Bool-cases (key y == k)) [
    | inl q ↦ ground arith
    | inr q ↦
        let found : find_by key k xs ≡ some x = ground arith in
        let other : cut x ≢ cut y = All-find_by _ key k xs x c.0 found in
        ground (arith, find_by-remove_ne k j xs x c.1 found n)
  ]
