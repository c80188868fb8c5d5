-- ===== src/Base/Dict.antt =====
-- Go's maps as association lists with one entry for a key.
use pigeongram_chat.Base.{
  ◌≡◌, refl, ◌==◌, Eq, Option, none, some, List, [], ◌∷◌, arith, if◌then◌else◌, map, Bool, false,
  All, Bool-cases, inl, inr,
}

abbrev pub Dict {ℓ κ} : Type ℓ → Type κ → Type (ℓ ⊔ κ)
Dict K V = List (K × V)

abbrev pub keys {ℓ κ} : {K : Type ℓ} {V : Type κ} → Dict K V → List K
keys = map (λ (k, _). k)

-- An entry read through a filter.
abbrev pub kept {ℓ} : {V : Type ℓ} → (V → Bool) → Option V → Option V
kept keep none = none
kept keep (some v) = if keep v then some v else none

module _ {ℓ κ} {K : Type ℓ} {V : Type κ} ⦃e : Eq K⦄ where
  -- `v, ok := d[k]`
  unfoldable pub lookup : K → Dict K V → Option V
  lookup k [] = none
  lookup k ((j, v) ∷ d) = if j == k then some v else lookup k d

  -- `d[k] = v`
  unfoldable pub insert : K → V → Dict K V → Dict K V
  insert k v [] = (k, v) ∷ []
  insert k v ((j, w) ∷ d) = if j == k then (k, v) ∷ d else (j, w) ∷ insert k v d

  -- `delete(d, k)`
  unfoldable pub erase : K → Dict K V → Dict K V
  erase k [] = []
  erase k ((j, w) ∷ d) = let rest = erase k d in if j == k then rest else (j, w) ∷ rest

  pub lookup-insert :
      (j k : K) (v : V) (d : Dict K V)
      → lookup j (insert k v d) ≡ (if k == j then some v else lookup j d)
  unfolding lookup insert
  lookup-insert j k v [] = refl
  lookup-insert j k v ((i, w) ∷ d) =
      ground (arith, e.beq_iff k j, e.beq_iff i k, e.beq_iff i j, lookup-insert j k v d)

  pub lookup-erase :
      (j k : K) (d : Dict K V) → lookup j (erase k d) ≡ (if k == j then none else lookup j d)
  unfolding lookup erase
  lookup-erase j k [] = ground arith
  lookup-erase j k ((i, w) ∷ d) =
      ground (arith, e.beq_iff k j, e.beq_iff i k, e.beq_iff i j, lookup-erase j k d)

  -- `for k, v := range d { if stale(v) { delete(d, k) } }`
  unfoldable pub retain : (V → Bool) → Dict K V → Dict K V
  retain keep [] = []
  retain keep ((j, w) ∷ d) = let rest = retain keep d in if keep w then (j, w) ∷ rest else rest

  -- A map holds one entry for a key.
  abbrev pub NodupKeys : Dict K V → Type κ
  NodupKeys [] = Unit
  NodupKeys ((k, _) ∷ d) = (lookup k d ≡ none) × NodupKeys d

  lookup-retain_absent :
      (keep : V → Bool) (k : K) (d : Dict K V) → lookup k d ≡ none → lookup k (retain keep d) ≡ none
  unfolding lookup retain
  lookup-retain_absent keep k [] h = refl
  lookup-retain_absent keep k ((i, w) ∷ d) h = ground (arith, lookup-retain_absent keep k d)

  pub lookup-retain :
      (keep : V → Bool) (k : K) (d : Dict K V)
      → NodupKeys d
      → lookup k (retain keep d) ≡ kept keep (lookup k d)
  unfolding lookup retain
  lookup-retain keep k [] u = refl
  lookup-retain keep k ((i, w) ∷ d) (fresh, u) =
      ground (arith, e.beq_iff i k, lookup-retain keep k d u, lookup-retain_absent keep i d)

  pub retain-NodupKeys : (keep : V → Bool) (d : Dict K V) → NodupKeys d → NodupKeys (retain keep d)
  unfolding retain
  retain-NodupKeys keep [] u = tt
  retain-NodupKeys keep ((i, w) ∷ d) (fresh, u) =
      ground (arith, retain-NodupKeys keep d u, lookup-retain_absent keep i d)

  pub insert-NodupKeys : (k : K) (v : V) (d : Dict K V) → NodupKeys d → NodupKeys (insert k v d)
  unfolding insert lookup
  insert-NodupKeys k v [] u = (refl, tt)
  insert-NodupKeys k v ((i, w) ∷ d) (fresh, u) =
      ground (arith, e.beq_iff i k, e.beq_iff k i, insert-NodupKeys k v d u, lookup-insert i k v d)

  pub erase-NodupKeys : (k : K) (d : Dict K V) → NodupKeys d → NodupKeys (erase k d)
  unfolding erase
  erase-NodupKeys k [] u = tt
  erase-NodupKeys k ((i, w) ∷ d) (fresh, u) =
      ground (arith, erase-NodupKeys k d u, lookup-erase i k d)

  pub All-insert {μ} :
      (P : K × V → Type μ) (k : K) (v : V) (d : Dict K V)
      → P (k, v)
      → All P d
      → All P (insert k v d)
  unfolding insert
  All-insert P k v [] p a = (p, tt)
  All-insert P k v ((j, w) ∷ d) p a = elim (Bool-cases (j == k)) [
    | inl e ↦ rw e (p, a.1)
    | inr e ↦ rw e (a.0, All-insert P k v d p a.1)
  ]

  -- What is left after a deletion has another key.
  pub All-erase {μ} :
      (P : K × V → Type μ) (k : K) (d : Dict K V)
      → All P d
      → All (λ e. P e × ((e.0 == k) ≡ false)) (erase k d)
  unfolding erase
  All-erase P k [] a = tt
  All-erase P k ((j, w) ∷ d) a = elim (Bool-cases (j == k)) [
    | inl e ↦ rw e (All-erase P k d a.1)
    | inr e ↦ rw e ((a.0, e), All-erase P k d a.1)
  ]
