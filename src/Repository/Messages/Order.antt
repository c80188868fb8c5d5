-- ===== src/Repository/Messages/Order.antt =====
-- The loop of `GetRecent` reverses its slice, so that messages run from old to new.
use mathlib.Core.List.{reverse, reverse-cons, reverse-append, append_assoc, append-nil}
use pigeongram_chat.Base.{
  ℕ, zero, suc, ◌+◌, ◌-◌, ◌≤◌, ◌<◌, ◌≡◌, refl, sym, ap, ◌∙◌, ◌⊎◌, inl, inr, some, List, [], ◌∷◌,
  ◌++◌, length, length-append, All, All-snoc, arith, lt→ltb, le→ltb,
}
use pigeongram_chat.Base.Result.{ok}
use pigeongram_chat.Base.Sorting.{IsSorted}
use pigeongram_chat.Models.{MessageEntity}
use pigeongram_chat.Repository.{Database, IsDescending, Queries}
use pigeongram_chat.Repository.Messages.{get_elem?, set, swap, reverse_loop, get_recent}

module _ {ℓ} {A : Type ℓ} where
  get_elem?-middle :
      (pre : List A) (x : A) (post : List A) → get_elem? (pre ++ (x ∷ post)) (length pre) ≡ some x
  get_elem?-middle [] x post = refl
  get_elem?-middle (p ∷ pre) x post = get_elem?-middle pre x post

  set-middle :
      (pre : List A) (x v : A) (post : List A)
      → set (pre ++ (x ∷ post)) (length pre) v ≡ pre ++ (v ∷ post)
  set-middle [] x v post = refl
  set-middle (p ∷ pre) x v post = ap (λ l. p ∷ l) (set-middle pre x v post)

  get_elem?-second :
      (pre m post : List A) (x y : A)
      → get_elem? (pre ++ (x ∷ (m ++ (y ∷ post)))) (length (pre ++ (x ∷ m))) ≡ some y
  get_elem?-second pre m post x y =
      rw (sym (append_assoc pre (x ∷ m) (y ∷ post))) (get_elem?-middle (pre ++ (x ∷ m)) y post)

  set-second :
      (pre m post : List A) (x y v : A)
      → set (pre ++ (x ∷ (m ++ (y ∷ post)))) (length (pre ++ (x ∷ m))) v
        ≡ pre ++ (x ∷ (m ++ (v ∷ post)))
  set-second pre m post x y v =
      rw (sym (append_assoc pre (x ∷ m) (y ∷ post)))
        (set-middle (pre ++ (x ∷ m)) y v post ∙ append_assoc pre (x ∷ m) (v ∷ post))

  same_length : (pre m : List A) (x y : A) → length (pre ++ (x ∷ m)) ≡ length (pre ++ (y ∷ m))
  same_length pre m x y = omega (arith, length-append pre (x ∷ m), length-append pre (y ∷ m))

  -- The two elements before and behind `m` change places.
  swap_ends :
      (pre m post : List A) (x y : A)
      → swap (length pre) (length (pre ++ (x ∷ m))) (pre ++ (x ∷ (m ++ (y ∷ post))))
        ≡ pre ++ (y ∷ (m ++ (x ∷ post)))
  unfolding swap
  swap_ends pre m post x y =
      rw (get_elem?-middle pre x (m ++ (y ∷ post)), swap)
        (rw (get_elem?-second pre m post x y) (
          rw (set-middle pre x y (m ++ (y ∷ post)), same_length pre m x y)
            (set-second pre m post y y x)))

  -- A list that is not empty has a last element.
  last-cases : (xs : List A) → (xs ≡ []) ⊎ ((m : List A) × (y : A) × (xs ≡ m ++ (y ∷ [])))
  last-cases [] = inl refl
  last-cases (x ∷ xs) = elim (last-cases xs) [
    | inl e ↦ inr ([], x, ap (λ l. x ∷ l) e)
    | inr (m, y, e) ↦ inr (x ∷ m, y, ap (λ l. x ∷ l) e)
  ]

  reverse_ends :
      (x y : A) (m post : List A)
      → reverse (x ∷ (m ++ (y ∷ []))) ++ post ≡ y ∷ (reverse m ++ (x ∷ post))
  reverse_ends x y m post =
      rw (reverse-cons x (m ++ (y ∷ [])), reverse-append m (y ∷ []))
        (append_assoc (y ∷ reverse m) (x ∷ []) post)

  reverse_loop-stop : (fuel i j : ℕ) (xs : List A) → j ≤ i → reverse_loop fuel i j xs ≡ xs
  unfolding reverse_loop
  reverse_loop-stop zero i j xs h = refl
  reverse_loop-stop (suc fuel) i j xs h = rw (le→ltb i j h, reverse_loop)

  reverse_loop-step :
      (fuel i j : ℕ) (xs : List A)
      → i < j
      → reverse_loop (suc fuel) i j xs ≡ reverse_loop fuel (suc i) (j - 1) (swap i j xs)
  unfolding reverse_loop
  reverse_loop-step fuel i j xs h = rw (lt→ltb i j h, reverse_loop)

  -- From both ends of `mid` inwards, the loop reverses what stands between `pre` and `post`.
  reverse_loop-middle :
      (fuel i j : ℕ) (pre mid post : List A)
      → length mid ≤ fuel
      → i ≡ length pre
      → j ≡ length pre + length mid - 1
      → reverse_loop fuel i j (pre ++ (mid ++ post)) ≡ pre ++ (reverse mid ++ post)
  reverse_loop-middle fuel i j pre [] post h b e = reverse_loop-stop fuel i j _ (omega arith)
  reverse_loop-middle zero i j pre (x ∷ mid) post h b e = elim h [ ]
  reverse_loop-middle (suc fuel) i j pre (x ∷ mid) post h b e = elim (last-cases mid) [
    | inl one ↦
        rw one (reverse_loop-stop (suc fuel) i j (pre ++ (x ∷ post)) (omega (arith, ap length one)))
    | inr (m, y, ends) ↦
        let n : length mid ≡ length m + 1 = ap length ends ∙ length-append m (y ∷ []) in
        let j' : j ≡ length (pre ++ (x ∷ m)) = omega (arith, length-append pre (x ∷ m)) in
        let rest =
          reverse_loop-middle fuel (suc i) (j - 1) (pre ++ (y ∷ [])) m (x ∷ post) (omega arith)
            (omega (arith, length-append pre (y ∷ [])))
            (omega (arith, length-append pre (y ∷ []))) in
        let shape : mid ++ post ≡ m ++ (y ∷ post) =
          ap (λ l. l ++ post) ends ∙ append_assoc m (y ∷ []) post in
        let whole : pre ++ (x ∷ (mid ++ post)) ≡ pre ++ (x ∷ (m ++ (y ∷ post))) =
          ap (λ l. pre ++ (x ∷ l)) shape in
        let swapped : swap i j (pre ++ (x ∷ (mid ++ post)))
            ≡ (pre ++ (y ∷ [])) ++ (m ++ (x ∷ post)) =
          rw (whole, b, j')
            (swap_ends pre m post x y ∙ sym (append_assoc pre (y ∷ []) (m ++ (x ∷ post)))) in
        let ended : (pre ++ (y ∷ [])) ++ (reverse m ++ (x ∷ post))
            ≡ pre ++ (reverse (x ∷ mid) ++ post) =
          append_assoc pre (y ∷ []) (reverse m ++ (x ∷ post))
          ∙ ap (λ l. pre ++ l) (sym (reverse_ends x y m post))
          ∙ ap (λ l. pre ++ (reverse (x ∷ l) ++ post)) (sym ends) in
        reverse_loop-step fuel i j (pre ++ (x ∷ (mid ++ post))) (omega arith)
        ∙ ap (reverse_loop fuel (suc i) (j - 1)) swapped
        ∙ rest
        ∙ ended
  ]

  -- The loop over a whole slice reverses it.
  pub reverse_loop-reverse :
      (xs : List A) → reverse_loop (length xs) 0 (length xs - 1) xs ≡ reverse xs
  reverse_loop-reverse xs =
      ap (reverse_loop (length xs) 0 (length xs - 1)) (sym (append-nil xs))
      ∙ reverse_loop-middle (length xs) 0 (length xs - 1) [] xs [] (omega arith) refl (omega arith)
      ∙ append-nil (reverse xs)

All-append {ℓ κ} :
    {A : Type ℓ} (P : A → Type κ) (xs ys : List A) → All P xs → All P ys → All P (xs ++ ys)
All-append P [] ys h k = k
All-append P (x ∷ xs) ys h k = (h.0, All-append P xs ys h.1 k)

All-reverse {ℓ κ} : {A : Type ℓ} (P : A → Type κ) (xs : List A) → All P xs → All P (reverse xs)
All-reverse P [] h = tt
All-reverse P (x ∷ xs) h =
    rw (reverse-cons x xs) (All-snoc P (reverse xs) x (All-reverse P xs h.1) h.0)

IsSorted-snoc {ℓ} :
    {A : Type ℓ} (key : A → ℕ) (xs : List A) (x : A)
    → IsSorted key xs
    → All (λ y. key y ≤ key x) xs
    → IsSorted key (xs ++ (x ∷ []))
IsSorted-snoc key [] x s h = (tt, tt)
IsSorted-snoc key (y ∷ xs) x s h =
    (All-snoc (λ z. key y ≤ key z) xs x s.0 h.0, IsSorted-snoc key xs x s.1 h.1)

IsDescending-reverse :
    (ms : List MessageEntity) → IsDescending ms → IsSorted (λ m. m.timestamp) (reverse ms)
IsDescending-reverse [] h = tt
IsDescending-reverse (m ∷ ms) h = rw (reverse-cons m ms) (
    IsSorted-snoc (λ n. n.timestamp) (reverse ms) m (IsDescending-reverse ms h.1)
      (All-reverse (λ n. n.timestamp ≤ m.timestamp) ms h.0))

length-reverse {ℓ} : {A : Type ℓ} (xs : List A) → length (reverse xs) ≡ length xs
length-reverse [] = refl
length-reverse (x ∷ xs) =
    omega
      (arith, ap length (reverse-cons x xs), length-append (reverse xs) (x ∷ []), length-reverse xs)

-- If the query succeeds, so does `GetRecent`, with the rows of the query from the other end: at most
-- `limit` of them, in the order of their time.
pub get_recent-IsSorted :
    (D : Database) (limit : ℕ) (s : D.State) (rows : List MessageEntity)
    → Queries D
    → D.find_messages 0 limit s ≡ ok rows
    → (get_recent D limit s ≡ ok (reverse rows))
      × IsSorted (λ m. m.timestamp) (reverse rows)
      × (length (reverse rows) ≤ limit)
unfolding get_recent
get_recent-IsSorted D limit s rows q found =
    let ordered = q.find_ordered 0 limit s rows found in
    (
      rw (found, get_recent) (ap ok (reverse_loop-reverse rows)),
      IsDescending-reverse rows ordered.0,
      omega (arith, length-reverse rows, ordered.1),
    )
