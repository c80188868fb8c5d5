-- ===== src/Websocket/History/Order.antt =====
-- The history is in order, and holds the messages with a text and no others.
use mathlib.Core.List.{Perm}
use mathlib.Core.List.Perm
use pigeongram_chat.Base.{
  ℕ, zero, suc, ◌≤◌, ◌≡◌, refl, sym, ap, List, [], ◌∷◌, All, arith, length, if◌then◌else◌,
  Bool-cases, inl, inr, map, select,
}
use pigeongram_chat.Base.Time.{after}
use pigeongram_chat.Base.Sorting.{IsSorted}
use pigeongram_chat.Models.{Message}
use pigeongram_chat.Websocket.History.{
  exchange, exchange_sort, history_of, valid_messages, with_defaults, has_text,
}

abbrev time : Message → ℕ
time m = m.timestamp

length-exchange : (x : Message) (xs : List Message) → length (exchange x xs).1 ≡ length xs
unfolding exchange
length-exchange x [] = refl
length-exchange x (y ∷ ys) =
    ap suc (length-exchange (if after x.timestamp y.timestamp then y else x) ys)

-- The element that the inner loop leaves in front is no later than the one that stood there.
exchange_le_self : (x : Message) (xs : List Message) → time (exchange x xs).0 ≤ time x
unfolding exchange
exchange_le_self x [] = omega arith
exchange_le_self x (y ∷ ys) = elim (Bool-cases (after x.timestamp y.timestamp)) [
  | inl e ↦ ground (arith, exchange_le_self y ys)
  | inr e ↦ ground (arith, exchange_le_self x ys)
]

-- Nor than any other.
exchange_le :
    (n : ℕ) (x : Message) (xs : List Message)
    → n ≡ time (exchange x xs).0
    → All (λ y. n ≤ time y) (exchange x xs).1
unfolding exchange
exchange_le n x [] h = tt
exchange_le n x (y ∷ ys) h = elim (Bool-cases (after x.timestamp y.timestamp)) [
  | inl e ↦
      let h' : n ≡ time (exchange y ys).0 = rw e at h in
      rw e (ground (arith, h', exchange_le_self y ys), exchange_le n y ys h')
  | inr e ↦
      let h' : n ≡ time (exchange x ys).0 = rw e at h in
      rw e (ground (arith, h', exchange_le_self x ys), exchange_le n x ys h')
]

exchange-perm :
    (x : Message) (xs : List Message) → Perm ((exchange x xs).0 ∷ (exchange x xs).1) (x ∷ xs)
unfolding exchange
exchange-perm x [] = Perm.refl (x ∷ [])
exchange-perm x (y ∷ ys) = elim (Bool-cases (after x.timestamp y.timestamp)) [
  | inl e ↦ rw e (Perm.trans (Perm.swap x _ _) (Perm.cons x (exchange-perm y ys)))
  | inr e ↦ rw e (
      Perm.trans (Perm.swap y _ _)
        (Perm.trans (Perm.cons y (exchange-perm x ys)) (Perm.swap x y ys)))
]

All-exchange :
    (P : Message → Type 0) (x : Message) (xs : List Message)
    → P x
    → All P xs
    → P (exchange x xs).0 × All P (exchange x xs).1
unfolding exchange
All-exchange P x [] p h = (p, tt)
All-exchange P x (y ∷ ys) p h = elim (Bool-cases (after x.timestamp y.timestamp)) [
  | inl e ↦ let r = All-exchange P y ys h.0 h.1 in rw e (r.0, (p, r.1))
  | inr e ↦ let r = All-exchange P x ys p h.1 in rw e (r.0, (h.0, r.1))
]

All-exchange_sort :
    (P : Message → Type 0) (n : ℕ) (xs : List Message) → All P xs → All P (exchange_sort n xs)
unfolding exchange_sort
All-exchange_sort P zero xs h = h
All-exchange_sort P (suc n) [] h = tt
All-exchange_sort P (suc n) (x ∷ xs) h =
    let r = All-exchange P x xs h.0 h.1 in (r.0, All-exchange_sort P n (exchange x xs).1 r.1)

exchange_sort-IsSorted :
    (n : ℕ) (xs : List Message) → length xs ≤ n → IsSorted time (exchange_sort n xs)
unfolding exchange_sort
exchange_sort-IsSorted zero [] h = tt
exchange_sort-IsSorted zero (x ∷ xs) h = elim h [ ]
exchange_sort-IsSorted (suc n) [] h = tt
exchange_sort-IsSorted (suc n) (x ∷ xs) h = (
  All-exchange_sort (λ y. time (exchange x xs).0 ≤ time y) n (exchange x xs).1
      (exchange_le _ x xs refl),
  exchange_sort-IsSorted n (exchange x xs).1 (omega (arith, length-exchange x xs)),
)

exchange_sort-perm : (n : ℕ) (xs : List Message) → Perm (exchange_sort n xs) xs
unfolding exchange_sort
exchange_sort-perm zero xs = Perm.refl xs
exchange_sort-perm (suc n) [] = Perm.refl []
exchange_sort-perm (suc n) (x ∷ xs) =
    Perm.trans (Perm.cons _ (exchange_sort-perm n (exchange x xs).1)) (exchange-perm x xs)

valid_messages_lem :
    (now : ℕ) (ms : List Message)
    → valid_messages now ms ≡ map (with_defaults now) (select has_text ms)
unfolding valid_messages select
valid_messages_lem now [] = refl
valid_messages_lem now (m ∷ ms) = ground (arith, valid_messages_lem now ms)

-- A client's history runs in the order of time, and is made of just the messages that have a text
-- other than "null" and "undefined", each as often as it was there and with its defaults filled in.
pub history_of-IsSorted :
    (now : ℕ) (ms : List Message)
    → IsSorted (λ m. m.timestamp) (history_of now ms)
      × Perm (history_of now ms) (map (with_defaults now) (select has_text ms))
unfolding history_of
history_of-IsSorted now ms = (
  exchange_sort-IsSorted _ (valid_messages now ms) (omega arith),
  rw (sym (valid_messages_lem now ms)) (exchange_sort-perm _ (valid_messages now ms)),
)
