-- ===== src/Cache/Memory/Messages.antt =====
-- The recent messages in memory: the bound of 100, duplicates, and how long they are served.
use pigeongram_chat.Base.{
  ℕ, suc, ◌-◌, ◌≤◌, ◌≡◌, refl, Bool, true, false, ◌||◌, List, [], ◌∷◌, ◌++◌, zero, nat_eq, list_eq,
  list_beq_iff, length, drop, any, arith, length-drop, length-append,
}
use pigeongram_chat.Models.{Message}
use pigeongram_chat.Cache.Memory.{MemoryCache, is_same_message, last_hundred, add_message}

-- No message has a duplicate behind it.
abbrev pub Distinct : List Message → Type 0
Distinct [] = Unit {0}
Distinct (m ∷ ms) = (any (is_same_message m) ms ≡ false) × Distinct ms

pub record IsRecent (ms : List Message) : Type 0 where
  pub bounded : length ms ≤ 100
  pub distinct : Distinct ms

length-last_hundred {ℓ} : {A : Type ℓ} (xs : List A) → length (last_hundred xs) ≤ 100
unfolding last_hundred
length-last_hundred xs = ground (arith, length-drop (length xs - 100) xs)

drop-Distinct : (n : ℕ) (ms : List Message) → Distinct ms → Distinct (drop n ms)
drop-Distinct zero ms d = d
drop-Distinct (suc n) [] d = tt
drop-Distinct (suc n) (m ∷ ms) d = drop-Distinct n ms d.1

last_hundred-Distinct : (ms : List Message) → Distinct ms → Distinct (last_hundred ms)
unfolding last_hundred
last_hundred-Distinct ms d = ground (arith, drop-Distinct (length ms - 100) ms d)

any-append {ℓ} :
    {A : Type ℓ} (p : A → Bool) (xs ys : List A) → any p (xs ++ ys) ≡ (any p xs || any p ys)
unfolding any
any-append p [] ys = refl
any-append p (x ∷ xs) ys = ground (arith, any-append p xs ys)

same_symm : (m n : Message) → is_same_message m n ≡ is_same_message n m
unfolding is_same_message
same_symm m n = ground (
  arith,
  list_beq_iff m.username n.username,
  list_beq_iff n.username m.username,
  list_beq_iff m.text n.text,
  list_beq_iff n.text m.text,
)

snoc-Distinct :
    (ms : List Message) (m : Message)
    → any (is_same_message m) ms ≡ false
    → Distinct ms
    → Distinct (ms ++ (m ∷ []))
unfolding any
snoc-Distinct [] m h d = (refl, tt)
snoc-Distinct (n ∷ ms) m h d =
    ground (arith, same_symm m n, any-append (is_same_message n) ms (m ∷ []), snoc-Distinct ms m)

any-drop :
    {A : Type 0} (p : A → Bool) (n : ℕ) (xs : List A) (x : A)
    → n ≤ length xs
    → p x ≡ true
    → any p (drop n (xs ++ (x ∷ []))) ≡ true
unfolding any
any-drop p zero [] x h e = ground arith
any-drop p zero (y ∷ xs) x h e = ground (arith, any-append p xs (x ∷ []))
any-drop p (suc n) [] x h e = elim h [ ]
any-drop p (suc n) (y ∷ xs) x h e = any-drop p n xs x (omega arith) e

any-last_hundred :
    {A : Type 0} (p : A → Bool) (xs : List A) (x : A)
    → p x ≡ true
    → any p (last_hundred (xs ++ (x ∷ []))) ≡ true
unfolding last_hundred any
any-last_hundred p xs x e = ground (
  arith,
  length-append xs (x ∷ []),
  any-append p xs (x ∷ []),
  any-drop p (length (xs ++ (x ∷ [])) - 100) xs x,
)

same_refl : (m : Message) → is_same_message m m ≡ true
unfolding is_same_message
same_refl m = ground (arith, list_beq_iff m.username m.username, list_beq_iff m.text m.text)

-- Adding a message keeps at most 100 messages, no two of them with the same author, text and time,
-- and afterwards the message itself, or the one that it repeats, is among them.
pub add_message-IsRecent :
    (now : ℕ) (m : Message) (c : MemoryCache)
    → IsRecent c.messages
    → IsRecent (add_message now m c).messages
      × (any (is_same_message m) (add_message now m c).messages ≡ true)
unfolding add_message
add_message-IsRecent now m c r = ground (
  arith,
  length-last_hundred (c.messages ++ (m ∷ [])),
  last_hundred-Distinct (c.messages ++ (m ∷ [])),
  snoc-Distinct c.messages m,
  any-last_hundred (is_same_message m) c.messages m (same_refl m),
)
