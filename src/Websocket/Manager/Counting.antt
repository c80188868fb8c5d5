-- ===== src/Websocket/Manager/Counting.antt =====
-- A delivery to the clients of the manager in two orders: the same for every client, and the same count
-- of full channels.
use pigeongram_chat.Base.{
  ℕ, suc, ◌+◌, ◌≡◌, refl, sym, ◌∙◌, ap, subst, Bool, true, false, ◌&&◌, Option, none, some, List,
  [], ◌∷◌, ◌==◌, nat_eq, nat_beq_iff, beq_refl, if◌then◌else◌, any, select, arith, Option-cases,
  Bool-cases, inl, inr, All,
}
use mathlib.Core.Option.{some-injective, none-ne-some}
use pigeongram_chat.Base.Dict.{Dict, lookup, insert}
use pigeongram_chat.Websocket.Client.{Client}
use pigeongram_chat.Websocket.Manager.{Send, deliver, member, remove}
use pigeongram_chat.Websocket.Manager.Deliver.{Distinct, Holds, Works, touched, deliver-touched}
use pigeongram_chat.Websocket.Manager.Invariant.Leave.{
  remove_absent, insert_other, remove-Distinct, member-remove,
}

-- Whether the channel of a client is full, as a number.
abbrev full_at : Send → Option Client → ℕ
full_at send none = 0
full_at send (some c) = elim (send c) [ none ↦ 0 | some (c', full) ↦ if full then 1 else 0 ]

abbrev fulls : Send → Dict ℕ Client → List ℕ → ℕ
fulls send h [] = 0
fulls send h (r ∷ refs) = full_at send (lookup r h) + fulls send h refs

fulls-insert :
    (send : Send) (r : ℕ) (c : Client) (h : Dict ℕ Client) (refs : List ℕ)
    → member r refs ≡ false
    → fulls send (insert r c h) refs ≡ fulls send h refs
unfolding member any
fulls-insert send r c h [] e = refl
fulls-insert send r c h (q ∷ refs) e =
    let other : (q == r) ≡ false = ground (arith, e) in
    let rest : member r refs ≡ false = ground (arith, e) in
    omega (arith, ap (full_at send) (insert_other q r c h other), fulls-insert send r c h refs rest)

counted :
    (full : Bool) (k n : ℕ) (h h' : Dict ℕ Client)
    → Path (Option (Dict ℕ Client × ℕ)) (some (h, if full then suc k else k)) (some (h', n))
    → n ≡ (if full then 1 else 0) + k
counted true k n h h' e = omega (arith, ap (λ (p : Dict ℕ Client × ℕ). p.1) (some-injective _ _ e))
counted false k n h h' e = omega (arith, ap (λ (p : Dict ℕ Client × ℕ). p.1) (some-injective _ _ e))

-- The number of full channels that a delivery counts.
deliver-fulls :
    (send : Send) (refs : List ℕ) (h h' : Dict ℕ Client) (n : ℕ)
    → Distinct refs
    → deliver send refs h ≡ some (h', n)
    → n ≡ fulls send h refs
unfolding deliver
deliver-fulls send [] h h' n d e = sym (ap (λ (p : Dict ℕ Client × ℕ). p.1) (some-injective _ _ e))
deliver-fulls send (r ∷ refs) h h' n d e = elim (Option-cases (lookup r h)) [
  | inl l ↦ absurd (none-ne-some _ (rw (l, deliver) at e))
  | inr (c, l) ↦ elim (Option-cases (send c)) [
    | inl s ↦ absurd (none-ne-some _ (rw (l, deliver, s) at e))
    | inr ((c', full), s) ↦ elim (Option-cases (deliver send refs (insert r c' h))) [
      | inl t ↦ absurd (none-ne-some _ (rw (l, deliver, s, t) at e))
      | inr ((h'', k), t) ↦
          rw (l, full_at, s)
            (counted full k n h'' h' (rw (l, deliver, s, t) at e)
              ∙ ap (λ j. (if full then 1 else 0) + j)
                  (deliver-fulls send refs (insert r c' h) h'' k d.1 t
                    ∙ fulls-insert send r c' h refs d.0))
    ]
  ]
]

fulls-remove :
    (send : Send) (h : Dict ℕ Client) (r : ℕ) (refs : List ℕ)
    → Distinct refs
    → member r refs ≡ true
    → fulls send h refs ≡ full_at send (lookup r h) + fulls send h (remove r refs)
unfolding member remove any select
fulls-remove send h r [] d e = cc
fulls-remove send h r (p ∷ refs) d e = elim (Bool-cases (p == r)) [
  | inl hit ↦
      let same = (nat_beq_iff p r).0 hit in
      let absent : member r refs ≡ false = subst (λ q. member q refs ≡ false) same d.0 in
      rw hit (
        omega (
          arith,
          ap (fulls send h) (remove_absent r refs absent),
          ap (λ q. full_at send (lookup q h)) same,
        ))
  | inr miss ↦
      let rest = fulls-remove send h r refs d.1 (ground (arith, e, miss)) in
      rw miss (omega (arith, rest))
]

and_false : (b : Bool) → (b && false) ≡ false
and_false b = ground arith

false-ne-true : {A : Type 0} → false ≡ true → A
false-ne-true e = cc

-- The members of a list without its head.
member-tail :
    (q r : ℕ) (refs others : List ℕ)
    → member r refs ≡ false
    → member q (r ∷ refs) ≡ member q others
    → member q refs ≡ member q (remove r others)
unfolding member any
member-tail q r refs others d e = elim (Bool-cases (q == r)) [
  | inl hit ↦
      subst (λ p. member p refs ≡ member p (remove r others)) (sym ((nat_beq_iff q r).0 hit))
        (d ∙ sym (member-remove r r others ∙ rw (beq_refl r) (and_false (member r others))))
  | inr miss ↦ sym (
      member-remove q r others
      ∙ rw (miss, sym e) (ground (arith, nat_beq_iff q r, nat_beq_iff r q, miss)))
]

-- Two orders of one set of clients count the same.
fulls-same :
    (send : Send) (h : Dict ℕ Client) (refs others : List ℕ)
    → Distinct refs
    → Distinct others
    → ((q : ℕ) → member q refs ≡ member q others)
    → fulls send h refs ≡ fulls send h others
unfolding member any
fulls-same send h [] [] d d' same = refl
fulls-same send h [] (q ∷ others) d d' same = false-ne-true (same q ∙ rw (beq_refl q) refl)
fulls-same send h (r ∷ refs) others d d' same =
    let there : member r others ≡ true = sym (same r) ∙ rw (beq_refl r) refl in
    let rest =
      fulls-same send h refs (remove r others) d.1 (remove-Distinct r others d')
        (λ q. member-tail q r refs others d.0 (same q)) in
    omega (arith, rest, fulls-remove send h r others d' there)

-- A delivery in another order makes the same of every client, and counts the same.
pub deliver-any_order :
    {send : Send} {after : Client → Client} (w : Works send after) (refs others : List ℕ)
    (h : Dict ℕ Client)
    → Distinct refs
    → Distinct others
    → ((q : ℕ) → member q refs ≡ member q others)
    → All (λ q. Holds (lookup q h)) refs
    → All (λ q. Holds (lookup q h)) others
    → (h1 : Dict ℕ Client) × (h2 : Dict ℕ Client) × (n : ℕ) × (deliver send refs h ≡ some (h1, n))
      × (deliver send others h ≡ some (h2, n))
      × ((q : ℕ) → lookup q h1 ≡ lookup q h2)
deliver-any_order {send} {after} w refs others h d d' same a a' =
    let (h1, n1, done1, spec1) = deliver-touched w refs h d a in
    let (h2, n2, done2, spec2) = deliver-touched w others h d' a' in
    let counts : n2 ≡ n1 =
      deliver-fulls send others h h2 n2 d' done2
      ∙ sym (fulls-same send h refs others d d' same)
      ∙ sym (deliver-fulls send refs h h1 n1 d done1) in
    (
      h1,
      h2,
      n1,
      done1,
      done2 ∙ ap (λ n. some (h2, n)) counts,
      λ q. spec1 q ∙ same_touched after refs others q (lookup q h) (same q) ∙ sym (spec2 q),
    )
  where
    same_touched :
        (after : Client → Client) (refs others : List ℕ) (q : ℕ) (o : Option Client)
        → member q refs ≡ member q others
        → touched after refs q o ≡ touched after others q o
    same_touched after refs others q none e = refl
    same_touched after refs others q (some c) e = ap (λ b. if b then some (after c) else some c) e
