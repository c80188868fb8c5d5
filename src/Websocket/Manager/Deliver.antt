-- ===== src/Websocket/Manager/Deliver.antt =====
-- A delivery to all clients of the manager: it succeeds when all of them are open, and changes just
-- those.
use pigeongram_chat.Base.{
  ℕ, suc, ◌≤◌, ◌≡◌, refl, ◌∙◌, inl, inr, Bool, true, false, Option, none, some, List, [], ◌∷◌, ◌==◌,
  nat_eq, nat_beq_iff, if◌then◌else◌, length, any, All, arith, Option-cases,
}
use pigeongram_chat.Base.Dict.{Dict, lookup, insert, lookup-insert}
use pigeongram_chat.Websocket.Client.{Client}
use pigeongram_chat.Websocket.Manager.{Send, member, deliver}

-- A client whose channels are open and hold no more than they can.
pub record IsOpen (c : Client) : Type 0 where
  pub still_open : c.closed ≡ false
  pub send_fits : length c.send ≤ 256
  pub files_fit : length c.send_file_event ≤ 32
  pub online_fits : length c.send_online ≤ 8

abbrev pub Holds : Option Client → Type 0
Holds none = ⊥
Holds (some c) = IsOpen c

-- No address stands twice.
abbrev pub Distinct : List ℕ → Type 0
Distinct [] = Unit {0}
Distinct (r ∷ refs) = (member r refs ≡ false) × Distinct refs

-- A send that an open client takes: what it makes of the client, which stays open.
pub record Works (send : Send) (after : Client → Client) : Type 0 where
  pub sent : (c : Client) → IsOpen c → (full : Bool) × (send c ≡ some (after c, full))
  pub stays : (c : Client) → IsOpen c → IsOpen (after c)

-- What the heap holds at an address after a delivery to the addresses `refs`.
abbrev pub touched : (Client → Client) → List ℕ → ℕ → Option Client → Option Client
touched after refs r none = none
touched after refs r (some c) = if member r refs then some (after c) else some c

Holds-if :
    (b : Bool) (c : Client) (o : Option Client)
    → IsOpen c
    → Holds o
    → Holds (if b then some c else o)
Holds-if true c o h k = h
Holds-if false c o h k = k

Holds-insert :
    (q r : ℕ) (c : Client) (h : Dict ℕ Client)
    → IsOpen c
    → Holds (lookup q h)
    → Holds (lookup q (insert r c h))
Holds-insert q r c h o k = rw (lookup-insert q r c h) (Holds-if (r == q) c (lookup q h) o k)

pub All-insert :
    (refs : List ℕ) (r : ℕ) (c : Client) (h : Dict ℕ Client)
    → IsOpen c
    → All (λ q. Holds (lookup q h)) refs
    → All (λ q. Holds (lookup q (insert r c h))) refs
All-insert [] r c h o a = tt
All-insert (q ∷ refs) r c h o a = (Holds-insert q r c h o a.0, All-insert refs r c h o a.1)

module _ {send : Send} {after : Client → Client} (w : Works send after) where
  touched-nil : (q : ℕ) (o : Option Client) → o ≡ touched after [] q o
  unfolding member any
  touched-nil q none = refl
  touched-nil q (some c) = refl

  touched-cons :
      (q r : ℕ) (refs : List ℕ) (c : Client) (h : Dict ℕ Client)
      → member r refs ≡ false
      → lookup r h ≡ some c
      → touched after refs q (lookup q (insert r (after c) h))
        ≡ touched after (r ∷ refs) q (lookup q h)
  unfolding member any
  touched-cons q r refs c h d e = ground (arith, lookup-insert q r (after c) h, nat_beq_iff r q)

  pub touched-Holds :
      (refs : List ℕ) (q : ℕ) (o : Option Client) → Holds o → Holds (touched after refs q o)
  touched-Holds refs q none k = k
  touched-Holds refs q (some c) k = Holds-if (member q refs) (after c) (some c) (w.stays c k) k

  -- With all addressed clients open, the delivery goes through, and turns each of them into what the
  -- send makes of it; every other client stays as it was.
  pub deliver-touched :
      (refs : List ℕ) (h : Dict ℕ Client)
      → Distinct refs
      → All (λ q. Holds (lookup q h)) refs
      → (h' : Dict ℕ Client) × (n : ℕ) × (deliver send refs h ≡ some (h', n))
        × ((q : ℕ) → lookup q h' ≡ touched after refs q (lookup q h))
  unfolding deliver
  deliver-touched [] h d a = (h, 0, refl, λ q. touched-nil q (lookup q h))
  deliver-touched (r ∷ refs) h d a = elim (Option-cases (lookup r h)) [
    | inl e ↦ absurd (rw e at (a.0))
    | inr (c, e) ↦
        let open_c : IsOpen c = rw e at (a.0) in
        let (full, done) = w.sent c open_c in
        let (h', n, rest, spec) =
          deliver-touched refs (insert r (after c) h) d.1
            (All-insert refs r (after c) h (w.stays c open_c) a.1) in
        (
          h',
          (if full then suc n else n),
          rw (e, deliver) (rw (done, deliver) (rw (rest, deliver))),
          λ q. spec q ∙ touched-cons q r refs c h d.0 e,
        )
  ]
