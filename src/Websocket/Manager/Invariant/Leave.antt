-- ===== src/Websocket/Manager/Invariant/Leave.antt =====
-- `Unregister` keeps the invariant.
use pigeongram_chat.Base.{
  ℕ, ◌+◌, ◌-◌, ◌≡◌, refl, sym, ◌∙◌, ap, subst, true, false, not, ◌&&◌, some, List, [], ◌∷◌, ◌==◌,
  nat_eq, list_eq, nat_beq_iff, list_beq_iff, length, All, arith, Bool-cases, inl, inr, any, select,
}
use pigeongram_chat.Base.Text.{Text}
use pigeongram_chat.Base.Dict.{
  Dict, lookup, insert, erase, lookup-insert, erase-NodupKeys, All-erase,
}
use pigeongram_chat.Base.Sorting.{All-mono}
use pigeongram_chat.Websocket.Client.{Client}
use pigeongram_chat.Websocket.Manager.{
  Outside, Manager, member, remove, close, dropped, offline, unregister,
}
use pigeongram_chat.Websocket.Manager.Deliver.{IsOpen, Holds, Distinct}
use pigeongram_chat.Websocket.Manager.Invariant.{IsValid, Listed, Owner}
use pigeongram_chat.Websocket.Manager.Invariant.Join.{broadcast_online_users-IsValid}

pub member-remove :
    (q r : ℕ) (refs : List ℕ) → member q (remove r refs) ≡ (member q refs && not (q == r))
unfolding member remove any select
member-remove q r [] = refl
member-remove q r (p ∷ refs) =
    ground (arith, member-remove q r refs, nat_beq_iff p r, nat_beq_iff p q, nat_beq_iff q r)

pub remove_absent : (r : ℕ) (refs : List ℕ) → member r refs ≡ false → remove r refs ≡ refs
unfolding member remove any select
remove_absent r [] e = refl
remove_absent r (p ∷ refs) e = ground (arith, remove_absent r refs)

length-remove :
    (r : ℕ) (refs : List ℕ)
    → Distinct refs
    → member r refs ≡ true
    → length (remove r refs) + 1 ≡ length refs
unfolding member remove any select
length-remove r [] d e = cc
length-remove r (p ∷ refs) d e = elim (Bool-cases (p == r)) [
  | inl hit ↦
      let absent : member r refs ≡ false =
        subst (λ q. member q refs ≡ false) ((nat_beq_iff p r).0 hit) (d.0) in
      rw hit (omega (arith, ap length (remove_absent r refs absent)))
  | inr miss ↦
      let rest = length-remove r refs (d.1) (ground (arith, miss)) in rw miss (omega (arith, rest))
]

pub insert_other :
    (p r : ℕ) (c : Client) (h : Dict ℕ Client)
    → (p == r) ≡ false
    → lookup p (insert r c h) ≡ lookup p h
insert_other p r c h e = ground (arith, lookup-insert p r c h, nat_beq_iff p r, nat_beq_iff r p)

pub remove-Distinct : (r : ℕ) (refs : List ℕ) → Distinct refs → Distinct (remove r refs)
unfolding remove select
remove-Distinct r [] d = tt
remove-Distinct r (p ∷ refs) d = ground (arith, remove-Distinct r refs d.1, member-remove p r refs)

remove-Holds :
    (r : ℕ) (c : Client) (h : Dict ℕ Client) (refs : List ℕ)
    → All (λ q. Holds (lookup q h)) refs
    → All (λ q. Holds (lookup q (insert r c h))) (remove r refs)
unfolding remove select
remove-Holds r c h [] a = tt
remove-Holds r c h (p ∷ refs) a = elim (Bool-cases (p == r)) [
  | inl e ↦ rw e (remove-Holds r c h refs a.1)
  | inr e ↦ rw e (subst Holds (sym (insert_other p r c h e)) (a.0), remove-Holds r c h refs a.1)
]

-- Who stays online when `c` leaves is another user, so another connection.
Listed-remove :
    (clients : List ℕ) (h : Dict ℕ Client) (r : ℕ) (c shut : Client) (u : Text) (q : ℕ)
    → lookup r h ≡ some c
    → Listed clients h (u, q)
    → (u == c.username) ≡ false
    → Listed (remove r clients) (insert r shut h) (u, q)
Listed-remove clients h r c shut u q e k other = elim (Bool-cases (q == r)) [
  | inl same ↦
      let here : Owner u (lookup r h) =
        subst (λ p. Owner u (lookup p h)) ((nat_beq_iff q r).0 same) (k.1) in
      let mine : c.username ≡ u = rw e at here in
      absurd (ground (arith, list_beq_iff u c.username, mine, other))
  | inr differ ↦ (
    ground (arith, member-remove q r clients, k.0, differ),
    subst (Owner u) (sym (insert_other q r shut h differ)) (k.1),
  )
]

module _ {W : Outside} (r : ℕ) (c : Client) (m : Manager W) where
  abbrev left : Manager W
  left = offline c.username (record m {
    clients = remove r m.clients;
    heap = insert r (record c { closed = true }) m.heap;
    metrics = record (m.metrics) { active_connections = m.metrics.active_connections - 1 };
  })

  left-IsValid : IsValid m → lookup r m.heap ≡ some c → member r m.clients ≡ true → IsValid left
  unfolding offline
  left-IsValid v e in_map = record {
    inv = record {
      distinct = remove-Distinct r m.clients v.inv.distinct;
      opens = remove-Holds r (record c { closed = true }) m.heap m.clients v.inv.opens;
      active_count =
          omega (arith, v.inv.active_count, length-remove r m.clients v.inv.distinct in_map);
      shown_count = refl;
      listed =
          All-mono
            (λ (u, q) k.
              Listed-remove m.clients m.heap r c (record c { closed = true }) u q e k.0 k.1)
            (erase c.username m.online_users)
            (All-erase (Listed m.clients m.heap) c.username m.online_users v.inv.listed);
      one_entry = erase-NodupKeys c.username m.online_users v.inv.one_entry;
    };
    repo = v.repo;
  }

  offline-IsValid : IsValid m → IsValid (offline c.username m)
  unfolding offline
  offline-IsValid v = record {
    inv = record {
      distinct = v.inv.distinct;
      opens = v.inv.opens;
      active_count = v.inv.active_count;
      shown_count = refl;
      listed =
          All-mono (λ (u, q) k. k.0) (erase c.username m.online_users)
            (All-erase (Listed m.clients m.heap) c.username m.online_users v.inv.listed);
      one_entry = erase-NodupKeys c.username m.online_users v.inv.one_entry;
    };
    repo = v.repo;
  }

-- A registered client is open.
pub member-Holds :
    (refs : List ℕ) (h : Dict ℕ Client) (r : ℕ)
    → All (λ q. Holds (lookup q h)) refs
    → member r refs ≡ true
    → Holds (lookup r h)
unfolding member any
member-Holds [] h r a e = absurd (ground arith)
member-Holds (p ∷ refs) h r a e = elim (Bool-cases (p == r)) [
  | inl hit ↦ subst (λ q. Holds (lookup q h)) ((nat_beq_iff p r).0 hit) (a.0)
  | inr miss ↦ member-Holds refs h r a.1 (ground (arith, miss))
]

module _ {W : Outside} (r : ℕ) (c : Client) (m : Manager W) where
  dropped_registered :
      member r m.clients ≡ true
      → c.closed ≡ false
      → dropped r c m
        ≡ some (record m {
          clients = remove r m.clients;
          heap = insert r (record c { closed = true }) m.heap;
          metrics = record (m.metrics) { active_connections = m.metrics.active_connections - 1 };
        })
  unfolding dropped close
  dropped_registered in_map still_open = rw in_map (rw still_open)

  dropped_unregistered : member r m.clients ≡ false → dropped r c m ≡ some m
  unfolding dropped
  dropped_unregistered out = rw out

  gone : member r (remove r m.clients) ≡ false
  gone = ground (arith, member-remove r r m.clients, nat_beq_iff r r)

  -- The handler for a client that is or was registered goes through and keeps the invariant. After it
  -- the client is not registered.
  pub unregister-IsValid :
      IsValid m
      → lookup r m.heap ≡ some c
      → (m' : Manager W) × (unregister r m ≡ some m') × IsValid m' × (member r m'.clients ≡ false)
  unfolding unregister offline
  unregister-IsValid v e = elim (Bool-cases (member r m.clients)) [
    | inl in_map ↦
        let held : IsOpen c = rw e at (member-Holds m.clients m.heap r v.inv.opens in_map) in
        let (m', done, v', same) =
          broadcast_online_users-IsValid (left r c m) (left-IsValid r c m v e in_map) in
        (
          m',
          rw (e, unregister) (rw (dropped_registered in_map held.still_open, unregister) done),
          v',
          ap (member r) same ∙ gone,
        )
    | inr out ↦
        let (m', done, v', same) =
          broadcast_online_users-IsValid (offline c.username m) (offline-IsValid r c m v) in
        (
          m',
          rw (e, unregister) (rw (dropped_unregistered out, unregister) done),
          v',
          ap (member r) same ∙ out,
        )
  ]
