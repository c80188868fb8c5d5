-- ===== src/Websocket/Fleet/Isolated.antt =====
-- What the documents on Redis do to the servers.
use pigeongram_chat.Base.{
  ℕ, zero, suc, ◌≡◌, refl, sym, ◌∙◌, ap, subst, ◌&&◌, Option, none, some, List, [], ◌∷◌, map,
  select, All, if-both, Option-cases, inl, inr,
}
use mathlib.Core.Option.{some-injective}
use pigeongram_chat.Base.Text.{Text}
use pigeongram_chat.Websocket.Manager.{Outside, Manager, Published}
use pigeongram_chat.Websocket.Manager.Cluster.{process_redis_message}
use pigeongram_chat.Websocket.Manager.Remote.{process_redis_message-wrapped}
use pigeongram_chat.Websocket.Manager.Run.{step, new_manager}
use pigeongram_chat.Websocket.Fleet.{
  Member, Turn, acts, relays, is_subscribed, is_own, nth, put, settle, works, given, share,
  works_at, delivered, document, turn, turns, start_fleet,
}
use pigeongram_chat.Websocket.Fleet.Wrapping.{IsWrapped, Wrapped, Wraps}
use pigeongram_chat.Websocket.Fleet.Wrapping.Steps.{step-Wraps}

nth-All {ℓ} :
    {A : Type ℓ} (P : A → Type 0) (i : ℕ) (xs : List A) (x : A) → All P xs → nth i xs ≡ some x → P x
nth-All P i [] x a e = cc
nth-All P zero (y ∷ ys) x a e = subst P (some-injective _ _ e) a.0
nth-All P (suc i) (y ∷ ys) x a e = nth-All P i ys x a.1 e

put-All {ℓ} :
    {A : Type ℓ} (P : A → Type 0) (i : ℕ) (xs : List A) (x : A)
    → All P xs
    → P x
    → All P (put i x xs)
put-All P i [] x a p = tt
put-All P zero (y ∷ ys) x a p = (p, a.1)
put-All P (suc i) (y ∷ ys) x a p = (a.0, put-All P i ys x a.1 p)

put-same {ℓ} : {A : Type ℓ} (i : ℕ) (xs : List A) (x : A) → nth i xs ≡ some x → put i x xs ≡ xs
put-same i [] x e = refl
put-same zero (y ∷ ys) x e = ap (λ z. z ∷ ys) (sym (some-injective _ _ e))
put-same (suc i) (y ∷ ys) x e = ap (λ zs. y ∷ zs) (put-same i ys x e)

module _ {W : Outside} where
  -- All servers see these tables and this cache.
  abbrev Agrees : W.database.State → W.cache.State → List (Member W) → Type 0
  Agrees d c members = All (λ b. (b.manager.database ≡ d) × (b.manager.cache ≡ c)) members

  -- All servers see the same tables and cache, and have published envelopes only.
  record IsFleet (members : List (Member W)) : Type 0 where
    database : W.database.State
    cache : W.cache.State
    agrees : Agrees database cache members
    wraps : All (λ b. Wrapped b.manager) members

  share-Agrees :
      (b : Member W) (l : List (Member W)) → Agrees b.manager.database b.manager.cache (share b l)
  share-Agrees b [] = tt
  share-Agrees b (x ∷ l) = ((refl, refl), share-Agrees b l)

  share-Wrapped :
      (b : Member W) (l : List (Member W))
      → All (λ x. Wrapped x.manager) l
      → All (λ x. Wrapped x.manager) (share b l)
  share-Wrapped b [] a = tt
  share-Wrapped b (x ∷ l) a = (a.0, share-Wrapped b l a.1)

  given-same :
      (d : W.database.State) (c : W.cache.State) (l : List (Member W))
      → Agrees d c l
      → map (given d c) l ≡ l
  given-same d c [] a = refl
  given-same d c (x ∷ l) a =
      ap (λ t. given d t x ∷ map (given d c) l) (sym a.0.1)
      ∙ ap (λ t. given t x.manager.cache x ∷ map (given d c) l) (sym a.0.0)
      ∙ ap (λ t. x ∷ t) (given-same d c l a.1)

  works-Wrapped :
      (f : Manager W → Option (Manager W)) (b : Member W)
      → ((m : Manager W) → Wrapped m → Wraps (f m))
      → Wrapped b.manager
      → Wrapped (works f b).manager
  unfolding works settle
  works-Wrapped f b keeps w =
      if-both (λ (x : Member W). Wrapped x.manager) b.up (settled (f b.manager) (keeps _ w)) w
    where
      settled : (o : Option (Manager W)) → Wraps o → Wrapped (settle o b).manager
      settled none v = w
      settled (some m) v = v

  works_at-IsFleet :
      (f : Manager W → Option (Manager W)) (i : ℕ) (l : List (Member W))
      → ((m : Manager W) → Wrapped m → Wraps (f m))
      → IsFleet l
      → IsFleet (works_at f i l)
  unfolding works_at
  works_at-IsFleet f i l keeps v = elim (Option-cases (nth i l)) [
    | inl e ↦ rw (e, works_at) v
    | inr (b, e) ↦
        rw (e, works_at)
          (record {
            database = (works f b).manager.database;
            cache = (works f b).manager.cache;
            agrees = share-Agrees (works f b) (put i (works f b) l);
            wraps = share-Wrapped (works f b) (put i (works f b) l) (
                put-All (λ x. Wrapped x.manager) i l (works f b) v.wraps
                  (works-Wrapped f b keeps (nth-All (λ x. Wrapped x.manager) i l b v.wraps e)));
          })
  ]

  -- A server that does nothing leaves all as it was.
  works_at-same :
      (f : Manager W → Option (Manager W)) (i : ℕ) (l : List (Member W))
      → ((m : Manager W) → f m ≡ some m)
      → IsFleet l
      → works_at f i l ≡ l
  unfolding works_at works settle
  works_at-same f i l idle v = elim (Option-cases (nth i l)) [
    | inl e ↦ rw (e, works_at) refl
    | inr (b, e) ↦
        let same : works f b ≡ b =
          if-both (λ (x : Member W). x ≡ b) b.up (ap (λ o. settle o b) (idle b.manager)) refl in
        let (d, c) =
          nth-All (λ x. (x.manager.database ≡ v.database) × (x.manager.cache ≡ v.cache)) i l b
            v.agrees e in
        rw (e, works_at)
          (ap (λ x. share x (put i x l)) same
            ∙ ap (share b) (put-same i l b e)
            ∙ given-same b.manager.database b.manager.cache l (
                subst (λ s. Agrees s b.manager.cache l) (sym d)
                  (subst (λ s. Agrees v.database s l) (sym c) v.agrees)))
  ]

  delivered-same : (p : Published) (m : Manager W) → IsWrapped p → delivered p m ≡ some m
  unfolding delivered
  delivered-same p m (id, text, e) =
      if-both (λ o. o ≡ some m) (m.has_redis && is_subscribed p.channel)
        (ap (λ j. process_redis_message j m) e ∙ process_redis_message-wrapped id text m) refl

  document-IsWrapped :
      (k : ℕ) (o : Option (Member W)) (p : Published)
      → ((b : Member W) → o ≡ some b → Wrapped b.manager)
      → document k o ≡ some p
      → IsWrapped p
  document-IsWrapped k none p w e = cc
  document-IsWrapped k (some b) p w e = nth-All IsWrapped k b.manager.published p (w b refl) e

  relays-same : (i k j : ℕ) (l : List (Member W)) → IsFleet l → turn (relays i k j) l ≡ l
  unfolding turn
  relays-same i k j l v = elim (Option-cases (document k (nth i l))) [
    | inl e ↦ rw (e, turn) refl
    | inr (p, e) ↦
        let w =
          document-IsWrapped k (nth i l) p
            (λ b at. nth-All (λ x. Wrapped x.manager) i l b v.wraps at) e in
        rw (e, turn) (works_at-same (delivered p) j l (λ m. delivered-same p m w) v)
  ]

  turn-IsFleet : (t : Turn) (l : List (Member W)) → IsFleet l → IsFleet (turn t l)
  unfolding turn
  turn-IsFleet (acts i e) l v = works_at-IsFleet (step e) i l (step-Wraps e) v
  turn-IsFleet (relays i k j) l v = subst IsFleet (sym (relays-same i k j l v)) v

  turns-isolated :
      (ts : List Turn) (l : List (Member W)) → IsFleet l → turns ts l ≡ turns (select is_own ts) l
  unfolding turns select
  turns-isolated [] l v = refl
  turns-isolated (acts i e ∷ ts) l v = turns-isolated ts _ (turn-IsFleet (acts i e) l v)
  turns-isolated (relays i k j ∷ ts) l v =
      ap (turns ts) (relays-same i k j l v) ∙ turns-isolated ts l v

  start_fleet-IsFleet :
      (d : W.database.State) (c : W.cache.State) (names : List Text)
      → IsFleet (start_fleet W d c names)
  unfolding start_fleet new_manager
  start_fleet-IsFleet d c names = record {
    database = d;
    cache = c;
    agrees = all_agree names;
    wraps = none_published names;
  }
    where
      all_agree : (names : List Text) → Agrees d c (start_fleet W d c names)
      all_agree [] = tt
      all_agree (name ∷ names) = ((refl, refl), all_agree names)

      none_published : (names : List Text) → All (λ b. Wrapped b.manager) (start_fleet W d c names)
      none_published [] = tt
      none_published (name ∷ names) = (tt, none_published names)

  -- The servers of a cluster do not reach one another through Redis: from their start on the same
  -- tables and cache, after any events of each and any documents that were relayed between them, in any
  -- order, every server is in the state that it would be in if no document had been relayed.
  pub turns-without_relays :
      (d : W.database.State) (c : W.cache.State) (names : List Text) (ts : List Turn)
      → turns ts (start_fleet W d c names) ≡ turns (select is_own ts) (start_fleet W d c names)
  turns-without_relays d c names ts = turns-isolated ts _ (start_fleet-IsFleet d c names)
