-- ===== src/Tests/Servers.antt =====
-- The theorems on the registry of servers, at a Redis server that keeps its keys in a list.
use pigeongram_chat.Base.{
  ℕ, ◌+◌, ◌≡◌, refl, sym, subst, ◌∙◌, ap, Bool, true, false, ◌&&◌, ◌||◌, Option, none, some, List,
  [], ◌∷◌, ◌++◌, ◌==◌, nat_eq, list_eq, list_beq, list_beq_iff, if◌then◌else◌, any, All, arith,
  Bool-cases, Option-cases, inl, inr, ltb,
}
use pigeongram_chat.Base.Text.{Text, bytes}
use pigeongram_chat.Base.Dict.{Dict, lookup, insert, lookup-insert}
use pigeongram_chat.Base.Result.{ok}
use pigeongram_chat.Websocket.Registry.{
  HashServer, ServerRegistry, Event, Expires, Life, gone, lives, written, limited, registers, beats,
  leaves, run_event, run_events, get_active_servers, new_server_registry, in_time, is_silent,
}
use pigeongram_chat.Websocket.Registry.Alive.{register-stays_listed, silent-listed}

abbrev or_gone : Option Life → Life
or_gone none = gone
or_gone (some l) = l

abbrev life_in : Dict Text Life → Text → Life
life_in d k = or_gone (lookup k d)

abbrev behind : Text → Text → Option Text
behind [] k = some k
behind (c ∷ p) [] = none
behind (c ∷ p) (d ∷ k) = if c == d then behind p k else none

abbrev listed : Text → Bool → Option Text → List Text → List Text
listed p alive none rest = rest
listed p alive (some id) rest = if alive then (p ++ id) ∷ rest else rest

listing : Text → ℕ → Dict Text Life → Dict Text Life → List Text
listing p now whole [] = []
listing p now whole ((k, _) ∷ d) =
    listed p (lives now (life_in whole k)) (behind p k) (listing p now whole d)

abbrev redis : HashServer
redis = record {
  State = Dict Text Life;
  hset = λ k v now d. (ok tt, insert k (written now (life_in d k)) d);
  expire = λ k ttl now d. (ok tt, insert k (limited ttl now (life_in d k)) d);
  del = λ k now d. (ok tt, insert k gone d);
  keys = λ p now d. ok (listing p now d d);
  exists = λ k now d. ok (if lives now (life_in d k) then 1 else 0);
}

life_in-insert :
    (k j : Text) (l : Life) (d : Dict Text Life)
    → life_in (insert k l d) j ≡ (if k == j then l else life_in d j)
life_in-insert k j l d = elim (Bool-cases (k == j)) [
  | inl e ↦ rw (lookup-insert j k l d, e) refl
  | inr e ↦ rw (lookup-insert j k l d, e) refl
]

-- A change of the life of one key.
changed :
    (f : Life → Life) (k j : Text) (d : Dict Text Life)
    → life_in (insert k (f (life_in d k)) d) j ≡ (if k == j then f (life_in d j) else life_in d j)
changed f k j d = elim (Bool-cases (k == j)) [
  | inl e ↦
      life_in-insert k j (f (life_in d k)) d
      ∙ rw e (ap (λ i. f (life_in d i)) ((list_beq_iff k j).0 e))
  | inr e ↦ life_in-insert k j (f (life_in d k)) d ∙ rw e refl
]

behind-append : (p id : Text) → behind p (p ++ id) ≡ some id
behind-append [] id = refl
behind-append (c ∷ p) id = ground (arith, behind-append p id)

behind-is : (p k id : Text) → behind p k ≡ some id → k ≡ p ++ id
behind-is [] k id h = cc
behind-is (c ∷ p) [] id h = cc
behind-is (c ∷ p) (d ∷ k) id h = ground (arith, behind-is p k id)

abbrev has_key : Text → Dict Text Life → Bool
has_key k [] = false
has_key k ((j, _) ∷ d) = (j == k) || has_key k d

All-listed :
    (p : Text) (alive : Bool) (o : Option Text) (rest : List Text)
    → All (λ k. (id : Text) × (k ≡ p ++ id)) rest
    → All (λ k. (id : Text) × (k ≡ p ++ id)) (listed p alive o rest)
All-listed p alive none rest a = a
All-listed p true (some id) rest a = ((id, refl), a)
All-listed p false (some id) rest a = a

All-listing :
    (p : Text) (now : ℕ) (whole d : Dict Text Life)
    → All (λ k. (id : Text) × (k ≡ p ++ id)) (listing p now whole d)
unfolding listing
All-listing p now whole [] = tt
All-listing p now whole ((k, l) ∷ d) =
    All-listed p (lives now (life_in whole k)) (behind p k) _ (All-listing p now whole d)

not_behind : (p k id : Text) → behind p k ≡ none → (k == (p ++ id)) ≡ false
not_behind p k id h = elim (Bool-cases (k == (p ++ id))) [
  | inl e ↦
      cc (
        sym (subst (λ k. behind p k ≡ none) ((list_beq_iff k (p ++ id)).0 e) h)
        ∙ behind-append p id)
  | inr e ↦ e
]

counted :
    (k j : Text) (alive : Bool) (rest : List Text) (found there : Bool)
    → any (λ i. i == j) rest ≡ (found && there)
    → ((k == j) ≡ true → alive ≡ there)
    → any (λ i. i == j) (if alive then k ∷ rest else rest) ≡ (((k == j) || found) && there)
unfolding any
counted k j true rest found there h same = ground (arith, h)
counted k j false rest found there h same = ground (arith, h)

any-listing :
    (p id : Text) (now : ℕ) (whole d : Dict Text Life)
    → any (λ k. k == (p ++ id)) (listing p now whole d)
      ≡ (has_key (p ++ id) d && lives now (life_in whole (p ++ id)))
unfolding listing any
any-listing p id now whole [] = refl
any-listing p id now whole ((k, l) ∷ d) = elim (Option-cases (behind p k)) [
  | inl e ↦ rw (e, not_behind p k id e) (any-listing p id now whole d)
  | inr (i, e) ↦
      rw (e, behind-is p k i e)
        (counted (p ++ i) (p ++ id) (lives now (life_in whole (p ++ i))) _ _ _
          (any-listing p id now whole d)
          (λ same.
            ap (λ n. lives now (life_in whole n)) ((list_beq_iff (p ++ i) (p ++ id)).0 same)))
]

life-has_key :
    (k : Text) (now : ℕ) (d : Dict Text Life)
    → (has_key k d && lives now (life_in d k)) ≡ lives now (life_in d k)
unfolding lookup
life-has_key k now [] = refl
life-has_key k now ((j, l) ∷ d) = elim (Bool-cases (j == k)) [
  | inl e ↦ rw e refl
  | inr e ↦ rw e (life-has_key k now d)
]

redis-Expires : Expires redis
redis-Expires = record {
  life = λ k d. life_in d k;
  hset_answers = λ k v now d. refl;
  hset_life = λ k v now d j. changed (written now) k j d;
  expire_life = λ k ttl now d j. changed (limited ttl now) k j d;
  del_life = λ k now d j. life_in-insert k j gone d;
  keys_listed = λ p now d. (
    listing p now d d,
    refl,
    λ id. any-listing p id now d d ∙ life-has_key (p ++ id) now d,
    All-listing p now d d,
  );
  exists_found = λ k now d. refl;
}

abbrev stamp : ℕ → Text
stamp t = bytes "2024-01-01T00:00:00Z"

abbrev mine : ServerRegistry
mine = new_server_registry (bytes "a")

abbrev yours : ServerRegistry
yours = new_server_registry (bytes "b")

abbrev traffic : List Event
traffic = beats mine 5000000000 ∷ leaves yours 6000000000 ∷ beats mine 10000000000 ∷ []

register-stays_listed_example :
    (ids : List Text) × (get_active_servers redis stamp 19000000000
        (run_events redis stamp traffic (run_event redis stamp (registers mine 0) []))
      ≡ ok ids)
    × (any (λ j. j == bytes "a") ids ≡ true)
unfolding in_time new_server_registry list_beq
register-stays_listed_example =
    register-stays_listed redis stamp redis-Expires mine 0 traffic 19000000000 [] refl

silent-listed_example :
    ((ids : List Text) × (get_active_servers redis stamp 9 (
          run_events redis stamp (registers yours 8 ∷ []) (run_event redis stamp (beats mine 7) []))
        ≡ ok ids)
      × (any (λ j. j == bytes "a") ids ≡ ltb 9 (7 + mine.ttl)))
    × ((ids : List Text) × (get_active_servers redis stamp 9 (
            run_events redis stamp
              (registers yours 8 ∷ [])
              (run_event redis stamp (leaves mine 7) []))
          ≡ ok ids)
        × (any (λ j. j == bytes "a") ids ≡ false))
unfolding is_silent new_server_registry list_beq
silent-listed_example =
    silent-listed redis stamp redis-Expires mine 7 (registers yours 8 ∷ []) 9 [] refl
