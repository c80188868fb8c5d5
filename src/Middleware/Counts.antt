-- ===== src/Middleware/Counts.antt =====
-- What the counters of requests show.
use pigeongram_chat.Base.{
  ℕ, ◌+◌, ◌≡◌, refl, ap, Option, none, some, List, [], ◌∷◌, ◌==◌, nat_eq, list_eq, list_beq_iff,
  if◌then◌else◌, arith, ◌∙◌, Bool-cases, inl, inr, Bool, true, false, not, ◌&&◌, all, suc, list_beq,
}
use pigeongram_chat.Base.Text.{Text, bytes}
use pigeongram_chat.Base.Dict.{lookup-insert, insert}
use pigeongram_chat.Storage.{decimal}
use pigeongram_chat.Middleware.{
  Call, writes_header, writes, ResponseWriter, calls, call, fresh_writer, Request, Counters, labels,
  shown, increment, counted_status, serve, serve_all,
}

-- The last status that a handler wrote, if any.
abbrev pub last_status : ℕ → List Call → ℕ
last_status status [] = status
last_status status (writes_header code ∷ cs) = last_status code cs
last_status status (writes b ∷ cs) = last_status status cs

-- The digits of a status.
abbrev pub status_text : ℕ → Text
status_text n = decimal (suc n) n []

-- Values of the labels for the method, the path and the status of a request.
pub record Values : Type 0 where
  pub method : Text
  pub path : Text
  pub status : Text

abbrev pub label_of : Values → List Text
label_of v = v.method ∷ v.path ∷ v.status ∷ []

module _ (accepts : Text → Bool) where
  -- Whether a request is answered outside the websocket, with a method, a path and a status that
  -- Prometheus accepts and that are these, as a number; a handler that writes no status answers with
  -- 200, one that panics does not answer.
  abbrev pub hits : Values → Request → Option (List Call) → ℕ
  hits v r none = 0
  hits v r (some cs) =
      if r.path == bytes "/ws"
      then 0
      else if not (accepts r.method && accepts r.path && accepts (status_text (last_status 200 cs)))
      then 0
      else if r.method == v.method
          && r.path == v.path
          && status_text (last_status 200 cs) == v.status
      then 1
      else 0

  -- How many of the requests are answered so.
  abbrev pub hits_of : (Request → Option (List Call)) → Values → List Request → ℕ
  hits_of next v [] = 0
  hits_of next v (r ∷ rs) = hits v r (next r) + hits_of next v rs

status_code-calls :
    (cs : List Call) (w : ResponseWriter) → (calls cs w).status_code ≡ last_status w.status_code cs
unfolding calls call
status_code-calls [] w = refl
status_code-calls (writes_header code ∷ cs) w = status_code-calls cs _
status_code-calls (writes b ∷ cs) w = status_code-calls cs _

shown-insert :
    (label other : List Text) (d : Counters)
    → shown label (insert other (shown other d + 1) d)
      ≡ shown label d + (if other == label then 1 else 0)
shown-insert label other d = elim (Bool-cases (other == label)) [
  | inl e ↦
      rw (lookup-insert label other (shown other d + 1) d, e)
        (ap (λ l. shown l d + 1) ((list_beq_iff other label).0 e))
  | inr e ↦ rw (lookup-insert label other (shown other d + 1) d, e) (omega arith)
]

shown-add_zero : (n : ℕ) → n ≡ n + 0
shown-add_zero n = omega arith

and_true : (a b c : Bool) → (a && (b && (c && true))) ≡ (a && b && c)
and_true a b c = ground arith

-- The labels of a request are the values just if its method, path and status are.
same_labels :
    (v : Values) (r : Request) (status : ℕ)
    → (labels r status == label_of v)
      ≡ (r.method == v.method && r.path == v.path && status_text status == v.status)
unfolding labels list_beq
same_labels v r status =
    and_true (r.method == v.method) (r.path == v.path) (status_text status == v.status)

taken : (a b c : Bool) → (a && b && c) ≡ true → (a && (b && (c && true))) ≡ true
taken a b c e = and_true a b c ∙ e

refused : (a b c : Bool) → (a && b && c) ≡ false → (a && (b && (c && true))) ≡ false
refused a b c e = and_true a b c ∙ e

module _ (accepts : Text → Bool) (next : Request → Option (List Call)) where
  shown-serve :
      (v : Values) (r : Request) (d : Counters) (o : Option (List Call))
      → next r ≡ o
      → shown (label_of v) (serve accepts next r d) ≡ shown (label_of v) d + hits accepts v r o
  unfolding serve counted_status increment all labels
  shown-serve v r d none e = rw (e, serve, counted_status) (shown-add_zero _)
  shown-serve v r d (some cs) e = elim (Bool-cases (r.path == bytes "/ws")) [
    | inl ws ↦ rw (e, serve, counted_status, ws) (shown-add_zero _)
    | inr other ↦
        let status = last_status 200 cs in
        elim (Bool-cases (accepts r.method && accepts r.path && accepts (status_text status))) [
          | inl good ↦
              rw
                (
                  e,
                  serve,
                  counted_status,
                  other,
                  status_code-calls cs fresh_writer,
                  increment,
                  taken _ _ _ good,
                  good,
                )
                (shown-insert (label_of v) (labels r status) d
                  ∙ ap (λ b. shown (label_of v) d + (if b then 1 else 0)) (same_labels v r status))
          | inr bad ↦
              rw
                (
                  e,
                  serve,
                  counted_status,
                  other,
                  status_code-calls cs fresh_writer,
                  increment,
                  refused _ _ _ bad,
                  bad,
                )
                (shown-add_zero _)
        ]
  ]

  -- After any requests, the counter for a method, a path and a status shows as many more as there were
  -- requests with this method and path, not for the websocket, that the handler answered with this
  -- status as the last that it wrote, 200 if it wrote none. A request counts nowhere if the handler
  -- panics, or if Prometheus refuses its method, path or status as the value of a label.
  pub serve_all-counts :
      (v : Values) (rs : List Request) (d : Counters)
      → shown (label_of v) (serve_all accepts next rs d)
        ≡ shown (label_of v) d + hits_of accepts next v rs
  unfolding serve_all
  serve_all-counts v [] d = omega arith
  serve_all-counts v (r ∷ rs) d =
      omega (arith, serve_all-counts v rs (serve accepts next r d), shown-serve v r d (next r) refl)
