-- ===== src/Tests/Documents.antt =====
-- A text for times and one for documents that are read back as they were written.
use pigeongram_chat.Base.{
  ℕ, zero, suc, ◌≡◌, refl, ◌∙◌, ap, Bool, true, false, Option, none, some, List, [], ◌∷◌,
}
use pigeongram_chat.Base.Text.{Text}
use pigeongram_chat.Json.{
  Json, Items, Fields, null, bool, num, other_num, str, arr, obj, nil, cons, end, field,
}
use pigeongram_chat.Json.Structs.{TimeText, JsonText}
use pigeongram_chat.Json.Written.{Reads, Parses, is_utf8, is_utf8_from}

-- As many bytes `1` as there are nanoseconds.
unfoldable pub write_time : ℕ → Text
write_time zero = []
write_time (suc t) = 49 ∷ write_time t

unfoldable pub count_bytes : Text → ℕ
count_bytes [] = 0
count_bytes (c ∷ t) = suc (count_bytes t)

abbrev pub times : TimeText
times = record { format_time = write_time; parse_time = λ t. some (count_bytes t) }

count_bytes-write_time : (t : ℕ) → count_bytes (write_time t) ≡ t
unfolding count_bytes write_time
count_bytes-write_time zero = refl
count_bytes-write_time (suc t) = ap suc (count_bytes-write_time t)

is_utf8-write_time : (t : ℕ) → is_utf8 (write_time t) ≡ true
unfolding write_time is_utf8_from
is_utf8-write_time zero = refl
is_utf8-write_time (suc t) = is_utf8-write_time t

pub times-Reads : Reads times
times-Reads = record {
  back = λ t usual. ap some (count_bytes-write_time t);
  plain = λ t usual. is_utf8-write_time t;
}

-- A document in postfix form, each instruction beside its argument.
pub data Value : Type 0 where
  text : Text → Value
  json : Json → Value
  items : Items → Value
  fields : Fields → Value

unfoldable pub put_text : Text → Text → Text
put_text [] k = 0 ∷ 0 ∷ k
put_text (c ∷ t) k = put_text t (1 ∷ c ∷ k)

bit : Bool → ℕ
bit true = 1
bit false = 0

unfoldable mutual
  unfolding put_text bit

  pub put : Json → Text → Text
  put null k = 2 ∷ 0 ∷ k
  put (bool b) k = 3 ∷ bit b ∷ k
  put (num n) k = 4 ∷ n ∷ k
  put (other_num t) k = put_text t (5 ∷ 0 ∷ k)
  put (str t) k = put_text t (6 ∷ 0 ∷ k)
  put (arr i) k = put_items i (7 ∷ 0 ∷ k)
  put (obj f) k = put_fields f (8 ∷ 0 ∷ k)

  put_items : Items → Text → Text
  put_items nil k = 9 ∷ 0 ∷ k
  put_items (cons j i) k = put_items i (put j (10 ∷ 0 ∷ k))

  put_fields : Fields → Text → Text
  put_fields end k = 11 ∷ 0 ∷ k
  put_fields (field n v f) k = put_fields f (put v (put_text n (12 ∷ 0 ∷ k)))

act : ℕ → ℕ → List Value → List Value
act zero a st = text [] ∷ st
act (suc zero) a (text t ∷ st) = text (a ∷ t) ∷ st
act (suc (suc zero)) a st = json null ∷ st
act (suc (suc (suc zero))) zero st = json (bool false) ∷ st
act (suc (suc (suc zero))) a st = json (bool true) ∷ st
act (suc (suc (suc (suc zero)))) a st = json (num a) ∷ st
act (suc (suc (suc (suc (suc zero))))) a (text t ∷ st) = json (other_num t) ∷ st
act (suc (suc (suc (suc (suc (suc zero)))))) a (text t ∷ st) = json (str t) ∷ st
act (suc (suc (suc (suc (suc (suc (suc zero))))))) a (items i ∷ st) = json (arr i) ∷ st
act (suc (suc (suc (suc (suc (suc (suc (suc zero)))))))) a (fields f ∷ st) = json (obj f) ∷ st
act (suc (suc (suc (suc (suc (suc (suc (suc (suc zero))))))))) a st = items nil ∷ st
act (suc (suc (suc (suc (suc (suc (suc (suc (suc (suc zero)))))))))) a (json j ∷ items i ∷ st) =
    items (cons j i) ∷ st
act (suc (suc (suc (suc (suc (suc (suc (suc (suc (suc (suc zero))))))))))) a st = fields end ∷ st
act (suc (suc (suc (suc (suc (suc (suc (suc (suc (suc (suc (suc zero)))))))))))) a
      (text n ∷ json v ∷ fields f ∷ st) =
    fields (field n v f) ∷ st
act op a st = st

unfoldable pub work : Text → List Value → List Value
unfolding act
work (op ∷ a ∷ k) st = work k (act op a st)
work _ st = st

work-put_text : (t k : Text) (st : List Value) → work (put_text t k) st ≡ work k (text t ∷ st)
unfolding work put_text
work-put_text [] k st = refl
work-put_text (c ∷ t) k st = work-put_text t (1 ∷ c ∷ k) st

mutual
  unfolding work put put_items put_fields

  work-put : (j : Json) (k : Text) (st : List Value) → work (put j k) st ≡ work k (json j ∷ st)
  work-put null k st = refl
  work-put (bool true) k st = refl
  work-put (bool false) k st = refl
  work-put (num n) k st = refl
  work-put (other_num t) k st = work-put_text t (5 ∷ 0 ∷ k) st
  work-put (str t) k st = work-put_text t (6 ∷ 0 ∷ k) st
  work-put (arr i) k st = work-put_items i (7 ∷ 0 ∷ k) st
  work-put (obj f) k st = work-put_fields f (8 ∷ 0 ∷ k) st

  work-put_items :
      (i : Items) (k : Text) (st : List Value) → work (put_items i k) st ≡ work k (items i ∷ st)
  work-put_items nil k st = refl
  work-put_items (cons j i) k st =
      work-put_items i (put j (10 ∷ 0 ∷ k)) st ∙ work-put j (10 ∷ 0 ∷ k) (items i ∷ st)

  work-put_fields :
      (f : Fields) (k : Text) (st : List Value) → work (put_fields f k) st ≡ work k (fields f ∷ st)
  work-put_fields end k st = refl
  work-put_fields (field n v f) k st =
      work-put_fields f (put v (put_text n (12 ∷ 0 ∷ k))) st
      ∙ (work-put v (put_text n (12 ∷ 0 ∷ k)) (fields f ∷ st)
          ∙ work-put_text n (12 ∷ 0 ∷ k) (json v ∷ fields f ∷ st))

unfoldable pub result : List Value → Option Json
result (json j ∷ []) = some j
result _ = none

abbrev pub texts : JsonText
texts = record { print = λ j. put j []; parse = λ t. result (work t []) }

pub texts-Parses : Parses texts
unfolding result work
texts-Parses j w = ap result (work-put j [] [])
