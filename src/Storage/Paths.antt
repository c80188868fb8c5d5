-- ===== src/Storage/Paths.antt =====
-- `filepath.Base` and `filepath.Ext` with slashes, as the handlers of uploads use them.
use pigeongram_chat.Base.{
  ℕ, zero, suc, ◌⊎◌, ◌≡◌, refl, Bool, true, false, not, ◌&&◌, List, [], ◌∷◌, ◌++◌, ◌==◌, nat_eq,
  if◌then◌else◌, is_empty, any, take, All, if-both, arith, Bool-cases, inl, inr,
}
use pigeongram_chat.Base.Text.{Text, bytes}
use pigeongram_chat.Storage.{split, push_part}

-- The last part that is not empty.
unfoldable pub last_name : Text → List Text → Text
last_name p [] = p
last_name p (q ∷ parts) = last_name (if is_empty q then p else q) parts

-- `filepath.Base`
unfoldable pub base_name : Text → Text
unfolding last_name split
base_name [] = bytes "."
base_name (c ∷ s) =
    let name = last_name [] (split b'/' (c ∷ s)) in if is_empty name then bytes "/" else name

-- `filepath.Ext`: from the last dot behind the last slash.
unfoldable pub extension : Text → Text
unfolding any
extension [] = []
extension (c ∷ s) =
    let rest = extension s in
    if not (is_empty rest)
    then rest
    else if c == b'.' && not (any (λ d. d == b'/') s)
    then c ∷ s
    else []

-- A text that ends with an extension has this extension.
pub extension-append :
    (s e : Text) → is_empty (extension e) ≡ false → extension (s ++ e) ≡ extension e
unfolding extension
extension-append [] e h = refl
extension-append (c ∷ s) e h = rw (extension-append s e h, h) refl

-- The extension is its own extension.
pub extension-extension : (s : Text) → extension (extension s) ≡ extension s
unfolding extension
extension-extension [] = refl
extension-extension (c ∷ s) = ground (arith, extension-extension s)

-- Whether a slash is in the text.
abbrev pub has_slash : Text → Bool
has_slash s = any (λ d. d == b'/') s

-- Without a slash, a text that has no extension has none after a cut.
pub extension-take :
    (n : ℕ) (s : Text)
    → has_slash s ≡ false
    → is_empty (extension s) ≡ true
    → is_empty (extension (take n s)) ≡ true
unfolding extension any
extension-take zero s free h = refl
extension-take (suc n) [] free h = refl
extension-take (suc n) (c ∷ s) free h = ground (arith, extension-take n s)

push_part-no_slash :
    (c : ℕ) (parts : List Text)
    → (c == b'/') ≡ false
    → All (λ p. has_slash p ≡ false) parts
    → All (λ p. has_slash p ≡ false) (push_part c parts)
unfolding push_part any
push_part-no_slash c [] e a = (rw e refl, tt)
push_part-no_slash c (p ∷ parts) e a = (rw (e, a.0) refl, a.1)

split-no_slash : (s : Text) → All (λ p. has_slash p ≡ false) (split b'/' s)
unfolding split any
split-no_slash [] = (refl, tt)
split-no_slash (c ∷ s) = elim (Bool-cases (c == b'/')) [
  | inl e ↦ rw e (refl, split-no_slash s)
  | inr e ↦ rw e (push_part-no_slash c (split b'/' s) e (split-no_slash s))
]

last_name-no_slash :
    (p : Text) (parts : List Text)
    → has_slash p ≡ false
    → All (λ q. has_slash q ≡ false) parts
    → has_slash (last_name p parts) ≡ false
unfolding last_name
last_name-no_slash p [] h a = h
last_name-no_slash p (q ∷ parts) h a =
    last_name-no_slash _ parts (if-both (λ t. has_slash t ≡ false) (is_empty q) h a.0) a.1

-- Only the name of the root has a slash.
pub base_name-no_slash : (s : Text) → (base_name s ≡ bytes "/") ⊎ (has_slash (base_name s) ≡ false)
unfolding base_name any
base_name-no_slash [] = inr refl
base_name-no_slash (c ∷ s) = elim (Bool-cases (is_empty (last_name [] (split b'/' (c ∷ s))))) [
  | inl e ↦ inl (rw e refl)
  | inr e ↦ inr (rw e (last_name-no_slash [] (split b'/' (c ∷ s)) refl (split-no_slash (c ∷ s))))
]
