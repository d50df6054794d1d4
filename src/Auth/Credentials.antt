-- ===== src/Auth/Credentials.antt =====
-- server/internal/auth/device.go: the credentials that machines and customers show.
use Prim.Native.Char.{code}
use Prim.Native.String.{◌++◌ as append}
use text.Mathlib.TextLemmas.{nil-append, cons-append}
use myference.Prelude.{
  String, Bool, true, false, not, ◌&&◌, Option, none, some, ◌≡◌, refl, is_empty, ◌==◌,
  if◌then◌else◌, arith,
}

-- `strings.Cut(token, ".")`: what stands before the first dot and behind it, if there is one.
unfoldable pub cut : String → Option (String × String)
cut String.[] = none
cut (String.◌∷◌ c s) =
    let rest = cut s in
    if code c == 46
    then some (String.[], s)
    else elim rest [ none ↦ none | some (before, after) ↦ some (String.◌∷◌ c before, after) ]

abbrev pub both_filled : Option (String × String) → Option (String × String)
both_filled none = none
both_filled (some (id, secret)) =
    if not (is_empty id) && not (is_empty secret) then some (id, secret) else none

-- `splitCredential`
unfoldable pub split_credential : String → Option (String × String)
unfolding cut
split_credential token = both_filled (cut token)

-- id + "." + secret
abbrev pub credential : String → String → String
credential id secret = append id (append "." secret)

-- A text with no dot.
abbrev pub has_no_dot : String → Bool
has_no_dot String.[] = true
has_no_dot (String.◌∷◌ c s) = not (code c == 46) && has_no_dot s

dot-append : (s : String) → append "." s ≡ String.◌∷◌ "." s
dot-append s = rw (cons-append "." "" s, nil-append s) refl

cut-credential :
    (id secret : String) → has_no_dot id ≡ true → cut (credential id secret) ≡ some (id, secret)
unfolding cut
cut-credential String.[] secret h = rw (nil-append (append "." secret), dot-append secret, cut) refl
cut-credential (String.◌∷◌ c s) secret h =
    rw (cons-append c s (append "." secret), cut, cut-credential s secret (ground arith))
      (ground arith)

-- A credential whose ID has no dot is split into the parts that it was made of.
pub split-credential :
    (id secret : String)
    → has_no_dot id ≡ true
    → is_empty id ≡ false
    → is_empty secret ≡ false
    → split_credential (credential id secret) ≡ some (id, secret)
unfolding split_credential
split-credential id secret h filled given = ground (arith, cut-credential id secret)
