-- ===== src/Prelude/Chars.antt =====
-- Laws of the functions of Text: splitting a text, and trimming it.
use Prim.Native.Char.{Char, code}
use Prim.Native.String.{String, ◌++◌}
use text.Mathlib.TextLemmas.{nil-append, cons-append}
use mathlib.Core.Path.{◌≡◌, refl, sym, ap, ◌∙◌, subst}
use mathlib.Core.Bool.{true, false}
use mathlib.Core.List.{[], ◌∷◌}
use Prim.Native.Nat.{ℕ}
use native.Mathlib.Omega.{arith}
use cbdynclusterd.Prelude.Tests.{eqb}
use cbdynclusterd.Prelude.Text.{split, trim_space, trim_left, trim_right, is_space}

abbrev pub AllChars : (ℕ → Type 0) → String → Type 0
AllChars P String.[] = Unit {0}
AllChars P (String.◌∷◌ c s) = P (code c) × AllChars P s

-- no white space
abbrev pub IsSolid : ℕ → Type 0
IsSolid c = is_space c ≡ false

pub split-single :
    (sep : ℕ) (s : String) → AllChars (λ c. eqb c sep ≡ false) s → split sep s ≡ s ∷ []
unfolding split
split-single sep String.[] h = refl
split-single sep (String.◌∷◌ c s) h = rw (h.0, split-single sep s h.1) refl

-- A text of one character in front of another.
cons_as_append : (c : Char) (t : String) → String.◌∷◌ c "" ++ t ≡ String.◌∷◌ c t
cons_as_append c t = cons-append c "" t ∙ ap (String.◌∷◌ c) (nil-append t)

pub split-append :
    (sep : Char) (s t : String)
    → AllChars (λ c. eqb c (code sep) ≡ false) s
    → split (code sep) (s ++ (String.◌∷◌ sep "" ++ t)) ≡ s ∷ split (code sep) t
unfolding split
split-append sep String.[] t h =
    let same : eqb (code sep) (code sep) ≡ true = ground arith in
    rw (nil-append (String.◌∷◌ sep "" ++ t), cons_as_append sep t) (rw same refl)
split-append sep (String.◌∷◌ c s) t h =
    rw (cons-append c s (String.◌∷◌ sep "" ++ t)) (rw (h.0, split-append sep s t h.1) refl)

trim_left_lem : (s : String) → AllChars IsSolid s → trim_left s ≡ s
unfolding trim_left
trim_left_lem String.[] h = refl
trim_left_lem (String.◌∷◌ c s) h = rw h.0 refl

trim_right_lem : (s : String) → AllChars IsSolid s → trim_right s ≡ s
unfolding trim_right
trim_right_lem String.[] h = refl
trim_right_lem (String.◌∷◌ c s) h = rw (h.0, trim_right_lem s h.1) refl

pub AllChars-append :
    (P : ℕ → Type 0) (s t : String) → AllChars P s → AllChars P t → AllChars P (s ++ t)
AllChars-append P String.[] t h k = subst (AllChars P) (sym (nil-append t)) k
AllChars-append P (String.◌∷◌ c s) t h k =
    subst (AllChars P) (sym (cons-append c s t)) (h.0, AllChars-append P s t h.1 k)

pub AllChars-map :
    (P Q : ℕ → Type 0) (s : String) → ((c : ℕ) → P c → Q c) → AllChars P s → AllChars Q s
AllChars-map P Q String.[] f h = tt
AllChars-map P Q (String.◌∷◌ c s) f h = (f (code c) h.0, AllChars-map P Q s f h.1)

pub trim_space_lem : (s : String) → AllChars IsSolid s → trim_space s ≡ s
unfolding trim_space
trim_space_lem s h = rw (trim_left_lem s h) (trim_right_lem s h)
