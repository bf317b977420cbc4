-- ===== src/Prelude/Strings.antt =====
-- Equality of texts, and of optional texts and numbers.
use Prim.Native.Nat.{ℕ}
use Prim.Native.Char.{code}
use Prim.Native.String.{String, [] as empty, ◌∷◌ as cons}
use mathlib.Core.List.{List, [], ◌∷◌}
use mathlib.Core.Path.{◌≡◌, sym, ap, ◌∙◌}
use mathlib.Core.Logic.{◌↔◌, inl, inr}
use mathlib.Core.Bool.{Bool, true, false}
use mathlib.Core.Option.{Option, none, some}
use sooqa.Prelude.Tests.{◌==◌ as nat_eq, if◌then◌else◌, Bool-cases}
use sooqa.Prelude.Results.{Result, ok}
use text.Mathlib.Text.{◌==◌ as text_eq}
use text.Mathlib.TextEquality.{eq_iff}

abbrev pub str_eq : String → String → Bool
str_eq s t = text_eq s t

-- The code points of a text.
abbrev pub codes : String → List ℕ
codes empty = []
codes (cons c s) = code c ∷ codes s

pub str_eq_iff : (s t : String) → (str_eq s t ≡ true) ↔ (s ≡ t)
str_eq_iff s t = eq_iff s t

-- SQL's `column = $n` on a column that may be NULL.
abbrev pub opt_nat_eq : Option ℕ → ℕ → Bool
opt_nat_eq none b = false
opt_nat_eq (some a) b = nat_eq a b

abbrev pub opt_str_eq : Option String → String → Bool
opt_str_eq none t = false
opt_str_eq (some s) t = str_eq s t

-- The result of an arm.
abbrev read_of : {A : Type 0} → A → Result String A
read_of a = ok a

ok_arg : {A : Type 0} {a x : A} → read_of a ≡ ok x → a ≡ x
ok_arg h = cc

-- One arm of a `match` on a text: what is read is the arm's, or what the later arms read.
pub read_arm :
    {A : Type 0} (name : A → String) (value text : String) (a : A) (rest : Result String A) (x : A)
    → name a ≡ text
    → (rest ≡ ok x → value ≡ name x)
    → (if str_eq value text then ok a else rest) ≡ ok x
    → value ≡ name x
read_arm name value text a rest x ht hr h = elim (Bool-cases (str_eq value text)) [
  | inl e ↦
      let same : value ≡ text = (str_eq_iff value text).0 e in
      same ∙ sym ht ∙ ap name (ok_arg (rw e at h))
  | inr e ↦ hr (rw e at h)
]
