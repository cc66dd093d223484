-- ===== src/Activation/Names.antt =====
-- internal/activation/activation.go: the names of flag files, and strings.TrimSpace and filepath.Ext
-- of the standard library, which the code calls on them. A short name is one element of a path.
use Prim.Native.Char.{Char, code}
use Prim.Native.String.{count}
use text.Mathlib.TextLemmas.{append-nil, nil-append, cons-append, length-cons, length-append}
use suctl.Prelude.{
  Bool-cases, inl, inr, ◌≤◌, ℕ, zero, suc, ◌-◌, String, Bool, ◌&&◌, ◌||◌, ◌≡◌, refl, ap, subst,
  nat_eq, leb, if◌then◌else◌, ◌==◌, arith,
}

infixr 60 ◌++ₛ◌
abbrev pub ◌++ₛ◌ : String → String → String
s ++ₛ t = Prim.Native.String.◌++◌ s t

-- unicode.IsSpace
unfoldable pub is_space : Char → Bool
is_space c =
    let n = code c in
    (leb 9 n && leb n 13)
    || nat_eq n 32
    || nat_eq n 133
    || nat_eq n 160
    || nat_eq n 5760
    || (leb 8192 n && leb n 8202)
    || nat_eq n 8232
    || nat_eq n 8233
    || nat_eq n 8239
    || nat_eq n 8287
    || nat_eq n 12288

unfoldable pub trim_right : String → String
trim_right String.[] = ""
trim_right (String.◌∷◌ c s) =
    let t = trim_right s in if t == "" && is_space c then "" else String.◌∷◌ c t

unfoldable pub trim_left : String → String
trim_left String.[] = ""
trim_left (String.◌∷◌ c s) = if is_space c then trim_left s else String.◌∷◌ c s

-- strings.TrimSpace
abbrev pub trim_space : String → String
trim_space s = trim_left (trim_right s)

-- filepath.Ext of a name without separators: what starts at the last dot.
unfoldable pub ext : String → String
ext String.[] = ""
ext (String.◌∷◌ c s) =
    let rest = ext s in
    if rest == "" then if nat_eq (code c) 46 then String.◌∷◌ c s else "" else rest

unfoldable pub take : ℕ → String → String
take zero s = ""
take (suc n) String.[] = ""
take (suc n) (String.◌∷◌ c s) = String.◌∷◌ c (take n s)

-- The lemmas on texts.
pub trim_right-append_newline : (s : String) → trim_right (s ++ₛ "\n") ≡ trim_right s
unfolding trim_right is_space
trim_right-append_newline String.[] = refl
trim_right-append_newline (String.◌∷◌ c s) =
    rw (cons-append c s "\n", trim_right-append_newline s) refl

-- A name with the ending of flag files has it as its extension, and what is before it is its stem.
pub ext-append : (n : String) → ext (n ++ₛ ".flag") ≡ ".flag"
unfolding ext
ext-append String.[] = refl
ext-append (String.◌∷◌ c n) = rw (cons-append c n ".flag", ext-append n) refl

take-append : (n : String) → take (count n) (n ++ₛ ".flag") ≡ n
unfolding take
take-append String.[] = refl
take-append (String.◌∷◌ c n) =
    rw (cons-append c n ".flag", length-cons c n) (ap (String.◌∷◌ c) (take-append n))

unfoldable pub stem : String → String
stem name = take (count name - 5) name

cut_length : (n : String) → count (n ++ₛ ".flag") - 5 ≡ count n
cut_length n = rw (length-append n ".flag") (omega arith)

pub stem-append : (n : String) → stem (n ++ₛ ".flag") ≡ n
unfolding stem
stem-append n =
    let before : count (n ++ₛ ".flag") - 5 ≡ count n = cut_length n in rw before (take-append n)

take-all : (s : String) → take (count s) s ≡ s
unfolding take
take-all String.[] = refl
take-all (String.◌∷◌ c s) = rw (length-cons c s) (ap (String.◌∷◌ c) (take-all s))

-- The text in front of an ending of the given length, and that ending, make up the text.
abbrev Splits : String → String → Type 0
Splits s e = (count e ≤ count s) × (take (count s - count e) s ++ₛ e ≡ s)

Splits-whole : (s : String) → Splits s s
unfolding take
Splits-whole s =
    let none_left : count s - count s ≡ 0 = omega arith in
    (omega arith, rw none_left (nil-append s))

Splits-nothing : (s : String) → Splits s ""
Splits-nothing s =
    let all_left : count s - 0 ≡ count s = omega arith in
    (omega arith, rw (all_left, append-nil (take (count s) s)) (take-all s))

Splits-cons : (c : Char) (s e : String) → Splits s e → Splits (String.◌∷◌ c s) e
unfolding take
Splits-cons c s e (fits, whole) =
    let one_more : suc (count s) - count e ≡ suc (count s - count e) = omega arith in
    rw (length-cons c s) (
      omega arith,
      rw (one_more, cons-append c (take (count s - count e) s) e) (ap (String.◌∷◌ c) whole),
    )

ext_split : (s : String) → Splits s (ext s)
unfolding ext
ext_split String.[] = Splits-whole ""
ext_split (String.◌∷◌ c s) = elim (Bool-cases (ext s == "")) [
  | inl plain ↦ elim (Bool-cases (nat_eq (code c) 46)) [
    | inl dot ↦ rw (plain, dot) (Splits-whole (String.◌∷◌ c s))
    | inr other ↦ rw (plain, other) (Splits-nothing (String.◌∷◌ c s))
  ]
  | inr dotted ↦ rw dotted (Splits-cons c s (ext s) (ext_split s))
]

pub stem-ext : (k : String) → ext k ≡ ".flag" → stem k ++ₛ ".flag" ≡ k
unfolding stem
stem-ext k h = subst (λ e. take (count k - count e) k ++ₛ e ≡ k) h (ext_split k).1
