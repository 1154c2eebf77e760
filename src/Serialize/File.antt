-- ===== src/Serialize/File.antt =====
-- `toFile` and `fromFile` of serialize/serialize.cpp. The file system is a function from paths to
-- contents; `opens` says which paths can be opened for writing.
use cpp_utils.Base.{
  ℕ, ◌≤◌, ◌≡◌, refl, ap, arith, ◌↔◌, Bool, true, false, ◌||◌, ◌&&◌, inl, inr, Bool-cases, Option,
  none, some, List, [], ◌∷◌, length, All, leb, ◌==◌, if◌then◌else◌,
}

-- `isspace` in the "C" locale, by which `operator>>` cuts words.
abbrev pub is_space : ℕ → Bool
is_space c = (c == 0x20) || (leb 0x09 c && leb c 0x0d)

-- `infile >> ret`: white space is skipped, then the bytes up to the next white space are taken.
take_word : List ℕ → List ℕ
take_word [] = []
take_word (c ∷ cs) = if is_space c then [] else c ∷ take_word cs

unfoldable pub next_word : List ℕ → List ℕ
unfolding take_word
next_word [] = []
next_word (c ∷ cs) = if is_space c then next_word cs else take_word (c ∷ cs)

module _ {P : Type 0} (same : P → P → Bool) (opens : P → Bool) where
  abbrev Files : Type 0
  Files = P → Option (List ℕ)

  unfoldable pub to_file : P → List ℕ → Files → Bool × Files
  to_file filepath str files =
      if opens filepath
      then (true, λ p. if same p filepath then some str else files p)
      else (false, files)

  unfoldable pub from_file : P → Files → List ℕ
  from_file filepath files = elim (files filepath) [ none ↦ [] | some text ↦ next_word text ]

abbrev pub IsPrintable : ℕ → Type 0
IsPrintable c = is_space c ≡ false

take_word-le : (str : List ℕ) → length (take_word str) ≤ length str
unfolding take_word
take_word-le [] = omega arith
take_word-le (c ∷ cs) = ground (arith, take_word-le cs)

cons-tail : {c d : ℕ} {cs ds : List ℕ} → c ∷ cs ≡ d ∷ ds → cs ≡ ds
cons-tail e = cc

-- The word is the whole text just where the text has no white space.
take_word-All : (str : List ℕ) → take_word str ≡ str → All IsPrintable str
unfolding take_word
take_word-All [] e = tt
take_word-All (c ∷ cs) e = elim (Bool-cases (is_space c)) [
  | inl space ↦ absurd (nil-ne-cons (rw space at e))
  | inr other ↦ (other, take_word-All cs (cons-tail (rw other at e)))
]
  where
    nil-ne-cons : {c : ℕ} {cs : List ℕ} → [] ≡ c ∷ cs → ⊥
    nil-ne-cons e = cc

take_word_printable : (str : List ℕ) → All IsPrintable str → take_word str ≡ str
unfolding take_word
take_word_printable [] h = refl
take_word_printable (c ∷ cs) (hc, hcs) = rw (hc, take_word_printable cs hcs)

next_word-le : (str : List ℕ) → length (next_word str) ≤ length str
unfolding next_word
next_word-le [] = omega arith
next_word-le (c ∷ cs) = elim (Bool-cases (is_space c)) [
  | inl space ↦ rw space (omega (arith, next_word-le cs))
  | inr other ↦ rw other (omega (arith, take_word-le cs))
]

next_word-All : (str : List ℕ) → next_word str ≡ str → All IsPrintable str
unfolding next_word
next_word-All [] e = tt
next_word-All (c ∷ cs) e = elim (Bool-cases (is_space c)) [
  | inl space ↦ absurd (omega (arith, ap length (rw space at e), next_word-le cs))
  | inr other ↦ (other, take_word-All cs (cons-tail (rw other at e)))
]

next_word_kept : (str : List ℕ) → All IsPrintable str → next_word str ≡ str
unfolding next_word
next_word_kept [] h = refl
next_word_kept (c ∷ cs) (hc, hcs) = rw (hc, take_word_printable cs hcs)

from_file_written :
    {P : Type 0} (same : P → P → Bool) (opens : P → Bool) (filepath : P) (str : List ℕ)
    (files : P → Option (List ℕ))
    → same filepath filepath ≡ true
    → opens filepath ≡ true
    → from_file same opens filepath (to_file same opens filepath str files).1 ≡ next_word str
unfolding from_file to_file
from_file_written same opens filepath str files self can = rw (can, from_file, self)

-- A string that was written to a file that can be opened is read back from it just where it holds
-- no white space: `fromFile` reads one word. So a serialized object that has a byte 9 to 13 or 32
-- in its string does not survive.
pub from_file-to_file :
    {P : Type 0} (same : P → P → Bool) (opens : P → Bool) (filepath : P) (str : List ℕ)
    (files : P → Option (List ℕ))
    → same filepath filepath ≡ true
    → opens filepath ≡ true
    → (from_file same opens filepath (to_file same opens filepath str files).1 ≡ str)
      ↔ All IsPrintable str
from_file-to_file same opens filepath str files self can =
    rw (from_file_written same opens filepath str files self can)
      (next_word-All str, next_word_kept str)

-- If the file cannot be opened, `toFile` says so and leaves all files as they were.
pub to_file_refused :
    {P : Type 0} (same : P → P → Bool) (opens : P → Bool) (filepath : P) (str : List ℕ)
    (files : P → Option (List ℕ))
    → opens filepath ≡ false
    → to_file same opens filepath str files ≡ (false, files)
unfolding to_file
to_file_refused same opens filepath str files cannot = rw cannot
