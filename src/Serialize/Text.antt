-- ===== src/Serialize/Text.antt =====
-- `writeString` and `readString` of serialize/serialize.cpp: the length as a varint, then the bytes.
use cpp_utils.Base.{
  ℕ, ◌^◌, ◌<◌, ◌≡◌, refl, ap, ◌∙◌, arith, inl, inr, Bool-cases, List, [], ◌∷◌, ◌++◌, length,
  length-append, take, take_all, ◌==◌, ==_iff, if◌then◌else◌, append-nil, append_assoc, Outcome, ok,
  ◌>>=◌,
}
use cpp_utils.Serialize.{Serialize, Malloc, u32, write, read}
use cpp_utils.Serialize.Streams.{Reads, Appends, write-Appends, read-Reads}
use cpp_utils.Serialize.Varint.{varint_bytes, write_var_uint32, read_var_uint32}
use cpp_utils.Serialize.Varint.RoundTrip.{write_var_uint32-Appends, read_var_uint32-Reads}

-- `uint32_t len = tmp.size()` cuts the length to 32 bits.
unfoldable pub write_string : Malloc → List ℕ → Serialize → Outcome Serialize
unfolding write_var_uint32
write_string malloc str s = do
  s' ← write_var_uint32 malloc (u32 (length str)) s
  if u32 (length str) == 0 then ok s' else write malloc s' (take (u32 (length str)) str)

read_body : ℕ → Serialize → Outcome (List ℕ × Serialize)
read_body len s = if len == 0 then ok ([], s) else read len s

unfoldable pub read_string : Serialize → Outcome (List ℕ × Serialize)
unfolding read_var_uint32 read_body
read_string s = do (len, s') ← read_var_uint32 s; read_body len s'

length_zero : (str : List ℕ) → length str ≡ 0 → str ≡ []
length_zero [] h = refl
length_zero (x ∷ str) h = absurd (omega arith)

u32_small : (n : ℕ) → n < 2 ^ 32 → u32 n ≡ n
u32_small n h = omega arith

pub write_string-Appends :
    (malloc : Malloc) (str header : List ℕ)
    → length str < 2 ^ 32
    → varint_bytes 5 (length str) ≡ ok header
    → Appends (write_string malloc str) (header ++ str)
unfolding write_string
write_string-Appends malloc str header small e s w holds room =
    let (s', ws, hs, b) =
      write_var_uint32-Appends malloc (length str) header e s w holds
        (omega (arith, length-append header str)) in
    let first = (ap (λ n. write_var_uint32 malloc n s) (u32_small (length str) small)) ∙ ws in
    elim (Bool-cases (u32 (length str) == 0)) [
      | inl empty ↦
          let none_left : str ≡ [] = length_zero str (omega (arith, (==_iff _ _).0 empty)) in
          (s', rw (first, write_string, empty), rw (none_left, append-nil) hs, b)
      | inr some_left ↦
          let (s'', ws', hs', b') =
            write-Appends malloc str s' (w ++ header) hs
              (omega (arith, length-append header str, length-append w header)) in
          let all : take (u32 (length str)) str ≡ str = take_all _ str (omega arith) in
          (s'', rw (first, write_string, some_left, all) ws', rw append_assoc at hs', b' ∙ b)
    ]

read_body-Reads : (str : List ℕ) → Reads (read_body (length str)) str str
unfolding read_body
read_body-Reads str s r unread = elim (Bool-cases (length str == 0)) [
  | inl empty ↦
      let none_left : str ≡ [] = length_zero str ((==_iff _ _).0 empty) in
      (s, rw none_left, rw none_left at unread)
  | inr some_left ↦ rw some_left (read-Reads (length str) str refl s r unread)
]

pub read_string-Reads :
    (str header : List ℕ)
    → length str < 2 ^ 32
    → varint_bytes 5 (length str) ≡ ok header
    → Reads read_string (header ++ str) str
unfolding read_string
read_string-Reads str header small e s r unread =
    let (s', rd, us) =
      read_var_uint32-Reads (length str) header small e s (str ++ r) (rw append_assoc at unread) in
    let (s'', rd', us') = read_body-Reads str s' r us in (s'', rw (rd, ◌>>=◌) rd', us')
