-- ===== src/Log/Stream/Line.antt =====
-- The buffer of log/logStream.cpp with line buffering.
use cpp_utils.Base.{
  ℕ, zero, suc, ◌+◌, ◌-◌, ◌≤◌, ◌<◌, ◌≡◌, refl, sym, ap, subst, ◌∙◌, arith, true, inl, inr, ◌≢◌,
  Bool-cases, ◌⊎◌, some, Option-cases, List, [], ◌∷◌, ◌++◌, length, length-drop, take, drop,
  get_elem?, take-append-drop, append_assoc, ltb_ge, lt→ltb, ◌==◌, ==_iff, ==_false, fault, ◌>>=◌,
}
use cpp_utils.Base.Int.{ℤ, pos, negsuc, ◌-ℤ◌}
use cpp_utils.Log.Stream.{
  LogStream, avail, behind_newline, flush_line, append_fitting, make_room, append,
}
use cpp_utils.Log.Stream.Full.{IsValid, history}

behind_newline-le : (n : ℕ) (text : List ℕ) → behind_newline n text ≤ n
unfolding behind_newline
behind_newline-le zero text = omega arith
behind_newline-le (suc n) text = ground (arith, behind_newline-le n text)

flush_line-history : (place : ℕ) (s : LogStream) → history (flush_line place s) ≡ history s
unfolding flush_line
flush_line-history place s = elim (Bool-cases (place == 1)) [
  | inl first ↦ rw first
  | inr other ↦ rw (other, append_assoc, take-append-drop place s.text)
]

-- Bytes that fit the buffer are all kept with line buffering too: each is in the buffer or has gone
-- out, in order.
pub append_fitting-history :
    (bytes : List ℕ) (s : LogStream) → history (append_fitting true bytes s) ≡ history s ++ bytes
unfolding append_fitting
append_fitting-history bytes s =
    flush_line-history _ (record s { text = s.text ++ bytes })
    ∙ sym (append_assoc s.emitted s.text bytes)

-- Behind the place that is found there is no line feed up to `n`.
abbrev Clear : ℕ → ℕ → List ℕ → Type 0
Clear from n text = (k : ℕ) → from ≤ k → k < n → get_elem? text k ≢ some b'\n'

behind_newline_step :
    (n : ℕ) (text : List ℕ)
    → ((behind_newline (suc n) text ≡ suc n) × (get_elem? text n ≡ some b'\n'))
      ⊎ ((behind_newline (suc n) text ≡ behind_newline n text) × (get_elem? text n ≢ some b'\n'))
unfolding behind_newline
behind_newline_step n text = elim (Option-cases (get_elem? text n)) [
  | inl missing ↦ inr (rw (missing, behind_newline), λ e. cc)
  | inr (c, found) ↦ elim (Bool-cases (c == b'\n')) [
    | inl feed ↦ inl (rw (found, behind_newline, feed), found ∙ ap some ((==_iff _ _).0 feed))
    | inr other ↦ inr (rw (found, behind_newline, other), λ e. ==_false c b'\n' other (cc))
  ]
]

behind_newline-Clear : (n : ℕ) (text : List ℕ) → Clear (behind_newline n text) n text
behind_newline-Clear zero text k lo hi = absurd (omega arith)
behind_newline-Clear (suc n) text k lo hi = elim (behind_newline_step n text) [
  | inl (here, _) ↦ absurd (omega arith)
  | inr (before, other) ↦ elim (last_or_before k n hi) [
    | inl last ↦ rw last other
    | inr lower ↦ behind_newline-Clear n text k (omega arith) lower
  ]
]
  where
    last_or_before : (k n : ℕ) → k < suc n → (k ≡ n) ⊎ (k < n)
    last_or_before k n h = omega arith

behind_newline_found :
    (n : ℕ) (text : List ℕ)
    → 0 < behind_newline n text
    → get_elem? text (behind_newline n text - 1) ≡ some b'\n'
behind_newline_found zero text h = absurd (omega (arith, behind_newline-le 0 text))
behind_newline_found (suc n) text h = elim (behind_newline_step n text) [
  | inl (here, found) ↦ rw (here, suc-sub-one n) found
  | inr (before, other) ↦ rw before (behind_newline_found n text (omega arith))
]
  where
    suc-sub-one : (m : ℕ) → suc m - 1 ≡ m
    suc-sub-one m = omega arith

get_elem?-drop : (n k m : ℕ) (xs : List ℕ) → m ≡ n + k → get_elem? (drop n xs) k ≡ get_elem? xs m
get_elem?-drop zero k m xs h = let e : k ≡ m = omega arith in ap (get_elem? xs) e
get_elem?-drop (suc n) k m [] h = refl
get_elem?-drop (suc n) k zero (x ∷ xs) h = absurd (omega arith)
get_elem?-drop (suc n) k (suc m) (x ∷ xs) h = get_elem?-drop n k m xs (omega arith)

flush_line-eq :
    (place : ℕ) (s : LogStream)
    → place ≢ 1
    → flush_line place s ≡ record {
      text = drop place s.text;
      end_at = s.end_at -ℤ pos place;
      emitted = s.emitted ++ take place s.text;
    }
unfolding flush_line
flush_line-eq place s h = elim (Bool-cases (place == 1)) [
  | inl first ↦ absurd (h ((==_iff place 1).0 first))
  | inr other ↦ rw other
]

-- After bytes that fit, line buffering keeps no line feed in the buffer, unless the last one is the
-- first byte of the buffer: then everything stays.
pub append_fitting_line :
    (bytes : List ℕ) (s : LogStream)
    → behind_newline (length (s.text ++ bytes)) (s.text ++ bytes) ≢ 1
    → (k : ℕ) → k < length (append_fitting true bytes s).text
    → get_elem? (append_fitting true bytes s).text k ≢ some b'\n'
unfolding append_fitting
append_fitting_line bytes s h k inside e =
    let all = s.text ++ bytes in
    let place = behind_newline (length all) all in
    let f = flush_line-eq place (record s { text = all }) h in
    let room : k < length (drop place all) = subst (λ t. k < length t.text) f inside in
    behind_newline-Clear (length all) all (place + k) (omega arith)
      (omega (arith, length-drop place all))
      (sym (get_elem?-drop place k (place + k) all refl)
        ∙ subst (λ t. get_elem? t.text k ≡ some b'\n') f e)

flush_faults : (s : LogStream) (k : ℕ) → s.end_at ≡ negsuc k → make_room s ≡ fault
unfolding make_room
flush_faults s k h = ground arith

moved_before : (e : ℤ) (n place : ℕ) → e ≡ pos n → n < place → (k : ℕ) × (e -ℤ pos place ≡ negsuc k)
moved_before e n place h late = (place - n - 1, rw h (ground arith))

append-faults :
    (fuel : ℕ) (s : LogStream) (bytes more : List ℕ) (k : ℕ)
    → length bytes < avail s
    → (append_fitting true bytes s).end_at ≡ negsuc k
    → avail (append_fitting true bytes s) ≤ length more
    → (append true (suc fuel) bytes s >>= append true (suc fuel) more) ≡ fault
unfolding append
append-faults fuel s bytes more k fit behind full =
    let full' = ltb_ge (length more) (avail (append_fitting true bytes s)) full in
    rw (lt→ltb _ _ fit, append)
      (rw (full', append, flush_faults (append_fitting true bytes s) k behind))

-- The code's error: if that last line feed stands behind `_end` (it belongs to the record that is
-- being written), `_end` is moved before the buffer, and the next bytes of the record that do not
-- fit make `flush` read outside of it.
pub append_after_line_faults :
    (fuel : ℕ) (s : LogStream) (v : IsValid s) (bytes more : List ℕ)
    → length bytes < avail s
    → behind_newline (length (s.text ++ bytes)) (s.text ++ bytes) ≢ 1
    → v.done < behind_newline (length (s.text ++ bytes)) (s.text ++ bytes)
    → avail (append_fitting true bytes s) ≤ length more
    → (append true (suc fuel) bytes s >>= append true (suc fuel) more) ≡ fault
unfolding append_fitting
append_after_line_faults fuel s v bytes more fit h late full =
    let all = s.text ++ bytes in
    let place = behind_newline (length all) all in
    let (k, behind) = moved_before s.end_at v.done place v.end_is late in
    append-faults fuel s bytes more k fit
      (ap (λ t. t.end_at) (flush_line-eq place (record s { text = all }) h) ∙ behind) full
