-- ===== src/Log/Record/Prefix.antt =====
-- log/logStream.cpp: the cached time is the time, and `makeLog` puts the whole prefix of a record into
-- the stream.
use cpp_utils.Base.{
  ℕ, suc, ◌/◌, ◌%◌, ◌≤◌, ◌<◌, ◌≡◌, ◌≢◌, refl, sym, ap, subst, ◌∙◌, inl, inr, arith, Bool, true,
  false, not, ◌&&◌, Bool-cases, some, List, [], ◌∷◌, ◌++◌, length, take, length-append, take_all,
  take-append_length, append_assoc, ltb_ge, ◌==◌, ==_iff, if◌then◌else◌, ok, ◌>>=◌,
}
use cpp_utils.Base.Int.{pos}
use cpp_utils.Log.Calendar.{Tm}
use cpp_utils.Log.Format.{format_integer, decimal_from, format_integer-decimal}
use cpp_utils.Log.Stream.{LogStream, k_buffer_size, append, append_all}
use cpp_utils.Log.Stream.Full.{IsValid, history}
use cpp_utils.Log.Stream.Records.{joined, append_all-history, flush_if_needed-fresh}
use cpp_utils.Log.Record.{
  Value, of_text, render, put_all, TimeCache, six_digits, date_text, format_time, prefix_values,
  make_log,
}

-- The texts of operands in a row.
abbrev Renders : List Value → List (List ℕ) → Type 0
Renders [] [] = Unit
Renders [] (t ∷ ts) = ⊥
Renders (v ∷ vs) [] = ⊥
Renders (v ∷ vs) (t ∷ ts) = (render v ≡ ok t) × Renders vs ts

put_all-append_all :
    (line_buffered : Bool) (fuel : ℕ) (vs : List Value) (ts : List (List ℕ)) (s : LogStream)
    → Renders vs ts
    → put_all line_buffered fuel vs s ≡ append_all line_buffered fuel ts s
unfolding put_all append_all
put_all-append_all line_buffered fuel [] [] s h = refl
put_all-append_all line_buffered fuel [] (t ∷ ts) s h = absurd h
put_all-append_all line_buffered fuel (v ∷ vs) [] s h = absurd h
put_all-append_all line_buffered fuel (v ∷ vs) (t ∷ ts) s (e, h) = rw e (
    ap (λ k. append line_buffered fuel t s >>= k)
      (λ i s'. put_all-append_all line_buffered fuel vs ts s' h i))

module _ (strftime : Tm → List ℕ) where
  -- The cache holds the date of its second, a point and six digits, or nothing.
  abbrev pub IsCached : TimeCache → Type 0
  IsCached c =
      c.last_secs ≢ 0
      → (length (date_text strftime c.last_secs) ≡ 19)
        × (us : ℕ) × (c.text ≡ date_text strftime c.last_secs ++ (b'.' ∷ six_digits us))

  -- A cache that was brought to a time.
  abbrev IsRight : ℕ → TimeCache → Type 0
  IsRight micro_secs c =
      (c.text
        ≡ date_text strftime (micro_secs / 1000000) ++ (b'.' ∷ six_digits (micro_secs % 1000000)))
      × IsCached c
      × (c.last_secs ≡ micro_secs / 1000000)

  brought-IsRight :
      (micro_secs secs : ℕ) (c : TimeCache)
      → secs ≡ micro_secs / 1000000
      → length (date_text strftime secs) ≡ 19
      → c.text ≡ date_text strftime secs ++ (b'.' ∷ six_digits (micro_secs % 1000000))
      → c.last_secs ≡ secs
      → IsRight micro_secs c
  brought-IsRight micro_secs secs c at short text last = (
    text ∙ ap (λ s. date_text strftime s ++ (b'.' ∷ six_digits (micro_secs % 1000000))) at,
    λ _. (
      ap (λ s. length (date_text strftime s)) last ∙ short,
      micro_secs % 1000000,
      text
          ∙ ap (λ s. date_text strftime s ++ (b'.' ∷ six_digits (micro_secs % 1000000))) (sym last),
    ),
    last ∙ at,
  )

  format_time_same :
      (full_buffer : Bool) (micro_secs : ℕ) (c : TimeCache)
      → (micro_secs / 1000000 == c.last_secs) ≡ true
      → 20 ≤ length c.text
      → format_time strftime full_buffer micro_secs c
        ≡ record c { text = take 20 c.text ++ six_digits (micro_secs % 1000000) }
  unfolding format_time
  format_time_same full_buffer micro_secs c same long = rw (same, ltb_ge (length c.text) 20 long)

  format_time_new :
      (full_buffer : Bool) (micro_secs : ℕ) (c : TimeCache)
      → (micro_secs / 1000000 == c.last_secs) ≡ false
      → format_time strftime full_buffer micro_secs c ≡ record {
        text = take 63 (
            date_text strftime (micro_secs / 1000000)
            ++ (b'.' ∷ six_digits (micro_secs % 1000000)));
        last_secs = micro_secs / 1000000;
        need_flush = if not (c.last_secs == 0) && full_buffer then true else c.need_flush;
      }
  unfolding format_time
  format_time_new full_buffer micro_secs c other = rw other

  -- The date and the point are the first 20 characters.
  take_date :
      (date : List ℕ) (us vs : ℕ)
      → length date ≡ 19
      → take 20 (date ++ (b'.' ∷ six_digits us)) ++ six_digits vs ≡ date ++ (b'.' ∷ six_digits vs)
  take_date date us vs short =
      ap (λ t. take 20 t ++ six_digits vs) (sym (append_assoc date (b'.' ∷ []) (six_digits us)))
      ∙ ap (λ t. t ++ six_digits vs)
          (take-append_length 20 (date ++ (b'.' ∷ [])) (six_digits us)
            (omega (arith, length-append date (b'.' ∷ []))))
      ∙ append_assoc date (b'.' ∷ []) (six_digits vs)

  -- With a cache that is right, `formatTime` at a time after the first second of 1970 returns the date
  -- of its second, a point and the six digits of its microseconds, whether the second is cached or not,
  -- and leaves a right cache of that second. The text of that date is supposed to have 19 characters.
  pub format_time_lem :
      (full_buffer : Bool) (micro_secs : ℕ) (c : TimeCache)
      → IsCached c
      → 1000000 ≤ micro_secs
      → length (date_text strftime (micro_secs / 1000000)) ≡ 19
      → let c' = format_time strftime full_buffer micro_secs c in
        let date = date_text strftime (micro_secs / 1000000) in
        (c'.text ≡ date ++ (b'.' ∷ six_digits (micro_secs % 1000000)))
        × IsCached c'
        × (c'.last_secs ≡ micro_secs / 1000000)
  format_time_lem full_buffer micro_secs c cached late short =
      elim (Bool-cases (micro_secs / 1000000 == c.last_secs)) [
        | inl same ↦
            let at : micro_secs / 1000000 ≡ c.last_secs = (==_iff _ _).0 same in
            let after_start : ◌≢◌ {A = ℕ} c.last_secs 0 = omega (arith, at, late) in
            let (n, us, text) = cached after_start in
            let long : 20 ≤ length c.text = omega (
              arith,
              ap length text,
              length-append (date_text strftime c.last_secs) (b'.' ∷ six_digits us),
            ) in
            subst (IsRight micro_secs) (sym (format_time_same full_buffer micro_secs c same long)) (
              brought-IsRight micro_secs c.last_secs
                (record c { text = take 20 c.text ++ six_digits (micro_secs % 1000000) }) (sym at) n
                (ap (λ t. take 20 t ++ six_digits (micro_secs % 1000000)) text
                  ∙ take_date (date_text strftime c.last_secs) us (micro_secs % 1000000) n)
                refl)
        | inr other ↦
            let date = date_text strftime (micro_secs / 1000000) in
            subst (IsRight micro_secs) (sym (format_time_new full_buffer micro_secs c other)) (
              brought-IsRight micro_secs (micro_secs / 1000000)
                (record {
                  text = take 63 (date ++ (b'.' ∷ six_digits (micro_secs % 1000000)));
                  last_secs = micro_secs / 1000000;
                  need_flush = if not (c.last_secs == 0) && full_buffer then true else c.need_flush;
                })
                refl short
                (take_all 63 (date ++ (b'.' ∷ six_digits (micro_secs % 1000000)))
                  (omega (arith, length-append date (b'.' ∷ six_digits (micro_secs % 1000000)))))
                refl)
      ]

  -- The bytes of a prefix: the time, the thread, the level, the file and the line.
  abbrev pub prefix_text : List ℕ → List ℕ → List ℕ → List ℕ → List ℕ → List ℕ
  prefix_text time tid level filename line = joined (
      time
      ∷ (b' ' ∷ [])
      ∷ tid
      ∷ (b' ' ∷ [])
      ∷ level
      ∷ (b' ' ∷ [])
      ∷ filename
      ∷ (b':' ∷ [])
      ∷ line
      ∷ (b' ' ∷ b'-' ∷ b' ' ∷ [])
      ∷ [])

  -- With full buffering and a prefix that fits the buffer, `makeLog` returns, whether a flush was asked
  -- for or not: it puts the time that `formatTime` returns, the digits of the thread and of the line,
  -- the level and the file name behind all that was given to the stream, and leaves a valid stream.
  pub make_log_lem :
      (fuel micro_secs tid : ℕ) (level filename : List ℕ) (line : ℕ) (c : TimeCache) (s : LogStream)
      → IsValid s
      → ((t l : List ℕ)
          → format_integer (pos tid) ≡ ok t
          → format_integer (pos line) ≡ ok l
          → length (
              prefix_text
                (format_time strftime true micro_secs (record c { need_flush = false })).text
                t
                level
                filename
                l)
            < k_buffer_size)
      → let c' = format_time strftime true micro_secs (record c { need_flush = false }) in
        (t : List ℕ) × (l : List ℕ) × (s' : LogStream) × (make_log strftime false
            (suc (suc fuel))
            micro_secs
            tid
            level
            filename
            line
            c
            s
          ≡ ok (c', s'))
        × (history s' ≡ history s ++ prefix_text c'.text t level filename l)
        × (decimal_from 0 t ≡ tid)
        × (decimal_from 0 l ≡ line)
        × IsValid s'
  unfolding make_log render
  make_log_lem fuel micro_secs tid level filename line c s v fits =
      let c' = format_time strftime true micro_secs (record c { need_flush = false }) in
      let (t, et, vt, _, _) = format_integer-decimal tid in
      let (l, el, vl, _, _) = format_integer-decimal line in
      let small = fits t l et el in
      let (s1, e1, v1, o1, b1) = flush_if_needed-fresh c.need_flush s v in
      let pieces : List (List ℕ) =
        c'.text
        ∷ (b' ' ∷ [])
        ∷ t
        ∷ (b' ' ∷ [])
        ∷ level
        ∷ (b' ' ∷ [])
        ∷ filename
        ∷ (b':' ∷ [])
        ∷ l
        ∷ (b' ' ∷ b'-' ∷ b' ' ∷ [])
        ∷ [] in
      let (s2, e2, v2, b2) = append_all-history fuel pieces s1 v1 (omega (arith, small, o1)) in
      let put =
        put_all-append_all false (suc (suc fuel))
          (of_text (some c'.text) ∷ prefix_values tid level filename line) pieces s1
          (refl, (refl, (et, (refl, (refl, (refl, (refl, (refl, (el, (refl, tt)))))))))) in
      (t, l, s2, rw (e1, ◌>>=◌, put, e2), b2 ∙ ap (λ h. h ++ joined pieces) b1, vt, vl, v2)
