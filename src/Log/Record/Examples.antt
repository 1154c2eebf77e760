-- ===== src/Log/Record/Examples.antt =====
-- Records of log/logStream.cpp on concrete input, and the theorems there.
use cpp_utils.Base.{
  ℕ, ◌≡◌, ◌<◌, refl, arith, true, false, List, [], ◌∷◌, ◌++◌, length, replicate, Outcome, ok,
}
use cpp_utils.Base.Int.{pos}
use cpp_utils.Log.Calendar.{Tm}
use cpp_utils.Log.Format.{format_integer, decimal_from}
use cpp_utils.Log.Stream.{LogStream, k_buffer_size, new_stream}
use cpp_utils.Log.Stream.Full.{IsValid, history}
use cpp_utils.Log.Record.{TimeCache, six_digits, format_time, make_log}
use cpp_utils.Log.Record.Prefix.{IsCached, prefix_text, format_time_lem, make_log_lem}

-- A `strftime` that prints zeros.
abbrev zeros : Tm → List ℕ
zeros tm = replicate 19 b'0'

abbrev no_cache : TimeCache
no_cache = record { text = []; last_secs = 0; need_flush = true }

no_cache-IsCached : IsCached zeros no_cache
no_cache-IsCached after = absurd (after refl)

format_time_lem_example :
    ((format_time zeros true 1709208000000042 no_cache).text
      ≡ replicate 19 b'0' ++ (b'.' ∷ six_digits 42))
    × IsCached zeros (format_time zeros true 1709208000000042 no_cache)
    × ((format_time zeros true 1709208000000042 no_cache).last_secs ≡ 1709208000)
format_time_lem_example =
    format_time_lem zeros true 1709208000000042 no_cache no_cache-IsCached (omega arith) refl

seven_run : format_integer (pos 7) ≡ ok (b'7' ∷ [])
unfolding format_integer
seven_run = refl

same_text : {m : Outcome (List ℕ)} {a b : List ℕ} → m ≡ ok a → m ≡ ok b → b ≡ a
same_text e e' = cc

-- The cache after a time in which only the flush that was asked for is taken back.
abbrev cached : TimeCache
cached = format_time zeros true 1709208000000042 (record no_cache { need_flush = false })

seven_fits :
    (t l : List ℕ)
    → format_integer (pos 7) ≡ ok t
    → format_integer (pos 7) ≡ ok l
    → length (prefix_text zeros cached.text t (b'I' ∷ []) (b'f' ∷ []) l) < k_buffer_size
unfolding format_time
seven_fits t l et el =
    let same_t = same_text seven_run et in
    let same_l = same_text seven_run el in rw (same_t, same_l) (omega arith)

make_log_lem_example :
    (t : List ℕ) × (l : List ℕ) × (s' : LogStream) × (make_log zeros false 2 1709208000000042 7
        (b'I' ∷ [])
        (b'f' ∷ [])
        7
        no_cache
        (new_stream [])
      ≡ ok (cached, s'))
    × (history s' ≡ prefix_text zeros cached.text t (b'I' ∷ []) (b'f' ∷ []) l)
    × (decimal_from 0 t ≡ 7)
    × (decimal_from 0 l ≡ 7)
    × IsValid s'
make_log_lem_example =
    make_log_lem zeros 0 1709208000000042 7 (b'I' ∷ []) (b'f' ∷ []) 7 no_cache (new_stream [])
      (record { done = 0; end_is = refl; end-le = omega arith; fits = omega arith }) seven_fits
