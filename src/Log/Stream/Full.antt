-- ===== src/Log/Stream/Full.antt =====
-- The buffer of log/logStream.cpp with full buffering: no byte is lost, complete records go out
-- first, and an overlong record makes `append` call itself for ever.
use cpp_utils.Base.{
  ℕ, zero, suc, ◌+◌, ◌-◌, ◌^◌, ◌≤◌, ◌<◌, ◌≡◌, refl, sym, ap, ◌∙◌, arith, false, inl, inr,
  Bool-cases, List, ◌++◌, length, length-append, length-drop, take, drop, take-append-drop,
  take-append_le, append_assoc, append-nil, ltb, lt→ltb, ltb→lt, ltb→ge, ltb_ge, ok, out_of_fuel,
}
use cpp_utils.Base.Int.{pos}
use cpp_utils.Log.Stream.{LogStream, k_buffer_size, avail, append_fitting, make_room, append}

-- `_buf <= _end <= _cur`, and the text fits the buffer.
pub record IsValid (s : LogStream) : Type 0 where
  pub done : ℕ
  pub end_is : s.end_at ≡ pos done
  pub end-le : done ≤ length s.text
  pub fits : length s.text < k_buffer_size

-- The bytes of the record that is being written.
abbrev pub open_bytes : (s : LogStream) → IsValid s → ℕ
open_bytes s v = length s.text - v.done

-- All that was given to the stream, out already or in the buffer.
abbrev pub history : LogStream → List ℕ
history s = s.emitted ++ s.text

make_room-eq :
    (s : LogStream) (v : IsValid s)
    → make_room s
      ≡ ok (record {
        text = drop v.done s.text;
        end_at = pos 0;
        emitted = s.emitted ++ take v.done s.text;
      })
unfolding make_room
make_room-eq s v = ground (arith, v.end_is)

-- What an `append` that returns does: `s'` has the old bytes and the new ones, and the complete
-- records are the same ones as before.
pub record Appended (s : LogStream) (v : IsValid s) (bytes : List ℕ) (s' : LogStream) : Type 0 where
  pub valid : IsValid s'
  pub all_there : history s' ≡ history s ++ bytes
  pub same_records : s'.emitted ++ take valid.done s'.text ≡ s.emitted ++ take v.done s.text
  pub grown : open_bytes s' valid ≡ open_bytes s v + length bytes

append_fitting-Appended :
    (s : LogStream) (v : IsValid s) (bytes : List ℕ)
    → length bytes < avail s
    → Appended s v bytes (append_fitting false bytes s)
unfolding append_fitting
append_fitting-Appended s v bytes h = record {
  valid = record {
    done = v.done;
    end_is = v.end_is;
    end-le = omega (arith, v.end-le, length-append s.text bytes);
    fits = omega (arith, v.fits, length-append s.text bytes);
  };
  all_there = sym (append_assoc s.emitted s.text bytes);
  same_records = ap (◌++◌ s.emitted) (take-append_le v.done s.text bytes v.end-le);
  grown = omega (arith, v.end-le, length-append s.text bytes);
}

-- The buffer after `make_room`.
abbrev roomy : (s : LogStream) → IsValid s → LogStream
roomy s v = record {
  text = drop v.done s.text;
  end_at = pos 0;
  emitted = s.emitted ++ take v.done s.text;
}

roomy-IsValid : (s : LogStream) (v : IsValid s) → IsValid (roomy s v)
roomy-IsValid s v = record {
  done = 0;
  end_is = refl;
  end-le = omega arith;
  fits = omega (arith, v.fits, length-drop v.done s.text);
}

append-fit :
    (fuel : ℕ) (s : LogStream) (bytes : List ℕ)
    → length bytes < avail s
    → append false (suc fuel) bytes s ≡ ok (append_fitting false bytes s)
unfolding append
append-fit fuel s bytes h = rw (lt→ltb _ _ h, append)

append-full :
    (fuel : ℕ) (s : LogStream) (v : IsValid s) (bytes : List ℕ)
    → avail s ≤ length bytes
    → append false (suc fuel) bytes s ≡ append false fuel bytes (roomy s v)
unfolding append
append-full fuel s v bytes h =
    let full : ltb (length bytes) (avail s) ≡ false = ltb_ge _ _ h in
    rw (full, append, make_room-eq s v)

-- With full buffering `append` returns after at most one call of itself, if the record that is being
-- written still fits the whole buffer: no byte is lost or reordered, only complete records go out,
-- and the buffer is as it should be.
pub append-Appended :
    (fuel : ℕ) (s : LogStream) (v : IsValid s) (bytes : List ℕ)
    → open_bytes s v + length bytes < k_buffer_size
    → (s' : LogStream) × (append false (suc (suc fuel)) bytes s ≡ ok s') × Appended s v bytes s'
unfolding roomy-IsValid
append-Appended fuel s v bytes h = elim (Bool-cases (ltb (length bytes) (avail s))) [
  | inl fit ↦ (
    append_fitting false bytes s,
    append-fit (suc fuel) s bytes (ltb→lt _ _ fit),
    append_fitting-Appended s v bytes (ltb→lt _ _ fit),
  )
  | inr full ↦
      let room : length bytes < avail (roomy s v) =
        omega (arith, length-drop v.done s.text, v.end-le) in
      let r = append_fitting-Appended (roomy s v) (roomy-IsValid s v) bytes room in
      (
        append_fitting false bytes (roomy s v),
        append-full (suc fuel) s v bytes (ltb→ge _ _ full) ∙ append-fit fuel (roomy s v) bytes room,
        record {
          valid = r.valid;
          all_there =
              r.all_there
              ∙ ap (λ t. t ++ bytes)
                  (append_assoc s.emitted (take v.done s.text) (drop v.done s.text)
                    ∙ ap (◌++◌ s.emitted) (take-append-drop v.done s.text));
          same_records = r.same_records ∙ append-nil (s.emitted ++ take v.done s.text);
          grown = omega (arith, r.grown, length-drop v.done s.text);
        },
      )
]

-- Where the record and the new bytes do not fit the whole buffer, and the length of the new bytes fits
-- an `int`, as the type of `len` is, `append` calls itself for ever: no amount of fuel is enough.
pub append_overlong :
    (fuel : ℕ) (s : LogStream) (v : IsValid s) (bytes : List ℕ)
    → k_buffer_size ≤ open_bytes s v + length bytes
    → length bytes < 2 ^ 31
    → append false fuel bytes s ≡ out_of_fuel
unfolding append roomy-IsValid
append_overlong zero s v bytes h small = refl
append_overlong (suc fuel) s v bytes h small =
    append-full fuel s v bytes (omega arith)
    ∙ append_overlong fuel (roomy s v) (roomy-IsValid s v) bytes
        (omega (arith, length-drop v.done s.text)) small
