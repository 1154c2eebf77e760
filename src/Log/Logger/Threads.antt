-- ===== src/Log/Logger/Threads.antt =====
-- Each thread logs to a stream of its own.
use cpp_utils.Base.{
  ℕ, suc, ◌≤◌, ◌≡◌, ◌≢◌, refl, sym, ap, ◌∙◌, inl, inr, Bool-cases, Option-cases, arith, Option,
  none, some, [], ◌∷◌, ◌++◌, ◌==◌, ==_iff, ==_false, put, put_same, put_other, put-cases,
  some_injective, Outcome, ok, ◌>>=◌,
}
use cpp_utils.Log.Stream.{LogStream, new_stream}
use cpp_utils.Log.Logger.{Logger, stream_at, store, own_stream, stream, make_at}
use cpp_utils.Log.Logger.Streams.{
  stream_at-store_same, stream_at-store_other, stream_at-append_same, stream_at-append_other,
}

-- The stream of a thread.
abbrev pub stream_of : Logger → ℕ → Option LogStream
stream_of l thread = elim (l.t_stream thread) [ none ↦ none | some p ↦ stream_at l.streams p ]

-- A thread that has a stream has one that is there, and no other thread has it.
pub record IsValid (l : Logger) : Type 0 where
  pub attached :
      (thread p : ℕ)
      → l.t_stream thread ≡ some p
      → (s : LogStream) × (stream_at l.streams p ≡ some s)
  pub apart :
      (thread other p : ℕ) → l.t_stream thread ≡ some p → l.t_stream other ≡ some p → thread ≡ other
  pub unused : (p : ℕ) → l.next ≤ p → stream_at l.streams p ≡ none

-- The stream that a thread logs to next, which may be new.
abbrev pub own : Option LogStream → LogStream
own none = new_stream []
own (some s) = s

pub stream_of-some :
    (l : Logger) (thread p : ℕ)
    → l.t_stream thread ≡ some p
    → stream_of l thread ≡ stream_at l.streams p
stream_of-some l thread p has = rw (has, stream_of)

pub stream_of-none :
    (l : Logger) (thread : ℕ) → l.t_stream thread ≡ none → stream_of l thread ≡ none
stream_of-none l thread has_none = rw (has_none, stream_of)

-- The logger with a stream for one more thread.
abbrev pub with_stream : ℕ → Logger → Logger
with_stream thread l = record l {
  streams = l.streams ++ ((l.next, new_stream []) ∷ []);
  next = suc l.next;
  tms = suc l.tms;
  t_stream = put thread (some l.next) l.t_stream;
}

module _ (thread : ℕ) (l : Logger) (valid : IsValid l) where
  -- What was there is at another address than the new stream.
  old_stream :
      (p : ℕ) (s : LogStream)
      → stream_at l.streams p ≡ some s
      → stream_at (with_stream thread l).streams p ≡ some s
  old_stream p s there =
      stream_at-append_other l.streams l.next p (new_stream [])
        (λ e. cc (there, ap (stream_at l.streams) e, valid.unused l.next (omega arith)))
      ∙ there

  new_stream_there : stream_at (with_stream thread l).streams l.next ≡ some (new_stream [])
  new_stream_there =
      stream_at-append_same l.streams l.next (new_stream []) (valid.unused l.next (omega arith))

  taken : (other p : ℕ) → l.t_stream other ≡ some p → p ≢ l.next
  taken other p has e =
      let (s, there) = valid.attached other p has in
      cc (there, ap (stream_at l.streams) e, valid.unused l.next (omega arith))

  with_stream-IsValid : IsValid (with_stream thread l)
  with_stream-IsValid = record {
    attached = λ t p found. elim (put-cases thread _ l.t_stream t p found) [
      | inl (_, same) ↦
          let at : l.next ≡ p = some_injective p l.next p same in
          (new_stream [], ap (stream_at (with_stream thread l).streams) (sym at) ∙ new_stream_there)
      | inr (_, found') ↦ let (s, there) = valid.attached t p found' in (s, old_stream p s there)
    ];
    apart = λ t u p at_t at_u. elim (put-cases thread _ l.t_stream t p at_t) [
      | inl (t_is, same) ↦ elim (put-cases thread _ l.t_stream u p at_u) [
        | inl (u_is, _) ↦ t_is ∙ sym u_is
        | inr (_, at_u') ↦ absurd (taken u p at_u' (sym (some_injective p l.next p same)))
      ]
      | inr (_, at_t') ↦ elim (put-cases thread _ l.t_stream u p at_u) [
        | inl (_, same) ↦ absurd (taken t p at_t' (sym (some_injective p l.next p same)))
        | inr (_, at_u') ↦ valid.apart t u p at_t' at_u'
      ]
    ];
    unused = λ p le.
        stream_at-append_other l.streams l.next p (new_stream []) (λ e. omega (arith, e, le))
        ∙ valid.unused p (omega (arith, le));
  }

  with_stream-other :
      (other : ℕ) → other ≢ thread → stream_of (with_stream thread l) other ≡ stream_of l other
  with_stream-other other differ = elim (Option-cases (l.t_stream other)) [
    | inl has_none ↦
        stream_of-none (with_stream thread l) other
          (put_other thread _ l.t_stream other differ ∙ has_none)
        ∙ sym (stream_of-none l other has_none)
    | inr (p, has) ↦
        let (s, there) = valid.attached other p has in
        stream_of-some (with_stream thread l) other p
          (put_other thread _ l.t_stream other differ ∙ has)
        ∙ old_stream p s there
        ∙ sym (stream_of-some l other p has ∙ there)
  ]

  -- `own_stream` gives a thread an address, and keeps everything that there was.
  own_stream_lem :
      (p : ℕ) × (l' : Logger) × (own_stream thread l ≡ (p, l'))
      × IsValid l'
      × (l'.t_stream thread ≡ some p)
      × (stream_at l'.streams p ≡ some (own (stream_of l thread)))
      × ((other : ℕ) → other ≢ thread → stream_of l' other ≡ stream_of l other)
  unfolding own_stream
  own_stream_lem = elim (Option-cases (l.t_stream thread)) [
    | inl none_yet ↦ (
      l.next,
      with_stream thread l,
      rw (none_yet, own_stream),
      with_stream-IsValid,
      put_same thread _ l.t_stream,
      new_stream_there ∙ ap (λ o. some (own o)) (sym (stream_of-none l thread none_yet)),
      with_stream-other,
    )
    | inr (p, has) ↦
        let (s, there) = valid.attached thread p has in
        (
          p,
          l,
          rw (has, own_stream),
          valid,
          has,
          there ∙ ap (λ o. some (own o)) (sym (stream_of-some l thread p has ∙ there)),
          λ other differ. refl,
        )
  ]

pub make_at_lem :
    (make : LogStream → Outcome LogStream) (p : ℕ) (l : Logger) (old s : LogStream)
    → stream_at l.streams p ≡ some old
    → make old ≡ ok s
    → make_at make p l ≡ ok (record l { streams = store l.streams p s })
unfolding make_at
make_at_lem make p l old s there made = rw (there, make_at, made, ◌>>=◌)

-- Another stream in the place of one that is there.
module _ (l : Logger) (valid : IsValid l) (p : ℕ) (old s : LogStream)
    (there : stream_at l.streams p ≡ some old) where
  store-IsValid : IsValid (record l { streams = store l.streams p s })
  store-IsValid = record {
    attached = λ t q has. elim (Bool-cases (q == p)) [
      | inl e ↦
          let same = (==_iff q p).0 e in
          (
            s,
            ap (stream_at (store l.streams p s)) same
                ∙ stream_at-store_same l.streams p old s there,
          )
      | inr e ↦
          let (s', there') = valid.attached t q has in
          (s', stream_at-store_other l.streams p q s (==_false q p e) ∙ there')
    ];
    apart = valid.apart;
    unused = λ q le.
        stream_at-store_other l.streams p q s
          (λ e. cc (there, ap (stream_at l.streams) e, valid.unused q le))
        ∙ valid.unused q le;
  }

  store-other :
      (thread : ℕ)
      → l.t_stream thread ≡ some p
      → (other : ℕ) → other ≢ thread
      → stream_of (record l { streams = store l.streams p s }) other ≡ stream_of l other
  store-other thread has other differ = elim (Option-cases (l.t_stream other)) [
    | inl has_none ↦
        stream_of-none (record l { streams = store l.streams p s }) other has_none
        ∙ sym (stream_of-none l other has_none)
    | inr (q, has') ↦
        stream_of-some (record l { streams = store l.streams p s }) other q has'
        ∙ stream_at-store_other l.streams p q s
            (λ e. differ (valid.apart other thread p (has' ∙ ap some e) has))
        ∙ sym (stream_of-some l other q has')
  ]

-- Log statements of a thread go to a stream of its own. If `makeLog`, and what is put behind it, works
-- on that stream, which may be new and empty, then `stream` works, leaves this as the stream of the
-- thread, and the stream of every other thread as it was.
pub stream_lem :
    (make : LogStream → Outcome LogStream) (thread : ℕ) (l : Logger) (s : LogStream)
    → IsValid l
    → make (own (stream_of l thread)) ≡ ok s
    → (l' : Logger) × (stream make thread l ≡ ok l')
      × IsValid l'
      × (stream_of l' thread ≡ some s)
      × ((other : ℕ) → other ≢ thread → stream_of l' other ≡ stream_of l other)
unfolding stream
stream_lem make thread l s valid made =
    let (p, l1, e, valid1, has, there, others) = own_stream_lem thread l valid in
    let l' = record l1 { streams = store l1.streams p s } in
    (
      l',
      ap (λ (o : ℕ × Logger). make_at make o.0 o.1) e ∙ make_at_lem make p l1 _ s there made,
      store-IsValid l1 valid1 p _ s there,
      stream_of-some l' thread p has ∙ stream_at-store_same l1.streams p _ s there,
      λ other differ.
          store-other l1 valid1 p _ s there thread has other differ ∙ others other differ,
    )
