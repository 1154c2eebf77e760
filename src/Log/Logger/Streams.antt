-- ===== src/Log/Logger/Streams.antt =====
-- The streams of a logger, by their addresses.
use cpp_utils.Base.{
  ℕ, ◌≡◌, ◌≢◌, refl, sym, ◌∙◌, inl, inr, Bool-cases, none, some, List, [], ◌∷◌, ◌++◌, ◌==◌, ==_iff,
  ==_differ,
}
use cpp_utils.Log.Stream.{LogStream}
use cpp_utils.Log.Logger.{stream_at, store}

pub stream_at-store_same :
    (streams : List (ℕ × LogStream)) (p : ℕ) (old s : LogStream)
    → stream_at streams p ≡ some old
    → stream_at (store streams p s) p ≡ some s
unfolding stream_at store
stream_at-store_same [] p old s found = cc found
stream_at-store_same ((r, x) ∷ streams) p old s found = elim (Bool-cases (r == p)) [
  | inl e ↦ rw (e, store, stream_at, e)
  | inr e ↦ rw (e, store, stream_at, e) (stream_at-store_same streams p old s (rw e at found))
]

pub stream_at-store_other :
    (streams : List (ℕ × LogStream)) (p q : ℕ) (s : LogStream)
    → q ≢ p
    → stream_at (store streams p s) q ≡ stream_at streams q
unfolding stream_at store
stream_at-store_other [] p q s differ = refl
stream_at-store_other ((r, x) ∷ streams) p q s differ = elim (Bool-cases (r == p)) [
  | inl e ↦ rw (e, store, stream_at, ==_differ r q (λ same. differ (sym same ∙ (==_iff r p).0 e)))
  | inr e ↦ rw (e, store, stream_at, stream_at-store_other streams p q s differ)
]

pub stream_at-append_same :
    (streams : List (ℕ × LogStream)) (p : ℕ) (s : LogStream)
    → stream_at streams p ≡ none
    → stream_at (streams ++ ((p, s) ∷ [])) p ≡ some s
unfolding stream_at
stream_at-append_same [] p s absent = rw ((==_iff p p).1 refl)
stream_at-append_same ((r, x) ∷ streams) p s absent = elim (Bool-cases (r == p)) [
  | inl e ↦ cc (rw e at absent)
  | inr e ↦ rw e (stream_at-append_same streams p s (rw e at absent))
]

pub stream_at-append_other :
    (streams : List (ℕ × LogStream)) (p q : ℕ) (s : LogStream)
    → q ≢ p
    → stream_at (streams ++ ((p, s) ∷ [])) q ≡ stream_at streams q
unfolding stream_at
stream_at-append_other [] p q s differ = rw (==_differ p q (λ e. differ (sym e)))
stream_at-append_other ((r, x) ∷ streams) p q s differ = elim (Bool-cases (r == q)) [
  | inl e ↦ rw e
  | inr e ↦ rw e (stream_at-append_other streams p q s differ)
]
