-- ===== src/Log/Appender.antt =====
-- log/appender.h: where the backend writes to.
use cpp_utils.Base.{
  ℕ, ◌≡◌, refl, sym, ap, ◌∙◌, Option, none, some, List, [], ◌∷◌, ◌++◌, append_assoc, append-nil,
  Outcome, ok, fault, ◌>>=◌,
}
use cpp_utils.Log.Async.{joined}

-- `AppenderFile`: what is in the file that `_openFile` stands for, or nothing if `fopen` has failed.
pub record AppenderFile : Type 0 where
  pub open_file : Option (List ℕ)

-- `AppenderFile(basename)`, where `contents` is what the file holds, if it can be opened to append.
abbrev pub new_appender : Option (List ℕ) → AppenderFile
new_appender contents = record { open_file = contents }

-- `append(logline, len)`: `fwrite` to a null pointer is undefined.
unfoldable pub append : List ℕ → AppenderFile → Outcome AppenderFile
append logline f = elim f.open_file [
  | none ↦ fault
  | some contents ↦ ok (record { open_file = some (contents ++ logline) })
]

-- `~AppenderFile()`: what the file holds in the end; `fclose` of a null pointer is undefined.
unfoldable pub destroy : AppenderFile → Outcome (List ℕ)
destroy f = elim f.open_file [ none ↦ fault | some contents ↦ ok contents ]

-- `append` of the classes `Appender` and `AppenderStdout`
abbrev pub append_nowhere : {A : Type 0} → List ℕ → A → A
append_nowhere logline f = f

-- The loop at the end of a round of `mainRoutine`.
unfoldable pub append_each : List (List ℕ) → AppenderFile → Outcome AppenderFile
unfolding append
append_each [] f = ok f
append_each (buf ∷ buffers) f = append buf f >>= append_each buffers

-- A file that was opened to append, and into which buffers were written, holds in the end what it held
-- before and then the buffers in their order. One that could not be opened is not closed.
pub append_each-destroy :
    (buffers : List (List ℕ)) (contents : List ℕ)
    → ((append_each buffers (new_appender (some contents)) >>= destroy)
        ≡ ok (contents ++ joined buffers))
      × ((append_each buffers (new_appender none) >>= destroy) ≡ fault)
unfolding append_each append destroy
append_each-destroy [] contents = (ap ok (sym (append-nil contents)), refl)
append_each-destroy (buf ∷ buffers) contents = (
  (append_each-destroy buffers (contents ++ buf)).0
      ∙ ap ok (append_assoc contents buf (joined buffers)),
  refl,
)
