-- ===== src/Provider/Broken.antt =====
-- What session_consumer (src/provider_agent.cc) does with a read that brings no whole request.
use ali_middleware.Common.{
  String, ◌<◌, ◌≡◌, refl, ◌∙◌, ap, inl, inr, ◌⊎◌, false, Option, List, [], ◌∷◌, ◌++◌, arith, length,
}
use ali_middleware.Common.Buffer.{c_string-filled, c_string-full}
use ali_middleware.Common.Except.{Except}
use ali_middleware.Common.Rlib.{Rlib, IsParts, join_spec}
use ali_middleware.Common.Run.{Run, ok, fault}
use ali_middleware.Common.Text.{Text, contains}
use ali_middleware.Provider.{
  Read, got, eof, RequestResult, Round, read_some, req_args, arg_at, serve_one, serve_all,
  finish_session, session_consumer,
}
use ali_middleware.Provider.Serve.{AllAnswered, serve_all-answers}

-- A read behind which the session has no four arguments: the peer has closed the connection; fewer
-- than four lines have come; or 2048 bytes have come with no zero among them.
pub data IsBroken (read : Read) : Type 0 where
  closed : read ≡ eof → IsBroken read
  cut_short :
      (line : Text) (lines : List Text)
      → IsParts b'\n' (line ∷ lines)
      → length lines < 3
      → contains 0 (join_spec b'\n' (line ∷ lines)) ≡ false
      → length (join_spec b'\n' (line ∷ lines)) < 2048
      → read ≡ got (join_spec b'\n' (line ∷ lines))
      → IsBroken read
  unended :
      (bytes : Text)
      → contains 0 bytes ≡ false
      → length bytes ≡ 2048
      → read ≡ got bytes
      → IsBroken read

one_at_most : (l : List Text) → length l < 2 → (l ≡ []) ⊎ ((x : Text) × (l ≡ x ∷ []))
one_at_most [] le = inl refl
one_at_most (x ∷ []) le = inr (x, refl)
one_at_most (x ∷ y ∷ l) le = absurd (omega arith)

module _ (rlib : Rlib) where
  -- With these arguments or without any, whatever dubbo would answer.
  abbrev Lacks : Text → Type 0
  Lacks bytes =
      (w : List Text)
      → (req_args rlib bytes w ≡ fault)
        ⊎ ((args : List Text) × (req_args rlib bytes w ≡ ok args w) × (length args < 4))

  serve_one-args :
      (dubbo : Text → Text → Text → Text → Except RequestResult) (bytes : Text) (w : List Text)
      (args : List Text)
      → req_args rlib bytes w ≡ ok args w
      → length args < 4
      → serve_one rlib (record { read = got bytes; dubbo = dubbo }) w ≡ fault
  unfolding serve_one read_some arg_at
  serve_one-args dubbo bytes w [] e lt = rw e refl
  serve_one-args dubbo bytes w (a ∷ []) e lt = rw e refl
  serve_one-args dubbo bytes w (a ∷ b ∷ []) e lt = rw e refl
  serve_one-args dubbo bytes w (a ∷ b ∷ c ∷ []) e lt = rw e refl
  serve_one-args dubbo bytes w (a ∷ b ∷ c ∷ d ∷ rest) e lt = absurd (omega arith)

  serve_one-Lacks :
      (dubbo : Text → Text → Text → Text → Except RequestResult) (bytes : Text) (w : List Text)
      → Lacks bytes
      → serve_one rlib (record { read = got bytes; dubbo = dubbo }) w ≡ fault
  unfolding serve_one read_some
  serve_one-Lacks dubbo bytes w lacks = elim (lacks w) [
    | inl e ↦ rw e refl
    | inr (args, e, lt) ↦ serve_one-args dubbo bytes w args e lt
  ]

  -- The end of the connection reads like no bytes.
  serve_one-eof :
      (dubbo : Text → Text → Text → Text → Except RequestResult) (w : List Text)
      → serve_one rlib (record { read = eof; dubbo = dubbo }) w
        ≡ serve_one rlib (record { read = got []; dubbo = dubbo }) w
  unfolding serve_one read_some
  serve_one-eof dubbo w = refl

  Lacks-nil : Lacks []
  unfolding req_args
  Lacks-nil w = inr (rlib.split [] b'\n', refl, omega (arith, rlib.split-nil b'\n'))

  Lacks-cut_short :
      (line : Text) (lines : List Text)
      → IsParts b'\n' (line ∷ lines)
      → length lines < 3
      → contains 0 (join_spec b'\n' (line ∷ lines)) ≡ false
      → length (join_spec b'\n' (line ∷ lines)) < 2048
      → Lacks (join_spec b'\n' (line ∷ lines))
  unfolding req_args
  Lacks-cut_short line lines parts few text short w =
      let e = c_string-filled 2048 (join_spec b'\n' (line ∷ lines)) short text in
      inr (
        line ∷ lines,
        rw (e, req_args) (ap (λ l. ok l w) (rlib.split-parts b'\n' line lines parts)),
        omega arith,
      )

  Lacks-unended : (bytes : Text) → contains 0 bytes ≡ false → length bytes ≡ 2048 → Lacks bytes
  unfolding req_args
  Lacks-unended bytes text full w = inl (rw (c_string-full 2048 bytes full text, req_args) refl)

  serve_one-IsBroken : (r : Round) (w : List Text) → IsBroken r.read → serve_one rlib r w ≡ fault
  serve_one-IsBroken r w broken =
      let with_read : Read → Run (List Text) (Unit {0}) =
        λ x. serve_one rlib (record { read = x; dubbo = r.dubbo }) w in
      elim broken [
        | closed e ↦
            ap with_read e ∙ serve_one-eof r.dubbo w ∙ serve_one-Lacks r.dubbo [] w Lacks-nil
        | cut_short line lines parts few text short e ↦
            ap with_read e
            ∙ serve_one-Lacks r.dubbo _ w (Lacks-cut_short line lines parts few text short)
        | unended bytes text full e ↦
            ap with_read e ∙ serve_one-Lacks r.dubbo bytes w (Lacks-unended bytes text full)
      ]

  -- Behind requests that were answered, a read of no whole request ends in undefined behaviour,
  -- whatever dubbo would answer: when the consumer has closed its connection, or fewer than four lines
  -- have come, the session indexes beyond the end of the arguments; when 2048 bytes without a zero
  -- have come, it reads on behind its buffer.
  pub session_consumer-IsBroken :
      (ec : Option String) (rs rest : List Round) (vs : List Text) (r : Round)
      → AllAnswered rlib rs vs
      → IsBroken r.read
      → session_consumer rlib ec (rs ++ r ∷ rest) [] ≡ fault
  unfolding session_consumer finish_session serve_all
  session_consumer-IsBroken ec rs rest vs r h broken =
      rw (serve_all-answers rlib rs (r ∷ rest) vs [] h) (rw (serve_one-IsBroken r vs broken) refl)
