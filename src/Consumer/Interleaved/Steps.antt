-- ===== src/Consumer/Interleaved/Steps.antt =====
-- Each step of the interleaved calls of src/provider_selector.hpp keeps their connections apart.
use ali_middleware.Common.{
  if◌then◌else◌, Bool-cases, inl, inr, arith, ℕ, ◌<◌, ◌^◌, ◌≡◌, refl, sym, ◌∙◌, ap, subst, Bool,
  true, false, List, [], ◌∷◌, ◌++◌, append-nil, length, ◌==◌, if_true, if_false,
}
use mathlib.Core.Path.{subst₂}
use ali_middleware.Common.Text.{Text}
use ali_middleware.TraceableList.{Ptr}
use ali_middleware.Pool.{Construct}
use ali_middleware.Consumer.Interleaved.{
  Phase, idle, holds, awaits, read, failed, Channel, Calls, set_wire, Step, borrows, rejects,
  writes, serves, reads, releases, write_fails, read_fails, gives_up, breaks,
}
use ali_middleware.Consumer.Interleaved.Lent.{eqb_refl}
use ali_middleware.Consumer.Interleaved.Own.{Carries, IsOwn, IsOwn-at, calls, gives, borrowing}
use ali_middleware.Consumer.Interleaved.Whole.{IsWhole}
use ali_middleware.Consumer.Interleaved.Wire.{
  Carries-writes, Carries-reads, IsOwn-wire, IsOwn-phase, IsOwn-breaks, IsOwn-serves, carried,
}

-- A broken connection and one that is not.
apart : (b : Ptr → Bool) (p q : Ptr) → b p ≡ true → b q ≡ false → (q == p) ≡ false
apart b p q dead alive = elim (Bool-cases (q == p)) [
  | inl same ↦ let is_p : q ≡ p = ground arith in cc (sym dead ∙ ap b (sym is_p) ∙ alive)
  | inr other ↦ other
]

-- What is read comes over a connection.
has_sent : (got later : Text) → 0 < length got → (got ++ later ≡ []) → ⊥
has_sent [] later pos e = absurd (omega (arith, pos))
has_sent (b ∷ bs) later pos e = cc (e)

module _ {T : Type 0} (max_size : ℕ) (serve : Text → Text) where
  -- Where the reads are whole on a stronger condition.
  pub IsOwn-mono :
      (W W' : Type 0) (s : Calls T)
      → (W' → W)
      → IsOwn max_size serve W s
      → IsOwn max_size serve W' s
  IsOwn-mono W W' s f own = record {
    cells = own.cells;
    hold = own.hold;
    held = own.held;
    wire = λ k. own.wire (f k);
    gone = own.gone;
    served = λ k. own.served (f k);
  }

module _ {T : Type 0} (max_size : ℕ) (serve : Text → Text) (fits : max_size < 2 ^ 64)
    (c : Construct T) (Whole : Type 0) where
  -- The invariant at a call's place.
  at :
      (s : Calls T) (xs ys : List Phase) (ph : Phase)
      → s.phases ≡ xs ++ ph ∷ ys
      → IsOwn max_size serve Whole s
      → IsOwn max_size serve Whole (calls s.objects (xs ++ ph ∷ ys) s.wire s.broken)
  at s xs ys ph e own = IsOwn-at max_size serve Whole s (xs ++ ph ∷ ys) e own

  writes-IsOwn :
      (s : Calls T) (xs ys : List Phase) (p : Ptr) (t : Text)
      → IsOwn max_size serve Whole (calls s.objects (xs ++ holds p ∷ ys) s.wire s.broken)
      → IsOwn max_size serve Whole (
          calls s.objects
            (xs ++ awaits p t ∷ ys)
            (set_wire p
              (if s.broken p
                then s.wire p
                else record (s.wire p) { asked = (s.wire p).asked ++ t ∷ [] })
              s.wire)
            s.broken)
  writes-IsOwn s xs ys p t own =
      let ch : Channel = s.wire p in
      let asks : Channel = record ch { asked = ch.asked ++ t ∷ [] } in
      IsOwn-wire max_size serve Whole s.objects s.wire s.broken xs ys (holds p) (awaits p t) p
        (if s.broken p then ch else asks) refl refl
        (λ q other. sym (if_false (q == p) (t ∷ []) [] other))
        (λ k alive.
          subst₂ (Carries serve) (sym (if_false (s.broken p) ch asks alive))
            (sym (if_true (p == p) (t ∷ []) [] (eqb_refl p)))
            (Carries-writes serve ch [] t (
              carried max_size serve Whole s.objects s.wire s.broken xs ys (holds p) p refl own k
                alive)))
        (λ dead. if_true (s.broken p) ch asks dead ∙ own.gone p dead) (λ k. tt) own

  reads-IsOwn :
      (s : Calls T) (xs ys : List Phase) (p : Ptr) (t got later : Text)
      → (s.wire p).sent ≡ got ++ later
      → 0 < length got
      → (Whole → later ≡ [])
      → IsOwn max_size serve Whole (calls s.objects (xs ++ awaits p t ∷ ys) s.wire s.broken)
      → IsOwn max_size serve Whole (
          calls s.objects
            (xs ++ read p t got ∷ ys)
            (set_wire p (record (s.wire p) { sent = later }) s.wire)
            s.broken)
  reads-IsOwn s xs ys p t got later arrived pos whole own =
      let ch : Channel = s.wire p in
      let alive : s.broken p ≡ false = elim (Bool-cases (s.broken p)) [
        | inl dead ↦
            absurd (
              has_sent got later pos (sym arrived ∙ ap (λ (x : Channel). x.sent) (own.gone p dead)))
        | inr alive ↦ alive
      ] in
      let brings : Whole → (got ≡ serve t) × (ch.asked ≡ []) = λ k.
        Carries-reads serve ch t got (arrived ∙ ap (λ l. got ++ l) (whole k) ∙ append-nil got) pos (
          subst (Carries serve ch) (if_true (p == p) (t ∷ []) [] (eqb_refl p)) (
            carried max_size serve Whole s.objects s.wire s.broken xs ys (awaits p t) p refl own k
              alive)) in
      IsOwn-wire max_size serve Whole s.objects s.wire s.broken xs ys (awaits p t) (read p t got) p
        (record ch { sent = later }) refl refl (λ q other. if_false (q == p) (t ∷ []) [] other)
        (λ k _. ([], sym (brings k).1, whole k)) (λ dead. absurd (cc (sym alive ∙ dead)))
        (λ k. (brings k).0) own

  pub Step-IsOwn :
      (s s' : Calls T) (step : Step max_size c serve s s')
      → (Whole → IsWhole max_size c serve s s' step)
      → IsOwn max_size serve Whole s
      → IsOwn max_size serve Whole s'
  Step-IsOwn s s' (borrows xs ys p o e run ne) whole own =
      borrowing max_size serve Whole fits c s.objects o s.wire s.broken xs ys p run ne
        (at s xs ys idle e own)
  Step-IsOwn s s' (rejects xs ys p o e run) whole own =
      gives max_size serve Whole s.objects o s.wire s.broken xs ys (holds p) p refl (λ q. refl) run
        (at s xs ys (holds p) e own)
  Step-IsOwn s s' (writes xs ys p t e) whole own =
      writes-IsOwn s xs ys p t (at s xs ys (holds p) e own)
  Step-IsOwn s s' (serves p t rest e) whole own = IsOwn-serves max_size serve Whole s p t rest e own
  Step-IsOwn s s' (reads xs ys p t got later e arrived pos short) whole own =
      reads-IsOwn s xs ys p t got later arrived pos whole (at s xs ys (awaits p t) e own)
  Step-IsOwn s s' (releases xs ys p t resp o e run) whole own =
      gives max_size serve Whole s.objects o s.wire s.broken xs ys (read p t resp) p refl
        (λ q. refl) run (at s xs ys (read p t resp) e own)
  Step-IsOwn s s' (write_fails xs ys p e dead) whole own =
      IsOwn-phase max_size serve Whole s.objects s.wire s.broken xs ys (holds p) (failed p) refl
        (λ q alive. refl) (λ k. tt) (at s xs ys (holds p) e own)
  Step-IsOwn s s' (read_fails xs ys p t e dead) whole own =
      IsOwn-phase max_size serve Whole s.objects s.wire s.broken xs ys (awaits p t) (failed p) refl
        (λ q alive. if_false (q == p) (t ∷ []) [] (apart s.broken p q dead alive)) (λ k. tt)
        (at s xs ys (awaits p t) e own)
  Step-IsOwn s s' (gives_up xs ys p o e run) whole own =
      gives max_size serve Whole s.objects o s.wire s.broken xs ys (failed p) p refl (λ q. refl) run
        (at s xs ys (failed p) e own)
  Step-IsOwn s s' (breaks p) whole own = IsOwn-breaks max_size serve Whole s p own
