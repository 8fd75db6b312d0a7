-- ===== src/Consumer/Interleaved/Wire.antt =====
-- How what is on its way over the connections changes with the calls of src/provider_selector.hpp.
use ali_middleware.Common.{
  ℕ, ◌≡◌, refl, sym, ◌∙◌, ap, subst, inl, inr, Bool, true, false, ◌||◌, Bool-cases, List, [], ◌∷◌,
  ◌++◌, append-nil, append_assoc, length, ◌<◌, arith, ◌==◌, if_true, if_false,
}
use mathlib.Core.Path.{subst₂}
use ali_middleware.Common.Text.{Text}
use ali_middleware.TraceableList.{Ptr}
use ali_middleware.Pool.{Objects}
use ali_middleware.Pool.Mark.{addrs}
use ali_middleware.Consumer.Interleaved.{Phase, Channel, silent, Calls, set_wire}
use ali_middleware.Consumer.Interleaved.Holders.{
  held_by, holders, due, all_due, all_due-here, all_due-same,
}
use ali_middleware.Consumer.Interleaved.Lent.{IsHeld}
use ali_middleware.Consumer.Interleaved.Own.{
  IsHeld-at, IsHeld-back, calls, IsServed, All-middle, replies, Carries, IsOwn, alone,
}

-- What a channel carries, step by step.
module _ (serve : Text → Text) where
  replies-snoc :
      (ts : List Text) (t : Text) → replies serve (ts ++ t ∷ []) ≡ replies serve ts ++ serve t
  replies-snoc [] t = append-nil (serve t)
  replies-snoc (u ∷ ts) t =
      ap (λ l. serve u ++ l) (replies-snoc ts t)
      ∙ sym (append_assoc (serve u) (replies serve ts) (serve t))

  pub Carries-silent : Carries serve silent []
  Carries-silent = ([], refl, refl)

  pub Carries-writes :
      (ch : Channel) (ts : List Text) (t : Text)
      → Carries serve ch ts
      → Carries serve (record ch { asked = ch.asked ++ t ∷ [] }) (ts ++ t ∷ [])
  Carries-writes ch ts t (done, all, sent) =
      (done, ap (λ l. l ++ t ∷ []) all ∙ append_assoc done ch.asked (t ∷ []), sent)

  pub Carries-serves :
      (ch : Channel) (ts : List Text) (t : Text) (rest : List Text)
      → ch.asked ≡ t ∷ rest
      → Carries serve ch ts
      → Carries serve (record { asked = rest; sent = ch.sent ++ serve t }) ts
  Carries-serves ch ts t rest e (done, all, sent) = (
    done ++ t ∷ [],
    all ∙ ap (λ l. done ++ l) e ∙ sym (append_assoc done (t ∷ []) rest),
    ap (λ l. l ++ serve t) sent ∙ sym (replies-snoc done t),
  )

  -- A whole read of a connection from which one answer is to come brings it.
  pub Carries-reads :
      (ch : Channel) (t got : Text)
      → ch.sent ≡ got
      → 0 < length got
      → Carries serve ch (t ∷ [])
      → (got ≡ serve t) × (ch.asked ≡ [])
  Carries-reads ch t [] e pos carried = absurd (omega (arith, pos))
  Carries-reads ch t (b ∷ bs) e pos ([], all, sent) = cc (sym e ∙ sent)
  Carries-reads ch t (b ∷ bs) e pos (d ∷ [], all, sent) =
      let same : t ≡ d = cc (all) in
      let none_left : ch.asked ≡ [] = cc (all) in
      (sym e ∙ sent ∙ append-nil (serve d) ∙ ap serve (sym same), none_left)
  Carries-reads ch t (b ∷ bs) e pos (d ∷ (d' ∷ done), all, sent) = cc (all)

module _ {T : Type 0} (max_size : ℕ) (serve : Text → Text) (Whole : Type 0) where
  -- The wire of one connection changes with the phase of its holder.
  pub IsOwn-wire :
      (o : Objects T) (w : Ptr → Channel) (b : Ptr → Bool) (xs ys : List Phase) (ph ph' : Phase)
      (p : Ptr) (channel : Channel)
      → held_by ph ≡ p ∷ []
      → held_by ph' ≡ p ∷ []
      → ((q : Ptr) → (q == p) ≡ false → due ph q ≡ due ph' q)
      → (Whole → b p ≡ false → Carries serve channel (due ph' p))
      → (b p ≡ true → channel ≡ silent)
      → (Whole → IsServed serve ph')
      → IsOwn max_size serve Whole (calls o (xs ++ ph ∷ ys) w b)
      → IsOwn max_size serve Whole (calls o (xs ++ ph' ∷ ys) (set_wire p channel w) b)
  IsOwn-wire o w b xs ys ph ph' p channel by by' others here lost fine own = record {
    cells = own.cells;
    hold = own.hold;
    held = IsHeld-back (addrs own.cells) o.free_list xs ys ph' (
        subst (λ l. IsHeld (addrs own.cells) o.free_list (holders xs ++ (l ++ holders ys)))
          (by ∙ sym by') (IsHeld-at (addrs own.cells) o.free_list xs ys ph own.held));
    wire = λ k q alive. elim (Bool-cases (q == p)) [
      | inl same ↦
          let is_p : q ≡ p = ground arith in
          subst₂ (Carries serve) (sym (if_true (q == p) channel (w q) same))
            (sym (all_due-here xs ys ph' p (alone max_size serve Whole o w b xs ys ph p by own))
              ∙ ap (all_due (xs ++ ph' ∷ ys)) (sym is_p))
            (here k (ap b (sym is_p) ∙ alive))
      | inr other ↦
          subst₂ (Carries serve) (sym (if_false (q == p) channel (w q) other))
            (all_due-same xs ys ph ph' q (others q other)) (own.wire k q alive)
    ];
    gone = λ q dead. elim (Bool-cases (q == p)) [
      | inl same ↦
          let is_p : q ≡ p = ground arith in
          if_true (q == p) channel (w q) same ∙ lost (ap b (sym is_p) ∙ dead)
      | inr other ↦ if_false (q == p) channel (w q) other ∙ own.gone q dead
    ];
    served = λ k. All-middle serve xs ys ph ph' (fine k) (own.served k);
  }

  -- A phase changes without the wire, where the connection is broken or as much is due as before.
  pub IsOwn-phase :
      (o : Objects T) (w : Ptr → Channel) (b : Ptr → Bool) (xs ys : List Phase) (ph ph' : Phase)
      → held_by ph ≡ held_by ph'
      → ((q : Ptr) → b q ≡ false → due ph q ≡ due ph' q)
      → (Whole → IsServed serve ph')
      → IsOwn max_size serve Whole (calls o (xs ++ ph ∷ ys) w b)
      → IsOwn max_size serve Whole (calls o (xs ++ ph' ∷ ys) w b)
  IsOwn-phase o w b xs ys ph ph' by others fine own = record {
    cells = own.cells;
    hold = own.hold;
    held = IsHeld-back (addrs own.cells) o.free_list xs ys ph' (
        subst (λ l. IsHeld (addrs own.cells) o.free_list (holders xs ++ (l ++ holders ys))) by
          (IsHeld-at (addrs own.cells) o.free_list xs ys ph own.held));
    wire = λ k q alive.
        subst (Carries serve (w q)) (all_due-same xs ys ph ph' q (others q alive))
          (own.wire k q alive);
    gone = own.gone;
    served = λ k. All-middle serve xs ys ph ph' (fine k) (own.served k);
  }

  -- A connection breaks.
  pub IsOwn-breaks :
      (s : Calls T) (p : Ptr)
      → IsOwn max_size serve Whole s
      → IsOwn max_size serve Whole
          (record s { wire = set_wire p silent s.wire; broken = λ q. (q == p) || s.broken q })
  IsOwn-breaks s p own = record {
    cells = own.cells;
    hold = own.hold;
    held = own.held;
    wire = λ k q alive.
        let other : (q == p) ≡ false = ground arith in
        let here : s.broken q ≡ false = ground arith in
        subst (λ ch. Carries serve ch (all_due s.phases q))
          (sym (if_false (q == p) silent (s.wire q) other)) (own.wire k q here);
    gone = λ q dead. elim (Bool-cases (q == p)) [
      | inl same ↦ if_true (q == p) silent (s.wire q) same
      | inr other ↦
          let here : s.broken q ≡ true = ground arith in
          if_false (q == p) silent (s.wire q) other ∙ own.gone q here
    ];
    served = own.served;
  }

  -- The provider serves a text of a connection.
  pub IsOwn-serves :
      (s : Calls T) (p : Ptr) (t : Text) (rest : List Text)
      → (s.wire p).asked ≡ t ∷ rest
      → IsOwn max_size serve Whole s
      → IsOwn max_size serve Whole (record s {
        wire = set_wire p (record { asked = rest; sent = (s.wire p).sent ++ serve t }) s.wire;
      })
  IsOwn-serves s p t rest e own =
      let ch : Channel = record { asked = rest; sent = (s.wire p).sent ++ serve t } in
      record {
        cells = own.cells;
        hold = own.hold;
        held = own.held;
        wire = λ k q alive. elim (Bool-cases (q == p)) [
          | inl same ↦
              let is_p : q ≡ p = ground arith in
              subst (λ x. Carries serve x (all_due s.phases q))
                (sym (if_true (q == p) ch (s.wire q) same))
                (Carries-serves serve (s.wire p) (all_due s.phases q) t rest e (
                  subst (λ r. Carries serve (s.wire r) (all_due s.phases q)) is_p
                    (own.wire k q alive)))
          | inr other ↦
              subst (λ x. Carries serve x (all_due s.phases q))
                (sym (if_false (q == p) ch (s.wire q) other)) (own.wire k q alive)
        ];
        gone = λ q dead. elim (Bool-cases (q == p)) [
          | inl same ↦
              let is_p : q ≡ p = ground arith in
              let lost = own.gone p (ap s.broken (sym is_p) ∙ dead) in
              absurd (cc (sym e ∙ ap (λ (x : Channel). x.asked) lost))
          | inr other ↦ if_false (q == p) ch (s.wire q) other ∙ own.gone q dead
        ];
        served = own.served;
      }

  -- What is to come over the connection of a call that holds one.
  pub carried :
      (o : Objects T) (w : Ptr → Channel) (b : Ptr → Bool) (xs ys : List Phase) (ph : Phase)
      (p : Ptr)
      → held_by ph ≡ p ∷ []
      → IsOwn max_size serve Whole (calls o (xs ++ ph ∷ ys) w b)
      → Whole
      → b p ≡ false
      → Carries serve (w p) (due ph p)
  carried o w b xs ys ph p by own k alive =
      subst (Carries serve (w p))
        (all_due-here xs ys ph p (alone max_size serve Whole o w b xs ys ph p by own))
        (own.wire k p alive)
