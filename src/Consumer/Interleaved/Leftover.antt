-- ===== src/Consumer/Interleaved/Leftover.antt =====
-- What a read of a part of an answer does to the next call of src/provider_selector.hpp.
use ali_middleware.Common.{
  ℕ, ◌≤◌, ◌<◌, ◌^◌, ◌≡◌, refl, sym, ◌∙◌, ap, Bool, false, List, [], ◌∷◌, ◌++◌, append-nil, length,
  ◌==◌, if_true,
}
use ali_middleware.Common.Run.{ok}
use ali_middleware.Common.Text.{Text}
use ali_middleware.TraceableList.{Ptr, null}
use ali_middleware.TraceableList.Chain.{Cell}
use ali_middleware.Pool.{Objects, Construct, do_try_borrow_one, give_back}
use ali_middleware.Pool.Holds.{Holds}
use ali_middleware.Pool.Release.{elem-addrs, give_back-Holds}
use ali_middleware.Pool.Semaphore.Cases.{free-borrowed}
use ali_middleware.Consumer.Interleaved.{
  idle, holds, awaits, read, Channel, silent, Calls, set_wire, borrows, writes, serves, reads,
  releases, Reach, started, then_step,
}
use ali_middleware.Consumer.Interleaved.Lent.{eqb_refl, held_self}
use ali_middleware.Consumer.Interleaved.Own.{calls}
use ali_middleware.Consumer.Interleaved.Answers.{IsFresh, IsFresh-IsOwn}
use ali_middleware.Consumer.Interleaved.Steps.{Step-IsOwn}

set_wire-here : (p : Ptr) (ch : Channel) (w : Ptr → Channel) → set_wire p ch w p ≡ ch
set_wire-here p ch w = if_true (p == p) ch (w p) (eqb_refl p)

module _ {T : Type 0} (max_size : ℕ) (serve : Text → Text) (fits : max_size < 2 ^ 64)
    (c : Construct T) (o : Objects T) (cells : List (Cell T Bool)) (p : Ptr) (rest : List Ptr)
    (hold : Holds max_size o cells) (free : o.free_list ≡ p ∷ rest)
    (some_object : (p == null) ≡ false) where
  -- Two calls over a pool with a free connection.
  abbrev pub two_calls : Calls T
  two_calls = calls o (idle ∷ idle ∷ []) (λ q. silent) (λ q. false)

  two_calls-IsFresh : IsFresh max_size two_calls
  two_calls-IsFresh = record {
    cells = cells;
    hold = hold;
    idle = (refl, (refl, tt));
    wire = λ q. refl;
    sound = λ q. refl;
  }

  -- The first call borrows the connection, and once it has given it back the second one gets the same.
  record Lends : Type 0 where
    pub lent : Objects T
    pub back : Objects T
    pub again : Objects T
    pub borrows₁ : do_try_borrow_one max_size c o ≡ ok p lent
    pub gives₁ : give_back p lent ≡ ok tt back
    pub borrows₂ : do_try_borrow_one max_size c back ≡ ok p again

  lends : Lends
  lends =
      let (lent, run) = free-borrowed max_size fits c o cells p rest hold free in
      let start = IsFresh-IsOwn max_size serve two_calls two_calls-IsFresh in
      let own =
        Step-IsOwn max_size serve fits c Unit two_calls
          (calls lent (holds p ∷ idle ∷ []) (λ q. silent) (λ q. false))
          (borrows [] (idle ∷ []) p lent refl run some_object) (λ k. tt) start in
      let (i, out) = own.held.inside p (held_self p [] []) in
      let (back, cells', gives, hold', free', _, _) =
        give_back-Holds max_size lent own.cells own.hold p (sym (elem-addrs p own.cells) ∙ i) out in
      let (again, run') = free-borrowed max_size fits c back cells' p lent.free_list hold' free' in
      record {
        lent = lent;
        back = back;
        again = again;
        borrows₁ = run;
        gives₁ = gives;
        borrows₂ = run';
      }

  module _ (t u got later : Text) (parts : serve t ≡ got ++ later) (some_got : 0 < length got)
      (short_got : length got ≤ 2048) (some_later : 0 < length later)
      (short_later : length later ≤ 2048) where
    abbrev at_rest : (Ptr → Channel) → Calls T
    at_rest w = calls lends.back (idle ∷ idle ∷ []) w (λ q. false)

    first_call :
        (w : Ptr → Channel) × Reach max_size c serve two_calls (at_rest w)
        × (w p ≡ record { asked = []; sent = later })
    first_call =
        let o₁ = lends.lent in
        let sound : Ptr → Bool = λ q. false in
        let quiet : Ptr → Channel = λ q. silent in
        let asked : Channel = record { asked = t ∷ []; sent = [] } in
        let w₁ = set_wire p asked quiet in
        let served : Channel = record { asked = []; sent = (w₁ p).sent ++ serve t } in
        let w₂ = set_wire p served w₁ in
        let left : Channel = record { asked = (w₂ p).asked; sent = later } in
        let w₃ = set_wire p left w₂ in
        let s₁ = calls o₁ (holds p ∷ idle ∷ []) quiet sound in
        let s₂ = calls o₁ (awaits p t ∷ idle ∷ []) w₁ sound in
        let s₃ = calls o₁ (awaits p t ∷ idle ∷ []) w₂ sound in
        let s₄ = calls o₁ (read p t got ∷ idle ∷ []) w₃ sound in
        let at₁ = set_wire-here p asked quiet in
        let at₂ = set_wire-here p served w₁ in
        let sent : (w₂ p).sent ≡ got ++ later =
          ap (λ (x : Channel). x.sent) at₂ ∙ ap (λ (x : Channel). x.sent ++ serve t) at₁ ∙ parts in
        let one =
          then_step two_calls s₁ started
            (borrows [] (idle ∷ []) p o₁ refl lends.borrows₁ some_object) in
        let two = then_step s₁ s₂ one (writes [] (idle ∷ []) p t refl) in
        let three = then_step s₂ s₃ two (serves p t [] (ap (λ (x : Channel). x.asked) at₁)) in
        let four =
          then_step s₃ s₄ three (reads [] (idle ∷ []) p t got later refl sent some_got short_got) in
        (
          w₃,
          then_step s₄ (at_rest w₃) four
              (releases [] (idle ∷ []) p t got lends.back refl lends.gives₁),
          set_wire-here p left w₂ ∙ ap (λ (x : Channel). record x { sent = later }) at₂,
        )

    second_call :
        (w : Ptr → Channel)
        → Reach max_size c serve two_calls (at_rest w)
        → w p ≡ record { asked = []; sent = later }
        → (s : Calls T) × Reach max_size c serve two_calls s
          × (s.phases ≡ idle ∷ read p u later ∷ [])
          × ((s.wire p).asked ≡ u ∷ [])
    second_call w before on_it =
        let o₁ = lends.again in
        let sound : Ptr → Bool = λ q. false in
        let asked : Channel = record (w p) { asked = (w p).asked ++ u ∷ [] } in
        let w₁ = set_wire p asked w in
        let last : Channel = record { asked = (w₁ p).asked; sent = [] } in
        let w₂ = set_wire p last w₁ in
        let s₁ = calls o₁ (idle ∷ holds p ∷ []) w sound in
        let s₂ = calls o₁ (idle ∷ awaits p u ∷ []) w₁ sound in
        let s₃ = calls o₁ (idle ∷ read p u later ∷ []) w₂ sound in
        let at₁ = set_wire-here p asked w in
        let sent : (w₁ p).sent ≡ later ++ [] =
          ap (λ (x : Channel). x.sent) at₁
          ∙ ap (λ (x : Channel). x.sent) on_it
          ∙ sym (append-nil later) in
        let one =
          then_step (at_rest w) s₁ before
            (borrows (idle ∷ []) [] p o₁ refl lends.borrows₂ some_object) in
        let two = then_step s₁ s₂ one (writes (idle ∷ []) [] p u refl) in
        (
          s₃,
          then_step s₂ s₃ two (reads (idle ∷ []) [] p u later [] refl sent some_later short_later),
          refl,
          ap (λ (x : Channel). x.asked) (set_wire-here p last w₁)
              ∙ ap (λ (x : Channel). x.asked) at₁
              ∙ ap (λ (x : Channel). x.asked ++ u ∷ []) on_it,
        )

    -- A call whose read brings only a part of its answer is done with it and gives the connection back,
    -- with the other part still on it. The next call that borrows this connection, writes its own text
    -- and reads, gets as its answer that other part, before the provider has even looked at its text. It
    -- can happen over every pool with a free connection, with any two texts, when the answer to the
    -- first is two parts of 1 to 2048 bytes.
    pub reads_leftover :
        (s : Calls T) × Reach max_size c serve two_calls s
        × (s.phases ≡ idle ∷ read p u later ∷ [])
        × ((s.wire p).asked ≡ u ∷ [])
    reads_leftover = let (w, before, on_it) = first_call in second_call w before on_it
