-- ===== src/Consumer/Interleaved/Answers.antt =====
-- What interleaved calls of src/provider_selector.hpp read, whatever the order of their steps.
use ali_middleware.Common.{
  Bool-cases, inl, inr, ◌⊎◌, All, ℕ, ◌<◌, ◌^◌, ◌≡◌, refl, sym, ◌∙◌, ap, subst, Bool, true, false,
  List, [], ◌∷◌, ◌++◌, append-nil, append_assoc, if_true, ◌==◌,
}
use mathlib.Core.Path.{subst₂}
use ali_middleware.Common.Text.{Text}
use ali_middleware.TraceableList.{Ptr}
use ali_middleware.TraceableList.Chain.{Cell}
use ali_middleware.Pool.{Objects, Construct}
use ali_middleware.Pool.Holds.{Holds, elem, Nodup}
use ali_middleware.Pool.Mark.{addrs}
use ali_middleware.Consumer.Interleaved.{
  Phase, idle, holds, awaits, read, failed, Channel, silent, Calls, Reach, started, then_step,
}
use ali_middleware.Consumer.Interleaved.Holders.{held_by, due, holders, all_due}
use ali_middleware.Consumer.Interleaved.Lent.{IsHeld, eqb_refl}
use ali_middleware.Consumer.Interleaved.Own.{Carries, IsServed, IsOwn, calls}
use ali_middleware.Consumer.Interleaved.Whole.{IsWhole, AllWhole}
use ali_middleware.Consumer.Interleaved.Wire.{Carries-silent, carried}
use ali_middleware.Consumer.Interleaved.Steps.{IsOwn-mono, Step-IsOwn}

-- Nobody has a connection, nothing is on the way, and no connection is broken.
pub record IsFresh {T : Type 0} (max_size : ℕ) (s : Calls T) : Type 0 where
  pub cells : List (Cell T Bool)
  pub hold : Holds max_size s.objects cells
  pub idle : All (λ ph. ph ≡ idle) s.phases
  pub wire : (q : Ptr) → s.wire q ≡ silent
  pub sound : (q : Ptr) → s.broken q ≡ false

All-here :
    (P : Phase → Type 0) (xs : List Phase) (ph : Phase) (ys : List Phase)
    → All P (xs ++ ph ∷ ys)
    → P ph
All-here P [] ph ys (h, all) = h
All-here P (x ∷ xs) ph ys (h, all) = All-here P xs ph ys all

module _ (serve : Text → Text) where
  -- A call finds on its connection just its own text or the answer to it, until it has read that, and
  -- nothing else; on a broken one it finds nothing.
  abbrev pub IsAnswered : (Ptr → Channel) → (Ptr → Bool) → Phase → Type 0
  IsAnswered wire broken idle = Unit
  IsAnswered wire broken (holds p) = wire p ≡ silent
  IsAnswered wire broken (awaits p t) =
      ((broken p ≡ true) × (wire p ≡ silent))
      ⊎ (wire p ≡ record { asked = t ∷ []; sent = [] })
      ⊎ (wire p ≡ record { asked = []; sent = serve t })
  IsAnswered wire broken (read p t a) = (a ≡ serve t) × (wire p ≡ silent)
  IsAnswered wire broken (failed p) = wire p ≡ silent

  Carries-none : (ch : Channel) → Carries serve ch [] → ch ≡ silent
  Carries-none ch ([], all, sent) = λ j. record { asked = sym all j; sent = sent j }
  Carries-none ch (t ∷ done, all, sent) = cc (all)

  Carries-one :
      (ch : Channel) (t : Text)
      → Carries serve ch (t ∷ [])
      → (ch ≡ record { asked = t ∷ []; sent = [] }) ⊎ (ch ≡ record { asked = []; sent = serve t })
  Carries-one ch t ([], all, sent) = inl (λ j. record { asked = sym all j; sent = sent j })
  Carries-one ch t (d ∷ [], all, sent) =
      let same : t ≡ d = cc (all) in
      let none_left : ch.asked ≡ [] = cc (all) in
      let served : ch.sent ≡ serve t = sent ∙ append-nil (serve d) ∙ ap serve (sym same) in
      inr (λ j. record { asked = none_left j; sent = served j })
  Carries-one ch t (d ∷ (d' ∷ done), all, sent) = cc (all)

IsServed-idle :
    (serve : Text → Text) (phs : List Phase) → All (λ ph. ph ≡ idle) phs → All (IsServed serve) phs
IsServed-idle serve [] all = tt
IsServed-idle serve (ph ∷ phs) (e, all) = (rw e tt, IsServed-idle serve phs all)

holders-idle : (phs : List Phase) → All (λ ph. ph ≡ idle) phs → holders phs ≡ []
holders-idle [] all = refl
holders-idle (ph ∷ phs) (e, all) = rw e (holders-idle phs all)

all_due-idle : (phs : List Phase) (q : Ptr) → All (λ ph. ph ≡ idle) phs → all_due phs q ≡ []
all_due-idle [] q all = refl
all_due-idle (ph ∷ phs) q (e, all) = rw e (all_due-idle phs q all)

nothing-IsHeld : (objects free : List Ptr) → IsHeld objects free []
nothing-IsHeld objects free = record { nodup = tt; inside = λ q e. cc }

module _ {T : Type 0} (max_size : ℕ) (serve : Text → Text) where
  pub IsFresh-IsOwn : (s : Calls T) → IsFresh max_size s → IsOwn max_size serve Unit s
  IsFresh-IsOwn s fresh = record {
    cells = fresh.cells;
    hold = fresh.hold;
    held =
        rw (holders-idle s.phases fresh.idle)
          (nothing-IsHeld (addrs fresh.cells) s.objects.free_list);
    wire = λ k q alive.
        subst₂ (Carries serve) (sym (fresh.wire q)) (sym (all_due-idle s.phases q fresh.idle))
          (Carries-silent serve);
    gone = λ q dead. fresh.wire q;
    served = λ k. IsServed-idle serve s.phases fresh.idle;
  }

module _ {T : Type 0} (max_size : ℕ) (serve : Text → Text) (fits : max_size < 2 ^ 64)
    (c : Construct T) where
  pub Reach-IsOwn :
      (s₀ s : Calls T) (reach : Reach max_size c serve s₀ s)
      → IsOwn max_size serve Unit s₀
      → IsOwn max_size serve (AllWhole max_size c serve s₀ s reach) s
  Reach-IsOwn s₀ s started own = own
  Reach-IsOwn s₀ s (then_step t s' before step) own =
      let W = AllWhole max_size c serve s₀ t before in
      let W' : Type 0 = W × IsWhole max_size c serve t s step in
      Step-IsOwn max_size serve fits c W' t s step (λ k. k.1)
        (IsOwn-mono max_size serve W W' t (λ k. k.0) (Reach-IsOwn s₀ t before own))

module _ {T : Type 0} (max_size : ℕ) (serve : Text → Text) (W : Type 0) (whole : W) where
  -- Nothing is to come to a call that has written nothing or has read.
  none_due :
      (o : Objects T) (w : Ptr → Channel) (b : Ptr → Bool) (xs ys : List Phase) (ph : Phase)
      (p : Ptr)
      → held_by ph ≡ p ∷ []
      → due ph p ≡ []
      → IsOwn max_size serve W (calls o (xs ++ ph ∷ ys) w b)
      → w p ≡ silent
  none_due o w b xs ys ph p by none own = elim (Bool-cases (b p)) [
    | inl dead ↦ own.gone p dead
    | inr alive ↦ Carries-none serve (w p) (
        subst (Carries serve (w p)) none
          (carried max_size serve W o w b xs ys ph p by own whole alive))
  ]

  IsOwn-IsAnswered :
      (o : Objects T) (w : Ptr → Channel) (b : Ptr → Bool) (xs ys : List Phase) (ph : Phase)
      → IsOwn max_size serve W (calls o (xs ++ ph ∷ ys) w b)
      → IsAnswered serve w b ph
  IsOwn-IsAnswered o w b xs ys idle own = tt
  IsOwn-IsAnswered o w b xs ys (holds p) own = none_due o w b xs ys (holds p) p refl refl own
  IsOwn-IsAnswered o w b xs ys (awaits p t) own = elim (Bool-cases (b p)) [
    | inl dead ↦ inl (dead, own.gone p dead)
    | inr alive ↦ inr (
        Carries-one serve (w p) t (
          subst (Carries serve (w p)) (if_true (p == p) (t ∷ []) [] (eqb_refl p))
            (carried max_size serve W o w b xs ys (awaits p t) p refl own whole alive)))
  ]
  IsOwn-IsAnswered o w b xs ys (read p t a) own = (
    All-here (IsServed serve) xs (read p t a) ys (own.served whole),
    none_due o w b xs ys (read p t a) p refl refl own,
  )
  IsOwn-IsAnswered o w b xs ys (failed p) own = none_due o w b xs ys (failed p) p refl refl own

  All-IsAnswered :
      (o : Objects T) (w : Ptr → Channel) (b : Ptr → Bool) (xs ys : List Phase)
      → IsOwn max_size serve W (calls o (xs ++ ys) w b)
      → All (IsAnswered serve w b) ys
  All-IsAnswered o w b xs [] own = tt
  All-IsAnswered o w b xs (ph ∷ ys) own = (
    IsOwn-IsAnswered o w b xs ys ph own,
    All-IsAnswered o w b (xs ++ ph ∷ []) ys (
        subst (λ phs. IsOwn max_size serve W (calls o phs w b)) (sym (append_assoc xs (ph ∷ []) ys))
          own),
  )

module _ {T : Type 0} (max_size : ℕ) (serve : Text → Text) (fits : max_size < 2 ^ 64)
    (c : Construct T) (s₀ s : Calls T) (fresh : IsFresh max_size s₀)
    (reach : Reach max_size c serve s₀ s) where
  -- From a pool without borrowers on, however the steps of its calls and of the provider are
  -- interleaved, whatever the reads bring and whichever connections break: no two calls hold the same
  -- connection, and none holds a free one.
  pub Reach-IsApart :
      Nodup (holders s.phases)
      × ((q : Ptr) → elem q (holders s.phases) ≡ true → elem q s.objects.free_list ≡ false)
  Reach-IsApart =
      let start = IsFresh-IsOwn max_size serve s₀ fresh in
      let own = Reach-IsOwn max_size serve fits c s₀ s reach start in
      (own.held.nodup, λ q h. (own.held.inside q h).1)

  -- From a pool without borrowers on, as long as every read brings all the bytes that the provider has
  -- sent over its connection and not only some of them: however the steps are interleaved and whichever
  -- connections break, every call that has read has read the provider's answer to the text that it has
  -- written itself, and no call finds anything of another one on its connection.
  pub Reach-IsAnswered :
      AllWhole max_size c serve s₀ s reach → All (IsAnswered serve s.wire s.broken) s.phases
  Reach-IsAnswered whole =
      let start = IsFresh-IsOwn max_size serve s₀ fresh in
      All-IsAnswered max_size serve (AllWhole max_size c serve s₀ s reach) whole s.objects s.wire
        s.broken [] s.phases (Reach-IsOwn max_size serve fits c s₀ s reach start)
