-- ===== src/Consumer/Interleaved/Own.antt =====
-- Interleaved calls of src/provider_selector.hpp: each reads the answer to its own request.
use ali_middleware.Common.{
  All, ℕ, ◌<◌, ◌^◌, ◌≡◌, refl, sym, ◌∙◌, ap, subst, inl, inr, Bool, true, false, List, [], ◌∷◌,
  ◌++◌, ◌==◌,
}
use mathlib.Core.Path.{subst₂}
use ali_middleware.Common.Run.{ok}
use ali_middleware.Common.Text.{Text}
use ali_middleware.TraceableList.{Ptr, null}
use ali_middleware.TraceableList.Chain.{Cell, not-has-Below}
use ali_middleware.Pool.{Objects, Construct, do_try_borrow_one, give_back}
use ali_middleware.Pool.Holds.{Holds, elem}
use ali_middleware.Pool.Mark.{addrs}
use ali_middleware.Pool.Refine.{view, do_try_borrow_one-Outcome}
use ali_middleware.Pool.Release.{elem-addrs, give_back-Holds}
use ali_middleware.Pool.Semaphore.Cases.{borrow_spec-Borrowed}
use ali_middleware.Consumer.Interleaved.{
  Phase, idle, holds, awaits, read, failed, Channel, silent, Calls,
}
use ali_middleware.Consumer.Interleaved.Holders.{
  held_by, holders, holders-append, Nodup-remove, due, all_due, all_due-same,
}
use ali_middleware.Consumer.Interleaved.Lent.{
  Owned-elem, IsHeld, held_self, IsHeld-borrow, IsHeld-give,
}

-- A call that comes to hold nothing, or to hold what it held.
pub IsHeld-at :
    (objects free : List Ptr) (xs ys : List Phase) (ph : Phase)
    → IsHeld objects free (holders (xs ++ ph ∷ ys))
    → IsHeld objects free (holders xs ++ (held_by ph ++ holders ys))
IsHeld-at objects free xs ys ph = subst (IsHeld objects free) (holders-append xs (ph ∷ ys))

pub IsHeld-back :
    (objects free : List Ptr) (xs ys : List Phase) (ph : Phase)
    → IsHeld objects free (holders xs ++ (held_by ph ++ holders ys))
    → IsHeld objects free (holders (xs ++ ph ∷ ys))
IsHeld-back objects free xs ys ph = subst (IsHeld objects free) (sym (holders-append xs (ph ∷ ys)))

abbrev pub calls : {T : Type 0} → Objects T → List Phase → (Ptr → Channel) → (Ptr → Bool) → Calls T
calls o phs w b = record { objects = o; phases = phs; wire = w; broken = b }

module _ (serve : Text → Text) where
  abbrev pub replies : List Text → Text
  replies [] = []
  replies (t ∷ ts) = serve t ++ replies ts

  -- The answers to these texts are still to come over the connection, or have come and are not read:
  -- the provider has served the first ones, and the others it has still to serve.
  abbrev pub Carries : Channel → List Text → Type 0
  Carries ch ts = (done : List Text) × (ts ≡ done ++ ch.asked) × (ch.sent ≡ replies done)

  -- A call that has read has read the answer to its own text.
  abbrev pub IsServed : Phase → Type 0
  IsServed idle = Unit
  IsServed (holds p) = Unit
  IsServed (awaits p t) = Unit
  IsServed (read p t a) = a ≡ serve t
  IsServed (failed p) = Unit

  pub All-middle :
      (xs ys : List Phase) (ph ph' : Phase)
      → IsServed ph'
      → All IsServed (xs ++ ph ∷ ys)
      → All IsServed (xs ++ ph' ∷ ys)
  All-middle [] ys ph ph' h (a, all) = (h, all)
  All-middle (x ∷ xs) ys ph ph' h (a, all) = (a, All-middle xs ys ph ph' h all)

module _ {T : Type 0} (max_size : ℕ) (serve : Text → Text) (Whole : Type 0) where
  -- The invariant of the pool; every call that is behind its borrowing holds a connection, no two the
  -- same and none a free one; nothing comes over a broken connection; and, where every read was whole,
  -- over every other just the answer to the text that its holder has written is to come, until that has
  -- read it.
  pub record IsOwn (s : Calls T) : Type 0 where
    pub cells : List (Cell T Bool)
    pub hold : Holds max_size s.objects cells
    pub held : IsHeld (addrs cells) s.objects.free_list (holders s.phases)
    pub wire :
        Whole → (q : Ptr) → s.broken q ≡ false → Carries serve (s.wire q) (all_due s.phases q)
    pub gone : (q : Ptr) → s.broken q ≡ true → s.wire q ≡ silent
    pub served : Whole → All (IsServed serve) s.phases

  -- The state with these phases.
  pub IsOwn-at :
      (s : Calls T) (phs : List Phase)
      → s.phases ≡ phs
      → IsOwn s
      → IsOwn (record s { phases = phs })
  IsOwn-at s phs e own = record {
    cells = own.cells;
    hold = own.hold;
    held = subst (λ l. IsHeld (addrs own.cells) s.objects.free_list (holders l)) e own.held;
    wire = λ k q alive. subst (λ l. Carries serve (s.wire q) (all_due l q)) e (own.wire k q alive);
    gone = own.gone;
    served = λ k. subst (All (IsServed serve)) e (own.served k);
  }

  -- Giving back what a call holds, behind its read or before its write.
  pub gives :
      (o o' : Objects T) (w : Ptr → Channel) (b : Ptr → Bool) (xs ys : List Phase) (ph : Phase)
      (p : Ptr)
      → held_by ph ≡ p ∷ []
      → ((q : Ptr) → due ph q ≡ [])
      → give_back p o ≡ ok tt o'
      → IsOwn (calls o (xs ++ ph ∷ ys) w b)
      → IsOwn (calls o' (xs ++ idle ∷ ys) w b)
  gives o o' w b xs ys ph p by quiet e own =
      let held =
        subst (λ l. IsHeld (addrs own.cells) o.free_list (holders xs ++ (l ++ holders ys))) by
          (IsHeld-at (addrs own.cells) o.free_list xs ys ph own.held) in
      let (i, out) = held.inside p (held_self p (holders xs) (holders ys)) in
      let (o₁, cells, e₁, hold, free, same, _) =
        give_back-Holds max_size o own.cells own.hold p (sym (elem-addrs p own.cells) ∙ i) out in
      let end : o₁ ≡ o' = cc (sym e₁ ∙ e) in
      let held' = IsHeld-give p (addrs own.cells) o.free_list (holders xs) (holders ys) held in
      record {
        cells = cells;
        hold = subst (λ x. Holds max_size x cells) end hold;
        held = IsHeld-back (addrs cells) o'.free_list xs ys idle (
            subst (λ x. IsHeld (addrs cells) x.free_list (holders xs ++ holders ys)) end
              (rw (same, free) held'));
        wire = λ k q alive.
            subst (Carries serve (w q)) (all_due-same xs ys ph idle q (quiet q))
              (own.wire k q alive);
        gone = own.gone;
        served = λ k. All-middle serve xs ys ph idle tt (own.served k);
      }

  -- No connection is held twice, so what is due on it is due to its holder.
  pub alone :
      (o : Objects T) (w : Ptr → Channel) (b : Ptr → Bool) (xs ys : List Phase) (ph : Phase)
      (p : Ptr)
      → held_by ph ≡ p ∷ []
      → IsOwn (calls o (xs ++ ph ∷ ys) w b)
      → elem p (holders xs ++ holders ys) ≡ false
  alone o w b xs ys ph p by own =
      let held =
        subst (λ l. IsHeld (addrs own.cells) o.free_list (holders xs ++ (l ++ holders ys))) by
          (IsHeld-at (addrs own.cells) o.free_list xs ys ph own.held) in
      (Nodup-remove p (holders xs) (holders ys) held.nodup).1

  module _ (fits : max_size < 2 ^ 64) (c : Construct T) where
    pub borrowing :
        (o o' : Objects T) (w : Ptr → Channel) (b : Ptr → Bool) (xs ys : List Phase) (p : Ptr)
        → do_try_borrow_one max_size c o ≡ ok p o'
        → (p == null) ≡ false
        → IsOwn (calls o (xs ++ idle ∷ ys) w b)
        → IsOwn (calls o' (xs ++ holds p ∷ ys) w b)
    borrowing o o' w b xs ys p e ne own =
        elim (do_try_borrow_one-Outcome max_size o own.cells own.hold fits c) [
          | inr raise ↦ cc (sym e ∙ raise.unchanged)
          | inl ref ↦
              let is_p : ref.result ≡ p = cc (sym ref.returned ∙ e) in
              let is_o : ref.after ≡ o' = cc (sym ref.returned ∙ e) in
              let how =
                borrow_spec-Borrowed max_size o.buffer.brk (addrs own.cells) o.free_list ref.result
                  (view ref.after ref.cells) ref.agrees in
              let fresh =
                elem-addrs o.buffer.brk own.cells
                ∙ not-has-Below o.buffer.brk own.cells own.hold.list.below in
              let held' =
                IsHeld-borrow max_size o.buffer.brk ref.result (addrs own.cells) o.free_list
                  (holders xs) (holders ys) (view ref.after ref.cells) how
                  (ap (λ a. a == null) is_p ∙ ne) own.hold.nodup
                  (Owned-elem own.cells o.free_list own.hold.owned) fresh
                  (IsHeld-at (addrs own.cells) o.free_list xs ys idle own.held) in
              record {
                cells = ref.cells;
                hold = subst (λ x. Holds max_size x ref.cells) is_o ref.hold;
                held = IsHeld-back (addrs ref.cells) o'.free_list xs ys (holds p) (
                    subst₂
                      (λ a x. IsHeld (addrs ref.cells) x.free_list (holders xs ++ a ∷ holders ys))
                      is_p is_o held');
                wire = λ k q alive.
                    subst (Carries serve (w q)) (all_due-same xs ys idle (holds p) q refl)
                      (own.wire k q alive);
                gone = own.gone;
                served = λ k. All-middle serve xs ys idle (holds p) tt (own.served k);
              }
        ]
