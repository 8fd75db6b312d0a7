-- ===== src/Pool/Semaphore/Replies.antt =====
-- The clients of a pool of lib/pool.hpp see a counting semaphore.
use ali_middleware.Common.{
  All-get_elem?, ℕ, ◌+◌, ◌<◌, ◌^◌, ◌≡◌, refl, sym, ◌∙◌, ap, subst, inl, inr, Bool, true, false,
  Option-cases, none, some, List, [], ◌∷◌, arith, ◌==◌, length, get_elem?,
}
use ali_middleware.Common.Run.{Run, ok}
use ali_middleware.TraceableList.{Ptr, null}
use ali_middleware.TraceableList.Chain.{Cell, not-has-Below}
use ali_middleware.Pool.{Objects, Construct, built, do_try_borrow_one, give_back}
use ali_middleware.Pool.Holds.{Holds, elem, Nodup, Owned}
use ali_middleware.Pool.Mark.{addrs}
use ali_middleware.Pool.Borrow.{borrow_spec}
use ali_middleware.Pool.Refine.{Refines, view, length-addrs, do_try_borrow_one-Outcome}
use ali_middleware.Pool.Release.{elem-addrs, free_ne_null, give_back-Holds}
use ali_middleware.Pool.Semaphore.{
  Ask, borrow, release, Users, without, ask, asks, take_or_give, semaphore,
}
use ali_middleware.Pool.Semaphore.Lent.{
  IsLent, IsLent-take, IsLent-grow, IsLent-give, length-without, get_elem?-none, get_elem?-lt,
}
use ali_middleware.Pool.Semaphore.Cases.{
  Borrowed, reused, grown, refused, borrow_spec-Borrowed, not_null, reply, take-room, take-full,
  give-lent, give-nothing,
}

module _ {T : Type 0} where
  -- The pool keeps its invariant, and what it has is lent or free.
  pub record IsUsers (max_size : ℕ) (u : Users T) : Type 0 where
    pub cells : List (Cell T Bool)
    pub hold : Holds max_size u.objects cells
    pub lent : IsLent (addrs cells) u.objects.free_list u.held

  -- The semaphore's reply, and a pool that its count fits.
  record Answers (max_size : ℕ) (q : Ask) (n : ℕ) (run : Run (Users T) Bool) : Type 0 where
    r : Bool
    after : Users T
    returned : run ≡ ok r after
    is_users : IsUsers max_size after
    agrees : take_or_give max_size q n ≡ reply r (length after.held)

  users : Objects T → List Ptr → Users T
  users o held = record { objects = o; held = held }

  ask-borrow_some :
      (max_size : ℕ) (c : Construct T) (o o' : Objects T) (held : List Ptr) (r : Ptr)
      → do_try_borrow_one max_size c o ≡ ok r o'
      → (r == null) ≡ false
      → ask max_size c borrow (users o held) ≡ ok true (users o' (r ∷ held))
  unfolding users
  ask-borrow_some max_size c o o' held r e ne = rw (e, ne) refl

  ask-borrow_null :
      (max_size : ℕ) (c : Construct T) (o o' : Objects T) (held : List Ptr) (r : Ptr)
      → do_try_borrow_one max_size c o ≡ ok r o'
      → r ≡ null
      → ask max_size c borrow (users o held) ≡ ok false (users o' held)
  unfolding users
  ask-borrow_null max_size c o o' held r e z = rw (e, z) refl

  ask-release_some :
      (max_size k : ℕ) (c : Construct T) (o o' : Objects T) (held : List Ptr) (p : Ptr)
      → get_elem? held k ≡ some p
      → give_back p o ≡ ok tt o'
      → ask max_size c (release k) (users o held) ≡ ok true (users o' (without k held))
  unfolding users
  ask-release_some max_size k c o o' held p at e = rw (at, e) refl

  ask-release_none :
      (max_size k : ℕ) (c : Construct T) (o : Objects T) (held : List Ptr)
      → get_elem? held k ≡ none
      → ask max_size c (release k) (users o held) ≡ ok false (users o held)
  unfolding users
  ask-release_none max_size k c o held at = rw at refl

  asks-cons :
      (max_size : ℕ) (c : Construct T) (q : Ask) (qs : List Ask) (u u₁ u₂ : Users T) (r : Bool)
      (rs : List Bool)
      → ask max_size c q u ≡ ok r u₁
      → asks max_size c qs u₁ ≡ ok rs u₂
      → asks max_size c (q ∷ qs) u ≡ ok (r ∷ rs) u₂
  asks-cons max_size c q qs u u₁ u₂ r rs e e' = rw (e, asks, e') refl

  module _ (max_size : ℕ) (fits : max_size < 2 ^ 64) (v : T) where
    borrow-Answers :
        (o : Objects T) (held : List Ptr) (cs : List (Cell T Bool)) (hold : Holds max_size o cs)
        → IsLent (addrs cs) o.free_list held
        → (ref : Refines max_size o
            (borrow_spec max_size o.buffer.brk (addrs cs) o.free_list)
            (do_try_borrow_one max_size (built v) o))
        → Borrowed max_size o.buffer.brk
            (addrs cs)
            o.free_list
            ref.result
            (view ref.after ref.cells)
        → Answers max_size borrow (length held) (ask max_size (built v) borrow (users o held))
    unfolding users
    borrow-Answers o held cs hold lent ref (reused rest e same free) =
        let r = ref.result in
        let size = lent.total ∙ ap (λ f. length held + length f) e in
        let ne : (r == null) ≡ false =
          ground (arith, ap (elem null) (sym e) ∙ free_ne_null max_size o cs hold) in
        let owned = subst (Owned cs) e hold.owned in
        let nodup = subst Nodup e hold.nodup in
        let lent' =
          IsLent-take r (addrs cs) rest held (elem-addrs r cs ∙ owned.0) nodup.0
            (subst (λ f. IsLent (addrs cs) f held) e lent) in
        record {
          r = true;
          after = users ref.after (r ∷ held);
          returned = ask-borrow_some max_size (built v) o ref.after held r ref.returned ne;
          is_users = record { cells = ref.cells; hold = ref.hold; lent = rw (same, free) lent' };
          agrees =
              take-room max_size (length held) (omega (arith, size, length-addrs cs, hold.within));
        }
    borrow-Answers o held cs hold lent ref (grown e room new same free) =
        let r = ref.result in
        let ne : (r == null) ≡ false = not_null r o.buffer.brk new hold.list.brk in
        let out : elem o.buffer.brk (addrs cs) ≡ false =
          elem-addrs o.buffer.brk cs ∙ not-has-Below o.buffer.brk cs hold.list.below in
        let lent' =
          IsLent-grow o.buffer.brk (addrs cs) held out
            (subst (λ f. IsLent (addrs cs) f held) e lent) in
        record {
          r = true;
          after = users ref.after (r ∷ held);
          returned = ask-borrow_some max_size (built v) o ref.after held r ref.returned ne;
          is_users = record {
            cells = ref.cells;
            hold = ref.hold;
            lent = rw (same, free, new) lent';
          };
          agrees = take-room max_size (length held) (omega (arith, lent.total));
        }
    borrow-Answers o held cs hold lent ref (refused e full z same free) = record {
      r = false;
      after = users ref.after held;
      returned = ask-borrow_null max_size (built v) o ref.after held ref.result ref.returned z;
      is_users = record {
        cells = ref.cells;
        hold = ref.hold;
        lent = rw (same, free) (subst (λ f. IsLent (addrs cs) f held) e lent);
      };
      agrees =
          take-full max_size (length held)
            (omega (arith, lent.total, ap (λ (f : List Ptr). length f) e));
    }

    release-Answers :
        (k : ℕ) (o : Objects T) (held : List Ptr) (cs : List (Cell T Bool))
        → Holds max_size o cs
        → IsLent (addrs cs) o.free_list held
        → Answers max_size
            (release k)
            (length held)
            (ask max_size (built v) (release k) (users o held))
    unfolding users
    release-Answers k o held cs hold lent = elim (Option-cases (get_elem? held k)) [
      | inl nothing ↦ record {
        r = false;
        after = users o held;
        returned = ask-release_none max_size k (built v) o held nothing;
        is_users = record { cells = cs; hold = hold; lent = lent };
        agrees = give-nothing max_size k (length held) (get_elem?-none k held nothing);
      }
      | inr (p, at) ↦
          let lt = get_elem?-lt k held p at in
          let i = sym (elem-addrs p cs) ∙ All-get_elem? _ held k p lent.owned at in
          let out = All-get_elem? _ held k p lent.taken at in
          let (o', cs', e, hold', free, same, _) = give_back-Holds max_size o cs hold p i out in
          record {
            r = true;
            after = users o' (without k held);
            returned = ask-release_some max_size k (built v) o o' held p at e;
            is_users = record {
              cells = cs';
              hold = hold';
              lent = rw (same, free) (IsLent-give k p (addrs cs) o.free_list held at lt lent);
            };
            agrees =
                give-lent max_size k (length held) lt
                ∙ ap (reply true) (omega (arith, length-without k held lt));
          }
    ]

    ask-Answers :
        (q : Ask) (u : Users T)
        → IsUsers max_size u
        → Answers max_size q (length u.held) (ask max_size (built v) q u)
    unfolding users
    ask-Answers (release k) u is = release-Answers k u.objects u.held is.cells is.hold is.lent
    ask-Answers borrow u is =
        elim (do_try_borrow_one-Outcome max_size u.objects is.cells is.hold fits (built v)) [
          | inl ref ↦ borrow-Answers u.objects u.held is.cells is.hold is.lent ref (
              borrow_spec-Borrowed max_size u.objects.buffer.brk (addrs is.cells)
                u.objects.free_list ref.result (view ref.after ref.cells) ref.agrees)
          | inr raise ↦ cc raise.raises
        ]

    -- Clients of a pool whose objects can all be built see a semaphore with `max_size` permits, of
    -- which those are taken whose objects they hold: whatever they ask for, one request after the other,
    -- a borrow gets an object and a release gives one back exactly when the semaphore says so, no
    -- request faults or throws, and behind them as many objects are held as permits are taken. No
    -- object is ever held twice, or held and free.
    pub asks-semaphore :
        (qs : List Ask) (u : Users T)
        → IsUsers max_size u
        → (u' : Users T) × (asks max_size (built v) qs u
            ≡ ok (semaphore max_size qs (length u.held)).0 u')
          × (length u'.held ≡ (semaphore max_size qs (length u.held)).1)
          × IsUsers max_size u'
    asks-semaphore [] u is = (u, refl, refl, is)
    asks-semaphore (q ∷ qs) u is =
        let a = ask-Answers q u is in
        let (u', e, size, is') = asks-semaphore qs a.after a.is_users in
        (
          u',
          asks-cons max_size (built v) q qs u a.after u' a.r _ a.returned e
              ∙ ap (λ t. ok (t.0 ∷ (semaphore max_size qs t.1).0) u') (sym a.agrees),
          size ∙ ap (λ t. (semaphore max_size qs t.1).1) (sym a.agrees),
          is',
        )
