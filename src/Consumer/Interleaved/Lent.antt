-- ===== src/Consumer/Interleaved/Lent.antt =====
-- The connections that interleaved calls of src/provider_selector.hpp hold, and the pool's.
use ali_middleware.Common.{
  ℕ, ◌≡◌, refl, sym, ◌∙◌, ap, subst, inl, inr, Bool, true, false, Bool-cases, List, [], ◌∷◌, ◌++◌,
  arith, ◌==◌,
}
use ali_middleware.TraceableList.{Ptr, null}
use ali_middleware.TraceableList.Chain.{Cell}
use ali_middleware.Pool.Holds.{elem, Nodup, Owned}
use ali_middleware.Pool.Mark.{addrs}
use ali_middleware.Pool.Borrow.{View, elem-append, elem-snoc_self}
use ali_middleware.Pool.Release.{elem-addrs}
use ali_middleware.Pool.Semaphore.Cases.{Borrowed, reused, grown, refused}
use ali_middleware.Consumer.Interleaved.Holders.{Nodup-insert, Nodup-remove, elem-insert}

-- What is held is an object of the pool, held once, and not free.
pub record IsHeld (objects free held : List Ptr) : Type 0 where
  pub nodup : Nodup held
  pub inside : (q : Ptr) → elem q held ≡ true → (elem q objects ≡ true) × (elem q free ≡ false)

pub eqb_refl : (p : Ptr) → (p == p) ≡ true
eqb_refl p = ground arith

pub held_self : (p : Ptr) (l r : List Ptr) → elem p (l ++ p ∷ r) ≡ true
held_self p l r = elem-insert p p l r ∙ ground arith

-- An object that is not held yet.
IsHeld-insert :
    (p : Ptr) (objects free l r : List Ptr)
    → elem p (l ++ r) ≡ false
    → elem p objects ≡ true
    → elem p free ≡ false
    → IsHeld objects free (l ++ r)
    → IsHeld objects free (l ++ p ∷ r)
IsHeld-insert p objects free l r out i o lent = record {
  nodup = Nodup-insert p l r out lent.nodup;
  inside = λ q h. elim (Bool-cases (q == p)) [
    | inl same ↦ (ground arith, ground arith)
    | inr other ↦ lent.inside q (ground (arith, elem-insert q p l r))
  ];
}

-- The pool has more objects, or fewer free ones.
IsHeld-mono :
    (objects objects' free free' held : List Ptr)
    → ((q : Ptr) → elem q objects ≡ true → elem q objects' ≡ true)
    → ((q : Ptr) → elem q free ≡ false → elem q free' ≡ false)
    → IsHeld objects free held
    → IsHeld objects' free' held
IsHeld-mono objects objects' free free' held f g lent = record {
  nodup = lent.nodup;
  inside = λ q h. let (i, o) = lent.inside q h in (f q i, g q o);
}

not_held :
    (objects free held : List Ptr) (p : Ptr)
    → IsHeld objects free held
    → elem p free ≡ true
    → elem p held ≡ false
not_held objects free held p lent e = elim (Bool-cases (elem p held)) [
  | inl h ↦ cc (sym e ∙ (lent.inside p h).1)
  | inr out ↦ out
]

not_held_new :
    (objects free held : List Ptr) (p : Ptr)
    → IsHeld objects free held
    → elem p objects ≡ false
    → elem p held ≡ false
not_held_new objects free held p lent e = elim (Bool-cases (elem p held)) [
  | inl h ↦ cc (sym e ∙ (lent.inside p h).0)
  | inr out ↦ out
]

pub IsHeld-borrow :
    (max_size : ℕ) (new p : Ptr) (objects free l r : List Ptr) (v : View)
    → Borrowed max_size new objects free p v
    → (p == null) ≡ false
    → Nodup free
    → ((q : Ptr) → elem q free ≡ true → elem q objects ≡ true)
    → elem new objects ≡ false
    → IsHeld objects free (l ++ r)
    → IsHeld v.objects v.free (l ++ p ∷ r)
IsHeld-borrow max_size new p objects free l r v (reused rest e same left) ne nodup owned fresh
      lent =
    let first : elem p free ≡ true = ap (elem p) e ∙ ground arith in
    let n : Nodup (p ∷ rest) = subst Nodup e nodup in
    let fewer : (q : Ptr) → elem q free ≡ false → elem q rest ≡ false =
      λ q o. ground (arith, sym (ap (elem q) e) ∙ o) in
    rw (same, left)
      (IsHeld-insert p objects rest l r (not_held objects free (l ++ r) p lent first)
        (owned p first) n.0 (IsHeld-mono objects objects free rest (l ++ r) (λ q i. i) fewer lent))
IsHeld-borrow max_size new p objects free l r v (grown e room is_new more left) ne nodup owned fresh
      lent =
    let kept : (q : Ptr) → elem q objects ≡ true → elem q (objects ++ new ∷ []) ≡ true =
      λ q i. ground (arith, elem-append q objects (new ∷ [])) in
    rw (more, left, is_new)
      (IsHeld-insert new (objects ++ new ∷ []) [] l r
        (not_held_new objects free (l ++ r) new lent fresh) (elem-snoc_self objects new) refl
        (IsHeld-mono objects (objects ++ new ∷ []) free [] (l ++ r) kept (λ q o. refl) lent))
IsHeld-borrow max_size new p objects free l r v (refused e full is_null same left) ne nodup owned
      fresh lent =
    let z : (p == null) ≡ true = ap (λ a. a == null) is_null in absurd (cc (sym z ∙ ne))

pub IsHeld-give :
    (p : Ptr) (objects free l r : List Ptr)
    → IsHeld objects free (l ++ p ∷ r)
    → IsHeld objects (p ∷ free) (l ++ r)
IsHeld-give p objects free l r lent =
    let (n, out) = Nodup-remove p l r lent.nodup in
    record {
      nodup = n;
      inside = λ q h. elim (Bool-cases (q == p)) [
        | inl same ↦
            let is_p : q ≡ p = ground arith in
            absurd (cc (sym out ∙ ap (λ a. elem a (l ++ r)) (sym is_p) ∙ h))
        | inr other ↦
            let (i, o) = lent.inside q (ground (arith, elem-insert q p l r)) in (i, ground arith)
      ];
    }

-- Every pointer of the free list is an object's.
pub Owned-elem :
    {T : Type 0} (cs : List (Cell T Bool)) (free : List Ptr)
    → Owned cs free
    → (q : Ptr) → elem q free ≡ true
    → elem q (addrs cs) ≡ true
Owned-elem cs [] o q e = cc
Owned-elem cs (p ∷ free) (i, o) q e = elim (Bool-cases (q == p)) [
  | inl same ↦
      let is_p : q ≡ p = ground arith in ap (λ a. elem a (addrs cs)) is_p ∙ elem-addrs p cs ∙ i
  | inr other ↦ Owned-elem cs free o q (ground arith)
]
