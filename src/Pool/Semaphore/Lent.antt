-- ===== src/Pool/Semaphore/Lent.antt =====
-- Which objects of a pool of lib/pool.hpp are lent, as lists of their addresses.
use ali_middleware.Common.{
  All, ℕ, zero, suc, ◌+◌, ◌≤◌, ◌<◌, ◌≡◌, refl, sym, ◌∙◌, ap, true, false, none, some, List, [], ◌∷◌,
  ◌++◌, arith, length, length-append, get_elem?,
}
use ali_middleware.TraceableList.{Ptr}
use ali_middleware.Pool.Holds.{elem, Nodup}
use ali_middleware.Pool.Borrow.{elem-append, elem-snoc_self}
use ali_middleware.Pool.Semaphore.{without}

-- Every object is lent, once, or free.
pub record IsLent (objects free held : List Ptr) : Type 0 where
  pub nodup : Nodup held
  pub owned : All (λ p. elem p objects ≡ true) held
  pub taken : All (λ p. elem p free ≡ false) held
  pub total : length objects ≡ length held + length free

not-elem-taken :
    (p : Ptr) (rest hs : List Ptr) → All (λ h. elem h (p ∷ rest) ≡ false) hs → elem p hs ≡ false
not-elem-taken p rest [] t = refl
not-elem-taken p rest (h ∷ hs) (e, t) = ground (arith, not-elem-taken p rest hs t)

taken-tail :
    (p : Ptr) (rest hs : List Ptr)
    → All (λ h. elem h (p ∷ rest) ≡ false) hs
    → All (λ h. elem h rest ≡ false) hs
taken-tail p rest [] t = tt
taken-tail p rest (h ∷ hs) (e, t) = (ground arith, taken-tail p rest hs t)

pub IsLent-take :
    (p : Ptr) (objects rest held : List Ptr)
    → elem p objects ≡ true
    → elem p rest ≡ false
    → IsLent objects (p ∷ rest) held
    → IsLent objects rest (p ∷ held)
IsLent-take p objects rest held i out l = record {
  nodup = (not-elem-taken p rest held l.taken, l.nodup);
  owned = (i, l.owned);
  taken = (out, taken-tail p rest held l.taken);
  total = omega (arith, l.total);
}

not-elem-owned :
    (new : Ptr) (objects hs : List Ptr)
    → All (λ h. elem h objects ≡ true) hs
    → elem new objects ≡ false
    → elem new hs ≡ false
not-elem-owned new objects [] o out = refl
not-elem-owned new objects (h ∷ hs) (i, o) out = ground (arith, not-elem-owned new objects hs o out)

owned-snoc :
    (new : Ptr) (objects hs : List Ptr)
    → All (λ h. elem h objects ≡ true) hs
    → All (λ h. elem h (objects ++ new ∷ []) ≡ true) hs
owned-snoc new objects [] o = tt
owned-snoc new objects (h ∷ hs) (i, o) =
    (ground (arith, elem-append h objects (new ∷ [])), owned-snoc new objects hs o)

none_free : (hs : List Ptr) → All (λ h. elem h [] ≡ false) hs
none_free [] = tt
none_free (h ∷ hs) = (refl, none_free hs)

pub IsLent-grow :
    (new : Ptr) (objects held : List Ptr)
    → elem new objects ≡ false
    → IsLent objects [] held
    → IsLent (objects ++ new ∷ []) [] (new ∷ held)
IsLent-grow new objects held out l = record {
  nodup = (not-elem-owned new objects held l.owned out, l.nodup);
  owned = (elem-snoc_self objects new, owned-snoc new objects held l.owned);
  taken = none_free (new ∷ held);
  total = omega (arith, length-append objects (new ∷ []), l.total);
}

All-without : (P : Ptr → Type 0) (k : ℕ) (hs : List Ptr) → All P hs → All P (without k hs)
All-without P k [] a = a
All-without P zero (h ∷ hs) (i, a) = a
All-without P (suc k) (h ∷ hs) (i, a) = (i, All-without P k hs a)

not-elem-without :
    (a : Ptr) (k : ℕ) (hs : List Ptr) → elem a hs ≡ false → elem a (without k hs) ≡ false
not-elem-without a k [] e = e
not-elem-without a zero (h ∷ hs) e = ground arith
not-elem-without a (suc k) (h ∷ hs) e = ground (arith, not-elem-without a k hs)

Nodup-without : (k : ℕ) (hs : List Ptr) → Nodup hs → Nodup (without k hs)
Nodup-without k [] n = n
Nodup-without zero (h ∷ hs) (out, n) = n
Nodup-without (suc k) (h ∷ hs) (out, n) = (not-elem-without h k hs out, Nodup-without k hs n)

pub length-without :
    (k : ℕ) (hs : List Ptr) → k < length hs → length hs ≡ suc (length (without k hs))
length-without k [] lt = absurd (omega arith)
length-without zero (h ∷ hs) lt = refl
length-without (suc k) (h ∷ hs) lt = omega (arith, length-without k hs (omega arith))

elem-get_elem? : (k : ℕ) (hs : List Ptr) (p : Ptr) → get_elem? hs k ≡ some p → elem p hs ≡ true
elem-get_elem? k [] p e = cc
elem-get_elem? zero (h ∷ hs) p e = let same : h ≡ p = cc in ground arith
elem-get_elem? (suc k) (h ∷ hs) p e = ground (arith, elem-get_elem? k hs p e)

not-elem-without_self :
    (k : ℕ) (hs : List Ptr) (p : Ptr)
    → Nodup hs
    → get_elem? hs k ≡ some p
    → elem p (without k hs) ≡ false
not-elem-without_self k [] p n e = cc
not-elem-without_self zero (h ∷ hs) p (out, n) e =
    let same : h ≡ p = cc in ap (λ a. elem a hs) (sym same) ∙ out
not-elem-without_self (suc k) (h ∷ hs) p (out, n) e =
    ground (arith, elem-get_elem? k hs p e, not-elem-without_self k hs p n e)

taken-cons :
    (p : Ptr) (free hs : List Ptr)
    → elem p hs ≡ false
    → All (λ h. elem h free ≡ false) hs
    → All (λ h. elem h (p ∷ free) ≡ false) hs
taken-cons p free [] out t = tt
taken-cons p free (h ∷ hs) out (e, t) = (ground arith, taken-cons p free hs (ground arith) t)

pub IsLent-give :
    (k : ℕ) (p : Ptr) (objects free held : List Ptr)
    → get_elem? held k ≡ some p
    → k < length held
    → IsLent objects free held
    → IsLent objects (p ∷ free) (without k held)
IsLent-give k p objects free held e lt l = record {
  nodup = Nodup-without k held l.nodup;
  owned = All-without _ k held l.owned;
  taken =
      taken-cons p free (without k held) (not-elem-without_self k held p l.nodup e)
        (All-without _ k held l.taken);
  total = omega (arith, l.total, length-without k held lt);
}

pub get_elem?-none : (k : ℕ) (hs : List Ptr) → get_elem? hs k ≡ none → length hs ≤ k
get_elem?-none k [] e = omega arith
get_elem?-none zero (h ∷ hs) e = cc
get_elem?-none (suc k) (h ∷ hs) e = omega (arith, get_elem?-none k hs e)

pub get_elem?-lt : (k : ℕ) (hs : List Ptr) (p : Ptr) → get_elem? hs k ≡ some p → k < length hs
get_elem?-lt k [] p e = cc
get_elem?-lt zero (h ∷ hs) p e = omega arith
get_elem?-lt (suc k) (h ∷ hs) p e = omega (arith, get_elem?-lt k hs p e)
