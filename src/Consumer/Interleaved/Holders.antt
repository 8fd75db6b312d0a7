-- ===== src/Consumer/Interleaved/Holders.antt =====
-- Who holds which connection among the interleaved calls of src/provider_selector.hpp.
use ali_middleware.Common.{
  ◌≡◌, refl, sym, ◌∙◌, ap, false, ◌||◌, List, [], ◌∷◌, ◌++◌, append-nil, append_assoc, arith, ◌==◌,
  if◌then◌else◌,
}
use ali_middleware.Common.Text.{Text}
use ali_middleware.TraceableList.{Ptr}
use ali_middleware.Pool.Holds.{elem, Nodup}
use ali_middleware.Pool.Borrow.{elem-append}
use ali_middleware.Consumer.Interleaved.{Phase, idle, holds, awaits, read, failed}

abbrev pub held_by : Phase → List Ptr
held_by idle = []
held_by (holds p) = p ∷ []
held_by (awaits p t) = p ∷ []
held_by (read p t a) = p ∷ []
held_by (failed p) = p ∷ []

abbrev pub holders : List Phase → List Ptr
holders [] = []
holders (ph ∷ phs) = held_by ph ++ holders phs

pub holders-append : (xs ys : List Phase) → holders (xs ++ ys) ≡ holders xs ++ holders ys
holders-append [] ys = refl
holders-append (idle ∷ xs) ys = holders-append xs ys
holders-append (holds p ∷ xs) ys = ap (λ l. p ∷ l) (holders-append xs ys)
holders-append (awaits p t ∷ xs) ys = ap (λ l. p ∷ l) (holders-append xs ys)
holders-append (read p t a ∷ xs) ys = ap (λ l. p ∷ l) (holders-append xs ys)
holders-append (failed p ∷ xs) ys = ap (λ l. p ∷ l) (holders-append xs ys)

pub Nodup-insert :
    (p : Ptr) (l r : List Ptr) → elem p (l ++ r) ≡ false → Nodup (l ++ r) → Nodup (l ++ p ∷ r)
Nodup-insert p [] r out n = (out, n)
Nodup-insert p (q ∷ l) r out (o, n) = (
  ground (arith, elem-append q l (p ∷ r), elem-append q l r),
  Nodup-insert p l r (ground arith) n,
)

pub Nodup-remove :
    (p : Ptr) (l r : List Ptr) → Nodup (l ++ p ∷ r) → Nodup (l ++ r) × (elem p (l ++ r) ≡ false)
Nodup-remove p [] r (o, n) = (n, o)
Nodup-remove p (q ∷ l) r (o, n) =
    let (n', o') = Nodup-remove p l r n in
    (
      (ground (arith, elem-append q l (p ∷ r), elem-append q l r), n'),
      ground (arith, elem-append q l (p ∷ r)),
    )

pub elem-insert : (q p : Ptr) (l r : List Ptr) → elem q (l ++ p ∷ r) ≡ ((q == p) || elem q (l ++ r))
elem-insert q p [] r = refl
elem-insert q p (a ∷ l) r = ground (arith, elem-insert q p l r)

-- The texts whose answers are still to be read from a connection, by what the calls have written.
abbrev pub due : Phase → Ptr → List Text
due idle q = []
due (holds p) q = []
due (awaits p t) q = if q == p then t ∷ [] else []
due (read p t a) q = []
due (failed p) q = []

abbrev pub all_due : List Phase → Ptr → List Text
all_due [] q = []
all_due (ph ∷ phs) q = due ph q ++ all_due phs q

pub all_due-append :
    (xs ys : List Phase) (q : Ptr) → all_due (xs ++ ys) q ≡ all_due xs q ++ all_due ys q
all_due-append [] ys q = refl
all_due-append (ph ∷ xs) ys q =
    ap (λ l. due ph q ++ l) (all_due-append xs ys q)
    ∙ sym (append_assoc (due ph q) (all_due xs q) (all_due ys q))

-- Nothing is due on a connection that no call holds.
pub all_due-none : (phs : List Phase) (q : Ptr) → elem q (holders phs) ≡ false → all_due phs q ≡ []
all_due-none [] q out = refl
all_due-none (idle ∷ phs) q out = all_due-none phs q out
all_due-none (holds p ∷ phs) q out = all_due-none phs q (ground arith)
all_due-none (awaits p t ∷ phs) q out =
    let other : (q == p) ≡ false = ground arith in rw other (all_due-none phs q (ground arith))
all_due-none (read p t a ∷ phs) q out = all_due-none phs q (ground arith)
all_due-none (failed p ∷ phs) q out = all_due-none phs q (ground arith)

-- On a connection that one call holds, only what that call has written can be due.
pub all_due-here :
    (xs ys : List Phase) (ph : Phase) (q : Ptr)
    → elem q (holders xs ++ holders ys) ≡ false
    → all_due (xs ++ ph ∷ ys) q ≡ due ph q
all_due-here xs ys ph q out =
    let in_xs : elem q (holders xs) ≡ false =
      ground (arith, elem-append q (holders xs) (holders ys)) in
    let in_ys : elem q (holders ys) ≡ false =
      ground (arith, elem-append q (holders xs) (holders ys)) in
    all_due-append xs (ph ∷ ys) q
    ∙ ap (λ l. l ++ (due ph q ++ all_due ys q)) (all_due-none xs q in_xs)
    ∙ ap (λ l. due ph q ++ l) (all_due-none ys q in_ys)
    ∙ append-nil (due ph q)

-- A call that changes its phase changes nothing on a connection where as much is due by it as before.
pub all_due-same :
    (xs ys : List Phase) (ph ph' : Phase) (q : Ptr)
    → due ph q ≡ due ph' q
    → all_due (xs ++ ph ∷ ys) q ≡ all_due (xs ++ ph' ∷ ys) q
all_due-same xs ys ph ph' q e =
    all_due-append xs (ph ∷ ys) q
    ∙ ap (λ l. all_due xs q ++ (l ++ all_due ys q)) e
    ∙ sym (all_due-append xs (ph' ∷ ys) q)
