-- ===== src/Pool/Semaphore.antt =====
-- The clients of lib/pool.hpp, which borrow with do_try_borrow_one and release with release_one, and a
-- counting semaphore.
pub mod Cases
pub mod Lent
pub mod Replies
use ali_middleware.Common.{
  ℕ, zero, suc, ◌-◌, Bool, true, false, Option, none, some, List, [], ◌∷◌, ltb, ◌==◌, get_elem?,
  if◌then◌else◌,
}
use ali_middleware.Common.Run.{Run, Cmd, ok, thrown, fault, out_of_fuel, pure, modify, ◌>>=◌, ◌>>◌}
use ali_middleware.TraceableList.{Ptr, null}
use ali_middleware.Pool.{Objects, Construct, do_try_borrow_one, give_back}

-- What a client asks for; the objects that are lent are counted from the one lent last.
pub data Ask : Type 0 where
  borrow : Ask
  release : ℕ → Ask

pub record Users (T : Type 0) : Type 0 where
  pub objects : Objects T
  pub held : List Ptr

abbrev pub without : ℕ → List Ptr → List Ptr
without k [] = []
without zero (p ∷ ps) = ps
without (suc k) (p ∷ ps) = p ∷ without k ps

module _ {T : Type 0} where
  abbrev pub on_objects : {A : Type 0} → Users T → Run (Objects T) A → Run (Users T) A
  on_objects u (ok a o) = ok a (record u { objects = o })
  on_objects u (thrown e o) = thrown e (record u { objects = o })
  on_objects u fault = fault
  on_objects u out_of_fuel = out_of_fuel

  -- A client keeps what it got, unless that is null.
  abbrev pub keep : Ptr → Cmd (Users T) Bool
  keep p u = if p == null then ok false u else ok true (record u { held = p ∷ u.held })

  abbrev pub give : ℕ → Option Ptr → Cmd (Users T) Bool
  give k none = pure false
  give k (some p) = do
    (λ u. on_objects u (give_back p u.objects))
    modify (λ u. record u { held = without k u.held })
    pure true

  -- The reply: whether an object was got, or given back.
  abbrev pub ask : ℕ → Construct T → Ask → Cmd (Users T) Bool
  ask max_size c borrow = (λ u. on_objects u (do_try_borrow_one max_size c u.objects)) >>= keep
  ask max_size c (release k) = λ u. give k (get_elem? u.held k) u

  abbrev pub asks : ℕ → Construct T → List Ask → Cmd (Users T) (List Bool)
  asks max_size c [] = pure []
  asks max_size c (q ∷ qs) = do r ← ask max_size c q; rs ← asks max_size c qs; pure (r ∷ rs)

-- A semaphore with `max_size` permits, `n` of them taken.
abbrev pub take_or_give : ℕ → Ask → ℕ → Bool × ℕ
take_or_give max_size borrow n = if ltb n max_size then (true, suc n) else (false, n)
take_or_give max_size (release k) n = if ltb k n then (true, n - 1) else (false, n)

abbrev pub semaphore : ℕ → List Ask → ℕ → List Bool × ℕ
semaphore max_size [] n = ([], n)
semaphore max_size (q ∷ qs) n =
    let (r, n₁) = take_or_give max_size q n in
    let (rs, n₂) = semaphore max_size qs n₁ in (r ∷ rs, n₂)
