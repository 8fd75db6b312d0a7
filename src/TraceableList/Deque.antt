-- ===== src/TraceableList/Deque.antt =====
-- lib/traceable_list.hpp used at its two ends, beside a sequence of values.
pub mod Refine
use ali_middleware.Common.{
  ℕ, suc, ◌+◌, ◌≤◌, ◌≡◌, refl, ap, Option, none, some, List, [], ◌∷◌, ◌++◌, length,
}
use ali_middleware.Common.Run.{
  Run, Cmd, ok, thrown, fault, out_of_fuel, invalid_argument, pure, and_then, ◌>>=◌, ◌>>◌,
}
use ali_middleware.TraceableList.{
  TraceableList, push_back, push_front, pop_back, pop_front, begin, end, decrement, deref, size,
  nothing_to_pop,
}
use ali_middleware.TraceableList.Chain.{Cell, IsList}

-- What a client does: it pushes, pops, reads `*begin()` or `*--end()`, or asks for the size.
pub data Op (T E : Type 0) : Type 0 where
  at_back at_front : T → E → Op T E
  off_back off_front read_front read_back ask_size : Op T E

pub data Reply (T : Type 0) : Type 0 where
  done : Reply T
  item : T → Reply T
  count : ℕ → Reply T

-- A sequence without its last element, and that.
abbrev pub unsnoc : {A : Type 0} → List A → Option (List A × A)
unsnoc [] = none
unsnoc (x ∷ xs) = elim (unsnoc xs) [ none ↦ some ([], x) | some (ws, w) ↦ some (x ∷ ws, w) ]

module _ {T E : Type 0} where
  abbrev pub run : Op T E → Cmd (TraceableList T E) (Reply T)
  run (at_back v e) = push_back v e >> pure done
  run (at_front v e) = push_front v e >> pure done
  run off_back = pop_back >> pure done
  run off_front = pop_front >> pure done
  run read_front = do it ← begin; v ← deref it; pure (item v)
  run read_back = do it ← end; last ← decrement it; v ← deref last; pure (item v)
  run ask_size = do n ← size; pure (count n)

  abbrev pub run_all : List (Op T E) → Cmd (TraceableList T E) (List (Reply T))
  run_all [] = pure []
  run_all (op ∷ ops) = do r ← run op; rs ← run_all ops; pure (r ∷ rs)

  -- The same over a sequence of values with their flags.
  abbrev pub spec : Op T E → Cmd (List (T × E)) (Reply T)
  spec (at_back v e) vs = ok done (vs ++ (v, e) ∷ [])
  spec (at_front v e) vs = ok done ((v, e) ∷ vs)
  spec off_back vs = elim (unsnoc vs) [ none ↦ fault | some (ws, w) ↦ ok done ws ]
  spec off_front [] = thrown (invalid_argument nothing_to_pop) []
  spec off_front (v ∷ vs) = ok done vs
  spec read_front [] = fault
  spec read_front ((v, e) ∷ vs) = ok (item v) ((v, e) ∷ vs)
  spec read_back vs = elim (unsnoc vs) [ none ↦ fault | some (ws, w) ↦ ok (item w.0) vs ]
  spec ask_size vs = ok (count (length vs)) vs

  abbrev pub spec_all : List (Op T E) → Cmd (List (T × E)) (List (Reply T))
  spec_all [] = pure []
  spec_all (op ∷ ops) = do r ← spec op; rs ← spec_all ops; pure (r ∷ rs)

  abbrev pub values : List (Cell T E) → List (T × E)
  values [] = []
  values (c ∷ cs) = (c.value, c.extra_info) ∷ values cs

  -- The list holds these values in this order, `n` at most, and is well-formed.
  pub record Stands (n : ℕ) (s : TraceableList T E) (vs : List (T × E)) : Type 0 where
    pub cells : List (Cell T E)
    pub list : IsList s cells
    pub agree : values cells ≡ vs
    pub within : length cells ≤ n

  -- Both runs end in the same way, with the same result or exception, the list standing for the values.
  abbrev pub Agrees : {A : Type 0} → ℕ → Run (TraceableList T E) A → Run (List (T × E)) A → Type 0
  Agrees n (ok a s) (ok b vs) = (a ≡ b) × Stands n s vs
  Agrees n (ok a s) (thrown f vs) = ⊥
  Agrees n (ok a s) fault = ⊥
  Agrees n (ok a s) out_of_fuel = ⊥
  Agrees n (thrown e s) (ok b vs) = ⊥
  Agrees n (thrown e s) (thrown f vs) = (e ≡ f) × Stands n s vs
  Agrees n (thrown e s) fault = ⊥
  Agrees n (thrown e s) out_of_fuel = ⊥
  Agrees n fault (ok b vs) = ⊥
  Agrees n fault (thrown f vs) = ⊥
  Agrees n fault fault = Unit
  Agrees n fault out_of_fuel = ⊥
  Agrees n out_of_fuel r = ⊥
