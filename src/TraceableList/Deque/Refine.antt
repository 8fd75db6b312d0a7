-- ===== src/TraceableList/Deque/Refine.antt =====
-- lib/traceable_list.hpp refines a sequence of values.
use ali_middleware.Common.{
  ℕ, suc, ◌+◌, ◌^◌, ◌≤◌, ◌<◌, ◌≡◌, refl, sym, ◌∙◌, ap, subst, inl, inr, some, List, [], ◌∷◌, ◌++◌,
  append-nil, arith, length, length-append,
}
use ali_middleware.Common.Run.{Run, Cmd, ok, thrown, fault, out_of_fuel, and_then}
use ali_middleware.TraceableList.{
  TraceableList, null, Iterator, begin, end, decrement, deref, size, load,
}
use ali_middleware.TraceableList.Chain.{Cell, IsList, last_cases}
use ali_middleware.TraceableList.Grow.{pushed}
use ali_middleware.TraceableList.Push.{push_back-IsList, push_front-IsList}
use ali_middleware.TraceableList.Pop.{pop_front-IsList, pop_back-IsList, pop-empty}
use ali_middleware.TraceableList.Walk.{deref-value, decrement-end}
use ali_middleware.TraceableList.Deque.{
  Op, at_back, at_front, off_back, off_front, read_front, read_back, ask_size, Reply, done, item,
  count, unsnoc, run, run_all, spec, spec_all, values, Stands, Agrees,
}

unsnoc-snoc : {A : Type 0} (ws : List A) (w : A) → unsnoc (ws ++ w ∷ []) ≡ some (ws, w)
unsnoc-snoc [] w = refl
unsnoc-snoc (x ∷ ws) w = rw (unsnoc-snoc ws w) refl

module _ {T E : Type 0} where
  values-append : (xs ys : List (Cell T E)) → values (xs ++ ys) ≡ values xs ++ values ys
  values-append [] ys = refl
  values-append (x ∷ xs) ys = ap (λ l. (x.value, x.extra_info) ∷ l) (values-append xs ys)

  length-values : (cs : List (Cell T E)) → length (values cs) ≡ length cs
  length-values [] = refl
  length-values (c ∷ cs) = ap suc (length-values cs)

  Stands-mono :
      (n k : ℕ) (s : TraceableList T E) (vs : List (T × E)) → n ≤ k → Stands n s vs → Stands k s vs
  Stands-mono n k s vs le st = record {
    cells = st.cells;
    list = st.list;
    agree = st.agree;
    within = omega (arith, st.within);
  }

  Agrees-and_then :
      {A B : Type 0} (n k : ℕ) (m : Run (TraceableList T E) A) (m' : Run (List (T × E)) A)
      (f : A → Cmd (TraceableList T E) B) (g : A → Cmd (List (T × E)) B)
      → n ≤ k
      → Agrees n m m'
      → ((a : A) (s : TraceableList T E) (vs : List (T × E))
          → Stands n s vs
          → Agrees k (f a s) (g a vs))
      → Agrees k (and_then m f) (and_then m' g)
  Agrees-and_then n k (ok a s) (ok b vs) f g le (e, st) h =
      subst (λ x. Agrees k (f a s) (g x vs)) e (h a s vs st)
  Agrees-and_then n k (ok a s) (thrown x vs) f g le bad h = absurd bad
  Agrees-and_then n k (ok a s) fault f g le bad h = absurd bad
  Agrees-and_then n k (ok a s) out_of_fuel f g le bad h = absurd bad
  Agrees-and_then n k (thrown e s) (ok b vs) f g le bad h = absurd bad
  Agrees-and_then n k (thrown e s) (thrown x vs) f g le (same, st) h =
      (same, Stands-mono n k s vs le st)
  Agrees-and_then n k (thrown e s) fault f g le bad h = absurd bad
  Agrees-and_then n k (thrown e s) out_of_fuel f g le bad h = absurd bad
  Agrees-and_then n k fault (ok b vs) f g le bad h = absurd bad
  Agrees-and_then n k fault (thrown x vs) f g le bad h = absurd bad
  Agrees-and_then n k fault fault f g le u h = tt
  Agrees-and_then n k fault out_of_fuel f g le bad h = absurd bad
  Agrees-and_then n k out_of_fuel m' f g le bad h = absurd bad

  -- By the run's result.
  Agrees-ok :
      (n : ℕ) (op : Op T E) (s s' : TraceableList T E) (r : Reply T) (cs : List (Cell T E))
      (m : Run (List (T × E)) (Reply T))
      → run op s ≡ ok r s'
      → IsList s' cs
      → length cs ≤ n
      → m ≡ ok r (values cs)
      → Agrees n (run op s) m
  Agrees-ok n op s s' r cs m e is le e' =
      rw (e, e') (refl, record { cells = cs; list = is; agree = refl; within = le })

  -- A fault of both.
  Agrees-fault :
      (n : ℕ) (op : Op T E) (s : TraceableList T E) (m : Run (List (T × E)) (Reply T))
      → run op s ≡ fault
      → m ≡ fault
      → Agrees n (run op s) m
  Agrees-fault n op s m e e' = rw (e, e') tt

  unsnoc-values :
      (cs : List (Cell T E)) (c : Cell T E)
      → unsnoc (values (cs ++ c ∷ [])) ≡ some (values cs, (c.value, c.extra_info))
  unsnoc-values cs c =
      ap unsnoc (values-append cs (c ∷ [])) ∙ unsnoc-snoc (values cs) (c.value, c.extra_info)

  front-Agrees :
      (n : ℕ) (s : TraceableList T E) (cs : List (Cell T E))
      → IsList s cs
      → length cs ≤ n
      → Agrees n (run off_front s) (spec off_front (values cs))
        × Agrees n (run read_front s) (spec read_front (values cs))
  unfolding deref begin load
  front-Agrees n s [] is le =
      let (_, throws, _) = pop-empty s (record { ptr = null; impl_tail = null }) is in
      (rw throws (refl, record { cells = []; list = is; agree = refl; within = le }), rw is.head tt)
  front-Agrees n s (c ∷ cs) is le =
      let (s', e, (is', _, _)) = pop_front-IsList s c cs is in
      let found =
        ap (λ p. deref (record { ptr = p; impl_tail = s.tail }) s) is.head
        ∙ deref-value s [] c cs is s.tail in
      (
        Agrees-ok n off_front s s' done cs (spec off_front (values (c ∷ cs))) (rw e refl) is'
            (omega arith) refl,
        Agrees-ok n read_front s s (item c.value) (c ∷ cs) (spec read_front (values (c ∷ cs)))
            (rw found refl) is le refl,
      )

  read_back-ok :
      (s : TraceableList T E) (it last : Iterator) (v : T)
      → end s ≡ ok it s
      → decrement it s ≡ ok last s
      → deref last s ≡ ok v s
      → run read_back s ≡ ok (item v) s
  read_back-ok s it last v e e' e'' = rw (e, e', e'') refl

  back-Agrees :
      (n : ℕ) (s : TraceableList T E) (cs : List (Cell T E))
      → IsList s cs
      → length cs ≤ n
      → Agrees n (run off_back s) (spec off_back (values cs))
        × Agrees n (run read_back s) (spec read_back (values cs))
  unfolding decrement end load
  back-Agrees n s cs is le = elim (last_cases cs) [
    | inl nothing ↦
        let is' = subst (IsList s) nothing is in
        let (_, _, faults) = pop-empty s (record { ptr = null; impl_tail = null }) is' in
        (
          Agrees-fault n off_back s (spec off_back (values cs)) (rw faults refl) (rw nothing refl),
          Agrees-fault n read_back s (spec read_back (values cs)) (rw is'.tail refl)
              (rw nothing refl),
        )
    | inr (ws, w, e) ↦
        let is' = subst (IsList s) e is in
        let (s', popped, (left, _, _)) = pop_back-IsList s ws w is' in
        let last_value = ap unsnoc (ap values e) ∙ unsnoc-values ws w in
        let (at_end, before) = decrement-end s ws w is' in
        let size = ap (λ (l : List (Cell T E)). length l) e ∙ length-append ws (w ∷ []) in
        let found = deref-value s ws w [] is' s.tail in
        (
          Agrees-ok n off_back s s' done (ws ++ []) (spec off_back (values cs)) (rw popped refl)
              left (omega (arith, length-append ws [], size))
              (rw (last_value, spec) (ap (λ l. ok done (values l)) (sym (append-nil ws)))),
          Agrees-ok n read_back s s (item w.value) cs (spec read_back (values cs))
              (read_back-ok s _ _ w.value at_end before found) is le (rw (last_value, spec) refl),
        )
  ]

  push-Agrees :
      (n : ℕ) (v : T) (e : E) (s : TraceableList T E) (cs : List (Cell T E))
      → IsList s cs
      → length cs + 1 < 2 ^ 64
      → suc (length cs) ≤ n
      → Agrees n (run (at_back v e) s) (spec (at_back v e) (values cs))
        × Agrees n (run (at_front v e) s) (spec (at_front v e) (values cs))
  push-Agrees n v e s cs is room le =
      let (s₁, e₁, is₁, _) = push_back-IsList s v e cs is room in
      let (s₂, e₂, is₂, _) = push_front-IsList s v e cs is room in
      (
        Agrees-ok n (at_back v e) s s₁ done (cs ++ pushed s.brk v e ∷ [])
            (spec (at_back v e) (values cs)) (rw e₁ refl) is₁
            (omega (arith, length-append cs (pushed s.brk v e ∷ [])))
            (ap (λ l. ok done l) (sym (values-append cs (pushed s.brk v e ∷ [])))),
        Agrees-ok n (at_front v e) s s₂ done (pushed s.brk v e ∷ cs)
            (spec (at_front v e) (values cs)) (rw e₂ refl) is₂ le refl,
      )

  size-Agrees :
      (n : ℕ) (s : TraceableList T E) (cs : List (Cell T E))
      → IsList s cs
      → length cs ≤ n
      → Agrees n (run ask_size s) (spec ask_size (values cs))
  unfolding size
  size-Agrees n s cs is le = (
    ap count (is.m_size ∙ sym (length-values cs)),
    record { cells = cs; list = is; agree = refl; within = le },
  )

  op-Agrees :
      (n : ℕ) (op : Op T E) (s : TraceableList T E) (cs : List (Cell T E))
      → IsList s cs
      → length cs + 1 < 2 ^ 64
      → suc (length cs) ≤ n
      → Agrees n (run op s) (spec op (values cs))
  op-Agrees n (at_back v e) s cs is room le = (push-Agrees n v e s cs is room le).0
  op-Agrees n (at_front v e) s cs is room le = (push-Agrees n v e s cs is room le).1
  op-Agrees n off_back s cs is room le = (back-Agrees n s cs is (omega arith)).0
  op-Agrees n off_front s cs is room le = (front-Agrees n s cs is (omega arith)).0
  op-Agrees n read_front s cs is room le = (front-Agrees n s cs is (omega arith)).1
  op-Agrees n read_back s cs is room le = (back-Agrees n s cs is (omega arith)).1
  op-Agrees n ask_size s cs is room le = size-Agrees n s cs is (omega arith)

  -- However a list is used at its two ends, it behaves as the sequence of its values: the replies are the
  -- same, and so is the end of the run, whether it returns, throws at a pop_front of the empty list, or has
  -- undefined behaviour at a pop_back of the empty list or a read there. The list is well-formed and
  -- stands for the sequence again. As many values as there are operations more must fit a size_t.
  pub run_all-Agrees :
      (ops : List (Op T E)) (n : ℕ) (s : TraceableList T E) (vs : List (T × E))
      → Stands n s vs
      → n + length ops < 2 ^ 64
      → Agrees (n + length ops) (run_all ops s) (spec_all ops vs)
  run_all-Agrees [] n s vs st room = (refl, Stands-mono n (n + 0) s vs (omega arith) st)
  run_all-Agrees (op ∷ ops) n s vs st room =
      let first =
        op-Agrees (suc n) op s st.cells st.list (omega (arith, st.within))
          (omega (arith, st.within)) in
      let more : suc n + length ops ≡ n + length (op ∷ ops) = omega arith in
      Agrees-and_then (suc n) (n + length (op ∷ ops)) (run op s) (spec op vs) _ _ (omega arith)
        (subst (λ l. Agrees (suc n) (run op s) (spec op l)) st.agree first)
        (λ r s' vs' st'.
          Agrees-and_then (suc n + length ops) (n + length (op ∷ ops)) (run_all ops s')
            (spec_all ops vs') _ _ (omega arith)
            (run_all-Agrees ops (suc n) s' vs' st' (omega arith))
            (λ rs s'' vs'' st''. (
              refl,
              Stands-mono (suc n + length ops) (n + length (op ∷ ops)) s'' vs'' (omega arith) st'',
            )))
