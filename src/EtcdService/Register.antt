-- ===== src/EtcdService/Register.antt =====
-- Registering provider agents (src/etcd_service.cc): one after the other, and two at once.
use ali_middleware.Common.{
  ℕ, ◌≡◌, ◌≢◌, refl, sym, ◌∙◌, ap, true, false, List, [], ◌∷◌, ◌++◌, append_assoc,
}
use ali_middleware.Common.Rlib.{Rlib, IsParts, join_spec}
use ali_middleware.Common.Run.{Cmd, ◌>>◌, ok, ◌>>=◌}
use ali_middleware.Common.Text.{Text, is_empty}
use ali_middleware.EtcdService.{EtcdClient, sync_get, sync_set, appended, append, get_list}

pub IsParts-append :
    (d : ℕ) (ss : List Text) (v : Text)
    → IsParts d ss
    → IsParts d (v ∷ [])
    → IsParts d (ss ++ v ∷ [])
IsParts-append d [] v h hv = hv
IsParts-append d (s ∷ ss) v (ne, free, h) hv = (ne, free, IsParts-append d ss v h hv)

join_spec-append :
    (d : ℕ) (s : Text) (ss : List Text) (v : Text)
    → join_spec d (s ∷ (ss ++ v ∷ [])) ≡ (join_spec d (s ∷ ss) ++ d ∷ []) ++ v
join_spec-append d s [] v = sym (append_assoc s (d ∷ []) v)
join_spec-append d s (t ∷ ss) v =
    ap (λ l. s ++ d ∷ l) (join_spec-append d t ss v)
    ∙ sym (
        ap (λ l. l ++ v) (append_assoc s (d ∷ join_spec d (t ∷ ss)) (d ∷ []))
        ∙ append_assoc s (d ∷ join_spec d (t ∷ ss) ++ d ∷ []) v)

is_empty-join_spec :
    (d : ℕ) (s : Text) (ss : List Text) → s ≢ [] → is_empty (join_spec d (s ∷ ss)) ≡ false
is_empty-join_spec d [] ss ne = absurd (ne refl)
is_empty-join_spec d (c ∷ s) [] ne = refl
is_empty-join_spec d (c ∷ s) (t ∷ ss) ne = refl

split-join_spec :
    (rlib : Rlib) (d : ℕ) (ss : List Text) (v : Text)
    → IsParts d (ss ++ v ∷ [])
    → rlib.split (join_spec d (ss ++ v ∷ [])) d ≡ ss ++ v ∷ []
split-join_spec rlib d [] v h = rlib.split-parts d v [] h
split-join_spec rlib d (s ∷ ss) v h = rlib.split-parts d s (ss ++ v ∷ []) h

module _ (etcd : EtcdClient) (rlib : Rlib) where
  open etcd use {Store, get, set}

  -- The key holds the list.
  abbrev pub Keeps : Text → List Text → Store → Type 0
  Keeps key ss s = sync_get etcd key s ≡ ok (join_spec b'|' ss) s

  appended-join_spec :
      (ss : List Text) (v : Text)
      → IsParts b'|' ss
      → appended etcd (join_spec b'|' ss) v ≡ join_spec b'|' (ss ++ v ∷ [])
  unfolding appended
  appended-join_spec [] v h = refl
  appended-join_spec (s ∷ ss) v (ne, _, _) =
      rw (is_empty-join_spec b'|' s ss ne) (sym (join_spec-append b'|' s ss v))

  set-Keeps :
      (key value : Text) (s : Store)
      → (set key value s).0.is_ok ≡ true
      → (sync_set etcd key value s ≡ ok tt (set key value s).1)
        × (sync_get etcd key (set key value s).1 ≡ ok value (set key value s).1)
  unfolding sync_set sync_get
  set-Keeps key value s e = let (k, v) = etcd.get-set key value s e in (rw e refl, rw (k, v) refl)

  pub get_list-parts :
      (key : Text) (v : Text) (ss : List Text) (s : Store)
      → IsParts b'|' (v ∷ ss)
      → Keeps key (v ∷ ss) s
      → get_list etcd rlib key s ≡ ok (v ∷ ss) s
  unfolding get_list
  get_list-parts key v ss s h k = rw k (ap (λ l. ok l s) (rlib.split-parts b'|' v ss h))

  get_list-Keeps :
      (key : Text) (ss : List Text) (v : Text) (s : Store)
      → IsParts b'|' (ss ++ v ∷ [])
      → Keeps key (ss ++ v ∷ []) s
      → get_list etcd rlib key s ≡ ok (ss ++ v ∷ []) s
  unfolding get_list
  get_list-Keeps key ss v s h k = rw k (ap (λ l. ok l s) (split-join_spec rlib b'|' ss v h))

  -- When the key holds a list of addresses, none empty or with a '|', and etcd takes the new value,
  -- append adds the address at the end: the key then holds the longer list, and get_list returns it.
  pub append-get_list :
      (key : Text) (ss : List Text) (v : Text) (s : Store)
      → IsParts b'|' ss
      → IsParts b'|' (v ∷ [])
      → Keeps key ss s
      → (set key (join_spec b'|' (ss ++ v ∷ [])) s).0.is_ok ≡ true
      → (s' : Store) × (append etcd key v s ≡ ok tt s')
        × Keeps key (ss ++ v ∷ []) s'
        × (get_list etcd rlib key s' ≡ ok (ss ++ v ∷ []) s')
  unfolding append
  append-get_list key ss v s h hv k e =
      let new = join_spec b'|' (ss ++ v ∷ []) in
      let s' = (set key new s).1 in
      let (written, kept) = set-Keeps key new s e in
      (
        s',
        rw k (ap (λ l. sync_set etcd key l s) (appended-join_spec ss v h) ∙ written),
        kept,
        get_list-Keeps key ss v s' (IsParts-append b'|' ss v h hv) kept,
      )

  -- Two registrations that both read before either writes.
  abbrev pub append_both : Text → Text → Text → Cmd Store (Unit {0})
  append_both key v w = do
    origin_v ← sync_get etcd key
    origin_w ← sync_get etcd key
    sync_set etcd key (appended etcd origin_v v)
    sync_set etcd key (appended etcd origin_w w)

  -- When two agents append an address each, both read the list before either writes, and etcd takes
  -- both values, the list has the second address alone behind the old ones. No address is empty or has
  -- a '|'.
  pub append_both-lost :
      (key : Text) (ss : List Text) (v w : Text) (s : Store)
      → IsParts b'|' ss
      → IsParts b'|' (w ∷ [])
      → Keeps key ss s
      → (set key (join_spec b'|' (ss ++ v ∷ [])) s).0.is_ok ≡ true
      → (set key
          (join_spec b'|' (ss ++ w ∷ []))
          (set key (join_spec b'|' (ss ++ v ∷ [])) s).1).0.is_ok
        ≡ true
      → (s' : Store) × (append_both key v w s ≡ ok tt s')
        × (get_list etcd rlib key s' ≡ ok (ss ++ w ∷ []) s')
  append_both-lost key ss v w s h hw k e₁ e₂ =
      let new_v = join_spec b'|' (ss ++ v ∷ []) in
      let new_w = join_spec b'|' (ss ++ w ∷ []) in
      let s₁ = (set key new_v s).1 in
      let (written_v, _) = set-Keeps key new_v s e₁ in
      let (written_w, kept) = set-Keeps key new_w s₁ e₂ in
      (
        (set key new_w s₁).1,
        rw (k, appended-join_spec ss v h) (rw (k, appended-join_spec ss w h, written_v) written_w),
        get_list-Keeps key ss w (set key new_w s₁).1 (IsParts-append b'|' ss w h hw) kept,
      )
