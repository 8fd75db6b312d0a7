-- ===== src/Consumer/Interleaved/Whole.antt =====
-- Reads of src/provider_selector.hpp that bring all that the provider has sent.
use ali_middleware.Common.{ℕ, ◌≡◌, []}
use ali_middleware.Common.Text.{Text}
use ali_middleware.Pool.{Construct}
use ali_middleware.Consumer.Interleaved.{
  Calls, Step, borrows, rejects, writes, serves, reads, releases, write_fails, read_fails, gives_up,
  breaks, Reach, started, then_step,
}

module _ {T : Type 0} (max_size : ℕ) (c : Construct T) (serve : Text → Text) where
  -- A read leaves nothing behind.
  abbrev pub IsWhole : (s s' : Calls T) → Step max_size c serve s s' → Type 0
  IsWhole s s' (borrows xs ys p o e run ne) = Unit
  IsWhole s s' (rejects xs ys p o e run) = Unit
  IsWhole s s' (writes xs ys p t e) = Unit
  IsWhole s s' (serves p t rest e) = Unit
  IsWhole s s' (reads xs ys p t got later e arrived some short) = later ≡ []
  IsWhole s s' (releases xs ys p t resp o e run) = Unit
  IsWhole s s' (write_fails xs ys p e dead) = Unit
  IsWhole s s' (read_fails xs ys p t e dead) = Unit
  IsWhole s s' (gives_up xs ys p o e run) = Unit
  IsWhole s s' (breaks p) = Unit

  abbrev pub AllWhole : (s₀ s : Calls T) → Reach max_size c serve s₀ s → Type 0
  AllWhole s₀ s started = Unit
  AllWhole s₀ s (then_step t s' before step) = AllWhole s₀ t before × IsWhole t s' step
