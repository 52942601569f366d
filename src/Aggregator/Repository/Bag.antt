-- ===== src/Aggregator/Repository/Bag.antt =====
-- The counters of a developer over a bag of events.
use mathlib.Core.Quot
use mathlib.Core.Quot.{Quot}
use mathlib.Core.List.{Permᴰ}
use mathlib.Core.List.Permᴰ.{nil, cons, swap, trans}
use devflow_pipeline.Prelude.{String, ◌≡◌, refl, ap, ◌∙◌, List, ℤ, ◌+ℤ◌, int_laws, arith}
use devflow_pipeline.Go.Float.{Float64}
use devflow_pipeline.Aggregator.Domain.{ProcessedEvent}
use devflow_pipeline.Aggregator.Repository.Totals.{Totals, count_event, totals_of}

Totals-set : IsSet Totals
Totals-set = hlevel

+ℤ-swap : (a b c : ℤ) → a +ℤ b +ℤ c ≡ a +ℤ c +ℤ b
+ℤ-swap a b c = omega int_laws

module _ (fl : Float64) where
  -- Events without their order.
  abbrev pub Bag : Type 0
  Bag = Quot (λ (es ds : List (ProcessedEvent fl)). Permᴰ es ds)

  count_event-swap :
      (t : Totals) (d e : ProcessedEvent fl)
      → count_event fl (count_event fl t d) e ≡ count_event fl (count_event fl t e) d
  unfolding count_event
  count_event-swap t d e = ground (
    arith,
    +ℤ-swap t.commits (fl.to_int64 d.value) (fl.to_int64 e.value),
    +ℤ-swap t.pull_requests (fl.to_int64 d.value) (fl.to_int64 e.value),
  )

  totals_of-Perm :
      (dev : String) (es ds : List (ProcessedEvent fl))
      → Permᴰ es ds
      → totals_of fl dev es ≡ totals_of fl dev ds
  unfolding totals_of
  totals_of-Perm dev _ _ nil = refl
  totals_of-Perm dev _ _ (cons {a} {b} {l₁} {l₂} same p) =
      rw (same, totals_of-Perm dev l₁ l₂ p) refl
  totals_of-Perm dev _ _ (swap {a} {b} {a'} {b'} {l} p q) =
      rw (p, q) (ground (arith, count_event-swap (totals_of fl dev l) a' b'))
  totals_of-Perm dev _ _ (trans {l₁} {l₂} {l₃} p q) =
      totals_of-Perm dev l₁ l₂ p ∙ totals_of-Perm dev l₂ l₃ q

  pub totals_in : String → Bag → Totals
  totals_in dev = Quot.lift Totals-set (totals_of fl dev) (totals_of-Perm dev)

  abbrev pub bag_of : List (ProcessedEvent fl) → Bag
  bag_of es = Quot.mk es

  -- Lists with one bag have the same counters.
  pub totals_of-bag_of :
      (dev : String) (es ds : List (ProcessedEvent fl))
      → bag_of es ≡ bag_of ds
      → totals_of fl dev es ≡ totals_of fl dev ds
  unfolding totals_in
  totals_of-bag_of dev es ds same = ap (totals_in dev) same
