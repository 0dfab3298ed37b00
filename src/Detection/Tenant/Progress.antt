-- ===== src/Detection/Tenant/Progress.antt =====
-- The watermark of a tenant over two scans (engine.py).
use ai_soc.Prelude.{
  ℕ, zero, suc, ◌≤◌, ◌<◌, ◌≡◌, inl, inr, List, [], ◌∷◌, arith, ltb, leb, if◌then◌else◌, All,
  All-mono, keep, take, Bool-cases,
}
use ai_soc.Store.{SecurityEvent}
use ai_soc.Detection.Scan.{max_events_per_scan}
use ai_soc.Detection.Tenant.{insert_by_time, sort_by_time, is_after, events_since, max_observed}

module _ (P : SecurityEvent → Type 0) where
  insert-All :
      (e : SecurityEvent) (es : List SecurityEvent) → P e → All P es → All P (insert_by_time e es)
  insert-All e [] h hs = (h, tt)
  insert-All e (x ∷ es) h hs = elim (Bool-cases (leb e.observed_at x.observed_at)) [
    | inl first ↦ rw first (h, hs)
    | inr later ↦ rw later (hs.0, insert-All e es h hs.1)
  ]

  sort-All : (es : List SecurityEvent) → All P es → All P (sort_by_time es)
  sort-All [] h = tt
  sort-All (e ∷ es) h = insert-All e (sort_by_time es) h.0 (sort-All es h.1)

  take-All : (n : ℕ) (es : List SecurityEvent) → All P es → All P (take n es)
  take-All zero es h = tt
  take-All (suc n) [] h = tt
  take-All (suc n) (e ∷ es) h = (h.0, take-All n es h.1)

-- An event of the tenant that lies after an instant.
pub record IsAfter (tenant_id since : ℕ) (e : SecurityEvent) : Type 0 where
  pub tenant : e.tenant_id ≡ tenant_id
  pub later : since < e.observed_at

keep-IsAfter :
    (t since : ℕ) (es : List SecurityEvent) → All (IsAfter t since) (keep (is_after t since) es)
keep-IsAfter t since [] = tt
keep-IsAfter t since (e ∷ es) = elim (Bool-cases (is_after t since e)) [
  | inl in_window ↦ rw in_window (ground arith, keep-IsAfter t since es)
  | inr outside ↦ rw outside (keep-IsAfter t since es)
]

events_since-IsAfter :
    (t since : ℕ) (es : List SecurityEvent) → All (IsAfter t since) (events_since t since es)
unfolding events_since
events_since-IsAfter t since es =
    let P = IsAfter t since in
    take-All P max_events_per_scan (sort_by_time (keep (is_after t since) es))
      (sort-All P (keep (is_after t since) es) (keep-IsAfter t since es))

max_observed-le : (m : ℕ) (es : List SecurityEvent) → m ≤ max_observed m es
unfolding max_observed
max_observed-le m [] = omega arith
max_observed-le m (e ∷ es) = ground (arith, max_observed-le m es, max_observed-le e.observed_at es)

observed-le-max_observed :
    (m : ℕ) (es : List SecurityEvent) → All (λ e. e.observed_at ≤ max_observed m es) es
unfolding max_observed
observed-le-max_observed m [] = tt
observed-le-max_observed m (e ∷ es) =
    let m' = if ltb m e.observed_at then e.observed_at else m in
    (ground (arith, max_observed-le m' es), observed-le-max_observed m' es)

-- No event is scanned twice: after a scan from `since`, the events of a scan that resumes at the
-- new watermark, whatever was stored in between, all lie strictly later than every event of the
-- first scan, and all belong to the tenant.
pub scans_disjoint :
    (t since : ℕ) (stored stored' : List SecurityEvent)
    → let first = events_since t since stored in
      let second = events_since t (max_observed since first) stored' in
      All (λ e. All (λ e'. (e'.tenant_id ≡ t) × (e.observed_at < e'.observed_at)) second) first
scans_disjoint t since stored stored' =
    let first = events_since t since stored in
    let w = max_observed since first in
    let second = events_since t w stored' in
    All-mono (λ e. e.observed_at ≤ w)
      (λ e. All (λ e'. (e'.tenant_id ≡ t) × (e.observed_at < e'.observed_at)) second)
      (λ e h.
        All-mono (IsAfter t w) (λ e'. (e'.tenant_id ≡ t) × (e.observed_at < e'.observed_at))
          (λ e' after. (after.tenant, omega (arith, after.later, h))) second
          (events_since-IsAfter t w stored'))
      first (observed-le-max_observed since first)

-- The watermark of a scan that resumes never moves backwards.
pub watermark-le :
    (t since : ℕ) (stored : List SecurityEvent)
    → since ≤ max_observed since (events_since t since stored)
watermark-le t since stored = max_observed-le since (events_since t since stored)
