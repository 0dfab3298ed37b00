-- ===== src/Detection/Tenant/Blocked.antt =====
-- Scans that raise, and their watermark (engine.py).
use ai_soc.Prelude.{ℕ, ◌≡◌, Option, none, some, List, [], or_else, ◌-◌, true}
use mathlib.Core.List.{Memᴰ}
use ai_soc.Python.{Python}
use ai_soc.Store.{SecurityEvent, Watermark, Db}
use ai_soc.Detection.Match.{Intel}
use ai_soc.Detection.Scan.{
  first_scan_lookback, known_hashes, recent_fingerprints, history_seconds, dedup_window,
}
use ai_soc.Detection.Scan.Faults.{HasBadCommandLine, rule_pass_raises}
use ai_soc.Detection.Tenant.{Bucket, events_since, scan_tenant, raised_type_error}

-- A single process event whose command line holds something other than a text stops the detection
-- of its tenant: every scan that resumes from the watermark and whose events include it raises,
-- whatever the models, the feed, the history and the other events, and so moves no watermark.
pub scan_blocked :
    (py : Python) (models : Option (Bucket → ℕ → Option ℕ)) (t : ℕ) (db : Db)
    (stored : List SecurityEvent) (intel : Intel) (wm : Watermark) (ev : SecurityEvent)
    → Memᴰ ev (events_since t (or_else wm.last_scan_at (db.now - first_scan_lookback)) stored)
    → HasBadCommandLine ev
    → scan_tenant py models t db stored intel wm none ≡ raised_type_error
unfolding scan_tenant
scan_blocked py models t db stored intel wm ev m bad = rw (
    rule_pass_raises py (λ f. true) (some (known_hashes py t (db.now - history_seconds) stored))
      intel t ev (record { seen = recent_fingerprints db t (db.now - dedup_window); drafts = [] })
      (events_since t (or_else wm.last_scan_at (db.now - first_scan_lookback)) stored) m bad)
