-- ===== src/Sensor/Commands/Agreement.antt =====
-- The backend's proposals (response/policy.py) as commands of the sensor (edysor_sensor.py).
use ai_soc.Prelude.{
  String, str_eq, eq_iff, refl, ◌≡◌, ◌≢◌, inl, inr, Bool, true, false, arith, All, All-mono,
  Bool-cases, ap, ◌∙◌, sym, if◌then◌else◌,
}
use ai_soc.Json.{text, or_value}
use ai_soc.Python.{Python}
use ai_soc.Store.{Alert, Proposal}
use ai_soc.Response.Policy.{propose_actions}
use ai_soc.Response.Policy.Proposals.{Proposed, kills, blocks, removes, propose_actions-Proposed}
use ai_soc.Sensor.Commands.{handle, handle_block_ip, block_on, iptables}
use ai_soc.Sensor.Endpoint.{Host, Platform, win32, linux, other_posix, refused, failed, done}

other_action : (a : String) → str_eq a "block_ip" ≡ false → a ≢ "block_ip"
other_action a e h = ground (arith, e, h, eq_iff a "block_ip")

-- `params.get("ip") or ""` is the address
or_value-address : (ip : String) → or_value (text ip) (text "") ≡ text ip
or_value-address ip = elim (Bool-cases (str_eq ip "")) [
  | inl empty ↦ rw empty (ap text (sym ((eq_iff ip "").0 empty)))
  | inr filled ↦ rw filled
]

-- on a block, whether the sensor does more than refuse it
abbrev pub Accepted : (py : Python) → Host → Proposal → Type 0
Accepted py host p = p.action ≡ "block_ip" → (handle py host p.action p.params).0 ≢ refused

done_or_failed : (b : Bool) → (if b then done else failed) ≢ refused
done_or_failed true = λ h. cc
done_or_failed false = λ h. cc

module _ (py : Python) (host : Host) where
  block_on-runs : (os : Platform) (ip : String) → (block_on py host os ip).0 ≢ refused
  block_on-runs win32 ip = done_or_failed _
  block_on-runs linux ip = elim (Bool-cases (host.succeeds (iptables py host "-C" ip))) [
    | inl there ↦ rw there (done_or_failed true)
    | inr new ↦ rw new (done_or_failed _)
  ]
  block_on-runs other_posix ip = done_or_failed false

  Proposed-Accepted : (p : Proposal) → Proposed py p → Accepted py host p
  unfolding handle handle_block_ip
  Proposed-Accepted p (kills pid name) h = elim (other_action _ refl h) [ ]
  Proposed-Accepted p (blocks ip address public) h =
      rw (ap py.str (or_value-address ip) ∙ py.str-text ip, address, public)
        (block_on-runs host.platform ip)
  Proposed-Accepted p (removes path) h = elim (other_action _ refl h) [ ]

  -- The sensor never refuses a block that the response policy proposes, whatever the alert and the
  -- endpoint: a failure to block is one of the endpoint.
  pub propose_actions-Accepted : (a : Alert) → All (Accepted py host) (propose_actions py a)
  propose_actions-Accepted a =
      All-mono (Proposed py) (Accepted py host) Proposed-Accepted (propose_actions py a)
        (propose_actions-Proposed py a)
