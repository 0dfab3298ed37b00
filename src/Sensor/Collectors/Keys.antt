-- ===== src/Sensor/Collectors/Keys.antt =====
-- The keys of connections, and the set of those that the sensor remembers (edysor_sensor.py, collect_network).
use Prim.Native.Nat.{◌≤◌}
use ai_soc.Prelude.{
  ℕ, ◌≡◌, refl, sym, subst, ap, Bool, ◌&&◌, ==_iff, eq_iff, true, false, ◌||◌, Option, none, some,
  List, [], ◌∷◌, ◌++◌, length, All, Bool-cases, inl, inr, arith, eq_refl, ==_refl,
}
use ai_soc.Sensor.Collectors.{ConnKey}
use ai_soc.Sensor.Collectors.Connections.{same_pid, same_key, seen, remember, max_conns}

abbrev pub Distinct : List ConnKey → Type 0
Distinct [] = Unit
Distinct (k ∷ ks) = (seen k ks ≡ false) × Distinct ks

pub same_pid_refl : (p : Option ℕ) → same_pid p p ≡ true
same_pid_refl none = refl
same_pid_refl (some p) = ==_refl p

pub same_key_refl : (k : ConnKey) → same_key k k ≡ true
same_key_refl k =
    rw
      (
        same_pid_refl (k.pid),
        ==_refl (k.kind),
        eq_refl (k.near),
        eq_refl (k.far),
        eq_refl (k.status),
      )
      refl

pub same_pid_sound : (p q : Option ℕ) → same_pid p q ≡ true → p ≡ q
same_pid_sound none none h = refl
same_pid_sound (some p) (some q) h = ap some ((==_iff p q).0 h)
same_pid_sound none (some q) h = ground (arith, h)
same_pid_sound (some p) none h = ground (arith, h)

pub and_parts : (a b : Bool) → (a && b) ≡ true → (a ≡ true) × (b ≡ true)
and_parts a b h = ground (arith, h)

pub same_key_sound : (j k : ConnKey) → same_key j k ≡ true → j ≡ k
same_key_sound j k h =
    let (front, status) = and_parts _ _ h in
    let (ends, far) = and_parts _ _ front in
    let (kinds, nears) = and_parts _ _ ends in
    let (pids, kind) = and_parts _ _ kinds in
    same_record (same_pid_sound (j.pid) (k.pid) pids) ((==_iff (j.kind) (k.kind)).0 kind)
      ((eq_iff (j.near) (k.near)).0 nears) ((eq_iff (j.far) (k.far)).0 far)
      ((eq_iff (j.status) (k.status)).0 status)
  where
    same_record :
        j.pid ≡ k.pid
        → j.kind ≡ k.kind
        → j.near ≡ k.near
        → j.far ≡ k.far
        → j.status ≡ k.status
        → j ≡ k
    same_record a b c d e = cc

pub All-seen :
    (P : ConnKey → Type 0) (k : ConnKey) (ks : List ConnKey) → All P ks → seen k ks ≡ true → P k
All-seen P k [] all h = ground (arith, h)
All-seen P k (j ∷ ks) all h = elim (Bool-cases (same_key k j)) [
  | inl here ↦ subst P (sym (same_key_sound k j here)) all.0
  | inr other ↦ All-seen P k ks all.1 (ground (arith, h, other))
]

pub same_truth : (a b : Bool) → (a ≡ true → b ≡ true) → (b ≡ true → a ≡ true) → a ≡ b
same_truth true true f g = refl
same_truth false false f g = refl
same_truth true false f g = sym (f refl)
same_truth false true f g = g refl

pub remember_bounded : (k : ConnKey) (ks : List ConnKey) → length (remember k ks) ≤ max_conns
unfolding remember
remember_bounded k ks = ground arith

pub seen_first : (k : ConnKey) (ks : List ConnKey) → seen k (k ∷ ks) ≡ true
seen_first k ks = rw (same_key_refl k) refl

pub seen-append :
    (k : ConnKey) (ks js : List ConnKey) → seen k (ks ++ js) ≡ (seen k ks || seen k js)
seen-append k [] js = refl
seen-append k (j ∷ ks) js = ground (arith, seen-append k ks js)

pub seen_more : (j k : ConnKey) (ks : List ConnKey) → seen j ks ≡ true → seen j (k ∷ ks) ≡ true
seen_more j k ks h = ground (arith, h)
