-- ===== src/Platform/Limiter/Window.antt =====
-- The limiter against the record of what it granted (security/rate_limiter.py).
use Prim.Native.Nat.{◌≤◌}
use ai_soc.Prelude.{
  ℕ, String, ◌≡◌, refl, sym, ◌∙◌, ap, Bool, true, false, not, ◌&&◌, Option, none, some, List, [],
  ◌∷◌, ◌++◌, length, keep, ltb, leb, if◌then◌else◌, str_eq, eq_iff, Bool-cases, inl, inr, arith,
}
use mathlib.Core.List.{append-nil}
use ai_soc.Python.{Python}
use ai_soc.Platform.Limiter.{
  Limiter, Call, block_user, check, is_blocked, unblock, recent, max_requests, count_request,
  check_request, step, fresh_limiter,
}

-- A grant: when, to whom and for what.
pub record Grant : Type 0 where
  pub time : ℕ
  pub user_id : String
  pub endpoint : String

-- the times of the grants to a user for an endpoint
abbrev pub granted_at : String → String → List Grant → List ℕ
granted_at u e [] = []
granted_at u e (g ∷ gs) =
    let rest = granted_at u e gs in
    if str_eq g.user_id u && str_eq g.endpoint e then g.time ∷ rest else rest

abbrev pub log_step : ℕ → Call → Bool → List Grant → List Grant
log_step now (block_user u d) ok log = log
log_step now (check u r e) true log = log ++ record { time = now; user_id = u; endpoint = e } ∷ []
log_step now (check u r e) false log = log

keep-append : (f : ℕ → Bool) (xs ys : List ℕ) → keep f (xs ++ ys) ≡ keep f xs ++ keep f ys
keep-append f [] ys = refl
keep-append f (x ∷ xs) ys = elim (Bool-cases (f x)) [
  | inl yes_kept ↦ rw (yes_kept, keep-append f xs ys)
  | inr dropped ↦ rw (dropped, keep-append f xs ys)
]

-- What is recent later is recent now.
keep_later :
    (now later : ℕ)
    → now ≤ later
    → (xs : List ℕ) → keep (recent later) (keep (recent now) xs) ≡ keep (recent later) xs
keep_later now later h [] = refl
keep_later now later h (x ∷ xs) = elim (Bool-cases (recent now x)) [
  | inl fresh ↦ elim (Bool-cases (recent later x)) [
    | inl still ↦ rw (fresh, still, keep_later now later h xs)
    | inr gone ↦ rw (fresh, gone, keep_later now later h xs)
  ]
  | inr old ↦
      let gone : recent later x ≡ false = ground (arith, old, h) in
      rw (old, gone, keep_later now later h xs)
]

granted_at-last :
    (log : List Grant) (g : Grant) (u e : String)
    → granted_at u e (log ++ g ∷ [])
      ≡ granted_at u e log
        ++ (if str_eq g.user_id u && str_eq g.endpoint e then g.time ∷ [] else [])
granted_at-last [] g u e = refl
granted_at-last (x ∷ log) g u e =
    let rest = granted_at-last log g u e in
    elim (Bool-cases (str_eq x.user_id u && str_eq x.endpoint e)) [
      | inl same ↦ simp same (ap (λ ts. x.time ∷ ts) rest)
      | inr other ↦ simp other rest
    ]

-- From `now` on the limiter and the log agree on what is recent.
abbrev pub Agrees : ℕ → Limiter → List Grant → Type 0
Agrees now l log =
    (later : ℕ) (u e : String)
    → now ≤ later
    → keep (recent later) (l.requests u e) ≡ keep (recent later) (granted_at u e log)

requests-unblock :
    (o : Option ℕ) (user_id u e : String) (l : Limiter)
    → (unblock o user_id l).requests u e ≡ l.requests u e
requests-unblock none user_id u e l = refl
requests-unblock (some t) user_id u e l = refl

same_key :
    (l : Limiter) (u e v f : String)
    → (str_eq u v && str_eq e f) ≡ true
    → l.requests u e ≡ l.requests v f
same_key l u e v f h =
    ap (λ z. l.requests z e) ((eq_iff u v).0 (ground (arith, h)))
    ∙ ap (λ z. l.requests v z) ((eq_iff e f).0 (ground (arith, h)))

module _ (py : Python) where
  counted :
      (now : ℕ) (u r e : String) (l : Limiter) (granted : List ℕ)
      → keep (recent now) (l.requests u e) ≡ keep (recent now) granted
      → (count_request py now u r e l).0
        ≡ ltb (length (keep (recent now) granted)) (max_requests py r e)
  unfolding count_request
  counted now u r e l granted h =
      let same = ap length h in
      elim (Bool-cases (leb (max_requests py r e) (length (keep (recent now) (l.requests u e))))) [
        | inl full ↦ rw full (ground (arith, same, full))
        | inr room ↦ rw room (ground (arith, same, room))
      ]

  count_request-Agrees :
      (now now' : ℕ) (u r e : String) (l : Limiter) (log : List Grant)
      → Agrees now l log
      → now ≤ now'
      → let (ok, l') = count_request py now' u r e l in
        Agrees now' l' (log_step now' (check u r e) ok log)
  unfolding count_request
  count_request-Agrees now now' u r e l log agrees h later v f h' =
      let kept = keep (recent now') (l.requests u e) in
      let old : keep (recent later) (l.requests v f) ≡ keep (recent later) (granted_at v f log) =
        agrees later v f (omega (arith, h, h')) in
      elim (Bool-cases (leb (max_requests py r e) (length kept))) [
        | inl full ↦ elim (Bool-cases (str_eq u v && str_eq e f)) [
          | inl same ↦
              rw (full, same)
                (keep_later now' later h' (l.requests u e)
                  ∙ ap (keep (recent later)) (same_key l u e v f same)
                  ∙ old)
          | inr other ↦ rw (full, other) old
        ]
        | inr room ↦ elim (Bool-cases (str_eq u v && str_eq e f)) [
          | inl same ↦
              let last =
                granted_at-last log (record { time = now'; user_id = u; endpoint = e }) v f
                ∙ ap (λ (b : Bool). granted_at v f log ++ (if b then now' ∷ [] else [])) same in
              rw (room, same)
                (keep-append (recent later) kept (now' ∷ [])
                  ∙ ap (λ xs. xs ++ keep (recent later) (now' ∷ []))
                      (keep_later now' later h' (l.requests u e)
                        ∙ ap (keep (recent later)) (same_key l u e v f same)
                        ∙ old)
                  ∙ sym (
                      ap (keep (recent later)) last
                      ∙ keep-append (recent later) (granted_at v f log) (now' ∷ [])))
          | inr other ↦
              let last =
                granted_at-last log (record { time = now'; user_id = u; endpoint = e }) v f
                ∙ ap (λ (b : Bool). granted_at v f log ++ (if b then now' ∷ [] else [])) other
                ∙ append-nil (granted_at v f log) in
              rw (room, other) (old ∙ sym (ap (keep (recent later)) last))
        ]
      ]

  step-Agrees :
      (now now' : ℕ) (c : Call) (l : Limiter) (log : List Grant)
      → Agrees now l log
      → now ≤ now'
      → Agrees now' (step py now' c l).1 (log_step now' c (step py now' c l).0 log)
  unfolding step check_request
  step-Agrees now now' (block_user v d) l log agrees h =
      λ later u e h'. agrees later u e (omega (arith, h, h'))
  step-Agrees now now' (check u r e) l log agrees h =
      elim (Bool-cases (is_blocked (l.blocked_users u) now')) [
        | inl blocked ↦ rw blocked (λ later v f h'. agrees later v f (omega (arith, h, h')))
        | inr free ↦
            let open_l = unblock (l.blocked_users u) u l in
            rw free (
              count_request-Agrees now now' u r e open_l log
                (λ later v f h'.
                  ap (keep (recent later)) (requests-unblock (l.blocked_users u) u v f l)
                  ∙ agrees later v f h')
                h)
      ]

  -- The calls one after another, each with its time, and the grants so far.
  unfoldable pub run_calls : List (ℕ × Call) → Limiter → List Grant → Limiter × List Grant
  unfolding step
  run_calls [] l log = (l, log)
  run_calls ((now, c) ∷ calls) l log =
      let (ok, l') = step py now c l in run_calls calls l' (log_step now c ok log)

  -- The clock does not go back.
  abbrev pub Ordered : ℕ → List (ℕ × Call) → ℕ → Type 0
  Ordered start [] end = start ≤ end
  Ordered start ((now, c) ∷ calls) end = (start ≤ now) × Ordered now calls end

  run_calls-Agrees :
      (calls : List (ℕ × Call)) (start end : ℕ) (l : Limiter) (log : List Grant)
      → Ordered start calls end
      → Agrees start l log
      → Agrees end (run_calls calls l log).0 (run_calls calls l log).1
  unfolding run_calls
  run_calls-Agrees [] start end l log o agrees =
      λ later u e h. agrees later u e (omega (arith, o, h))
  run_calls-Agrees ((now, c) ∷ calls) start end l log o agrees =
      run_calls-Agrees calls now end (step py now c l).1 (log_step now c (step py now c l).0 log)
        o.1 (step-Agrees start now c l log agrees o.0)

  -- After any calls in the order of their times, a request is granted exactly if its user is not
  -- blocked and was granted fewer requests for its endpoint in the last 60 seconds than the limit of
  -- the endpoint for the role.
  pub check_request-window :
      (calls : List (ℕ × Call)) (now : ℕ) (u r e : String)
      → Ordered 0 calls now
      → let (l, log) = run_calls calls fresh_limiter [] in
        (check_request py now u r e l).0 ≡ (
          not (is_blocked (l.blocked_users u) now)
          && ltb (length (keep (recent now) (granted_at u e log))) (max_requests py r e))
  unfolding check_request
  check_request-window calls now u r e o =
      let l = (run_calls calls fresh_limiter []).0 in
      let log = (run_calls calls fresh_limiter []).1 in
      let agrees : Agrees now l log =
        run_calls-Agrees calls 0 now fresh_limiter [] o (λ later v f h. refl) in
      elim (Bool-cases (is_blocked (l.blocked_users u) now)) [
        | inl blocked ↦ rw blocked refl
        | inr free ↦
            let open_l = unblock (l.blocked_users u) u l in
            let times =
              ap (keep (recent now)) (requests-unblock (l.blocked_users u) u u e l)
              ∙ agrees now u e (omega arith) in
            rw free (counted now u r e open_l (granted_at u e log) times)
      ]
